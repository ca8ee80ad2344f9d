-- ===== src/Catalog/Visibility.antt =====
-- internal/catalog/hidden.go: hiding and showing an item (SetHidden), and the series key as the
-- queries of internal/catalog/status.go compute it.
use jellysync.Common.{
  Str, str_eq, str_eq_iff, str_eq_refl, lit, is_empty, ℕ, ◌≡◌, ◌⊎◌, inl, inr, refl, Bool, true,
  false, ◌&&◌, ◌||◌, Option, none, some, [], ◌∷◌, arith, if◌then◌else◌, is_some, Bool-cases,
}
use jellysync.Common.Table.{Table, lookup, insert, delete, has, lookup-insert, lookup-delete}
use jellysync.Catalog.Entry.{Entry}
use jellysync.Catalog.Hidden.{Hides, episode, series_key, hide_key, is_hidden}
use jellysync.Catalog.Election.{ItemState}
use jellysync.Catalog.Items.{Item}

abbrev pub movie_type : Str
movie_type = lit "movie"

-- seriesKeyExpr: COALESCE(NULLIF(series_global_id, ''), NULLIF(series_name, ''), global_id)
abbrev pub null_if_empty : Str → Option Str
null_if_empty s = if is_empty s then none else some s

abbrev pub coalesce : Option Str → Str → Str
coalesce none b = b
coalesce (some a) b = a

unfoldable pub series_key_of : Str → ItemState → Str
series_key_of id st =
    coalesce (null_if_empty st.series_global_id) (coalesce (null_if_empty st.series_name) id)

-- The SELECT EXISTS of SetHidden.
unfoldable pub names_item : Str → Table Item → Bool
unfolding series_key_of
names_item key [] = false
names_item key ((id, i) ∷ items) =
    (str_eq i.state.media_type movie_type && str_eq id key)
    || (str_eq i.state.media_type episode && str_eq (series_key_of id i.state) key)
    || names_item key items

-- SetHidden; `none` is errNoSuchItem. A key that is hidden keeps its time (INSERT OR IGNORE).
unfoldable pub set_hidden : Bool → Str → ℕ → Table Item → Hides → Option Hides
unfolding names_item
set_hidden false key now items hidden = some (delete key hidden)
set_hidden true key now items hidden =
    if names_item key items
    then some (if has key hidden then hidden else insert key now hidden)
    else none

-- After an item was hidden or shown by a key that is not empty, exactly the entries with that hide
-- key are hidden or visible, and all others are as before.
pub is_hidden-set_hidden :
    (hide : Bool) (key : Str) (now : ℕ) (items : Table Item) (hidden left : Hides) (e : Entry)
    → is_empty key ≡ false
    → set_hidden hide key now items hidden ≡ some left
    → is_hidden left e ≡ (if str_eq key (hide_key e) then hide else is_hidden hidden e)
unfolding set_hidden is_hidden
is_hidden-set_hidden false key now items hidden left e k s =
    ground (arith, s, k, str_eq_iff key (hide_key e), lookup-delete key (hide_key e) hidden)
is_hidden-set_hidden true key now items hidden left e k s =
    ground (arith, s, k, str_eq_iff key (hide_key e), lookup-insert key (hide_key e) now hidden)

movie-not_episode : str_eq movie_type episode ≡ false
unfolding str_eq
movie-not_episode = refl

hide_key-movie : (e : Entry) → e.media_type ≡ movie_type → hide_key e ≡ e.global_id
unfolding hide_key
hide_key-movie e t = ground (arith, t, movie-not_episode)

-- The query's series key is the one that hides the episode.
series_key_of-hide_key :
    (e : Entry) (st : ItemState)
    → st.series_global_id ≡ e.series_global_id
    → st.series_name ≡ e.series_name
    → e.media_type ≡ episode
    → series_key_of e.global_id st ≡ hide_key e
unfolding series_key_of hide_key series_key
series_key_of-hide_key e st g n t = ground (arith, g, n, t, str_eq_refl episode)

at_row :
    (e : Entry) (id : Str) (i : Item) (items : Table Item)
    → id ≡ e.global_id
    → i.state.media_type ≡ e.media_type
    → i.state.series_global_id ≡ e.series_global_id
    → i.state.series_name ≡ e.series_name
    → (e.media_type ≡ movie_type) ⊎ (e.media_type ≡ episode)
    → names_item (hide_key e) ((id, i) ∷ items) ≡ true
unfolding names_item
at_row e id i items same m g n (inl film) =
    let k = hide_key-movie e film in
    ground (
      arith,
      same,
      m,
      film,
      k,
      str_eq_iff i.state.media_type movie_type,
      str_eq_iff id (hide_key e),
    )
at_row e id i items same m g n (inr part) =
    let k = series_key_of-hide_key e i.state g n part in
    ground (
      arith,
      same,
      m,
      part,
      k,
      str_eq_iff i.state.media_type episode,
      str_eq_iff (series_key_of id i.state) (hide_key e),
    )

names_item-found :
    (e : Entry) (i : Item) (items : Table Item)
    → lookup e.global_id items ≡ some i
    → i.state.media_type ≡ e.media_type
    → i.state.series_global_id ≡ e.series_global_id
    → i.state.series_name ≡ e.series_name
    → (e.media_type ≡ movie_type) ⊎ (e.media_type ≡ episode)
    → names_item (hide_key e) items ≡ true
unfolding names_item lookup
names_item-found e i [] f m g n t = cc
names_item-found e i ((id, j) ∷ items) f m g n t = elim (Bool-cases (str_eq id e.global_id)) [
  | inl same ↦
      let here : j ≡ i = ground (arith, f, same) in
      at_row e id j items (ground (arith, same, str_eq_iff id e.global_id)) (rw here m) (rw here g)
        (rw here n) t
  | inr other ↦
      let rest = names_item-found e i items (ground (arith, f, other)) m g n t in
      ground (arith, rest)
]

-- A movie or an episode that the items list, with its entry's series fields, can always be hidden
-- by its entry's hide key: the query finds it under that key.
pub is_some-set_hidden :
    (e : Entry) (i : Item) (items : Table Item) (now : ℕ) (hidden : Hides)
    → lookup e.global_id items ≡ some i
    → i.state.media_type ≡ e.media_type
    → i.state.series_global_id ≡ e.series_global_id
    → i.state.series_name ≡ e.series_name
    → (e.media_type ≡ movie_type) ⊎ (e.media_type ≡ episode)
    → is_some (set_hidden true (hide_key e) now items hidden) ≡ true
unfolding set_hidden
is_some-set_hidden e i items now hidden f m g n t =
    ground (arith, names_item-found e i items f m g n t)
