-- ===== src/Catalog/Examples.antt =====
-- The theorems of the index, the election and the items at small libraries.
use jellysync.Common.{
  str_lt, Str, String, lit, ℕ, ◌≡◌, refl, Bool, true, false, some, List, [], ◌∷◌, is_some, none,
  inl,
}
use jellysync.Common.Table.{Table, lookup, AllRows}
use mathlib.Core.List.{Memᴰ}
use jellysync.Catalog.Hidden.{hide_key}
use jellysync.Catalog.Folders.{under_any_folder}
use jellysync.Common.Bytes.{starts_with, replace_byte, trim_space}
use jellysync.Catalog.Hidden.{is_hidden}
use jellysync.Catalog.Folders.{set_excluded_folders, normalize_folder, is_abs_folder, under_folder}
use jellysync.Catalog.Folders.Stored.{
  asked_for, all_absolute, is_some-set_excluded_folders, under_any_folder-set_excluded_folders,
}
use jellysync.Catalog.Visibility.{set_hidden, is_hidden-set_hidden, is_some-set_hidden}
use jellysync.Catalog.Election.{ItemState, Offer, state_from_entry, elect, offer_le, remote_state}
use jellysync.Catalog.Election.Order.{first_of_all}
use jellysync.Catalog.Election.Choice.{Named, lookup-elect}
use jellysync.Catalog.Election.Smallest.{elect-smallest}
use jellysync.Catalog.Items.{Item, write_election, cleared, state_eq}
use jellysync.Catalog.Items.Written.{lookup-write_election}
use jellysync.Catalog.Samples.{movie, three_films, three_films-IsValid, computing}

abbrev everyone : Str → Bool
everyone peer = true

abbrev offer : String → String → Offer
offer peer id = record { peer_id = lit peer; global_id = lit id; entry = movie id }

abbrev offers : List Offer
offers = offer "zoe" "d" ∷ offer "bob" "d" ∷ offer "bob" "a" ∷ []

abbrev from_bob : ItemState
from_bob = record (state_from_entry (movie "d")) { peer_id = lit "bob"; peer_item_id = lit "d" }

films-Named : AllRows Named three_films.rows
unfolding three_films
films-Named = (refl, (refl, (refl, tt)))

-- What a test of an election computes with.
electing : ℕ
unfolding computing three_films elect offer_le remote_state state_from_entry hide_key
    under_any_folder first_of_all
electing = 0

lookup-elect_example :
    lookup (lit "d") (elect everyone [] [] three_films.rows offers).0 ≡ some from_bob
unfolding electing
lookup-elect_example =
    lookup-elect everyone [] [] (lit "d") three_films.rows offers three_films-IsValid.unique
      films-Named

elect-smallest_example : str_lt (lit "zoe") (lit "bob") ≡ false
unfolding electing
elect-smallest_example =
    elect-smallest everyone [] [] (lit "d") three_films.rows offers from_bob (offer "zoe" "d")
      three_films-IsValid.unique films-Named refl refl refl (Memᴰ.head refl) refl

-- A row with a file that no peer offers any more.
abbrev old_items : Table Item
old_items =
    (lit "d", record { state = from_bob; strm_path = some (lit "/out/d"); updated_at = 1 }) ∷ []

lookup-write_election_example :
    lookup (lit "d") (write_election 5 [] [] [] old_items).0.items
    ≡ some (cleared (record { state = from_bob; strm_path = some (lit "/out/d"); updated_at = 1 }))
unfolding electing state_eq cleared
lookup-write_election_example = lookup-write_election 5 (lit "d") [] [] [] old_items tt (refl, tt)

-- A folder with a trailing slash, and a path in it.
abbrev kids : List Str
kids = lit "/media/kids/" ∷ []

-- What a test of folders computes with.
excluding : ℕ
unfolding computing set_excluded_folders normalize_folder is_abs_folder under_any_folder
    under_folder asked_for all_absolute starts_with replace_byte trim_space
excluding = 0

relative_folder_is_refused : is_some (set_excluded_folders (lit "bob") (lit "kids" ∷ []) []) ≡ false
unfolding excluding
relative_folder_is_refused = is_some-set_excluded_folders (lit "bob") (lit "kids" ∷ []) []

under_any_folder-set_excluded_folders_example :
    under_any_folder (lit "/media/kids/a.mkv") (lit "/media/kids" ∷ []) ≡ true
unfolding excluding
under_any_folder-set_excluded_folders_example =
    under_any_folder-set_excluded_folders (lit "bob") kids [] (lit "/media/kids" ∷ [])
      ((lit "bob", lit "/media/kids" ∷ []) ∷ []) (lit "/media/kids/a.mkv") (lit "bob") refl

abbrev by_bob : Item
by_bob = record { state = from_bob; strm_path = none; updated_at = 1 }

abbrev listed : Table Item
listed = (lit "d", by_bob) ∷ []

is_hidden-set_hidden_example : is_hidden ((lit "d", 7) ∷ []) (movie "d") ≡ true
unfolding electing set_hidden
is_hidden-set_hidden_example =
    is_hidden-set_hidden true (lit "d") 7 listed [] ((lit "d", 7) ∷ []) (movie "d") refl refl

listed_film_can_be_hidden : is_some (set_hidden true (hide_key (movie "d")) 7 listed []) ≡ true
unfolding electing
listed_film_can_be_hidden =
    is_some-set_hidden (movie "d") by_bob listed 7 [] refl refl refl refl (inl refl)
