-- ===== src/Catalog/Status/Examples.antt =====
-- The pages of three films.
use jellysync.Common.{
  Str, suc, length, Option, str_eq, str_lt, lit, String, ℕ, ◌≡◌, ◌↔◌, ap, ◌∙◌, is_empty, ◌==◌,
  if◌then◌else◌, ◌||◌, ◌&&◌, ◌++◌, not, refl, Bool, true, false, none, some, [], ◌∷◌, take, arith,
  Bool-cases, inl, inr,
}
use jellysync.Common.Bytes.{lower_byte, split_commas, trim_space, cut_prefix}
use jellysync.Common.Table.{Table, retain, order_by, place, lookup}
use jellysync.Catalog.Entry.{pos}
use jellysync.Catalog.Changes.{absent, number}
use jellysync.Catalog.Election.{state_from_entry}
use jellysync.Catalog.Items.{Item}
use jellysync.Catalog.Samples.{movie}
use jellysync.Catalog.Visibility.{series_key_of}
use jellysync.Catalog.Status.{
  limit_param, offset_param, page_params, owned_by, owner_filter, escape_like, search_pattern,
  hidden_wanted, stream_of, scan_item, scan_items, skip, ItemsPage, is_listed, movies, paged_movies,
}
use mathlib.Core.Path.{subst}
use mathlib.Core.List.{Memᴰ}
use mathlib.Core.List.Memᴰ
use jellysync.Common.Sifted.{IsSifted}
use jellysync.Catalog.Status.Pages.{IsReordering, IsPageOf, paged_movies-IsPageOf}
use jellysync.Catalog.Status.Search.{LikeLaws}
use jellysync.Catalog.Status.Selected.{IsWanted, is_listed-IsWanted}

abbrev film : String → Item
film s = record {
  state = record (state_from_entry (movie s)) { peer_id = lit "bob"; peer_item_id = lit s };
  strm_path = none;
  updated_at = 0;
}

abbrev three : Table Item
three = (lit "c", film "c") ∷ (lit "a", film "a") ∷ (lit "b", film "b") ∷ []

-- A LIKE: the pattern's character after an escape is an ordinary one.
unfoldable some_tail : (Str → Bool) → Str → Bool
some_tail f [] = f []
some_tail f (c ∷ s) = f (c ∷ s) || some_tail f s

unfoldable one_char : (Str → Bool) → Bool → ℕ → Str → Bool
one_char f any c [] = false
one_char f any c (d ∷ s) = (any || lower_byte c == lower_byte d) && f s

unfoldable like_after : Bool → Str → Str → Bool
unfolding some_tail one_char
like_after escape [] s = is_empty s
like_after escape (c ∷ p) s =
    let rest = like_after false p in
    let after_escape = like_after true p in
    if not escape && c == b'%'
    then some_tail rest s
    else if not escape && c == 0x5c
    then after_escape s
    else one_char rest (not escape && c == b'_') c s

abbrev like : Str → Str → Bool
like = like_after false

some_tail-split :
    (f : Str → Bool) (s : Str)
    → some_tail f s ≡ true
    → (pre : Str) × (post : Str) × (s ≡ pre ++ post) × (f post ≡ true)
unfolding some_tail
some_tail-split f [] h = ([], [], refl, h)
some_tail-split f (c ∷ s) h = elim (Bool-cases (f (c ∷ s))) [
  | inl now ↦ ([], c ∷ s, refl, now)
  | inr later ↦
      let (pre, post, e, found) = some_tail-split f s (ground arith) in
      (c ∷ pre, post, ap (λ t. c ∷ t) e, found)
]

split-some_tail :
    (f : Str → Bool) (pre post : Str) → f post ≡ true → some_tail f (pre ++ post) ≡ true
unfolding some_tail
split-some_tail f [] [] h = h
split-some_tail f [] (c ∷ s) h = ground arith
split-some_tail f (c ∷ pre) post h = let rest = split-some_tail f pre post h in ground arith

like_laws : LikeLaws like
unfolding like_after one_char
like_laws = record {
  nothing = λ s. refl;
  any_text = λ p s. (
    some_tail-split (like_after false p) s,
    λ (pre, post, e, h).
        ap (some_tail (like_after false p)) e ∙ split-some_tail (like_after false p) pre post h,
  );
  escaped_end = λ c p. refl;
  escaped = λ c p d s. refl;
  ordinary_end = λ c p h. ground arith;
  ordinary = λ c p d s h. ground arith;
}

-- What a test of the pages computes with.
paging : ℕ
unfolding str_eq str_lt trim_space cut_prefix retain order_by place lookup take state_from_entry
    series_key_of limit_param offset_param page_params split_commas owned_by owner_filter
    escape_like search_pattern hidden_wanted stream_of scan_item scan_items skip is_listed movies
    paged_movies some_tail one_char like_after
paging = 0

is_listed-IsWanted_example :
    (is_listed like (some (lit "local, bob")) (lit " A_b ") (film "xa_b") ≡ true)
    ↔ IsWanted (some (lit "local, bob")) (lit " A_b ") (film "xa_b")
is_listed-IsWanted_example =
    is_listed-IsWanted like (some (lit "local, bob")) (lit " A_b ") (film "xa_b") like_laws

it_is_listed : is_listed like (some (lit "local, bob")) (lit " A_b ") (film "xa_b") ≡ true
unfolding paging
it_is_listed = refl

no_wildcard : is_listed like none (lit "A_b") (film "xaxb") ≡ false
unfolding paging
no_wildcard = refl

-- An ORDER BY name that keeps the order of rows of the same name.
abbrev by_name : Str × Item → Str × Item → Bool
by_name a b = not (str_lt b.1.state.name a.1.state.name)

length-place :
    (r : Str × Item) (rows : Table Item) → length (place by_name r rows) ≡ suc (length rows)
unfolding place
length-place r [] = refl
length-place r (s ∷ rows) = let ih = length-place r rows in ground arith

Mem-place :
    (r s : Str × Item) (rows : Table Item) → Memᴰ s (place by_name r rows) → Memᴰ s (r ∷ rows)
unfolding place
Mem-place r s [] m = m
Mem-place r s (t ∷ rows) m = elim (Bool-cases (by_name r t)) [
  | inl le ↦
      let first : place by_name r (t ∷ rows) ≡ r ∷ t ∷ rows = ground arith in
      subst (λ l. Memᴰ s l) first m
  | inr gt ↦
      let later : place by_name r (t ∷ rows) ≡ t ∷ place by_name r rows = ground arith in
      elim (Memᴰ.cases_cons (subst (λ l. Memᴰ s l) later m)) [
        | inl e ↦ Memᴰ.tail (Memᴰ.head e)
        | inr n ↦ elim (Memᴰ.cases_cons (Mem-place r s rows n)) [
          | inl e ↦ Memᴰ.head e
          | inr k ↦ Memᴰ.tail (Memᴰ.tail k)
        ]
      ]
]

length-order_by : (rows : Table Item) → length (order_by by_name rows) ≡ length rows
unfolding order_by
length-order_by [] = refl
length-order_by (r ∷ rows) =
    length-place r (order_by by_name rows) ∙ ap (λ n. suc n) (length-order_by rows)

Mem-order_by : (rows : Table Item) (s : Str × Item) → Memᴰ s (order_by by_name rows) → Memᴰ s rows
unfolding order_by
Mem-order_by [] s m = m
Mem-order_by (r ∷ rows) s m = elim (Memᴰ.cases_cons (Mem-place r s (order_by by_name rows) m)) [
  | inl e ↦ Memᴰ.head e
  | inr n ↦ Memᴰ.tail (Mem-order_by rows s n)
]

order_by-IsReordering : IsReordering (order_by by_name)
order_by-IsReordering = record { as_many = length-order_by; no_other = Mem-order_by }

abbrev second_page : Option ItemsPage
second_page =
    paged_movies like none [] (order_by by_name) [] three (number (pos 2)) (number (pos 1))

abbrev page_two : ItemsPage
page_two = record {
  items = scan_item [] (lit "b") (film "b") ∷ scan_item [] (lit "c") (film "c") ∷ [];
  total = 3;
  limit = 2;
  offset = 1;
}

it_is_answered : second_page ≡ some page_two
unfolding paging
it_is_answered = refl

paged_movies-IsPageOf_example :
    (rows : Table Item) × (others : ℕ) × IsSifted
      (λ (r : Str × Item). IsWanted none [] r.1)
      three
      rows
      others
    × IsPageOf [] rows page_two
paged_movies-IsPageOf_example =
    paged_movies-IsPageOf like none [] (order_by by_name) [] three (number (pos 2)) (number (pos 1))
      page_two like_laws order_by-IsReordering it_is_answered

nobody_is_asked_for : movies like (some []) [] three ≡ []
unfolding paging
nobody_is_asked_for = refl

escaped : search_pattern (lit " 50% ") ≡ some (lit "%50\\%%")
unfolding paging
escaped = refl

too_small : page_params (number (pos 0)) absent ≡ none
unfolding paging
too_small = refl

clamped : page_params (number (pos 900)) (number (pos 7)) ≡ some (200, 7)
unfolding paging
clamped = refl
