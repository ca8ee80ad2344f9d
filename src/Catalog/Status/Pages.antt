-- ===== src/Catalog/Status/Pages.antt =====
-- status.go servePagedMovies: a page of films, against the films that its filters ask for.
use jellysync.Common.{
  Str, ℕ, zero, suc, ◌-◌, ◌≤◌, ◌≡◌, refl, sym, ap, ◌∙◌, Bool, true, false, Option, some, List, [],
  ◌∷◌, take, length, arith, ltb, if◌then◌else◌, Bool-cases, Option-cases, inl, inr,
}
use mathlib.Core.Path.{subst}
use mathlib.Core.Option.{none-ne-some, some-injective}
use mathlib.Core.List.{Memᴰ}
use mathlib.Core.List.Memᴰ
use jellysync.Common.Sifted.{IsSifted, all_done, kept, dropped}
use jellysync.Common.Table.{Table, retain}
use jellysync.Catalog.Entry.{pos, negsuc}
use jellysync.Catalog.Hidden.{Hides}
use jellysync.Catalog.Changes.{Param, absent, malformed, number}
use jellysync.Catalog.Items.{Item}
use jellysync.Catalog.Status.{
  ItemDto, ItemsPage, limit_param, offset_param, page_params, scan_item, scan_items, skip,
  is_listed, movies, paged_movies,
}
use jellysync.Catalog.Status.Search.{LikeLaws}
use jellysync.Catalog.Status.Selected.{IsWanted, is_listed-IsWanted}

abbrev pub min : ℕ → ℕ → ℕ
min a b = if ltb a b then a else b

module _ {ℓ} {A : Type ℓ} where
  length-skip : (n : ℕ) (xs : List A) → length (skip n xs) ≡ length xs - n
  unfolding skip
  length-skip zero xs = omega arith
  length-skip (suc n) [] = omega arith
  length-skip (suc n) (x ∷ xs) = let ih = length-skip n xs in omega arith

  length-take : (n : ℕ) (xs : List A) → length (take n xs) ≡ min (length xs) n
  unfolding take
  length-take zero xs = ground arith
  length-take (suc n) [] = ground arith
  length-take (suc n) (x ∷ xs) = let ih = length-take n xs in ground arith

  Mem-skip : (n : ℕ) (xs : List A) (x : A) → Memᴰ x (skip n xs) → Memᴰ x xs
  unfolding skip
  Mem-skip zero xs x m = m
  Mem-skip (suc n) [] x m = m
  Mem-skip (suc n) (y ∷ xs) x m = Memᴰ.tail (Mem-skip n xs x m)

  Mem-take : (n : ℕ) (xs : List A) (x : A) → Memᴰ x (take n xs) → Memᴰ x xs
  unfolding take
  Mem-take zero xs x m = absurd (Memᴰ.not-nil m)
  Mem-take (suc n) [] x m = m
  Mem-take (suc n) (y ∷ xs) x m = elim (Memᴰ.cases_cons m) [
    | inl e ↦ Memᴰ.head e
    | inr r ↦ Memᴰ.tail (Mem-take n xs x r)
  ]

length-scan_items :
    (hides : Hides) (rows : Table Item) → length (scan_items hides rows) ≡ length rows
unfolding scan_items
length-scan_items hides [] = refl
length-scan_items hides ((id, i) ∷ rows) = let ih = length-scan_items hides rows in omega arith

-- Every item shown is what scanItemRows makes of one of the rows.
abbrev pub AllShown : Hides → Table Item → List ItemDto → Type 0
AllShown hides rows [] = Unit {0}
AllShown hides rows (d ∷ ds) =
    ((r : Str × Item) × Memᴰ r rows × (d ≡ scan_item hides r.0 r.1)) × AllShown hides rows ds

scan_items-AllShown :
    (hides : Hides) (rows shown : Table Item)
    → ((r : Str × Item) → Memᴰ r shown → Memᴰ r rows)
    → AllShown hides rows (scan_items hides shown)
unfolding scan_items
scan_items-AllShown hides rows [] h = tt
scan_items-AllShown hides rows (r ∷ shown) h = (
  (r, h r (Memᴰ.head refl), refl),
  scan_items-AllShown hides rows shown (λ s m. h s (Memᴰ.tail m)),
)

limit_param-bounds : (limit : Param) (l : ℕ) → limit_param limit ≡ some l → (1 ≤ l) × (l ≤ 200)
unfolding limit_param
limit_param-bounds absent l e = let n = some-injective _ _ e in (omega arith, omega arith)
limit_param-bounds malformed l e = absurd (none-ne-some l e)
limit_param-bounds (number (negsuc n)) l e = absurd (none-ne-some l e)
limit_param-bounds (number (pos zero)) l e = absurd (none-ne-some l e)
limit_param-bounds (number (pos (suc n))) l e =
    let k = some-injective _ _ e in (ground arith, ground arith)

false_is_not_true : ¬ (false ≡ true)
false_is_not_true h = cc

module _ (like : Str → Str → Bool) (laws : LikeLaws like) (owners : Option Str) (q : Str) where
  abbrev Wanted : Str × Item → Type 0
  Wanted r = IsWanted owners q r.1

  movies-IsSifted :
      (items : Table Item)
      → (others : ℕ) × IsSifted Wanted items (movies like owners q items) others
  unfolding movies retain
  movies-IsSifted [] = (0, all_done)
  movies-IsSifted ((id, i) ∷ items) =
      let (others, rest) = movies-IsSifted items in
      let listed = is_listed-IsWanted like owners q i laws in
      elim (Bool-cases (is_listed like owners q i)) [
        | inl t ↦ rw (t, movies, retain) (others, kept (id, i) (listed.0 t) rest)
        | inr f ↦
            rw (f, movies, retain)
              (suc others, dropped (id, i) (λ w. false_is_not_true (sym f ∙ listed.1 w)) rest)
      ]

-- What is relied on of ORDER BY: it gives the rows it is given, as many as there are.
pub record IsReordering (order : Table Item → Table Item) : Type 0 where
  pub as_many : (rows : Table Item) → length (order rows) ≡ length rows
  pub no_other : (rows : Table Item) (r : Str × Item) → Memᴰ r (order rows) → Memᴰ r rows

-- A page of the films `rows`: their number as the total, at most 200 items and all that are left
-- from the offset on if those are fewer than the limit, each of them made of one of the films.
pub record IsPageOf (hides : Hides) (rows : Table Item) (p : ItemsPage) : Type 0 where
  pub total_is : p.total ≡ length rows
  pub at_least_one : 1 ≤ p.limit
  pub at_most_200 : p.limit ≤ 200
  pub is_full : length p.items ≡ min (p.total - p.offset) p.limit
  pub from_rows : AllShown hides rows p.items

page-IsPageOf :
    (order : Table Item → Table Item) (hides : Hides) (rows : Table Item) (l o : ℕ)
    → IsReordering order
    → 1 ≤ l
    → l ≤ 200
    → IsPageOf hides rows (record {
      items = scan_items hides (take l (skip o (order rows)));
      total = length rows;
      limit = l;
      offset = o;
    })
page-IsPageOf order hides rows l o h low high = record {
  total_is = refl;
  at_least_one = low;
  at_most_200 = high;
  is_full =
      length-scan_items hides (take l (skip o (order rows)))
      ∙ length-take l (skip o (order rows))
      ∙ ap (λ n. min n l) (length-skip o (order rows) ∙ ap (λ n. n - o) (h.as_many rows));
  from_rows =
      scan_items-AllShown hides rows (take l (skip o (order rows))) (λ r m.
        h.no_other rows r (Mem-skip o (order rows) r (Mem-take l (skip o (order rows)) r m)));
}

-- Where LIKE does what SQLite documents and ORDER BY only reorders rows: if a request is answered,
-- then its page is one of exactly the films that the filters ask for. Its total is their number, its
-- limit lies between 1 and 200, it is full, but for the end of the films, and shows those only.
pub paged_movies-IsPageOf :
    (like : Str → Str → Bool) (owners : Option Str) (q : Str) (order : Table Item → Table Item)
    (hides : Hides) (items : Table Item) (limit offset : Param) (p : ItemsPage)
    → LikeLaws like
    → IsReordering order
    → paged_movies like owners q order hides items limit offset ≡ some p
    → (rows : Table Item) × (others : ℕ) × IsSifted
        (λ (r : Str × Item). IsWanted owners q r.1)
        items
        rows
        others
      × IsPageOf hides rows p
unfolding paged_movies page_params
paged_movies-IsPageOf like owners q order hides items limit offset p laws h e =
    let rows = movies like owners q items in
    let (others, sifted) = movies-IsSifted like laws owners q items in
    elim (Option-cases (limit_param limit)) [
      | inl bad ↦ absurd (none-ne-some p (ground arith))
      | inr (l, at_l) ↦ elim (Option-cases (offset_param offset)) [
        | inl bad ↦ absurd (none-ne-some p (ground arith))
        | inr (o, at_o) ↦
            let (low, high) = limit_param-bounds limit l at_l in
            let page : ItemsPage = record {
              items = scan_items hides (take l (skip o (order rows)));
              total = length rows;
              limit = l;
              offset = o;
            } in
            let answered : paged_movies like owners q order hides items limit offset ≡ some page =
              ground arith in
            let same = some-injective page p (sym answered ∙ e) in
            (
              rows,
              others,
              sifted,
              subst (IsPageOf hides rows) same (page-IsPageOf order hides rows l o h low high),
            )
      ]
    ]
