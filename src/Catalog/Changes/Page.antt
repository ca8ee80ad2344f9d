-- ===== src/Catalog/Changes/Page.antt =====
-- What one page of the feed holds: the rows selected, oldest first, up to the page's last revision.
use jellysync.Common.{
  Str, ℕ, zero, suc, ◌≤◌, ◌<◌, ◌≡◌, ◌≢◌, ◌⊎◌, refl, Bool, true, false, not, ◌&&◌, none, some, List,
  [], ◌∷◌, arith, Option-cases, inl, inr, take, ltb, length, map, ◌==◌, if◌then◌else◌,
}
use jellysync.Common.Table.{
  Table, lookup, place, order_by, retain, IsUnique, AllRows, kept, lookup-order_by, lookup-retain,
  retain-IsUnique, order_by-IsUnique, retain-AllRows, order_by-AllRows,
}
use jellysync.Catalog.Index.{Index, Row}
use jellysync.Catalog.Index.Valid.{Fits, HasNot, Distinct, IsValid, Distinct-retain}
use jellysync.Catalog.Changes.{
  Change, select, rev_le, is_gone, to_change, read_page, last_rev, next_of,
}

-- Revisions rise along the list, from above `low`.
abbrev pub Ascending : ℕ → Table Row → Type 0
Ascending low [] = Unit {0}
Ascending low ((j, r) ∷ m) = (low < r.rev) × Ascending r.rev m

HasNot-place :
    (n : ℕ) (k : Str) (r : Row) (m : Table Row)
    → r.rev ≢ n
    → HasNot n m
    → HasNot n (place rev_le (k, r) m)
unfolding place
HasNot-place n k r [] d h = (d, tt)
HasNot-place n k r ((j, s) ∷ m) d h = ground (arith, HasNot-place n k r m d h.1)

HasNot-order_by : (n : ℕ) (m : Table Row) → HasNot n m → HasNot n (order_by rev_le m)
unfolding order_by
HasNot-order_by n [] h = tt
HasNot-order_by n ((j, r) ∷ m) h =
    HasNot-place n j r (order_by rev_le m) h.0 (HasNot-order_by n m h.1)

Ascending-place :
    (low : ℕ) (k : Str) (r : Row) (m : Table Row)
    → low < r.rev
    → HasNot r.rev m
    → Ascending low m
    → Ascending low (place rev_le (k, r) m)
unfolding place
Ascending-place low k r [] l h a = (l, tt)
Ascending-place low k r ((j, s) ∷ m) l h a = ground (arith, Ascending-place s.rev k r m)

Ascending-order_by :
    (low : ℕ) (m : Table Row)
    → AllRows (λ _ r. low < r.rev) m
    → Distinct m
    → Ascending low (order_by rev_le m)
unfolding order_by
Ascending-order_by low [] l d = tt
Ascending-order_by low ((j, r) ∷ m) l d =
    Ascending-place low j r (order_by rev_le m) l.0 (HasNot-order_by r.rev m d.0)
      (Ascending-order_by low m l.1 d.1)

-- The rows that the query selects.
abbrev pub wanted : ℕ → Str → Row → Bool
wanted base id r = ltb base r.rev && (if base == 0 then not (is_gone r) else true)

wanted_above : (base : ℕ) (m : Table Row) → AllRows (λ _ r. base < r.rev) (retain (wanted base) m)
unfolding retain
wanted_above base [] = tt
wanted_above base ((j, r) ∷ m) = ground (arith, wanted_above base m)

module _ (ix : Index) (v : IsValid ix) (base : ℕ) where
  pub select-Ascending : Ascending base (select base ix.rows)
  unfolding select
  select-Ascending =
      Ascending-order_by base (retain (wanted base) ix.rows) (wanted_above base ix.rows)
        (Distinct-retain (wanted base) ix.rows v.distinct)

  pub lookup-select :
      (g : Str) → lookup g (select base ix.rows) ≡ kept (wanted base g) (lookup g ix.rows)
  unfolding select
  lookup-select g =
      rw
        (lookup-order_by rev_le g (retain (wanted base) ix.rows)
          (retain-IsUnique (wanted base) ix.rows v.unique))
        (lookup-retain (wanted base) g ix.rows v.unique)

  pub select-IsUnique : IsUnique (select base ix.rows)
  unfolding select
  select-IsUnique =
      order_by-IsUnique rev_le (retain (wanted base) ix.rows)
        (retain-IsUnique (wanted base) ix.rows v.unique)

  pub select-Fits : AllRows (Fits ix.head ix.min_rev) (select base ix.rows)
  unfolding select
  select-Fits =
      order_by-AllRows (Fits ix.head ix.min_rev) rev_le (retain (wanted base) ix.rows)
        (retain-AllRows (Fits ix.head ix.min_rev) (wanted base) ix.rows v.fits)

-- The query's LIMIT is one more than the page, and so changes nothing.
pub read_page-take : (n : ℕ) (m : Table Row) → read_page n (take (suc n) m) ≡ read_page n m
unfolding read_page take
read_page-take zero [] = refl
read_page-take zero (x ∷ m) = refl
read_page-take (suc n) [] = refl
read_page-take (suc n) (x ∷ m) = rw (read_page-take n m)

pub read_page-eq-take : (n : ℕ) (m : Table Row) → (read_page n m).0 ≡ map to_change (take n m)
unfolding read_page take
read_page-eq-take zero [] = refl
read_page-eq-take zero (x ∷ m) = refl
read_page-eq-take (suc n) [] = refl
read_page-eq-take (suc n) (x ∷ m) = cc (read_page-eq-take n m)

pub read_page-more : (n : ℕ) (m : Table Row) → (read_page n m).1 ≡ ltb n (length m)
unfolding read_page
read_page-more zero [] = refl
read_page-more zero (x ∷ m) = ground arith
read_page-more (suc n) [] = ground arith
read_page-more (suc n) (x ∷ m) = ground (arith, read_page-more n m)

pub lookup-take :
    (g : Str) (n : ℕ) (m : Table Row) (r : Row) → lookup g (take n m) ≡ some r → lookup g m ≡ some r
unfolding lookup take
lookup-take g zero m r e = cc
lookup-take g (suc n) [] r e = cc
lookup-take g (suc n) ((j, s) ∷ m) r e = ground (arith, lookup-take g n m r)

lookup-Ascending :
    (g : Str) (low : ℕ) (m : Table Row) (r : Row)
    → Ascending low m
    → lookup g m ≡ some r
    → low < r.rev
unfolding lookup
lookup-Ascending g low [] r a e = cc
lookup-Ascending g low ((j, s) ∷ m) r a e = ground (arith, lookup-Ascending g s.rev m r a.1)

-- The last revision of a longer page is that of the rest, unless the rest is empty.
next_of-cons :
    (head next : ℕ) (c : Change) (p : List Change × Bool)
    → next_of head (c ∷ p.0, p.1) ≡ some next
    → (next_of head p ≡ some next) ⊎ ((p.1 ≡ true) × (next ≡ c.rev))
unfolding next_of
next_of-cons head next c ([], false) e = inl e
next_of-cons head next c ([], true) e = ground arith
next_of-cons head next c (d ∷ cs, b) e = inl e

-- A selected row up to the page's `next` is on the page.
pub page_complete :
    (g : Str) (low head n next : ℕ) (m : Table Row) (r : Row)
    → Ascending low m
    → next_of head (read_page n m) ≡ some next
    → lookup g m ≡ some r
    → r.rev ≤ next
    → lookup g (take n m) ≡ some r
unfolding lookup take read_page next_of to_change
page_complete g low head zero next [] r a e l b = cc
page_complete g low head zero next (x ∷ m) r a e l b = cc
page_complete g low head (suc n) next [] r a e l b = cc
page_complete g low head (suc n) next ((j, s) ∷ m) r a e l b =
    elim (next_of-cons head next (to_change (j, s)) (read_page n m) e) [
      | inl rest ↦ ground (arith, page_complete g s.rev head n next m r a.1 rest)
      | inr last ↦ ground (arith, lookup-Ascending g s.rev m r a.1)
    ]

-- A page with more to come ends above where it began.
pub next_above :
    (low head n next : ℕ) (m : Table Row)
    → Ascending low m
    → (read_page n m).1 ≡ true
    → next_of head (read_page n m) ≡ some next
    → low < next
unfolding read_page next_of to_change
next_above low head zero next [] a t e = cc
next_above low head zero next (x ∷ m) a t e = cc
next_above low head (suc n) next [] a t e = cc
next_above low head (suc n) next ((j, s) ∷ m) a t e =
    elim (next_of-cons head next (to_change (j, s)) (read_page n m) e) [
      | inl rest ↦ ground (arith, next_above s.rev head n next m a.1)
      | inr last ↦ ground arith
    ]

pub take-AllRows :
    (P : Str → Row → Type 0) (n : ℕ) (m : Table Row) → AllRows P m → AllRows P (take n m)
unfolding take
take-AllRows P zero m h = tt
take-AllRows P (suc n) [] h = tt
take-AllRows P (suc n) ((j, r) ∷ m) h = (h.0, take-AllRows P n m h.1)

pub lookup-take-none :
    (g : Str) (n : ℕ) (m : Table Row) → lookup g m ≡ none → lookup g (take n m) ≡ none
lookup-take-none g n m e = elim (Option-cases (lookup g (take n m))) [
  | inl gone ↦ gone
  | inr (r, e') ↦ cc (lookup-take g n m r e')
]

pub take-IsUnique : (n : ℕ) (m : Table Row) → IsUnique m → IsUnique (take n m)
unfolding take
take-IsUnique zero m u = tt
take-IsUnique (suc n) [] u = tt
take-IsUnique (suc n) ((j, r) ∷ m) u =
    (ground (arith, lookup-take-none j n m), take-IsUnique n m u.1)

pub next-le-head :
    (head min_rev n next : ℕ) (m : Table Row)
    → AllRows (Fits head min_rev) m
    → next_of head (read_page n m) ≡ some next
    → next ≤ head
unfolding read_page next_of to_change
next-le-head head min_rev zero next [] f e = ground arith
next-le-head head min_rev zero next (x ∷ m) f e = cc
next-le-head head min_rev (suc n) next [] f e = ground arith
next-le-head head min_rev (suc n) next ((j, s) ∷ m) f e =
    elim (next_of-cons head next (to_change (j, s)) (read_page n m) e) [
      | inl rest ↦ ground (arith, next-le-head head min_rev n next m f.1)
      | inr last ↦ ground arith
    ]

last_rev-total : (c : Change) (cs : List Change) → (k : ℕ) × (last_rev (c ∷ cs) ≡ some k)
unfolding last_rev
last_rev-total c [] = (c.rev, refl)
last_rev-total c (d ∷ cs) = last_rev-total d cs

next_of-cons_total :
    (head : ℕ) (c : Change) (p : List Change × Bool)
    → (k : ℕ) × (next_of head (c ∷ p.0, p.1) ≡ some k)
unfolding next_of
next_of-cons_total head c (cs, true) = last_rev-total c cs
next_of-cons_total head c (cs, false) = (head, refl)

-- A page of at least one row always says where the next one starts.
pub next_of-total :
    (head n : ℕ) (m : Table Row) → (k : ℕ) × (next_of head (read_page (suc n) m) ≡ some k)
unfolding read_page next_of
next_of-total head n [] = (head, refl)
next_of-total head n (x ∷ m) = next_of-cons_total head (to_change x) (read_page n m)
