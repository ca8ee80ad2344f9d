-- ===== src/Catalog/Pull/Applied.antt =====
-- What applying a page of changes does to a mirror, row by row.
use jellysync.Common.{
  Str, str_eq, str_eq_iff, ℕ, ◌≡◌, inl, inr, refl, true, false, not, Option, none, some, List, [],
  ◌∷◌, map, take, arith, ltb, if◌then◌else◌, Option-cases, Bool-cases,
}
use jellysync.Common.Table.{
  Table, lookup, IsUnique, AllRows, insert-IsUnique, delete-IsUnique, insert-AllRows,
  delete-AllRows, lookup-insert, lookup-delete, lookup-retain, lookup-AllRows,
}
use jellysync.Catalog.Entry.{Entry}
use jellysync.Catalog.Index.{Index, Row}
use jellysync.Catalog.Index.Valid.{Fits, IsValid}
use jellysync.Catalog.Changes.{Change, is_gone, select, to_change, read_page, next_of}
use jellysync.Catalog.Changes.Page.{
  wanted, select-Ascending, lookup-select, select-IsUnique, select-Fits, lookup-take-none,
  page_complete, take-IsUnique, take-AllRows,
}
use jellysync.Catalog.Pull.{Mirrored, Cursor, apply_change, apply_all, sweep_stale}
use jellysync.Catalog.Pull.Follows.{UpTo, AgreesAt, offer_of, seen_as, mirrored}

pub apply_all-IsUnique :
    (gen : ℕ) (cs : List Change) (m : Table Mirrored) → IsUnique m → IsUnique (apply_all gen cs m)
unfolding apply_all
apply_all-IsUnique gen [] m u = u
apply_all-IsUnique gen (c ∷ cs) m u =
    apply_all-IsUnique gen cs (apply_change gen c m) (one c.entry refl)
  where
    one : (o : Option Entry) → c.entry ≡ o → IsUnique (apply_change gen c m)
    one none e = rw (e, apply_change) (delete-IsUnique c.global_id m u)
    one (some x) e = elim (Bool-cases c.deleted) [
      | inl d ↦ rw (e, d, apply_change) (delete-IsUnique c.global_id m u)
      | inr d ↦ rw (e, d, apply_change) (insert-IsUnique x.global_id _ m u)
    ]

pub apply_all-UpTo :
    (gen : ℕ) (cs : List Change) (m : Table Mirrored)
    → AllRows (UpTo gen) m
    → AllRows (UpTo gen) (apply_all gen cs m)
unfolding apply_all
apply_all-UpTo gen [] m u = u
apply_all-UpTo gen (c ∷ cs) m u = apply_all-UpTo gen cs (apply_change gen c m) (one c.entry refl)
  where
    one : (o : Option Entry) → c.entry ≡ o → AllRows (UpTo gen) (apply_change gen c m)
    one none e = rw (e, apply_change) (delete-AllRows (UpTo gen) c.global_id m u)
    one (some x) e = elim (Bool-cases c.deleted) [
      | inl d ↦ rw (e, d, apply_change) (delete-AllRows (UpTo gen) c.global_id m u)
      | inr d ↦ rw (e, d, apply_change) (insert-AllRows (UpTo gen) x.global_id _ m (omega arith) u)
    ]

-- What a change leaves of the row that it is about.
abbrev pub result_of : ℕ → Option Row → Option Mirrored → Option Mirrored
result_of gen none o = o
result_of gen (some r) o = if is_gone r then none else some (record { entry = r.entry; gen = gen })

lookup-apply_change :
    (g j : Str) (gen : ℕ) (r : Row) (m : Table Mirrored)
    → r.entry.global_id ≡ j
    → lookup g (apply_change gen (to_change (j, r)) m)
      ≡ (if str_eq j g then result_of gen (some r) (lookup g m) else lookup g m)
unfolding apply_change to_change
lookup-apply_change g j gen r m k = elim (Bool-cases (is_gone r)) [
  | inl gone ↦ ground (arith, lookup-delete j g m)
  | inr here ↦ ground (
    arith,
    lookup-insert j g (record { entry = r.entry; gen = gen }) m,
    lookup-insert r.entry.global_id g (record { entry = r.entry; gen = gen }) m,
  )
]

pub lookup-apply_all :
    (g : Str) (gen head min_rev : ℕ) (l : Table Row) (m : Table Mirrored)
    → IsUnique l
    → AllRows (Fits head min_rev) l
    → lookup g (apply_all gen (map to_change l) m) ≡ result_of gen (lookup g l) (lookup g m)
unfolding apply_all lookup
lookup-apply_all g gen head min_rev [] m u f = refl
lookup-apply_all g gen head min_rev ((j, r) ∷ l) m u f = ground (
  arith,
  str_eq_iff j g,
  lookup-apply_all g gen head min_rev l (apply_change gen (to_change (j, r)) m) u.1 f.1,
  lookup-apply_change g j gen r m f.0.0,
)

abbrev pub page_rows : Index → ℕ → ℕ → Table Row
page_rows ix base n = take n (select base ix.rows)

abbrev pub AfterPage : Index → Cursor → Table Mirrored → ℕ → ℕ → Table Mirrored
AfterPage ix c m base n = apply_all c.gen (map to_change (page_rows ix base n)) m

lookup-AfterPage :
    (ix : Index) (c : Cursor) (m : Table Mirrored) (base n : ℕ) (g : Str)
    → IsValid ix
    → lookup g (AfterPage ix c m base n)
      ≡ result_of c.gen (lookup g (page_rows ix base n)) (lookup g m)
lookup-AfterPage ix c m base n g v =
    lookup-apply_all g c.gen ix.head ix.min_rev (page_rows ix base n) m
      (take-IsUnique n (select base ix.rows) (select-IsUnique ix v base))
      (take-AllRows (Fits ix.head ix.min_rev) n (select base ix.rows) (select-Fits ix v base))

-- A row that the query leaves out is left alone.
lookup-after_page_off :
    (ix : Index) (c : Cursor) (m : Table Mirrored) (base n : ℕ) (g : Str)
    → IsValid ix
    → lookup g (select base ix.rows) ≡ none
    → lookup g (AfterPage ix c m base n) ≡ lookup g m
lookup-after_page_off ix c m base n g v e =
    rw (lookup-AfterPage ix c m base n g v, lookup-take-none g n (select base ix.rows) e)

seen-result :
    (c : Cursor) (r : Row) (o : Option Mirrored)
    → seen_as c.resync c.gen (result_of c.gen (some r) o) ≡ offer_of (some r)
seen-result c r o = ground arith

-- The page read from a valid index brings the mirror up to the page's last revision.
module _ (ix : Index) (v : IsValid ix) (c : Cursor) (m : Table Mirrored) (base n next : ℕ)
    (at_next : next_of ix.head (read_page n (select base ix.rows)) ≡ some next) (g : Str)
    (scratch : base ≡ 0 → mirrored c m g ≡ none) where
  agrees_row :
      (r : Row)
      → lookup g ix.rows ≡ some r
      → AgreesAt base (some r) (mirrored c m g)
      → AgreesAt next (some r) (mirrored c (AfterPage ix c m base n) g)
  agrees_row r e start = elim (Bool-cases (ltb next r.rev)) [
    | inl later ↦ inl (ground arith)
    | inr now ↦ elim (Bool-cases (wanted base g r)) [
      | inl listed ↦ inr (
          rw
            (
              lookup-AfterPage ix c m base n g v,
              page_complete g base ix.head n next (select base ix.rows) r
                  (select-Ascending ix v base) at_next (ground (arith, lookup-select ix v base g))
                  (ground arith),
            )
            (seen-result c r (lookup g m)))
      | inr unlisted ↦ inr (
          rw (lookup-after_page_off ix c m base n g v (ground (arith, lookup-select ix v base g)))
            (ground (arith, scratch)))
    ]
  ]

  agrees_option :
      (o : Option Row)
      → lookup g ix.rows ≡ o
      → AgreesAt base o (mirrored c m g)
      → AgreesAt next o (mirrored c (AfterPage ix c m base n) g)
  agrees_option none e start =
      rw (lookup-after_page_off ix c m base n g v (ground (arith, lookup-select ix v base g))) start
  agrees_option (some r) e start = agrees_row r e start

  pub page_agrees :
      AgreesAt base (lookup g ix.rows) (mirrored c m g)
      → AgreesAt next (lookup g ix.rows) (mirrored c (AfterPage ix c m base n) g)
  page_agrees = agrees_option (lookup g ix.rows) refl

-- Ending a resync: after the sweep every row left counts.
pub seen-sweep :
    (c : Cursor) (m : Table Mirrored) (g : Str)
    → IsUnique m
    → AllRows (UpTo c.gen) m
    → seen_as false c.gen (lookup g (sweep_stale c.gen m)) ≡ seen_as true c.gen (lookup g m)
unfolding sweep_stale
seen-sweep c m g u f = elim (Option-cases (lookup g m)) [
  | inl e ↦ ground (arith, lookup-retain (λ _ r. not (ltb r.gen c.gen)) g m u)
  | inr (x, e) ↦ ground (
    arith,
    lookup-retain (λ _ r. not (ltb r.gen c.gen)) g m u,
    lookup-AllRows (UpTo c.gen) g x m f e,
  )
]
