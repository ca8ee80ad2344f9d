-- ===== src/Catalog/Pull/Start.antt =====
-- Where a page may start: after a restart from nothing, else at the cursor.
use jellysync.Common.{
  Str, str_eq_iff, ℕ, ◌+◌, ◌≤◌, ◌≡◌, ◌⊎◌, inl, inr, refl, true, false, Option, none, some, [], ◌∷◌,
  arith, Option-cases,
}
use jellysync.Common.Table.{Table, lookup, IsUnique, AllRows, lookup-AllRows}
use jellysync.Catalog.Entry.{Entry, pos}
use jellysync.Catalog.Index.{Index, Row}
use jellysync.Catalog.Index.Valid.{IsValid}
use jellysync.Catalog.Changes.{Feed, reset_reason_of}
use jellysync.Catalog.Pull.{Mirrored, Cursor, restart}
use jellysync.Catalog.Pull.Follows.{Follows, UpTo, AgreesAt, seen_as, mirrored}
use jellysync.Catalog.Pull.Served.{rows_below}

-- A cursor that may start a page at `base`: nothing is missed below, and from scratch nothing
-- counts yet.
pub record Starts (ix : Index) (c : Cursor) (m : Table Mirrored) (base : ℕ) : Type 0 where
  pub epoch_is : c.epoch ≡ ix.epoch
  pub unique : IsUnique m
  pub gens : AllRows (UpTo c.gen) m
  pub start : (g : Str) → AgreesAt base (lookup g ix.rows) (mirrored c m g)
  pub scratch : base ≡ 0 → (g : Str) → mirrored c m g ≡ none

none_agrees :
    (ix : Index) (g : Str) (e : Option Entry) (o : Option Row)
    → IsValid ix
    → lookup g ix.rows ≡ o
    → e ≡ none
    → AgreesAt 0 o e
none_agrees ix g e none v found n = n
none_agrees ix g e (some r) v found n = inl (rows_below ix g r v found).0

-- Rows of older generations do not count.
older_unseen :
    (gen : ℕ) (m : Table Mirrored) (g : Str)
    → AllRows (UpTo gen) m
    → seen_as true (gen + 1) (lookup g m) ≡ none
older_unseen gen m g f = elim (Option-cases (lookup g m)) [
  | inl e ↦ rw e refl
  | inr (x, e) ↦ rw e (ground (arith, lookup-AllRows (UpTo gen) g x m f e))
]

pub UpTo-suc : (gen : ℕ) (m : Table Mirrored) → AllRows (UpTo gen) m → AllRows (UpTo (gen + 1)) m
UpTo-suc gen [] f = tt
UpTo-suc gen ((j, x) ∷ m) f = (omega (arith, f.0), UpTo-suc gen m f.1)

-- After the restart of a reset feed, nothing of the old generations counts.
pub restarted_Starts :
    (ix : Index) (c : Cursor) (m : Table Mirrored) (f : Feed)
    → IsValid ix
    → f.epoch ≡ ix.epoch
    → f.reset ≡ true
    → Follows ix c m
    → Starts ix (restart f c) m 0
unfolding restart
restarted_Starts ix c m f v e r w =
    rw (r, restart)
      (record {
        epoch_is = e;
        unique = w.unique;
        gens = UpTo-suc c.gen m w.gens;
        start = λ g. none_agrees ix g _ (lookup g ix.rows) v refl (older_unseen c.gen m g w.gens);
        scratch = λ z g. older_unseen c.gen m g w.gens;
      })

pub no_reason :
    (ix : Index) (epoch : Str) (n : ℕ)
    → reset_reason_of ix epoch (pos n) ≡ none
    → (epoch ≡ ix.epoch) × (n ≤ ix.head) × ((n ≡ 0) ⊎ (ix.min_rev ≤ n))
unfolding reset_reason_of
no_reason ix epoch n e = ground (arith, str_eq_iff epoch ix.epoch)

pub restart_none : (c : Cursor) (f : Feed) → f.epoch ≡ c.epoch → f.reset ≡ false → restart f c ≡ c
unfolding restart
restart_none c f e r = ground (arith, str_eq_iff f.epoch c.epoch)

pub continued_Starts :
    (ix : Index) (c : Cursor) (m : Table Mirrored)
    → IsValid ix
    → reset_reason_of ix c.epoch (pos c.rev) ≡ none
    → Follows ix c m
    → Starts ix c m c.rev
continued_Starts ix c m v reason w =
    let known = no_reason ix c.epoch c.rev reason in
    record {
      epoch_is = known.0;
      unique = w.unique;
      gens = w.gens;
      start = λ g. elim known.2 [
        | inl z ↦ rw z (none_agrees ix g _ (lookup g ix.rows) v refl (w.fresh known.0 z g))
        | inr k ↦ w.agrees known.0 k g
      ];
      scratch = λ z g. w.fresh known.0 z g;
    }
