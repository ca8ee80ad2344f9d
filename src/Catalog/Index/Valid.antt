-- ===== src/Catalog/Index/Valid.antt =====
-- The invariant of local_catalog and the feed's settings, under the writes of a refresh.
use jellysync.Common.{
  Str, ℕ, ◌+◌, ◌≤◌, ◌<◌, ◌≡◌, ◌≢◌, ◌⊎◌, inl, inr, Bool, false, some, [], ◌∷◌, arith, Option-cases,
  not, ◌&&◌, leb,
}
use jellysync.Common.Table.{
  Table, insert, retain, IsUnique, AllRows, insert-IsUnique, retain-IsUnique, insert-AllRows,
}
use jellysync.Catalog.Index.{Index, Row, max_expired}

-- A row is keyed by its entry, its revision was handed out, and a tombstone is a retained one.
abbrev pub Fits : ℕ → ℕ → Str → Row → Type 0
Fits head min_rev id r =
    (r.entry.global_id ≡ id)
    × (0 < r.rev)
    × (r.rev ≤ head)
    × ((r.deleted ≡ false) ⊎ (min_rev < r.rev))

abbrev pub HasNot : ℕ → Table Row → Type 0
HasNot n [] = Unit {0}
HasNot n ((j, r) ∷ m) = (r.rev ≢ n) × HasNot n m

-- No revision stands twice.
abbrev pub Distinct : Table Row → Type 0
Distinct [] = Unit {0}
Distinct ((j, r) ∷ m) = HasNot r.rev m × Distinct m

pub record IsValid (ix : Index) : Type 0 where
  pub named : ix.epoch ≢ []
  pub unique : IsUnique ix.rows
  pub fits : AllRows (Fits ix.head ix.min_rev) ix.rows
  pub distinct : Distinct ix.rows
  pub retained : ix.min_rev ≤ ix.head

Fits-mono :
    (h min_rev : ℕ) (m : Table Row) → AllRows (Fits h min_rev) m → AllRows (Fits (h + 1) min_rev) m
Fits-mono h min_rev [] f = tt
Fits-mono h min_rev ((j, r) ∷ m) f = ground (arith, Fits-mono h min_rev m f.1)

pub HasNot-above :
    (h min_rev n : ℕ) (m : Table Row) → AllRows (Fits h min_rev) m → h < n → HasNot n m
HasNot-above h min_rev n [] f l = tt
HasNot-above h min_rev n ((j, r) ∷ m) f l = (omega arith, HasNot-above h min_rev n m f.1 l)

HasNot-insert :
    (n : ℕ) (k : Str) (r : Row) (m : Table Row) → r.rev ≢ n → HasNot n m → HasNot n (insert k r m)
unfolding insert
HasNot-insert n k r [] d h = (d, tt)
HasNot-insert n k r ((j, s) ∷ m) d h = ground (arith, HasNot-insert n k r m d h.1)

Distinct-insert :
    (k : Str) (r : Row) (m : Table Row) → HasNot r.rev m → Distinct m → Distinct (insert k r m)
unfolding insert
Distinct-insert k r [] h d = (tt, tt)
Distinct-insert k r ((j, s) ∷ m) h d =
    ground (arith, Distinct-insert k r m h.1 d.1, HasNot-insert s.rev k r m)

-- A write under the next revision.
abbrev pub written : Str → Row → Index → Index
written k r ix = record ix { head = ix.head + 1; rows = insert k r ix.rows }

pub written-IsValid :
    (k : Str) (r : Row) (ix : Index)
    → r.entry.global_id ≡ k
    → r.rev ≡ ix.head + 1
    → IsValid ix
    → IsValid (written k r ix)
written-IsValid k r ix named next v = record {
  named = v.named;
  unique = insert-IsUnique k r ix.rows v.unique;
  fits =
      insert-AllRows (Fits (ix.head + 1) ix.min_rev) k r ix.rows
        (named, omega (arith, next), omega (arith, next), inr (omega (arith, next, v.retained)))
        (Fits-mono ix.head ix.min_rev ix.rows v.fits);
  distinct =
      Distinct-insert k r ix.rows
        (HasNot-above ix.head ix.min_rev r.rev ix.rows v.fits (omega (arith, next))) v.distinct;
  retained = omega (arith, v.retained);
}

pub bumped-IsValid : (ix : Index) → IsValid ix → IsValid (record ix { head = ix.head + 1 })
bumped-IsValid ix v = record {
  named = v.named;
  unique = v.unique;
  fits = Fits-mono ix.head ix.min_rev ix.rows v.fits;
  distinct = v.distinct;
  retained = omega (arith, v.retained);
}

-- The rows that a purge up to revision `n` leaves.
abbrev pub survives : ℕ → Str → Row → Bool
survives n id r = not (r.deleted && leb r.rev n)

Fits-purge :
    (h min_rev n : ℕ) (m : Table Row)
    → AllRows (Fits h min_rev) m
    → AllRows (Fits h n) (retain (survives n) m)
unfolding retain
Fits-purge h min_rev n [] f = tt
Fits-purge h min_rev n ((j, r) ∷ m) f = ground (arith, Fits-purge h min_rev n m f.1)

HasNot-retain : (n : ℕ) (p : Str → Row → Bool) (m : Table Row) → HasNot n m → HasNot n (retain p m)
unfolding retain
HasNot-retain n p [] h = tt
HasNot-retain n p ((j, r) ∷ m) h = ground (arith, HasNot-retain n p m h.1)

pub Distinct-retain : (p : Str → Row → Bool) (m : Table Row) → Distinct m → Distinct (retain p m)
unfolding retain
Distinct-retain p [] d = tt
Distinct-retain p ((j, r) ∷ m) d =
    ground (arith, Distinct-retain p m d.1, HasNot-retain r.rev p m d.0)

abbrev pub purged_to : ℕ → Index → Index
purged_to n ix = record ix { min_rev = n; rows = retain (survives n) ix.rows }

pub purged-IsValid : (n : ℕ) (ix : Index) → n ≤ ix.head → IsValid ix → IsValid (purged_to n ix)
purged-IsValid n ix l v = record {
  named = v.named;
  unique = retain-IsUnique (survives n) ix.rows v.unique;
  fits = Fits-purge ix.head ix.min_rev n ix.rows v.fits;
  distinct = Distinct-retain (survives n) ix.rows v.distinct;
  retained = l;
}

-- The newest expired tombstone is a retained one: a purge only raises the oldest revision kept.
pub max_expired_bounds :
    (h min_rev cutoff : ℕ) (m : Table Row) (n : ℕ)
    → AllRows (Fits h min_rev) m
    → max_expired cutoff m ≡ some n
    → (min_rev < n) × (n ≤ h)
unfolding max_expired
max_expired_bounds h min_rev cutoff [] n f e = cc
max_expired_bounds h min_rev cutoff ((j, r) ∷ m) n f e =
    elim (Option-cases (max_expired cutoff m)) [
      | inl none_left ↦ ground arith
      | inr (k, ek) ↦ ground (arith, max_expired_bounds h min_rev cutoff m k f.1)
    ]
