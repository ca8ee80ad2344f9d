-- ===== src/Common/Table.antt =====
-- A table with a text key (a Go map, or a SQL table with a primary key): an association list
-- whose keys differ.
use jellysync.Common.Tests.{if◌then◌else◌, is_none, is_some, Option-cases}
use jellysync.Common.Text.{Str, str_eq, str_eq_iff}
use mathlib.Core.Path.{◌≡◌, refl}
use mathlib.Core.Logic.{inl, inr}
use mathlib.Core.Bool.{Bool, true}
use mathlib.Core.Option.{Option, none, some}
use mathlib.Core.List.{List, [], ◌∷◌, map}
use native.Mathlib.Omega.{arith}

abbrev pub Table {ℓ} : Type ℓ → Type ℓ
Table V = List (Str × V)

module _ {ℓ} {V : Type ℓ} where
  -- m[k], SELECT ... WHERE key = k
  unfoldable pub lookup : Str → Table V → Option V
  lookup k [] = none
  lookup k ((j, v) ∷ m) = if str_eq j k then some v else lookup k m

  -- m[k] = v, INSERT ... ON CONFLICT DO UPDATE
  unfoldable pub insert : Str → V → Table V → Table V
  insert k v [] = (k, v) ∷ []
  insert k v ((j, w) ∷ m) = if str_eq j k then (k, v) ∷ m else (j, w) ∷ insert k v m

  -- DELETE ... WHERE NOT p
  unfoldable pub retain : (Str → V → Bool) → Table V → Table V
  retain p [] = []
  retain p ((j, v) ∷ m) = let rest = retain p m in if p j v then (j, v) ∷ rest else rest

  -- delete(m, k)
  unfoldable pub delete : Str → Table V → Table V
  delete k [] = []
  delete k ((j, v) ∷ m) = let rest = delete k m in if str_eq j k then rest else (j, v) ∷ rest

  -- _, ok := m[k]
  abbrev pub has : Str → Table V → Bool
  has k m = is_some (lookup k m)

  -- UPDATE ... SET ... WHERE key = k
  unfoldable pub update : Str → (V → V) → Table V → Table V
  update k f m = elim (lookup k m) [ none ↦ m | some v ↦ insert k (f v) m ]

  -- ORDER BY: insertion sort by a test on rows.
  unfoldable pub place : (Str × V → Str × V → Bool) → Str × V → Table V → Table V
  place le x [] = x ∷ []
  place le x (y ∷ m) = if le x y then x ∷ y ∷ m else y ∷ place le x m

  unfoldable pub order_by : (Str × V → Str × V → Bool) → Table V → Table V
  unfolding place
  order_by le [] = []
  order_by le (x ∷ m) = place le x (order_by le m)

  abbrev pub keys : Table V → List Str
  keys = map (λ r. r.0)

  -- No key stands twice.
  abbrev pub IsUnique : Table V → Type 0
  IsUnique [] = Unit {0}
  IsUnique ((j, v) ∷ m) = (is_none (lookup j m) ≡ true) × IsUnique m

  -- Every row satisfies `P`.
  abbrev pub AllRows : (Str → V → Type 0) → Table V → Type 0
  AllRows P [] = Unit {0}
  AllRows P ((j, v) ∷ m) = P j v × AllRows P m

  pub lookup-insert :
      (k j : Str) (v : V) (m : Table V)
      → lookup j (insert k v m) ≡ (if str_eq k j then some v else lookup j m)
  unfolding lookup insert
  lookup-insert k j v [] = refl
  lookup-insert k j v ((i, w) ∷ m) =
      ground (arith, str_eq_iff k j, str_eq_iff i k, str_eq_iff i j, lookup-insert k j v m)

  abbrev pub mapped : (V → V) → Option V → Option V
  mapped f none = none
  mapped f (some v) = some (f v)

  pub lookup-update :
      (k j : Str) (f : V → V) (m : Table V)
      → lookup j (update k f m) ≡ (if str_eq k j then mapped f (lookup j m) else lookup j m)
  unfolding update
  lookup-update k j f m = elim (Option-cases (lookup k m)) [
    | inl e ↦ rw (e, update) (ground (arith, str_eq_iff k j))
    | inr (v, e) ↦ rw (e, update) (ground (arith, str_eq_iff k j, lookup-insert k j (f v) m))
  ]

  pub lookup-delete :
      (k j : Str) (m : Table V) → lookup j (delete k m) ≡ (if str_eq k j then none else lookup j m)
  unfolding lookup delete
  lookup-delete k j [] = ground arith
  lookup-delete k j ((i, w) ∷ m) =
      ground (arith, str_eq_iff k j, str_eq_iff i k, str_eq_iff i j, lookup-delete k j m)

  -- What `retain` keeps of the row found.
  abbrev pub kept : (V → Bool) → Option V → Option V
  kept p none = none
  kept p (some v) = if p v then some v else none

  pub lookup-retain :
      (p : Str → V → Bool) (k : Str) (m : Table V)
      → IsUnique m
      → lookup k (retain p m) ≡ kept (p k) (lookup k m)
  unfolding lookup retain
  lookup-retain p k [] u = refl
  lookup-retain p k ((j, v) ∷ m) u = ground (arith, lookup-retain p k m u.1, str_eq_iff j k)

  pub insert-IsUnique : (k : Str) (v : V) (m : Table V) → IsUnique m → IsUnique (insert k v m)
  unfolding lookup insert
  insert-IsUnique k v [] u = (refl, tt)
  insert-IsUnique k v ((j, w) ∷ m) u =
      ground
        (arith, insert-IsUnique k v m u.1, str_eq_iff j k, str_eq_iff k j, lookup-insert k j v m)

  pub delete-IsUnique : (k : Str) (m : Table V) → IsUnique m → IsUnique (delete k m)
  unfolding lookup delete
  delete-IsUnique k [] u = tt
  delete-IsUnique k ((j, w) ∷ m) u = ground (arith, delete-IsUnique k m u.1, lookup-delete k j m)

  pub retain-IsUnique : (p : Str → V → Bool) (m : Table V) → IsUnique m → IsUnique (retain p m)
  unfolding lookup retain
  retain-IsUnique p [] u = tt
  retain-IsUnique p ((j, w) ∷ m) u =
      ground (arith, retain-IsUnique p m u.1, lookup-retain p j m u.1)

  lookup-place :
      (le : Str × V → Str × V → Bool) (j k : Str) (v : V) (m : Table V)
      → is_none (lookup j m) ≡ true
      → lookup k (place le (j, v) m) ≡ (if str_eq j k then some v else lookup k m)
  unfolding lookup place
  lookup-place le j k v [] h = refl
  lookup-place le j k v ((i, w) ∷ m) h =
      ground (arith, str_eq_iff j k, str_eq_iff i k, str_eq_iff i j, lookup-place le j k v m)

  -- Sorting changes no row.
  pub lookup-order_by :
      (le : Str × V → Str × V → Bool) (k : Str) (m : Table V)
      → IsUnique m
      → lookup k (order_by le m) ≡ lookup k m
  unfolding lookup order_by
  lookup-order_by le k [] u = refl
  lookup-order_by le k ((j, v) ∷ m) u =
      let ih = lookup-order_by le k m u.1 in
      let ihj = lookup-order_by le j m u.1 in
      rw (lookup-place le j k v (order_by le m) (rw ihj u.0)) (ground arith)

  place-IsUnique :
      (le : Str × V → Str × V → Bool) (j : Str) (v : V) (m : Table V)
      → is_none (lookup j m) ≡ true
      → IsUnique m
      → IsUnique (place le (j, v) m)
  unfolding lookup place
  place-IsUnique le j v [] h u = (refl, tt)
  place-IsUnique le j v ((i, w) ∷ m) h u =
      ground
        (arith, str_eq_iff i j, str_eq_iff j i, place-IsUnique le j v m, lookup-place le j i v m)

  pub order_by-IsUnique :
      (le : Str × V → Str × V → Bool) (m : Table V) → IsUnique m → IsUnique (order_by le m)
  unfolding order_by
  order_by-IsUnique le [] u = tt
  order_by-IsUnique le ((j, v) ∷ m) u =
      place-IsUnique le j v (order_by le m) (rw (lookup-order_by le j m u.1) u.0)
        (order_by-IsUnique le m u.1)

  module _ (P : Str → V → Type 0) where
    pub lookup-AllRows : (k : Str) (v : V) (m : Table V) → AllRows P m → lookup k m ≡ some v → P k v
    unfolding lookup
    lookup-AllRows k v [] h e = cc
    lookup-AllRows k v ((j, w) ∷ m) h e = ground (arith, str_eq_iff j k, lookup-AllRows k v m h.1)

    pub insert-AllRows :
        (k : Str) (v : V) (m : Table V) → P k v → AllRows P m → AllRows P (insert k v m)
    unfolding insert
    insert-AllRows k v [] p h = (p, tt)
    insert-AllRows k v ((j, w) ∷ m) p h = ground (arith, insert-AllRows k v m p h.1)

    pub retain-AllRows : (p : Str → V → Bool) (m : Table V) → AllRows P m → AllRows P (retain p m)
    unfolding retain
    retain-AllRows p [] h = tt
    retain-AllRows p ((j, w) ∷ m) h = ground (arith, retain-AllRows p m h.1)

    pub delete-AllRows : (k : Str) (m : Table V) → AllRows P m → AllRows P (delete k m)
    unfolding delete
    delete-AllRows k [] h = tt
    delete-AllRows k ((j, w) ∷ m) h = ground (arith, delete-AllRows k m h.1)

    place-AllRows :
        (le : Str × V → Str × V → Bool) (j : Str) (v : V) (m : Table V)
        → P j v
        → AllRows P m
        → AllRows P (place le (j, v) m)
    unfolding place
    place-AllRows le j v [] p h = (p, tt)
    place-AllRows le j v ((i, w) ∷ m) p h = ground (arith, place-AllRows le j v m p h.1)

    pub order_by-AllRows :
        (le : Str × V → Str × V → Bool) (m : Table V) → AllRows P m → AllRows P (order_by le m)
    unfolding order_by
    order_by-AllRows le [] h = tt
    order_by-AllRows le ((j, v) ∷ m) h =
        place-AllRows le j v (order_by le m) h.0 (order_by-AllRows le m h.1)
