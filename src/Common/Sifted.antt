-- ===== src/Common/Sifted.antt =====
-- Elements that satisfy a predicate, picked out of a list.
use Prim.Native.Nat.{ℕ, suc}
use mathlib.Core.List.{List, [], ◌∷◌}

-- The elements that satisfy `P`, in their order, and the number of the others.
pub data IsSifted {ℓ} {A : Type ℓ} (P : A → Type 0) : List A → List A → ℕ → Type ℓ where
  all_done : IsSifted P [] [] 0
  kept :
      (x : A) {xs ys : List A} {n : ℕ} → P x → IsSifted P xs ys n → IsSifted P (x ∷ xs) (x ∷ ys) n
  dropped :
      (x : A) {xs ys : List A} {n : ℕ} → ¬ P x → IsSifted P xs ys n → IsSifted P (x ∷ xs) ys (suc n)
