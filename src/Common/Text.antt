-- ===== src/Common/Text.antt =====
-- A Go string is a sequence of bytes: equality, the bytewise order, literals.
use Prim.Native.Nat.{ℕ}
use Prim.Native.Char.{code}
use Prim.Native.String.{String}
use mathlib.Core.Path.{◌≡◌, refl}
use mathlib.Core.Logic.{◌↔◌}
use mathlib.Core.Bool.{Bool, true, false, ◌&&◌}
use mathlib.Core.List.{List, [], ◌∷◌}
use native.Mathlib.Omega.{arith}
use jellysync.Common.Tests.{◌==◌, ltb, if◌then◌else◌}

abbrev pub Str : Type 0
Str = List ℕ

-- The bytes of an ASCII literal.
abbrev pub lit : String → Str
lit String.[] = []
lit (String.◌∷◌ c s) = code c ∷ lit s

unfoldable pub str_eq : Str → Str → Bool
str_eq [] [] = true
str_eq [] (b ∷ t) = false
str_eq (a ∷ s) [] = false
str_eq (a ∷ s) (b ∷ t) = (a == b) && str_eq s t

-- Go's `<` on strings, which is SQLite's BINARY collation too.
unfoldable pub str_lt : Str → Str → Bool
str_lt [] [] = false
str_lt [] (b ∷ t) = true
str_lt (a ∷ s) [] = false
str_lt (a ∷ s) (b ∷ t) = let rest = str_lt s t in if a == b then rest else ltb a b

abbrev pub is_empty : Str → Bool
is_empty [] = true
is_empty (a ∷ s) = false

pub str_eq_refl : (s : Str) → str_eq s s ≡ true
unfolding str_eq
str_eq_refl [] = refl
str_eq_refl (a ∷ s) = ground (arith, str_eq_refl s)

str_eq_sound : (s t : Str) → str_eq s t ≡ true → s ≡ t
unfolding str_eq
str_eq_sound [] [] h = refl
str_eq_sound [] (b ∷ t) h = cc
str_eq_sound (a ∷ s) [] h = cc
str_eq_sound (a ∷ s) (b ∷ t) h = ground (arith, str_eq_sound s t)

str_eq_complete : (s t : Str) → s ≡ t → str_eq s t ≡ true
str_eq_complete s t e = rw e (str_eq_refl t)

pub str_eq_iff : (s t : Str) → (str_eq s t ≡ true) ↔ (s ≡ t)
str_eq_iff s t = (str_eq_sound s t, str_eq_complete s t)

-- The bytewise order is a strict total order.
pub str_lt_asym : (s t : Str) → str_lt s t ≡ true → str_lt t s ≡ false
unfolding str_lt
str_lt_asym [] [] h = refl
str_lt_asym [] (b ∷ t) h = refl
str_lt_asym (a ∷ s) [] h = cc
str_lt_asym (a ∷ s) (b ∷ t) h = ground (arith, str_lt_asym s t)

pub str_lt_total : (s t : Str) → str_lt s t ≡ false → str_lt t s ≡ false → s ≡ t
unfolding str_lt
str_lt_total [] [] h k = refl
str_lt_total [] (b ∷ t) h k = cc
str_lt_total (a ∷ s) [] h k = cc
str_lt_total (a ∷ s) (b ∷ t) h k = ground (arith, str_lt_total s t)

pub str_lt_trans : (s t u : Str) → str_lt s t ≡ true → str_lt t u ≡ true → str_lt s u ≡ true
unfolding str_lt
str_lt_trans [] [] u h k = cc
str_lt_trans [] (b ∷ t) [] h k = cc
str_lt_trans [] (b ∷ t) (c ∷ u) h k = refl
str_lt_trans (a ∷ s) [] u h k = cc
str_lt_trans (a ∷ s) (b ∷ t) [] h k = cc
str_lt_trans (a ∷ s) (b ∷ t) (c ∷ u) h k = ground (arith, str_lt_trans s t u)
