-- ===== src/Common/Numbers.antt =====
-- The decimal digits of a number, read back.
use Prim.Native.Nat.{ℕ, zero, suc, ◌+◌, ◌-◌, ◌*◌, ◌/◌, ◌%◌, ◌<◌}
use mathlib.Core.Path.{◌≡◌, refl, sym, ap, ◌∙◌}
use mathlib.Core.Logic.{inl, inr}
use mathlib.Core.List.{[], ◌∷◌, ◌++◌}
use native.Mathlib.Omega.{arith}
use jellysync.Common.Tests.{ltb, length, Bool-cases}
use jellysync.Common.Text.{Str}
use jellysync.Common.Bytes.{digits, int_places, two_places}

-- The number that digits say, after those read already.
unfoldable pub value : ℕ → Str → ℕ
value acc [] = acc
value acc (c ∷ s) = value (acc * 10 + (c - b'0')) s

unfoldable pub ten_to : ℕ → ℕ
ten_to zero = 1
ten_to (suc p) = 10 * ten_to p

value-++ : (acc : ℕ) (s t : Str) → value acc (s ++ t) ≡ value (value acc s) t
unfolding value
value-++ acc [] t = refl
value-++ acc (c ∷ s) t = value-++ (acc * 10 + (c - b'0')) s t

value-digits : (p n : ℕ) → n < ten_to p → value 0 (digits p n) ≡ n
unfolding value digits ten_to
value-digits zero n h = omega arith
value-digits (suc p) n h = elim (Bool-cases (ltb n 10)) [
  | inl small ↦ rw (small, digits) (omega arith)
  | inr large ↦
      let ih = value-digits p (n / 10) (omega arith) in
      let e = value-++ 0 (digits p (n / 10)) ((b'0' + n % 10) ∷ []) in
      rw (large, digits) (e ∙ (rw ih (omega arith)))
]

-- A number of an `int` is read back from its two digits, or more.
pub value-two_places : (n : ℕ) → n < ten_to int_places → value 0 (two_places n) ≡ n
unfolding two_places value
value-two_places n h =
    let e = value-digits int_places n h in
    elim (Bool-cases (ltb (length (digits int_places n)) 2)) [
      | inl short ↦ rw (short, two_places) e
      | inr long ↦ rw (long, two_places) e
    ]

pub two_places_differ :
    (n m : ℕ) → n < ten_to int_places → m < ten_to int_places → two_places n ≡ two_places m → n ≡ m
two_places_differ n m hn hm e = sym (value-two_places n hn) ∙ ap (value 0) e ∙ value-two_places m hm
