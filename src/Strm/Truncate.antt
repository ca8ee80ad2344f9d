-- ===== src/Strm/Truncate.antt =====
-- strm.go `truncateUTF8`, against the beginnings of a name.
use jellysync.Common.{
  Str, ◌==◌, leb, ℕ, zero, suc, ◌≤◌, ◌≡◌, refl, ap, ◌∙◌, ◌⊎◌, inl, inr, true, [], ◌∷◌, take, length,
  arith, Bool-cases,
}
use jellysync.Strm.Names.{starts_rune, back_off, truncate_utf8}
use jellysync.Strm.Bounds.{length-truncate_utf8, back_off_le}

length-take_le : (n : ℕ) (s : Str) → n ≤ length s → length (take n s) ≡ n
unfolding take
length-take_le zero s h = refl
length-take_le (suc n) [] h = omega arith
length-take_le (suc n) (c ∷ s) h = ap suc (length-take_le n s (omega arith))

take_own_length : (s : Str) → take (length s) s ≡ s
unfolding take
take_own_length [] = refl
take_own_length (c ∷ s) = ap (λ t. c ∷ t) (take_own_length s)

starts_rune_at_end : (s : Str) → starts_rune s (length s) ≡ true
unfolding starts_rune
starts_rune_at_end [] = refl
starts_rune_at_end (c ∷ s) = starts_rune_at_end s

back_off-starts_rune :
    (s : Str) (n : ℕ) → (back_off s n ≡ 0) ⊎ (starts_rune s (back_off s n) ≡ true)
unfolding back_off
back_off-starts_rune s zero = inl refl
back_off-starts_rune s (suc n) = elim (Bool-cases (starts_rune s (suc n))) [
  | inl t ↦ inr (ground arith)
  | inr f ↦ rw (f, back_off) (back_off-starts_rune s n)
]

back_off_longest : (s : Str) (n k : ℕ) → k ≤ n → starts_rune s k ≡ true → k ≤ back_off s n
unfolding back_off
back_off_longest s zero k h t = omega arith
back_off_longest s (suc n) k h t = ground (arith, back_off_longest s n k)

-- The result is the beginning of the name of at most `n` bytes that is empty or ends where a rune
-- begins or the name ends; and no longer beginning within the bound ends at such a place.
pub truncate_utf8_longest :
    (s : Str) (n k : ℕ)
    → k ≤ n
    → k ≤ length s
    → starts_rune s k ≡ true
    → (take (length (truncate_utf8 s n)) s ≡ truncate_utf8 s n)
      × (length (truncate_utf8 s n) ≤ n)
      × ((length (truncate_utf8 s n) ≡ 0) ⊎ (starts_rune s (length (truncate_utf8 s n)) ≡ true))
      × (k ≤ length (truncate_utf8 s n))
unfolding truncate_utf8 take
truncate_utf8_longest s n k h l t =
    let le = back_off_le s n in
    let cut = length-take_le (back_off s n) s in
    let rune = back_off-starts_rune s n in
    let most = back_off_longest s n k h t in
    let whole = take_own_length s in
    let last = starts_rune_at_end s in
    let fits = length-truncate_utf8 s n in
    elim (Bool-cases (n == 0)) [
      | inl z ↦ rw (z, truncate_utf8) (refl, ground arith, inl refl, ground arith)
      | inr nz ↦ elim (Bool-cases (leb (length s) n)) [
        | inl short ↦ rw (nz, short, truncate_utf8) (whole, ground arith, inr last, l)
        | inr long ↦
            let c : length (take (back_off s n) s) ≡ back_off s n = cut (ground arith) in
            rw (nz, long, truncate_utf8)
              (
                ap (λ m. take m s) c,
                ground arith,
                elim rune [ inl e ↦ inl (c ∙ e) | inr e ↦ inr (ap (starts_rune s) c ∙ e) ],
                ground arith,
              )
      ]
    ]
