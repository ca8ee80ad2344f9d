-- ===== src/Common/Bytes.antt =====
-- What the program uses of Go's `strings` package, over bytes.
use Prim.Native.Nat.{ℕ, zero, suc, ◌+◌, ◌-◌, ◌/◌, ◌%◌}
use mathlib.Core.Bool.{Bool, true, false, ◌&&◌}
use mathlib.Core.Option.{Option, none, some}
use mathlib.Core.List.{List, [], ◌∷◌, ◌++◌, map, reverse}
use jellysync.Common.Tests.{◌==◌, ltb, leb, if◌then◌else◌, length}
use jellysync.Common.Text.{Str}

-- strings.CutPrefix
unfoldable pub cut_prefix : Str → Str → Option Str
cut_prefix [] s = some s
cut_prefix (p ∷ ps) [] = none
cut_prefix (p ∷ ps) (c ∷ s) = if p == c then cut_prefix ps s else none

-- strings.HasPrefix
unfoldable pub starts_with : Str → Str → Bool
starts_with [] s = true
starts_with (p ∷ ps) [] = false
starts_with (p ∷ ps) (c ∷ s) = (p == c) && starts_with ps s

-- strings.HasSuffix
unfoldable pub ends_with : Str → Str → Bool
unfolding starts_with
ends_with p s = starts_with (reverse p) (reverse s)

-- strings.ReplaceAll of one byte by another
unfoldable pub replace_byte : ℕ → ℕ → Str → Str
replace_byte a b s = map (λ c. if c == a then b else c) s

-- The encodings of the runes that unicode.IsSpace accepts.
abbrev white_space : List Str
white_space =
    (9 ∷ [])
    ∷ (10 ∷ [])
    ∷ (11 ∷ [])
    ∷ (12 ∷ [])
    ∷ (13 ∷ [])
    ∷ (32 ∷ [])
    ∷ (0xc2 ∷ 0x85 ∷ [])
    ∷ (0xc2 ∷ 0xa0 ∷ [])
    ∷ (0xe1 ∷ 0x9a ∷ 0x80 ∷ [])
    ∷ (0xe2 ∷ 0x80 ∷ 0x80 ∷ [])
    ∷ (0xe2 ∷ 0x80 ∷ 0x81 ∷ [])
    ∷ (0xe2 ∷ 0x80 ∷ 0x82 ∷ [])
    ∷ (0xe2 ∷ 0x80 ∷ 0x83 ∷ [])
    ∷ (0xe2 ∷ 0x80 ∷ 0x84 ∷ [])
    ∷ (0xe2 ∷ 0x80 ∷ 0x85 ∷ [])
    ∷ (0xe2 ∷ 0x80 ∷ 0x86 ∷ [])
    ∷ (0xe2 ∷ 0x80 ∷ 0x87 ∷ [])
    ∷ (0xe2 ∷ 0x80 ∷ 0x88 ∷ [])
    ∷ (0xe2 ∷ 0x80 ∷ 0x89 ∷ [])
    ∷ (0xe2 ∷ 0x80 ∷ 0x8a ∷ [])
    ∷ (0xe2 ∷ 0x80 ∷ 0xa8 ∷ [])
    ∷ (0xe2 ∷ 0x80 ∷ 0xa9 ∷ [])
    ∷ (0xe2 ∷ 0x80 ∷ 0xaf ∷ [])
    ∷ (0xe2 ∷ 0x81 ∷ 0x9f ∷ [])
    ∷ (0xe3 ∷ 0x80 ∷ 0x80 ∷ [])
    ∷ []

cut_any : List Str → Str → Option Str
cut_any [] s = none
cut_any (p ∷ ps) s = elim (cut_prefix p s) [ some r ↦ some r | none ↦ cut_any ps s ]

-- Each round cuts at least one byte, so the length is fuel enough.
trim_left : List Str → ℕ → Str → Str
trim_left ps zero s = s
trim_left ps (suc n) s = elim (cut_any ps s) [ none ↦ s | some r ↦ trim_left ps n r ]

-- strings.TrimSpace
unfoldable pub trim_space : Str → Str
unfolding cut_prefix cut_any trim_left
trim_space s =
    let l = trim_left white_space (length s) s in
    reverse (trim_left (map reverse white_space) (length l) (reverse l))

unfoldable pub drop_while : (ℕ → Bool) → Str → Str
drop_while p [] = []
drop_while p (c ∷ s) = let rest = drop_while p s in if p c then rest else c ∷ s

-- strings.TrimRight
unfoldable pub trim_right : (ℕ → Bool) → Str → Str
unfolding drop_while
trim_right p s = reverse (drop_while p (reverse s))

-- The decimal digits of a number below `10 ^ places`.
unfoldable pub digits : ℕ → ℕ → Str
digits zero n = []
digits (suc places) n =
    let high = digits places (n / 10) in
    if ltb n 10 then (b'0' + n) ∷ [] else high ++ (b'0' + n % 10) ∷ []

-- An `int` has 64 bits, so 19 places are enough.
abbrev pub int_places : ℕ
int_places = 19

-- %02d of a number that is not negative
unfoldable pub two_places : ℕ → Str
two_places n = let s = digits int_places n in if ltb (length s) 2 then b'0' ∷ s else s

unfoldable hex_digit : ℕ → ℕ
hex_digit d = if ltb d 10 then b'0' + d else b'a' + (d - 10)

-- hex.EncodeToString
unfoldable pub hex : Str → Str
unfolding hex_digit
hex [] = []
hex (c ∷ s) = hex_digit (c / 16) ∷ hex_digit (c % 16) ∷ hex s

abbrev pub lower_byte : ℕ → ℕ
lower_byte c = if leb b'A' c && leb c b'Z' then c + 32 else c

-- Each round reads at least one byte, so the length is fuel enough.
lower_runes : ℕ → Str → Str
lower_runes zero s = s
lower_runes (suc n) [] = []
lower_runes (suc n) (c ∷ s) = elim (cut_prefix (0xe2 ∷ 0x84 ∷ 0xaa ∷ []) (c ∷ s)) [
  | some r ↦ b'k' ∷ lower_runes n r
  | none ↦ elim (cut_prefix (0xc4 ∷ 0xb0 ∷ []) (c ∷ s)) [
    | some r ↦ b'i' ∷ lower_runes n r
    | none ↦ lower_byte c ∷ lower_runes n s
  ]
]

-- strings.ToLower of the runes whose lower case is ASCII (the last two: the Kelvin sign and the
-- dotted I); the others stay.
unfoldable pub to_lower : Str → Str
unfolding cut_prefix lower_runes
to_lower s = lower_runes (length s) s

unfoldable pub replace_runs_from : (ℕ → Bool) → Bool → Str → Str
replace_runs_from keep inside [] = []
replace_runs_from keep inside (c ∷ s) =
    let kept = replace_runs_from keep false s in
    let rest = replace_runs_from keep true s in
    if keep c then c ∷ kept else if inside then rest else b'-' ∷ rest

-- ReplaceAllString of each run of the bytes that are not kept by a dash.
unfoldable pub replace_runs : (ℕ → Bool) → Str → Str
unfolding replace_runs_from
replace_runs keep s = replace_runs_from keep false s

-- strings.Trim
unfoldable pub trim : (ℕ → Bool) → Str → Str
unfolding drop_while
trim p s = reverse (drop_while p (reverse (drop_while p s)))

-- strings.Split with a comma, after the bytes of the first part so far.
unfoldable pub split_commas : Str → Str → List Str
split_commas part [] = part ∷ []
split_commas part (c ∷ s) =
    if c == b',' then part ∷ split_commas [] s else split_commas (part ++ c ∷ []) s
