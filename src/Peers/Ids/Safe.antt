-- ===== src/Peers/Ids/Safe.antt =====
-- ids.go: the bytes of an id.
use jellysync.Common.{
  Str, is_empty, lit, ◌==◌, ◌||◌, ◌&&◌, ℕ, zero, suc, ◌+◌, ◌/◌, ◌%◌, ◌<◌, Bool, true, false, some,
  [], ◌∷◌, ◌++◌, ltb, ◌≡◌, refl, arith, Bool-cases, inl, inr,
}
use mathlib.Core.List.{reverse, reverse-cons}
use jellysync.Common.Bytes.{
  to_lower, trim_space, trim, replace_runs, two_places, digits, int_places, drop_while,
  replace_runs_from,
}
use jellysync.Peers.Ids.{is_slug, slug, numbered, first_free, id_for}

-- Every byte is a lower-case letter, a digit, `_` or `-`.
unfoldable pub all_slug : Str → Bool
all_slug [] = true
all_slug (c ∷ s) = is_slug c && all_slug s

all_slug-++ : (s t : Str) → all_slug s ≡ true → all_slug t ≡ true → all_slug (s ++ t) ≡ true
unfolding all_slug
all_slug-++ [] t h k = k
all_slug-++ (c ∷ s) t h k = ground (arith, all_slug-++ s t)

all_slug-replace_runs_from :
    (inside : Bool) (s : Str) → all_slug (replace_runs_from is_slug inside s) ≡ true
unfolding all_slug replace_runs_from
all_slug-replace_runs_from inside [] = refl
all_slug-replace_runs_from inside (c ∷ s) =
    let a = all_slug-replace_runs_from false s in
    let b = all_slug-replace_runs_from true s in ground arith

all_slug-drop_while :
    (p : ℕ → Bool) (s : Str) → all_slug s ≡ true → all_slug (drop_while p s) ≡ true
unfolding all_slug drop_while
all_slug-drop_while p [] h = refl
all_slug-drop_while p (c ∷ s) h = ground (arith, all_slug-drop_while p s)

is_slug_digit : (d : ℕ) → d < 10 → is_slug (b'0' + d) ≡ true
is_slug_digit d h = ground arith

all_slug-digits : (places n : ℕ) → all_slug (digits places n) ≡ true
unfolding all_slug digits
all_slug-digits zero n = refl
all_slug-digits (suc p) n =
    let a = all_slug-digits p (n / 10) in
    let low = is_slug_digit (n % 10) (omega arith) in
    let join = all_slug-++ (digits p (n / 10)) ((b'0' + n % 10) ∷ []) a in
    elim (Bool-cases (ltb n 10)) [
      | inl small ↦ let own = is_slug_digit n (ground arith) in rw (small, digits) (ground arith)
      | inr large ↦ rw (large, digits) (join (ground arith))
    ]

all_slug-two_places : (n : ℕ) → all_slug (two_places n) ≡ true
unfolding all_slug two_places
all_slug-two_places n = ground (arith, all_slug-digits int_places n)

all_slug-reverse : (s : Str) → all_slug s ≡ true → all_slug (reverse s) ≡ true
unfolding all_slug
all_slug-reverse [] h = refl
all_slug-reverse (c ∷ s) h =
    rw (reverse-cons c s)
      (all_slug-++ (reverse s) (c ∷ []) (all_slug-reverse s (ground arith)) (ground arith))

all_slug-trim : (p : ℕ → Bool) (s : Str) → all_slug s ≡ true → all_slug (trim p s) ≡ true
unfolding trim
all_slug-trim p s h =
    all_slug-reverse _ (all_slug-drop_while p _ (all_slug-reverse _ (all_slug-drop_while p s h)))

all_slug-slug : (name : Str) → all_slug (slug name) ≡ true
unfolding slug replace_runs
all_slug-slug name =
    all_slug-trim (λ c. c == b'-' || c == b'_') _
      (all_slug-replace_runs_from false (to_lower (trim_space name)))

all_slug-numbered : (base : Str) (n : ℕ) → all_slug base ≡ true → all_slug (numbered base n) ≡ true
unfolding numbered all_slug
all_slug-numbered base n h =
    all_slug-++ (base ++ lit "_") (two_places n) (all_slug-++ base (lit "_") h refl)
      (all_slug-two_places n)

is_empty-numbered :
    (base : Str) (n : ℕ) → is_empty base ≡ false → is_empty (numbered base n) ≡ false
unfolding numbered
is_empty-numbered [] n h = cc
is_empty-numbered (c ∷ base) n h = refl

first_free-all_slug :
    (taken : Str → Bool) (base : Str) (rounds n : ℕ) (id : Str)
    → all_slug base ≡ true
    → is_empty base ≡ false
    → first_free taken base rounds n ≡ some id
    → (all_slug id ≡ true) × (is_empty id ≡ false)
unfolding first_free
first_free-all_slug taken base zero n id h k e = ground arith
first_free-all_slug taken base (suc rounds) n id h k e =
    let rest = first_free-all_slug taken base rounds (n + 1) id h k in
    let a = all_slug-numbered base n h in let b = is_empty-numbered base n k in ground arith

-- If a new UUID is made of lower-case letters, digits and dashes, so is every id that idFor gives,
-- with underscores, whatever the peer calls itself; and the id is not empty.
pub id_for-all_slug :
    (rounds : ℕ) (fresh name : Str) (taken : Str → Bool) (id : Str)
    → all_slug fresh ≡ true
    → is_empty fresh ≡ false
    → id_for rounds fresh name taken ≡ some id
    → (all_slug id ≡ true) × (is_empty id ≡ false)
unfolding id_for
id_for-all_slug rounds fresh name taken id h k e =
    let a = all_slug-slug name in
    let b = first_free-all_slug taken (slug name) rounds 1 id in ground arith
