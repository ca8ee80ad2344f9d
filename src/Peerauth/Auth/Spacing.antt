-- ===== src/Peerauth/Auth/Spacing.antt =====
-- How far apart the limiter's allowed calls are.
use jellysync.Common.{
  Str, str_eq_iff, ℕ, ◌+◌, ◌≤◌, ◌≡◌, ◌∙◌, sym, refl, true, Option, none, some, List, [], ◌∷◌, arith,
  Bool-cases, Option-cases, inl, inr,
}
use jellysync.Common.Table.{lookup, lookup-insert}
use jellysync.Peerauth.Auth.{Limiter, too_soon, allow, allow_all}

-- No call is earlier than `t`.
abbrev pub NotBefore : ℕ → List (Str × ℕ) → Type 0
NotBefore t [] = Unit {0}
NotBefore t ((key, now) ∷ calls) = (t ≤ now) × NotBefore t calls

-- The key's window began at `t` or later.
abbrev Began : ℕ → Option ℕ → Type 0
Began t none = ⊥
Began t (some last) = t ≤ last

allow-Began :
    (key other : Str) (t now : ℕ) (l : Limiter)
    → t ≤ now
    → Began t (lookup key l.last)
    → Began t (lookup key (allow other now l).0.last)
unfolding allow
allow-Began key other t now l w b = elim (Bool-cases (too_soon l.every now (lookup other l.last))) [
  | inl soon ↦ rw (soon, allow) b
  | inr late ↦
      rw (late, allow)
        (ground (arith, b, w, str_eq_iff other key, lookup-insert other key now l.last))
]

allow-every : (key : Str) (now : ℕ) (l : Limiter) → (allow key now l).0.every ≡ l.every
unfolding allow
allow-every key now l = ground arith

allow_all-Began :
    (key : Str) (t : ℕ) (calls : List (Str × ℕ)) (l : Limiter)
    → NotBefore t calls
    → Began t (lookup key l.last)
    → Began t (lookup key (allow_all calls l).last) × ((allow_all calls l).every ≡ l.every)
unfolding allow_all
allow_all-Began key t [] l w b = (b, refl)
allow_all-Began key t ((other, now) ∷ calls) l w b =
    let rest =
      allow_all-Began key t calls (allow other now l).0 w.1 (allow-Began key other t now l w.0 b) in
    (rest.0, rest.1 ∙ allow-every other now l)

allowed-Began :
    (key : Str) (t : ℕ) (l : Limiter)
    → (allow key t l).1 ≡ true
    → Began t (lookup key (allow key t l).0.last)
unfolding allow
allowed-Began key t l e = ground (arith, e, lookup-insert key key t l.last, str_eq_iff key key)

allowed_late :
    (key : Str) (t u : ℕ) (l : Limiter)
    → Began t (lookup key l.last)
    → (allow key u l).1 ≡ true
    → t + l.every ≤ u
unfolding allow
allowed_late key t u l b e = elim (Option-cases (lookup key l.last)) [
  | inl n ↦ absurd (rw n at b)
  | inr (last, at) ↦ let w : t ≤ last = rw at at b in ground (arith, e, at, w)
]

-- Between two allowed calls of one key, whatever calls of any key lie between them, at least the
-- limiter's interval passes, if the clock reads no time before the first one's meanwhile.
pub allow-spaced :
    (key : Str) (t u : ℕ) (calls : List (Str × ℕ)) (l : Limiter)
    → (allow key t l).1 ≡ true
    → NotBefore t calls
    → (allow key u (allow_all calls (allow key t l).0)).1 ≡ true
    → t + l.every ≤ u
allow-spaced key t u calls l first w second =
    let (began, same) =
      allow_all-Began key t calls (allow key t l).0 w (allowed-Began key t l first) in
    rw (sym (same ∙ allow-every key t l)) (allowed_late key t u _ began second)
