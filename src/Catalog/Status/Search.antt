-- ===== src/Catalog/Status/Search.antt =====
-- status.go: the films that the filters of a page select.
use jellysync.Common.{
  Str, is_empty, lit, ◌==◌, ◌||◌, ◌&&◌, ℕ, Bool, true, false, [], ◌∷◌, ◌++◌, ◌≡◌, ◌↔◌, inl, inr,
  refl, sym, ap, ◌∙◌, arith, Bool-cases,
}
use mathlib.Core.List.{append-nil}
use jellysync.Common.Bytes.{lower_byte}
use jellysync.Catalog.Status.{escape_like}

abbrev pub is_special : ℕ → Bool
is_special c = c == 0x5c || c == b'%' || c == b'_'

-- What SQLite documents of LIKE with ESCAPE: it takes all of a text, a percent sign takes any
-- text, and another character takes itself, whatever the case of an ASCII letter; the escape
-- makes the next character an ordinary one. It is said over bytes, as texts are.
pub record LikeLaws (like : Str → Str → Bool) : Type 0 where
  pub nothing : (s : Str) → like [] s ≡ is_empty s
  pub any_text :
      (p s : Str)
      → (like (b'%' ∷ p) s ≡ true)
        ↔ ((pre : Str) × (post : Str) × (s ≡ pre ++ post) × (like p post ≡ true))
  pub escaped_end : (c : ℕ) (p : Str) → like (0x5c ∷ c ∷ p) [] ≡ false
  pub escaped :
      (c : ℕ) (p : Str) (d : ℕ) (s : Str)
      → like (0x5c ∷ c ∷ p) (d ∷ s) ≡ (lower_byte c == lower_byte d && like p s)
  pub ordinary_end : (c : ℕ) (p : Str) → is_special c ≡ false → like (c ∷ p) [] ≡ false
  pub ordinary :
      (c : ℕ) (p : Str) (d : ℕ) (s : Str)
      → is_special c ≡ false
      → like (c ∷ p) (d ∷ s) ≡ (lower_byte c == lower_byte d && like p s)

-- The same text but for the case of ASCII letters.
abbrev pub SameText : Str → Str → Type 0
SameText [] [] = Unit {0}
SameText (c ∷ s) (d ∷ t) = (lower_byte c ≡ lower_byte d) × SameText s t
SameText _ _ = ⊥

-- The name contains the text, whatever the case of ASCII letters.
abbrev pub Contains : Str → Str → Type 0
Contains q name =
    (pre : Str) × (mid : Str) × (post : Str) × (name ≡ pre ++ (mid ++ post)) × SameText q mid

-- A text begins with another one.
unfoldable begins : Str → Str → Bool
begins [] s = true
begins (c ∷ q) [] = false
begins (c ∷ q) (d ∷ s) = lower_byte c == lower_byte d && begins q s

begins-split :
    (q s : Str)
    → begins q s ≡ true
    → (mid : Str) × (post : Str) × (s ≡ mid ++ post) × SameText q mid
unfolding begins
begins-split [] s h = ([], s, refl, tt)
begins-split (c ∷ q) [] h = cc
begins-split (c ∷ q) (d ∷ s) h =
    let (mid, post, e, same) = begins-split q s (ground arith) in
    let first : lower_byte c ≡ lower_byte d = ground (arith, h) in
    (d ∷ mid, post, ap (λ t. d ∷ t) e, (first, same))

split-begins : (q mid post : Str) → SameText q mid → begins q (mid ++ post) ≡ true
unfolding begins
split-begins [] [] post h = refl
split-begins [] (d ∷ mid) post h = absurd h
split-begins (c ∷ q) [] post h = absurd h
split-begins (c ∷ q) (d ∷ mid) post (e, h) = let rest = split-begins q mid post h in ground arith

module _ (like : Str → Str → Bool) (laws : LikeLaws like) where
  like_rest : (s : Str) → like (lit "%") s ≡ true
  like_rest s = (laws.any_text [] s).1 (s, [], sym (append-nil s), laws.nothing [])

  like-escape_like : (q s : Str) → like (escape_like q ++ lit "%") s ≡ begins q s
  unfolding escape_like begins
  like-escape_like [] s = like_rest s
  like-escape_like (c ∷ q) [] = elim (Bool-cases (is_special c)) [
    | inl special ↦ rw (special, escape_like) (laws.escaped_end c (escape_like q ++ lit "%"))
    | inr plain ↦ rw (plain, escape_like) (laws.ordinary_end c (escape_like q ++ lit "%") plain)
  ]
  like-escape_like (c ∷ q) (d ∷ s) =
      let ih = like-escape_like q s in
      elim (Bool-cases (is_special c)) [
        | inl special ↦
            rw (special, escape_like)
              (laws.escaped c (escape_like q ++ lit "%") d s
                ∙ ap (λ b. lower_byte c == lower_byte d && b) ih)
        | inr plain ↦
            rw (plain, escape_like)
              (laws.ordinary c (escape_like q ++ lit "%") d s plain
                ∙ ap (λ b. lower_byte c == lower_byte d && b) ih)
      ]

  -- The pattern of a text is found exactly in the names that contain the text.
  pub like-search :
      (q name : Str) → (like (lit "%" ++ escape_like q ++ lit "%") name ≡ true) ↔ Contains q name
  like-search q name = (
    λ h.
        let (pre, post, e, found) = (laws.any_text (escape_like q ++ lit "%") name).0 h in
        let (mid, rest, f, same) = begins-split q post (sym (like-escape_like q post) ∙ found) in
        (pre, mid, rest, e ∙ ap (λ t. pre ++ t) f, same),
    λ (pre, mid, post, e, same).
        (laws.any_text (escape_like q ++ lit "%") name).1
          (pre, mid ++ post, e, like-escape_like q (mid ++ post) ∙ split-begins q mid post same),
  )
