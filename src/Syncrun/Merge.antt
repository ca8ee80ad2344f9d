-- ===== src/Syncrun/Merge.antt =====
-- A merged request, against the requests that were merged.
use jellysync.Common.{
  Str, str_eq, str_eq_iff, is_empty, ℕ, ◌≡◌, refl, inl, inr, Bool, true, false, ◌||◌, Option, none,
  some, List, [], ◌∷◌, ◌++◌, ◌==◌, arith, Bool-cases,
}
use mathlib.Core.Path.{subst}
use jellysync.Catalog.Folders.{contains}
use jellysync.Syncrun.{
  Request, Queue, plus, onto_first, split_reasons, merge, new_queue, enqueue, enqueue_all,
  take_request,
}

-- Whether a word is among a request's reasons.
unfoldable pub names : Str → Request → Bool
unfolding split_reasons contains
names w r = contains w (split_reasons r.reason)

split_reasons-cons : (s : Str) → (w : Str) × (ws : List Str) × (split_reasons s ≡ w ∷ ws)
unfolding split_reasons
split_reasons-cons [] = ([], [], refl)
split_reasons-cons (c ∷ s) = elim (Bool-cases (c == plus)) [
  | inl cut ↦ ([], split_reasons s, rw cut refl)
  | inr on ↦ let (w, ws, e) = split_reasons-cons s in (c ∷ w, ws, rw (on, e) refl)
]

split_reasons-append :
    (a b : Str) → split_reasons (a ++ plus ∷ b) ≡ split_reasons a ++ split_reasons b
unfolding split_reasons
split_reasons-append [] b = refl
split_reasons-append (c ∷ a) b = elim (Bool-cases (c == plus)) [
  | inl cut ↦ rw (cut, split_reasons-append a b) refl
  | inr on ↦ let (w, ws, e) = split_reasons-cons a in rw (on, split_reasons-append a b, e) refl
]

contains-append : (w : Str) (a b : List Str) → contains w (a ++ b) ≡ (contains w a || contains w b)
unfolding contains
contains-append w [] b = refl
contains-append w (x ∷ a) b = ground (arith, contains-append w a b)

-- A word has no separator.
abbrev AllWords : List Str → Type 0
AllWords [] = Unit {0}
AllWords (w ∷ ws) = (split_reasons w ≡ w ∷ []) × AllWords ws

onto_first-AllWords :
    (c : ℕ) (ws : List Str) → (c == plus) ≡ false → AllWords ws → AllWords (onto_first c ws)
unfolding split_reasons
onto_first-AllWords c [] on h = (rw on refl, tt)
onto_first-AllWords c (w ∷ ws) on h = (rw (on, h.0) refl, h.1)

split_reasons-AllWords : (s : Str) → AllWords (split_reasons s)
unfolding split_reasons
split_reasons-AllWords [] = (refl, tt)
split_reasons-AllWords (c ∷ s) = elim (Bool-cases (c == plus)) [
  | inl cut ↦ rw cut (refl, split_reasons-AllWords s)
  | inr on ↦ rw on (onto_first-AllWords c (split_reasons s) on (split_reasons-AllWords s))
]

contains-word :
    (w : Str) (ws : List Str) → contains w ws ≡ true → AllWords ws → split_reasons w ≡ w ∷ []
unfolding contains
contains-word w [] e h = absurd (cc)
contains-word w (v ∷ ws) e h = elim (Bool-cases (str_eq v w)) [
  | inl same ↦ let eq : v ≡ w = ground (arith, same, str_eq_iff v w) in rw eq at (h.0)
  | inr other ↦ contains-word w ws (ground (arith, e, other)) h.1
]

no_word :
    (w s : Str) → is_empty w ≡ false → is_empty s ≡ true → contains w (split_reasons s) ≡ false
unfolding split_reasons contains str_eq
no_word [] s e n = absurd (cc)
no_word (c ∷ w) [] e n = refl
no_word (c ∷ w) (d ∷ s) e n = absurd (cc)

-- A merged request names a reason exactly if one of the two does.
names-merge :
    (w : Str) (a b : Request) → is_empty w ≡ false → names w (merge a b) ≡ (names w a || names w b)
unfolding names merge
names-merge w a b e = elim (Bool-cases (is_empty a.reason)) [
  | inl n ↦ let none_of_a = no_word w a.reason e n in ground (arith, n, none_of_a)
  | inr f ↦ elim (Bool-cases (is_empty b.reason)) [
    | inl n ↦ let none_of_b = no_word w b.reason e n in ground (arith, f, n, none_of_b)
    | inr g ↦ elim (Bool-cases (contains b.reason (split_reasons a.reason))) [
      | inl old ↦
          let word =
            contains-word b.reason (split_reasons a.reason) old (split_reasons-AllWords a.reason) in
          ground (arith, f, g, old, word, str_eq_iff b.reason w)
      | inr new ↦ ground (
        arith,
        f,
        g,
        new,
        split_reasons-append a.reason b.reason,
        contains-append w (split_reasons a.reason) (split_reasons b.reason),
      )
    ]
  ]
]

-- Whether some request reads the library again, and whether some request names a reason.
unfoldable pub any_refresh : List Request → Bool
any_refresh [] = false
any_refresh (r ∷ rs) = r.refresh_local || any_refresh rs

unfoldable pub any_names : Str → List Request → Bool
any_names w [] = false
any_names w (r ∷ rs) = names w r || any_names w rs

-- What the pending request does after more were pushed.
Does : Str → Bool → Bool → Option Request → Type 0
Does w refreshes named none = ⊥
Does w refreshes named (some p) = (p.refresh_local ≡ refreshes) × (names w p ≡ named)

same-Does :
    (w : Str) (a b c d : Bool) (o : Option Request) → a ≡ c → b ≡ d → Does w a b o → Does w c d o
same-Does w a b c d o e f h = subst (λ x. Does w c x o) f (subst (λ x. Does w x b o) e h)

or_assoc : (a b c : Bool) → ((a || b) || c) ≡ (a || (b || c))
or_assoc true b c = refl
or_assoc false b c = refl

enqueue_all-Does :
    (w : Str) (rs : List Request) (p : Request) (q : Queue)
    → is_empty w ≡ false
    → q.pending ≡ some p
    → Does w
        (p.refresh_local || any_refresh rs)
        (names w p || any_names w rs)
        (enqueue_all rs q).pending
unfolding enqueue_all enqueue any_refresh any_names Does merge
enqueue_all-Does w [] p q e at = rw at (ground arith, ground arith)
enqueue_all-Does w (r ∷ rs) p q e at =
    let pending : (enqueue r q).pending ≡ some (merge p r) = rw at refl in
    same-Does w _ _ _ _ _ (or_assoc p.refresh_local r.refresh_local (any_refresh rs))
      (rw (names-merge w p r e) (or_assoc (names w p) (names w r) (any_names w rs)))
      (enqueue_all-Does w rs (merge p r) (enqueue r q) e pending)

-- However many requests are pushed before one is taken, the one request taken re-reads the library
-- exactly if one of them asked for it, names a reason that is not empty exactly if one of them
-- does, and leaves nothing pending.
pub take_request-merges :
    (w : Str) (r : Request) (rs : List Request)
    → is_empty w ≡ false
    → (t : Request) × ((take_request (enqueue_all (r ∷ rs) new_queue)).1 ≡ some t)
      × (t.refresh_local ≡ any_refresh (r ∷ rs))
      × (names w t ≡ any_names w (r ∷ rs))
      × ((take_request (enqueue_all (r ∷ rs) new_queue)).0.pending ≡ none)
unfolding take_request enqueue_all enqueue any_refresh any_names Does
take_request-merges w r rs e =
    let (t, is_t, refreshes, named) =
      taken (enqueue_all rs (enqueue r new_queue)).pending
        (enqueue_all-Does w rs r (enqueue r new_queue) e refl) in
    (t, is_t, refreshes, named, refl)
  where
    taken :
        (o : Option Request)
        → Does w (r.refresh_local || any_refresh rs) (names w r || any_names w rs) o
        → (t : Request) × (o ≡ some t)
          × (t.refresh_local ≡ (r.refresh_local || any_refresh rs))
          × (names w t ≡ (names w r || any_names w rs))
    taken none h = elim h [ ]
    taken (some t) h = (t, refl, h.0, h.1)
