-- ===== src/Jellyfin/Roots.antt =====
-- client.go: the items that lie in a library (dropOrphans).
use jellysync.Common.{
  Str, is_empty, true, false, ◌||◌, some, List, [], ◌∷◌, ◌≡◌, refl, ap, sym, ◌∙◌, ◌⊎◌, inl, inr,
  arith, Bool-cases, Option-cases, ◌++◌, ℕ, suc, ◌==◌, length, ◌≤◌, ◌-◌,
}
use mathlib.Core.Path.{subst}
use mathlib.Core.List.{append-nil}
use jellysync.Common.Bytes.{cut_prefix}
use jellysync.Common.Sifted.{IsSifted, all_done, kept, dropped}
use jellysync.Jellyfin.Raw.{
  RawItem, under_root, under_any, goes_on, trim_root, keep_placed, drop_orphans,
}

-- A path that is the root or goes on with a separator after it.
abbrev pub IsBelow : Str → Str → Type 0
IsBelow path root =
    (path ≡ root)
    ⊎ ((c : ℕ) × (s : Str) × (path ≡ root ++ c ∷ s) × ((c == b'/' || c == 0x5c) ≡ true))

cut_prefix-++ : (p s r : Str) → cut_prefix p s ≡ some r → s ≡ p ++ r
unfolding cut_prefix
cut_prefix-++ [] s r h = ground arith
cut_prefix-++ (a ∷ p) [] r h = cc
cut_prefix-++ (a ∷ p) (c ∷ s) r h = ground (arith, cut_prefix-++ p s r)

goes_on-IsBelow :
    (path root rest : Str) → path ≡ root ++ rest → goes_on rest ≡ true → IsBelow path root
unfolding goes_on
goes_on-IsBelow path root [] e h = inl (e ∙ append-nil root)
goes_on-IsBelow path root (c ∷ s) e h = inr (c, s, e, h)

under_root-IsBelow : (path root : Str) → under_root path root ≡ true → IsBelow path root
unfolding under_root
under_root-IsBelow path root h = elim (Option-cases (cut_prefix root path)) [
  | inl e ↦ ground arith
  | inr (rest, e) ↦ goes_on-IsBelow path root rest (cut_prefix-++ root path rest e) (ground arith)
]

cut_prefix-++_self : (p r : Str) → cut_prefix p (p ++ r) ≡ some r
unfolding cut_prefix
cut_prefix-++_self [] r = refl
cut_prefix-++_self (a ∷ p) r = ground (arith, cut_prefix-++_self p r)

IsBelow-under_root : (path root : Str) → IsBelow path root → under_root path root ≡ true
unfolding under_root goes_on
IsBelow-under_root path root (inl e) =
    let whole : cut_prefix root path ≡ some [] =
      ap (cut_prefix root) (e ∙ sym (append-nil root)) ∙ cut_prefix-++_self root [] in
    rw (whole, under_root) refl
IsBelow-under_root path root (inr (c, s, e, h)) =
    let rest : cut_prefix root path ≡ some (c ∷ s) =
      ap (cut_prefix root) e ∙ cut_prefix-++_self root (c ∷ s) in
    rw (rest, under_root) h

-- A root holds a path below it by whole names; one of separators alone holds every path.
abbrev pub Holds : Str → Str → Type 0
Holds path root = (trim_root root ≡ []) ⊎ IsBelow path (trim_root root)

-- Some root of the list holds the path.
abbrev pub IsPlaced : Str → List Str → Type 0
IsPlaced path [] = ⊥
IsPlaced path (root ∷ roots) = Holds path root ⊎ IsPlaced path roots

empty_is_nil : (s : Str) → is_empty s ≡ true → s ≡ []
empty_is_nil [] h = refl
empty_is_nil (c ∷ s) h = cc

under_any-IsPlaced :
    (path : Str) (roots : List Str) → under_any path roots ≡ true → IsPlaced path roots
unfolding under_any
under_any-IsPlaced path [] h = cc
under_any-IsPlaced path (root ∷ roots) h = elim (Bool-cases (is_empty (trim_root root))) [
  | inl e ↦ inl (inl (empty_is_nil (trim_root root) e))
  | inr f ↦ elim (Bool-cases (under_root path (trim_root root))) [
    | inl u ↦ inl (inr (under_root-IsBelow path (trim_root root) u))
    | inr n ↦ inr (under_any-IsPlaced path roots (ground arith))
  ]
]

IsPlaced-under_any :
    (path : Str) (roots : List Str) → IsPlaced path roots → under_any path roots ≡ true
unfolding under_any
IsPlaced-under_any path [] h = absurd h
IsPlaced-under_any path (root ∷ roots) (inl (inl e)) = ground (arith, ap is_empty e)
IsPlaced-under_any path (root ∷ roots) (inl (inr b)) =
    ground (arith, IsBelow-under_root path (trim_root root) b)
IsPlaced-under_any path (root ∷ roots) (inr p) = ground (arith, IsPlaced-under_any path roots p)

-- An item of the library: it has no path, or a root holds its path.
abbrev pub Belongs : List Str → RawItem → Type 0
Belongs roots ri = (ri.path ≡ []) ⊎ IsPlaced ri.path roots

length-keep_placed :
    (roots : List Str) (raw : List RawItem) → length (keep_placed roots raw) ≤ length raw
unfolding keep_placed
length-keep_placed roots [] = omega arith
length-keep_placed roots (ri ∷ raw) = let h = length-keep_placed roots raw in ground arith

not_placed :
    (roots : List Str) (ri : RawItem)
    → is_empty ri.path ≡ false
    → under_any ri.path roots ≡ false
    → ¬ Belongs roots ri
not_placed roots ri f n (inl e) = ground (arith, f, ap is_empty e)
not_placed roots ri f n (inr p) = ground (arith, n, IsPlaced-under_any ri.path roots p)

keep_placed-IsSifted :
    (roots : List Str) (raw : List RawItem)
    → IsSifted
        (Belongs roots)
        raw
        (keep_placed roots raw)
        (length raw - length (keep_placed roots raw))
unfolding keep_placed
keep_placed-IsSifted roots [] = all_done
keep_placed-IsSifted roots (ri ∷ raw) =
    let rest = keep_placed-IsSifted roots raw in
    let out = keep_placed roots raw in
    let fewer = length-keep_placed roots raw in
    let as_many : length raw - length out ≡ suc (length raw) - suc (length out) = omega arith in
    let one_more : suc (length raw - length out) ≡ suc (length raw) - length out = omega arith in
    let stays = λ (m : Belongs roots ri).
      subst (λ k. IsSifted (Belongs roots) (ri ∷ raw) (ri ∷ out) k) as_many (kept ri m rest) in
    elim (Bool-cases (is_empty ri.path)) [
      | inl e ↦ rw (e, keep_placed) (stays (inl (empty_is_nil ri.path e)))
      | inr f ↦ elim (Bool-cases (under_any ri.path roots)) [
        | inl u ↦ rw (f, u, keep_placed) (stays (inr (under_any-IsPlaced ri.path roots u)))
        | inr n ↦
            rw (f, n, keep_placed)
              (subst (λ k. IsSifted (Belongs roots) (ri ∷ raw) out k) one_more
                (dropped ri (not_placed roots ri f n) rest))
      ]
    ]

-- What is kept are exactly the items, in their order, that have no path, or one that is a library
-- root or goes on after it with a separator, or any path if some root consists of separators alone;
-- and the count is the number of the other items. Separators at the end of a root are left aside.
pub drop_orphans-IsSifted :
    (raw : List RawItem) (roots : List Str)
    → IsSifted (Belongs roots) raw (drop_orphans raw roots).0 (drop_orphans raw roots).1
unfolding drop_orphans
drop_orphans-IsSifted raw roots = keep_placed-IsSifted roots raw
