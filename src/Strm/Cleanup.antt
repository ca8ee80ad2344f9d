-- ===== src/Strm/Cleanup.antt =====
-- strm.go `removeStrm`: which folders go with a file.
use jellysync.Common.{
  Str, ℕ, zero, suc, ◌≤◌, ◌≡◌, refl, ap, ◌∙◌, Bool, true, false, not, ◌&&◌, List, [], ◌∷◌, take,
  length, arith, Bool-cases, inl, inr,
}
use jellysync.Strm.Paths.{
  FilePath, all_but_last, parent, continues, within, strm_roots, is_protected, cleanup,
  cleaned_folders,
}

-- Every folder satisfies `P`.
abbrev pub AllFolders : (FilePath → Type 0) → List FilePath → Type 0
AllFolders P [] = Unit {0}
AllFolders P (d ∷ ds) = P d × AllFolders P ds

-- A folder above a path, or the path.
abbrev pub IsAbove : FilePath → FilePath → Type 0
IsAbove path d =
    (d.rooted ≡ path.rooted)
    × (length d.names ≤ length path.names)
    × (take (length d.names) path.names ≡ d.names)

absurd_bound : (n : ℕ) → ¬ (suc n ≤ 0)
absurd_bound n = omega arith

take-all_but_last :
    (n : ℕ) (ns : List Str) → n ≤ length (all_but_last ns) → take n ns ≡ take n (all_but_last ns)
unfolding take all_but_last
take-all_but_last zero ns h = refl
take-all_but_last (suc n) [] h = absurd (absurd_bound n h)
take-all_but_last (suc n) (a ∷ []) h = absurd (absurd_bound n h)
take-all_but_last (suc n) (a ∷ b ∷ ns) h =
    ap (λ t. a ∷ t) (take-all_but_last n (b ∷ ns) (omega arith))

length-all_but_last : (n : Str) (ns : List Str) → length (all_but_last (n ∷ ns)) ≡ length ns
unfolding all_but_last
length-all_but_last n [] = refl
length-all_but_last n (m ∷ ns) = ap suc (length-all_but_last m ns)

length-parent_le : (p : FilePath) → length (parent p).names ≤ length p.names
unfolding parent all_but_last
length-parent_le p = le p.names
  where
    le : (ns : List Str) → length (all_but_last ns) ≤ length ns
    le [] = omega arith
    le (n ∷ ns) = let h = length-all_but_last n ns in omega arith

take_own_length : (ns : List Str) → take (length ns) ns ≡ ns
unfolding take
take_own_length [] = refl
take_own_length (n ∷ ns) = ap (λ t. n ∷ t) (take_own_length ns)

IsAbove-parent : (p d : FilePath) → IsAbove (parent p) d → IsAbove p d
unfolding parent
IsAbove-parent p d h =
    let e = take-all_but_last (length d.names) p.names h.1 in
    let l = length-parent_le p in (h.0, omega arith, e ∙ h.2)

-- What the loop promises of each folder.
abbrev pub IsCleanable : FilePath → FilePath → FilePath → Type 0
IsCleanable path boundary d =
    (within d boundary ≡ true) × (is_protected strm_roots boundary d ≡ false) × IsAbove path d

AllFolders-map :
    (P Q : FilePath → Type 0) (ds : List FilePath)
    → ((d : FilePath) → P d → Q d)
    → AllFolders P ds
    → AllFolders Q ds
AllFolders-map P Q [] f h = tt
AllFolders-map P Q (d ∷ ds) f h = (f d h.0, AllFolders-map P Q ds f h.1)

cleanup-IsCleanable :
    (removes : FilePath → Bool) (n : ℕ) (dir boundary : FilePath)
    → AllFolders (IsCleanable dir boundary) (cleanup removes n dir boundary)
unfolding cleanup
cleanup-IsCleanable removes zero dir boundary = tt
cleanup-IsCleanable removes (suc n) dir boundary =
    let rest =
      AllFolders-map (IsCleanable (parent dir) boundary) (IsCleanable dir boundary)
        (cleanup removes n (parent dir) boundary) (λ d h. (h.0, h.1, IsAbove-parent dir d h.2))
        (cleanup-IsCleanable removes n (parent dir) boundary) in
    let own = take_own_length dir.names in
    elim (Bool-cases (within dir boundary && not (is_protected strm_roots boundary dir))) [
      | inl t ↦
          let inside : within dir boundary ≡ true = ground arith in
          let free : is_protected strm_roots boundary dir ≡ false = ground arith in
          elim (Bool-cases (removes dir)) [
            | inl r ↦ rw (t, r, cleanup) ((inside, free, (refl, ground arith, own)), rest)
            | inr r ↦ rw (t, r, cleanup) ((inside, free, (refl, ground arith, own)), tt)
          ]
      | inr f ↦ rw (f, cleanup) tt
    ]

-- Each folder that goes with a file lies above the file and strictly inside the output folder, and
-- is none of the fixed folders in it.
pub cleaned_folders-IsCleanable :
    (removes : FilePath → Bool) (path boundary : FilePath)
    → AllFolders (IsCleanable path boundary) (cleaned_folders removes path boundary)
unfolding cleaned_folders
cleaned_folders-IsCleanable removes path boundary =
    let n = length path.names in
    let all =
      AllFolders-map (IsCleanable (parent path) boundary) (IsCleanable path boundary)
        (cleanup removes n (parent path) boundary) (λ d h. (h.0, h.1, IsAbove-parent path d h.2))
        (cleanup-IsCleanable removes n (parent path) boundary) in
    elim (Bool-cases (within path boundary)) [
      | inl t ↦ rw (t, cleaned_folders) all
      | inr f ↦ rw (f, cleaned_folders) tt
    ]

within-names : (dir boundary : FilePath) → dir.names ≡ [] → within dir boundary ≡ false
unfolding within continues
within-names dir boundary e = rw e (ground arith)

no_names : (ns : List Str) → length ns ≤ 0 → ns ≡ []
no_names [] h = refl
no_names (n ∷ ns) h = absurd (absurd_bound (length ns) h)

length-parent : (dir : FilePath) (n : ℕ) → length dir.names ≤ suc n → length (parent dir).names ≤ n
unfolding parent all_but_last
length-parent dir n h = go dir.names h
  where
    go : (ns : List Str) → length ns ≤ suc n → length (all_but_last ns) ≤ n
    go [] l = omega arith
    go (m ∷ ns) l = let e = length-all_but_last m ns in omega arith

-- The loop ends: with at least as many rounds as the path has names, more rounds change nothing.
pub cleanup_ends :
    (removes : FilePath → Bool) (n m : ℕ) (dir boundary : FilePath)
    → length dir.names ≤ n
    → n ≤ m
    → cleanup removes m dir boundary ≡ cleanup removes n dir boundary
unfolding cleanup
cleanup_ends removes zero zero dir boundary h l = refl
cleanup_ends removes zero (suc m) dir boundary h l =
    let out = within-names dir boundary (no_names dir.names h) in ground arith
cleanup_ends removes (suc n) zero dir boundary h l = absurd (absurd_bound n l)
cleanup_ends removes (suc n) (suc m) dir boundary h l =
    let rest =
      cleanup_ends removes n m (parent dir) boundary (length-parent dir n h) (omega arith) in
    ground arith
