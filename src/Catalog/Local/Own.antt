-- ===== src/Catalog/Local/Own.antt =====
-- catalog.go LocalEntries and strm.go pathFor together: the files that this program writes.
use jellysync.Common.{
  Str, str_eq, str_eq_iff, is_empty, lit, ◌==◌, ℕ, ltb, Bool, true, false, Option, none, some, List,
  [], ◌∷◌, ◌++◌, ◌≡◌, ◌≢◌, refl, ap, sym, ◌∙◌, arith, length, Bool-cases, inl, inr,
}
use mathlib.Core.Option.{none-ne-some, some-injective}
use mathlib.Core.Path.{subst}
use mathlib.Core.List.{Memᴰ, reverse, reverse-cons}
use mathlib.Core.List.Memᴰ
use jellysync.Common.Bytes.{starts_with, cut_prefix}
use jellysync.Common.Table.{Table}
use jellysync.Catalog.Entry.{Entry}
use jellysync.Jellyfin.Raw.{CatalogItem}
use jellysync.Strm.Bounds.{length-++}
use jellysync.Strm.Paths.{
  up, split_names, push_name, push_names, clean, slashed, path_text, present, join,
}
use jellysync.Strm.Names.{Row, path_elements, path_for, is_episode, episode_file}
use jellysync.Catalog.Local.{
  ext_from, folds_to, is_strm_ext, is_strm, entry_of, is_excluded_item, entries_of, local_entries,
  count_episodes,
}

abbrev ext : Str
ext = lit ".strm"

abbrev EndsStrm : Str → Type 0
EndsStrm s = (p : Str) × (s ≡ p ++ ext)

-- The last of some names ends so.
abbrev LastStrm : List Str → Type 0
LastStrm ns = (front : List Str) × (n : Str) × EndsStrm n × (ns ≡ front ++ n ∷ [])

ends-cons : (c : ℕ) (s : Str) → EndsStrm s → EndsStrm (c ∷ s)
ends-cons c s (p, e) = (c ∷ p, ap (λ t. c ∷ t) e)

last-cons : (n : Str) (ns : List Str) → LastStrm ns → LastStrm (n ∷ ns)
last-cons n ns (front, m, h, e) = (n ∷ front, m, h, ap (λ t. n ∷ t) e)

ends-++ : (s t : Str) → EndsStrm t → EndsStrm (s ++ t)
ends-++ [] t h = h
ends-++ (c ∷ s) t h = ends-cons c (s ++ t) (ends-++ s t h)

-- No short text ends so.
ends-str_eq : (s t : Str) → EndsStrm s → ltb (length t) 5 ≡ true → str_eq s t ≡ false
ends-str_eq s t (p, e) short = elim (Bool-cases (str_eq s t)) [
  | inl h ↦
      let l = ap length (sym e ∙ (str_eq_iff s t).0 h) in let k = length-++ p ext in ground arith
  | inr h ↦ h
]

ends-not_empty : (s : Str) → EndsStrm s → is_empty s ≡ false
ends-not_empty [] (p, e) = let l = ap length e in let k = length-++ p ext in absurd (omega arith)
ends-not_empty (c ∷ s) h = refl

letters : (name : Str) → name ++ lit "." ++ lit "s" ++ lit "t" ++ lit "r" ++ lit "m" ≡ name ++ ext
letters [] = refl
letters (c ∷ name) = ap (λ t. c ∷ t) (letters name)

split_names-Last : (name p : Str) → LastStrm (split_names name (p ++ ext))
unfolding split_names
split_names-Last name [] = ([], name ++ ext, (name, refl), ap (λ n. n ∷ []) (letters name))
split_names-Last name (c ∷ p) = elim (Bool-cases (c == b'/')) [
  | inl h ↦ rw h (last-cons name (split_names [] (p ++ ext)) (split_names-Last [] p))
  | inr h ↦ rw h (split_names-Last (name ++ c ∷ []) p)
]

push_names-Last :
    (rooted : Bool) (front stack : List Str) (n : Str)
    → EndsStrm n
    → (st : List Str) × (push_names rooted (front ++ n ∷ []) stack ≡ n ∷ st)
unfolding push_names push_name
push_names-Last rooted [] stack n h =
    (stack, rw (ends-not_empty n h, ends-str_eq n (lit ".") h refl, ends-str_eq n up h refl) refl)
push_names-Last rooted (m ∷ front) stack n h =
    push_names-Last rooted front (push_name rooted m stack) n h

slashed-Ends : (front : List Str) (n : Str) → EndsStrm n → EndsStrm (slashed (front ++ n ∷ []))
unfolding slashed
slashed-Ends [] n h = h
slashed-Ends (f ∷ []) n h = ends-++ f (b'/' ∷ n) (ends-cons b'/' n h)
slashed-Ends (f ∷ g ∷ fs) n h =
    let rest = slashed (g ∷ (fs ++ n ∷ [])) in
    ends-++ f (b'/' ∷ rest) (ends-cons b'/' rest (slashed-Ends (g ∷ fs) n h))

path_text-Ends :
    (rooted : Bool) (ns : List Str)
    → LastStrm ns
    → EndsStrm (path_text (record { rooted = rooted; names = ns }))
unfolding path_text
path_text-Ends true ns (front, n, h, e) =
    ends-cons b'/' _ (subst (λ t. EndsStrm (slashed t)) (sym e) (slashed-Ends front n h))
path_text-Ends false ns (front, n, h, e) =
    let k = subst (λ t. EndsStrm (slashed t)) (sym e) (slashed-Ends front n h) in
    rw (ends-not_empty (slashed ns) k) k

clean-Last :
    (rooted : Bool) (s : Str)
    → EndsStrm s
    → LastStrm (reverse (push_names rooted (split_names [] s) []))
clean-Last rooted s (p, e) =
    let (front, n, h, split) = split_names-Last [] p in
    let (st, pushed) = push_names-Last rooted front [] n h in
    (reverse st, n, h, rw (e, split, pushed) (reverse-cons n st))

clean-Ends : (s : Str) → EndsStrm s → EndsStrm (path_text (clean s))
unfolding clean
clean-Ends s h =
    let rooted = starts_with (lit "/") s in
    path_text-Ends rooted (reverse (push_names rooted (split_names [] s) []))
      (clean-Last rooted s h)

present-snoc :
    (front : List Str) (n : Str)
    → is_empty n ≡ false
    → present (front ++ n ∷ []) ≡ present front ++ n ∷ []
unfolding present
present-snoc [] n h = rw h refl
present-snoc (m ∷ front) n h = let ih = present-snoc front n h in ground arith

module _ (sha : Str → Str) where
  path_elements-Last : (r : Row) → LastStrm (path_elements sha r)
  unfolding path_elements episode_file
  path_elements-Last r = elim (Bool-cases (is_episode sha r)) [
    | inl h ↦ rw h (_ ∷ _ ∷ _ ∷ _ ∷ [], _, (_, refl), refl)
    | inr h ↦ rw h (_ ∷ _ ∷ _ ∷ [], _, (_, refl), refl)
  ]

  path_for-Ends : (out : Str) (r : Row) → EndsStrm (path_text (path_for sha out r))
  unfolding path_for join
  path_for-Ends out r =
      let (front, n, h, e) = path_elements-Last r in
      clean-Ends (slashed (present (out ∷ path_elements sha r))) (
        subst (λ ns. EndsStrm (slashed (present (out ∷ ns)))) (sym e)
          (subst (λ ns. EndsStrm (slashed ns))
            (sym (present-snoc (out ∷ front) n (ends-not_empty n h)))
            (slashed-Ends (present (out ∷ front)) n h)))

ext_from-Ends : (found p : Str) → ext_from found (p ++ ext) ≡ ext
unfolding ext_from
ext_from-Ends found [] = refl
ext_from-Ends found (c ∷ p) =
    let a = ext_from-Ends [] p in
    let b = ext_from-Ends (c ∷ []) p in let d = ext_from-Ends (found ++ c ∷ []) p in ground arith

is_strm-Ends : (strm_dir s : Str) → EndsStrm s → is_strm strm_dir s ≡ true
unfolding is_strm is_strm_ext folds_to cut_prefix
is_strm-Ends strm_dir s (p, e) = rw (e, ext_from-Ends [] p) (ground arith)

entries_of-Mem :
    (strm_dir : Str) (t : Table ℕ × Table ℕ) (items : List CatalogItem) (e : Entry)
    → Memᴰ e (entries_of strm_dir t items)
    → is_strm strm_dir e.path ≡ false
unfolding entries_of is_excluded_item entry_of
entries_of-Mem strm_dir t [] e m = absurd (Memᴰ.not-nil m)
entries_of-Mem strm_dir t (it ∷ items) e m = elim (Bool-cases (is_excluded_item strm_dir t it)) [
  | inl h ↦
      let skipped : entries_of strm_dir t (it ∷ items) ≡ entries_of strm_dir t items =
        ground arith in
      entries_of-Mem strm_dir t items e (subst (λ es. Memᴰ e es) skipped m)
  | inr h ↦
      let kept : entries_of strm_dir t (it ∷ items) ≡ entry_of it ∷ entries_of strm_dir t items =
        ground arith in
      elim (Memᴰ.cases_cons (subst (λ es. Memᴰ e es) kept m)) [
        | inl own ↦ subst (λ x. is_strm strm_dir x.path ≡ false) (sym own) (ground arith)
        | inr n ↦ entries_of-Mem strm_dir t items e n
      ]
]

-- Wherever this program's own folder is, no entry of the local library is a file at a path that
-- pathFor gives to some row.
pub local_entries-own :
    (sha : Str → Str) (strm_dir out : Str) (r : Row) (listed : Option (List CatalogItem))
    (es : List Entry) (e : Entry)
    → local_entries strm_dir listed ≡ some es
    → Memᴰ e es
    → e.path ≢ path_text (path_for sha out r)
unfolding local_entries
local_entries-own sha strm_dir out r none es e h m = absurd (none-ne-some es h)
local_entries-own sha strm_dir out r (some items) es e h m = λ same.
    let t = count_episodes strm_dir items ([], []) in
    let listed_e = subst (λ l. Memᴰ e l) (sym (some-injective _ _ h)) m in
    let a = entries_of-Mem strm_dir t items e listed_e in
    let own = path_for-Ends sha out r in
    let b = is_strm-Ends strm_dir (path_text (path_for sha out r)) own in
    let c = ap (is_strm strm_dir) same in ground arith
