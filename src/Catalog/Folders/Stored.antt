-- ===== src/Catalog/Folders/Stored.antt =====
-- What SetExcludedFolders stores.
use jellysync.Common.{
  Str, str_eq, str_eq_iff, ◌≡◌, ◌∙◌, refl, Bool, true, false, ◌&&◌, ◌||◌, some, List, [], ◌∷◌, ◌++◌,
  arith, if◌then◌else◌, Option-cases, inl, inr, is_some,
}
use jellysync.Common.Table.{lookup-insert}
use jellysync.Catalog.Folders.{
  normalize_folder, is_abs_folder, contains, clean_folders, place_folder, sort_folders, Exclusions,
  folders_of, under_folder, under_any_folder, set_excluded_folders,
}

-- Whether some folder of the request, once normalized, holds the path, and whether all are
-- absolute then.
unfoldable pub asked_for : Str → List Str → Bool
asked_for path [] = false
asked_for path (f ∷ fs) = under_folder path (normalize_folder f) || asked_for path fs

unfoldable pub all_absolute : List Str → Bool
all_absolute [] = true
all_absolute (f ∷ fs) = is_abs_folder (normalize_folder f) && all_absolute fs

under_any_folder-append :
    (path n : Str) (a : List Str)
    → under_any_folder path (a ++ n ∷ []) ≡ (under_any_folder path a || under_folder path n)
unfolding under_any_folder
under_any_folder-append path n [] = ground arith
under_any_folder-append path n (y ∷ a) = ground (arith, under_any_folder-append path n a)

contains-under_any_folder :
    (path n : Str) (a : List Str)
    → contains n a ≡ true
    → under_folder path n ≡ true
    → under_any_folder path a ≡ true
unfolding contains under_any_folder
contains-under_any_folder path n [] c u = cc
contains-under_any_folder path n (y ∷ a) c u =
    ground (arith, str_eq_iff y n, contains-under_any_folder path n a)

under_any_folder-clean_folders :
    (path : Str) (fs a clean : List Str)
    → clean_folders fs a ≡ some clean
    → under_any_folder path clean ≡ (under_any_folder path a || asked_for path fs)
unfolding clean_folders asked_for
under_any_folder-clean_folders path [] a clean e = ground (arith, e)
under_any_folder-clean_folders path (f ∷ fs) a clean e = ground (
  arith,
  e,
  under_any_folder-append path (normalize_folder f) a,
  contains-under_any_folder path (normalize_folder f) a,
  under_any_folder-clean_folders path fs a clean,
  under_any_folder-clean_folders path fs (a ++ normalize_folder f ∷ []) clean,
)

is_some-clean_folders : (fs a : List Str) → is_some (clean_folders fs a) ≡ all_absolute fs
unfolding clean_folders all_absolute
is_some-clean_folders [] a = refl
is_some-clean_folders (f ∷ fs) a =
    ground
      (arith, is_some-clean_folders fs a, is_some-clean_folders fs (a ++ normalize_folder f ∷ []))

under_any_folder-place_folder :
    (path y : Str) (ys : List Str)
    → under_any_folder path (place_folder y ys) ≡ (under_folder path y || under_any_folder path ys)
unfolding under_any_folder place_folder
under_any_folder-place_folder path y [] = refl
under_any_folder-place_folder path y (z ∷ ys) =
    ground (arith, under_any_folder-place_folder path y ys)

under_any_folder-sort_folders :
    (path : Str) (ys : List Str)
    → under_any_folder path (sort_folders ys) ≡ under_any_folder path ys
unfolding under_any_folder sort_folders
under_any_folder-sort_folders path [] = refl
under_any_folder-sort_folders path (y ∷ ys) =
    under_any_folder-place_folder path y (sort_folders ys)
    ∙ ground (arith, under_any_folder-sort_folders path ys)

-- The list is refused exactly if some folder of it is not absolute once normalized.
pub is_some-set_excluded_folders :
    (peer : Str) (fs : List Str) (t : Exclusions)
    → is_some (set_excluded_folders peer fs t) ≡ all_absolute fs
unfolding set_excluded_folders
is_some-set_excluded_folders peer fs t = ground (arith, is_some-clean_folders fs [])

-- After a peer's folders were set, an item is excluded for that peer exactly if its path is under
-- a folder that was asked for, once normalized, and for every other peer exactly as before.
pub under_any_folder-set_excluded_folders :
    (peer : Str) (fs : List Str) (t : Exclusions) (stored : List Str) (u : Exclusions)
    (path other : Str)
    → set_excluded_folders peer fs t ≡ some (stored, u)
    → under_any_folder path (folders_of u other) ≡ (
        if str_eq peer other then asked_for path fs else under_any_folder path (folders_of t other))
unfolding set_excluded_folders under_any_folder
under_any_folder-set_excluded_folders peer fs t stored u path other e =
    elim (Option-cases (clean_folders fs [])) [
      | inl n ↦ absurd (ground (arith, e, n))
      | inr (clean, c) ↦ ground (
        arith,
        e,
        c,
        lookup-insert peer other (sort_folders clean) t,
        under_any_folder-sort_folders path clean,
        under_any_folder-clean_folders path fs [] clean c,
      )
    ]
