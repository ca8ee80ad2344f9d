-- ===== src/Catalog/Folders.antt =====
-- internal/catalog/folders.go: per peer, the folders on its file system whose items are not taken.
pub mod Stored
use jellysync.Common.{
  Str, str_eq, str_lt, is_empty, ℕ, Bool, false, ◌&&◌, ◌||◌, Option, none, some, List, [], ◌∷◌,
  ◌++◌, leb, ◌==◌, if◌then◌else◌,
}
use mathlib.Core.List.{reverse}
use jellysync.Common.Bytes.{starts_with, replace_byte, trim_space}
use jellysync.Common.Table.{Table, lookup, insert}

abbrev slash : ℕ
slash = b'/'

abbrev backslash : ℕ
backslash = 0x5c

abbrev pub to_slashes : Str → Str
to_slashes s = replace_byte backslash slash s

-- The loop on the reversed bytes: trailing slashes go, but not the last byte left.
unfoldable pub trim_last : Str → Str
trim_last (c ∷ d ∷ s) = let rest = trim_last (d ∷ s) in if c == slash then rest else c ∷ d ∷ s
trim_last s = s

unfoldable pub without_slashes : Str → Str
unfolding trim_last
without_slashes s = reverse (trim_last (reverse s))

unfoldable pub normalize_folder : Str → Str
unfolding without_slashes
normalize_folder f = without_slashes (to_slashes (trim_space f))

-- Whether `path` is `folder` or lies in it, by whole components.
unfoldable pub under_folder : Str → Str → Bool
under_folder path folder =
    if is_empty path || is_empty folder
    then false
    else let p = to_slashes path in
      if str_eq folder (slash ∷ [])
      then starts_with (slash ∷ []) p
      else str_eq p folder || starts_with (folder ++ slash ∷ []) p

unfoldable pub under_any_folder : Str → List Str → Bool
under_any_folder path [] = false
under_any_folder path (f ∷ fs) = under_folder path f || under_any_folder path fs

is_letter : ℕ → Bool
is_letter c = (leb b'a' c && leb c b'z') || (leb b'A' c && leb c b'Z')

is_drive : Str → Bool
is_drive (a ∷ b ∷ c ∷ s) = b == b':' && c == slash && is_letter a
is_drive _ = false

unfoldable pub is_abs_folder : Str → Bool
unfolding is_drive is_letter
is_abs_folder f = starts_with (slash ∷ []) f || is_drive f

-- slices.Contains
unfoldable pub contains : Str → List Str → Bool
contains x [] = false
contains x (y ∷ ys) = str_eq y x || contains x ys

-- The first loop of SetExcludedFolders; `none` is its bad request.
unfoldable pub clean_folders : List Str → List Str → Option (List Str)
clean_folders [] clean = some clean
clean_folders (f ∷ fs) clean =
    let n = normalize_folder f in
    let rest = clean_folders fs (if contains n clean then clean else clean ++ n ∷ []) in
    if is_abs_folder n then rest else none

-- slices.Sort
unfoldable pub place_folder : Str → List Str → List Str
place_folder x [] = x ∷ []
place_folder x (y ∷ ys) = if str_lt y x then y ∷ place_folder x ys else x ∷ y ∷ ys

unfoldable pub sort_folders : List Str → List Str
unfolding place_folder
sort_folders [] = []
sort_folders (x ∷ xs) = place_folder x (sort_folders xs)

-- The table peer_excluded_folders, by peer; a peer with no folder has no row.
abbrev pub Exclusions : Type 0
Exclusions = Table (List Str)

abbrev pub folders_of : Exclusions → Str → List Str
folders_of t peer = elim (lookup peer t) [ none ↦ [] | some fs ↦ fs ]

-- SetExcludedFolders: the stored list and the new table, or nothing on a folder that is not absolute.
unfoldable pub set_excluded_folders : Str → List Str → Exclusions → Option (List Str × Exclusions)
unfolding clean_folders contains sort_folders
set_excluded_folders peer folders t = elim (clean_folders folders []) [
  | none ↦ none
  | some clean ↦ some (sort_folders clean, insert peer (sort_folders clean) t)
]
