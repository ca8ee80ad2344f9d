-- ===== src/Strm/Paths.antt =====
-- What internal/strm uses of Go's path/filepath on Unix, and strm.go `within` and the removal of
-- empty folders in removeStrm. A clean path is a flag, whether it is absolute, and its names.
use jellysync.Common.{
  ℕ, zero, suc, length, Str, str_eq, is_empty, lit, ◌==◌, ◌||◌, Bool, true, false, not, ◌&&◌, List,
  [], ◌∷◌, ◌++◌, if◌then◌else◌,
}
use mathlib.Core.List.{reverse}
use jellysync.Common.Bytes.{starts_with}
use jellysync.Catalog.Items.{bool_eq}

pub record FilePath : Type 0 where
  pub rooted : Bool
  pub names : List Str

abbrev pub up : Str
up = lit ".."

-- The bytes before the first slash, and the names after it.
unfoldable pub split_names : Str → Str → List Str
split_names name [] = name ∷ []
split_names name (c ∷ s) =
    if c == b'/' then name ∷ split_names [] s else split_names (name ++ c ∷ []) s

-- An inner ".." takes the last name away, or stays in front of a relative path.
unfoldable pub pop_name : Bool → List Str → List Str
pop_name rooted [] = if rooted then [] else up ∷ []
pop_name rooted (t ∷ rest) = if str_eq t up then up ∷ t ∷ rest else rest

-- One name on the names so far, the last one first.
unfoldable pub push_name : Bool → Str → List Str → List Str
push_name rooted n stack =
    if is_empty n || str_eq n (lit ".")
    then stack
    else if str_eq n up
    then pop_name rooted stack
    else n ∷ stack

unfoldable pub push_names : Bool → List Str → List Str → List Str
push_names rooted [] stack = stack
push_names rooted (n ∷ ns) stack = push_names rooted ns (push_name rooted n stack)

-- filepath.Clean
unfoldable pub clean : Str → FilePath
clean s =
    let rooted = starts_with (lit "/") s in
    record { rooted = rooted; names = reverse (push_names rooted (split_names [] s) []) }

unfoldable pub slashed : List Str → Str
slashed [] = []
slashed (n ∷ []) = n
slashed (n ∷ m ∷ ns) = n ++ b'/' ∷ slashed (m ∷ ns)

-- The text of a clean path.
unfoldable pub path_text : FilePath → Str
unfolding slashed
path_text p =
    if p.rooted
    then b'/' ∷ slashed p.names
    else if is_empty (slashed p.names)
    then lit "."
    else slashed p.names

-- The elements of filepath.Join that are not empty.
unfoldable pub present : List Str → List Str
present [] = []
present (n ∷ ns) = let rest = present ns in if is_empty n then rest else n ∷ rest

-- filepath.Join, of which one element at least is not empty.
unfoldable pub join : List Str → FilePath
join ns = clean (slashed (present ns))

unfoldable pub all_but_last : List Str → List Str
all_but_last (n ∷ m ∷ ns) = n ∷ all_but_last (m ∷ ns)
all_but_last _ = []

-- filepath.Dir of a clean path.
unfoldable pub parent : FilePath → FilePath
parent p = record p { names = all_but_last p.names }

unfoldable pub names_eq : List Str → List Str → Bool
names_eq [] [] = true
names_eq (a ∷ s) (b ∷ t) = str_eq a b && names_eq s t
names_eq _ _ = false

unfoldable pub path_eq : FilePath → FilePath → Bool
path_eq p q = bool_eq p.rooted q.rooted && names_eq p.names q.names

-- Whether the names of a path continue those of a folder, and not upwards.
unfoldable pub continues : List Str → List Str → Bool
continues (n ∷ ns) [] = not (str_eq n up)
continues (n ∷ ns) (d ∷ ds) = str_eq n d && continues ns ds
continues [] ds = false

-- within
unfoldable pub within : FilePath → FilePath → Bool
within path dir = bool_eq path.rooted dir.rooted && continues path.names dir.names

abbrev pub strm_roots : List Str
strm_roots = lit "movies" ∷ lit "series" ∷ []

unfoldable pub is_protected : List Str → FilePath → FilePath → Bool
is_protected [] boundary dir = false
is_protected (r ∷ rs) boundary dir =
    path_eq dir (record boundary { names = boundary.names ++ r ∷ [] })
    || is_protected rs boundary dir

-- The folders that removeStrm tries to remove above a file, the lowest first: the loop, on fuel,
-- with what os.Remove answers to each attempt.
unfoldable pub cleanup : (FilePath → Bool) → ℕ → FilePath → FilePath → List FilePath
cleanup removes zero dir boundary = []
cleanup removes (suc n) dir boundary =
    let rest = cleanup removes n (parent dir) boundary in
    if within dir boundary && not (is_protected strm_roots boundary dir)
    then if removes dir then dir ∷ rest else dir ∷ []
    else []

-- A step goes up by one name, so the names of the path are fuel enough.
unfoldable pub cleaned_folders : (FilePath → Bool) → FilePath → FilePath → List FilePath
cleaned_folders removes path boundary =
    if within path boundary then cleanup removes (length path.names) (parent path) boundary else []
