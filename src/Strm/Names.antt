-- ===== src/Strm/Names.antt =====
-- internal/strm/strm.go: the name of a file, from its row.
use jellysync.Common.{
  Str, str_eq, is_empty, lit, ltb, leb, ◌==◌, ℕ, zero, suc, ◌+◌, ◌-◌, ◌/◌, Bool, true, not, ◌&&◌,
  Option, List, [], ◌∷◌, ◌++◌, take, length, if◌then◌else◌,
}
use jellysync.Common.Bytes.{
  digits, int_places, two_places, hex, trim_space, trim_right, replace_byte,
}
use jellysync.Catalog.Entry.{ℤ, pos, negsuc}
use jellysync.Strm.Paths.{FilePath, join}

unfoldable pub sanitize : Str → Str
sanitize name =
    let s = trim_space (replace_byte 0 b'-' (replace_byte b'/' b'-' name)) in
    if is_empty s then lit "untitled" else s

unfoldable pub media_root : Str → Str
media_root media_type = if str_eq media_type (lit "movie") then lit "movies" else lit "series"

abbrev pub max_name_bytes : ℕ
max_name_bytes = 255

-- utf8.RuneStart of the byte at an offset.
unfoldable pub starts_rune : Str → ℕ → Bool
starts_rune [] n = true
starts_rune (c ∷ s) zero = not (c / 64 == 2)
starts_rune (c ∷ s) (suc n) = starts_rune s n

-- The loop of truncateUTF8.
unfoldable pub back_off : Str → ℕ → ℕ
back_off s zero = zero
back_off s (suc n) = let rest = back_off s n in if starts_rune s (suc n) then suc n else rest

unfoldable pub truncate_utf8 : Str → ℕ → Str
truncate_utf8 s n = if n == 0 then [] else if leb (length s) n then s else take (back_off s n) s

-- %02d of an int
unfoldable pub two_digits : ℤ → Str
two_digits (pos n) = two_places n
two_digits (negsuc n) = b'-' ∷ digits int_places (suc n)

unfoldable pub season_dir_name : ℤ → Str
season_dir_name (pos zero) = lit "Specials"
season_dir_name n = lit "Season " ++ two_digits n

-- strings.Cut at a colon.
unfoldable pub before_colon : Str → Str
before_colon [] = []
before_colon (c ∷ s) = let rest = before_colon s in if c == b':' then [] else c ∷ rest

unfoldable pub after_colon : Str → Str
after_colon [] = []
after_colon (c ∷ s) = let rest = after_colon s in if c == b':' then s else rest

unfoldable pub provider_disambiguator : Str → Str
provider_disambiguator global_id =
    let kind = before_colon global_id in
    let id = after_colon global_id in
    if str_eq kind (lit "tmdb")
    then lit "tmdbid-" ++ id
    else if str_eq kind (lit "tvdb")
    then lit "tvdbid-" ++ id
    else if str_eq kind (lit "imdb")
    then lit "imdbid-" ++ id
    else lit "id-" ++ (if ltb 8 (length id) then take 8 id else id)

abbrev pub max_disambiguator_bytes : ℕ
max_disambiguator_bytes = 64

-- What the file of a row depends on.
pub record Row : Type 0 where
  pub global_id : Str
  pub name : Str
  pub media_type : Str
  pub peer_id : Str
  pub item_id : Str
  pub local : Bool
  pub hidden : Bool
  pub hidden_folder : Bool
  pub old_path : Option Str
  pub series_global_id : Str
  pub series_name : Str
  pub season_number : ℤ
  pub episode_number : ℤ

-- `sha` is SHA-256.
module _ (sha : Str → Str) where
  unfoldable pub disambiguator : Str → Str
  disambiguator global_id =
      let d = provider_disambiguator global_id in
      if ltb max_disambiguator_bytes (length d)
      then lit "id-" ++ hex (take 4 (sha global_id))
      else d

  abbrev pub suffix : Str → Str
  suffix global_id = lit " [" ++ disambiguator global_id ++ lit "]"

  abbrev pub numbers : Row → Str
  numbers r =
      lit " - S"
      ++ two_digits r.season_number
      ++ lit "E"
      ++ two_digits r.episode_number
      ++ lit " - "

  unfoldable pub series_dir : Row → Str
  series_dir r =
      let s = suffix r.series_global_id in
      truncate_utf8 (sanitize r.series_name) (max_name_bytes - length s) ++ s

  -- The bytes of an episode's file name that are never shortened.
  abbrev pub fixed : Row → Str
  fixed r = numbers r ++ suffix r.global_id ++ lit ".strm"

  -- The share of the series' name, in what the rest leaves.
  abbrev pub max_of : ℕ → ℕ → ℕ
  max_of a b = if leb a b then b else a

  unfoldable pub shortened : ℕ → Str → Str → Str × Str
  shortened avail series name =
      let s = truncate_utf8 series (max_of (avail / 2) (avail - length name)) in
      if ltb avail (length series + length name)
      then (s, truncate_utf8 name (avail - length s))
      else (series, name)

  unfoldable pub episode_file : Row → Str
  unfolding shortened
  episode_file r =
      let avail = max_name_bytes - length (fixed r) in
      let parts = shortened avail (sanitize r.series_name) (sanitize r.name) in
      parts.0 ++ numbers r ++ parts.1 ++ suffix r.global_id ++ lit ".strm"

  unfoldable pub movie_dir : Row → Str
  movie_dir r =
      let s = suffix r.global_id in
      truncate_utf8 (sanitize r.name) (max_name_bytes - length s - length (lit ".strm")) ++ s

  abbrev pub is_episode : Row → Bool
  is_episode r = str_eq r.media_type (lit "episode") && not (is_empty r.series_global_id)

  -- The elements that pathFor joins to the output folder.
  unfoldable pub path_elements : Row → List Str
  path_elements r =
      let own =
        if is_episode r
        then series_dir r ∷ season_dir_name r.season_number ∷ episode_file r ∷ []
        else movie_dir r ∷ (movie_dir r ++ lit ".strm") ∷ [] in
      media_root r.media_type ∷ sanitize r.peer_id ∷ own

  unfoldable pub path_for : Str → Row → FilePath
  path_for output_dir r = join (output_dir ∷ path_elements r)

unfoldable pub url_for : Str → Str → Str → Str
url_for base_url peer_id item_id =
    trim_right (λ c. c == b'/') base_url
    ++ lit "/api/v1/proxy/stream/"
    ++ peer_id
    ++ lit "/"
    ++ item_id
