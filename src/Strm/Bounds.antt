-- ===== src/Strm/Bounds.antt =====
-- strm.go: the lengths of the names that internal/strm gives to files and folders.
use jellysync.Common.{
  Str, lit, ℕ, zero, suc, ◌+◌, ◌-◌, ◌/◌, ◌%◌, ◌≤◌, ◌≡◌, List, [], ◌∷◌, ◌++◌, take, length, arith,
}
use jellysync.Catalog.Entry.{ℤ, pos, negsuc}
use jellysync.Common.Bytes.{digits, two_places, hex}
use jellysync.Strm.Names.{
  sanitize, media_root, max_name_bytes, back_off, truncate_utf8, two_digits, season_dir_name, Row,
  disambiguator, suffix, numbers, series_dir, fixed, shortened, episode_file, movie_dir,
  path_elements,
}

-- Every element satisfies `P`.
abbrev pub AllNames : (Str → Type 0) → List Str → Type 0
AllNames P [] = Unit {0}
AllNames P (n ∷ ns) = P n × AllNames P ns

pub length-++ : (s t : Str) → length (s ++ t) ≡ length s + length t
length-++ [] t = omega arith
length-++ (c ∷ s) t = let ih = length-++ s t in omega arith

length-take : (n : ℕ) (s : Str) → length (take n s) ≤ n
unfolding take
length-take zero s = omega arith
length-take (suc n) [] = omega arith
length-take (suc n) (c ∷ s) = let ih = length-take n s in omega arith

pub back_off_le : (s : Str) (n : ℕ) → back_off s n ≤ n
unfolding back_off
back_off_le s zero = omega arith
back_off_le s (suc n) = ground (arith, back_off_le s n)

pub length-truncate_utf8 : (s : Str) (n : ℕ) → length (truncate_utf8 s n) ≤ n
unfolding truncate_utf8
length-truncate_utf8 s n = ground (arith, length-take (back_off s n) s, back_off_le s n)

length-digits : (places n : ℕ) → length (digits places n) ≤ places
unfolding digits
length-digits zero n = omega arith
length-digits (suc p) n =
    let ih = length-digits p (n / 10) in
    let e = length-++ (digits p (n / 10)) ((b'0' + n % 10) ∷ []) in ground arith

length-two_digits : (n : ℤ) → length (two_digits n) ≤ 20
unfolding two_digits two_places
length-two_digits (pos n) = ground (arith, length-digits 19 n)
length-two_digits (negsuc n) = ground (arith, length-digits 19 (suc n))

length-hex : (s : Str) → length (hex s) ≡ length s + length s
unfolding hex
length-hex [] = omega arith
length-hex (c ∷ s) = let ih = length-hex s in omega arith

module _ (sha : Str → Str) where
  length-disambiguator : (id : Str) → length (disambiguator sha id) ≤ 64
  unfolding disambiguator
  length-disambiguator id =
      let h = length-hex (take 4 (sha id)) in ground (arith, length-take 4 (sha id))

  length-suffix : (id : Str) → length (suffix sha id) ≤ 67
  length-suffix id =
      let d = length-disambiguator id in
      let e = length-++ (disambiguator sha id) (lit "]") in omega arith

  length-numbers : (r : Row) → length (numbers sha r) ≤ 48
  length-numbers r =
      let hs = length-two_digits r.season_number in
      let he = length-two_digits r.episode_number in grind (arith, length-++)

  length-fixed : (r : Row) → length (fixed sha r) ≤ 120
  length-fixed r =
      let hn = length-numbers r in let hs = length-suffix r.global_id in grind (arith, length-++)

  shortened_fit :
      (avail : ℕ) (s n : Str)
      → length (shortened sha avail s n).0 + length (shortened sha avail s n).1 ≤ avail
  unfolding shortened
  shortened_fit avail s n =
      let a = length-truncate_utf8 s (avail / 2) in
      let b = length-truncate_utf8 s (avail - length n) in
      let c = length-truncate_utf8 n (avail - length (truncate_utf8 s (avail / 2))) in
      let d = length-truncate_utf8 n (avail - length (truncate_utf8 s (avail - length n))) in
      ground arith

  length-series_dir : (r : Row) → length (series_dir sha r) ≤ max_name_bytes
  unfolding series_dir
  length-series_dir r =
      let s = suffix sha r.series_global_id in
      let t = truncate_utf8 (sanitize r.series_name) (255 - length s) in
      let a = length-++ t s in
      let b = length-truncate_utf8 (sanitize r.series_name) (255 - length s) in
      let c = length-suffix r.series_global_id in omega arith

  length-movie_dir : (r : Row) → length (movie_dir sha r) ≤ 250
  unfolding movie_dir
  length-movie_dir r =
      let s = suffix sha r.global_id in
      let t = truncate_utf8 (sanitize r.name) (255 - length s - 5) in
      let a = length-++ t s in
      let b = length-truncate_utf8 (sanitize r.name) (255 - length s - 5) in
      let c = length-suffix r.global_id in omega arith

  length-episode_file : (r : Row) → length (episode_file sha r) ≤ max_name_bytes
  unfolding episode_file
  length-episode_file r =
      let h = length-fixed r in
      let avail = 255 - length (fixed sha r) in
      let fit = shortened_fit avail (sanitize r.series_name) (sanitize r.name) in
      grind (arith, length-++)

  length-season_dir_name : (n : ℤ) → length (season_dir_name n) ≤ 27
  unfolding season_dir_name
  length-season_dir_name (pos zero) = omega arith
  length-season_dir_name (pos (suc n)) = let h = length-two_digits (pos (suc n)) in omega arith
  length-season_dir_name (negsuc n) = let h = length-two_digits (negsuc n) in omega arith

  -- If the folder of a peer has at most 255 bytes, no element that the path of a row adds to the
  -- output folder has more, whatever the names, numbers and ids of the row are.
  pub path_elements_fit :
      (r : Row)
      → length (sanitize r.peer_id) ≤ max_name_bytes
      → AllNames (λ n. length n ≤ max_name_bytes) (path_elements sha r)
  unfolding path_elements media_root
  path_elements_fit r h =
      let a = length-series_dir r in
      let b = length-season_dir_name r.season_number in
      let c = length-episode_file r in
      let d = length-movie_dir r in
      let e = length-++ (movie_dir sha r) (lit ".strm") in ground arith
