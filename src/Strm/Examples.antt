-- ===== src/Strm/Examples.antt =====
-- Runs of internal/strm on small inputs.
use jellysync.Common.{
  Str, lit, ℕ, true, false, Option, none, some, [], ◌∷◌, ◌≡◌, refl, length, ◌⊎◌, ◌≤◌, arith, str_eq,
  str_lt, take,
}
use jellysync.Common.Bytes.{
  digits, two_places, starts_with, ends_with, trim_space, trim_right, replace_byte, cut_prefix,
}
use jellysync.Common.Table.{Table, lookup, insert, delete, update, order_by, place}
use mathlib.Core.List.{Memᴰ}
use jellysync.Catalog.Entry.{pos}
use jellysync.Catalog.Items.{Item}
use jellysync.Strm.Paths.{
  FilePath, path_text, slashed, split_names, pop_name, push_name, push_names, clean, present, join,
  within, parent, all_but_last, path_eq, is_protected, continues, names_eq, cleanup,
  cleaned_folders,
}
use jellysync.Strm.Names.{
  Row, sanitize, media_root, truncate_utf8, back_off, starts_rune, two_digits, season_dir_name,
  before_colon, after_colon, provider_disambiguator, disambiguator, movie_dir, series_dir,
  episode_file, shortened, path_elements, path_for, url_for,
}
use jellysync.Strm.Reconcile.{Config, Environment, scan, scan_all, want_strm, reconcile, is_ours}
use jellysync.Strm.Reconcile.Apart.{Works, is_apart, no_touch}
use jellysync.Strm.Reconcile.Playable.{reconcile_leaves_playable}
use jellysync.Strm.Bounds.{AllNames, path_elements_fit}
use jellysync.Strm.Truncate.{truncate_utf8_longest}
use jellysync.Strm.Cleanup.{AllFolders, IsCleanable, cleaned_folders-IsCleanable, cleanup_ends}
use jellysync.Strm.Reconcile.Refines.{reconcile-Refines, rows_of, content_at, was_there}

abbrev ideal : Environment
ideal = record {
  sha = λ s. s;
  folders_made = true;
  rows_read = true;
  paths_saved = true;
  readable = λ _. true;
  writable = λ _. true;
  removable = λ _. true;
}

abbrev config : Config
config = record { output_dir = lit "/out"; base_url = lit "http://a:1/" }

abbrev film : Str → Str → Option Str → Item
film name peer path = record {
  state = record {
    name = name;
    media_type = lit "movie";
    local = false;
    local_item_id = [];
    peer_id = peer;
    peer_item_id = lit "7";
    series_global_id = [];
    series_name = [];
    season_number = pos 0;
    episode_number = pos 0;
    hidden = false;
    path = [];
    hidden_folder = false;
  };
  strm_path = path;
  updated_at = 0;
}

-- One film of a peer, and one that no peer serves any more.
abbrev two_films : Table Item
two_films =
    (lit "tmdb:1", film (lit "A") (lit "bob") none)
    ∷ (lit "tmdb:2", film (lit "B") [] (some (lit "/out/movies/bob/old.strm")))
    ∷ []

abbrev files : Table Str
files =
    (lit "/out/movies/bob/old.strm", lit "x")
    ∷ (lit "/out/movies/stray.strm", lit "y")
    ∷ (lit "/out/movies/cover.jpg", lit "z")
    ∷ []

-- What a test of the names, and of a run, computes with.
naming : ℕ
unfolding str_eq starts_with ends_with trim_space trim_right replace_byte cut_prefix take path_text
    slashed split_names pop_name push_name push_names clean present join within parent all_but_last
    path_eq is_protected continues names_eq cleanup cleaned_folders sanitize media_root
    truncate_utf8 back_off starts_rune digits two_digits two_places season_dir_name before_colon
    after_colon provider_disambiguator disambiguator movie_dir series_dir episode_file shortened
    path_elements path_for url_for
naming = 0

running : ℕ
unfolding str_lt lookup insert delete update order_by place naming scan scan_all want_strm is_apart
    no_touch content_at was_there reconcile is_ours
running = 0

two_films_apart : is_apart ideal config (rows_of ideal config two_films) ≡ true
unfolding running
two_films_apart = refl

works : Works ideal config
works p = (refl, refl)

-- The film gets its file, where there was none.
reconcile-Refines_example :
    lookup
      (lit "/out/movies/bob/A [tmdbid-1]/A [tmdbid-1].strm")
      (reconcile ideal config two_films files).disk
    ≡ some (lit "http://a:1/api/v1/proxy/stream/bob/7")
unfolding running
reconcile-Refines_example =
    reconcile-Refines ideal config two_films files
      (lit "/out/movies/bob/A [tmdbid-1]/A [tmdbid-1].strm") works refl refl refl two_films_apart

-- The film that is no longer served loses its file.
old_file_goes :
    lookup (lit "/out/movies/bob/old.strm") (reconcile ideal config two_films files).disk ≡ none
unfolding running
old_file_goes =
    reconcile-Refines ideal config two_films files (lit "/out/movies/bob/old.strm") works refl refl
      refl two_films_apart

-- A file that is not of this program stays.
cover_stays :
    lookup (lit "/out/movies/cover.jpg") (reconcile ideal config two_films files).disk
    ≡ some (lit "z")
unfolding running
cover_stays =
    reconcile-Refines ideal config two_films files (lit "/out/movies/cover.jpg") works refl refl
      refl two_films_apart

-- An id with slashes, as a peer may send it, leads out of the output folder.
abbrev escaping : Row
escaping = scan (lit "tmdb:/../../../../../etc/x") (film (lit "A") (lit "bob") none)

escaping_path : path_text (path_for (λ s. s) (lit "/out") escaping) ≡ lit "/etc/x].strm"
unfolding running
escaping_path = refl

-- A name of which the second letter has two bytes.
abbrev long_name : Str
long_name = b'a' ∷ 0xc3 ∷ 0xa9 ∷ b'b' ∷ []

truncate_utf8_longest_example :
    (take (length (truncate_utf8 long_name 2)) long_name ≡ truncate_utf8 long_name 2)
    × (length (truncate_utf8 long_name 2) ≤ 2)
    × ((length (truncate_utf8 long_name 2) ≡ 0)
        ⊎ (starts_rune long_name (length (truncate_utf8 long_name 2)) ≡ true))
    × (1 ≤ length (truncate_utf8 long_name 2))
unfolding naming
truncate_utf8_longest_example = truncate_utf8_longest long_name 2 1 (omega arith) (omega arith) refl

abbrev lost : Row
lost = record escaping {
  global_id = lit "tvdb:9";
  media_type = lit "episode";
  series_global_id = lit "tvdb:8";
  series_name = lit "Lost";
  season_number = pos 1;
  episode_number = pos 12;
}

lost_path :
    path_text (path_for (λ s. s) (lit "/out") lost)
    ≡ lit "/out/series/bob/Lost [tvdbid-8]/Season 01/Lost - S01E12 - A [tvdbid-9].strm"
unfolding running
lost_path = refl

bob_fits : length (sanitize (lit "bob")) ≤ 255
unfolding naming
bob_fits = omega arith

path_elements_fit_example : AllNames (λ n. length n ≤ 255) (path_elements (λ s. s) lost)
unfolding scan
path_elements_fit_example = path_elements_fit (λ s. s) lost bob_fits

-- Only the folder of the film is tried.
abbrev old_file : FilePath
old_file = record { rooted = true; names = lit "out" ∷ lit "movies" ∷ lit "bob" ∷ lit "f" ∷ [] }

abbrev out : FilePath
out = record { rooted = true; names = lit "out" ∷ [] }

cleaned_folders-IsCleanable_example :
    AllFolders (IsCleanable old_file out) (cleaned_folders (λ _. true) old_file out)
cleaned_folders-IsCleanable_example = cleaned_folders-IsCleanable (λ _. true) old_file out

one_folder_goes :
    cleaned_folders (λ _. true) old_file out
    ≡ record { rooted = true; names = lit "out" ∷ lit "movies" ∷ lit "bob" ∷ [] } ∷ []
unfolding naming
one_folder_goes = refl

more_rounds_change_nothing : cleanup (λ _. true) 9 old_file out ≡ cleanup (λ _. true) 4 old_file out
more_rounds_change_nothing = cleanup_ends (λ _. true) 4 9 old_file out (omega arith) (omega arith)

-- The film of which the file moves, on a disk that refuses everything.
abbrev refusing : Environment
refusing = record ideal { writable = λ _. false; removable = λ _. false }

abbrev moving_film : Table Item
moving_film =
    (lit "tmdb:1", film (lit "A") (lit "bob") (some (lit "/out/movies/bob/old.strm"))) ∷ []

reconcile_leaves_playable_example :
    (lookup
        (lit "/out/movies/bob/A [tmdbid-1]/A [tmdbid-1].strm")
        (reconcile refusing config moving_film files).disk
      ≡ some (lit "http://a:1/api/v1/proxy/stream/bob/7"))
    ⊎ (lookup (lit "/out/movies/bob/old.strm") (reconcile refusing config moving_film files).disk
        ≡ some (lit "x"))
unfolding running
reconcile_leaves_playable_example =
    reconcile_leaves_playable refusing config moving_film files
      (scan (lit "tmdb:1") (film (lit "A") (lit "bob") (some (lit "/out/movies/bob/old.strm"))))
      (lit "/out/movies/bob/old.strm") (Memᴰ.head refl) refl refl refl
