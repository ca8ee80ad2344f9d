-- ===== src/Catalog/Local/Examples.antt =====
-- A library with one real film and a series of which the only episode is a redirect.
use mathlib.Core.List.{Memᴰ}
use jellysync.Strm.Names.{Row, path_for}
use jellysync.Common.{none, ◌≢◌, true, false, lit, str_eq, ℕ, some, [], ◌∷◌, ◌≡◌, refl, map, not}
use jellysync.Common.Bytes.{starts_with, cut_prefix}
use jellysync.Common.Table.{lookup, insert}
use jellysync.Catalog.Entry.{pos}
use jellysync.Jellyfin.Raw.{CatalogItem, global_id}
use jellysync.Strm.Paths.{split_names, pop_name, push_name, push_names, clean, slashed, path_text}
use jellysync.Catalog.Local.{
  ext_from, folds_to, is_strm_ext, is_strm, add_one, entry_of, count_one, count_episodes,
  is_excluded_item, entries_of, local_entries,
}
use jellysync.Catalog.Local.Own.{local_entries-own}
use jellysync.Catalog.Local.Redirects.{any, keep_if, is_redirect, local_entries-keep_if}

-- What a test of the entries computes with.
listing : ℕ
unfolding str_eq starts_with cut_prefix lookup insert global_id split_names pop_name push_name
    push_names clean slashed path_text ext_from folds_to is_strm_ext is_strm add_one entry_of
    count_one count_episodes is_excluded_item entries_of local_entries any keep_if
listing = 0

abbrev film : CatalogItem
film = record {
  item_id = lit "1";
  name = lit "A";
  year = pos 2000;
  media_type = lit "movie";
  path = lit "/media/a.mkv";
  tmdb_id = lit "1";
  tvdb_id = [];
  imdb_id = [];
  title_year_hash = [];
  series_global_id = [];
  series_name = [];
  season_number = pos 0;
  episode_number = pos 0;
}

abbrev lost : CatalogItem
lost = record film {
  item_id = lit "2";
  media_type = lit "series";
  path = lit "/out/series/bob/Lost";
  tmdb_id = lit "2";
}

abbrev pilot : CatalogItem
pilot = record film {
  item_id = lit "3";
  media_type = lit "episode";
  path = lit "/elsewhere/Lost/1.STRM";
  tmdb_id = lit "3";
  series_global_id = lit "tmdb:2";
}

upper_case_is_one : is_strm [] (lit "/e/1.STRM") ≡ true
unfolding listing
upper_case_is_one = refl

film_is_none : is_strm (lit "/out/") (lit "/outside/a.mkv") ≡ false
unfolding listing
film_is_none = refl

local_entries-keep_if_example :
    local_entries (lit "/out") (some (lost ∷ pilot ∷ film ∷ []))
    ≡ some (
        map entry_of (
          keep_if
            (λ it. not (is_redirect (lit "/out") (lost ∷ pilot ∷ film ∷ []) it))
            (lost ∷ pilot ∷ film ∷ [])))
local_entries-keep_if_example = local_entries-keep_if (lit "/out") (lost ∷ pilot ∷ film ∷ [])

abbrev of_bob : Row
of_bob = record {
  global_id = lit "tmdb:1";
  name = lit "A (2000)";
  media_type = lit "movie";
  peer_id = lit "bob";
  item_id = lit "9";
  local = false;
  hidden = false;
  hidden_folder = false;
  old_path = none;
  series_global_id = [];
  series_name = [];
  season_number = pos 0;
  episode_number = pos 0;
}

abbrev redirect : CatalogItem
redirect = record film { item_id = lit "4"; path = lit "/out/movies/a.strm" }

only_the_film : local_entries (lit "/out") (some (redirect ∷ film ∷ [])) ≡ some (entry_of film ∷ [])
unfolding listing
only_the_film = refl

local_entries-own_example : film.path ≢ path_text (path_for (λ s. s) (lit "/out") of_bob)
unfolding entry_of
local_entries-own_example =
    local_entries-own (λ s. s) (lit "/out") (lit "/out") of_bob (some (redirect ∷ film ∷ []))
      (entry_of film ∷ []) (entry_of film) only_the_film (Memᴰ.head refl)
