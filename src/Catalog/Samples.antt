-- ===== src/Catalog/Samples.antt =====
-- Small libraries and indexes for the tests.
use jellysync.Common.{Str, str_eq, str_lt, String, lit, ℕ, ◌≡◌, refl, arith, none, List, [], ◌∷◌}
use jellysync.Catalog.Entry.{Entry, pos}
use jellysync.Catalog.Index.{Index, refresh, index_item, tombstone, purge}
use jellysync.Catalog.Hidden.{is_hidden}
use jellysync.Common.Table.{order_by, retain, insert, lookup, update}
use jellysync.Catalog.Index.Valid.{IsValid}
use jellysync.Catalog.Index.Induction.{refresh-IsValid}

abbrev pub movie : String → Entry
movie s = record {
  global_id = lit s;
  item_id = lit s;
  name = lit s;
  year = pos 1999;
  media_type = lit "movie";
  tmdb_id = [];
  tvdb_id = [];
  imdb_id = [];
  path = lit "/media/film";
  series_global_id = [];
  series_name = [];
  season_number = pos 0;
  episode_number = pos 0;
}

abbrev pub by_name : Entry → Str
by_name e = e.name

abbrev pub empty_index : Index
empty_index = record { epoch = lit "e1"; head = 0; min_rev = 0; indexed_at = none; rows = [] }

pub empty_index-IsValid : IsValid empty_index
empty_index-IsValid = record {
  named = λ e. cc;
  unique = tt;
  fits = tt;
  distinct = tt;
  retained = omega arith;
}

-- What a test of a refresh computes with.
unfoldable pub computing : ℕ
unfolding refresh order_by retain insert lookup update str_eq str_lt index_item tombstone purge
    is_hidden
computing = 0

-- Three films, one of which goes, is forgotten a month later.
unfoldable pub three_films : Index
unfolding computing
three_films = (refresh by_name [] 0 (movie "a" ∷ movie "b" ∷ movie "c" ∷ []) empty_index).index

abbrev pub two : List Entry
two = movie "a" ∷ movie "b" ∷ []

unfoldable pub aged : Index
unfolding three_films
aged = (refresh by_name [] 3000000 two (refresh by_name [] 10 two three_films).index).index

pub three_films-IsValid : IsValid three_films
unfolding three_films
three_films-IsValid =
    refresh-IsValid by_name [] 0 (movie "a" ∷ movie "b" ∷ movie "c" ∷ []) empty_index
      empty_index-IsValid

pub aged-IsValid : IsValid aged
unfolding aged
aged-IsValid =
    refresh-IsValid by_name [] 3000000 two _
      (refresh-IsValid by_name [] 10 two three_films three_films-IsValid)

aged_state : (aged.head ≡ 4) × (aged.min_rev ≡ 4)
unfolding aged
aged_state = (refl, refl)
