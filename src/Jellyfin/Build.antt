-- ===== src/Jellyfin/Build.antt =====
-- internal/jellyfin/client.go: the items of the catalog, with the ids that all nodes share. An
-- `int` has 64 bits.
use jellysync.Common.{
  Str, str_eq, is_empty, lit, ◌==◌, ◌||◌, ◌&&◌, ℕ, suc, Bool, not, Option, none, some, List, [],
  ◌∷◌, ◌++◌, take, if◌then◌else◌, leb,
}
use jellysync.Common.Bytes.{trim, to_lower, replace_runs, digits, int_places, hex}
use jellysync.Common.Table.{Table, lookup, insert}
use jellysync.Catalog.Entry.{ℤ, pos, negsuc}
use jellysync.Jellyfin.Raw.{CatalogItem, RawItem, global_id, is_real_media, drop_orphans}

-- %d
unfoldable pub decimal : ℤ → Str
decimal (pos n) = digits int_places n
decimal (negsuc n) = b'-' ∷ digits int_places (suc n)

abbrev is_alnum : ℕ → Bool
is_alnum c = (leb b'a' c && leb c b'z') || (leb b'0' c && leb c b'9')

unfoldable pub normalize : Str → Str
normalize name = trim (λ c. c == b'-') (replace_runs is_alnum (to_lower name))

abbrev pub or_empty : Option Str → Str
or_empty none = []
or_empty (some v) = v

abbrev provider : Str → RawItem → Str
provider key ri = or_empty (lookup key ri.provider_ids)

abbrev pub is_series_item : RawItem → Bool
is_series_item ri = str_eq (to_lower ri.type) (lit "series")

abbrev pub is_episode_item : RawItem → Bool
is_episode_item ri = str_eq (to_lower ri.type) (lit "episode")

-- `sha` is SHA-256.
module _ (sha : Str → Str) where
  unfoldable pub hash_parts : Str → Str
  hash_parts s = take 16 (hex (sha s))

  unfoldable pub title_year_hash : Str → ℤ → Str
  title_year_hash name year = hash_parts (normalize name ++ lit "_" ++ decimal year)

  unfoldable pub episode_hash : Str → ℤ → ℤ → Str
  episode_hash series season number =
      hash_parts (series ++ lit "_" ++ decimal season ++ lit "_" ++ decimal number)

  unfoldable pub orphan_episode_hash : Str → ℤ → ℤ → ℤ → Str
  orphan_episode_hash name year season number = hash_parts (
      lit "orphan_"
      ++ normalize name
      ++ lit "_"
      ++ decimal year
      ++ lit "_"
      ++ decimal season
      ++ lit "_"
      ++ decimal number)

  -- The id that the first loop of buildCatalogItems gives a series.
  unfoldable pub series_id_of : RawItem → Str
  series_id_of ri = global_id (record {
    item_id = [];
    name = ri.name;
    year = ri.production_year;
    media_type = [];
    path = [];
    tmdb_id = provider (lit "Tmdb") ri;
    tvdb_id = provider (lit "Tvdb") ri;
    imdb_id = provider (lit "Imdb") ri;
    title_year_hash = title_year_hash ri.name ri.production_year;
    series_global_id = [];
    series_name = [];
    season_number = pos 0;
    episode_number = pos 0;
  })

  unfoldable pub series_global_ids : List RawItem → Table Str → Table Str
  series_global_ids [] ids = ids
  series_global_ids (ri ∷ raw) ids = series_global_ids raw (
      if not (is_series_item ri) || not (is_real_media ri)
      then ids
      else insert ri.id (series_id_of ri) ids)

  unfoldable pub episode_id : Str → RawItem → Str
  episode_id series ri =
      if not (is_empty series)
      then episode_hash series ri.parent_index_number ri.index_number
      else orphan_episode_hash ri.name ri.production_year ri.parent_index_number ri.index_number

  abbrev series_of : Table Str → RawItem → Str
  series_of ids ri = or_empty (lookup ri.series_id ids)

  -- What the second loop adds to an item by its kind.
  unfoldable pub with_series : Table Str → RawItem → CatalogItem → CatalogItem
  unfolding episode_id
  with_series ids ri item =
      if is_episode_item ri
      then record item {
        series_global_id = series_of ids ri;
        series_name = ri.series_name;
        season_number = ri.parent_index_number;
        episode_number = ri.index_number;
        title_year_hash = episode_id (series_of ids ri) ri;
      }
      else record item { title_year_hash = title_year_hash ri.name ri.production_year }

  unfoldable pub catalog_item : Table Str → RawItem → CatalogItem
  unfolding with_series
  catalog_item ids ri = with_series ids ri (record {
    item_id = ri.id;
    name = ri.name;
    year = ri.production_year;
    media_type = to_lower ri.type;
    path = ri.path;
    tmdb_id = provider (lit "Tmdb") ri;
    tvdb_id = provider (lit "Tvdb") ri;
    imdb_id = provider (lit "Imdb") ri;
    title_year_hash = [];
    series_global_id = [];
    series_name = [];
    season_number = pos 0;
    episode_number = pos 0;
  })

  unfoldable pub catalog_items : Table Str → List RawItem → List CatalogItem
  catalog_items ids [] = []
  catalog_items ids (ri ∷ raw) =
      let items = catalog_items ids raw in
      if is_real_media ri then catalog_item ids ri ∷ items else items

  unfoldable pub build_catalog_items : List RawItem → List CatalogItem
  build_catalog_items raw = catalog_items (series_global_ids raw []) raw

  -- ListItems, from what the two requests return; a list of roots that fails drops nothing.
  unfoldable pub list_items : Option (List RawItem) → Option (List Str) → Option (List CatalogItem)
  unfolding drop_orphans
  list_items none roots = none
  list_items (some raw) none = some (build_catalog_items raw)
  list_items (some raw) (some roots) = some (build_catalog_items (drop_orphans raw roots).0)
