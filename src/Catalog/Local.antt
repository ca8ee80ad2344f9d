-- ===== src/Catalog/Local.antt =====
-- internal/catalog/catalog.go: the entries of this node's own library (LocalEntries).
pub mod Redirects
pub mod Own
pub mod Examples
use jellysync.Common.{
  Str, str_eq, is_empty, lit, ◌==◌, ◌||◌, ◌&&◌, ℕ, suc, ◌+◌, ltb, Bool, true, false, not, Option,
  none, some, List, [], ◌∷◌, ◌++◌, ◌≡◌, refl, arith, if◌then◌else◌, map, Bool-cases, inl, inr, leb,
}
use jellysync.Common.Bytes.{lower_byte, starts_with, cut_prefix}
use jellysync.Common.Table.{Table, lookup, insert, lookup-insert}
use jellysync.Catalog.Entry.{Entry}
use jellysync.Jellyfin.Raw.{CatalogItem, global_id}
use jellysync.Strm.Paths.{clean, path_text}

-- filepath.Ext: from the last dot after the last slash.
unfoldable pub ext_from : Str → Str → Str
ext_from found [] = found
ext_from found (c ∷ s) =
    if c == b'/'
    then ext_from [] s
    else if c == b'.'
    then ext_from (c ∷ []) s
    else if is_empty found
    then ext_from [] s
    else ext_from (found ++ c ∷ []) s

unfoldable pub folds_to : Str → Str → Bool
folds_to [] [] = true
folds_to (c ∷ s) (l ∷ t) = lower_byte c == l && folds_to s t
folds_to _ _ = false

-- strings.EqualFold with ".strm"; the long s folds to an s.
unfoldable pub is_strm_ext : Str → Bool
unfolding folds_to
is_strm_ext s = elim (cut_prefix (b'.' ∷ 0xc5 ∷ 0xbf ∷ []) s) [
  | some rest ↦ folds_to rest (lit "trm")
  | none ↦ folds_to s (lit ".strm")
]

unfoldable pub is_strm : Str → Str → Bool
unfolding is_strm_ext ext_from
is_strm strm_dir path =
    (not (is_empty strm_dir)
      && starts_with (path_text (clean strm_dir) ++ lit "/") (path_text (clean path) ++ lit "/"))
    || is_strm_ext (ext_from [] path)

-- m[k]++
unfoldable pub add_one : Str → Table ℕ → Table ℕ
add_one k m = elim (lookup k m) [ none ↦ insert k 1 m | some n ↦ insert k (n + 1) m ]

abbrev pub number_of : Option ℕ → ℕ
number_of none = 0
number_of (some n) = n

abbrev pub of_episode : CatalogItem → Bool
of_episode it = str_eq it.media_type (lit "episode")

unfoldable pub entry_of : CatalogItem → Entry
entry_of it = record {
  global_id = global_id it;
  item_id = it.item_id;
  name = it.name;
  year = it.year;
  media_type = it.media_type;
  tmdb_id = it.tmdb_id;
  tvdb_id = it.tvdb_id;
  imdb_id = it.imdb_id;
  path = it.path;
  series_global_id = it.series_global_id;
  series_name = it.series_name;
  season_number = it.season_number;
  episode_number = it.episode_number;
}

module _ (strm_dir : Str) where
  -- The first loop: the episodes seen of each series, and those that are real.
  unfoldable pub count_one : CatalogItem → Table ℕ × Table ℕ → Table ℕ × Table ℕ
  count_one it t = if not (of_episode it) then t else (
    add_one it.series_global_id t.0,
    if not (is_strm strm_dir it.path) then add_one it.series_global_id t.1 else t.1,
  )

  unfoldable pub count_episodes : List CatalogItem → Table ℕ × Table ℕ → Table ℕ × Table ℕ
  count_episodes [] t = t
  count_episodes (it ∷ items) t = count_episodes items (count_one it t)

  unfoldable pub is_excluded_item : Table ℕ × Table ℕ → CatalogItem → Bool
  is_excluded_item t it =
      is_strm strm_dir it.path
      || (str_eq it.media_type (lit "series")
          && ltb 0 (number_of (lookup (global_id it) t.0))
          && number_of (lookup (global_id it) t.1) == 0)

  unfoldable pub entries_of : Table ℕ × Table ℕ → List CatalogItem → List Entry
  entries_of t [] = []
  entries_of t (it ∷ items) =
      let rest = entries_of t items in if is_excluded_item t it then rest else entry_of it ∷ rest

  -- LocalEntries, from what ListItems returns.
  unfoldable pub local_entries : Option (List CatalogItem) → Option (List Entry)
  local_entries none = none
  local_entries (some items) = some (entries_of (count_episodes items ([], [])) items)
