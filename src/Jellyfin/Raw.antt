-- ===== src/Jellyfin/Raw.antt =====
-- internal/jellyfin/client.go: what Jellyfin lists, what of it is real media, and what lies in a
-- library.
use jellysync.Common.{
  Str, str_eq, is_empty, lit, ◌==◌, ◌||◌, ◌&&◌, ℕ, ◌-◌, Bool, true, false, not, none, some, List,
  [], ◌∷◌, ◌++◌, length, if◌then◌else◌,
}
use jellysync.Common.Bytes.{cut_prefix, trim_right, to_lower}
use jellysync.Common.Table.{Table}
use jellysync.Catalog.Entry.{ℤ}

pub record CatalogItem : Type 0 where
  pub item_id : Str
  pub name : Str
  pub year : ℤ
  pub media_type : Str
  pub path : Str
  pub tmdb_id : Str
  pub tvdb_id : Str
  pub imdb_id : Str
  pub title_year_hash : Str
  pub series_global_id : Str
  pub series_name : Str
  pub season_number : ℤ
  pub episode_number : ℤ

unfoldable pub global_id : CatalogItem → Str
global_id c =
    if not (is_empty c.tmdb_id)
    then lit "tmdb:" ++ c.tmdb_id
    else if not (is_empty c.tvdb_id)
    then lit "tvdb:" ++ c.tvdb_id
    else if not (is_empty c.imdb_id)
    then lit "imdb:" ++ c.imdb_id
    else lit "titleyear:" ++ c.title_year_hash

pub record RawItem : Type 0 where
  pub id : Str
  pub name : Str
  pub production_year : ℤ
  pub type : Str
  pub path : Str
  pub provider_ids : Table Str
  pub series_id : Str
  pub series_name : Str
  pub parent_index_number : ℤ
  pub index_number : ℤ
  pub location_type : Str
  pub is_virtual_item : Bool

unfoldable pub is_real_media : RawItem → Bool
is_real_media ri =
    if ri.is_virtual_item
    then false
    else if not (is_empty ri.location_type) && not (str_eq ri.location_type (lit "FileSystem"))
    then false
    else if str_eq (to_lower ri.type) (lit "movie") || str_eq (to_lower ri.type) (lit "episode")
    then not (is_empty ri.path)
    else true

-- What follows a root in a path that it holds.
unfoldable pub goes_on : Str → Bool
goes_on [] = true
goes_on (c ∷ s) = c == b'/' || c == 0x5c

unfoldable pub under_root : Str → Str → Bool
under_root path root = elim (cut_prefix root path) [ none ↦ false | some rest ↦ goes_on rest ]

abbrev pub trim_root : Str → Str
trim_root root = trim_right (λ c. c == b'/' || c == 0x5c) root

unfoldable pub under_any : Str → List Str → Bool
unfolding under_root
under_any path [] = false
under_any path (root ∷ roots) =
    is_empty (trim_root root) || under_root path (trim_root root) || under_any path roots

-- The items that dropOrphans keeps.
unfoldable pub keep_placed : List Str → List RawItem → List RawItem
keep_placed roots [] = []
keep_placed roots (ri ∷ raw) =
    let kept = keep_placed roots raw in
    if not (is_empty ri.path) && not (under_any ri.path roots) then kept else ri ∷ kept

unfoldable pub drop_orphans : List RawItem → List Str → List RawItem × ℕ
drop_orphans raw roots = let kept = keep_placed roots raw in (kept, length raw - length kept)
