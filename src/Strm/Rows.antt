-- ===== src/Strm/Rows.antt =====
-- internal/strm/strm.go: what Reconcile reads from the table catalog_items and writes back.
use jellysync.Common.{
  Str, str_eq, is_empty, lit, ℕ, Bool, not, ◌&&◌, Option, none, some, List, [], ◌∷◌, if◌then◌else◌,
}
use jellysync.Common.Table.{Table, update}
use jellysync.Catalog.Items.{Item}
use jellysync.Strm.Names.{Row}

pub record Config : Type 0 where
  pub output_dir : Str
  pub base_url : Str

-- What the system and the database answer during one run.
pub record Environment : Type 0 where
  pub sha : Str → Str
  pub folders_made : Bool
  pub rows_read : Bool
  pub paths_saved : Bool
  pub readable : Str → Bool
  pub writable : Str → Bool
  pub removable : Str → Bool

pub record Stats : Type 0 where
  pub written : ℕ
  pub moved : ℕ
  pub removed : ℕ
  pub unchanged : ℕ
  pub swept : ℕ
  pub failed : ℕ

abbrev pub no_stats : Stats
no_stats = record { written = 0; moved = 0; removed = 0; unchanged = 0; swept = 0; failed = 0 }

-- An empty path clears the row's.
pub record PathUpdate : Type 0 where
  pub global_id : Str
  pub path : Str

-- SELECT ... FROM catalog_items: one row scanned.
unfoldable pub scan : Str → Item → Row
scan id i = record {
  global_id = id;
  name = i.state.name;
  media_type = i.state.media_type;
  peer_id = i.state.peer_id;
  item_id = i.state.peer_item_id;
  local = i.state.local;
  hidden = i.state.hidden;
  hidden_folder = i.state.hidden_folder;
  old_path = i.strm_path;
  series_global_id = i.state.series_global_id;
  series_name = i.state.series_name;
  season_number = i.state.season_number;
  episode_number = i.state.episode_number;
}

unfoldable pub scan_all : Table Item → List Row
scan_all [] = []
scan_all ((id, i) ∷ items) = scan id i ∷ scan_all items

unfoldable pub want_strm : Row → Bool
want_strm r =
    not r.local
    && not r.hidden
    && not r.hidden_folder
    && not (is_empty r.peer_id)
    && not (is_empty r.item_id)
    && not (str_eq r.media_type (lit "series"))

unfoldable pub set_path : Str → Item → Item
set_path path i = record i { strm_path = if is_empty path then none else some path }

unfoldable pub save_all : List PathUpdate → Table Item → Table Item
unfolding set_path
save_all [] items = items
save_all (u ∷ us) items = save_all us (update u.global_id (set_path u.path) items)

-- savePaths: one transaction.
unfoldable pub save_paths : Bool → List PathUpdate → Table Item → Option (Table Item)
save_paths saved [] items = some items
save_paths saved (u ∷ us) items = if saved then some (save_all (u ∷ us) items) else none
