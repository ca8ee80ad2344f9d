-- ===== src/Strm/Reconcile.antt =====
-- internal/strm/strm.go: the files brought in line with the table catalog_items (Reconcile). The
-- disk is a table of the files by their path; folders are left to Strm/Paths.
pub mod Frame
pub mod Sweep
pub mod Apart
pub mod Refines
pub mod Held
pub mod Playable
use jellysync.Common.{
  Str, str_eq, str_lt, is_empty, lit, ◌==◌, ◌||◌, ℕ, ◌+◌, Bool, true, false, not, ◌&&◌, Option,
  none, some, List, [], ◌∷◌, ◌++◌, is_none, if◌then◌else◌,
}
use jellysync.Common.Bytes.{starts_with, ends_with}
use jellysync.Common.Table.{Table, lookup, insert, delete, update, order_by, has}
use jellysync.Catalog.Items.{Item}
use jellysync.Strm.Paths.{path_text, join, strm_roots}
use jellysync.Strm.Names.{Row, path_for, url_for}
pub use jellysync.Strm.Rows.{Config, Environment, Stats, no_stats, PathUpdate}
unfoldable pub use jellysync.Strm.Rows.{scan, scan_all, want_strm, save_all, save_paths}

-- The variables of the loop, and the disk.
pub record Run : Type 0 where
  pub disk : Table Str
  pub updates : List PathUpdate
  pub keep : Table Bool
  pub claimed : Table Str
  pub stats : Stats

-- The name of a file, after its last slash.
unfoldable base_name : Str → Str → Str
base_name name [] = name
base_name name (c ∷ s) = if c == b'/' then base_name [] s else base_name (name ++ c ∷ []) s

-- What the sweep takes for a file of its own.
unfoldable pub is_ours : Str → Bool
unfolding base_name
is_ours path =
    let name = base_name [] path in
    ends_with (lit ".strm") name || starts_with (lit ".jellysync-") name

module _ (env : Environment) (cfg : Config) where
  -- removeStrm: a file that is missing is removed already.
  unfoldable pub remove_strm : Str → Table Str → Option (Table Str)
  remove_strm path disk =
      if has path disk && not (env.removable path) then none else some (delete path disk)

  abbrev pub has_content : Option Str → Str → Bool
  has_content none content = false
  has_content (some old) content = str_eq old content

  -- writeIfChanged: whether it wrote, and the disk.
  unfoldable pub write_if_changed : Str → Str → Table Str → Option (Bool × Table Str)
  write_if_changed path content disk =
      if env.readable path && has_content (lookup path disk) content
      then some (false, disk)
      else if env.writable path
      then some (true, insert path content disk)
      else none

  abbrev pub desired_path : Row → Str
  desired_path r = path_text (path_for env.sha cfg.output_dir r)

  abbrev pub desired_content : Row → Str
  desired_content r = url_for cfg.base_url r.peer_id r.item_id

  abbrev pub fail : Run → Run
  fail run = record run { stats = record run.stats { failed = run.stats.failed + 1 } }

  abbrev pub keeping : Str → Run → Run
  keeping path run = record run { keep = insert path true run.keep }

  -- The file of a row that wants none.
  unfoldable pub drop_row : Row → Run → Run
  drop_row r run = elim r.old_path [
    | none ↦ run
    | some path ↦ elim (remove_strm path run.disk) [
      | none ↦ keeping path (fail run)
      | some disk ↦ record run {
        disk = disk;
        updates = run.updates ++ record { global_id = r.global_id; path = [] } ∷ [];
        stats = record run.stats { removed = run.stats.removed + 1 };
      }
    ]
  ]

  -- The old path of a row whose file moves.
  unfoldable pub moving_from : Row → Option Str
  moving_from r = elim r.old_path [
    | none ↦ none
    | some path ↦ if str_eq path (desired_path r) then none else some path
  ]

  unfoldable pub recorded : Row → Run → Run
  recorded r run = record run {
    updates = run.updates ++ record { global_id = r.global_id; path = desired_path r } ∷ [];
  }

  -- Once the file is written: the one at the old path goes.
  unfoldable pub settle : Row → Run → Run
  unfolding recorded
  settle r run = elim (moving_from r) [
    | none ↦ if is_none r.old_path then recorded r run else run
    | some old ↦ elim (remove_strm old run.disk) [
      | none ↦ fail run
      | some disk ↦ recorded r (record run {
        disk = disk;
        keep = delete old run.keep;
        stats = record run.stats { moved = run.stats.moved + 1 };
      })
    ]
  ]

  abbrev pub counted : Bool → Stats → Stats
  counted true s = record s { written = s.written + 1 }
  counted false s = record s { unchanged = s.unchanged + 1 }

  unfoldable pub write_strm : Row → Run → Run
  unfolding settle
  write_strm r run = elim (write_if_changed (desired_path r) (desired_content r) run.disk) [
    | none ↦ fail run
    | some (wrote, disk) ↦ settle r (record run { disk = disk; stats = counted wrote run.stats })
  ]

  abbrev pub keeping_old : Row → Run → Run
  keeping_old r run = elim (moving_from r) [ none ↦ run | some old ↦ keeping old run ]

  abbrev pub claiming : Row → Run → Run
  claiming r run = record run {
    keep = insert (desired_path r) true run.keep;
    claimed = insert (desired_path r) r.global_id run.claimed;
  }

  unfoldable pub place_row : Row → Run → Run
  place_row r run =
      let kept = keeping_old r run in
      if has (desired_path r) run.claimed then fail kept else write_strm r (claiming r kept)

  unfoldable pub reconcile_row : Row → Run → Run
  reconcile_row r run = if want_strm r then place_row r run else drop_row r run

  unfoldable pub reconcile_rows : List Row → Run → Run
  reconcile_rows [] run = run
  reconcile_rows (r ∷ rs) run = reconcile_rows rs (reconcile_row r run)

  abbrev pub root_folder : Str → Str
  root_folder root = path_text (join (cfg.output_dir ∷ root ∷ [])) ++ lit "/"

  -- sweep: one file that the walk of a root folder visits.
  unfoldable pub sweep_file : Str → Str → Run → Run
  sweep_file root path run =
      if starts_with (root_folder root) path && not (has path run.keep) && is_ours path
      then elim (remove_strm path run.disk) [
        | none ↦ fail run
        | some disk ↦ record run {
          disk = disk;
          stats = record run.stats { swept = run.stats.swept + 1 };
        }
      ]
      else run

  unfoldable pub sweep_files : Str → Table Str → Run → Run
  sweep_files root [] run = run
  sweep_files root ((path, _) ∷ files) run = sweep_files root files (sweep_file root path run)

  unfoldable pub sweep : List Str → Run → Run
  sweep [] run = run
  sweep (root ∷ roots) run = sweep roots (sweep_files root run.disk run)

  -- What a run leaves behind, and whether it returns without an error.
  pub record Reconciled : Type 0 where
    pub disk : Table Str
    pub items : Table Item
    pub stats : Stats
    pub ok : Bool

  abbrev pub by_id : Str × Item → Str × Item → Bool
  by_id a b = not (str_lt b.0 a.0)

  abbrev pub start : Table Str → Run
  start disk = record { disk = disk; updates = []; keep = []; claimed = []; stats = no_stats }

  abbrev pub after_rows : Table Item → Table Str → Run
  after_rows items disk = reconcile_rows (scan_all (order_by by_id items)) (start disk)

  -- Reconcile
  unfoldable pub reconcile : Table Item → Table Str → Reconciled
  reconcile items disk =
      if not (env.folders_made && env.rows_read)
      then record { disk = disk; items = items; stats = no_stats; ok = false }
      else let run = after_rows items disk in
        elim (save_paths env.paths_saved run.updates items) [
          | none ↦ record { disk = run.disk; items = items; stats = run.stats; ok = false }
          | some saved ↦
              let end = sweep strm_roots run in
              record { disk = end.disk; items = saved; stats = end.stats; ok = true }
        ]
