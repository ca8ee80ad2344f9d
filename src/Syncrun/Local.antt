-- ===== src/Syncrun/Local.antt =====
-- internal/syncrun/syncrun.go: one run (RunLocal), and internal/syncstatus: what it shows of itself.
-- The text of an error is left out but for the step that failed.
use jellysync.Common.{Str, lit, ℕ, Bool, true, false, Option, List, [], ◌∷◌, if◌then◌else◌, ltb}
use jellysync.Common.Table.{Table, lookup, insert}
use jellysync.Catalog.Index.{changed}
use jellysync.Catalog.Sync.{Library, World, sync}
use jellysync.Peers.Registry.{Peer}
use jellysync.Strm.Reconcile.{Config, Environment, reconcile}

pub data RunState : Type 0 where
  idle running success error unreachable : RunState

pub data Stage : Type 0 where
  no_stage syncing_catalog writing_files : Stage

pub record Status : Type 0 where
  pub state : RunState
  pub stage : Stage
  pub percent : ℕ
  pub started_at : ℕ
  pub finished_at : ℕ
  pub error_at : Stage

abbrev pub Tracker : Type 0
Tracker = Table Status

abbrev pub no_tracker : Tracker
no_tracker = []

-- Tracker.Set and Tracker.Get
unfoldable pub set_status : Str → Status → Tracker → Tracker
set_status id s t = insert id s t

unfoldable pub get_status : Str → Tracker → Option Status
get_status id t = lookup id t

-- A node: the database, the disk, the statuses shown, and each status that was set, the last one
-- first.
pub record Node : Type 0 where
  pub library : Library
  pub disk : Table Str
  pub tracker : Tracker
  pub shown : List Status

pub record Finished : Type 0 where
  pub node : Node
  pub notified : Bool
  pub ok : Bool

abbrev pub local_key : Str
local_key = lit "local"

unfoldable pub show : Status → Node → Node
show s n = record n { tracker = set_status local_key s n.tracker; shown = s ∷ n.shown }

abbrev pub in_stage : ℕ → Stage → Status
in_stage started stage = record {
  state = running;
  stage = stage;
  percent = 0;
  started_at = started;
  finished_at = 0;
  error_at = no_stage;
}

abbrev pub succeeded : ℕ → ℕ → Status
succeeded started now = record {
  state = success;
  stage = no_stage;
  percent = 100;
  started_at = started;
  finished_at = now;
  error_at = no_stage;
}

abbrev pub failed_in : ℕ → ℕ → Stage → Status
failed_in started now stage = record {
  state = error;
  stage = no_stage;
  percent = 0;
  started_at = started;
  finished_at = now;
  error_at = stage;
}

module _ (w : World) (env : Environment) (cfg : Config) (started ended : ℕ) where
  -- fail
  unfoldable pub fail_run : Stage → Node → Node
  fail_run stage n = show (failed_in started ended stage) n

  -- The second half of RunLocal: the files.
  unfoldable pub write_files : Bool → Node → Finished
  write_files notified n =
      let n1 = show (in_stage started writing_files) n in
      let files = reconcile env cfg n1.library.items n1.disk in
      let n2 = record n1 {
        library = record n1.library { items = files.items };
        disk = files.disk;
      } in
      if files.ok
      then record { node = show (succeeded started ended) n2; notified = notified; ok = true }
      else record { node = fail_run writing_files n2; notified = notified; ok = false }

  unfoldable pub run_local : Bool → List Peer → Node → Finished
  run_local refresh_local known n =
      let n1 = show (in_stage started syncing_catalog) n in
      let synced = sync w refresh_local known n1.library in
      let n2 = record n1 { library = synced.library } in
      let notified = ltb 0 (changed synced.stats.local) in
      if synced.ok
      then write_files notified n2
      else record { node = fail_run syncing_catalog n2; notified = notified; ok = false }
