-- ===== src/Syncrun/Report.antt =====
-- syncrun.go RunLocal: what a run leaves behind, and what it says of itself.
use jellysync.Common.{
  Str, str_eq_refl, ℕ, ◌≡◌, refl, ap, sym, ltb, ◌∙◌, Bool, true, false, some, List, arith,
  if◌then◌else◌, Bool-cases, inl, inr, ◌⊎◌,
}
use jellysync.Common.Table.{Table, lookup, lookup-insert}
use jellysync.Catalog.Index.{changed}
use jellysync.Catalog.Sync.{World, sync}
use jellysync.Peers.Registry.{Peer}
use jellysync.Strm.Reconcile.{Config, Environment, reconcile}
use jellysync.Strm.Reconcile.Apart.{Works, is_apart}
use jellysync.Strm.Reconcile.Refines.{called_for, rows_of, reconcile-Refines}
use jellysync.Syncrun.Local.{
  Stage, Status, Node, Finished, local_key, get_status, set_status, show, in_stage, succeeded,
  failed_in, fail_run, write_files, run_local, syncing_catalog, writing_files, Tracker,
}

get_status-set_status :
    (s : Status) (t : Tracker) → get_status local_key (set_status local_key s t) ≡ some s
unfolding get_status set_status
get_status-set_status s t =
    let e = lookup-insert local_key local_key s t in let f = str_eq_refl local_key in ground arith

get_status-show : (s : Status) (n : Node) → get_status local_key (show s n).tracker ≡ some s
unfolding show
get_status-show s n = get_status-set_status s n.tracker

true_is_not_false : ¬ (true ≡ false)
true_is_not_false h = cc

module _ (w : World) (env : Environment) (cfg : Config) (started ended : ℕ) where
  -- The status in the end: a success, or the step that failed.
  abbrev pub verdict : Bool → Stage → Status
  verdict ok stage = if ok then succeeded started ended else failed_in started ended stage

  get_status-fail_run :
      (stage : Stage) (n : Node)
      → get_status local_key (fail_run w env cfg started ended stage n).tracker
        ≡ some (failed_in started ended stage)
  unfolding fail_run
  get_status-fail_run stage n = get_status-show (failed_in started ended stage) n

  write_files_reports :
      (notified : Bool) (n : Node)
      → get_status local_key (write_files w env cfg started ended notified n).node.tracker
        ≡ some (verdict (write_files w env cfg started ended notified n).ok writing_files)
  unfolding write_files
  write_files_reports notified n =
      elim (Bool-cases
        (reconcile env cfg (show (in_stage started writing_files) n).library.items
          (show (in_stage started writing_files) n).disk).ok) [
            | inl e ↦ rw (e, write_files) (get_status-show (succeeded started ended) _)
            | inr f ↦ rw (f, write_files) (get_status-fail_run writing_files _)
          ]

  show-disk : (t : Status) (n : Node) → (show t n).disk ≡ n.disk
  unfolding show
  show-disk t n = refl

  -- A success that returns without an error; or the failure of the synchronisation, with no file
  -- written; or the failure of the files.
  abbrev pub IsReported : Table Str → Finished → Type 0
  IsReported disk out =
      ((get_status local_key out.node.tracker ≡ some (succeeded started ended)) × (out.ok ≡ true))
      ⊎ (((get_status local_key out.node.tracker ≡ some (failed_in started ended syncing_catalog))
            × (out.ok ≡ false)
            × (out.node.disk ≡ disk))
          ⊎ ((get_status local_key out.node.tracker ≡ some (failed_in started ended writing_files))
              × (out.ok ≡ false)))

  fail_run-disk :
      (stage : Stage) (n : Node) → (fail_run w env cfg started ended stage n).disk ≡ n.disk
  unfolding fail_run
  fail_run-disk stage n = show-disk (failed_in started ended stage) n

  write_files-IsReported :
      (disk : Table Str) (notified : Bool) (n : Node)
      → IsReported disk (write_files w env cfg started ended notified n)
  write_files-IsReported disk notified n =
      let e = write_files_reports notified n in
      elim (Bool-cases (write_files w env cfg started ended notified n).ok) [
        | inl t ↦ inl (e ∙ ap (λ b. some (verdict b writing_files)) t, t)
        | inr f ↦ inr (inr (e ∙ ap (λ b. some (verdict b writing_files)) f, f))
      ]

  -- Whatever fails, a run ends with a report: it shows a success and returns no error, or it shows
  -- the failure of the synchronisation and has written no file, or the failure of the files; in
  -- these two it returns an error.
  pub run_local-IsReported :
      (refresh_local : Bool) (known : List Peer) (n : Node)
      → IsReported n.disk (run_local w env cfg started ended refresh_local known n)
  unfolding run_local
  run_local-IsReported refresh_local known n =
      let n1 = show (in_stage started syncing_catalog) n in
      let synced = sync w refresh_local known n1.library in
      let n2 : Node = record n1 { library = synced.library } in
      elim (Bool-cases synced.ok) [
        | inr f ↦
            rw (f, run_local)
              (inr (
                inl (
                  get_status-fail_run syncing_catalog n2,
                  refl,
                  fail_run-disk syncing_catalog n2 ∙ show-disk (in_stage started syncing_catalog) n,
                )))
        | inl e ↦ rw (e, run_local) (write_files-IsReported n.disk _ n2)
      ]

  show-library : (t : Status) (n : Node) → (show t n).library ≡ n.library
  unfolding show
  show-library t n = refl

  write_files-disk :
      (notified : Bool) (n : Node)
      → (write_files w env cfg started ended notified n).node.disk
        ≡ (reconcile env cfg n.library.items n.disk).disk
  unfolding write_files
  write_files-disk notified n =
      let n1 = show (in_stage started writing_files) n in
      let files = reconcile env cfg n1.library.items n1.disk in
      let n2 : Node = record n1 {
        library = record n1.library { items = files.items };
        disk = files.disk;
      } in
      let same : files.disk ≡ (reconcile env cfg n.library.items n.disk).disk =
        ap (λ l. (reconcile env cfg l.items n1.disk).disk)
          (show-library (in_stage started writing_files) n)
        ∙ ap (λ d. (reconcile env cfg n.library.items d).disk)
            (show-disk (in_stage started writing_files) n) in
      elim (Bool-cases files.ok) [
        | inl e ↦ rw (e, write_files) (show-disk (succeeded started ended) n2 ∙ same)
        | inr f ↦ rw (f, write_files) (fail_run-disk writing_files n2 ∙ same)
      ]

  -- If a run returns without an error, the disk refused nothing and no two rows of the elected
  -- items share a path, then every path holds what the items elected in that run call for.
  pub run_local_files :
      (refresh_local : Bool) (known : List Peer) (n : Node) (p : Str)
      → Works env cfg
      → env.folders_made ≡ true
      → env.rows_read ≡ true
      → env.paths_saved ≡ true
      → is_apart env cfg (rows_of env cfg (sync w refresh_local known n.library).library.items)
        ≡ true
      → (run_local w env cfg started ended refresh_local known n).ok ≡ true
      → lookup p (run_local w env cfg started ended refresh_local known n).node.disk
        ≡ called_for env cfg
            (rows_of env cfg (sync w refresh_local known n.library).library.items)
            p
            (lookup p n.disk)
  unfolding run_local show
  run_local_files refresh_local known n p works hf hr hs a ok =
      let n1 = show (in_stage started syncing_catalog) n in
      let synced = sync w refresh_local known n.library in
      let n2 : Node = record n1 { library = synced.library } in
      let out = run_local w env cfg started ended refresh_local known n in
      elim (Bool-cases synced.ok) [
        | inr f ↦
            let lost : out.ok ≡ false = rw (f, run_local) refl in
            absurd (true_is_not_false (sym ok ∙ lost))
        | inl e ↦
            let notified = ltb 0 (changed synced.stats.local) in
            let step : out ≡ write_files w env cfg started ended notified n2 =
              rw (e, run_local) refl in
            ap (λ x. lookup p x.node.disk) step
            ∙ ap (lookup p) (write_files-disk notified n2)
            ∙ reconcile-Refines env cfg synced.library.items n.disk p works hf hr hs a
      ]
