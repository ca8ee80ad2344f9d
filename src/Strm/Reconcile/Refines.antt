-- ===== src/Strm/Reconcile/Refines.antt =====
-- strm.go: Reconcile against its contract, the disk that the rows call for.
use jellysync.Common.{
  Str, str_eq_iff, str_eq_refl, ◌||◌, Bool, true, false, Option, none, some, List, [], ◌∷◌, ◌≡◌,
  refl, ◌≢◌, arith, Option-cases, Bool-cases, inl, inr, is_some, if◌then◌else◌,
}
use jellysync.Common.Table.{Table, lookup, lookup-insert, has, order_by}
use jellysync.Catalog.Items.{Item}
use jellysync.Strm.Paths.{strm_roots}
use jellysync.Strm.Names.{Row}
use jellysync.Strm.Reconcile.{
  PathUpdate, Environment, Config, Run, want_strm, remove_strm, write_if_changed, desired_path,
  desired_content, drop_row, moving_from, recorded, settle, write_strm, place_row, reconcile_row,
  reconcile_rows, keeping_old, claiming, counted, save_paths, reconcile, scan_all, by_id, start,
  after_rows,
}
use jellysync.Strm.Reconcile.Frame.{
  was_at, wants_at, touches, reconcile_rows-Agree, reconcile_row-Agree,
}
use jellysync.Strm.Reconcile.Sweep.{is_stray_in, lookup-sweep}
use jellysync.Strm.Reconcile.Apart.{
  no_touch, row_apart, is_apart, no_touch-Untouched, row_apart-no_touch, unclaimed, Works,
  keeping_old-same, reconcile_row-Outcome,
}

module _ (env : Environment) (cfg : Config) where
  settle-claimed : (r : Row) (run : Run) → (settle env cfg r run).claimed ≡ run.claimed
  unfolding settle recorded
  settle-claimed r run = elim (Option-cases (moving_from env cfg r)) [
    | inl e ↦ ground arith
    | inr (q, e) ↦ elim (Option-cases (remove_strm env cfg q run.disk)) [
      | inl f ↦ ground arith
      | inr (d, f) ↦ ground arith
    ]
  ]

  write_strm-claimed : (r : Row) (run : Run) → (write_strm env cfg r run).claimed ≡ run.claimed
  unfolding write_strm
  write_strm-claimed r run =
      elim (Option-cases
        (write_if_changed env cfg (desired_path env cfg r) (desired_content env cfg r) run.disk)) [
          | inl e ↦ ground arith
          | inr ((wrote, d), e) ↦
              let a =
                settle-claimed r
                  (record run { disk = d; stats = counted env cfg wrote run.stats }) in
              ground arith
        ]

  drop_row-claimed : (r : Row) (run : Run) → (drop_row env cfg r run).claimed ≡ run.claimed
  unfolding drop_row
  drop_row-claimed r run = elim (Option-cases r.old_path) [
    | inl e ↦ ground arith
    | inr (q, e) ↦ elim (Option-cases (remove_strm env cfg q run.disk)) [
      | inl f ↦ ground arith
      | inr (d, f) ↦ ground arith
    ]
  ]

  -- A row claims nothing but the file it wants.
  reconcile_row-claimed :
      (r : Row) (q : Str) (run : Run)
      → wants_at env cfg r q ≡ false
      → has q (reconcile_row env cfg r run).claimed ≡ has q run.claimed
  unfolding reconcile_row place_row
  reconcile_row-claimed r q run h =
      let same = keeping_old-same env cfg r run in
      let a = write_strm-claimed r (claiming env cfg r (keeping_old env cfg r run)) in
      let b = drop_row-claimed r run in
      let c =
        lookup-insert (desired_path env cfg r) q r.global_id (keeping_old env cfg r run).claimed in
      ground arith

  pub reconcile_row-unclaimed :
      (r : Row) (rs : List Row) (run : Run)
      → (want_strm r ≡ true → no_touch env cfg (desired_path env cfg r) rs ≡ true)
      → unclaimed env cfg run.claimed rs ≡ true
      → unclaimed env cfg (reconcile_row env cfg r run).claimed rs ≡ true
  unfolding unclaimed no_touch
  reconcile_row-unclaimed r [] run h u = refl
  reconcile_row-unclaimed r (s ∷ rs) run h u =
      let ih = reconcile_row-unclaimed r rs run in
      let a = reconcile_row-claimed r (desired_path env cfg s) run in
      ground (arith, str_eq_iff (desired_path env cfg r) (desired_path env cfg s))

  -- The content that the rows call for at a path, and whether a row has been there.
  unfoldable pub content_at : List Row → Str → Option Str
  content_at [] p = none
  content_at (r ∷ rs) p =
      let rest = content_at rs p in
      if wants_at env cfg r p then some (desired_content env cfg r) else rest

  unfoldable pub was_there : List Row → Str → Bool
  was_there [] p = false
  was_there (r ∷ rs) p = was_at r p || was_there rs p

  no_touch-content_at :
      (p : Str) (rs : List Row)
      → no_touch env cfg p rs ≡ true
      → (content_at rs p ≡ none) × (was_there rs p ≡ false)
  unfolding no_touch content_at was_there
  no_touch-content_at p [] h = (refl, refl)
  no_touch-content_at p (r ∷ rs) h = ground (arith, no_touch-content_at p rs)

  -- The loop, where no two rows share a path.
  lookup-reconcile_rows :
      (rs : List Row) (p : Str) (run : Run)
      → Works env cfg
      → is_apart env cfg rs ≡ true
      → unclaimed env cfg run.claimed rs ≡ true
      → has p run.keep ≡ false
      → (lookup p (reconcile_rows env cfg rs run).disk ≡ elim (content_at rs p) [
        | some c ↦ some c
        | none ↦ if was_there rs p then none else lookup p run.disk
      ])
        × (has p (reconcile_rows env cfg rs run).keep ≡ is_some (content_at rs p))
  unfolding reconcile_rows content_at was_there is_apart unclaimed
  lookup-reconcile_rows [] p run w a u k = ground arith
  lookup-reconcile_rows (r ∷ rs) p run w a u k = elim (Bool-cases (touches env cfg r p)) [
    | inl t ↦
        let alone : row_apart env cfg r rs ≡ true = ground arith in
        let first : unclaimed env cfg run.claimed (r ∷ []) ≡ true = ground arith in
        let nt = row_apart-no_touch env cfg r rs p alone t in
        let out = reconcile_row-Outcome env cfg r p run w first k in
        let later =
          reconcile_rows-Agree env cfg rs p (reconcile_row env cfg r run)
            (no_touch-Untouched env cfg p rs nt) in
        let nc = no_touch-content_at p rs nt in ground arith
    | inr f ↦
        let alone : row_apart env cfg r rs ≡ true = ground arith in
        let apart : is_apart env cfg rs ≡ true = ground arith in
        let rest : unclaimed env cfg run.claimed rs ≡ true = ground arith in
        let same = reconcile_row-Agree env cfg r p run f in
        let free =
          reconcile_row-unclaimed r rs run
            (λ h.
              row_apart-no_touch env cfg r rs (desired_path env cfg r) alone
                (ground (arith, str_eq_refl (desired_path env cfg r))))
            rest in
        let kept : has p (reconcile_row env cfg r run).keep ≡ false = ground arith in
        let ih = lookup-reconcile_rows rs p (reconcile_row env cfg r run) w apart free kept in
        ground arith
  ]

  save_paths_works : (us : List PathUpdate) (items : Table Item) → save_paths true us items ≢ none
  unfolding save_paths
  save_paths_works [] items = λ e. cc
  save_paths_works (u ∷ us) items = λ e. cc

  pub unclaimed_at_start : (rs : List Row) → unclaimed env cfg [] rs ≡ true
  unfolding unclaimed lookup
  unclaimed_at_start [] = refl
  unclaimed_at_start (r ∷ rs) = ground (arith, unclaimed_at_start rs)

  -- The disk that the rows call for: the address of each item at its path, no file where a row has
  -- been or where a root folder holds another file of this program, and the rest as it was.
  abbrev pub called_for : List Row → Str → Option Str → Option Str
  called_for rs p before = elim (content_at rs p) [
    | some c ↦ some c
    | none ↦ if was_there rs p || is_stray_in env cfg [] strm_roots p then none else before
  ]

  abbrev pub rows_of : Table Item → List Row
  rows_of items = scan_all (order_by (by_id env cfg) items)

  -- If the folders, the query and the transaction work, every write and removal works, and no two
  -- rows share a path, then a run leaves at every path what the rows call for there.
  pub reconcile-Refines :
      (items : Table Item) (disk : Table Str) (p : Str)
      → Works env cfg
      → env.folders_made ≡ true
      → env.rows_read ≡ true
      → env.paths_saved ≡ true
      → is_apart env cfg (rows_of items) ≡ true
      → lookup p (reconcile env cfg items disk).disk ≡ called_for (rows_of items) p (lookup p disk)
  unfolding reconcile save_paths lookup
  reconcile-Refines items disk p w hf hr hs a =
      let run = after_rows env cfg items disk in
      let rows =
        lookup-reconcile_rows (rows_of items) p (start env cfg disk) w a
          (unclaimed_at_start (rows_of items)) refl in
      let swept = lookup-sweep env cfg strm_roots p (after_rows env cfg items disk) (w p).1 in
      elim (Option-cases (save_paths env.paths_saved run.updates items)) [
        | inl e ↦ ground (arith, save_paths_works run.updates items)
        | inr (saved, e) ↦ ground arith
      ]
