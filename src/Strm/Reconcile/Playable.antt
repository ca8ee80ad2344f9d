-- ===== src/Strm/Reconcile/Playable.antt =====
-- strm.go: the file of a wanted row after a run in which writes and removals may fail.
use jellysync.Common.{
  Str, str_eq_refl, ◌⊎◌, Bool, true, false, not, ◌&&◌, some, List, [], ◌∷◌, ◌≡◌, refl, sym, arith,
  Option-cases, Bool-cases, inl, inr,
}
use mathlib.Core.Path.{subst}
use mathlib.Core.List.{Memᴰ}
use mathlib.Core.List.Memᴰ
use jellysync.Common.Table.{Table, lookup, has}
use jellysync.Catalog.Items.{Item}
use jellysync.Strm.Paths.{strm_roots}
use jellysync.Strm.Names.{Row}
use jellysync.Strm.Reconcile.{
  Environment, Config, Run, want_strm, desired_path, desired_content, place_row, reconcile_row,
  reconcile_rows, save_paths, reconcile, start, after_rows,
}
use jellysync.Strm.Reconcile.Frame.{touches, reconcile_rows-Agree, reconcile_row-Agree}
use jellysync.Strm.Reconcile.Sweep.{is_stray_in, sweep_spares}
use jellysync.Strm.Reconcile.Apart.{
  no_touch, row_apart, is_apart, no_touch-Untouched, row_apart-no_touch, unclaimed,
}
use jellysync.Strm.Reconcile.Refines.{reconcile_row-unclaimed, unclaimed_at_start, rows_of}
use jellysync.Strm.Reconcile.Held.{Held, place_row-Held, Held-Agree}

module _ (env : Environment) (cfg : Config) where
  no_touch-Mem :
      (p : Str) (r : Row) (rs : List Row)
      → Memᴰ r rs
      → no_touch env cfg p rs ≡ true
      → touches env cfg r p ≡ false
  unfolding no_touch
  no_touch-Mem p r (s ∷ rs) m h = elim (Memᴰ.cases_cons m) [
    | inl e ↦ subst (λ t. touches env cfg t p ≡ false) (sym e) (ground arith)
    | inr n ↦ no_touch-Mem p r rs n (ground arith)
  ]
  no_touch-Mem p r [] m h = absurd (Memᴰ.not-nil m)

  -- A path that a row of the list touches, the row in front leaves alone.
  head_spares :
      (s r : Row) (rs : List Row) (p : Str)
      → row_apart env cfg s rs ≡ true
      → Memᴰ r rs
      → touches env cfg r p ≡ true
      → touches env cfg s p ≡ false
  head_spares s r rs p a m t = elim (Bool-cases (touches env cfg s p)) [
    | inl u ↦ cc (no_touch-Mem p r rs m (row_apart-no_touch env cfg s rs p a u))
    | inr f ↦ f
  ]

  Held-first :
      (r : Row) (o : Str) (rs : List Row) (run : Run)
      → want_strm r ≡ true
      → r.old_path ≡ some o
      → row_apart env cfg r rs ≡ true
      → has (desired_path env cfg r) run.claimed ≡ false
      → Held env cfg r o
          (lookup o run.disk)
          (reconcile_rows env cfg rs (reconcile_row env cfg r run))
  unfolding reconcile_row
  Held-first r o rs run w e a c =
      let d = desired_path env cfg r in
      let next = reconcile_row env cfg r run in
      let td : touches env cfg r d ≡ true = ground (arith, str_eq_refl d) in
      let to : touches env cfg r o ≡ true = ground (arith, str_eq_refl o) in
      let nd = no_touch-Untouched env cfg d rs (row_apart-no_touch env cfg r rs d a td) in
      let no = no_touch-Untouched env cfg o rs (row_apart-no_touch env cfg r rs o a to) in
      let same : next ≡ place_row env cfg r run = ground arith in
      Held-Agree env cfg r o (lookup o run.disk) (reconcile_rows env cfg rs next) next
        (reconcile_rows-Agree env cfg rs d next nd) (reconcile_rows-Agree env cfg rs o next no)
        (subst (Held env cfg r o (lookup o run.disk)) (sym same)
          (place_row-Held env cfg r o run e c))

  Held-reconcile_rows :
      (r : Row) (o : Str) (rs : List Row) (run : Run)
      → Memᴰ r rs
      → want_strm r ≡ true
      → r.old_path ≡ some o
      → is_apart env cfg rs ≡ true
      → unclaimed env cfg run.claimed rs ≡ true
      → Held env cfg r o (lookup o run.disk) (reconcile_rows env cfg rs run)
  unfolding reconcile_rows is_apart unclaimed
  Held-reconcile_rows r o [] run m w e a u = absurd (Memᴰ.not-nil m)
  Held-reconcile_rows r o (s ∷ rs) run m w e a u =
      let alone : row_apart env cfg s rs ≡ true = ground arith in
      let apart : is_apart env cfg rs ≡ true = ground arith in
      let rest : unclaimed env cfg run.claimed rs ≡ true = ground arith in
      let d = desired_path env cfg r in
      let td : touches env cfg r (desired_path env cfg r) ≡ true =
        ground (arith, str_eq_refl (desired_path env cfg r)) in
      let to : touches env cfg r o ≡ true = ground (arith, str_eq_refl o) in
      elim (Memᴰ.cases_cons m) [
        | inl same ↦
            let c : has (desired_path env cfg s) run.claimed ≡ false =
              ground (arith, subst (λ t. want_strm t ≡ true) same w) in
            subst
              (λ t.
                Held env cfg r o (lookup o run.disk)
                  (reconcile_rows env cfg rs (reconcile_row env cfg t run)))
              same
              (Held-first r o rs run w e
                (subst (λ t. row_apart env cfg t rs ≡ true) (sym same) alone)
                (subst (λ t. has (desired_path env cfg t) run.claimed ≡ false) (sym same) c))
        | inr n ↦
            let sd = head_spares s r rs d alone n td in
            let so = head_spares s r rs o alone n to in
            let free =
              reconcile_row-unclaimed env cfg s rs run
                (λ h.
                  row_apart-no_touch env cfg s rs (desired_path env cfg s) alone
                    (ground (arith, str_eq_refl (desired_path env cfg s))))
                rest in
            let ih = Held-reconcile_rows r o rs (reconcile_row env cfg s run) n w e apart free in
            subst (λ x. Held env cfg r o x (reconcile_rows env cfg (s ∷ rs) run))
              (reconcile_row-Agree env cfg s o run so).0 ih
      ]

  kept_is_no_stray :
      (keep : Table Bool) (roots : List Str) (p : Str)
      → has p keep ≡ true
      → is_stray_in env cfg keep roots p ≡ false
  kept_is_no_stray keep [] p h = refl
  kept_is_no_stray keep (root ∷ roots) p h =
      let ih = kept_is_no_stray keep roots p h in ground arith

  -- Whatever the disk and the database refuse, if no two rows share a path, then after a run a row
  -- that wants a file and had one recorded has its new file with its address, or at the recorded
  -- path what was there before.
  pub reconcile_leaves_playable :
      (items : Table Item) (disk : Table Str) (r : Row) (o : Str)
      → Memᴰ r (rows_of env cfg items)
      → want_strm r ≡ true
      → r.old_path ≡ some o
      → is_apart env cfg (rows_of env cfg items) ≡ true
      → (lookup (desired_path env cfg r) (reconcile env cfg items disk).disk
          ≡ some (desired_content env cfg r))
        ⊎ (lookup o (reconcile env cfg items disk).disk ≡ lookup o disk)
  unfolding reconcile
  reconcile_leaves_playable items disk r o m w e a =
      let rows = rows_of env cfg items in
      let run = after_rows env cfg items disk in
      let held =
        Held-reconcile_rows r o rows (start env cfg disk) m w e a
          (unclaimed_at_start env cfg rows) in
      elim (Bool-cases (not (env.folders_made && env.rows_read))) [
        | inl stop ↦ inr (ground arith)
        | inr go ↦ elim (Option-cases (save_paths env.paths_saved run.updates items)) [
          | inl f ↦ elim held [ inl h ↦ inl (ground arith) | inr h ↦ inr (ground arith) ]
          | inr (saved, f) ↦ elim held [
            | inl h ↦
                let k =
                  sweep_spares env cfg strm_roots (desired_path env cfg r) run
                    (kept_is_no_stray run.keep strm_roots (desired_path env cfg r) h.1) in
                inl (ground arith)
            | inr h ↦
                let k =
                  sweep_spares env cfg strm_roots o run
                    (kept_is_no_stray run.keep strm_roots o h.1) in
                inr (ground arith)
          ]
        ]
      ]
