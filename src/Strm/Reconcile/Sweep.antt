-- ===== src/Strm/Reconcile/Sweep.antt =====
-- strm.go `sweep`: which files it takes away.
use jellysync.Common.{
  Str, str_eq, str_eq_iff, ◌||◌, Bool, true, false, not, ◌&&◌, none, List, [], ◌∷◌, ◌≡◌, refl, ◌≢◌,
  ◌∙◌, arith, Option-cases, inl, inr, if◌then◌else◌,
}
use jellysync.Common.Bytes.{starts_with}
use jellysync.Common.Table.{Table, lookup, has}
use jellysync.Strm.Reconcile.{
  Environment, Config, Run, remove_strm, root_folder, is_ours, sweep_file, sweep_files, sweep,
}
use jellysync.Strm.Reconcile.Frame.{lookup-remove_strm}

module _ (env : Environment) (cfg : Config) where
  -- Whether the walk of one folder, or of several, wants a file gone.
  abbrev pub is_stray : Table Bool → Str → Str → Bool
  is_stray keep root p = starts_with (root_folder env cfg root) p && not (has p keep) && is_ours p

  abbrev pub is_stray_in : Table Bool → List Str → Str → Bool
  is_stray_in keep [] p = false
  is_stray_in keep (root ∷ roots) p = is_stray keep root p || is_stray_in keep roots p

  remove_strm_works :
      (q : Str) (disk : Table Str) → env.removable q ≡ true → remove_strm env cfg q disk ≢ none
  unfolding remove_strm
  remove_strm_works q disk h = ground arith

  sweep_file-keep : (root q : Str) (run : Run) → (sweep_file env cfg root q run).keep ≡ run.keep
  unfolding sweep_file
  sweep_file-keep root q run = elim (Option-cases (remove_strm env cfg q run.disk)) [
    | inl e ↦ ground arith
    | inr (d, e) ↦ ground arith
  ]

  lookup-sweep_file :
      (root q p : Str) (run : Run)
      → env.removable p ≡ true
      → lookup p (sweep_file env cfg root q run).disk
        ≡ (if str_eq q p && is_stray run.keep root p then none else lookup p run.disk)
  unfolding sweep_file
  lookup-sweep_file root q p run w = elim (Option-cases (remove_strm env cfg q run.disk)) [
    | inl e ↦ ground (arith, str_eq_iff q p, remove_strm_works q run.disk)
    | inr (d, e) ↦ ground (arith, str_eq_iff q p, lookup-remove_strm env cfg q p run.disk d e)
  ]

  -- Whatever fails, a file that is no stray stays.
  sweep_file_spares :
      (root q p : Str) (run : Run)
      → is_stray run.keep root p ≡ false
      → lookup p (sweep_file env cfg root q run).disk ≡ lookup p run.disk
  unfolding sweep_file
  sweep_file_spares root q p run h = elim (Option-cases (remove_strm env cfg q run.disk)) [
    | inl e ↦ ground (arith, str_eq_iff q p)
    | inr (d, e) ↦ ground (arith, str_eq_iff q p, lookup-remove_strm env cfg q p run.disk d e)
  ]

  sweep_files-keep :
      (root : Str) (files : Table Str) (run : Run)
      → (sweep_files env cfg root files run).keep ≡ run.keep
  unfolding sweep_files
  sweep_files-keep root [] run = refl
  sweep_files-keep root ((q, c) ∷ files) run =
      sweep_files-keep root files (sweep_file env cfg root q run) ∙ sweep_file-keep root q run

  sweep_files_spares :
      (root p : Str) (files : Table Str) (run : Run)
      → is_stray run.keep root p ≡ false
      → lookup p (sweep_files env cfg root files run).disk ≡ lookup p run.disk
  unfolding sweep_files
  sweep_files_spares root p [] run h = refl
  sweep_files_spares root p ((q, c) ∷ files) run h =
      let k = sweep_file-keep root q run in
      sweep_files_spares root p files (sweep_file env cfg root q run) (rw k h)
      ∙ sweep_file_spares root q p run h

  lookup-sweep_files :
      (root p : Str) (files : Table Str) (run : Run)
      → env.removable p ≡ true
      → lookup p (sweep_files env cfg root files run).disk
        ≡ (if has p files && is_stray run.keep root p then none else lookup p run.disk)
  unfolding sweep_files lookup
  lookup-sweep_files root p [] run w = refl
  lookup-sweep_files root p ((q, c) ∷ files) run w =
      let k = sweep_file-keep root q run in
      let a = lookup-sweep_file root q p run w in
      let b = lookup-sweep_files root p files (sweep_file env cfg root q run) w in ground arith

  pub sweep-keep : (roots : List Str) (run : Run) → (sweep env cfg roots run).keep ≡ run.keep
  unfolding sweep
  sweep-keep [] run = refl
  sweep-keep (root ∷ roots) run =
      sweep-keep roots (sweep_files env cfg root run.disk run) ∙ sweep_files-keep root run.disk run

  pub sweep_spares :
      (roots : List Str) (p : Str) (run : Run)
      → is_stray_in run.keep roots p ≡ false
      → lookup p (sweep env cfg roots run).disk ≡ lookup p run.disk
  unfolding sweep
  sweep_spares [] p run h = refl
  sweep_spares (root ∷ roots) p run h =
      let k = sweep_files-keep root run.disk run in
      let a = sweep_files_spares root p run.disk run in
      let b = sweep_spares roots p (sweep_files env cfg root run.disk run) in ground arith

  pub lookup-sweep :
      (roots : List Str) (p : Str) (run : Run)
      → env.removable p ≡ true
      → lookup p (sweep env cfg roots run).disk
        ≡ (if is_stray_in run.keep roots p then none else lookup p run.disk)
  unfolding sweep
  lookup-sweep [] p run w = refl
  lookup-sweep (root ∷ roots) p run w =
      let k = sweep_files-keep root run.disk run in
      let a = lookup-sweep_files root p run.disk run w in
      let b = lookup-sweep roots p (sweep_files env cfg root run.disk run) w in ground arith
