-- ===== src/Strm/Reconcile/Frame.antt =====
-- strm.go: the paths that a row of Reconcile touches.
use jellysync.Common.{
  Str, str_eq, str_eq_iff, ◌||◌, Bool, true, false, ◌&&◌, none, some, List, [], ◌∷◌, ◌≡◌, refl, ◌∙◌,
  arith, Option-cases, inl, inr, if◌then◌else◌,
}
use jellysync.Common.Table.{Table, lookup, lookup-insert, lookup-delete}
use jellysync.Strm.Names.{Row}
use jellysync.Strm.Reconcile.{
  Environment, Config, Run, want_strm, remove_strm, write_if_changed, desired_path, desired_content,
  keeping_old, claiming, counted, drop_row, moving_from, recorded, settle, write_strm, place_row,
  reconcile_row, reconcile_rows,
}

-- Whether a path is the recorded one of a row.
abbrev pub was_at : Row → Str → Bool
was_at r p = elim r.old_path [ none ↦ false | some q ↦ str_eq q p ]

module _ (env : Environment) (cfg : Config) where
  -- Whether a path is the file that a row wants.
  abbrev pub wants_at : Row → Str → Bool
  wants_at r p = want_strm r && str_eq (desired_path env cfg r) p

  abbrev pub touches : Row → Str → Bool
  touches r p = wants_at r p || was_at r p

  -- Two runs agree on one path.
  abbrev pub Agree : Str → Run → Run → Type 0
  Agree p a b =
      (lookup p a.disk ≡ lookup p b.disk)
      × (lookup p a.keep ≡ lookup p b.keep)
      × (lookup p a.claimed ≡ lookup p b.claimed)

  pub lookup-remove_strm :
      (q p : Str) (disk after : Table Str)
      → remove_strm env cfg q disk ≡ some after
      → lookup p after ≡ (if str_eq q p then none else lookup p disk)
  unfolding remove_strm
  lookup-remove_strm q p disk after e = ground (arith, lookup-delete q p disk)

  pub lookup-write_if_changed :
      (q c p : Str) (disk after : Table Str) (wrote : Bool)
      → write_if_changed env cfg q c disk ≡ some (wrote, after)
      → lookup p after ≡ (if str_eq q p then some c else lookup p disk)
  unfolding write_if_changed
  lookup-write_if_changed q c p disk after wrote e = elim (Option-cases (lookup q disk)) [
    | inl n ↦ ground (arith, lookup-insert q p c disk, str_eq_iff q p)
    | inr (v, n) ↦ ground (arith, lookup-insert q p c disk, str_eq_iff q p, str_eq_iff v c)
  ]

  drop_row-Agree :
      (r : Row) (p : Str) (run : Run) → was_at r p ≡ false → Agree p (drop_row env cfg r run) run
  unfolding drop_row
  drop_row-Agree r p run h = elim (Option-cases r.old_path) [
    | inl e ↦ rw (e, drop_row) (refl, refl, refl)
    | inr (q, e) ↦ elim (Option-cases (remove_strm env cfg q run.disk)) [
      | inl f ↦ ground (arith, lookup-insert q p true run.keep)
      | inr (d, f) ↦ ground (arith, lookup-remove_strm q p run.disk d f)
    ]
  ]

  pub Agree-trans : (p : Str) (a b c : Run) → Agree p a b → Agree p b c → Agree p a c
  Agree-trans p a b c f g = (f.0 ∙ g.0, f.1 ∙ g.1, f.2 ∙ g.2)

  -- The file that moves is at the row's old path, which is not the wanted one.
  pub moving_from-old :
      (r : Row) (q : Str)
      → moving_from env cfg r ≡ some q
      → (r.old_path ≡ some q) × (str_eq q (desired_path env cfg r) ≡ false)
  unfolding moving_from
  moving_from-old r q e = ground arith

  settle-Agree :
      (r : Row) (p : Str) (run : Run) → was_at r p ≡ false → Agree p (settle env cfg r run) run
  unfolding settle recorded
  settle-Agree r p run h = elim (Option-cases (moving_from env cfg r)) [
    | inl e ↦ ground arith
    | inr (q, e) ↦
        let old = moving_from-old r q e in
        elim (Option-cases (remove_strm env cfg q run.disk)) [
          | inl f ↦ ground arith
          | inr (d, f) ↦
              ground (arith, lookup-remove_strm q p run.disk d f, lookup-delete q p run.keep)
        ]
  ]

  write_strm-Agree :
      (r : Row) (p : Str) (run : Run)
      → str_eq (desired_path env cfg r) p ≡ false
      → was_at r p ≡ false
      → Agree p (write_strm env cfg r run) run
  unfolding write_strm
  write_strm-Agree r p run h k =
      elim (Option-cases
        (write_if_changed env cfg (desired_path env cfg r) (desired_content env cfg r) run.disk)) [
          | inl e ↦ ground arith
          | inr ((wrote, d), e) ↦
              let run1 = record run { disk = d; stats = counted env cfg wrote run.stats } in
              let a = settle-Agree r p run1 k in
              let b =
                lookup-write_if_changed (desired_path env cfg r) (desired_content env cfg r) p
                  run.disk d wrote e in
              ground arith
        ]

  keeping_old-Agree :
      (r : Row) (p : Str) (run : Run) → was_at r p ≡ false → Agree p (keeping_old env cfg r run) run
  keeping_old-Agree r p run h = elim (Option-cases (moving_from env cfg r)) [
    | inl e ↦ ground arith
    | inr (q, e) ↦ ground (arith, moving_from-old r q e, lookup-insert q p true run.keep)
  ]

  claiming-Agree :
      (r : Row) (p : Str) (run : Run)
      → str_eq (desired_path env cfg r) p ≡ false
      → Agree p (claiming env cfg r run) run
  claiming-Agree r p run h = ground (
    arith,
    lookup-insert (desired_path env cfg r) p true run.keep,
    lookup-insert (desired_path env cfg r) p r.global_id run.claimed,
  )

  place_row-Agree :
      (r : Row) (p : Str) (run : Run)
      → str_eq (desired_path env cfg r) p ≡ false
      → was_at r p ≡ false
      → Agree p (place_row env cfg r run) run
  unfolding place_row
  place_row-Agree r p run h k =
      let kept = keeping_old env cfg r run in
      let a = keeping_old-Agree r p run k in
      let b = claiming-Agree r p kept h in
      let c = write_strm-Agree r p (claiming env cfg r kept) h k in ground arith

  pub reconcile_row-Agree :
      (r : Row) (p : Str) (run : Run)
      → touches r p ≡ false
      → Agree p (reconcile_row env cfg r run) run
  unfolding reconcile_row
  reconcile_row-Agree r p run h = ground (arith, place_row-Agree r p run, drop_row-Agree r p run)

  -- No row of the list touches the path.
  abbrev pub Untouched : Str → List Row → Type 0
  Untouched p [] = Unit {0}
  Untouched p (r ∷ rs) = (touches r p ≡ false) × Untouched p rs

  pub reconcile_rows-Agree :
      (rs : List Row) (p : Str) (run : Run)
      → Untouched p rs
      → Agree p (reconcile_rows env cfg rs run) run
  unfolding reconcile_rows
  reconcile_rows-Agree [] p run h = (refl, refl, refl)
  reconcile_rows-Agree (r ∷ rs) p run h =
      Agree-trans p (reconcile_rows env cfg (r ∷ rs) run) (reconcile_row env cfg r run) run
        (reconcile_rows-Agree rs p (reconcile_row env cfg r run) h.1)
        (reconcile_row-Agree r p run h.0)
