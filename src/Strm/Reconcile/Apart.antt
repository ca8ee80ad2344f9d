-- ===== src/Strm/Reconcile/Apart.antt =====
-- strm.go: rows that share no path, and what Reconcile does for each of them.
use jellysync.Common.{
  Str, str_eq, str_eq_iff, ◌||◌, Bool, true, false, not, ◌&&◌, none, some, List, [], ◌∷◌, ◌≡◌, ◌≢◌,
  arith, Option-cases, inl, inr, if◌then◌else◌,
}
use jellysync.Common.Table.{Table, lookup, lookup-insert, lookup-delete, has}
use jellysync.Strm.Names.{Row}
use jellysync.Strm.Reconcile.{
  Environment, Config, Run, want_strm, remove_strm, write_if_changed, desired_path, desired_content,
  drop_row, moving_from, recorded, settle, write_strm, place_row, reconcile_row, keeping_old,
  claiming, counted,
}
use jellysync.Strm.Reconcile.Frame.{
  was_at, wants_at, touches, Untouched, moving_from-old, lookup-remove_strm,
  lookup-write_if_changed,
}

module _ (env : Environment) (cfg : Config) where
  unfoldable pub no_touch : Str → List Row → Bool
  no_touch p [] = true
  no_touch p (r ∷ rs) = not (touches env cfg r p) && no_touch p rs

  -- No other row of the list touches a path of this one.
  abbrev pub row_apart : Row → List Row → Bool
  row_apart r rs =
      (not (want_strm r) || no_touch (desired_path env cfg r) rs)
      && elim r.old_path [ none ↦ true | some q ↦ no_touch q rs ]

  unfoldable pub is_apart : List Row → Bool
  unfolding no_touch
  is_apart [] = true
  is_apart (r ∷ rs) = row_apart r rs && is_apart rs

  pub no_touch-Untouched : (p : Str) (rs : List Row) → no_touch p rs ≡ true → Untouched env cfg p rs
  unfolding no_touch
  no_touch-Untouched p [] h = tt
  no_touch-Untouched p (r ∷ rs) h = ground (arith, no_touch-Untouched p rs)

  -- What one row touches the others do not.
  pub row_apart-no_touch :
      (r : Row) (rs : List Row) (p : Str)
      → row_apart r rs ≡ true
      → touches env cfg r p ≡ true
      → no_touch p rs ≡ true
  row_apart-no_touch r rs p a t = elim (Option-cases r.old_path) [
    | inl e ↦ ground (arith, str_eq_iff (desired_path env cfg r) p)
    | inr (q, e) ↦ ground (arith, str_eq_iff (desired_path env cfg r) p, str_eq_iff q p)
  ]

  -- No file that the rows want is claimed yet.
  unfoldable pub unclaimed : Table Str → List Row → Bool
  unclaimed claimed [] = true
  unclaimed claimed (r ∷ rs) =
      (not (want_strm r) || not (has (desired_path env cfg r) claimed)) && unclaimed claimed rs

  -- A run in which every write and removal works.
  abbrev pub Works : Type 0
  Works = (p : Str) → (env.writable p ≡ true) × (env.removable p ≡ true)

  pub remove_strm_works : (q : Str) (disk : Table Str) → Works → remove_strm env cfg q disk ≢ none
  unfolding remove_strm
  remove_strm_works q disk w = let h = (w q).1 in ground arith

  pub write_if_changed_works :
      (q c : Str) (disk : Table Str) → Works → write_if_changed env cfg q c disk ≢ none
  unfolding write_if_changed
  write_if_changed_works q c disk w = let h = (w q).0 in ground arith

  -- What one row leaves at one path.
  abbrev pub Outcome : Row → Str → Run → Run → Type 0
  Outcome r p run after =
      (lookup p after.disk ≡ (
        if wants_at env cfg r p
        then some (desired_content env cfg r)
        else if was_at r p
        then none
        else lookup p run.disk))
      × (has p after.keep ≡ (wants_at env cfg r p || has p run.keep))

  drop_row-Outcome :
      (r : Row) (p : Str) (run : Run)
      → Works
      → want_strm r ≡ false
      → Outcome r p run (drop_row env cfg r run)
  unfolding drop_row
  drop_row-Outcome r p run w h = elim (Option-cases r.old_path) [
    | inl e ↦ ground arith
    | inr (q, e) ↦ elim (Option-cases (remove_strm env cfg q run.disk)) [
      | inl f ↦ ground (arith, remove_strm_works q run.disk w)
      | inr (d, f) ↦ ground (arith, lookup-remove_strm env cfg q p run.disk d f)
    ]
  ]

  -- After the write, with the old path still kept.
  settle-Outcome :
      (r : Row) (p : Str) (run : Run)
      → Works
      → (lookup p (settle env cfg r run).disk ≡ (
          if str_eq (desired_path env cfg r) p
          then lookup p run.disk
          else if was_at r p
          then none
          else lookup p run.disk))
        × (has p (settle env cfg r run).keep ≡ (
            if str_eq (desired_path env cfg r) p
            then has p run.keep
            else (not (was_at r p) && has p run.keep)))
  unfolding settle recorded moving_from
  settle-Outcome r p run w = elim (Option-cases (moving_from env cfg r)) [
    | inl e ↦ elim (Option-cases r.old_path) [
      | inl f ↦ ground arith
      | inr (q, f) ↦ ground (arith, str_eq_iff q (desired_path env cfg r))
    ]
    | inr (q, e) ↦
        let old = moving_from-old env cfg r q e in
        elim (Option-cases (remove_strm env cfg q run.disk)) [
          | inl f ↦ ground (arith, remove_strm_works q run.disk w)
          | inr (d, f) ↦ ground (
            arith,
            lookup-remove_strm env cfg q p run.disk d f,
            lookup-delete q p run.keep,
            str_eq_iff q p,
            str_eq_iff q (desired_path env cfg r),
            str_eq_iff (desired_path env cfg r) p,
          )
        ]
  ]

  write_strm-Outcome :
      (r : Row) (p : Str) (run : Run)
      → Works
      → (lookup p (write_strm env cfg r run).disk ≡ (
          if str_eq (desired_path env cfg r) p
          then some (desired_content env cfg r)
          else if was_at r p
          then none
          else lookup p run.disk))
        × (has p (write_strm env cfg r run).keep ≡ (
            if str_eq (desired_path env cfg r) p
            then has p run.keep
            else (not (was_at r p) && has p run.keep)))
  unfolding write_strm
  write_strm-Outcome r p run w =
      let d = desired_path env cfg r in
      let c = desired_content env cfg r in
      elim (Option-cases
        (write_if_changed env cfg (desired_path env cfg r) (desired_content env cfg r) run.disk)) [
          | inl e ↦ ground (
            arith,
            write_if_changed_works (desired_path env cfg r) (desired_content env cfg r) run.disk w,
          )
          | inr ((wrote, disk), e) ↦
              let run1 = record run { disk = disk; stats = counted env cfg wrote run.stats } in
              let a = settle-Outcome r p run1 w in
              let b =
                lookup-write_if_changed env cfg (desired_path env cfg r) (desired_content env cfg r)
                  p run.disk disk wrote e in
              ground arith
        ]

  pub keeping_old-same :
      (r : Row) (run : Run)
      → ((keeping_old env cfg r run).disk ≡ run.disk)
        × ((keeping_old env cfg r run).claimed ≡ run.claimed)
  keeping_old-same r run = elim (Option-cases (moving_from env cfg r)) [
    | inl e ↦ ground arith
    | inr (q, e) ↦ ground arith
  ]

  pub keep_before :
      (r : Row) (p : Str) (run : Run)
      → has p (claiming env cfg r (keeping_old env cfg r run)).keep
        ≡ (str_eq (desired_path env cfg r) p || was_at r p || has p run.keep)
  unfolding moving_from
  keep_before r p run = elim (Option-cases r.old_path) [
    | inl e ↦ ground (arith, lookup-insert (desired_path env cfg r) p true run.keep)
    | inr (q, e) ↦ ground (
      arith,
      lookup-insert (desired_path env cfg r) p true (keeping_old env cfg r run).keep,
      lookup-insert q p true run.keep,
      str_eq_iff q (desired_path env cfg r),
    )
  ]

  place_row-Outcome :
      (r : Row) (p : Str) (run : Run)
      → Works
      → want_strm r ≡ true
      → has (desired_path env cfg r) run.claimed ≡ false
      → has p run.keep ≡ false
      → Outcome r p run (place_row env cfg r run)
  unfolding place_row
  place_row-Outcome r p run w h c k =
      let kept = keeping_old env cfg r run in
      let a = write_strm-Outcome r p (claiming env cfg r (keeping_old env cfg r run)) w in
      let b = keep_before r p run in let same = keeping_old-same r run in ground arith

  pub reconcile_row-Outcome :
      (r : Row) (p : Str) (run : Run)
      → Works
      → unclaimed run.claimed (r ∷ []) ≡ true
      → has p run.keep ≡ false
      → Outcome r p run (reconcile_row env cfg r run)
  unfolding reconcile_row unclaimed
  reconcile_row-Outcome r p run w h k =
      ground (arith, place_row-Outcome r p run w, drop_row-Outcome r p run w)
