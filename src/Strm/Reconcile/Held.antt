-- ===== src/Strm/Reconcile/Held.antt =====
-- strm.go: the files of a row while Reconcile processes it.
use jellysync.Common.{
  Str, str_eq_refl, ◌⊎◌, true, false, Option, some, ◌≡◌, ◌∙◌, sym, ap, arith, Option-cases, inl,
  inr, is_some,
}
use mathlib.Core.Path.{subst}
use jellysync.Common.Table.{lookup, lookup-delete, has}
use jellysync.Strm.Names.{Row}
use jellysync.Strm.Reconcile.{
  Environment, Config, Run, remove_strm, write_if_changed, desired_path, desired_content,
  moving_from, recorded, settle, write_strm, place_row, keeping_old, claiming, counted,
}
use jellysync.Strm.Reconcile.Frame.{
  Agree, moving_from-old, lookup-remove_strm, lookup-write_if_changed,
}
use jellysync.Strm.Reconcile.Apart.{keeping_old-same, keep_before}

module _ (env : Environment) (cfg : Config) where
  -- The row has its new file, or still the one at `o`; the sweep spares it.
  abbrev pub Held : Row → Str → Option Str → Run → Type 0
  Held r o before after =
      ((lookup (desired_path env cfg r) after.disk ≡ some (desired_content env cfg r))
        × (has (desired_path env cfg r) after.keep ≡ true))
      ⊎ ((lookup o after.disk ≡ before) × (has o after.keep ≡ true))

  settle_spares :
      (r : Row) (run : Run)
      → (lookup (desired_path env cfg r) (settle env cfg r run).disk
          ≡ lookup (desired_path env cfg r) run.disk)
        × (lookup (desired_path env cfg r) (settle env cfg r run).keep
            ≡ lookup (desired_path env cfg r) run.keep)
  unfolding settle recorded
  settle_spares r run = elim (Option-cases (moving_from env cfg r)) [
    | inl e ↦ ground arith
    | inr (q, e) ↦
        let old = moving_from-old env cfg r q e in
        elim (Option-cases (remove_strm env cfg q run.disk)) [
          | inl f ↦ ground arith
          | inr (d, f) ↦ ground (
            arith,
            lookup-remove_strm env cfg q (desired_path env cfg r) run.disk d f,
            lookup-delete q (desired_path env cfg r) run.keep,
          )
        ]
  ]

  write_strm-Held :
      (r : Row) (o : Str) (run : Run)
      → has (desired_path env cfg r) run.keep ≡ true
      → has o run.keep ≡ true
      → Held r o (lookup o run.disk) (write_strm env cfg r run)
  unfolding write_strm
  write_strm-Held r o run hd ho =
      elim (Option-cases
        (write_if_changed env cfg (desired_path env cfg r) (desired_content env cfg r) run.disk)) [
          | inl e ↦ inr (ground arith)
          | inr ((wrote, d), e) ↦
              let a =
                settle_spares r
                  (record run { disk = d; stats = counted env cfg wrote run.stats }) in
              let b =
                lookup-write_if_changed env cfg (desired_path env cfg r) (desired_content env cfg r)
                  (desired_path env cfg r) run.disk d wrote e in
              let c = str_eq_refl (desired_path env cfg r) in inl (ground arith)
        ]

  pub place_row-Held :
      (r : Row) (o : Str) (run : Run)
      → r.old_path ≡ some o
      → has (desired_path env cfg r) run.claimed ≡ false
      → Held r o (lookup o run.disk) (place_row env cfg r run)
  unfolding place_row
  place_row-Held r o run e c =
      let same = keeping_old-same env cfg r run in
      let a = keep_before env cfg r o run in
      let b = keep_before env cfg r (desired_path env cfg r) run in
      let x = str_eq_refl o in
      let y = str_eq_refl (desired_path env cfg r) in
      let h = write_strm-Held r o (claiming env cfg r (keeping_old env cfg r run)) in
      let hd : has (desired_path env cfg r) (claiming env cfg r (keeping_old env cfg r run)).keep
          ≡ true =
        ground arith in
      let ho : has o (claiming env cfg r (keeping_old env cfg r run)).keep ≡ true = ground arith in
      let w : place_row env cfg r run
          ≡ write_strm env cfg r (claiming env cfg r (keeping_old env cfg r run)) =
        ground arith in
      subst (λ x. Held r o (lookup o x) (place_row env cfg r run)) same.0
        (subst (Held r o (lookup o (keeping_old env cfg r run).disk)) (sym w) (h hd ho))

  pub Held-Agree :
      (r : Row) (o : Str) (before : Option Str) (a b : Run)
      → Agree env cfg (desired_path env cfg r) a b
      → Agree env cfg o a b
      → Held r o before b
      → Held r o before a
  Held-Agree r o before a b d e (inl h) = inl (d.0 ∙ h.0, ap is_some d.1 ∙ h.1)
  Held-Agree r o before a b d e (inr h) = inr (e.0 ∙ h.0, ap is_some e.1 ∙ h.1)
