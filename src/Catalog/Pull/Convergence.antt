-- ===== src/Catalog/Pull/Convergence.antt =====
-- The mirror during a pull, against the index that its pages come from.
use jellysync.Common.{
  Str, ℕ, ◌≤◌, ◌≡◌, ◌∙◌, refl, sym, ap, ◌<◌, ◌⊎◌, Bool, true, false, not, some, arith,
  if◌then◌else◌, Option-cases, Bool-cases, inl, inr, is_some, ltb,
}
use jellysync.Common.Table.{Table, lookup, IsUnique, AllRows, retain-IsUnique, retain-AllRows}
use jellysync.Catalog.Entry.{pos}
use jellysync.Catalog.Index.{Index}
use jellysync.Catalog.Index.Valid.{IsValid}
use jellysync.Catalog.Changes.{Feed, changes, reset_reason_of, base_of, select}
use jellysync.Catalog.Changes.Page.{next_above, select-Ascending}
use jellysync.Catalog.Pull.{
  Mirrored, Cursor, PeerDb, apply_page, apply_changes, apply_all, restart, is_stuck, is_last,
  sweep_stale,
}
use jellysync.Catalog.Pull.Follows.{Follows, UpTo, AgreesAt, offered, seen_as, mirrored}
use jellysync.Catalog.Pull.Applied.{apply_all-IsUnique, apply_all-UpTo}
use jellysync.Catalog.Pull.Served.{
  IsPage, changes-IsPage, next_bound, next_last, swept_agrees, next_positive, AgreesAt-head,
  AgreesAt-zero,
}
use jellysync.Catalog.Pull.Start.{
  Starts, no_reason, restarted_Starts, restart_none, continued_Starts,
}

restart-rev : (f : Feed) (c : Cursor) → (restart f c).rev ≡ c.rev
unfolding restart
restart-rev f c = ground arith

-- The outcome of one round of the loop on a page that advances.
unfoldable pub round_of : Feed → Cursor → PeerDb → Cursor × PeerDb
round_of f c d =
    let c1 = restart f c in
    let sweep = is_last f c1 in
    let c2 = record c1 { rev = f.next; resync = if sweep then false else c1.resync } in
    (record c2 { requested = false }, apply_changes c2 f.changes sweep d)

swept_kept :
    (sweep : Bool) (gen : ℕ) (m : Table Mirrored)
    → IsUnique m
    → AllRows (UpTo gen) m
    → (let m' = if sweep then sweep_stale gen m else m in IsUnique m' × AllRows (UpTo gen) m')
unfolding sweep_stale
swept_kept true gen m u f = (
  retain-IsUnique (λ _ r. not (ltb r.gen gen)) m u,
  retain-AllRows (UpTo gen) (λ _ r. not (ltb r.gen gen)) m f,
)
swept_kept false gen m u f = (u, f)

-- One round of the loop on a page that the index served.
module _ (ix : Index) (c : Cursor) (d : PeerDb) (limit : ℕ) (f : Feed) (v : IsValid ix)
    (w : Follows ix c d.mirror) (served : changes ix c.epoch (pos c.rev) limit ≡ some f) where
  unfoldable pub base : ℕ
  base = base_of (reset_reason_of ix c.epoch (pos c.rev)) (pos c.rev)

  page : IsPage ix c.epoch (pos c.rev) limit f
  page = changes-IsPage ix c.epoch (pos c.rev) limit f served

  start_of_page : Starts ix (restart f c) d.mirror base
  unfolding base base_of
  start_of_page = elim (Option-cases (reset_reason_of ix c.epoch (pos c.rev))) [
    | inl e ↦
        rw
          (
            e,
            restart_none c f (page.epoch_is ∙ sym (no_reason ix c.epoch c.rev e).0)
                (page.reset_is ∙ ap is_some e),
          )
          (continued_Starts ix c d.mirror v e w)
    | inr (r, e) ↦
        rw e (restarted_Starts ix c d.mirror f v page.epoch_is (page.reset_is ∙ ap is_some e) w)
  ]

  pub reset_or_base : (f.reset ≡ true) ⊎ (base ≡ c.rev)
  unfolding base base_of
  reset_or_base = elim (Option-cases (reset_reason_of ix c.epoch (pos c.rev))) [
    | inl e ↦ inr (rw e refl)
    | inr (r, e) ↦ inl (page.reset_is ∙ ap is_some e)
  ]

  pub advances : f.more ≡ true → base < f.next
  unfolding base base_of
  advances t =
      next_above base ix.head limit f.next (select base ix.rows) (select-Ascending ix v base)
        (sym page.more_is ∙ t) page.next_is

  not_stuck : is_stuck f (restart f c) ≡ false
  unfolding is_stuck
  not_stuck = elim (Bool-cases f.more) [
    | inl t ↦ ground (arith, reset_or_base, advances t, restart-rev f c)
    | inr t ↦ ground arith
  ]

  pub apply_page-round : apply_page f c d ≡ some (round_of f c d)
  unfolding apply_page round_of
  apply_page-round = rw not_stuck refl

  at_round :
      (g : Str)
      → AgreesAt f.next (lookup g ix.rows) (mirrored (round_of f c d).0 (round_of f c d).1.mirror g)
  unfolding round_of base apply_changes sweep_stale restart
  at_round g =
      let s = start_of_page in
      rw page.changes_are (
        swept_agrees ix v (restart f c) d base limit f.next f.more s.unique s.gens s.start s.scratch
          page.more_is page.next_is (is_last f (restart f c)) refl g)

  mirror_kept :
      IsUnique (round_of f c d).1.mirror
      × AllRows (UpTo (round_of f c d).0.gen) (round_of f c d).1.mirror
  unfolding round_of apply_changes
  mirror_kept =
      swept_kept (is_last f (restart f c)) (restart f c).gen
        (apply_all (restart f c).gen f.changes d.mirror)
        (apply_all-IsUnique (restart f c).gen f.changes d.mirror start_of_page.unique)
        (apply_all-UpTo (restart f c).gen f.changes d.mirror start_of_page.gens)

  at_head :
      (g : Str)
      → f.next ≡ ix.head
      → mirrored (round_of f c d).0 (round_of f c d).1.mirror g ≡ offered ix g
  unfolding offered
  at_head g h =
      AgreesAt-head ix g (mirrored (round_of f c d).0 (round_of f c d).1.mirror g)
        (lookup g ix.rows) v refl (rw (← h) (at_round g))

  pub next_bounds :
      (f.next ≤ ix.head) × (f.next ≡ 0 → ix.head ≡ 0) × (f.more ≡ false → f.next ≡ ix.head)
  unfolding base
  next_bounds =
      let s = start_of_page in
      (
        next_bound ix v (restart f c) d base limit f.next f.more s.unique s.gens s.start s.scratch
            page.more_is page.next_is,
        next_positive ix v (restart f c) d base limit f.next f.more s.unique s.gens s.start
            s.scratch page.more_is page.next_is,
        next_last ix v (restart f c) d base limit f.next f.more s.unique s.gens s.start s.scratch
            page.more_is page.next_is,
      )

  pub rev-round : (round_of f c d).0.rev ≡ f.next
  unfolding round_of
  rev-round = refl

  settled : f.more ≡ false → (round_of f c d).0.resync ≡ false
  unfolding round_of
  settled e = ground arith

  pub epoch-round : (round_of f c d).0.epoch ≡ ix.epoch
  unfolding round_of
  epoch-round = start_of_page.epoch_is

  -- The round's mirror follows the index again.
  pub round-Follows : Follows ix (round_of f c d).0 (round_of f c d).1.mirror
  round-Follows = record {
    unique = mirror_kept.0;
    gens = mirror_kept.1;
    in_reach = λ e. omega (arith, next_bounds.0, rev-round);
    fresh = λ e z g.
        AgreesAt-zero ix g (mirrored (round_of f c d).0 (round_of f c d).1.mirror g)
          (lookup g ix.rows) v (next_bounds.1 (sym rev-round ∙ z)) refl
          (rw (← sym rev-round ∙ z) (at_round g));
    agrees = λ e k g. rw rev-round (at_round g);
  }

  -- After the last page the mirror is what the index offers.
  pub round_done :
      f.more ≡ false
      → (g : Str)
      → seen_as false (round_of f c d).0.gen (lookup g (round_of f c d).1.mirror) ≡ offered ix g
  round_done e g = rw (← settled e) (at_head g (next_bounds.2 e))
