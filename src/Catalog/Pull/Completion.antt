-- ===== src/Catalog/Pull/Completion.antt =====
-- The end of a pull from a peer that does not change in the meantime.
use jellysync.Common.{
  Str, str_eq_iff, ℕ, ◌+◌, ◌≤◌, ◌<◌, ◌≡◌, ◌∙◌, refl, sym, ap, ◌⊎◌, inl, inr, true, false, some,
  arith, zero, suc, Option-cases, Bool-cases, is_some,
}
use jellysync.Catalog.Entry.{ℤ, pos}
use jellysync.Catalog.Changes.Page.{next_above, select-Ascending}
use jellysync.Catalog.Index.{Index}
use jellysync.Catalog.Index.Valid.{IsValid}
use jellysync.Catalog.Changes.{
  Feed, ResetReason, too_old, changes, reset_reason_of, base_of, select, read_page, next_of,
}
use jellysync.Catalog.Pull.{Cursor, PeerDb, done, running, pull_loop}
use jellysync.Catalog.Pull.Follows.{Follows}
use jellysync.Catalog.Pull.Served.{IsPage, changes-IsPage}
use jellysync.Catalog.Pull.Convergence.{
  round_of, apply_page-round, round-Follows, round_done, rev-round, epoch-round,
}
use jellysync.Catalog.Pull.Termination.{
  serve, IsMirrorOf, seen_as-mirror_entry, settles, pull_loop-more, pull_loop-last, changes-total,
  is_empty_nil,
}

-- A pull from a valid index that does not change meanwhile, from any cursor and mirror that follow
-- it, with pages of at least one change, ends within `ix.head + 2` rounds and leaves exactly the
-- peer's offer as the mirror, if its first page is the last one or ends at or after the
-- revision up to which tombstones were dropped.
pub pull_completes :
    (ix : Index) (k fuel : ℕ) (c : Cursor) (d : PeerDb) (f : Feed)
    → IsValid ix
    → Follows ix c d.mirror
    → changes ix c.epoch (pos c.rev) (suc k) ≡ some f
    → (f.more ≡ false) ⊎ (ix.min_rev ≤ f.next)
    → ix.head + 1 < fuel
    → (e : PeerDb) × (pull_loop (serve ix (suc k)) fuel c d ≡ done e) × IsMirrorOf ix e.mirror
pull_completes ix k zero c d f v w served ok enough = absurd (omega arith)
pull_completes ix k (suc fuel) c d f v w served ok enough =
    let applied = apply_page-round ix c d (suc k) f v w served in
    let rises = rev-round ix c d (suc k) f v w served in
    elim (Bool-cases f.more) [
      | inl more ↦
          let (e, ends, is_mirror) =
            settles ix k fuel (round_of f c d).0 (round_of f c d).1 v
              (round-Follows ix c d (suc k) f v w served) (epoch-round ix c d (suc k) f v w served)
              (kept more ok rises) (omega (arith, enough)) in
          (e, pull_loop-more ix (suc k) fuel c d f served applied more ∙ ends, is_mirror)
      | inr last ↦ (
        (round_of f c d).1,
        pull_loop-last ix (suc k) fuel c d f served applied last,
        λ g.
            sym (seen_as-mirror_entry (round_of f c d).0.gen (round_of f c d).1.mirror g)
            ∙ round_done ix c d (suc k) f v w served last g,
      )
    ]
  where
    kept :
        f.more ≡ true
        → (f.more ≡ false) ⊎ (ix.min_rev ≤ f.next)
        → (round_of f c d).0.rev ≡ f.next
        → ix.min_rev ≤ (round_of f c d).0.rev
    kept more (inl last) r = cc
    kept more (inr l) r = omega (arith, r)

-- The page from the beginning stops short of the oldest tombstone kept.
pub record FallsShort (ix : Index) (limit next : ℕ) : Type 0 where
  pub next_is : next_of ix.head (read_page limit (select 0 ix.rows)) ≡ some next
  pub more_is : (read_page limit (select 0 ix.rows)).1 ≡ true
  pub short : next < ix.min_rev

too_old_again :
    (ix : Index) (n : ℕ) (epoch : Str)
    → IsValid ix
    → epoch ≡ ix.epoch
    → 0 < n
    → n < ix.min_rev
    → (r : ResetReason) × (reset_reason_of ix epoch (pos n) ≡ some r)
unfolding reset_reason_of
too_old_again ix n epoch v same p l =
    (too_old, ground (arith, str_eq_iff epoch ix.epoch, is_empty_nil epoch, v.named, v.retained))

from_start :
    (ix : Index) (epoch : Str) (since : ℤ) (limit : ℕ) (f : Feed) (r : ResetReason)
    → IsPage ix epoch since limit f
    → reset_reason_of ix epoch since ≡ some r
    → (f.more ≡ (read_page limit (select 0 ix.rows)).1)
      × (next_of ix.head (read_page limit (select 0 ix.rows)) ≡ some f.next)
unfolding base_of
from_start ix epoch since limit f r p e = (rw e at p.more_is, rw e at p.next_is)

restarts :
    (ix : Index) (k fuel next : ℕ) (c : Cursor) (d : PeerDb) (r : ResetReason)
    → IsValid ix
    → Follows ix c d.mirror
    → FallsShort ix (suc k) next
    → reset_reason_of ix c.epoch (pos c.rev) ≡ some r
    → (c' : Cursor) × (d' : PeerDb) × (pull_loop (serve ix (suc k)) fuel c d ≡ running c' d')
restarts ix k zero next c d r v w s e = (c, d, unfold pull_loop in refl)
restarts ix k (suc fuel) next c d r v w s e =
    let (f, served) = changes-total ix c.epoch (pos c.rev) k in
    let p = changes-IsPage ix c.epoch (pos c.rev) (suc k) f served in
    let (more, ends_at) = from_start ix c.epoch (pos c.rev) (suc k) f r p e in
    let same_next : f.next ≡ next = cc (ends_at, s.next_is) in
    let epoch_is = epoch-round ix c d (suc k) f v w served in
    let rev_is : (round_of f c d).0.rev ≡ next =
      rev-round ix c d (suc k) f v w served ∙ same_next in
    let above =
      next_above 0 ix.head (suc k) next (select 0 ix.rows) (select-Ascending ix v 0) s.more_is
        s.next_is in
    let (r', again) =
      too_old_again ix (round_of f c d).0.rev (round_of f c d).0.epoch v epoch_is (rw rev_is above)
        (rw rev_is s.short) in
    let (c', d', runs) =
      restarts ix k fuel next (round_of f c d).0 (round_of f c d).1 r' v
        (round-Follows ix c d (suc k) f v w served) s again in
    (
      c',
      d',
      pull_loop-more ix (suc k) fuel c d f served (apply_page-round ix c d (suc k) f v w served)
            (more ∙ s.more_is)
          ∙ runs,
    )

-- Where the first page is a reset, promises more, and ends before the revision up to which
-- tombstones were dropped, the pull from a valid index that does not change never ends: after any
-- number of rounds it still runs, since each page it asks for is reset to the beginning.
pub pull_never_ends :
    (ix : Index) (k fuel : ℕ) (c : Cursor) (d : PeerDb) (f : Feed)
    → IsValid ix
    → Follows ix c d.mirror
    → changes ix c.epoch (pos c.rev) (suc k) ≡ some f
    → f.reset ≡ true
    → f.more ≡ true
    → f.next < ix.min_rev
    → (c' : Cursor) × (d' : PeerDb) × (pull_loop (serve ix (suc k)) fuel c d ≡ running c' d')
pull_never_ends ix k fuel c d f v w served reset more short =
    let p = changes-IsPage ix c.epoch (pos c.rev) (suc k) f served in
    elim (Option-cases (reset_reason_of ix c.epoch (pos c.rev))) [
      | inl e ↦ absurd (cc (p.reset_is, ap is_some e, reset))
      | inr (r, e) ↦
          let (more_is, next_is) = from_start ix c.epoch (pos c.rev) (suc k) f r p e in
          restarts ix k fuel f.next c d r v w
            (record { next_is = next_is; more_is = sym more_is ∙ more; short = short }) e
    ]
