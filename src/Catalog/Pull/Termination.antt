-- ===== src/Catalog/Pull/Termination.antt =====
-- The rounds of a pull of an index that does not change.
use jellysync.Common.{
  Str, ℕ, ◌+◌, ◌≤◌, ◌<◌, ◌≡◌, ◌∙◌, refl, sym, Bool, true, false, Option, none, some, arith, List,
  [], ◌∷◌, str_eq_iff, is_empty, zero, suc, Bool-cases, inl, inr,
}
use jellysync.Common.Table.{Table, lookup}
use jellysync.Catalog.Entry.{Entry, pos, ℤ}
use jellysync.Catalog.Index.{Index}
use jellysync.Catalog.Index.Valid.{IsValid}
use jellysync.Catalog.Changes.{
  Change, Feed, ResetReason, changes, feed_of, reset_reason_of, base_of, select, read_page,
}
use jellysync.Catalog.Changes.Page.{read_page-take, next_of-total}
use jellysync.Catalog.Pull.{
  Mirrored, Cursor, PeerDb, Answer, page, failed, done, apply_page, pull_loop,
}
use jellysync.Catalog.Pull.Follows.{Follows, offered, seen_as}
use jellysync.Catalog.Pull.Convergence.{
  round_of, apply_page-round, round-Follows, round_done, advances, rev-round, epoch-round, base,
}

-- A peer that answers from one index, `limit` changes to a page.
unfoldable pub serve : Index → ℕ → Str → ℕ → Answer
serve ix limit epoch since = elim (changes ix epoch (pos since) limit) [
  | none ↦ failed
  | some f ↦ page f
]

-- The entry that the mirror holds under an id.
abbrev entry_of : Option Mirrored → Option Entry
entry_of none = none
entry_of (some x) = some x.entry

unfoldable pub mirror_entry : Table Mirrored → Str → Option Entry
mirror_entry m g = entry_of (lookup g m)

abbrev pub IsMirrorOf : Index → Table Mirrored → Type 0
IsMirrorOf ix m = (g : Str) → mirror_entry m g ≡ offered ix g

pub seen_as-mirror_entry :
    (gen : ℕ) (m : Table Mirrored) (g : Str) → seen_as false gen (lookup g m) ≡ mirror_entry m g
unfolding mirror_entry
seen_as-mirror_entry gen m g = by_cases (lookup g m)
  where
    by_cases : (o : Option Mirrored) → seen_as false gen o ≡ entry_of o
    by_cases none = refl
    by_cases (some x) = refl

feed_of-total :
    (ix : Index) (reason : Option ResetReason) (cs : List Change × Bool) (next : ℕ)
    → (f : Feed) × (feed_of ix reason cs (some next) ≡ some f)
unfolding feed_of
feed_of-total ix reason cs next = (_, refl)

-- A request for at least one change is answered by a page.
pub changes-total :
    (ix : Index) (epoch : Str) (since : ℤ) (k : ℕ)
    → (f : Feed) × (changes ix epoch since (suc k) ≡ some f)
unfolding changes
changes-total ix epoch since k =
    let reason = reset_reason_of ix epoch since in
    let rows = select (base_of reason since) ix.rows in
    let (next, e) = next_of-total ix.head k rows in
    let (f, is_f) = feed_of-total ix reason (read_page (suc k) rows) next in
    (f, rw (read_page-take, e) is_f)

-- One round of the loop.
module _ (ix : Index) (limit fuel : ℕ) (c : Cursor) (d : PeerDb) (f : Feed)
    (served : changes ix c.epoch (pos c.rev) limit ≡ some f)
    (applied : apply_page f c d ≡ some (round_of f c d)) where
  pub pull_loop-more :
      f.more ≡ true
      → pull_loop (serve ix limit) (suc fuel) c d
        ≡ pull_loop (serve ix limit) fuel (round_of f c d).0 (round_of f c d).1
  unfolding pull_loop serve
  pull_loop-more t = simp (served, applied, t, pull_loop, serve)

  pub pull_loop-last :
      f.more ≡ false → pull_loop (serve ix limit) (suc fuel) c d ≡ done (round_of f c d).1
  unfolding pull_loop serve
  pull_loop-last t = simp (served, applied, t, pull_loop, serve)

pub is_empty_nil : (s : Str) → is_empty s ≡ true → s ≡ []
is_empty_nil [] e = refl
is_empty_nil (a ∷ s) e = cc

no_reset :
    (ix : Index) (epoch : Str) (rev : ℕ)
    → IsValid ix
    → epoch ≡ ix.epoch
    → rev ≤ ix.head
    → ix.min_rev ≤ rev
    → reset_reason_of ix epoch (pos rev) ≡ none
unfolding reset_reason_of
no_reset ix epoch rev v same low kept =
    ground (arith, str_eq_iff epoch ix.epoch, is_empty_nil epoch, v.named)

base_kept :
    (ix : Index) (c : Cursor) (d : PeerDb) (limit : ℕ) (f : Feed) (v : IsValid ix)
    (w : Follows ix c d.mirror) (served : changes ix c.epoch (pos c.rev) limit ≡ some f)
    → c.epoch ≡ ix.epoch
    → ix.min_rev ≤ c.rev
    → base ix c d limit f v w served ≡ c.rev
unfolding base base_of
base_kept ix c d limit f v w served same kept =
    rw (no_reset ix c.epoch c.rev v same (w.in_reach same) kept) refl

-- A pull from a valid index that does not change, whose cursor is of the index's epoch and not
-- below the dropped tombstones, and whose mirror follows it, ends within `ix.head + 1 - c.rev`
-- rounds of at least one change each, and leaves exactly the peer's offer as the mirror.
pub settles :
    (ix : Index) (k fuel : ℕ) (c : Cursor) (d : PeerDb)
    → IsValid ix
    → Follows ix c d.mirror
    → c.epoch ≡ ix.epoch
    → ix.min_rev ≤ c.rev
    → ix.head < c.rev + fuel
    → (e : PeerDb) × (pull_loop (serve ix (suc k)) fuel c d ≡ done e) × IsMirrorOf ix e.mirror
settles ix k zero c d v w same kept enough = absurd (omega (arith, w.in_reach same))
settles ix k (suc fuel) c d v w same kept enough =
    let (f, served) = changes-total ix c.epoch (pos c.rev) k in
    elim (Bool-cases f.more) [
      | inl more ↦
          let rises = rev-round ix c d (suc k) f v w served in
          let climbs =
            rw (base_kept ix c d (suc k) f v w served same kept) at
              (advances ix c d (suc k) f v w served more) in
          let (e, ends, is_mirror) =
            settles ix k fuel (round_of f c d).0 (round_of f c d).1 v
              (round-Follows ix c d (suc k) f v w served) (epoch-round ix c d (suc k) f v w served)
              (omega (arith, climbs, rises)) (omega (arith, climbs, rises, enough)) in
          (
            e,
            pull_loop-more ix (suc k) fuel c d f served
                  (apply_page-round ix c d (suc k) f v w served) more
                ∙ ends,
            is_mirror,
          )
      | inr last ↦ (
        (round_of f c d).1,
        pull_loop-last ix (suc k) fuel c d f served (apply_page-round ix c d (suc k) f v w served)
            last,
        λ g.
            sym (seen_as-mirror_entry (round_of f c d).0.gen (round_of f c d).1.mirror g)
            ∙ round_done ix c d (suc k) f v w served last g,
      )
    ]
