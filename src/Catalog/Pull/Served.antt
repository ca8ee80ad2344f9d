-- ===== src/Catalog/Pull/Served.antt =====
-- What a page that an index served does to a mirror that may start it.
use jellysync.Common.{
  Str, ℕ, ◌≤◌, ◌<◌, ◌≡◌, inl, inr, sym, ◌∙◌, Bool, true, false, not, ◌&&◌, Option, none, some, map,
  arith, if◌then◌else◌, is_some, Option-cases, Bool-cases,
}
use jellysync.Common.Table.{lookup, IsUnique, AllRows, lookup-AllRows}
use jellysync.Catalog.Entry.{Entry, ℤ}
use jellysync.Catalog.Index.{Index, Row}
use jellysync.Catalog.Index.Valid.{Fits, IsValid}
use jellysync.Catalog.Changes.{
  Feed, feed_of, changes, reset_reason_of, base_of, select, to_change, read_page, next_of,
}
use jellysync.Catalog.Changes.Page.{
  read_page-take, read_page-eq-take, read_page-more, next_above, select-Ascending, select-Fits,
}
use jellysync.Catalog.Changes.Page
use jellysync.Catalog.Pull.{Cursor, PeerDb, sweep_stale}
use jellysync.Catalog.Pull.Follows.{UpTo, AgreesAt, offer_of, mirrored}
use jellysync.Catalog.Pull.Applied.{
  page_agrees, seen-sweep, apply_all-IsUnique, apply_all-UpTo, AfterPage, page_rows,
}

-- What a page says of the index that it was read from.
pub record IsPage (ix : Index) (epoch : Str) (since : ℤ) (limit : ℕ) (f : Feed) : Type 0 where
  pub epoch_is : f.epoch ≡ ix.epoch
  pub head_is : f.head ≡ ix.head
  pub reset_is : f.reset ≡ is_some (reset_reason_of ix epoch since)
  pub changes_are :
      f.changes
      ≡ map to_change (page_rows ix (base_of (reset_reason_of ix epoch since) since) limit)
  pub more_is :
      f.more ≡ (read_page limit (select (base_of (reset_reason_of ix epoch since) since) ix.rows)).1
  pub next_is :
      next_of ix.head
        (read_page limit (select (base_of (reset_reason_of ix epoch since) since) ix.rows))
      ≡ some f.next

feed_of-IsPage :
    (ix : Index) (epoch : Str) (since : ℤ) (limit : ℕ) (f : Feed)
    → (let reason = reset_reason_of ix epoch since in
        let page = read_page limit (select (base_of reason since) ix.rows) in
        feed_of ix reason page (next_of ix.head page) ≡ some f)
    → IsPage ix epoch since limit f
unfolding feed_of
feed_of-IsPage ix epoch since limit f e =
    let reason = reset_reason_of ix epoch since in
    let rows = select (base_of reason since) ix.rows in
    elim (Option-cases (next_of ix.head (read_page limit rows))) [
      | inl stuck ↦ absurd (cc)
      | inr (next, found) ↦ record {
        epoch_is = ground arith;
        head_is = ground arith;
        reset_is = ground arith;
        changes_are = ground (arith, read_page-eq-take limit rows);
        more_is = ground arith;
        next_is = ground arith;
      }
    ]

pub changes-IsPage :
    (ix : Index) (epoch : Str) (since : ℤ) (limit : ℕ) (f : Feed)
    → changes ix epoch since limit ≡ some f
    → IsPage ix epoch since limit f
unfolding changes
changes-IsPage ix epoch since limit f e =
    feed_of-IsPage ix epoch since limit f (rw read_page-take at e)

-- The part of the cursor that a page replaces, and the mirror after its changes, before any sweep.
abbrev pub turned : Cursor → ℕ → Bool → Cursor
turned c next sweep = record c {
  rev = next;
  resync = if sweep then false else c.resync;
  requested = false;
}

module _ (ix : Index) (v : IsValid ix) (c : Cursor) (d : PeerDb) (base limit next : ℕ) (more : Bool)
    (unique : IsUnique d.mirror) (gens : AllRows (UpTo c.gen) d.mirror)
    (start : (g : Str) → AgreesAt base (lookup g ix.rows) (mirrored c d.mirror g))
    (scratch : base ≡ 0 → (g : Str) → mirrored c d.mirror g ≡ none)
    (more_is : more ≡ (read_page limit (select base ix.rows)).1)
    (next_is : next_of ix.head (read_page limit (select base ix.rows)) ≡ some next) where
  pub agrees_after :
      (g : Str)
      → AgreesAt next (lookup g ix.rows) (mirrored c (AfterPage ix c d.mirror base limit) g)
  agrees_after g =
      page_agrees ix v c d.mirror base limit next next_is g (λ z. scratch z g) (start g)

  pub next_bound : next ≤ ix.head
  next_bound =
      Page.next-le-head ix.head ix.min_rev limit next (select base ix.rows) (select-Fits ix v base)
        next_is

  -- The last page ends at the head.
  pub next_last : more ≡ false → next ≡ ix.head
  unfolding next_of
  next_last e = ground arith

  -- With the resync over, or none running, the rows of the mirror are what counts.
  pub swept_agrees :
      (sweep : Bool)
      → sweep ≡ not more && c.resync
      → (g : Str)
      → AgreesAt next (lookup g ix.rows) (
          mirrored
            (turned c next sweep)
            (if sweep
              then sweep_stale c.gen (AfterPage ix c d.mirror base limit)
              else AfterPage ix c d.mirror base limit)
            g)
  swept_agrees true e g = ground (
    arith,
    agrees_after g,
    seen-sweep c (AfterPage ix c d.mirror base limit) g
        (apply_all-IsUnique c.gen (map to_change (page_rows ix base limit)) d.mirror unique)
        (apply_all-UpTo c.gen (map to_change (page_rows ix base limit)) d.mirror gens),
  )
  swept_agrees false e g = agrees_after g

  pub next_positive : next ≡ 0 → ix.head ≡ 0
  next_positive z = elim (Bool-cases more) [
    | inl t ↦ absurd (
        omega (
          arith,
          z,
          next_above base ix.head limit next (select base ix.rows) (select-Ascending ix v base)
              (sym more_is ∙ t) next_is,
        ))
    | inr f ↦ sym (next_last f) ∙ z
  ]

pub rows_below :
    (ix : Index) (g : Str) (r : Row)
    → IsValid ix
    → lookup g ix.rows ≡ some r
    → (0 < r.rev) × (r.rev ≤ ix.head)
rows_below ix g r v e =
    let f = lookup-AllRows (Fits ix.head ix.min_rev) g r ix.rows v.fits e in (f.1, f.2)

-- Up to the head, the mirror is the offer; and at a head of 0 nothing is offered.
pub AgreesAt-head :
    (ix : Index) (g : Str) (e : Option Entry) (o : Option Row)
    → IsValid ix
    → lookup g ix.rows ≡ o
    → AgreesAt ix.head o e
    → e ≡ offer_of o
AgreesAt-head ix g e none v found a = a
AgreesAt-head ix g e (some r) v found a = ground (arith, rows_below ix g r v found)

pub AgreesAt-zero :
    (ix : Index) (g : Str) (e : Option Entry) (o : Option Row)
    → IsValid ix
    → ix.head ≡ 0
    → lookup g ix.rows ≡ o
    → AgreesAt 0 o e
    → e ≡ none
AgreesAt-zero ix g e none v z found a = a
AgreesAt-zero ix g e (some r) v z found a = absurd (omega (arith, z, rows_below ix g r v found))
