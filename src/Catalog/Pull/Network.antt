-- ===== src/Catalog/Pull/Network.antt =====
-- A node that changes while another one pulls from it, in any order of steps.
use jellysync.Common.{
  Str, ℕ, ◌≡◌, ◌≢◌, ◌∙◌, sym, Bool, true, false, Option, none, some, List, [], suc, if◌then◌else◌,
}
use mathlib.Core.Path.{subst}
use jellysync.Common.Table.{Table, IsUnique, AllRows}
use jellysync.Catalog.Entry.{Entry, pos}
use jellysync.Catalog.Hidden.{Hides}
use jellysync.Catalog.Index.{Index, refresh}
use jellysync.Catalog.Index.Valid.{IsValid}
use jellysync.Catalog.Changes.{Feed, changes}
use jellysync.Catalog.Pull.{
  Mirrored, Cursor, SyncRow, PeerDb, load_cursor, save_cursor, request_resync, mark_synced,
  apply_page, apply_changes, no_cursor,
}
use jellysync.Catalog.Pull.Follows.{Follows, UpTo, refresh-Follows}
use jellysync.Catalog.Pull.Convergence.{round_of, apply_page-round, round-Follows, round_done}
use jellysync.Catalog.Pull.Termination.{IsMirrorOf, seen_as-mirror_entry}

-- The peer's index, and this node's database and the cursor of its pull.
pub record Network : Type 0 where
  pub index : Index
  pub cursor : Cursor
  pub db : PeerDb

pub data Step : Network → Network → Type 0 where
  -- the peer re-reads its library
  refreshed :
      (n : Network) (content_hash : Entry → Str) (hidden : Hides) (now : ℕ) (es : List Entry)
      → Step n (record n { index = (refresh content_hash hidden now es n.index).index })
  -- the peer's database is made anew, under an epoch that this node has not stored
  recreated :
      (n : Network) (ix : Index)
      → IsValid ix
      → ix.epoch ≢ n.cursor.epoch
      → ix.epoch ≢ (load_cursor n.db.state).epoch
      → Step n (record n { index = ix })
  -- a pull begins from what the database holds: a new cycle, after an error, or after a restart
  begun : (n : Network) → Step n (record n { cursor = load_cursor n.db.state })
  -- one page of at least one change is fetched and applied
  pulled :
      (n : Network) (k : ℕ) (f : Feed) (c : Cursor) (d : PeerDb)
      → changes n.index n.cursor.epoch (pos n.cursor.rev) (suc k) ≡ some f
      → apply_page f n.cursor n.db ≡ some (c, d)
      → Step n (record n { cursor = c; db = d })
  -- the user asks for a full resync, also while a pull runs
  requested : (n : Network) → Step n (record n { db = request_resync n.db })
  synced : (n : Network) (now : ℕ) → Step n (record n { db = mark_synced now n.db })

pub data Reach (s : Network) : Network → Type 0 where
  here : Reach s s
  next : {t u : Network} → Reach s t → Step t u → Reach s u

pub record IsSound (n : Network) : Type 0 where
  pub valid : IsValid n.index
  pub running : Follows n.index n.cursor n.db.mirror
  pub stored : Follows n.index (load_cursor n.db.state) n.db.mirror

-- A cursor of no epoch follows any index.
Follows-forgotten :
    (ix : Index) (c : Cursor) (m : Table Mirrored)
    → ix.epoch ≢ c.epoch
    → IsUnique m
    → AllRows (UpTo c.gen) m
    → Follows ix c m
Follows-forgotten ix c m e u g = record {
  unique = u;
  gens = g;
  in_reach = λ s. absurd (e (sym s));
  fresh = λ s. absurd (e (sym s));
  agrees = λ s. absurd (e (sym s));
}

Follows-request :
    (ix : Index) (c : Cursor) (m : Table Mirrored) (b : Bool)
    → Follows ix c m
    → Follows ix (record c { requested = b }) m
Follows-request ix c m b w = record {
  unique = w.unique;
  gens = w.gens;
  in_reach = w.in_reach;
  fresh = w.fresh;
  agrees = w.agrees;
}

request_stored :
    (ix : Index) (o : Option SyncRow) (m : Table Mirrored)
    → IsValid ix
    → Follows ix (load_cursor o) m
    → Follows ix (load_cursor (request_resync (record { state = o; mirror = m })).state) m
unfolding load_cursor request_resync
request_stored ix none m v w = Follows-forgotten ix _ m v.named w.unique w.gens
request_stored ix (some r) m v w = Follows-forgotten ix _ m v.named w.unique w.gens

synced_stored :
    (ix : Index) (now : ℕ) (o : Option SyncRow) (m : Table Mirrored)
    → Follows ix (load_cursor o) m
    → Follows ix (load_cursor (mark_synced now (record { state = o; mirror = m })).state) m
unfolding load_cursor mark_synced
synced_stored ix now none m w = w
synced_stored ix now (some r) m w = w

saved_as :
    (ix : Index) (c : Cursor) (m : Table Mirrored) (b : Bool)
    → IsValid ix
    → Follows ix (record c { requested = false }) m
    → Follows ix
        (record {
          epoch = if b then [] else c.epoch;
          rev = if b then 0 else c.rev;
          gen = c.gen;
          resync = c.resync;
          requested = b;
        })
        m
saved_as ix c m true v w = Follows-forgotten ix _ m v.named w.unique w.gens
saved_as ix c m false v w = w

load-save :
    (ix : Index) (c : Cursor) (o : Option SyncRow) (m : Table Mirrored)
    → IsValid ix
    → Follows ix (record c { requested = false }) m
    → Follows ix (load_cursor (some (save_cursor c o))) m
unfolding load_cursor save_cursor
load-save ix c none m v w = saved_as ix c m false v w
load-save ix c (some r) m v w =
    saved_as ix c m (if c.requested then false else r.resync_requested) v w

load-round :
    (ix : Index) (f : Feed) (c : Cursor) (d : PeerDb) (m : Table Mirrored)
    → IsValid ix
    → Follows ix (round_of f c d).0 m
    → Follows ix (load_cursor (round_of f c d).1.state) m
unfolding round_of apply_changes
load-round ix f c d m v w = load-save ix _ d.state m v w

abbrev AfterPage : Network → Cursor × PeerDb → Type 0
AfterPage n p = IsSound (record n { cursor = p.0; db = p.1 })

Step-IsSound : {n n' : Network} → Step n n' → IsSound n → IsSound n'
Step-IsSound (refreshed n content_hash hidden now es) s = record {
  valid =
      (refresh-Follows content_hash hidden now es n.index n.cursor n.db.mirror s.valid s.running).0;
  running =
      (refresh-Follows content_hash hidden now es n.index n.cursor n.db.mirror s.valid s.running).1;
  stored =
      (refresh-Follows content_hash hidden now es n.index (load_cursor n.db.state) n.db.mirror
        s.valid s.stored).1;
}
Step-IsSound (recreated n ix v other stored) s = record {
  valid = v;
  running = Follows-forgotten ix n.cursor n.db.mirror other s.running.unique s.running.gens;
  stored =
      Follows-forgotten ix (load_cursor n.db.state) n.db.mirror stored s.stored.unique
        s.stored.gens;
}
Step-IsSound (begun n) s = record { valid = s.valid; running = s.stored; stored = s.stored }
Step-IsSound (pulled n k f c d served applied) s =
    let same : round_of f n.cursor n.db ≡ (c, d) =
      cc (apply_page-round n.index n.cursor n.db (suc k) f s.valid s.running served, applied) in
    let w = round-Follows n.index n.cursor n.db (suc k) f s.valid s.running served in
    subst (AfterPage n) same (record {
      valid = s.valid;
      running = w;
      stored = load-round n.index f n.cursor n.db (round_of f n.cursor n.db).1.mirror s.valid w;
    })
Step-IsSound (requested n) s = record {
  valid = s.valid;
  running = unfold request_resync in s.running;
  stored = unfold request_resync in request_stored n.index n.db.state n.db.mirror s.valid s.stored;
}
Step-IsSound (synced n now) s = record {
  valid = s.valid;
  running = unfold mark_synced in s.running;
  stored = unfold mark_synced in synced_stored n.index now n.db.state n.db.mirror s.stored;
}

-- In every reachable state both the running pull and the stored cursor are sound.
Reach-IsSound : {s n : Network} → IsSound s → Reach s n → IsSound n
Reach-IsSound h here = h
Reach-IsSound h (next r st) = Step-IsSound st (Reach-IsSound h r)

-- In any state reached from a sound one by refreshes, recreations of the peer's database, pages,
-- new pulls, resync requests and recorded successes in any order, a page with no more to come is
-- accepted, and after it the mirror holds exactly what the peer offers at that moment.
pub last_page-IsMirrorOf :
    (s n : Network) (k : ℕ) (f : Feed)
    → IsSound s
    → Reach s n
    → changes n.index n.cursor.epoch (pos n.cursor.rev) (suc k) ≡ some f
    → f.more ≡ false
    → (c : Cursor) × (d : PeerDb) × (apply_page f n.cursor n.db ≡ some (c, d))
      × IsMirrorOf n.index d.mirror
last_page-IsMirrorOf s n k f h r served last =
    let sound = Reach-IsSound h r in
    let after = round_of f n.cursor n.db in
    (
      after.0,
      after.1,
      apply_page-round n.index n.cursor n.db (suc k) f sound.valid sound.running served,
      λ g.
          sym (seen_as-mirror_entry after.0.gen after.1.mirror g)
          ∙ round_done n.index n.cursor n.db (suc k) f sound.valid sound.running served last g,
    )

-- A node that never pulled, before any valid index of a peer.
unfoldable pub first_contact : Index → Network
first_contact ix = record {
  index = ix;
  cursor = no_cursor;
  db = record { state = none; mirror = [] };
}

pub first_contact-IsSound : (ix : Index) → IsValid ix → IsSound (first_contact ix)
unfolding first_contact load_cursor
first_contact-IsSound ix v =
    let w = Follows-forgotten ix no_cursor [] v.named tt tt in
    record { valid = v; running = w; stored = w }
