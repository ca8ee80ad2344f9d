-- ===== src/Catalog/Sync.antt =====
-- internal/catalog/catalog.go: one synchronisation (Sync), composed of the refresh or the check of
-- the index, the pulls, and the election.
pub mod Served
pub mod Elects
use jellysync.Common.{
  Str, ℕ, ◌-◌, Bool, true, false, Option, none, some, List, [], ◌∷◌, ◌++◌, length, if◌then◌else◌,
  ◌&&◌, not,
}
use jellysync.Common.Table.{Table, lookup, insert, retain}
use jellysync.Catalog.Entry.{Entry}
use jellysync.Catalog.Hidden.{Hides}
use jellysync.Catalog.Folders.{Exclusions, contains}
use jellysync.Catalog.Index.{Index, RefreshStats, no_stats, try_refresh, ensure_indexed}
use jellysync.Catalog.Pull.{
  PeerDb, Mirrored, Answer, PullEnd, done, gave_up, running, legacy, pull_peer,
}
use jellysync.Catalog.Election.{Offer, elect}
use jellysync.Catalog.Items.{Item, write_election}
use jellysync.Peers.Registry.{Peer, online, degraded, offline, disabled, offering}

-- What the database keeps of the catalogs.
pub record Library : Type 0 where
  pub index : Index
  pub mirrors : Table PeerDb
  pub excluded : Exclusions
  pub hidden : Hides
  pub items : Table Item

-- What one run is told from outside. Times are in seconds, those of the registry in nanoseconds.
pub record World : Type 0 where
  pub content_hash : Entry → Str
  pub listing : Option (List Entry)
  pub feed_of : Str → Str → ℕ → Answer
  pub catalog_of : Str → Option (List Entry)
  pub rounds : ℕ
  pub now : ℕ
  pub clock : ℕ
  pub pruned : Bool
  pub elected : Bool
  pub saved : Bool

pub record SyncStats : Type 0 where
  pub local : RefreshStats
  pub local_refreshed : Bool
  pub peers_skipped : ℕ

pub record Synced : Type 0 where
  pub library : Library
  pub stats : SyncStats
  pub ok : Bool

abbrev pub no_sync : SyncStats
no_sync = record { local = no_stats 0; local_refreshed = false; peers_skipped = 0 }

unfoldable pub is_online : Peer → Bool
is_online p = elim p.state [ online ↦ true | degraded ↦ false | offline ↦ false | disabled ↦ false ]

unfoldable pub online_peers : List Peer → List Peer
online_peers [] = []
online_peers (p ∷ ps) = let rest = online_peers ps in if is_online p then p ∷ rest else rest

-- The set offeringIDs.
unfoldable pub offering_ids : ℕ → List Peer → List Str
offering_ids clock [] = []
offering_ids clock (p ∷ ps) =
    let rest = offering_ids clock ps in
    if is_online p then p.id ∷ rest else if offering p clock then p.id ∷ rest else rest

abbrev pub mirror_of : Option PeerDb → PeerDb
mirror_of none = record { state = none; mirror = [] }
mirror_of (some d) = d

-- What a pull leaves of a peer's rows, wherever it stopped.
abbrev pub left_by : PullEnd → PeerDb
left_by (done d) = d
left_by (gave_up d) = d
left_by (running c d) = d
left_by (legacy c d) = d

unfoldable pub pull_one : World → Peer → Table PeerDb → Table PeerDb
pull_one w p mirrors =
    insert p.id
      (left_by (
        pull_peer (w.feed_of p.id) (w.catalog_of p.id) w.rounds w.now
          (mirror_of (lookup p.id mirrors))))
      mirrors

-- pullPeers. The pulls run at once, each on the rows of its own peer; here they run in a row.
unfoldable pub pull_peers : World → List Peer → Table PeerDb → Table PeerDb
pull_peers w [] mirrors = mirrors
pull_peers w (p ∷ ps) mirrors = pull_peers w ps (pull_one w p mirrors)

abbrev pub peer_ids : List Peer → List Str
peer_ids [] = []
peer_ids (p ∷ ps) = p.id ∷ peer_ids ps

-- pruneRemovedPeers
unfoldable pub prune_removed_peers : List Peer → Library → Library
prune_removed_peers known l = record l {
  mirrors = retain (λ id _. contains id (peer_ids known)) l.mirrors;
  excluded = retain (λ id _. contains id (peer_ids known)) l.excluded;
}

unfoldable pub offers_of : Str → Table Mirrored → List Offer
offers_of peer [] = []
offers_of peer ((g, m) ∷ rows) =
    record { peer_id = peer; global_id = g; entry = m.entry } ∷ offers_of peer rows

-- The rows of peer_catalog.
unfoldable pub all_offers : Table PeerDb → List Offer
unfolding offers_of
all_offers [] = []
all_offers ((peer, d) ∷ mirrors) = offers_of peer d.mirror ++ all_offers mirrors

-- The election and its transaction, of the peers that count.
unfoldable pub run_election : World → List Peer → Library → Library
unfolding all_offers
run_election w known l =
    let el =
      elect (λ id. contains id (offering_ids w.clock known)) l.hidden l.excluded l.index.rows
        (all_offers l.mirrors) in
    let written = write_election w.now el.0 el.1 l.hidden l.items in
    record l { items = written.0.items; hidden = written.1 }

-- The first step: the index, and what the run says of it.
unfoldable pub index_step : World → Bool → Library → Option (Index × SyncStats)
index_step w true l = elim (try_refresh w.content_hash l.hidden w.now w.listing l.index) [
  | none ↦ none
  | some work ↦ some (work.index, record no_sync { local = work.stats; local_refreshed = true })
]
index_step w false l = elim (ensure_indexed w.content_hash l.hidden w.now w.listing l.index) [
  | none ↦ none
  | some ix ↦ some (ix, no_sync)
]

-- The steps after the index.
unfoldable pub pull_and_elect : World → List Peer → SyncStats → Library → Synced
unfolding pull_peers prune_removed_peers run_election
pull_and_elect w known st l =
    let st1 = record st { peers_skipped = length known - length (online_peers known) } in
    let pulled = record l { mirrors = pull_peers w (online_peers known) l.mirrors } in
    let kept = prune_removed_peers known pulled in
    if not w.pruned
    then record { library = pulled; stats = st1; ok = false }
    else if not (w.elected && w.saved)
    then record { library = kept; stats = st1; ok = false }
    else record { library = run_election w known kept; stats = st1; ok = true }

-- Sync
unfoldable pub sync : World → Bool → List Peer → Library → Synced
unfolding index_step pull_and_elect
sync w refresh_local known l = elim (index_step w refresh_local l) [
  | none ↦ record { library = l; stats = no_sync; ok = false }
  | some (ix, st) ↦ pull_and_elect w known st (record l { index = ix })
]
