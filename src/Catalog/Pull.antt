-- ===== src/Catalog/Pull.antt =====
-- internal/catalog/pull.go: following a peer's change feed into this node's mirror of its catalog.
-- The state is what the database holds for one peer: its row of peer_sync_state, if there is one,
-- and its rows of peer_catalog. What the peer answers is an argument.
pub mod Follows
pub mod Applied
pub mod Served
pub mod Start
pub mod Convergence
pub mod Termination
pub mod Completion
pub mod Network
pub mod Examples
use jellysync.Common.{
  Str, str_eq, ℕ, zero, suc, ◌+◌, Bool, true, false, not, ◌&&◌, ◌||◌, Option, none, some, List, [],
  ◌∷◌, ltb, leb, if◌then◌else◌,
}
use jellysync.Common.Table.{Table, insert, delete, retain}
use jellysync.Catalog.Entry.{Entry}
use jellysync.Catalog.Changes.{Change, Feed}

pub record Mirrored : Type 0 where
  pub entry : Entry
  pub gen : ℕ

pub record SyncRow : Type 0 where
  pub epoch : Str
  pub rev : ℕ
  pub gen : ℕ
  pub resync : Bool
  pub resync_requested : Bool
  pub synced_at : ℕ

pub record PeerDb : Type 0 where
  pub state : Option SyncRow
  pub mirror : Table Mirrored

pub record Cursor : Type 0 where
  pub epoch : Str
  pub rev : ℕ
  pub gen : ℕ
  pub resync : Bool
  pub requested : Bool

abbrev pub no_cursor : Cursor
no_cursor = record { epoch = []; rev = 0; gen = 0; resync = false; requested = false }

unfoldable pub load_cursor : Option SyncRow → Cursor
load_cursor none = no_cursor
load_cursor (some r) = record {
  epoch = if r.resync_requested then [] else r.epoch;
  rev = if r.resync_requested then 0 else r.rev;
  gen = r.gen;
  resync = r.resync;
  requested = r.resync_requested;
}

-- The column defaults of peer_sync_state stand in a row that only the request creates.
unfoldable pub request_resync : PeerDb → PeerDb
request_resync d = record d {
  state = some (elim d.state [
    | none ↦ record {
      epoch = [];
      rev = 0;
      gen = 0;
      resync = false;
      resync_requested = true;
      synced_at = 0;
    }
    | some r ↦ record r { resync_requested = true }
  ]);
}

unfoldable pub mark_synced : ℕ → PeerDb → PeerDb
mark_synced now d = record d {
  state = elim d.state [ none ↦ none | some r ↦ some (record r { synced_at = now }) ];
}

-- The upsert of the cursor at the head of each page's transaction.
unfoldable pub save_cursor : Cursor → Option SyncRow → SyncRow
save_cursor c none = record {
  epoch = c.epoch;
  rev = c.rev;
  gen = c.gen;
  resync = c.resync;
  resync_requested = false;
  synced_at = 0;
}
save_cursor c (some r) = record {
  epoch = c.epoch;
  rev = c.rev;
  gen = c.gen;
  resync = c.resync;
  resync_requested = if c.requested then false else r.resync_requested;
  synced_at = r.synced_at;
}

-- A tombstone goes by the change's id, an entry by its own.
unfoldable pub apply_change : ℕ → Change → Table Mirrored → Table Mirrored
apply_change gen c m = elim c.entry [
  | none ↦ delete c.global_id m
  | some e ↦
      if c.deleted
      then delete c.global_id m
      else insert e.global_id (record { entry = e; gen = gen }) m
]

unfoldable pub apply_all : ℕ → List Change → Table Mirrored → Table Mirrored
unfolding apply_change
apply_all gen [] m = m
apply_all gen (c ∷ cs) m = apply_all gen cs (apply_change gen c m)

-- Rows not rewritten under the current generation go.
unfoldable pub sweep_stale : ℕ → Table Mirrored → Table Mirrored
sweep_stale gen m = retain (λ _ r. not (ltb r.gen gen)) m

unfoldable pub apply_changes : Cursor → List Change → Bool → PeerDb → PeerDb
unfolding save_cursor apply_all sweep_stale
apply_changes c cs sweep d =
    let mirror = apply_all c.gen cs d.mirror in
    record {
      state = some (save_cursor c d.state);
      mirror = if sweep then sweep_stale c.gen mirror else mirror;
    }

-- A feed that was reset, or whose history is another, is mirrored anew under the next generation.
unfoldable pub restart : Feed → Cursor → Cursor
restart f c =
    if f.reset || not (str_eq f.epoch c.epoch)
    then record c { epoch = f.epoch; gen = c.gen + 1; resync = true }
    else c

-- A page that promises more and does not advance.
unfoldable pub is_stuck : Feed → Cursor → Bool
is_stuck f c = f.more && leb f.next c.rev && not f.reset

abbrev pub is_last : Feed → Cursor → Bool
is_last f c = not f.more && c.resync

-- One round of pullPeer's loop on a page: the cursor that the next round uses and the database.
-- `none` is the error of a feed that does not advance.
unfoldable pub apply_page : Feed → Cursor → PeerDb → Option (Cursor × PeerDb)
unfolding restart is_stuck apply_changes
apply_page f c d =
    let c1 = restart f c in
    if is_stuck f c1
    then none
    else let sweep = is_last f c1 in
      let c2 = record c1 { rev = f.next; resync = if sweep then false else c1.resync } in
      some (record c2 { requested = false }, apply_changes c2 f.changes sweep d)

-- What a request to the peer brings back.
pub data Answer : Type 0 where
  page : Feed → Answer
  unsupported failed : Answer

pub data PullEnd : Type 0 where
  done gave_up : PeerDb → PullEnd
  -- a peer without a change feed: pull_legacy takes over, from this cursor
  legacy : Cursor → PeerDb → PullEnd
  -- the answers or the fuel ran out while the loop goes on
  running : Cursor → PeerDb → PullEnd

-- pullPeer: each round answers the request for the cursor's epoch and revision.
unfoldable pub pull_loop : (Str → ℕ → Answer) → ℕ → Cursor → PeerDb → PullEnd
pull_loop peer zero c d = running c d
pull_loop peer (suc fuel) c d = elim (peer c.epoch c.rev) [
  | unsupported ↦ legacy c d
  | failed ↦ gave_up d
  | page f ↦ elim (apply_page f c d) [
    | none ↦ gave_up d
    | some (c', d') ↦ elim f.more [ true ↦ pull_loop peer fuel c' d' | false ↦ done d' ]
  ]
]

abbrev to_changes : List Entry → List Change
to_changes [] = []
to_changes (e ∷ es) =
    record { rev = 0; global_id = e.global_id; deleted = false; entry = some e } ∷ to_changes es

-- pullLegacy: the whole catalog, under the next generation, with an empty epoch.
unfoldable pub pull_legacy : Option (List Entry) → Cursor → PeerDb → PullEnd
unfolding apply_changes
pull_legacy none c d = gave_up d
pull_legacy (some es) c d = done (
    apply_changes (record no_cursor { gen = c.gen + 1; requested = c.requested }) (to_changes es)
      true d)

unfoldable pub record_success : ℕ → PullEnd → PullEnd
unfolding mark_synced
record_success now (done d) = done (mark_synced now d)
record_success now other = other

unfoldable pub or_legacy : Option (List Entry) → PullEnd → PullEnd
unfolding pull_legacy
or_legacy full (legacy c d) = pull_legacy full c d
or_legacy full other = other

-- The goroutine of pullPeers for one peer: a pull that succeeded is recorded at `now`.
unfoldable pub pull_peer : (Str → ℕ → Answer) → Option (List Entry) → ℕ → ℕ → PeerDb → PullEnd
unfolding pull_loop load_cursor or_legacy record_success
pull_peer peer full fuel now d =
    record_success now (or_legacy full (pull_loop peer fuel (load_cursor d.state) d))
