-- ===== src/Peers/Registry/Heartbeat.antt =====
-- internal/peers/registry.go: one heartbeat (checkOnce).
use jellysync.Common.{
  Str, is_empty, ℕ, ◌+◌, Bool, false, not, ◌||◌, Option, none, some, leb, if◌then◌else◌,
}
use jellysync.Common.Table.{lookup, insert, has, update}
use jellysync.Peers.Registry.{
  State, online, degraded, offline, degraded_after_misses, offline_after_misses, Peer, offering,
  PeerRow, Registry, seconds, is_disabled,
}

-- What one heartbeat found: the name and version that a healthy peer reported, the round trip, and
-- the address of its host.
pub record Probe : Type 0 where
  pub health : Option (Str × Str)
  pub rtt : ℕ
  pub ip : Str
  pub at : ℕ

unfoldable pub after_misses : ℕ → State → State
after_misses missed state =
    if leb offline_after_misses missed
    then offline
    else if leb degraded_after_misses missed
    then degraded
    else state

unfoldable pub probed : Probe → Peer → Peer
unfolding after_misses
probed b p =
    let q = record p { ip = if is_empty b.ip then p.ip else b.ip } in
    elim b.health [
      | some (name, version) ↦ record q {
        missed = 0;
        state = online;
        last_seen = b.at;
        rtt = b.rtt;
        version = if is_empty version then p.version else version;
        name = if is_empty name then p.name else name;
      }
      | none ↦ record q { missed = p.missed + 1; state = after_misses (p.missed + 1) p.state }
    ]

-- The peer after a heartbeat, under the lock.
unfoldable pub beat : Probe → Peer → Peer
unfolding probed offering
beat b p = let q = probed b p in record q { was_offering = offering q b.at }

-- The UPDATE after it.
unfoldable pub persist : Probe → Peer → PeerRow → PeerRow
persist b p row = elim b.health [
  | some h ↦ record row {
    state = p.state;
    last_seen_at = seconds b.at;
    version = p.version;
    name = p.name;
  }
  | none ↦ record row { state = p.state }
]

unfoldable pub flips : Peer → Peer → Bool
flips p q = if p.was_offering then not q.was_offering else q.was_offering

-- The part of checkOnce after the probe: memory changes before the UPDATE, of which a failure is only
-- logged. The answer tells whether onOfferingChange is called.
unfoldable pub finish_check : Bool → Str → Probe → Registry → Registry × Bool
unfolding beat persist flips
finish_check ok id b r = elim (lookup id r.peers) [
  | none ↦ (r, false)
  | some p ↦
      let q = beat b p in
      (
        record r {
          peers = insert id q r.peers;
          rows = if ok then update id (persist b q) r.rows else r.rows;
        },
        flips p q,
      )
]

-- checkOnce, where `probing` is what other operations do to the registry during the probe.
unfoldable pub check_once : (Registry → Registry) → Bool → Str → Probe → Registry → Registry × Bool
unfolding finish_check
check_once probing ok id b r =
    if not (has id r.peers) || is_disabled (lookup id r.peers)
    then (r, false)
    else finish_check ok id b (probing r)
