-- ===== src/Peers/Registry.antt =====
-- internal/peers/registry.go: the registry in memory and its table. Times are in nanoseconds since
-- the epoch, with 0 for the zero time; what a probe or a name lookup brings back is an argument.
pub mod Heartbeat
pub mod Outage
pub mod Same
pub mod Steps
pub mod InStep
use jellysync.Common.{
  Str, str_eq, is_empty, ℕ, ◌+◌, ◌*◌, ◌/◌, Bool, true, false, not, ◌&&◌, ◌||◌, Option, none, some,
  [], ◌∷◌, ltb, leb, ◌==◌, if◌then◌else◌,
}
use jellysync.Common.Bytes.{trim_right}
use jellysync.Common.Table.{Table, lookup, insert, delete, has, update}

pub data State : Type 0 where
  online degraded offline disabled : State

abbrev pub degraded_after_misses : ℕ
degraded_after_misses = 1

abbrev pub offline_after_misses : ℕ
offline_after_misses = 3

-- 15 minutes.
abbrev pub withdraw_after : ℕ
withdraw_after = 15 * 60 * 1_000_000_000

pub record Peer : Type 0 where
  pub id : Str
  pub url : Str
  pub state : State
  pub name : Str
  pub version : Str
  pub ip : Str
  pub pin : Str
  pub last_seen : ℕ
  pub rtt : ℕ
  pub missed : ℕ
  pub was_offering : Bool

-- Peer.Offering. A clock that went back gives a negative age, which is below the limit.
unfoldable pub offering : Peer → ℕ → Bool
offering p now = elim p.state [
  | online ↦ true
  | degraded ↦ not (p.last_seen == 0) && ltb now (p.last_seen + withdraw_after)
  | offline ↦ not (p.last_seen == 0) && ltb now (p.last_seen + withdraw_after)
  | disabled ↦ false
]

-- The row of the table peers, its time in seconds.
pub record PeerRow : Type 0 where
  pub url : Str
  pub state : State
  pub name : Str
  pub version : Str
  pub pin : Str
  pub last_seen_at : ℕ

pub record Registry : Type 0 where
  pub rows : Table PeerRow
  pub peers : Table Peer
  pub http_off : Bool
  pub mtls_off : Bool
  -- the ids of running heartbeats
  pub heartbeats : Table Bool

-- Seconds, as the table holds them.
abbrev pub seconds : ℕ → ℕ
seconds t = t / 1_000_000_000

-- NewRegistry: the peers of all rows, and the address of a URL whose host is one.
unfoldable pub load_peers : (Str → Str) → ℕ → Table PeerRow → Table Peer
unfolding offering
load_peers literal_ip now [] = []
load_peers literal_ip now ((id, row) ∷ rows) =
    let p : Peer = record {
      id = id;
      url = row.url;
      state = row.state;
      name = row.name;
      version = row.version;
      ip = literal_ip row.url;
      pin = row.pin;
      last_seen = row.last_seen_at * 1_000_000_000;
      rtt = 0;
      missed = 0;
      was_offering = false;
    } in
    (id, record p { was_offering = offering p now }) ∷ load_peers literal_ip now rows

unfoldable pub load : (Str → Str) → ℕ → Table PeerRow → Registry
unfolding load_peers
load literal_ip now rows = record {
  rows = rows;
  peers = load_peers literal_ip now rows;
  http_off = false;
  mtls_off = false;
  heartbeats = [];
}

unfoldable pub enabled : Registry → Peer → Bool
enabled r p = if is_empty p.pin then not r.http_off else not r.mtls_off

abbrev pub is_disabled : Option Peer → Bool
is_disabled none = false
is_disabled (some p) = elim p.state [ disabled ↦ true | _ ↦ false ]

-- startHeartbeat: unless the peer is disabled or has one.
unfoldable pub start_heartbeat : Str → Registry → Registry
start_heartbeat id r =
    if is_disabled (lookup id r.peers) || has id r.heartbeats
    then r
    else record r { heartbeats = insert id true r.heartbeats }

-- The update of a row that is there leaves its state alone.
abbrev kept_state : Option PeerRow → State
kept_state none = online
kept_state (some old) = old.state

-- What AddPeer is told: the address that the URL's host stands for, "" if it is not found, too.
pub record NewPeer : Type 0 where
  pub id : Str
  pub url : Str
  pub name : Str
  pub version : Str
  pub pin : Str
  pub ip : Str
  pub at : ℕ

abbrev pub clean_url : Str → Str
clean_url url = trim_right (λ c. c == b'/') url

abbrev pub new_row : NewPeer → Option PeerRow → PeerRow
new_row n old = record {
  url = clean_url n.url;
  state = kept_state old;
  name = n.name;
  version = n.version;
  pin = n.pin;
  last_seen_at = seconds n.at;
}

abbrev pub new_peer : NewPeer → Peer
new_peer n = record {
  id = n.id;
  url = clean_url n.url;
  state = online;
  name = n.name;
  version = n.version;
  ip = n.ip;
  pin = n.pin;
  last_seen = n.at;
  rtt = 0;
  missed = 0;
  was_offering = true;
}

-- A peer whose transport is off.
abbrev pub switched : Registry → Peer → Peer
switched r p = if enabled r p then p else record p { state = disabled }

-- AddPeer; `ok` tells whether the database takes the write, and the answer whether there is no error.
unfoldable pub add_peer : Bool → NewPeer → Registry → Registry × Bool
unfolding start_heartbeat
add_peer ok n r =
    if ok
    then (
      start_heartbeat n.id (record r {
        rows = insert n.id (new_row n (lookup n.id r.rows)) r.rows;
        peers = insert n.id (switched r (new_peer n)) r.peers;
      }),
      true,
    )
    else (r, false)

-- RemovePeer: memory changes before the DELETE, whatever becomes of that.
unfoldable pub remove_peer : Bool → Str → Registry → Registry × Bool
remove_peer ok id r = (
  record r {
    heartbeats = delete id r.heartbeats;
    peers = delete id r.peers;
    rows = if ok then delete id r.rows else r.rows;
  },
  ok,
)

unfoldable pub disable_all : Registry → Table Peer → Table Peer
disable_all r [] = []
disable_all r ((id, p) ∷ ps) = (id, switched r p) ∷ disable_all r ps

unfoldable pub set_transports : Bool → Bool → Registry → Registry
unfolding disable_all
set_transports http_peers mtls_peers r =
    let r' = record r { http_off = not http_peers; mtls_off = not mtls_peers } in
    record r' { peers = disable_all r' r'.peers }
