-- ===== src/Peerauth/Auth.antt =====
-- internal/peerauth/auth.go: who calls the peer port, what each caller may do, and how often; with
-- resolveCaller and the routes of peerMux in internal/app/app.go.
pub mod Access
pub mod Spacing
use jellysync.Common.{
  Str, str_eq, is_empty, ℕ, ◌+◌, Bool, true, false, not, ◌&&◌, ◌||◌, Option, none, some, List, [],
  ◌∷◌, ltb, if◌then◌else◌,
}
use jellysync.Common.Table.{Table, lookup, insert}
use jellysync.Peers.Registry.{Peer, Registry}
use jellysync.Peers.Callers.{peer_by_pin}
use jellysync.Peerauth.Store.{Store, Client, pending_invite, touch}

pub record Caller : Type 0 where
  pub pin : Str
  pub client_id : Str
  pub peer_id : Str
  pub pairing : Bool

-- Caller.ID
unfoldable pub caller_id : Caller → Str
caller_id c = if not (is_empty c.peer_id) then c.peer_id else c.client_id

abbrev pub client_id_of : Option Client → Str
client_id_of none = []
client_id_of (some c) = c.id

abbrev pub peer_id_of : Option Peer → Str
peer_id_of none = []
peer_id_of (some p) = p.id

-- App.resolveCaller: `none` is an unknown key. A client was just seen; `ok` is whether the database
-- takes that.
unfoldable pub resolve : Bool → Str → ℕ → Registry → Store → Store × Option Caller
unfolding touch peer_by_pin pending_invite
resolve ok pin now r s =
    let client = client_id_of (lookup pin s.clients) in
    let peer = peer_id_of (peer_by_pin pin r.peers) in
    let t = touch ok pin now s in
    let known = not (is_empty client) || not (is_empty peer) in
    let pairing = if known then false else pending_invite now pin t in
    (
      t,
      if known || pairing
          then some (record { pin = pin; client_id = client; peer_id = peer; pairing = pairing })
          else none,
    )

-- RequireClient, RequireClientOrPeer, RequirePeer and RequirePairing.
pub data Requirement : Type 0 where
  client client_or_peer peer pairing : Requirement

unfoldable pub allowed : Requirement → Caller → Bool
allowed client c = not (is_empty c.client_id)
allowed client_or_peer c = not (is_empty c.client_id) || not (is_empty c.peer_id)
allowed peer c = not (is_empty c.peer_id)
allowed pairing c = c.pairing

-- The routes of the peer port.
pub data Route : Type 0 where
  health catalog changes stream trigger_sync sync_status notify pair : Route

unfoldable pub requires : Route → Requirement
requires health = client_or_peer
requires notify = peer
requires pair = pairing
requires catalog = client
requires changes = client
requires stream = client
requires trigger_sync = client
requires sync_status = client

pub data Admission : Type 0 where
  unauthorized forbidden : Admission
  admitted : Caller → Admission

unfoldable pub check_route : Route → Option Caller → Admission
unfolding allowed requires
check_route route none = forbidden
check_route route (some c) = if allowed (requires route) c then admitted c else forbidden

-- Authenticate and the requirement of the route, for a request with the key of its certificate.
unfoldable pub admit : Bool → Route → Option Str → ℕ → Registry → Store → Store × Admission
unfolding resolve check_route
admit ok route none now r s = (s, unauthorized)
admit ok route (some pin) now r s =
    let found = resolve ok pin now r s in (found.0, check_route route found.1)

pub record Limiter : Type 0 where
  pub every : ℕ
  pub last : Table ℕ

abbrev pub too_soon : ℕ → ℕ → Option ℕ → Bool
too_soon every now none = false
too_soon every now (some last) = ltb now (last + every)

-- Limiter.Allow
unfoldable pub allow : Str → ℕ → Limiter → Limiter × Bool
allow key now l =
    if too_soon l.every now (lookup key l.last)
    then (l, false)
    else (record l { last = insert key now l.last }, true)

-- Calls one after the other, each with its key and time.
unfoldable pub allow_all : List (Str × ℕ) → Limiter → Limiter
unfolding allow
allow_all [] l = l
allow_all ((key, now) ∷ calls) l = allow_all calls (allow key now l).0
