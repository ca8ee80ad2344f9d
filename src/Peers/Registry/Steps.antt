-- ===== src/Peers/Registry/Steps.antt =====
-- registry.go: operations on the registry as steps, with database writes that may be refused, and
-- the agreement of the peers in memory with their table.
use jellysync.Common.{
  Str, str_eq, str_eq_iff, ◌≡◌, ◌⊎◌, ◌||◌, ap, inl, inr, Bool, true, false, Option, none, some,
  arith, Bool-cases,
}
use jellysync.Common.Table.{lookup, has}
use jellysync.Peers.Registry.{
  Peer, PeerRow, Registry, seconds, start_heartbeat, add_peer, remove_peer, NewPeer, set_transports,
}
use jellysync.Peers.Registry.Heartbeat.{Probe, finish_check}

-- A peer and its row say the same, but for the state, which the table may hold from before.
abbrev pub Same : Option Peer → Option PeerRow → Type 0
Same none none = Unit {0}
Same (some p) (some row) =
    (p.url ≡ row.url)
    × (p.name ≡ row.name)
    × (p.version ≡ row.version)
    × (p.pin ≡ row.pin)
    × (seconds p.last_seen ≡ row.last_seen_at)
Same _ _ = ⊥

-- The same peers, and heartbeats of them alone, but for the peers in `disturbed`.
pub record IsInStep (disturbed : Str → Bool) (r : Registry) : Type 0 where
  pub same : (id : Str) → disturbed id ≡ false → Same (lookup id r.peers) (lookup id r.rows)
  pub known :
      (id : Str) → disturbed id ≡ false → (has id r.heartbeats ≡ false) ⊎ (has id r.peers ≡ true)

-- Only what belongs to one id differs.
pub record IsElsewhere (id : Str) (r t : Registry) : Type 0 where
  pub peers_kept : (j : Str) → str_eq id j ≡ false → lookup j t.peers ≡ lookup j r.peers
  pub rows_kept : (j : Str) → str_eq id j ≡ false → lookup j t.rows ≡ lookup j r.rows
  pub heartbeats_kept : (j : Str) → str_eq id j ≡ false → has j t.heartbeats ≡ has j r.heartbeats

-- The database takes every write of a removal or a heartbeat of a peer that is not in `disturbed`,
-- and operations on such a peer follow one another.
pub data Step (disturbed : Str → Bool) : Registry → Registry → Type 0 where
  added : (r : Registry) (ok : Bool) (n : NewPeer) → Step disturbed r (add_peer ok n r).0
  removed :
      (r : Registry) (ok : Bool) (id : Str)
      → (ok || disturbed id) ≡ true
      → Step disturbed r (remove_peer ok id r).0
  transports : (r : Registry) (http mtls : Bool) → Step disturbed r (set_transports http mtls r)
  started :
      (r : Registry) (id : Str) → has id r.peers ≡ true → Step disturbed r (start_heartbeat id r)
  -- a heartbeat that began at any time before
  checked :
      (r : Registry) (ok : Bool) (id : Str) (b : Probe)
      → (ok || disturbed id) ≡ true
      → Step disturbed r (finish_check ok id b r).0
  -- a part of an operation on a peer on which another one runs
  overlapped :
      (r t : Registry) (id : Str) → disturbed id ≡ true → IsElsewhere id r t → Step disturbed r t

pub data Reach (disturbed : Str → Bool) (s : Registry) : Registry → Type 0 where
  here : Reach disturbed s s
  next : {t u : Registry} → Reach disturbed s t → Step disturbed t u → Reach disturbed s u

pub apart :
    (disturbed : Str → Bool) (id j : Str)
    → disturbed id ≡ true
    → disturbed j ≡ false
    → str_eq id j ≡ false
apart disturbed id j d u = elim (Bool-cases (str_eq id j)) [
  | inl e ↦ let same = ap disturbed ((str_eq_iff id j).0 e) in ground arith
  | inr f ↦ f
]
