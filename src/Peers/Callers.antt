-- ===== src/Peers/Callers.antt =====
-- internal/peers/registry.go: which peer a request or an address belongs to.
use jellysync.Common.{
  Str, str_eq, is_empty, Bool, not, ◌&&◌, ◌||◌, Option, none, some, [], ◌∷◌, if◌then◌else◌,
}
use jellysync.Common.Table.{Table}
use jellysync.Peers.Registry.{Peer, Registry}

-- Registry.ResolveCaller. Where several peers match, Go's map order decides; here the table's does.
unfoldable pub find_peer : (Peer → Bool) → Table Peer → Option Str
find_peer test [] = none
find_peer test ((id, p) ∷ ps) = if test p then some id else find_peer test ps

unfoldable pub resolve_caller : Str → Str → Registry → Str
unfolding find_peer
resolve_caller node_id remote_ip r =
    elim (if is_empty node_id
      then none
      else find_peer (λ p. str_eq p.name node_id || str_eq p.id node_id) r.peers) [
        | some id ↦ id
        | none ↦
            elim (if is_empty remote_ip
              then none
              else find_peer (λ p. not (is_empty p.ip) && str_eq p.ip remote_ip) r.peers) [
                | some id ↦ id
                | none ↦ []
              ]
      ]

-- Registry.PeerByPin
unfoldable pub peer_by_pin : Str → Table Peer → Option Peer
peer_by_pin pin [] = none
peer_by_pin pin ((id, p) ∷ ps) =
    if not (is_empty pin) && str_eq p.pin pin then some p else peer_by_pin pin ps
