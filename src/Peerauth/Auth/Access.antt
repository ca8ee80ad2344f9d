-- ===== src/Peerauth/Auth/Access.antt =====
-- Whom a route of the peer port lets in.
use jellysync.Common.{
  Str, is_empty, ℕ, ◌≡◌, ◌⊎◌, refl, ap, sym, inl, inr, Bool, true, false, Option, none, some, arith,
  Option-cases, Bool-cases,
}
use jellysync.Common.Table.{lookup}
use jellysync.Peers.Registry.{Peer, Registry}
use jellysync.Peers.Callers.{peer_by_pin}
use jellysync.Peerauth.Store.{Store, Client, pending_invite, touch}
use jellysync.Peerauth.Auth.{
  Caller, Route, Requirement, client, client_or_peer, peer, pairing, requires, client_id_of,
  peer_id_of, resolve, allowed, check_route, admitted, admit,
}

-- What a key must be for a requirement: of a client, of a peer, or of a pending invite.
abbrev pub Holds : Requirement → Str → ℕ → Registry → Store → Type 0
Holds client pin now r s = (c : Client) × (lookup pin s.clients ≡ some c)
Holds peer pin now r s = (p : Peer) × (peer_by_pin pin r.peers ≡ some p)
Holds client_or_peer pin now r s =
    ((c : Client) × (lookup pin s.clients ≡ some c))
    ⊎ ((p : Peer) × (peer_by_pin pin r.peers ≡ some p))
Holds pairing pin now r s = pending_invite now pin s ≡ true

touch-pending_invite :
    (ok : Bool) (pin key : Str) (now : ℕ) (s : Store)
    → pending_invite now key (touch ok pin now s) ≡ pending_invite now key s
unfolding touch pending_invite
touch-pending_invite ok pin key now s = ground arith

client_found : (o : Option Client) → is_empty (client_id_of o) ≡ false → (c : Client) × (o ≡ some c)
client_found none e = absurd (cc)
client_found (some c) e = (c, refl)

peer_found : (o : Option Peer) → is_empty (peer_id_of o) ≡ false → (p : Peer) × (o ≡ some p)
peer_found none e = absurd (cc)
peer_found (some p) e = (p, refl)

-- What a resolved caller is made of.
record IsOf (pin : Str) (now : ℕ) (r : Registry) (s : Store) (c : Caller) : Type 0 where
  pin_is : c.pin ≡ pin
  client_is : c.client_id ≡ client_id_of (lookup pin s.clients)
  peer_is : c.peer_id ≡ peer_id_of (peer_by_pin pin r.peers)
  pairing_is : (c.pairing ≡ false) ⊎ (pending_invite now pin s ≡ true)

resolve-IsOf :
    (ok : Bool) (pin : Str) (now : ℕ) (r : Registry) (s : Store) (c : Caller)
    → (resolve ok pin now r s).1 ≡ some c
    → IsOf pin now r s c
unfolding resolve
resolve-IsOf ok pin now r s c e = record {
  pin_is = ground (arith, e);
  client_is = ground (arith, e);
  peer_is = ground (arith, e);
  pairing_is = ground (arith, e, touch-pending_invite ok pin pin now s);
}

allowed-Holds :
    (q : Requirement) (pin : Str) (now : ℕ) (r : Registry) (s : Store) (c : Caller)
    → IsOf pin now r s c
    → allowed q c ≡ true
    → Holds q pin now r s
unfolding allowed
allowed-Holds client pin now r s c h e =
    client_found (lookup pin s.clients) (ground (arith, h.client_is, e))
allowed-Holds peer pin now r s c h e =
    peer_found (peer_by_pin pin r.peers) (ground (arith, h.peer_is, e))
allowed-Holds client_or_peer pin now r s c h e = elim (Bool-cases (is_empty c.client_id)) [
  | inl n ↦ inr (peer_found (peer_by_pin pin r.peers) (ground (arith, h.peer_is, e, n)))
  | inr f ↦ inl (client_found (lookup pin s.clients) (ground (arith, h.client_is, f)))
]
allowed-Holds pairing pin now r s c h e = ground (arith, h.pairing_is, e)

-- A request that a route of the peer port lets in carries the key of an authorized client where
-- the route requires a client, of a registered peer where it requires a peer, of either where it
-- requires one of them, and of an unexpired pending invite for pairing; the caller has that key.
pub admit-Holds :
    (ok : Bool) (route : Route) (key : Option Str) (now : ℕ) (r : Registry) (s : Store) (c : Caller)
    → (admit ok route key now r s).1 ≡ admitted c
    → (key ≡ some c.pin) × Holds (requires route) c.pin now r s
unfolding admit check_route
admit-Holds ok route none now r s c e = absurd (cc)
admit-Holds ok route (some pin) now r s c e = elim (Option-cases (resolve ok pin now r s).1) [
  | inl n ↦ absurd (ground (arith, e, n))
  | inr (d, found) ↦
      let same : d ≡ c = ground (arith, e, found) in
      let may : allowed (requires route) c ≡ true = ground (arith, e, found) in
      let h = resolve-IsOf ok pin now r s c (ground (arith, found, same)) in
      (ap some (sym h.pin_is), rw h.pin_is (allowed-Holds (requires route) pin now r s c h may))
]
