-- ===== src/Peerauth/Examples.antt =====
-- Pairing at one invite, and the peer port at one client.
use jellysync.Common.{
  Str, str_eq, lit, ℕ, ◌≡◌, ◌≢◌, ◌↔◌, refl, Bool, true, false, some, [], ◌∷◌, arith, ◌≤◌, ◌+◌,
}
use jellysync.Common.Table.{lookup, insert, delete}
use jellysync.Peers.Registry.{Registry}
use jellysync.Peers.Callers.{peer_by_pin}
use jellysync.Peerauth.Store.{
  Client, Store, refused, invite_invalid, new_store, load_clients, load_invites, create_invite,
  sweep_expired, sweep_all, pending_invite, redeemed, id_taken_by, save_client, drop_invite, redeem,
  touch,
}
use jellysync.Peerauth.Store.{pin_of, revoke}
use jellysync.Peerauth.Store.Sound.{IsSound, created, paired, restarted, here, next}
use jellysync.Peerauth.Store.Tables.{reached-IsSound}
use jellysync.Peerauth.Store.Loaded.{new_store-IsSound}
use jellysync.Peerauth.Store.Revoked.{revoke-leaves}
use jellysync.Peerauth.Store.Once.{redeemed_once, redeem-keeps_ids}
use jellysync.Peerauth.Auth.{
  catalog, client, Limiter, admit, resolve, check_route, requires, allowed, allow, allow_all,
}
use jellysync.Peerauth.Auth.Access.{Holds, admit-Holds}
use jellysync.Peerauth.Auth.Spacing.{allow-spaced}

abbrev all_deleted : Str → Bool
all_deleted pin = true

abbrev AnyKey : Str → Type 0
AnyKey pin = Unit {0}

abbrev empty : Store
empty = new_store [] []

empty-IsSound : IsSound empty
unfolding lookup
empty-IsSound = new_store-IsSound [] [] (λ p q a b e f same. absurd (cc))

-- An invite valid for 100 from time 5.
abbrev invited : Store
invited = (create_invite all_deleted true (lit "tmp") 100 5 5 empty).0

abbrev at_home : Client
at_home = record {
  id = lit "attic";
  pin = lit "key";
  name = lit "Attic";
  created_at = 50;
  last_seen_at = 0;
}

reached-IsSound_example :
    IsSound (redeem true (lit "tmp") (lit "key") (lit "Attic") (lit "attic") 50 invited).0
reached-IsSound_example = reached-IsSound AnyKey empty _ empty-IsSound (
    next (next here (created empty all_deleted true (lit "tmp") 100 5 5 tt))
      (paired invited true (lit "tmp") (lit "key") (lit "Attic") (lit "attic") 50))

-- What a test of pairing computes with.
pairing_up : ℕ
unfolding str_eq lookup insert delete new_store load_clients load_invites create_invite
    sweep_expired sweep_all pending_invite redeemed id_taken_by save_client drop_invite redeem touch
    pin_of revoke peer_by_pin resolve check_route requires allowed admit allow allow_all
pairing_up = 0

abbrev with_attic : Store
with_attic = (redeem true (lit "tmp") (lit "key") (lit "Attic") (lit "attic") 50 invited).0

-- The node starts again after the pairing.
abbrev started_again : Store
started_again = new_store with_attic.client_rows with_attic.invite_rows

redeemed_once_example :
    redeem true (lit "tmp") (lit "other") (lit "Barn") (lit "barn") 60 started_again
    ≡ (started_again, refused invite_invalid)
unfolding pairing_up
redeemed_once_example =
    redeemed_once true (lit "tmp") (lit "key") (lit "Attic") (lit "attic") 50 invited at_home
      started_again true (lit "other") (lit "Barn") (lit "barn") 60 refl
      (next here (restarted with_attic))

with_attic-IsSound : IsSound with_attic
with_attic-IsSound = reached-IsSound AnyKey empty _ empty-IsSound (
    next (next here (created empty all_deleted true (lit "tmp") 100 5 5 tt))
      (paired invited true (lit "tmp") (lit "key") (lit "Attic") (lit "attic") 50))

revoke-leaves_example :
    (lookup (lit "key") (revoke true (lit "attic") with_attic).0.clients ≡ some at_home)
    ↔ ((lookup (lit "key") with_attic.clients ≡ some at_home) × (at_home.id ≢ lit "attic"))
unfolding pairing_up
revoke-leaves_example =
    revoke-leaves true (lit "attic") with_attic (lit "key") at_home with_attic-IsSound (refl, tt)
      refl

-- The client pairs again under another name and asks for another id.
abbrev paired_once : Store
paired_once = record {
  clients = (lit "key", at_home) ∷ [];
  invites = (lit "tmp", record { pin = lit "tmp"; created_at = 5; expires_at = 105 }) ∷ [];
  client_rows =
      (lit "key", record { id = lit "attic"; name = lit "Attic"; created_at = 0; last_seen_at = 0 })
      ∷ [];
  invite_rows = (lit "tmp", record { created_at = 0; expires_at = 0 }) ∷ [];
}

redeem-keeps_ids_example :
    (e : Client) × (lookup
        (lit "key")
        (redeem true (lit "tmp") (lit "key") (lit "Loft") (lit "loft") 60 paired_once).0.clients
      ≡ some e)
    × (e.id ≡ lit "attic")
unfolding pairing_up
redeem-keeps_ids_example =
    redeem-keeps_ids true (lit "tmp") (lit "key") (lit "Loft") (lit "loft") 60 paired_once
      (lit "key") at_home refl

abbrev no_peers : Registry
no_peers = record { rows = []; peers = []; http_off = false; mtls_off = false; heartbeats = [] }

admit-Holds_example :
    (some (lit "key") ≡ some (lit "key")) × Holds client (lit "key") 60 no_peers paired_once
unfolding pairing_up
admit-Holds_example =
    admit-Holds true catalog (some (lit "key")) 60 no_peers paired_once
      (record { pin = lit "key"; client_id = lit "attic"; peer_id = []; pairing = false }) refl

abbrev limiter : Limiter
limiter = record { every = 10; last = [] }

allow-spaced_example : 3 + 10 ≤ 14
unfolding pairing_up
allow-spaced_example =
    allow-spaced (lit "attic") 3 14 ((lit "attic", 5) ∷ (lit "barn", 6) ∷ []) limiter refl
      (omega arith, (omega arith, tt)) refl
