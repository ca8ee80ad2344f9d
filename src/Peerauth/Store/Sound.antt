-- ===== src/Peerauth/Store/Sound.antt =====
-- The invariant of the pairing store, and its operations as steps.
use jellysync.Common.{Str, ℕ, ◌≡◌, Bool, Option, none, some}
use jellysync.Common.Table.{lookup}
use jellysync.Peerauth.Store.{
  Client, PendingInvite, ClientRow, InviteRow, Store, unix, sweep_expired, create_invite,
  cancel_invite, redeem, revoke, touch, new_store,
}

abbrev pub SameClient : Option Client → Option ClientRow → Type 0
SameClient none none = Unit {0}
SameClient (some c) (some r) =
    (c.id ≡ r.id) × (c.name ≡ r.name) × (unix c.created_at ≡ r.created_at)
SameClient _ _ = ⊥

abbrev pub SameInvite : Option PendingInvite → Option InviteRow → Type 0
SameInvite none none = Unit {0}
SameInvite (some i) (some r) =
    (unix i.created_at ≡ r.created_at) × (unix i.expires_at ≡ r.expires_at)
SameInvite _ _ = ⊥

-- Memory and tables agree, a last sight apart, and no two clients share an id.
pub record IsSound (s : Store) : Type 0 where
  pub clients_same : (pin : Str) → SameClient (lookup pin s.clients) (lookup pin s.client_rows)
  pub invites_same : (pin : Str) → SameInvite (lookup pin s.invites) (lookup pin s.invite_rows)
  pub distinct :
      (p q : Str) (c d : Client)
      → lookup p s.clients ≡ some c
      → lookup q s.clients ≡ some d
      → c.id ≡ d.id
      → p ≡ q

-- An operation, whatever the database answers, where the keys of new invites satisfy `Allowed`.
pub data Step (Allowed : Str → Type 0) : Store → Store → Type 0 where
  created :
      (s : Store) (deletes : Str → Bool) (ok : Bool) (pin : Str) (ttl now later : ℕ)
      → Allowed pin
      → Step Allowed s (create_invite deletes ok pin ttl now later s).0
  swept :
      (s : Store) (deletes : Str → Bool) (now : ℕ) → Step Allowed s (sweep_expired deletes now s)
  cancelled : (s : Store) (ok : Bool) (pin : Str) → Step Allowed s (cancel_invite ok pin s).0
  paired :
      (s : Store) (ok : Bool) (tmp_pin pin name id : Str) (now : ℕ)
      → Step Allowed s (redeem ok tmp_pin pin name id now s).0
  revoked : (s : Store) (ok : Bool) (id : Str) → Step Allowed s (revoke ok id s).0
  touched : (s : Store) (ok : Bool) (pin : Str) (now : ℕ) → Step Allowed s (touch ok pin now s)
  -- the process ends and starts again from its tables
  restarted : (s : Store) → Step Allowed s (new_store s.client_rows s.invite_rows)

pub data Reach (Allowed : Str → Type 0) (s : Store) : Store → Type 0 where
  here : Reach Allowed s s
  next : {t u : Store} → Reach Allowed s t → Step Allowed t u → Reach Allowed s u
