-- ===== src/Peerauth/Store.antt =====
-- internal/peerauth/store.go: clients and pending invites, in memory and in their tables, by key pin.
-- Times are in nanoseconds, with 0 for the zero time; the tables hold seconds. Whether the database
-- takes a write is an argument, and so is the time at which the clock is read.
pub mod Sound
pub mod Invites
pub mod Tables
pub mod Loaded
pub mod Revoked
pub mod Once
use jellysync.Common.{
  Str, str_eq, ℕ, ◌+◌, ◌*◌, ◌/◌, Bool, true, false, not, ◌&&◌, ◌||◌, Option, none, some, [], ◌∷◌,
  ltb, if◌then◌else◌,
}
use jellysync.Common.Table.{Table, lookup, insert, delete, has, update}

pub record Client : Type 0 where
  pub id : Str
  pub pin : Str
  pub name : Str
  pub created_at : ℕ
  pub last_seen_at : ℕ

pub record PendingInvite : Type 0 where
  pub pin : Str
  pub created_at : ℕ
  pub expires_at : ℕ

-- A row of the table clients; a `last_seen_at` of 0 is a NULL.
pub record ClientRow : Type 0 where
  pub id : Str
  pub name : Str
  pub created_at : ℕ
  pub last_seen_at : ℕ

pub record InviteRow : Type 0 where
  pub created_at : ℕ
  pub expires_at : ℕ

pub record Store : Type 0 where
  pub clients : Table Client
  pub invites : Table PendingInvite
  pub client_rows : Table ClientRow
  pub invite_rows : Table InviteRow

pub data Failure : Type 0 where
  not_found invite_invalid id_taken db_error : Failure

abbrev nanos : ℕ
nanos = 1_000_000_000

abbrev pub unix : ℕ → ℕ
unix t = t / nanos

-- touchEvery, a minute.
abbrev pub touch_every : ℕ
touch_every = 60 * nanos

-- NewStore
unfoldable pub load_clients : Table ClientRow → Table Client
load_clients [] = []
load_clients ((pin, r) ∷ rows) =
    (
      pin,
      record {
        id = r.id;
        pin = pin;
        name = r.name;
        created_at = r.created_at * nanos;
        last_seen_at = r.last_seen_at * nanos;
      },
    )
    ∷ load_clients rows

unfoldable pub load_invites : Table InviteRow → Table PendingInvite
load_invites [] = []
load_invites ((pin, r) ∷ rows) =
    (
      pin,
      record { pin = pin; created_at = r.created_at * nanos; expires_at = r.expires_at * nanos },
    )
    ∷ load_invites rows

unfoldable pub new_store : Table ClientRow → Table InviteRow → Store
unfolding load_clients load_invites
new_store client_rows invite_rows = record {
  clients = load_clients client_rows;
  invites = load_invites invite_rows;
  client_rows = client_rows;
  invite_rows = invite_rows;
}

unfoldable pub drop_invite : Str → Store → Store
drop_invite pin s = record s {
  invites = delete pin s.invites;
  invite_rows = delete pin s.invite_rows;
}

-- The loop of sweepExpired. `deletes` tells for which pins the database takes the DELETE.
unfoldable pub sweep_all : (Str → Bool) → ℕ → Table PendingInvite → Store → Store
unfolding drop_invite
sweep_all deletes now [] s = s
sweep_all deletes now ((pin, inv) ∷ rest) s =
    sweep_all deletes now rest
      (if ltb now inv.expires_at then s else if deletes pin then drop_invite pin s else s)

unfoldable pub sweep_expired : (Str → Bool) → ℕ → Store → Store
unfolding sweep_all
sweep_expired deletes now s = sweep_all deletes now s.invites s

-- CreateInvite with the pin of the new key, swept at `later`. The table's key refuses a pin that is
-- there.
unfoldable pub create_invite :
    (Str → Bool) → Bool → Str → ℕ → ℕ → ℕ → Store → Store × Option PendingInvite
unfolding sweep_expired
create_invite deletes ok pin ttl now later s =
    let swept = sweep_expired deletes later s in
    let inv : PendingInvite = record { pin = pin; created_at = now; expires_at = now + ttl } in
    if ok && not (has pin swept.invite_rows)
    then (
      record swept {
        invites = insert pin inv swept.invites;
        invite_rows =
            insert pin (record { created_at = unix now; expires_at = unix (now + ttl) })
              swept.invite_rows;
      },
      some inv,
    )
    else (swept, none)

unfoldable pub cancel_invite : Bool → Str → Store → Store × Option Failure
unfolding drop_invite
cancel_invite ok pin s =
    if not (has pin s.invites)
    then (s, some not_found)
    else if ok
    then (drop_invite pin s, none)
    else (s, some db_error)

abbrev pub is_pending : ℕ → Option PendingInvite → Bool
is_pending now none = false
is_pending now (some inv) = ltb now inv.expires_at

unfoldable pub pending_invite : ℕ → Str → Store → Bool
pending_invite now pin s = is_pending now (lookup pin s.invites)

unfoldable pub id_taken_by : Str → Table Client → Bool
id_taken_by id [] = false
id_taken_by id ((pin, c) ∷ m) = str_eq c.id id || id_taken_by id m

-- The client that Redeem would authorize; `none` is ErrIDTaken.
unfoldable pub redeemed : Str → Str → Str → ℕ → Store → Option Client
unfolding id_taken_by
redeemed pin name id now s = elim (lookup pin s.clients) [
  | some existing ↦ some (record existing { pin = pin; name = name })
  | none ↦
      if id_taken_by id s.clients
      then none
      else some (record { id = id; pin = pin; name = name; created_at = now; last_seen_at = 0 })
]

-- INSERT ... ON CONFLICT(pin) DO UPDATE SET name
unfoldable pub save_client : Client → Option ClientRow → ClientRow
save_client c none = record {
  id = c.id;
  name = c.name;
  created_at = unix c.created_at;
  last_seen_at = 0;
}
save_client c (some row) = record row { name = c.name }

pub data Redeemed : Type 0 where
  accepted : Client → Redeemed
  refused : Failure → Redeemed

-- Redeem: `tmp_pin` is the invite's key. One transaction deletes it and saves the client.
unfoldable pub redeem : Bool → Str → Str → Str → Str → ℕ → Store → Store × Redeemed
unfolding redeemed save_client drop_invite pending_invite
redeem ok tmp_pin pin name id now s =
    if not (pending_invite now tmp_pin s)
    then (s, refused invite_invalid)
    else elim (redeemed pin name id now s) [
      | none ↦ (s, refused id_taken)
      | some c ↦
          if ok
          then (
            record (drop_invite tmp_pin s) {
              clients = insert pin c s.clients;
              client_rows = insert pin (save_client c (lookup pin s.client_rows)) s.client_rows;
            },
            accepted c,
          )
          else (s, refused db_error)
    ]

-- The pin of the last client with an id; ids differ.
unfoldable pub pin_of : Str → Table Client → Option Str
pin_of id [] = none
pin_of id ((pin, c) ∷ m) =
    let later = pin_of id m in
    elim later [ some p ↦ some p | none ↦ if str_eq c.id id then some pin else none ]

unfoldable pub revoke : Bool → Str → Store → Store × Option Failure
unfolding pin_of
revoke ok id s = elim (pin_of id s.clients) [
  | none ↦ (s, some not_found)
  | some pin ↦
      if ok
      then (
        record s { clients = delete pin s.clients; client_rows = delete pin s.client_rows },
        none,
      )
      else (s, some db_error)
]

-- Touch: a failed write is only logged.
unfoldable pub touch : Bool → Str → ℕ → Store → Store
touch ok pin now s = elim (lookup pin s.clients) [
  | none ↦ s
  | some c ↦ if ltb now (c.last_seen_at + touch_every) then s else record s {
    clients = insert pin (record c { last_seen_at = now }) s.clients;
    client_rows =
        if ok
        then update pin (λ r. record r { last_seen_at = unix now }) s.client_rows
        else s.client_rows;
  }
]
