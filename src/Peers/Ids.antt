-- ===== src/Peers/Ids.antt =====
-- internal/peers/ids.go: the id that a new peer or client gets. `fresh` is a new UUID.
pub mod Free
pub mod Safe
pub mod Shared
pub mod Examples
use jellysync.Common.{
  Str, str_eq, is_empty, lit, ◌==◌, ◌||◌, ◌&&◌, ℕ, zero, suc, ◌+◌, Bool, true, false, not, Option,
  none, some, List, [], ◌∷◌, ◌++◌, if◌then◌else◌, leb,
}
use jellysync.Common.Bytes.{to_lower, trim_space, trim, replace_runs, two_places}
use jellysync.Common.Table.{Table, has}
use jellysync.Peers.Registry.{Peer}
use jellysync.Peers.Callers.{find_peer}

abbrev reserved_ids : List Str
reserved_ids = lit "local" ∷ lit "unknown" ∷ []

unfoldable pub is_reserved : Str → Bool
is_reserved id = str_eq id (lit "local") || str_eq id (lit "unknown")

abbrev pub is_slug : ℕ → Bool
is_slug c = (leb b'a' c && leb c b'z') || (leb b'0' c && leb c b'9') || c == b'_' || c == b'-'

unfoldable pub slug : Str → Str
slug name = trim (λ c. c == b'-' || c == b'_') (replace_runs is_slug (to_lower (trim_space name)))

unfoldable pub numbered : Str → ℕ → Str
numbered base n = base ++ lit "_" ++ two_places n

-- The loop of idFor, on fuel.
unfoldable pub first_free : (Str → Bool) → Str → ℕ → ℕ → Option Str
first_free taken base zero n = none
first_free taken base (suc rounds) n =
    let rest = first_free taken base rounds (n + 1) in
    if not (taken (numbered base n)) then some (numbered base n) else rest

unfoldable pub id_for : ℕ → Str → Str → (Str → Bool) → Option Str
id_for rounds fresh name taken =
    let base = slug name in
    if is_empty base
    then some fresh
    else if not (taken base) && not (is_reserved base)
    then some base
    else first_free taken base rounds 1

-- The other ids of the namespace: the clients that redeemed an invite.
pub record OtherIds : Type 0 where
  pub id_taken : Str → Bool
  pub id_for_pin : Str → Option Str

-- takenLocked
unfoldable pub taken_locked : Table Peer → OtherIds → Str → Bool
taken_locked peers others id = has id peers || others.id_taken id

unfoldable pub new_id : ℕ → Str → Str → Table Peer → OtherIds → Option Str
new_id rounds fresh name peers others = id_for rounds fresh name (taken_locked peers others)

unfoldable pub new_id_for_pin : ℕ → Str → Str → Str → Table Peer → OtherIds → Option Str
unfolding new_id
new_id_for_pin rounds fresh name pin peers others =
    let new = new_id rounds fresh name peers others in
    elim (others.id_for_pin pin) [ none ↦ new | some id ↦ if has id peers then new else some id ]

-- Where several peers have the key, Go's map order decides; here the table's does.
unfoldable pub client_id : ℕ → Str → Str → Str → Table Peer → OtherIds → Option Str
unfolding new_id
client_id rounds fresh name pin peers others =
    let new = new_id rounds fresh name peers others in
    elim (find_peer (λ p. not (is_empty p.pin) && str_eq p.pin pin) peers) [
      | some id ↦ some id
      | none ↦ new
    ]
