-- ===== src/Peers/Ids/Shared.antt =====
-- ids.go, with the clients of internal/peerauth/store.go: one namespace for peers and clients.
use jellysync.Common.{
  Str, ℕ, zero, suc, ◌+◌, Bool, false, Option, none, some, ◌≡◌, refl, arith, Bool-cases,
  Option-cases, inl, inr, ◌⊎◌, sym, ap, ◌∙◌, [],
}
use mathlib.Core.Path.{subst}
use jellysync.Common.Table.{Table, lookup, has}
use jellysync.Peers.Registry.{Peer}
use jellysync.Peers.Ids.{slug, numbered, first_free, id_for, taken_locked, new_id, new_id_for_pin}
use jellysync.Peerauth.Store.{Client, id_taken_by}
use jellysync.Peerauth.Ids.{client_ids}

or_fresh : Option Str → Str
or_fresh none = []
or_fresh (some id) = id

first_free_untaken :
    (taken : Str → Bool) (base : Str) (rounds n : ℕ) (id : Str)
    → first_free taken base rounds n ≡ some id
    → taken id ≡ false
unfolding first_free
first_free_untaken taken base zero n id e = ground arith
first_free_untaken taken base (suc rounds) n id e =
    let rest = first_free_untaken taken base rounds (n + 1) id in
    elim (Bool-cases (taken (numbered base n))) [ inl t ↦ ground arith | inr f ↦ ground arith ]

id_for_untaken :
    (rounds : ℕ) (fresh name : Str) (taken : Str → Bool) (id : Str)
    → taken fresh ≡ false
    → id_for rounds fresh name taken ≡ some id
    → taken id ≡ false
unfolding id_for
id_for_untaken rounds fresh name taken id h e =
    let b = first_free_untaken taken (slug name) rounds 1 id in ground arith

-- If a new UUID is nobody's, the id that a new peer gets is no other peer's, and no client's but
-- that of the client with the same key.
pub new_id_for_pin_shared :
    (rounds : ℕ) (fresh name pin : Str) (peers : Table Peer) (clients : Table Client) (id : Str)
    → taken_locked peers (client_ids clients) fresh ≡ false
    → new_id_for_pin rounds fresh name pin peers (client_ids clients) ≡ some id
    → (has id peers ≡ false)
      × ((id_taken_by id clients ≡ false)
          ⊎ ((c : Client) × (lookup pin clients ≡ some c) × (c.id ≡ id)))
unfolding new_id_for_pin new_id taken_locked client_ids or_fresh
new_id_for_pin_shared rounds fresh name pin peers clients id h e =
    let new = id_for_untaken rounds fresh name (taken_locked peers (client_ids clients)) id h in
    elim (Option-cases (lookup pin clients)) [
      | inl n ↦
          let same : new_id_for_pin rounds fresh name pin peers (client_ids clients)
              ≡ id_for rounds fresh name (taken_locked peers (client_ids clients)) =
            rw (n, new_id_for_pin) refl in
          let free = new (sym same ∙ e) in (ground arith, inl (ground arith))
      | inr (c, f) ↦ elim (Bool-cases (has c.id peers)) [
        | inl t ↦
            let same : new_id_for_pin rounds fresh name pin peers (client_ids clients)
                ≡ id_for rounds fresh name (taken_locked peers (client_ids clients)) =
              rw (f, t, new_id_for_pin) refl in
            let free = new (sym same ∙ e) in (ground arith, inl (ground arith))
        | inr u ↦
            let same : new_id_for_pin rounds fresh name pin peers (client_ids clients) ≡ some c.id =
              rw (f, u, new_id_for_pin) refl in
            let own = ap or_fresh (sym same ∙ e) in
            (subst (λ x. has x peers ≡ false) own u, inr (c, f, own))
      ]
    ]
