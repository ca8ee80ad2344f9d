-- ===== src/Peerauth/Store/Revoked.antt =====
-- What a revocation leaves.
use jellysync.Common.{
  Str, str_eq, str_eq_iff, ◌≡◌, ◌≢◌, ◌↔◌, inl, inr, Bool, true, none, some, [], ◌∷◌, arith,
  Option-cases, Bool-cases,
}
use jellysync.Common.Table.{Table, lookup, IsUnique, lookup-delete}
use jellysync.Peerauth.Store.{Client, Store, pin_of, revoke}
use jellysync.Peerauth.Store.Sound.{IsSound}

pin_of-found :
    (id : Str) (m : Table Client) (pin : Str)
    → IsUnique m
    → pin_of id m ≡ some pin
    → (c : Client) × (lookup pin m ≡ some c) × (c.id ≡ id)
unfolding pin_of lookup
pin_of-found id [] pin u e = absurd (cc)
pin_of-found id ((q, d) ∷ m) pin u e = elim (Option-cases (pin_of id m)) [
  | inr (p, l) ↦
      let same : p ≡ pin = ground (arith, e, l) in
      let (c, found, is_id) = pin_of-found id m pin u.1 (rw same at l) in
      (c, ground (arith, found, u.0, str_eq_iff q pin), is_id)
  | inl n ↦
      let hit : str_eq d.id id ≡ true = ground (arith, e, n) in
      let same : q ≡ pin = ground (arith, e, n, hit) in
      (d, ground (arith, same, str_eq_iff q pin), ground (arith, hit, str_eq_iff d.id id))
]

-- A revocation that succeeds, in a sound store whose pins each stand once, leaves exactly the
-- clients that were there under another id, each as it was.
pub revoke-leaves :
    (ok : Bool) (id : Str) (s : Store) (q : Str) (d : Client)
    → IsSound s
    → IsUnique s.clients
    → (revoke ok id s).1 ≡ none
    → (lookup q (revoke ok id s).0.clients ≡ some d) ↔ ((lookup q s.clients ≡ some d) × (d.id ≢ id))
unfolding revoke
revoke-leaves ok id s q d h u e = elim (Option-cases (pin_of id s.clients)) [
  | inl n ↦ absurd (ground (arith, e, n))
  | inr (pin, p) ↦ elim (Bool-cases ok) [
    | inr lost ↦ absurd (ground (arith, e, p, lost))
    | inl stored ↦
        let (c, found, is_id) = pin_of-found id s.clients pin u p in
        rw (p, stored, revoke)
          (
            λ l. (
              ground (arith, l, lookup-delete pin q s.clients, str_eq_iff pin q),
              λ i. ground (
                arith,
                l,
                lookup-delete pin q s.clients,
                str_eq_iff pin q,
                h.distinct q pin d c,
                found,
                is_id,
                i,
              ),
            ),
            λ r.
                ground
                  (arith, r.0, lookup-delete pin q s.clients, str_eq_iff pin q, found, is_id, r.1),
          )
  ]
]
