-- ===== src/Peerauth/Store/Invites.antt =====
-- The invariant of the pairing store under operations on invites.
use jellysync.Common.{
  Str, str_eq_iff, ℕ, inl, inr, Bool, true, false, not, ◌&&◌, [], ◌∷◌, arith, if◌then◌else◌,
  Bool-cases, ltb, ◌+◌,
}
use jellysync.Common.Table.{Table, has, lookup-insert, lookup-delete}
use jellysync.Peerauth.Store.{
  PendingInvite, Store, unix, drop_invite, sweep_all, sweep_expired, create_invite, cancel_invite,
}
use jellysync.Peerauth.Store.Sound.{IsSound}

pub dropped-IsSound : (pin : Str) (s : Store) → IsSound s → IsSound (drop_invite pin s)
unfolding drop_invite
dropped-IsSound pin s h = record {
  clients_same = h.clients_same;
  invites_same = λ p. ground (
    arith,
    h.invites_same p,
    str_eq_iff pin p,
    lookup-delete pin p s.invites,
    lookup-delete pin p s.invite_rows,
  );
  distinct = h.distinct;
}

pub swept-IsSound :
    (deletes : Str → Bool) (now : ℕ) (m : Table PendingInvite) (s : Store)
    → IsSound s
    → IsSound (sweep_all deletes now m s)
unfolding sweep_all
swept-IsSound deletes now [] s h = h
swept-IsSound deletes now ((pin, inv) ∷ m) s h =
    swept-IsSound deletes now m _ (one (ltb now inv.expires_at) (deletes pin))
  where
    one : (a b : Bool) → IsSound (if a then s else if b then drop_invite pin s else s)
    one true b = h
    one false true = dropped-IsSound pin s h
    one false false = h

pub created-IsSound :
    (deletes : Str → Bool) (ok : Bool) (pin : Str) (ttl now later : ℕ) (s : Store)
    → IsSound s
    → IsSound (create_invite deletes ok pin ttl now later s).0
unfolding create_invite sweep_expired
created-IsSound deletes ok pin ttl now later s h =
    let t = sweep_all deletes later s.invites s in
    let k = swept-IsSound deletes later s.invites s h in
    elim (Bool-cases (ok && not (has pin t.invite_rows))) [
      | inl fits ↦
          rw (fits, create_invite, sweep_expired)
            (record {
              clients_same = k.clients_same;
              invites_same = λ p. ground (
                arith,
                k.invites_same p,
                str_eq_iff pin p,
                lookup-insert pin p (record { pin = pin; created_at = now; expires_at = now + ttl })
                    t.invites,
                lookup-insert pin p
                    (record { created_at = unix now; expires_at = unix (now + ttl) }) t.invite_rows,
              );
              distinct = k.distinct;
            })
      | inr clash ↦ rw (clash, create_invite, sweep_expired) k
    ]

pub cancelled-IsSound :
    (ok : Bool) (pin : Str) (s : Store) → IsSound s → IsSound (cancel_invite ok pin s).0
unfolding cancel_invite
cancelled-IsSound true pin s h = elim (Bool-cases (has pin s.invites)) [
  | inl known ↦ rw (known, cancel_invite) (dropped-IsSound pin s h)
  | inr unknown ↦ rw (unknown, cancel_invite) h
]
cancelled-IsSound false pin s h = elim (Bool-cases (has pin s.invites)) [
  | inl known ↦ rw (known, cancel_invite) h
  | inr unknown ↦ rw (unknown, cancel_invite) h
]
