-- ===== src/Peerauth/Store/Tables.antt =====
-- The invariant of the pairing store under pairing, revocation and sights, and along its steps.
use jellysync.Common.{
  Str, str_eq, str_eq_iff, ℕ, ◌≡◌, ◌≢◌, ◌∙◌, refl, inl, inr, Bool, true, false, Option, none, some,
  [], ◌∷◌, arith, if◌then◌else◌, Option-cases, Bool-cases, ltb, ◌+◌,
}
use jellysync.Common.Table.{
  Table, lookup, insert, update, lookup-insert, lookup-delete, lookup-update, mapped,
}
use jellysync.Peerauth.Store.{
  Client, ClientRow, Store, unix, drop_invite, sweep_expired, pending_invite, id_taken_by, redeemed,
  save_client, redeem, pin_of, revoke, touch, touch_every,
}
use jellysync.Peerauth.Store.Sound.{
  SameClient, IsSound, Step, created, swept, cancelled, paired, revoked, touched, restarted, Reach,
  here, next,
}
use jellysync.Peerauth.Store.Loaded.{restarted-IsSound}
use jellysync.Peerauth.Store.Invites.{
  dropped-IsSound, swept-IsSound, created-IsSound, cancelled-IsSound,
}

-- An id that nobody has is not the id of a client found.
not-id_taken_by :
    (id : Str) (m : Table Client) (p : Str) (c : Client)
    → id_taken_by id m ≡ false
    → lookup p m ≡ some c
    → c.id ≢ id
unfolding id_taken_by lookup
not-id_taken_by id [] p c f e = λ i. cc
not-id_taken_by id ((q, d) ∷ m) p c f e =
    λ i. ground (arith, str_eq_iff d.id id, str_eq_iff q p, not-id_taken_by id m p c)

-- The id of the client that is saved belongs to its pin alone.
redeemed-id :
    (pin name id : Str) (now : ℕ) (s : Store) (c : Client) (q : Str) (d : Client)
    → IsSound s
    → redeemed pin name id now s ≡ some c
    → lookup q s.clients ≡ some d
    → d.id ≡ c.id
    → q ≡ pin
unfolding redeemed
redeemed-id pin name id now s c q d h r e same = elim (Option-cases (lookup pin s.clients)) [
  | inl n ↦ elim (Bool-cases (id_taken_by id s.clients)) [
    | inl taken ↦ absurd (ground (arith, r, n, taken))
    | inr free ↦
        let new : c.id ≡ id = ground (arith, r, n, free) in
        absurd (not-id_taken_by id s.clients q d free e (same ∙ new))
  ]
  | inr (old, o) ↦ h.distinct q pin d old e o (same ∙ ground (arith, r, o))
]

Same-saved :
    (pin name id : Str) (now : ℕ) (s : Store) (c : Client)
    → IsSound s
    → redeemed pin name id now s ≡ some c
    → SameClient (some c) (some (save_client c (lookup pin s.client_rows)))
unfolding redeemed save_client
Same-saved pin name id now s c h r = elim (Option-cases (lookup pin s.client_rows)) [
  | inl n ↦ rw n (refl, refl, refl)
  | inr (row, e) ↦ elim (Option-cases (lookup pin s.clients)) [
    | inl m ↦ absurd (rw (m, e) at (h.clients_same pin))
    | inr (old, o) ↦
        let agrees : SameClient (some old) (some row) = rw (o, e) at (h.clients_same pin) in
        rw e (ground (arith, agrees, r, o), refl, ground (arith, agrees, r, o))
  ]
]

saved-IsSound :
    (pin : Str) (c : Client) (row : ClientRow) (s : Store)
    → IsSound s
    → SameClient (some c) (some row)
    → ((q : Str) (d : Client) → lookup q s.clients ≡ some d → d.id ≡ c.id → q ≡ pin)
    → IsSound
        (record s { clients = insert pin c s.clients; client_rows = insert pin row s.client_rows })
saved-IsSound pin c row s h same own = record {
  clients_same = λ p. ground (
    arith,
    same,
    h.clients_same p,
    str_eq_iff pin p,
    lookup-insert pin p c s.clients,
    lookup-insert pin p row s.client_rows,
  );
  invites_same = h.invites_same;
  distinct = λ p q d e at_p at_q i. ground (
    arith,
    str_eq_iff pin p,
    str_eq_iff pin q,
    lookup-insert pin p c s.clients,
    lookup-insert pin q c s.clients,
    own p d,
    own q e,
    h.distinct p q d e,
  );
}

paired-IsSound :
    (ok : Bool) (tmp_pin pin name id : Str) (now : ℕ) (s : Store)
    → IsSound s
    → IsSound (redeem ok tmp_pin pin name id now s).0
unfolding redeem
paired-IsSound ok tmp_pin pin name id now s h = elim (Bool-cases (pending_invite now tmp_pin s)) [
  | inr stale ↦ rw (stale, redeem) h
  | inl pending ↦ elim (Option-cases (redeemed pin name id now s)) [
    | inl taken ↦ rw (pending, taken, redeem) h
    | inr (c, r) ↦ elim (Bool-cases ok) [
      | inr lost ↦ rw (pending, r, lost, redeem) h
      | inl stored ↦
          rw (pending, r, stored, redeem)
            (saved-IsSound pin c (save_client c (lookup pin s.client_rows)) (drop_invite tmp_pin s)
              (dropped-IsSound tmp_pin s h) (Same-saved pin name id now s c h r)
              (λ q d e i. redeemed-id pin name id now s c q d h r e i))
    ]
  ]
]

revoked-IsSound : (ok : Bool) (id : Str) (s : Store) → IsSound s → IsSound (revoke ok id s).0
unfolding revoke
revoked-IsSound ok id s h = elim (Option-cases (pin_of id s.clients)) [
  | inl unknown ↦ rw (unknown, revoke) h
  | inr (pin, e) ↦ elim (Bool-cases ok) [
    | inr lost ↦ rw (e, lost, revoke) h
    | inl stored ↦
        rw (e, stored, revoke)
          (record {
            clients_same = λ p. ground (
              arith,
              h.clients_same p,
              str_eq_iff pin p,
              lookup-delete pin p s.clients,
              lookup-delete pin p s.client_rows,
            );
            invites_same = h.invites_same;
            distinct = λ p q d f at_p at_q i. ground (
              arith,
              lookup-delete pin p s.clients,
              lookup-delete pin q s.clients,
              h.distinct p q d f,
            );
          })
  ]
]

seen-IsSound :
    (pin : Str) (now : ℕ) (c : Client) (s : Store)
    → lookup pin s.clients ≡ some c
    → IsSound s
    → IsSound (record s { clients = insert pin (record c { last_seen_at = now }) s.clients })
seen-IsSound pin now c s e h = record {
  clients_same = λ p.
      let at_pin : SameClient (some c) (lookup pin s.client_rows) = rw e at (h.clients_same pin) in
      ground (
        arith,
        at_pin,
        h.clients_same p,
        str_eq_iff pin p,
        lookup-insert pin p (record c { last_seen_at = now }) s.clients,
      );
  invites_same = h.invites_same;
  distinct = λ p q d f at_p at_q i. ground (
    arith,
    str_eq_iff pin p,
    str_eq_iff pin q,
    lookup-insert pin p (record c { last_seen_at = now }) s.clients,
    lookup-insert pin q (record c { last_seen_at = now }) s.clients,
    h.distinct p q d f,
    h.distinct p q c f,
    h.distinct p q d c,
    h.distinct p q c c,
  );
}

Same-stamped :
    (b : Bool) (at : ℕ) (o : Option Client) (w : Option ClientRow)
    → SameClient o w
    → SameClient o (if b then mapped (λ r. record r { last_seen_at = at }) w else w)
Same-stamped true at none none h = h
Same-stamped true at (some c) (some r) h = h
Same-stamped true at none (some r) h = h
Same-stamped true at (some c) none h = h
Same-stamped false at o w h = h

stamped-IsSound :
    (pin : Str) (at : ℕ) (s : Store)
    → IsSound s
    → IsSound
        (record s { client_rows = update pin (λ r. record r { last_seen_at = at }) s.client_rows })
stamped-IsSound pin at s h = record {
  clients_same = λ p. rw (lookup-update pin p (λ r. record r { last_seen_at = at }) s.client_rows) (
      Same-stamped (str_eq pin p) at (lookup p s.clients) (lookup p s.client_rows)
        (h.clients_same p));
  invites_same = h.invites_same;
  distinct = h.distinct;
}

touched-IsSound :
    (ok : Bool) (pin : Str) (now : ℕ) (s : Store) → IsSound s → IsSound (touch ok pin now s)
unfolding touch
touched-IsSound ok pin now s h = elim (Option-cases (lookup pin s.clients)) [
  | inl n ↦ rw (n, touch) h
  | inr (c, e) ↦ elim (Bool-cases (ltb now (c.last_seen_at + touch_every))) [
    | inl soon ↦ rw (e, soon, touch) h
    | inr late ↦ elim (Bool-cases ok) [
      | inl stored ↦
          rw (e, late, stored, touch)
            (stamped-IsSound pin (unix now)
              (record s { clients = insert pin (record c { last_seen_at = now }) s.clients })
              (seen-IsSound pin now c s e h))
      | inr lost ↦ rw (e, late, lost, touch) (seen-IsSound pin now c s e h)
    ]
  ]
]

Step-IsSound : {Allowed : Str → Type 0} {s t : Store} → Step Allowed s t → IsSound s → IsSound t
Step-IsSound (created s deletes ok pin ttl now later a) h =
    created-IsSound deletes ok pin ttl now later s h
Step-IsSound (swept s deletes now) h =
    unfold sweep_expired in swept-IsSound deletes now s.invites s h
Step-IsSound (cancelled s ok pin) h = cancelled-IsSound ok pin s h
Step-IsSound (paired s ok tmp_pin pin name id now) h = paired-IsSound ok tmp_pin pin name id now s h
Step-IsSound (revoked s ok id) h = revoked-IsSound ok id s h
Step-IsSound (touched s ok pin now) h = touched-IsSound ok pin now s h
Step-IsSound (restarted s) h = restarted-IsSound s h

-- From a store where memory and tables agree and no two clients share an id, whatever operations
-- run, restarts from the tables included, and whichever writes the database refuses, both hold again: the same invites with the same
-- times, the same clients with the same id, name and time of pairing, all ids different.
pub reached-IsSound :
    (Allowed : Str → Type 0) (s t : Store) → IsSound s → Reach Allowed s t → IsSound t
reached-IsSound Allowed s t h here = h
reached-IsSound Allowed s t h (next r st) = Step-IsSound st (reached-IsSound Allowed s _ h r)
