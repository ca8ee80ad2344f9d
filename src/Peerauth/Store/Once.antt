-- ===== src/Peerauth/Store/Once.antt =====
-- store.go Redeem over time: invites that are used up, and the clients' ids.
use jellysync.Common.{
  Str, str_eq, str_eq_iff, ℕ, ◌≡◌, ◌≢◌, refl, inl, inr, Bool, true, false, not, ◌&&◌, none, some,
  [], ◌∷◌, arith, if◌then◌else◌, Option-cases, Bool-cases, ltb, ◌+◌,
}
use jellysync.Common.Table.{Table, lookup, insert, has, lookup-insert, lookup-delete}
use jellysync.Peerauth.Store.{
  Client, PendingInvite, InviteRow, Store, unix, accepted, refused, invite_invalid, drop_invite,
  sweep_all, sweep_expired, create_invite, cancel_invite, pending_invite, redeemed, redeem, revoke,
  touch, load_invites, new_store,
}
use jellysync.Peerauth.Store.Sound.{
  Step, created, swept, cancelled, paired, revoked, touched, restarted, Reach, here, next,
}

-- The invite is neither in memory nor in the table.
abbrev Gone : Str → Store → Type 0
Gone pin s = (lookup pin s.invites ≡ none) × (lookup pin s.invite_rows ≡ none)

dropped-Gone : (tmp pin : Str) (s : Store) → Gone tmp s → Gone tmp (drop_invite pin s)
unfolding drop_invite
dropped-Gone tmp pin s g =
    ground (arith, g, lookup-delete pin tmp s.invites, lookup-delete pin tmp s.invite_rows)

swept-Gone :
    (tmp : Str) (deletes : Str → Bool) (now : ℕ) (m : Table PendingInvite) (s : Store)
    → Gone tmp s
    → Gone tmp (sweep_all deletes now m s)
unfolding sweep_all
swept-Gone tmp deletes now [] s g = g
swept-Gone tmp deletes now ((pin, inv) ∷ m) s g =
    swept-Gone tmp deletes now m _ (one (ltb now inv.expires_at) (deletes pin))
  where
    one : (a b : Bool) → Gone tmp (if a then s else if b then drop_invite pin s else s)
    one true b = g
    one false true = dropped-Gone tmp pin s g
    one false false = g

created-Gone :
    (tmp : Str) (deletes : Str → Bool) (ok : Bool) (pin : Str) (ttl now later : ℕ) (s : Store)
    → pin ≢ tmp
    → Gone tmp s
    → Gone tmp (create_invite deletes ok pin ttl now later s).0
unfolding create_invite sweep_expired
created-Gone tmp deletes ok pin ttl now later s other g =
    let t = sweep_all deletes later s.invites s in
    let k : Gone tmp t = swept-Gone tmp deletes later s.invites s g in
    elim (Bool-cases (ok && not (has pin t.invite_rows))) [
      | inl fits ↦
          rw (fits, create_invite, sweep_expired)
            (ground (
              arith,
              k,
              other,
              str_eq_iff pin tmp,
              lookup-insert pin tmp (record { pin = pin; created_at = now; expires_at = now + ttl })
                  t.invites,
              lookup-insert pin tmp
                  (record { created_at = unix now; expires_at = unix (now + ttl) }) t.invite_rows,
            ))
      | inr clash ↦ rw (clash, create_invite, sweep_expired) k
    ]

not_pending : (tmp : Str) (now : ℕ) (s : Store) → Gone tmp s → pending_invite now tmp s ≡ false
unfolding pending_invite
not_pending tmp now s g = rw g.0 refl

redeem-Gone :
    (ok : Bool) (tmp pin name id : Str) (now : ℕ) (s : Store)
    → Gone tmp s
    → redeem ok tmp pin name id now s ≡ (s, refused invite_invalid)
unfolding redeem
redeem-Gone ok tmp pin name id now s g = rw (not_pending tmp now s g, redeem) refl

paired-Gone :
    (tmp : Str) (ok : Bool) (other pin name id : Str) (now : ℕ) (s : Store)
    → Gone tmp s
    → Gone tmp (redeem ok other pin name id now s).0
unfolding redeem
paired-Gone tmp ok other pin name id now s g = elim (Bool-cases (pending_invite now other s)) [
  | inr stale ↦ rw (stale, redeem) g
  | inl pending ↦ elim (Option-cases (redeemed pin name id now s)) [
    | inl taken ↦ rw (pending, taken, redeem) g
    | inr (c, r) ↦ elim (Bool-cases ok) [
      | inr lost ↦ rw (pending, r, lost, redeem) g
      | inl stored ↦ rw (pending, r, stored, redeem) (dropped-Gone tmp other s g)
    ]
  ]
]

cancelled-Gone :
    (tmp : Str) (ok : Bool) (pin : Str) (s : Store)
    → Gone tmp s
    → Gone tmp (cancel_invite ok pin s).0
unfolding cancel_invite
cancelled-Gone tmp ok pin s g = ground (arith, dropped-Gone tmp pin s g)

revoked-Gone :
    (tmp : Str) (ok : Bool) (id : Str) (s : Store) → Gone tmp s → Gone tmp (revoke ok id s).0
unfolding revoke
revoked-Gone tmp ok id s g = ground arith

touched-Gone :
    (tmp : Str) (ok : Bool) (pin : Str) (now : ℕ) (s : Store)
    → Gone tmp s
    → Gone tmp (touch ok pin now s)
unfolding touch
touched-Gone tmp ok pin now s g = ground arith

not_loaded :
    (tmp : Str) (rows : Table InviteRow)
    → lookup tmp rows ≡ none
    → lookup tmp (load_invites rows) ≡ none
unfolding load_invites lookup
not_loaded tmp [] g = refl
not_loaded tmp ((pin, r) ∷ rows) g = ground (arith, g, not_loaded tmp rows)

restarted-Gone :
    (tmp : Str) (s : Store) → Gone tmp s → Gone tmp (new_store s.client_rows s.invite_rows)
unfolding new_store
restarted-Gone tmp s g = (not_loaded tmp s.invite_rows g.1, g.1)

Step-Gone : {tmp : Str} {s t : Store} → Step (λ pin. pin ≢ tmp) s t → Gone tmp s → Gone tmp t
Step-Gone (created s deletes ok pin ttl now later other) g =
    created-Gone _ deletes ok pin ttl now later s other g
Step-Gone (swept s deletes now) g = unfold sweep_expired in swept-Gone _ deletes now s.invites s g
Step-Gone (cancelled s ok pin) g = cancelled-Gone _ ok pin s g
Step-Gone (paired s ok other pin name id now) g = paired-Gone _ ok other pin name id now s g
Step-Gone (revoked s ok id) g = revoked-Gone _ ok id s g
Step-Gone (touched s ok pin now) g = touched-Gone _ ok pin now s g
Step-Gone (restarted s) g = restarted-Gone _ s g

Reach-Gone : {tmp : Str} {s t : Store} → Reach (λ pin. pin ≢ tmp) s t → Gone tmp s → Gone tmp t
Reach-Gone here g = g
Reach-Gone (next r st) g = Step-Gone st (Reach-Gone r g)

accepted-Gone :
    (ok : Bool) (tmp pin name id : Str) (now : ℕ) (s : Store) (c : Client)
    → (redeem ok tmp pin name id now s).1 ≡ accepted c
    → Gone tmp (redeem ok tmp pin name id now s).0
unfolding redeem drop_invite
accepted-Gone ok tmp pin name id now s c e = ground (
  arith,
  lookup-delete tmp tmp s.invites,
  lookup-delete tmp tmp s.invite_rows,
  str_eq_iff tmp tmp,
)

-- Once an invite was redeemed, whatever operations run next, restarts from the tables included, and
-- whichever writes the database refuses, its key is refused for good and changes nothing, unless a
-- new invite is made with the same key.
pub redeemed_once :
    (ok : Bool) (tmp pin name id : Str) (now : ℕ) (s : Store) (c : Client) (t : Store) (ok' : Bool)
    (pin' name' id' : Str) (now' : ℕ)
    → (redeem ok tmp pin name id now s).1 ≡ accepted c
    → Reach (λ key. key ≢ tmp) (redeem ok tmp pin name id now s).0 t
    → redeem ok' tmp pin' name' id' now' t ≡ (t, refused invite_invalid)
redeemed_once ok tmp pin name id now s c t ok' pin' name' id' now' e r =
    redeem-Gone ok' tmp pin' name' id' now' t
      (Reach-Gone r (accepted-Gone ok tmp pin name id now s c e))

lookup-saved :
    (pin p : Str) (c d : Client) (m : Table Client)
    → lookup p m ≡ some d
    → ((old : Client) → lookup pin m ≡ some old → c.id ≡ old.id)
    → (e : Client) × (lookup p (insert pin c m) ≡ some e) × (e.id ≡ d.id)
lookup-saved pin p c d m found keeps = elim (Bool-cases (str_eq pin p)) [
  | inr other ↦ (d, ground (arith, found, lookup-insert pin p c m, other), refl)
  | inl same ↦
      let at_pin : lookup pin m ≡ some d = ground (arith, found, str_eq_iff pin p) in
      (c, ground (arith, lookup-insert pin p c m, same), keeps d at_pin)
]

-- Pairing, whatever its outcome, neither removes a client nor changes a client's id, its own by
-- re-pairing included.
pub redeem-keeps_ids :
    (ok : Bool) (tmp pin name id : Str) (now : ℕ) (s : Store) (p : Str) (d : Client)
    → lookup p s.clients ≡ some d
    → (e : Client) × (lookup p (redeem ok tmp pin name id now s).0.clients ≡ some e) × (e.id ≡ d.id)
unfolding redeem redeemed
redeem-keeps_ids ok tmp pin name id now s p d found = elim (Bool-cases (pending_invite now tmp s)) [
  | inr stale ↦ rw (stale, redeem) (d, found, refl)
  | inl pending ↦ elim (Option-cases (redeemed pin name id now s)) [
    | inl taken ↦ rw (pending, taken, redeem) (d, found, refl)
    | inr (c, r) ↦ elim (Bool-cases ok) [
      | inr lost ↦ rw (pending, r, lost, redeem) (d, found, refl)
      | inl stored ↦
          rw (pending, r, stored, redeem)
            (lookup-saved pin p c d s.clients found (λ old e. ground (arith, r, e)))
    ]
  ]
]
