-- ===== src/Peerauth/Store/Loaded.antt =====
-- A store read from its tables.
use jellysync.Common.{
  Str, str_eq, ◌≡◌, ◌∙◌, sym, refl, Option, none, some, [], ◌∷◌, arith, Bool-cases, inl, inr,
}
use jellysync.Common.Table.{Table, lookup}
use jellysync.Peerauth.Store.{
  Client, ClientRow, InviteRow, load_clients, load_invites, new_store, Store,
}
use jellysync.Peerauth.Store.Sound.{SameClient, SameInvite, IsSound}

load_clients-Same :
    (pin : Str) (rows : Table ClientRow)
    → SameClient (lookup pin (load_clients rows)) (lookup pin rows)
unfolding load_clients lookup
load_clients-Same pin [] = tt
load_clients-Same pin ((p, r) ∷ rows) = elim (Bool-cases (str_eq p pin)) [
  | inl same ↦ rw same (refl, refl, omega arith)
  | inr other ↦ rw other (load_clients-Same pin rows)
]

load_invites-Same :
    (pin : Str) (rows : Table InviteRow)
    → SameInvite (lookup pin (load_invites rows)) (lookup pin rows)
unfolding load_invites lookup
load_invites-Same pin [] = tt
load_invites-Same pin ((p, r) ∷ rows) = elim (Bool-cases (str_eq p pin)) [
  | inl same ↦ rw same (omega arith, omega arith)
  | inr other ↦ rw other (load_invites-Same pin rows)
]

row_of :
    (c : Client) (o : Option ClientRow)
    → SameClient (some c) o
    → (r : ClientRow) × (o ≡ some r) × (c.id ≡ r.id)
row_of c none h = elim h [ ]
row_of c (some r) h = (r, refl, h.0)

-- A store started from its tables agrees with them, and if no two rows of the clients' table share
-- an id, as its primary key has it, then no two clients do.
pub new_store-IsSound :
    (rows : Table ClientRow) (invites : Table InviteRow)
    → ((p q : Str) (a b : ClientRow)
        → lookup p rows ≡ some a
        → lookup q rows ≡ some b
        → a.id ≡ b.id
        → p ≡ q)
    → IsSound (new_store rows invites)
unfolding new_store
new_store-IsSound rows invites key = record {
  clients_same = λ pin. load_clients-Same pin rows;
  invites_same = λ pin. load_invites-Same pin invites;
  distinct = λ p q c d at_p at_q same.
      let (a, is_a, id_a) = row_of c (lookup p rows) (rw at_p at (load_clients-Same p rows)) in
      let (b, is_b, id_b) = row_of d (lookup q rows) (rw at_q at (load_clients-Same q rows)) in
      key p q a b is_a is_b (sym id_a ∙ same ∙ id_b);
}

client_of :
    (r : ClientRow) (o : Option Client)
    → SameClient o (some r)
    → (c : Client) × (o ≡ some c) × (c.id ≡ r.id)
client_of r none h = elim h [ ]
client_of r (some c) h = (c, refl, h.0)

-- A restart of a store that agrees with its tables gives one that does.
pub restarted-IsSound : (s : Store) → IsSound s → IsSound (new_store s.client_rows s.invite_rows)
restarted-IsSound s h = new_store-IsSound s.client_rows s.invite_rows (λ p q a b at_p at_q same.
    let (c, is_c, id_c) = client_of a (lookup p s.clients) (rw at_p at (h.clients_same p)) in
    let (d, is_d, id_d) = client_of b (lookup q s.clients) (rw at_q at (h.clients_same q)) in
    h.distinct p q c d is_c is_d (id_c ∙ same ∙ sym id_d))
