-- ===== src/Peers/Registry/Same.antt =====
-- registry.go: a peer against its row, under the changes that operations make.
use jellysync.Common.{
  Str, str_eq, str_eq_iff, ℕ, ◌≡◌, inl, inr, refl, true, Option, none, some, [], ◌∷◌, arith,
  Option-cases, Bool-cases, is_some,
}
use jellysync.Common.Table.{Table, lookup, insert, has, lookup-insert, mapped}
use jellysync.Peers.Registry.{Peer, PeerRow, Registry, load_peers, disable_all, switched, enabled}
use jellysync.Peers.Registry.Heartbeat.{Probe, probed, beat, persist}
use jellysync.Peers.Registry.Steps.{Same}

pub has-insert {ℓ} : {V : Type ℓ} (id : Str) (v : V) (m : Table V) → has id (insert id v m) ≡ true
has-insert id v m = ground (arith, lookup-insert id id v m, str_eq_iff id id)

pub Same-switched :
    (r : Registry) (p : Peer) (o : Option PeerRow) → Same (some p) o → Same (some (switched r p)) o
Same-switched r p none s = s
Same-switched r p (some row) s = elim (Bool-cases (enabled r p)) [
  | inl on ↦ rw on s
  | inr off ↦ rw off s
]

pub lookup-disable_all :
    (r : Registry) (m : Table Peer) (j : Str)
    → lookup j (disable_all r m) ≡ mapped (switched r) (lookup j m)
unfolding disable_all lookup
lookup-disable_all r [] j = refl
lookup-disable_all r ((id, p) ∷ m) j = ground (arith, lookup-disable_all r m j)

pub Same-all_switched :
    (r : Registry) (o : Option Peer) (w : Option PeerRow)
    → Same o w
    → Same (mapped (switched r) o) w
Same-all_switched r none w s = s
Same-all_switched r (some p) w s = Same-switched r p w s

pub is_some-mapped : (f : Peer → Peer) (o : Option Peer) → is_some (mapped f o) ≡ is_some o
is_some-mapped f none = refl
is_some-mapped f (some p) = refl

pub Same-beat :
    (b : Probe) (p : Peer) (o : Option PeerRow)
    → Same (some p) o
    → Same (some (beat b p)) (mapped (persist b (beat b p)) o)
unfolding beat probed persist
Same-beat b p none s = s
Same-beat b p (some row) s = elim (Option-cases b.health) [
  | inl e ↦ ground (arith, e, s)
  | inr (h, e) ↦ ground (arith, e, s)
]

pub loaded-Same :
    (literal_ip : Str → Str) (now : ℕ) (rows : Table PeerRow) (j : Str)
    → Same (lookup j (load_peers literal_ip now rows)) (lookup j rows)
unfolding load_peers lookup
loaded-Same literal_ip now [] j = tt
loaded-Same literal_ip now ((id, row) ∷ rows) j = elim (Bool-cases (str_eq id j)) [
  | inl t ↦ rw t (refl, refl, refl, refl, omega arith)
  | inr f ↦ rw f (loaded-Same literal_ip now rows j)
]
