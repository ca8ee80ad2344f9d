-- ===== src/Peers/Registry/InStep.antt =====
-- The peers in memory against their table.
use jellysync.Common.{
  Str, str_eq, str_eq_iff, ℕ, ◌≡◌, ◌||◌, if◌then◌else◌, inl, inr, refl, Bool, true, false, some,
  arith, Option-cases, Bool-cases,
}
use jellysync.Common.Table.{
  Table, lookup, insert, update, has, lookup-insert, lookup-delete, lookup-update, mapped,
}
use jellysync.Peers.Registry.{
  Peer, PeerRow, Registry, load, start_heartbeat, add_peer, remove_peer, NewPeer, new_peer, new_row,
  switched, set_transports,
}
use jellysync.Peers.Registry.Heartbeat.{Probe, beat, persist, finish_check}
use jellysync.Peers.Registry.Steps.{
  Same, IsInStep, IsElsewhere, Step, Reach, here, next, added, removed, transports, started,
  checked, overlapped, apart,
}
use jellysync.Peers.Registry.Same.{
  has-insert, Same-switched, lookup-disable_all, Same-all_switched, is_some-mapped, Same-beat,
  loaded-Same,
}

module _ (disturbed : Str → Bool) where
  started-IsInStep :
      (id : Str) (r : Registry)
      → has id r.peers ≡ true
      → IsInStep disturbed r
      → IsInStep disturbed (start_heartbeat id r)
  unfolding start_heartbeat
  started-IsInStep id r k s = record {
    same = λ j u. ground (arith, s.same j u);
    known =
        λ j u. ground (arith, s.known j u, str_eq_iff id j, lookup-insert id j true r.heartbeats);
  }

  put-IsInStep :
      (id : Str) (p : Peer) (row : PeerRow) (r : Registry)
      → Same (some p) (some row)
      → IsInStep disturbed r
      → IsInStep disturbed (record r { rows = insert id row r.rows; peers = insert id p r.peers })
  put-IsInStep id p row r e s = record {
    same = λ j u. ground (
      arith,
      e,
      s.same j u,
      str_eq_iff id j,
      lookup-insert id j p r.peers,
      lookup-insert id j row r.rows,
    );
    known = λ j u. ground (arith, s.known j u, str_eq_iff id j, lookup-insert id j p r.peers);
  }

  added-IsInStep :
      (ok : Bool) (n : NewPeer) (r : Registry)
      → IsInStep disturbed r
      → IsInStep disturbed (add_peer ok n r).0
  unfolding add_peer
  added-IsInStep false n r s = s
  added-IsInStep true n r s =
      started-IsInStep n.id _ (has-insert n.id (switched r (new_peer n)) r.peers) (
        put-IsInStep n.id (switched r (new_peer n)) (new_row n (lookup n.id r.rows)) r
          (Same-switched r (new_peer n) (some (new_row n (lookup n.id r.rows)))
            (refl, refl, refl, refl, refl))
          s)

  removed-IsInStep :
      (ok : Bool) (id : Str) (r : Registry)
      → (ok || disturbed id) ≡ true
      → IsInStep disturbed r
      → IsInStep disturbed (remove_peer ok id r).0
  unfolding remove_peer
  removed-IsInStep true id r d s = record {
    same = λ j u.
        ground (
          arith,
          s.same j u,
          str_eq_iff id j,
          lookup-delete id j r.peers,
          lookup-delete id j r.rows,
        );
    known = λ j u. ground (
      arith,
      s.known j u,
      str_eq_iff id j,
      lookup-delete id j r.peers,
      lookup-delete id j r.heartbeats,
    );
  }
  removed-IsInStep false id r d s = record {
    same = λ j u. ground (arith, s.same j u, apart disturbed id j d u, lookup-delete id j r.peers);
    known = λ j u. ground (
      arith,
      s.known j u,
      apart disturbed id j d u,
      lookup-delete id j r.peers,
      lookup-delete id j r.heartbeats,
    );
  }

  transports-IsInStep :
      (http mtls : Bool) (r : Registry)
      → IsInStep disturbed r
      → IsInStep disturbed (set_transports http mtls r)
  unfolding set_transports
  transports-IsInStep http mtls r s = record {
    same = λ j u.
        rw (lookup-disable_all _ r.peers j) (Same-all_switched _ (lookup j r.peers) _ (s.same j u));
    known = λ j u. rw (lookup-disable_all _ r.peers j, is_some-mapped) (s.known j u);
  }

  beaten-IsInStep :
      (ok : Bool) (id : Str) (b : Probe) (r : Registry) (p : Peer)
      → lookup id r.peers ≡ some p
      → (ok || disturbed id) ≡ true
      → IsInStep disturbed r
      → IsInStep disturbed (record r {
        peers = insert id (beat b p) r.peers;
        rows = if ok then update id (persist b (beat b p)) r.rows else r.rows;
      })
  beaten-IsInStep true id b r p e d s = record {
    same = λ j u. elim (Bool-cases (str_eq id j)) [
      | inl here_it ↦
          let at_id : disturbed id ≡ false = ground (arith, u, str_eq_iff id j) in
          let after : Same (some (beat b p)) (mapped (persist b (beat b p)) (lookup id r.rows)) =
            Same-beat b p (lookup id r.rows) (rw e at (s.same id at_id)) in
          ground (
            arith,
            after,
            here_it,
            str_eq_iff id j,
            lookup-insert id j (beat b p) r.peers,
            lookup-update id j (persist b (beat b p)) r.rows,
          )
      | inr other ↦ ground (
        arith,
        s.same j u,
        other,
        lookup-insert id j (beat b p) r.peers,
        lookup-update id j (persist b (beat b p)) r.rows,
      )
    ];
    known =
        λ j u. ground (arith, s.known j u, str_eq_iff id j, lookup-insert id j (beat b p) r.peers);
  }
  beaten-IsInStep false id b r p e d s = record {
    same = λ j u.
        ground (arith, s.same j u, apart disturbed id j d u, lookup-insert id j (beat b p) r.peers);
    known =
        λ j u. ground (arith, s.known j u, str_eq_iff id j, lookup-insert id j (beat b p) r.peers);
  }

  checked-IsInStep :
      (ok : Bool) (id : Str) (b : Probe) (r : Registry)
      → (ok || disturbed id) ≡ true
      → IsInStep disturbed r
      → IsInStep disturbed (finish_check ok id b r).0
  unfolding finish_check
  checked-IsInStep ok id b r d s = elim (Option-cases (lookup id r.peers)) [
    | inl e ↦ rw (e, finish_check) s
    | inr (p, e) ↦ rw (e, finish_check) (beaten-IsInStep ok id b r p e d s)
  ]

  overlapped-IsInStep :
      (r t : Registry) (id : Str)
      → disturbed id ≡ true
      → IsElsewhere id r t
      → IsInStep disturbed r
      → IsInStep disturbed t
  overlapped-IsInStep r t id d k s = record {
    same = λ j u.
        let a = apart disturbed id j d u in rw (k.peers_kept j a, k.rows_kept j a) (s.same j u);
    known = λ j u.
        let a = apart disturbed id j d u in
        rw (k.peers_kept j a, k.heartbeats_kept j a) (s.known j u);
  }

  loaded-IsInStep :
      (literal_ip : Str → Str) (now : ℕ) (rows : Table PeerRow)
      → IsInStep disturbed (load literal_ip now rows)
  unfolding load lookup
  loaded-IsInStep literal_ip now rows = record {
    same = λ j u. loaded-Same literal_ip now rows j;
    known = λ j u. inl refl;
  }

  Step-IsInStep :
      {r t : Registry} → Step disturbed r t → IsInStep disturbed r → IsInStep disturbed t
  Step-IsInStep (added r ok n) s = added-IsInStep ok n r s
  Step-IsInStep (removed r ok id d) s = removed-IsInStep ok id r d s
  Step-IsInStep (transports r http mtls) s = transports-IsInStep http mtls r s
  Step-IsInStep (started r id k) s = started-IsInStep id r k s
  Step-IsInStep (checked r ok id b d) s = checked-IsInStep ok id b r d s
  Step-IsInStep (overlapped r t id d k) s = overlapped-IsInStep r t id d k s

  -- After a start from any table of peers and any sequence of heartbeats, peers added or removed and
  -- transports turned on or off, for every id on which the database refused no removal and no
  -- heartbeat's update and no two operations overlapped: memory and the table both have no such
  -- peer, or hold it with the same URL, name, version, key and second of last sight, and a heartbeat
  -- runs for it only if it is registered. What happens to other ids does not matter.
  pub Reach-IsInStep :
      (literal_ip : Str → Str) (now : ℕ) (rows : Table PeerRow) (r : Registry)
      → Reach disturbed (load literal_ip now rows) r
      → IsInStep disturbed r
  Reach-IsInStep literal_ip now rows r here = loaded-IsInStep literal_ip now rows
  Reach-IsInStep literal_ip now rows r (next h st) =
      Step-IsInStep st (Reach-IsInStep literal_ip now rows _ h)
