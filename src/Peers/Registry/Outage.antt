-- ===== src/Peers/Registry/Outage.antt =====
-- What a run of failed heartbeats does to a peer.
use jellysync.Common.{
  Str, ℕ, ◌+◌, ◌≡◌, not, ◌&&◌, none, some, List, [], ◌∷◌, arith, ltb, ◌==◌, if◌then◌else◌, length,
}
use mathlib.Core.Path.{subst}
use jellysync.Peers.Registry.{State, online, degraded, offline, Peer, withdraw_after, offering}
use jellysync.Peers.Registry.Heartbeat.{Probe, after_misses, probed, beat}

-- Failed heartbeats, one after the other.
unfoldable pub failed_beats : List Probe → Peer → Peer
failed_beats [] p = p
failed_beats (b ∷ bs) p = failed_beats bs (beat (record b { health = none }) p)

-- The state after `n` failures in a row.
abbrev pub state_after : ℕ → State
state_after n = if n == 0 then online else if ltb n 3 then degraded else offline

-- A peer that was last seen at `at` and missed `n` heartbeats since.
pub record IsOut (n seen : ℕ) (p : Peer) : Type 0 where
  pub missed_is : p.missed ≡ n
  pub state_is : p.state ≡ state_after n
  pub last_seen_is : p.last_seen ≡ seen

beat-IsOut :
    (n seen : ℕ) (b : Probe) (p : Peer)
    → IsOut n seen p
    → IsOut (n + 1) seen (beat (record b { health = none }) p)
unfolding beat probed after_misses
beat-IsOut n seen b p h = record {
  missed_is = ground (arith, h.missed_is);
  state_is = ground (arith, h.missed_is);
  last_seen_is = h.last_seen_is;
}

run-IsOut :
    (n seen : ℕ) (bs : List Probe) (p : Peer)
    → IsOut n seen p
    → IsOut (n + length bs) seen (failed_beats bs p)
unfolding failed_beats
run-IsOut n seen [] p h = subst (λ k. IsOut k seen p) (omega arith) h
run-IsOut n seen (b ∷ bs) p h =
    subst (λ k. IsOut k seen (failed_beats (b ∷ bs) p)) (omega arith)
      (run-IsOut (n + 1) seen bs (beat (record b { health = none }) p) (beat-IsOut n seen b p h))

healthy-IsOut : (b : Probe) (h : Str × Str) (p : Peer) → b.health ≡ some h → IsOut 0 b.at (beat b p)
unfolding beat probed
healthy-IsOut b h p e = record {
  missed_is = ground (arith, e);
  state_is = ground (arith, e);
  last_seen_is = ground (arith, e);
}

-- After a successful heartbeat and any number of failed ones, the peer has missed that many, is
-- ONLINE after none, DEGRADED after one or two and OFFLINE from the third on, and was last seen at
-- the successful one.
pub failed_beats-IsOut :
    (b : Probe) (h : Str × Str) (bs : List Probe) (p : Peer)
    → b.health ≡ some h
    → IsOut (length bs) b.at (failed_beats bs (beat b p))
failed_beats-IsOut b h bs p e =
    subst (λ k. IsOut k b.at (failed_beats bs (beat b p))) (omega arith)
      (run-IsOut 0 b.at bs (beat b p) (healthy-IsOut b h p e))

-- However many heartbeats failed since the last successful one, after one more the peer's items
-- are offered exactly if that one lies less than 15 minutes after the successful one, which was
-- not at the zero time.
pub was_offering-failed_beats :
    (b : Probe) (h : Str × Str) (bs : List Probe) (last : Probe) (p : Peer)
    → b.health ≡ some h
    → (beat (record last { health = none }) (failed_beats bs (beat b p))).was_offering
      ≡ (not (b.at == 0) && ltb last.at (b.at + withdraw_after))
unfolding beat probed after_misses offering
was_offering-failed_beats b h bs last p e =
    let o = failed_beats-IsOut b h bs p e in ground (arith, o.missed_is, o.last_seen_is)
