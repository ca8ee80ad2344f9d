-- ===== src/Peers/Examples.antt =====
-- The registry at one peer.
use jellysync.Common.{
  Str, lit, ℕ, ◌*◌, ◌≡◌, refl, str_eq, Bool, true, is_some, ◌||◌, false, none, some, [], ◌∷◌,
}
use jellysync.Peers.Registry.{
  enabled, Peer, NewPeer, online, load, Registry, load_peers, start_heartbeat, remove_peer,
  add_peer,
}
use jellysync.Peers.Registry.Heartbeat.{Probe, finish_check, check_once, beat}
use jellysync.Peers.Registry.Outage.{
  IsOut, failed_beats, failed_beats-IsOut, was_offering-failed_beats,
}
use jellysync.Peers.Registry.Steps.{IsInStep, here, next, added, removed, checked}
use jellysync.Peers.Registry.InStep.{Reach-IsInStep}
use jellysync.Common.Bytes.{trim_right, drop_while}
use jellysync.Common.Table.{lookup, insert, delete}

abbrev seconds_after : ℕ → ℕ
seconds_after n = n * 1_000_000_000

abbrev healthy : Probe
healthy = record {
  health = some (lit "Attic", lit "1.2");
  rtt = 7;
  ip = lit "10.0.0.2";
  at = seconds_after 100;
}

abbrev failing : ℕ → Probe
failing n = record { health = none; rtt = 0; ip = []; at = seconds_after n }

abbrev attic : Peer
attic = record {
  id = lit "attic";
  url = lit "http://attic";
  state = online;
  name = [];
  version = [];
  ip = [];
  pin = [];
  last_seen = 0;
  rtt = 0;
  missed = 0;
  was_offering = false;
}

after_three_failures :
    IsOut 3
      (seconds_after 100)
      (failed_beats (failing 115 ∷ failing 130 ∷ failing 145 ∷ []) (beat healthy attic))
after_three_failures =
    failed_beats-IsOut healthy (lit "Attic", lit "1.2")
      (failing 115 ∷ failing 130 ∷ failing 145 ∷ []) attic refl

-- 15 minutes after the last success the items are withdrawn.
was_offering-failed_beats_example :
    (beat
      (record (failing 1000) { health = none })
      (failed_beats (failing 115 ∷ failing 130 ∷ []) (beat healthy attic))).was_offering
    ≡ false
was_offering-failed_beats_example =
    was_offering-failed_beats healthy (lit "Attic", lit "1.2") (failing 115 ∷ failing 130 ∷ [])
      (failing 1000) attic refl

abbrev no_ip : Str → Str
no_ip url = []

abbrev newcomer : NewPeer
newcomer = record {
  id = lit "attic";
  url = lit "http://attic/";
  name = lit "Attic";
  version = lit "1.2";
  pin = [];
  ip = [];
  at = seconds_after 90;
}

-- What a test of the registry computes with.
registered : ℕ
unfolding str_eq lookup insert delete trim_right drop_while load load_peers start_heartbeat add_peer
    remove_peer check_once finish_check enabled
registered = 0

abbrev barn : NewPeer
barn = record newcomer { id = lit "barn"; url = lit "http://barn" }

abbrev both : Registry
both = (add_peer true barn (add_peer true newcomer (load no_ip 5 [])).0).0

-- The removal of the barn is refused by the database.
abbrev is_barn : Str → Bool
is_barn id = str_eq id (lit "barn")

abbrev without_barn : Registry
without_barn = (remove_peer false (lit "barn") both).0

barn_is_refused : (false || is_barn (lit "barn")) ≡ true
unfolding registered
barn_is_refused = refl

attic_is_heard : (true || is_barn (lit "attic")) ≡ true
unfolding registered
attic_is_heard = refl

Reach-IsInStep_example : IsInStep is_barn (finish_check true (lit "attic") healthy without_barn).0
Reach-IsInStep_example = Reach-IsInStep is_barn no_ip 5 [] _ (
    next
      (next
        (next (next here (added (load no_ip 5 []) true newcomer))
          (added (add_peer true newcomer (load no_ip 5 [])).0 true barn))
        (removed both false (lit "barn") barn_is_refused))
      (checked without_barn true (lit "attic") healthy attic_is_heard))

-- A peer whose removal was refused is gone from memory, and back after a restart.
removed_from_memory : lookup (lit "barn") without_barn.peers ≡ none
unfolding registered
removed_from_memory = refl

back_after_restart : is_some (lookup (lit "barn") (load no_ip 5 without_barn.rows).peers) ≡ true
unfolding registered
back_after_restart = refl
