-- ===== src/Metrics/Examples.antt =====
-- The theorems of the counters at two peers.
use jellysync.Common.{str_eq, lit, ◌≡◌, refl, [], ◌∷◌}
use jellysync.Common.Table.{lookup}
use jellysync.Metrics.{Counters, Collector, flush, new_collector}
use jellysync.Metrics.Restart.{taken, totals, totals-new_collector}

abbrev attic : Counters
attic = record { total_in = 7; total_out = 2; window_in = 1; window_out = 0 }

abbrev barn : Counters
barn = record { total_in = 0; total_out = 5; window_in = 0; window_out = 5 }

abbrev two_peers : Collector
two_peers = record {
  peers = (lit "attic", attic) ∷ (lit "barn", barn) ∷ [];
  in_rows = (lit "attic", 4) ∷ [];
  out_rows = [];
}

totals-new_collector_example :
    totals
      (lit "barn")
      (new_collector (flush taken taken two_peers).in_rows (flush taken taken two_peers).out_rows)
    ≡ (0, 5)
unfolding str_eq lookup
totals-new_collector_example =
    totals-new_collector (lit "barn") barn two_peers (refl, (refl, tt)) (refl, tt) tt refl
