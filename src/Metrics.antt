-- ===== src/Metrics.antt =====
-- internal/metrics/metrics.go: the bytes counted for each peer and their table. Bit rates and their
-- history are left out. The table peer_traffic is one table for each direction.
pub mod Restart
pub mod Examples
use jellysync.Common.{
  Str, is_empty, ℕ, zero, suc, ◌+◌, Bool, true, false, Option, none, some, [], ◌∷◌, if◌then◌else◌,
}
use jellysync.Common.Table.{Table, lookup, insert}
use jellysync.Catalog.Entry.{ℤ, pos, negsuc}

pub data Direction : Type 0 where
  incoming outgoing : Direction

pub record Counters : Type 0 where
  pub total_in : ℕ
  pub total_out : ℕ
  pub window_in : ℕ
  pub window_out : ℕ

abbrev pub no_bytes : Counters
no_bytes = record { total_in = 0; total_out = 0; window_in = 0; window_out = 0 }

pub record Collector : Type 0 where
  pub peers : Table Counters
  pub in_rows : Table ℕ
  pub out_rows : Table ℕ

-- What peerCounters finds or makes.
abbrev pub counters_or_new : Option Counters → Counters
counters_or_new none = no_bytes
counters_or_new (some c) = c

unfoldable pub count_bytes : Direction → ℕ → Counters → Counters
count_bytes incoming n c = record c { total_in = c.total_in + n; window_in = c.window_in + n }
count_bytes outgoing n c = record c { total_out = c.total_out + n; window_out = c.window_out + n }

-- RecordBytes
unfoldable pub record_bytes : Str → Direction → ℤ → Collector → Collector
unfolding count_bytes
record_bytes peer dir (negsuc n) c = c
record_bytes peer dir (pos zero) c = c
record_bytes peer dir (pos (suc n)) c = if is_empty peer then c else record c {
  peers = insert peer (count_bytes dir (suc n) (counters_or_new (lookup peer c.peers))) c.peers;
}

-- One peer of flush: a failed first write skips the second.
unfoldable pub flush_one : Bool → Bool → Str → Counters → Collector → Collector
flush_one false ok_out id cnt c = c
flush_one true ok_out id cnt c = record c {
  in_rows = insert id cnt.total_in c.in_rows;
  out_rows = if ok_out then insert id cnt.total_out c.out_rows else c.out_rows;
}

unfoldable pub flush_all : (Str → Bool) → (Str → Bool) → Table Counters → Collector → Collector
unfolding flush_one
flush_all ok_in ok_out [] c = c
flush_all ok_in ok_out ((id, cnt) ∷ rest) c =
    flush_all ok_in ok_out rest (flush_one (ok_in id) (ok_out id) id cnt c)

unfoldable pub flush : (Str → Bool) → (Str → Bool) → Collector → Collector
unfolding flush_all
flush ok_in ok_out c = flush_all ok_in ok_out c.peers c

unfoldable pub reset : Bool → Collector → Collector
reset ok c = if ok then record { peers = []; in_rows = []; out_rows = [] } else c

-- NewCollector: the rows of one direction after the other.
unfoldable pub load_in : Table ℕ → Table Counters → Table Counters
load_in [] m = m
load_in ((id, n) ∷ rows) m =
    load_in rows (insert id (record (counters_or_new (lookup id m)) { total_in = n }) m)

unfoldable pub load_out : Table ℕ → Table Counters → Table Counters
load_out [] m = m
load_out ((id, n) ∷ rows) m =
    load_out rows (insert id (record (counters_or_new (lookup id m)) { total_out = n }) m)

unfoldable pub new_collector : Table ℕ → Table ℕ → Collector
unfolding load_in load_out
new_collector in_rows out_rows = record {
  peers = load_out out_rows (load_in in_rows []);
  in_rows = in_rows;
  out_rows = out_rows;
}
