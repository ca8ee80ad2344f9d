-- ===== src/Metrics/Restart.antt =====
-- The totals across a flush and a restart.
use jellysync.Common.{Str, str_eq_iff, ℕ, ◌≡◌, refl, Bool, true, Option, none, some, [], ◌∷◌, arith}
use jellysync.Common.Table.{Table, lookup, insert, IsUnique, lookup-insert, insert-IsUnique}
use jellysync.Metrics.{
  Counters, Collector, counters_or_new, flush_one, flush_all, flush, load_in, load_out,
  new_collector,
}

-- The database takes every write.
abbrev pub taken : Str → Bool
taken id = true

-- A peer's totals, nothing for a peer without any traffic.
unfoldable pub totals : Str → Collector → ℕ × ℕ
totals id c = let cnt = counters_or_new (lookup id c.peers) in (cnt.total_in, cnt.total_out)

-- What the first counters found give, else the row.
abbrev written : Option Counters → (Counters → ℕ) → Option ℕ → Option ℕ
written none f o = o
written (some c) f o = some (f c)

lookup-flush_all :
    (id : Str) (m : Table Counters) (c : Collector)
    → IsUnique m
    → (lookup id (flush_all taken taken m c).in_rows
        ≡ written (lookup id m) (λ k. k.total_in) (lookup id c.in_rows))
      × (lookup id (flush_all taken taken m c).out_rows
          ≡ written (lookup id m) (λ k. k.total_out) (lookup id c.out_rows))
      × ((flush_all taken taken m c).peers ≡ c.peers)
unfolding flush_all flush_one lookup
lookup-flush_all id [] c u = (refl, refl, refl)
lookup-flush_all id ((j, k) ∷ m) c u =
    let (ins, outs, kept) = lookup-flush_all id m (flush_one true true j k c) u.1 in
    (
      ground (arith, ins, u.0, str_eq_iff j id, lookup-insert j id k.total_in c.in_rows),
      ground (arith, outs, u.0, str_eq_iff j id, lookup-insert j id k.total_out c.out_rows),
      kept,
    )

lookup-load_in :
    (id : Str) (rows : Table ℕ) (m : Table Counters)
    → IsUnique rows
    → counters_or_new (lookup id (load_in rows m)) ≡ elim (lookup id rows) [
      | none ↦ counters_or_new (lookup id m)
      | some n ↦ record (counters_or_new (lookup id m)) { total_in = n }
    ]
unfolding load_in lookup
lookup-load_in id [] m u = refl
lookup-load_in id ((j, n) ∷ rows) m u =
    let ih =
      lookup-load_in id rows (insert j (record (counters_or_new (lookup j m)) { total_in = n }) m)
        u.1 in
    ground (
      arith,
      ih,
      u.0,
      str_eq_iff j id,
      lookup-insert j id (record (counters_or_new (lookup j m)) { total_in = n }) m,
    )

lookup-load_out :
    (id : Str) (rows : Table ℕ) (m : Table Counters)
    → IsUnique rows
    → counters_or_new (lookup id (load_out rows m)) ≡ elim (lookup id rows) [
      | none ↦ counters_or_new (lookup id m)
      | some n ↦ record (counters_or_new (lookup id m)) { total_out = n }
    ]
unfolding load_out lookup
lookup-load_out id [] m u = refl
lookup-load_out id ((j, n) ∷ rows) m u =
    let at = record (counters_or_new (lookup j m)) { total_out = n } in
    let ih = lookup-load_out id rows (insert j at m) u.1 in
    ground (arith, ih, u.0, str_eq_iff j id, lookup-insert j id at m)

flush_all-IsUnique :
    (m : Table Counters) (c : Collector)
    → IsUnique c.in_rows
    → IsUnique c.out_rows
    → IsUnique (flush_all taken taken m c).in_rows × IsUnique (flush_all taken taken m c).out_rows
unfolding flush_all flush_one
flush_all-IsUnique [] c u v = (u, v)
flush_all-IsUnique ((j, k) ∷ m) c u v =
    flush_all-IsUnique m (flush_one true true j k c) (insert-IsUnique j k.total_in c.in_rows u)
      (insert-IsUnique j k.total_out c.out_rows v)

-- After a flush that the database takes and a restart, every peer with counters has the totals it
-- had before, in both directions, over tables whose keys differ.
pub totals-new_collector :
    (id : Str) (k : Counters) (c : Collector)
    → IsUnique c.peers
    → IsUnique c.in_rows
    → IsUnique c.out_rows
    → lookup id c.peers ≡ some k
    → totals id (new_collector (flush taken taken c).in_rows (flush taken taken c).out_rows)
      ≡ (k.total_in, k.total_out)
unfolding totals new_collector flush
totals-new_collector id k c u v w found =
    let d = flush_all taken taken c.peers c in
    let (ins, outs, kept) = lookup-flush_all id c.peers c u in
    let (ui, uo) = flush_all-IsUnique c.peers c v w in
    let out = lookup-load_out id d.out_rows (load_in d.in_rows []) uo in
    let inn = lookup-load_in id d.in_rows [] ui in rw (out, outs, found, inn, ins, found) refl
