-- ===== src/Catalog/Index/Induction.antt =====
-- A refresh as a sequence of writes: the induction principle over them.
use jellysync.Common.{
  Str, ℕ, ◌+◌, ◌-◌, ◌≤◌, ◌≡◌, refl, Option, some, List, [], ◌∷◌, arith, Option-cases, inl, inr,
}
use jellysync.Common.Table.{
  Table, lookup, update, AllRows, order_by, lookup-AllRows, insert-AllRows, order_by-AllRows,
}
use jellysync.Catalog.Entry.{Entry}
use jellysync.Catalog.Hidden.{Hides, is_hidden}
use jellysync.Catalog.Index.{
  Index, Row, Work, Found, unchanged, classify, store_item, index_item, index_items, tombstone,
  tombstones, max_expired, tombstone_ttl, purge, gc_tombstones, current_of, removed_from, refresh,
  key_le, start_of,
}
use jellysync.Catalog.Index.Valid.{
  Fits, IsValid, written, purged_to, max_expired_bounds, written-IsValid, bumped-IsValid,
  purged-IsValid,
}

-- Each item stands under its own id.
abbrev pub IsKeyed : Str → Entry → Type 0
IsKeyed id e = e.global_id ≡ id

current_of-IsKeyed :
    (es : List Entry) (m : Table Entry) → AllRows IsKeyed m → AllRows IsKeyed (current_of es m)
unfolding current_of
current_of-IsKeyed [] m h = h
current_of-IsKeyed (e ∷ es) m h =
    current_of-IsKeyed es _ (insert-AllRows IsKeyed e.global_id e m refl h)

module _ (P : Index → Type 0) (valid : (ix : Index) → P ix → IsValid ix)
    (stamp : (ix : Index) (at : Option ℕ) → P ix → P (record ix { indexed_at = at }))
    (write : (k : Str) (r : Row) (ix : Index)
      → r.entry.global_id ≡ k
      → r.rev ≡ ix.head + 1
      → P ix
      → P (written k r ix))
    (bump : (ix : Index) → P ix → P (record ix { head = ix.head + 1 }))
    (drop : (n : ℕ) (ix : Index) → ix.min_rev ≤ n → n ≤ ix.head → P ix → P (purged_to n ix)) where
  store_item_keeps :
      (found : Found) (row : Row) (id : Str) (w : Work)
      → row.entry.global_id ≡ id
      → row.rev ≡ w.head + 1
      → P w.index
      → P (store_item found row id w).index
  unfolding store_item
  store_item_keeps unchanged row id w k n p = p
  store_item_keeps _ row id w k n p = write id row w.index k n p

  index_items_keep :
      (content_hash : Entry → Str) (hidden : Hides) (now : ℕ) (existing : Table Row)
      (items : Table Entry) (w : Work)
      → AllRows IsKeyed items
      → P w.index
      → P (index_items content_hash hidden now existing items w).index
  unfolding index_items index_item
  index_items_keep content_hash hidden now existing [] w k p = p
  index_items_keep content_hash hidden now existing ((id, e) ∷ items) w k p =
      index_items_keep content_hash hidden now existing items _ k.1 (
        store_item_keeps (classify (lookup id existing) (content_hash e) (is_hidden hidden e)) _ id
          w k.0 refl p)

  tombstone_keeps : (now : ℕ) (id : Str) (w : Work) → P w.index → P (tombstone now id w).index
  unfolding tombstone update
  tombstone_keeps now id w p = elim (Option-cases (lookup id w.rows)) [
    | inl e ↦ rw (e, update) (bump w.index p)
    | inr (r, e) ↦
        rw (e, update)
          (write id _ w.index
            (lookup-AllRows (Fits w.head w.min_rev) id r w.rows (valid w.index p).fits e).0 refl p)
  ]

  tombstones_keep :
      (now : ℕ) (removed : Table Row) (w : Work) → P w.index → P (tombstones now removed w).index
  unfolding tombstones
  tombstones_keep now [] w p = p
  tombstones_keep now ((id, r) ∷ removed) w p =
      tombstones_keep now removed (tombstone now id w) (tombstone_keeps now id w p)

  gc_keeps : (now : ℕ) (w : Work) → P w.index → P (gc_tombstones now w).index
  unfolding gc_tombstones purge
  gc_keeps now w p = elim (Option-cases (max_expired (now - tombstone_ttl) w.rows)) [
    | inl e ↦ rw (e, gc_tombstones) p
    | inr (n, e) ↦
        let within =
          max_expired_bounds w.head w.min_rev (now - tombstone_ttl) w.rows n (valid w.index p).fits
            e in
        rw (e, gc_tombstones) (drop n w.index (omega (arith, within.0)) within.1 p)
  ]

  pub refresh_induction :
      (content_hash : Entry → Str) (hidden : Hides) (now : ℕ) (es : List Entry) (ix : Index)
      → P ix
      → P (refresh content_hash hidden now es ix).index
  unfolding refresh
  refresh_induction content_hash hidden now es ix p =
      let current = current_of es [] in
      let keyed = order_by-AllRows IsKeyed key_le current (current_of-IsKeyed es [] tt) in
      let start = start_of now current ix in
      let indexed = index_items content_hash hidden now ix.rows (order_by key_le current) start in
      let removed = removed_from ix.rows current in
      gc_keeps now (tombstones now removed indexed) (
        tombstones_keep now removed indexed (
          index_items_keep content_hash hidden now ix.rows (order_by key_le current) start keyed
            (stamp ix (some now) p)))

-- A refresh keeps the index valid: rows keyed by their entries' ids, each once, with distinct
-- revisions up to the head, and no tombstone at or below the revision of the dropped ones.
pub refresh-IsValid :
    (content_hash : Entry → Str) (hidden : Hides) (now : ℕ) (es : List Entry) (ix : Index)
    → IsValid ix
    → IsValid (refresh content_hash hidden now es ix).index
refresh-IsValid =
    refresh_induction IsValid (λ ix v. v)
      (λ ix at v. record {
        named = v.named;
        unique = v.unique;
        fits = v.fits;
        distinct = v.distinct;
        retained = v.retained;
      })
      written-IsValid bumped-IsValid (λ n ix low high v. purged-IsValid n ix high v)
