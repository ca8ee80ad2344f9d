-- ===== src/Catalog/Index.antt =====
-- internal/catalog/index.go: this node's own catalog and its change feed. A row keeps the item as
-- last listed, its digest, the revision of its last change, and whether it is gone or hidden.
-- `content_hash` (SHA-256 of the entry's JSON) is a parameter.
pub mod Valid
pub mod Induction
use Prim.Native.Nat.{max}
use jellysync.Common.{
  Str, str_lt, ℕ, ◌+◌, ◌-◌, ◌*◌, Bool, true, false, not, ◌&&◌, Option, none, some, List, [], ◌∷◌,
  ltb, leb, length, if◌then◌else◌, str_eq,
}
use jellysync.Common.Table.{Table, lookup, insert, retain, update, order_by, has}
use jellysync.Catalog.Entry.{Entry}
use jellysync.Catalog.Hidden.{Hides, is_hidden}

pub record Row : Type 0 where
  pub entry : Entry
  pub hash : Str
  pub rev : ℕ
  pub deleted : Bool
  pub hidden : Bool
  pub updated_at : ℕ

-- The table local_catalog, and the settings of the feed.
pub record Index : Type 0 where
  pub epoch : Str
  pub head : ℕ
  pub min_rev : ℕ
  pub indexed_at : Option ℕ
  pub rows : Table Row

pub record RefreshStats : Type 0 where
  pub total : ℕ
  pub added : ℕ
  pub updated : ℕ
  pub removed : ℕ
  pub newly_hidden : ℕ
  pub unhidden : ℕ
  pub purged : ℕ

unfoldable pub changed : RefreshStats → ℕ
changed st = st.added + st.updated + st.removed + st.newly_hidden + st.unhidden

-- The same item can be listed more than once: the last one wins.
unfoldable pub current_of : List Entry → Table Entry → Table Entry
current_of [] m = m
current_of (e ∷ es) m = current_of es (insert e.global_id e m)

-- The `switch` of the loop over the listed items.
pub data Found : Type 0 where
  unchanged now_hidden now_visible now_updated now_added : Found

unfoldable pub classify : Option Row → Str → Bool → Found
classify none hash is_hid = now_added
classify (some old) hash is_hid =
    if old.deleted
    then now_added
    else if str_eq old.hash hash && (if is_hid then old.hidden else not old.hidden)
    then unchanged
    else if not old.hidden && is_hid
    then now_hidden
    else if old.hidden && not is_hid
    then now_visible
    else now_updated

unfoldable pub count : Found → RefreshStats → RefreshStats
count unchanged st = st
count now_hidden st = record st { newly_hidden = st.newly_hidden + 1 }
count now_visible st = record st { unhidden = st.unhidden + 1 }
count now_updated st = record st { updated = st.updated + 1 }
count now_added st = record st { added = st.added + 1 }

-- What the transaction has written so far: the rows, the head and the counters.
pub record Work : Type 0 where
  pub index : Index
  pub open index use *
  pub stats : RefreshStats

unfoldable pub write_row : Str → Row → Work → Work
write_row id row w = record w {
  index = record w.index { head = w.head + 1; rows = insert id row w.rows };
}

-- What one listed item does, once it is classified.
unfoldable pub store_item : Found → Row → Str → Work → Work
unfolding write_row count
store_item unchanged row id w = w
store_item found row id w = record (write_row id row w) { stats = count found w.stats }

module _ (content_hash : Entry → Str) (hidden : Hides) (now : ℕ) where
  unfoldable pub index_item : Option Row → Str → Entry → Work → Work
  unfolding store_item classify
  index_item old id e w =
      let is_hid = is_hidden hidden e in
      store_item (classify old (content_hash e) is_hid)
        (record {
          entry = e;
          hash = content_hash e;
          rev = w.head + 1;
          deleted = false;
          hidden = is_hid;
          updated_at = now;
        })
        id w

  unfoldable pub index_items : Table Row → Table Entry → Work → Work
  index_items existing [] w = w
  index_items existing ((id, e) ∷ items) w =
      index_items existing items (index_item (lookup id existing) id e w)

-- UPDATE local_catalog SET deleted = 1, rev = ?, updated_at = ?
unfoldable pub tombstone : ℕ → Str → Work → Work
tombstone now id w = record w {
  index = record w.index {
    head = w.head + 1;
    rows = update id (λ r. record r { deleted = true; rev = w.head + 1; updated_at = now }) w.rows;
  };
  stats = record w.stats { removed = w.stats.removed + 1 };
}

unfoldable pub tombstones : ℕ → Table Row → Work → Work
tombstones now [] w = w
tombstones now ((id, r) ∷ removed) w = tombstones now removed (tombstone now id w)

-- 30 days, in seconds.
abbrev pub tombstone_ttl : ℕ
tombstone_ttl = 30 * 24 * 3600

-- SELECT MAX(rev) FROM local_catalog WHERE deleted = 1 AND updated_at < cutoff
unfoldable pub max_expired : ℕ → Table Row → Option ℕ
max_expired cutoff [] = none
max_expired cutoff ((id, r) ∷ m) =
    let rest = max_expired cutoff m in
    if r.deleted && ltb r.updated_at cutoff
    then elim rest [ none ↦ some r.rev | some n ↦ some (max r.rev n) ]
    else rest

unfoldable pub purge : ℕ → Work → Work
purge rev w =
    let rows = retain (λ _ r. not (r.deleted && leb r.rev rev)) w.rows in
    record {
      index = record w.index { min_rev = rev; rows = rows };
      stats = record w.stats { purged = length w.rows - length rows };
    }

unfoldable pub gc_tombstones : ℕ → Work → Work
unfolding max_expired
gc_tombstones now w = elim (max_expired (now - tombstone_ttl) w.rows) [
  | none ↦ w
  | some rev ↦ purge rev w
]

abbrev pub key_le {ℓ} : {V : Type ℓ} → Str × V → Str × V → Bool
key_le a b = not (str_lt b.0 a.0)

-- The rows of the last snapshot that the library no longer lists.
unfoldable pub removed_from : Table Row → Table Entry → Table Row
removed_from existing current =
    order_by key_le (retain (λ id r. not (has id current) && not r.deleted) existing)

abbrev pub no_stats : ℕ → RefreshStats
no_stats n = record {
  total = n;
  added = 0;
  updated = 0;
  removed = 0;
  newly_hidden = 0;
  unhidden = 0;
  purged = 0;
}

abbrev pub start_of : ℕ → Table Entry → Index → Work
start_of now current ix = record {
  index = record ix { indexed_at = some now };
  stats = no_stats (length current);
}

-- One transaction: Index.refreshLocked, after the listing succeeded.
unfoldable pub refresh : (Entry → Str) → Hides → ℕ → List Entry → Index → Work
unfolding current_of index_items removed_from tombstones gc_tombstones
refresh content_hash hidden now entries ix =
    let current = current_of entries [] in
    let indexed =
      index_items content_hash hidden now ix.rows (order_by key_le current)
        (start_of now current ix) in
    gc_tombstones now (tombstones now (removed_from ix.rows current) indexed)

-- A listing that fails changes nothing.
unfoldable pub try_refresh : (Entry → Str) → Hides → ℕ → Option (List Entry) → Index → Option Work
try_refresh content_hash hidden now none ix = none
try_refresh content_hash hidden now (some entries) ix =
    some (refresh content_hash hidden now entries ix)

-- Index.EnsureIndexed: a refresh only if none has succeeded. `none` is its error.
unfoldable pub ensure_indexed :
    (Entry → Str) → Hides → ℕ → Option (List Entry) → Index → Option Index
unfolding try_refresh
ensure_indexed content_hash hidden now listing ix = elim ix.indexed_at [
  | some at ↦ some ix
  | none ↦ elim (try_refresh content_hash hidden now listing ix) [
    | none ↦ none
    | some w ↦ some w.index
  ]
]
