-- ===== src/Catalog/Items.antt =====
-- internal/catalog/catalog.go: the table catalog_items and how an election is written to it.
pub mod Outcome
pub mod Written
use jellysync.Common.{
  Str, str_eq, is_empty, lit, ◌==◌, ◌||◌, ℕ, ◌+◌, ◌-◌, Bool, true, false, not, ◌&&◌, Option, none,
  some, List, [], ◌∷◌, length, is_none, if◌then◌else◌,
}
use jellysync.Common.Table.{Table, lookup, insert, delete, update, retain, has}
use jellysync.Catalog.Entry.{ℤ, pos, negsuc}
use jellysync.Catalog.Hidden.{Hides, prune_hidden}
use jellysync.Catalog.Election.{ItemState}

-- A row: what the election decides, and the .strm file that the reconciliation recorded.
pub record Item : Type 0 where
  pub state : ItemState
  pub strm_path : Option Str
  pub updated_at : ℕ

unfoldable pub int_eq : ℤ → ℤ → Bool
int_eq (pos a) (pos b) = a == b
int_eq (negsuc a) (negsuc b) = a == b
int_eq _ _ = false

abbrev pub bool_eq : Bool → Bool → Bool
bool_eq true b = b
bool_eq false b = not b

-- Go's `==` on itemState.
unfoldable pub state_eq : ItemState → ItemState → Bool
unfolding int_eq
state_eq a b =
    str_eq a.name b.name
    && str_eq a.media_type b.media_type
    && bool_eq a.local b.local
    && str_eq a.local_item_id b.local_item_id
    && str_eq a.peer_id b.peer_id
    && str_eq a.peer_item_id b.peer_item_id
    && str_eq a.series_global_id b.series_global_id
    && str_eq a.series_name b.series_name
    && int_eq a.season_number b.season_number
    && int_eq a.episode_number b.episode_number
    && bool_eq a.hidden b.hidden
    && str_eq a.path b.path
    && bool_eq a.hidden_folder b.hidden_folder

pub record ElectionStats : Type 0 where
  pub local : ℕ
  pub remote : ℕ
  pub upserted : ℕ
  pub stale_local_deleted : ℕ
  pub orphans_cleared : ℕ
  pub inert_deleted : ℕ
  pub hidden : ℕ
  pub hidden_folder : ℕ
  pub hides_dropped : ℕ

abbrev pub no_stats : ElectionStats
no_stats = record {
  local = 0;
  remote = 0;
  upserted = 0;
  stale_local_deleted = 0;
  orphans_cleared = 0;
  inert_deleted = 0;
  hidden = 0;
  hidden_folder = 0;
  hides_dropped = 0;
}

-- The transaction's table and counters so far.
pub record Writing : Type 0 where
  pub items : Table Item
  pub stats : ElectionStats

-- The tally of the first loop.
unfoldable pub tally : ItemState → ElectionStats → ElectionStats
tally d st = record st {
  hidden = if d.hidden then st.hidden + 1 else st.hidden;
  hidden_folder = if d.hidden_folder then st.hidden_folder + 1 else st.hidden_folder;
  local = if d.local then st.local + 1 else st.local;
  remote = if d.local then st.remote else st.remote + 1;
}

unfoldable pub tally_all : Table ItemState → ElectionStats → ElectionStats
unfolding tally
tally_all [] st = st
tally_all ((id, d) ∷ ds) st = tally_all ds (tally d st)

-- Whether the stored row already says so.
abbrev pub up_to_date : Option Item → ItemState → Bool
up_to_date none d = false
up_to_date (some old) d = state_eq old.state d

-- INSERT ... ON CONFLICT DO UPDATE, which leaves strm_path alone.
unfoldable pub upsert : ℕ → Str → ItemState → Table Item → Table Item
upsert now id d items =
    insert id
      (record {
        state = d;
        strm_path = elim (lookup id items) [ none ↦ none | some old ↦ old.strm_path ];
        updated_at = now;
      })
      items

unfoldable pub upsert_one : ℕ → Table Item → Str → ItemState → Writing → Writing
unfolding upsert
upsert_one now existing id d w = if up_to_date (lookup id existing) d then w else record {
  items = upsert now id d w.items;
  stats = record w.stats { upserted = w.stats.upserted + 1 };
}

unfoldable pub upsert_all : ℕ → Table Item → Table ItemState → Writing → Writing
upsert_all now existing [] w = w
upsert_all now existing ((id, d) ∷ ds) w =
    upsert_all now existing ds (upsert_one now existing id d w)

-- SET primary_peer_id = NULL, primary_item_id = NULL
unfoldable pub cleared : Item → Item
cleared i = record i { state = record i.state { peer_id = []; peer_item_id = [] } }

-- A row that the election no longer wants.
unfoldable pub withdraw : Str → Item → Writing → Writing
unfolding cleared
withdraw id old w =
    if old.state.local
    then record {
      items = delete id w.items;
      stats = record w.stats { stale_local_deleted = w.stats.stale_local_deleted + 1 };
    }
    else if not (is_empty old.state.peer_id)
    then record {
      items = update id cleared w.items;
      stats = record w.stats { orphans_cleared = w.stats.orphans_cleared + 1 };
    }
    else w

unfoldable pub withdraw_all : Table ItemState → Table Item → Writing → Writing
withdraw_all desired [] w = w
withdraw_all desired ((id, old) ∷ existing) w =
    withdraw_all desired existing (if has id desired then w else withdraw id old w)

-- Not local, not elected, and no file left to clean up.
abbrev pub is_inert : Item → Bool
is_inert i = not i.state.local && is_empty i.state.peer_id && is_none i.strm_path

unfoldable pub drop_inert : Writing → Writing
drop_inert w =
    let items = retain (λ _ i. not (is_inert i)) w.items in
    record {
      items = items;
      stats = record w.stats { inert_deleted = length w.items - length items };
    }

-- writeElection, with the hides that are left.
unfoldable pub write_election :
    ℕ → Table ItemState → Table Bool → Hides → Table Item → Writing × Hides
write_election now desired offered hidden existing =
    let start : Writing = record { items = existing; stats = tally_all desired no_stats } in
    let w = drop_inert (withdraw_all desired existing (upsert_all now existing desired start)) in
    let left = prune_hidden hidden (λ k. has k offered) in
    (record w { stats = record w.stats { hides_dropped = length hidden - length left } }, left)
