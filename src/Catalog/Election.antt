-- ===== src/Catalog/Election.antt =====
-- internal/catalog/catalog.go: which source serves each item (`elect`).
pub mod Order
pub mod Choice
pub mod Smallest
use jellysync.Common.{
  Str, str_eq, str_lt, ℕ, Bool, true, false, not, ◌&&◌, ◌||◌, Option, none, some, List, [], ◌∷◌,
  if◌then◌else◌,
}
use jellysync.Common.Table.{Table, lookup, insert, has}
use jellysync.Catalog.Entry.{Entry, ℤ}
use jellysync.Catalog.Hidden.{Hides, hide_key, is_hidden}
use jellysync.Catalog.Folders.{Exclusions, folders_of, under_any_folder}
use jellysync.Catalog.Index.{Row}

-- The content of one row of catalog_items that the election decides. An empty text is a NULL.
pub record ItemState : Type 0 where
  pub name : Str
  pub media_type : Str
  pub local : Bool
  pub local_item_id : Str
  pub peer_id : Str
  pub peer_item_id : Str
  pub series_global_id : Str
  pub series_name : Str
  pub season_number : ℤ
  pub episode_number : ℤ
  pub hidden : Bool
  pub path : Str
  pub hidden_folder : Bool

unfoldable pub state_from_entry : Entry → ItemState
state_from_entry e = record {
  name = e.name;
  media_type = e.media_type;
  local = false;
  local_item_id = [];
  peer_id = [];
  peer_item_id = [];
  series_global_id = e.series_global_id;
  series_name = e.series_name;
  season_number = e.season_number;
  episode_number = e.episode_number;
  hidden = false;
  path = e.path;
  hidden_folder = false;
}

-- A row of peer_catalog.
pub record Offer : Type 0 where
  pub peer_id : Str
  pub global_id : Str
  pub entry : Entry

-- ORDER BY global_id, peer_id
unfoldable pub offer_le : Offer → Offer → Bool
offer_le a b =
    if str_eq a.global_id b.global_id
    then not (str_lt b.peer_id a.peer_id)
    else str_lt a.global_id b.global_id

unfoldable pub place_offer : Offer → List Offer → List Offer
place_offer o [] = o ∷ []
place_offer o (p ∷ ps) = if offer_le o p then o ∷ p ∷ ps else p ∷ place_offer o ps

unfoldable pub order_offers : List Offer → List Offer
unfolding place_offer
order_offers [] = []
order_offers (o ∷ os) = place_offer o (order_offers os)

pub record Election : Type 0 where
  pub desired : Table ItemState
  pub fallback : Table ItemState
  pub offered : Table Bool

abbrev pub no_election : Election
no_election = record { desired = []; fallback = []; offered = [] }

-- A local row is hidden if the refresh recorded it so.
unfoldable pub local_state : Row → ItemState
local_state r = record (state_from_entry r.entry) {
  local = true;
  local_item_id = r.entry.item_id;
  hidden = r.hidden;
}

-- The rows of local_catalog that are not deleted.
unfoldable pub elect_local : Table Row → Election → Election
unfolding local_state
elect_local [] el = el
elect_local ((id, r) ∷ rows) el = elect_local rows (
    if r.deleted then el else record el {
      desired = insert r.entry.global_id (local_state r) el.desired;
      offered = insert (hide_key r.entry) true el.offered;
    })

module _ (offering : Str → Bool) (hidden : Hides) (excluded : Exclusions) where
  unfoldable pub remote_state : Offer → ItemState
  remote_state o = record (state_from_entry o.entry) {
    peer_id = o.peer_id;
    peer_item_id = o.entry.item_id;
    hidden = is_hidden hidden o.entry;
  }

  unfoldable pub is_excluded : Offer → Bool
  is_excluded o = under_any_folder o.entry.path (folders_of excluded o.peer_id)

  -- The loop body over the offers, after hide keys are recorded.
  unfoldable pub consider : Offer → Election → Election
  unfolding remote_state is_excluded
  consider o el =
      if not (offering o.peer_id)
      then el
      else if has o.global_id el.desired
      then el
      else if is_excluded o
      then (if has o.global_id el.fallback then el else record el {
        fallback =
            insert o.global_id (record (remote_state o) { hidden_folder = true }) el.fallback;
      })
      else record el { desired = insert o.global_id (remote_state o) el.desired }

  unfoldable pub elect_offers : List Offer → Election → Election
  unfolding consider
  elect_offers [] el = el
  elect_offers (o ∷ os) el =
      elect_offers os
        (consider o (record el { offered = insert (hide_key o.entry) true el.offered }))

-- What nothing else offers is listed from the fallback.
unfoldable pub merge_fallback : Table ItemState → Table ItemState → Table ItemState
merge_fallback [] desired = desired
merge_fallback ((id, st) ∷ rest) desired =
    merge_fallback rest (if has id desired then desired else insert id st desired)

unfoldable pub elect :
    (Str → Bool) → Hides → Exclusions → Table Row → List Offer → Table ItemState × Table Bool
unfolding elect_local elect_offers merge_fallback order_offers
elect offering hidden excluded rows offers =
    let el =
      elect_offers offering hidden excluded (order_offers offers) (elect_local rows no_election) in
    (merge_fallback el.fallback el.desired, el.offered)
