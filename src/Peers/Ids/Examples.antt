-- ===== src/Peers/Ids/Examples.antt =====
-- The ids of a few new peers.
use jellysync.Common.{
  Str, lit, str_eq, is_empty, ℕ, suc, ◌≤◌, true, false, some, List, [], ◌∷◌, ◌≡◌, refl, arith,
  length, ◌⊎◌,
}
use jellysync.Common.Bytes.{
  cut_prefix, trim_space, trim, to_lower, replace_runs, replace_runs_from, drop_while, digits,
  two_places,
}
use jellysync.Common.Numbers.{ten_to}
use jellysync.Common.Table.{Table, lookup, has}
use jellysync.Peers.Registry.{Peer}
use jellysync.Catalog.Folders.{contains}
use jellysync.Peers.Ids.{
  is_reserved, slug, numbered, first_free, id_for, taken_locked, new_id, new_id_for_pin,
}
use jellysync.Peers.Ids.Free.{id_for_free}
use jellysync.Peers.Ids.Safe.{all_slug, id_for-all_slug}
use jellysync.Peers.Ids.Shared.{new_id_for_pin_shared}
use jellysync.Peerauth.Store.{Client, id_taken_by}
use jellysync.Peerauth.Ids.{client_ids}

-- What a test of the ids computes with.
naming : ℕ
unfolding str_eq cut_prefix trim_space trim to_lower replace_runs replace_runs_from drop_while
    digits two_places ten_to lookup contains is_reserved slug numbered first_free id_for
    taken_locked new_id new_id_for_pin all_slug id_taken_by client_ids
naming = 0

abbrev two_attics : List Str
two_attics = lit "attic" ∷ lit "attic_01" ∷ []

abbrev uuid : Str
uuid = lit "0f-9a"

third_attic : id_for 3 uuid (lit " Attic ") (λ id. contains id two_attics) ≡ some (lit "attic_02")
unfolding naming
third_attic = refl

room_for_two : suc (suc (length two_attics)) ≤ ten_to 19
unfolding naming
room_for_two = omega arith

id_for_free_example :
    (id : Str) × (id_for 3 uuid (lit "Attic") (λ id. contains id two_attics) ≡ some id)
    × (contains id two_attics ≡ false)
    × (is_reserved id ≡ false)
unfolding naming
id_for_free_example =
    id_for_free uuid (lit "Attic") (λ id. contains id two_attics) two_attics (λ id t. t)
      room_for_two refl

id_for-all_slug_example :
    (all_slug (lit "living-room") ≡ true) × (is_empty (lit "living-room") ≡ false)
unfolding naming
id_for-all_slug_example =
    id_for-all_slug 1 uuid (lit "Living Room!") (λ id. false) (lit "living-room") refl refl refl

abbrev no_peers : Table Peer
no_peers = []

abbrev attic_client : Client
attic_client = record {
  id = lit "attic";
  pin = lit "p";
  name = lit "Attic";
  created_at = 0;
  last_seen_at = 0;
}

new_id_for_pin_shared_example :
    (has (lit "attic") no_peers ≡ false)
    × ((id_taken_by (lit "attic") ((lit "p", attic_client) ∷ []) ≡ false)
        ⊎ ((c : Client) × (lookup (lit "p") ((lit "p", attic_client) ∷ []) ≡ some c)
            × (c.id ≡ lit "attic")))
unfolding naming
new_id_for_pin_shared_example =
    new_id_for_pin_shared 3 uuid (lit "Attic") (lit "p") no_peers ((lit "p", attic_client) ∷ [])
      (lit "attic") refl refl
