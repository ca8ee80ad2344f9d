-- ===== src/Syncrun/Runs.antt =====
-- A node with one peer, which is online but cannot be reached in this run, and a film of it.
use jellysync.Common.{lit, ℕ, ◌≡◌, refl, true, false, none, some, [], ◌∷◌}
use jellysync.Common.Bytes.{
  starts_with, ends_with, trim_space, trim_right, replace_byte, cut_prefix,
}
use jellysync.Common.Table.{lookup, delete, place}
use mathlib.Core.List.{Memᴰ}
use jellysync.Catalog.Hidden.{hide_key, prune_hidden}
use jellysync.Catalog.Folders.{contains, under_any_folder}
use jellysync.Catalog.Index.{Index, try_refresh, ensure_indexed}
use jellysync.Catalog.Pull.{failed, pull_peer}
use jellysync.Catalog.Election.{elect, offer_le, remote_state, state_from_entry}
use jellysync.Catalog.Items.{
  Item, write_election, upsert_one, upsert_all, withdraw_all, drop_inert, state_eq,
}
use jellysync.Catalog.Samples.{movie, by_name, empty_index, computing}
use jellysync.Catalog.Sync.{
  Library, World, is_online, online_peers, offering_ids, pull_one, pull_peers, prune_removed_peers,
  offers_of, all_offers, run_election, index_step, pull_and_elect, sync,
}
use jellysync.Catalog.Sync.Elects.{sync-elects_offering}
use jellysync.Peers.Registry.{Peer, online, offering}
use jellysync.Strm.Paths.{
  path_text, slashed, split_names, pop_name, push_name, push_names, clean, present, join,
}
use jellysync.Common.Bytes.{digits, two_places}
use jellysync.Strm.Names.{
  sanitize, media_root, truncate_utf8, back_off, starts_rune, two_digits, season_dir_name,
  before_colon, after_colon, provider_disambiguator, disambiguator, movie_dir, series_dir,
  episode_file, shortened, path_elements, path_for, url_for,
}
use jellysync.Strm.Reconcile.{
  Config, Environment, scan, scan_all, want_strm, reconcile, reconcile_rows, reconcile_row,
  place_row, write_strm, write_if_changed, moving_from, save_paths, is_ours,
}
use jellysync.Strm.Reconcile.Apart.{is_apart, no_touch}
use jellysync.Strm.Reconcile.Refines.{content_at, was_there}
use jellysync.Syncrun.Local.{Node, run_local, write_files, show, set_status, fail_run, no_tracker}
use jellysync.Syncrun.Report.{IsReported, run_local-IsReported, run_local_files}

-- What a test of a synchronisation computes with.
synchronising : ℕ
unfolding computing contains elect offer_le remote_state state_from_entry hide_key under_any_folder
    ensure_indexed try_refresh pull_peer offering is_online online_peers offering_ids pull_one
    pull_peers prune_removed_peers offers_of all_offers run_election index_step pull_and_elect sync
    write_election upsert_one upsert_all withdraw_all drop_inert prune_hidden state_eq
synchronising = 0

-- What a test of a whole run computes with.
running_all : ℕ
unfolding synchronising starts_with ends_with trim_space trim_right replace_byte cut_prefix delete
    place path_text slashed split_names pop_name push_name push_names clean present join sanitize
    media_root truncate_utf8 back_off starts_rune digits two_places two_digits season_dir_name
    before_colon after_colon provider_disambiguator disambiguator movie_dir series_dir episode_file
    shortened path_elements path_for url_for scan scan_all want_strm reconcile reconcile_rows
    reconcile_row place_row write_strm write_if_changed moving_from save_paths is_ours is_apart
    no_touch content_at was_there run_local write_files show set_status fail_run
running_all = 0

abbrev bob : Peer
bob = record {
  id = lit "bob";
  url = lit "http://bob";
  state = online;
  name = [];
  version = [];
  ip = [];
  pin = [];
  last_seen = 0;
  rtt = 0;
  missed = 0;
  was_offering = false;
}

abbrev indexed : Index
indexed = record empty_index { indexed_at = some 1 }

abbrev library : Library
library = record {
  index = indexed;
  mirrors =
      (
        lit "bob",
        record { state = none; mirror = (lit "d", record { entry = movie "d"; gen = 0 }) ∷ [] },
      )
      ∷ [];
  excluded = [];
  hidden = [];
  items = [];
}

abbrev quiet : World
quiet = record {
  content_hash = by_name;
  listing = none;
  feed_of = λ peer epoch rev. failed;
  catalog_of = λ peer. none;
  rounds = 2;
  now = 9;
  clock = 9;
  pruned = true;
  elected = true;
  saved = true;
}

abbrev film_of_bob : Item
film_of_bob = record {
  state = record (state_from_entry (movie "d")) { peer_id = lit "bob"; peer_item_id = lit "d" };
  strm_path = none;
  updated_at = 9;
}

sync-elects_offering_example :
    (p : Peer) × Memᴰ p (bob ∷ []) × (p.id ≡ lit "bob") × (offering p 9 ≡ true)
unfolding synchronising
sync-elects_offering_example =
    sync-elects_offering quiet false (bob ∷ []) library (lit "d") film_of_bob tt refl refl refl

abbrev node : Node
node = record { library = library; disk = []; tracker = no_tracker; shown = [] }

abbrev ideal : Environment
ideal = record {
  sha = λ s. s;
  folders_made = true;
  rows_read = true;
  paths_saved = true;
  readable = λ _. true;
  writable = λ _. true;
  removable = λ _. true;
}

abbrev config : Config
config = record { output_dir = lit "/o"; base_url = lit "h" }

run_local-IsReported_example :
    IsReported quiet ideal config 3 9 [] (run_local quiet ideal config 3 9 true (bob ∷ []) node)
run_local-IsReported_example = run_local-IsReported quiet ideal config 3 9 true (bob ∷ []) node

run_local_files_example :
    lookup
      (lit "/o/movies/bob/d [id-]/d [id-].strm")
      (run_local quiet ideal config 3 9 false (bob ∷ []) node).node.disk
    ≡ some (lit "h/api/v1/proxy/stream/bob/d")
unfolding running_all
run_local_files_example =
    run_local_files quiet ideal config 3 9 false (bob ∷ []) node
      (lit "/o/movies/bob/d [id-]/d [id-].strm") (λ p. (refl, refl)) refl refl refl refl refl
