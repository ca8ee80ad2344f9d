-- ===== src/Jellyfin/Examples.antt =====
-- The listing of a small library.
use jellysync.Common.{Str, lit, str_eq, ℕ, false, [], ◌∷◌, ◌≡◌, refl, take}
use mathlib.Core.List.{Memᴰ}
use jellysync.Common.Bytes.{cut_prefix, trim, trim_right, to_lower, replace_runs, digits, hex}
use jellysync.Common.Table.{lookup, insert}
use jellysync.Catalog.Entry.{pos}
use jellysync.Jellyfin.Raw.{
  RawItem, global_id, is_real_media, goes_on, under_root, under_any, keep_placed, drop_orphans,
}
use jellysync.Jellyfin.Build.{
  normalize, decimal, hash_parts, title_year_hash, episode_hash, episode_id, series_id_of,
  series_global_ids, catalog_item, with_series, build_catalog_items, catalog_items,
}
use jellysync.Jellyfin.Listing.{no_other, unique_ids, episode_names_series}
use jellysync.Common.Sifted.{IsSifted}
use jellysync.Jellyfin.Roots.{Belongs, drop_orphans-IsSifted}

-- What a test of a listing computes with.
listing : ℕ
unfolding str_eq take cut_prefix trim trim_right to_lower replace_runs digits hex lookup insert
    global_id is_real_media goes_on under_root under_any keep_placed drop_orphans normalize decimal
    hash_parts title_year_hash episode_hash episode_id series_id_of series_global_ids catalog_item
    with_series build_catalog_items catalog_items no_other unique_ids
listing = 0

abbrev lost : RawItem
lost = record {
  id = lit "s1";
  name = lit "Lost";
  production_year = pos 2004;
  type = lit "Series";
  path = lit "/tv/Lost";
  provider_ids = (lit "Tvdb", lit "73739") ∷ [];
  series_id = [];
  series_name = [];
  parent_index_number = pos 0;
  index_number = pos 0;
  location_type = lit "FileSystem";
  is_virtual_item = false;
}

abbrev pilot : RawItem
pilot = record lost {
  id = lit "e1";
  name = lit "Pilot";
  type = lit "Episode";
  path = lit "/tv/Lost/1.mkv";
  provider_ids = [];
  series_id = lit "s1";
  series_name = lit "Lost";
  parent_index_number = pos 1;
  index_number = pos 1;
}

-- A digest for these tests.
abbrev zeros : Str → Str
zeros s = 0 ∷ 0 ∷ 0 ∷ 0 ∷ 0 ∷ 0 ∷ 0 ∷ 0 ∷ []

episode_names_series_example :
    Memᴰ
      (catalog_item zeros (series_global_ids zeros (pilot ∷ lost ∷ []) []) lost)
      (build_catalog_items zeros (pilot ∷ lost ∷ []))
    × Memᴰ
        (catalog_item zeros (series_global_ids zeros (pilot ∷ lost ∷ []) []) pilot)
        (build_catalog_items zeros (pilot ∷ lost ∷ []))
    × ((catalog_item zeros (series_global_ids zeros (pilot ∷ lost ∷ []) []) pilot).series_global_id
        ≡ lit "tvdb:73739")
unfolding listing
episode_names_series_example =
    episode_names_series zeros (pilot ∷ lost ∷ []) lost pilot (Memᴰ.tail (Memᴰ.head refl))
      (Memᴰ.head refl) refl refl refl refl refl refl

drop_orphans-IsSifted_example :
    IsSifted
      (Belongs (lit "/tv/" ∷ []))
      (record lost { path = lit "/tvs/x" } ∷ pilot ∷ [])
      (drop_orphans (record lost { path = lit "/tvs/x" } ∷ pilot ∷ []) (lit "/tv/" ∷ [])).0
      (drop_orphans (record lost { path = lit "/tvs/x" } ∷ pilot ∷ []) (lit "/tv/" ∷ [])).1
drop_orphans-IsSifted_example =
    drop_orphans-IsSifted (record lost { path = lit "/tvs/x" } ∷ pilot ∷ []) (lit "/tv/" ∷ [])

-- A folder of which the name only begins like the root's is none of the library's.
tvs_is_dropped :
    drop_orphans (record lost { path = lit "/tvs/x" } ∷ pilot ∷ []) (lit "/tv/" ∷ [])
    ≡ (pilot ∷ [], 1)
unfolding listing
tvs_is_dropped = refl

slug_of_a_name : normalize (lit "  The Good, the Bad!") ≡ lit "the-good-the-bad"
unfolding listing
slug_of_a_name = refl
