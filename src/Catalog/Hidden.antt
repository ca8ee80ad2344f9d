-- ===== src/Catalog/Hidden.antt =====
-- internal/catalog/hidden.go: which key hides an item, and the table of hidden keys with the time
-- at which each was recorded.
use jellysync.Common.{Str, lit, is_empty, str_eq, ℕ, Bool, not, ◌&&◌, if◌then◌else◌}
use jellysync.Common.Table.{Table, has, retain}
use jellysync.Catalog.Entry.{Entry}

abbrev pub episode : Str
episode = lit "episode"

unfoldable pub series_key : Entry → Str
series_key e =
    if not (is_empty e.series_global_id)
    then e.series_global_id
    else if not (is_empty e.series_name)
    then e.series_name
    else e.global_id

unfoldable pub hide_key : Entry → Str
unfolding series_key
hide_key e = if str_eq e.media_type episode then series_key e else e.global_id

abbrev pub Hides : Type 0
Hides = Table ℕ

unfoldable pub is_hidden : Hides → Entry → Bool
unfolding hide_key
is_hidden hidden e = let k = hide_key e in not (is_empty k) && has k hidden

-- The hides of items that no source offers are dropped.
unfoldable pub prune_hidden : Hides → (Str → Bool) → Hides
prune_hidden hidden offered = retain (λ k _. offered k) hidden
