-- ===== src/Catalog/Local/Redirects.antt =====
-- catalog.go LocalEntries: which items of the library are this program's own redirects.
use jellysync.Common.{
  Str, str_eq, lit, ◌||◌, ◌&&◌, ℕ, ◌+◌, ltb, Bool, false, not, some, List, [], ◌∷◌, ◌≡◌, refl, ap,
  ◌∙◌, arith, if◌then◌else◌, map, Option-cases, inl, inr,
}
use jellysync.Common.Table.{Table, lookup, lookup-insert}
use jellysync.Jellyfin.Raw.{CatalogItem, global_id}
use jellysync.Catalog.Local.{
  is_strm, add_one, number_of, of_episode, entry_of, count_one, count_episodes, is_excluded_item,
  entries_of, local_entries,
}

unfoldable pub any : (CatalogItem → Bool) → List CatalogItem → Bool
any p [] = false
any p (it ∷ items) = p it || any p items

unfoldable pub keep_if : (CatalogItem → Bool) → List CatalogItem → List CatalogItem
keep_if p [] = []
keep_if p (it ∷ items) = let rest = keep_if p items in if p it then it ∷ rest else rest

abbrev pub episode_of : Str → CatalogItem → Bool
episode_of g it = of_episode it && str_eq it.series_global_id g

lookup-add_one :
    (k j : Str) (m : Table ℕ)
    → ltb 0 (number_of (lookup j (add_one k m))) ≡ (str_eq k j || ltb 0 (number_of (lookup j m)))
unfolding add_one
lookup-add_one k j m = elim (Option-cases (lookup k m)) [
  | inl e ↦ rw (e, add_one) (ground (arith, lookup-insert k j 1 m))
  | inr (n, e) ↦ rw (e, add_one) (ground (arith, lookup-insert k j (n + 1) m))
]

module _ (strm_dir : Str) where
  -- A redirect: a file that this program wrote, or a series of which every episode is one.
  abbrev pub is_redirect : List CatalogItem → CatalogItem → Bool
  is_redirect items it =
      is_strm strm_dir it.path
      || (str_eq it.media_type (lit "series")
          && any (episode_of (global_id it)) items
          && not (any (λ e. episode_of (global_id it) e && not (is_strm strm_dir e.path)) items))

  lookup-count_one :
      (it : CatalogItem) (t : Table ℕ × Table ℕ) (g : Str)
      → (ltb 0 (number_of (lookup g (count_one strm_dir it t).0))
          ≡ (episode_of g it || ltb 0 (number_of (lookup g t.0))))
        × (ltb 0 (number_of (lookup g (count_one strm_dir it t).1)) ≡ (
            (episode_of g it && not (is_strm strm_dir it.path))
            || ltb 0 (number_of (lookup g t.1))))
  unfolding count_one
  lookup-count_one it t g =
      let a = lookup-add_one it.series_global_id g t.0 in
      let b = lookup-add_one it.series_global_id g t.1 in ground arith

  count_episodes-any :
      (items : List CatalogItem) (t : Table ℕ × Table ℕ) (g : Str)
      → (ltb 0 (number_of (lookup g (count_episodes strm_dir items t).0))
          ≡ (any (episode_of g) items || ltb 0 (number_of (lookup g t.0))))
        × (ltb 0 (number_of (lookup g (count_episodes strm_dir items t).1)) ≡ (
            any (λ e. episode_of g e && not (is_strm strm_dir e.path)) items
            || ltb 0 (number_of (lookup g t.1))))
  unfolding count_episodes any
  count_episodes-any [] t g = (refl, refl)
  count_episodes-any (it ∷ items) t g =
      let one = lookup-count_one it t g in
      let ih = count_episodes-any items (count_one strm_dir it t) g in
      (ih.0 ∙ ground arith, ih.1 ∙ ground arith)

  is_excluded_item-is_redirect :
      (items : List CatalogItem) (it : CatalogItem)
      → is_excluded_item strm_dir (count_episodes strm_dir items ([], [])) it ≡ is_redirect items it
  unfolding is_excluded_item lookup
  is_excluded_item-is_redirect items it =
      let h = count_episodes-any items ([], []) (global_id it) in ground arith

  entries_of-keep_if :
      (all items : List CatalogItem)
      → entries_of strm_dir (count_episodes strm_dir all ([], [])) items
        ≡ map entry_of (keep_if (λ it. not (is_redirect all it)) items)
  unfolding entries_of keep_if
  entries_of-keep_if all [] = refl
  entries_of-keep_if all (it ∷ items) =
      let ih = entries_of-keep_if all items in
      let one = is_excluded_item-is_redirect all it in ground arith

  -- The counting loops list exactly the items that are no redirect, in their order: neither a file
  -- that this program wrote, nor a series with an episode in the library and no real one.
  pub local_entries-keep_if :
      (items : List CatalogItem)
      → local_entries strm_dir (some items)
        ≡ some (map entry_of (keep_if (λ it. not (is_redirect items it)) items))
  unfolding local_entries
  local_entries-keep_if items = ap some (entries_of-keep_if items items)
