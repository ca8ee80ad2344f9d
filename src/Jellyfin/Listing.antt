-- ===== src/Jellyfin/Listing.antt =====
-- client.go: what the items of a listing have.
use jellysync.Common.{
  Str, str_eq, str_eq_iff, str_eq_refl, lit, Bool, true, false, not, ◌&&◌, some, List, [], ◌∷◌, ◌≡◌,
  refl, sym, ap, ◌∙◌, inl, inr, arith, Bool-cases,
}
use mathlib.Core.Path.{subst}
use mathlib.Core.List.{Memᴰ}
use mathlib.Core.List.Memᴰ
use jellysync.Common.Bytes.{to_lower}
use jellysync.Common.Table.{Table, lookup, insert, lookup-insert}
use jellysync.Jellyfin.Raw.{RawItem, global_id, is_real_media}
use jellysync.Jellyfin.Build.{
  is_series_item, is_episode_item, series_id_of, series_global_ids, with_series, catalog_item,
  catalog_items, build_catalog_items, or_empty,
}

-- No other item of the list has the id.
unfoldable pub no_other : Str → List RawItem → Bool
no_other k [] = true
no_other k (ri ∷ raw) = not (str_eq ri.id k) && no_other k raw

unfoldable pub unique_ids : List RawItem → Bool
unfolding no_other
unique_ids [] = true
unique_ids (ri ∷ raw) = no_other ri.id raw && unique_ids raw

series_differs : str_eq (lit "series") (lit "episode") ≡ false
unfolding str_eq
series_differs = refl

series_is_no_episode : (s : RawItem) → is_series_item s ≡ true → is_episode_item s ≡ false
series_is_no_episode s h =
    let e : to_lower s.type ≡ lit "series" = (str_eq_iff (to_lower s.type) (lit "series")).0 h in
    subst (λ t. str_eq t (lit "episode") ≡ false) (sym e) series_differs

module _ (sha : Str → Str) where
  lookup-series_global_ids_other :
      (k : Str) (raw : List RawItem) (ids : Table Str)
      → no_other k raw ≡ true
      → lookup k (series_global_ids sha raw ids) ≡ lookup k ids
  unfolding no_other series_global_ids
  lookup-series_global_ids_other k [] ids h = refl
  lookup-series_global_ids_other k (ri ∷ raw) ids h =
      let a = lookup-series_global_ids_other k raw ids in
      let b = lookup-series_global_ids_other k raw (insert ri.id (series_id_of sha ri) ids) in
      let c = lookup-insert ri.id k (series_id_of sha ri) ids in ground arith

  lookup-series_global_ids :
      (s : RawItem) (raw : List RawItem) (ids : Table Str)
      → Memᴰ s raw
      → unique_ids raw ≡ true
      → is_series_item s ≡ true
      → is_real_media s ≡ true
      → lookup s.id (series_global_ids sha raw ids) ≡ some (series_id_of sha s)
  unfolding unique_ids series_global_ids
  lookup-series_global_ids s [] ids m u h r = absurd (Memᴰ.not-nil m)
  lookup-series_global_ids s (t ∷ raw) ids m u h r = elim (Memᴰ.cases_cons m) [
    | inl e ↦
        let first : no_other t.id raw ≡ true = ground arith in
        let out =
          lookup-series_global_ids_other t.id raw (insert t.id (series_id_of sha t) ids) first in
        let got = lookup-insert t.id t.id (series_id_of sha t) ids in
        let self = str_eq_refl t.id in
        subst (λ x. lookup x.id (series_global_ids sha (t ∷ raw) ids) ≡ some (series_id_of sha x))
          (sym e)
          (let ht = subst (λ x. is_series_item x ≡ true) e h in
            let rt = subst (λ x. is_real_media x ≡ true) e r in ground arith)
    | inr n ↦ lookup-series_global_ids s raw _ n (ground arith) h r
  ]

  catalog_item-Memᴰ :
      (ids : Table Str) (e : RawItem) (raw : List RawItem)
      → Memᴰ e raw
      → is_real_media e ≡ true
      → Memᴰ (catalog_item sha ids e) (catalog_items sha ids raw)
  unfolding catalog_items
  catalog_item-Memᴰ ids e [] m r = absurd (Memᴰ.not-nil m)
  catalog_item-Memᴰ ids e (t ∷ raw) m r = elim (Memᴰ.cases_cons m) [
    | inl same ↦
        let rt = subst (λ x. is_real_media x ≡ true) same r in
        rw (rt, catalog_items)
          (subst
            (λ x.
              Memᴰ (catalog_item sha ids x) (catalog_item sha ids t ∷ catalog_items sha ids raw))
            (sym same) (Memᴰ.head refl))
    | inr n ↦ elim (Bool-cases (is_real_media t)) [
      | inl k ↦ rw (k, catalog_items) (Memᴰ.tail (catalog_item-Memᴰ ids e raw n r))
      | inr k ↦ rw (k, catalog_items) (catalog_item-Memᴰ ids e raw n r)
    ]
  ]

  global_id-catalog_item :
      (ids : Table Str) (s : RawItem)
      → is_series_item s ≡ true
      → global_id (catalog_item sha ids s) ≡ series_id_of sha s
  unfolding series_id_of catalog_item with_series global_id
  global_id-catalog_item ids s h =
      let e = series_is_no_episode s h in rw (e, catalog_item, with_series) refl

  series_of_item :
      (ids : Table Str) (e : RawItem) (g : Str)
      → is_episode_item e ≡ true
      → lookup e.series_id ids ≡ some g
      → (catalog_item sha ids e).series_global_id ≡ g
  unfolding catalog_item with_series
  series_of_item ids e g h k = rw (h, catalog_item, with_series) (ap or_empty k)

  -- In a listing of real items with different ids, an episode and its series are both in the
  -- catalog, and the episode names the series by the id that the series has there.
  pub episode_names_series :
      (raw : List RawItem) (s e : RawItem)
      → Memᴰ s raw
      → Memᴰ e raw
      → unique_ids raw ≡ true
      → is_series_item s ≡ true
      → is_real_media s ≡ true
      → is_episode_item e ≡ true
      → is_real_media e ≡ true
      → e.series_id ≡ s.id
      → Memᴰ (catalog_item sha (series_global_ids sha raw []) s) (build_catalog_items sha raw)
        × Memᴰ (catalog_item sha (series_global_ids sha raw []) e) (build_catalog_items sha raw)
        × ((catalog_item sha (series_global_ids sha raw []) e).series_global_id
            ≡ global_id (catalog_item sha (series_global_ids sha raw []) s))
  unfolding build_catalog_items
  episode_names_series raw s e ms me u hs rs he re same =
      let ids = series_global_ids sha raw [] in
      let found = lookup-series_global_ids s raw [] ms u hs rs in
      let g = global_id-catalog_item ids s hs in
      (
        catalog_item-Memᴰ ids s raw ms rs,
        catalog_item-Memᴰ ids e raw me re,
        series_of_item ids e (series_id_of sha s) he (ap (λ k. lookup k ids) same ∙ found) ∙ sym g,
      )
