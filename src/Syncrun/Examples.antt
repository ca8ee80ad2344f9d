-- ===== src/Syncrun/Examples.antt =====
-- The theorems of the queue at a few requests.
use jellysync.Common.{String, str_eq, lit, ℕ, ◌≡◌, refl, Bool, true, false, none, some, [], ◌∷◌}
use jellysync.Catalog.Folders.{contains}
use jellysync.Syncrun.{Request, split_reasons, merge, new_queue, enqueue, enqueue_all, take_request}
use jellysync.Syncrun.Merge.{names, any_names, any_refresh, take_request-merges}
use jellysync.Syncrun.Wake.{IsNoticed, pushed, here, next, Reach-IsNoticed}

abbrev asking : Bool → String → Request
asking refresh why = record { refresh_local = refresh; reason = lit why }

-- What a test of the queue computes with.
queueing : ℕ
unfolding str_eq contains split_reasons merge enqueue enqueue_all take_request names any_names
    any_refresh
queueing = 0

take_request-merges_example :
    (t : Request) × ((take_request (
        enqueue_all
          (asking false "manual" ∷ asking true "settings" ∷ asking false "manual" ∷ [])
          new_queue)).1
      ≡ some t)
    × (t.refresh_local ≡ true)
    × (names (lit "settings") t ≡ true)
    × ((take_request (
          enqueue_all
            (asking false "manual" ∷ asking true "settings" ∷ asking false "manual" ∷ [])
            new_queue)).0.pending
        ≡ none)
unfolding queueing
take_request-merges_example =
    take_request-merges (lit "settings") (asking false "manual")
      (asking true "settings" ∷ asking false "manual" ∷ []) refl

Reach-IsNoticed_example : IsNoticed (enqueue (asking true "manual") new_queue)
Reach-IsNoticed_example = Reach-IsNoticed _ (next here (pushed new_queue (asking true "manual")))
