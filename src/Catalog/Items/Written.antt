-- ===== src/Catalog/Items/Written.antt =====
-- The whole of writeElection, row by row.
use jellysync.Common.{
  Str, ℕ, ◌≡◌, refl, Bool, not, [], ◌∷◌, arith, Bool-cases, Option-cases, inl, inr,
}
use jellysync.Common.Table.{
  Table, lookup, update, has, kept, IsUnique, lookup-retain, insert-IsUnique, delete-IsUnique,
}
use jellysync.Catalog.Election.{ItemState}
use jellysync.Catalog.Hidden.{Hides}
use jellysync.Catalog.Items.{
  Item, Writing, up_to_date, upsert_one, upsert_all, cleared, withdraw, withdraw_all, is_inert,
  drop_inert, write_election, tally_all, no_stats,
}
use jellysync.Catalog.Items.Outcome.{
  row_after, lookup-upsert_all, lookup-withdraw_all, lookup-withdraw_all_wanted,
}

upsert_all-IsUnique :
    (now : ℕ) (existing : Table Item) (ds : Table ItemState) (w : Writing)
    → IsUnique w.items
    → IsUnique (upsert_all now existing ds w).items
unfolding upsert_all upsert_one
upsert_all-IsUnique now existing [] w u = u
upsert_all-IsUnique now existing ((id, d) ∷ ds) w u =
    upsert_all-IsUnique now existing ds (upsert_one now existing id d w) one
  where
    one : IsUnique (upsert_one now existing id d w).items
    one = elim (Bool-cases (up_to_date (lookup id existing) d)) [
      | inl same ↦ rw (same, upsert_one) u
      | inr new ↦ rw (new, upsert_one) (insert-IsUnique id _ w.items u)
    ]

update-IsUnique :
    (k : Str) (f : Item → Item) (m : Table Item) → IsUnique m → IsUnique (update k f m)
unfolding update
update-IsUnique k f m u = elim (Option-cases (lookup k m)) [
  | inl e ↦ rw (e, update) u
  | inr (v, e) ↦ rw (e, update) (insert-IsUnique k (f v) m u)
]

withdraw-IsUnique :
    (id : Str) (old : Item) (w : Writing) → IsUnique w.items → IsUnique (withdraw id old w).items
unfolding withdraw
withdraw-IsUnique id old w u =
    ground (arith, delete-IsUnique id w.items u, update-IsUnique id cleared w.items u)

withdraw_all-IsUnique :
    (desired : Table ItemState) (ex : Table Item) (w : Writing)
    → IsUnique w.items
    → IsUnique (withdraw_all desired ex w).items
unfolding withdraw_all
withdraw_all-IsUnique desired [] w u = u
withdraw_all-IsUnique desired ((id, old) ∷ ex) w u = elim (Bool-cases (has id desired)) [
  | inl want ↦ rw (want, withdraw_all) (withdraw_all-IsUnique desired ex w u)
  | inr drop ↦
      rw (drop, withdraw_all)
        (withdraw_all-IsUnique desired ex (withdraw id old w) (withdraw-IsUnique id old w u))
]

-- After an election is written, over tables with distinct keys, each wanted row has the wanted
-- state and its old file and keeps its time if it was up to date; an unwanted row is gone if it
-- was local and has lost its peer otherwise; and a row that is inert then is gone.
pub lookup-write_election :
    (now : ℕ) (g : Str) (desired : Table ItemState) (offered : Table Bool) (hidden : Hides)
    (existing : Table Item)
    → IsUnique desired
    → IsUnique existing
    → lookup g (write_election now desired offered hidden existing).0.items
      ≡ kept (λ i. not (is_inert i)) (row_after now (lookup g desired) (lookup g existing))
unfolding write_election drop_inert
lookup-write_election now g desired offered hidden existing ud ue =
    let start : Writing = record { items = existing; stats = tally_all desired no_stats } in
    let up = upsert_all now existing desired start in
    let down = withdraw_all desired existing up in
    let at_up = lookup-upsert_all now g existing desired start ud refl in
    let unique =
      withdraw_all-IsUnique desired existing up
        (upsert_all-IsUnique now existing desired start ue) in
    rw (lookup-retain (λ _ i. not (is_inert i)) g down.items unique)
      (elim (Option-cases (lookup g desired)) [
        | inl e ↦
            rw (lookup-withdraw_all g desired existing up ue (rw e refl) (rw e at at_up), e) refl
        | inr (d, e) ↦
            rw (lookup-withdraw_all_wanted g desired existing up (rw e refl), at_up, e) refl
      ])
