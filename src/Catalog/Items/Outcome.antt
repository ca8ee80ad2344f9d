-- ===== src/Catalog/Items/Outcome.antt =====
-- What an election leaves in catalog_items, row by row.
use jellysync.Common.{
  Str, str_eq, str_eq_iff, is_empty, ℕ, ◌≡◌, ◌∙◌, refl, true, false, not, Option, none, some, [],
  ◌∷◌, arith, if◌then◌else◌, Bool-cases, inl, inr,
}
use jellysync.Common.Table.{
  Table, lookup, has, IsUnique, lookup-insert, lookup-delete, lookup-update,
}
use jellysync.Catalog.Election.{ItemState}
use jellysync.Catalog.Items.{
  Item, Writing, up_to_date, upsert_one, upsert_all, cleared, withdraw, withdraw_all,
}

abbrev pub path_of : Option Item → Option Str
path_of none = none
path_of (some i) = i.strm_path

-- A wanted row is written unless it is up to date; its file is kept.
abbrev pub wanted_row : ℕ → ItemState → Option Item → Option Item
wanted_row now d old =
    if up_to_date old d
    then old
    else some (record { state = d; strm_path = path_of old; updated_at = now })

-- An unwanted row goes if it is local, and else loses its peer.
abbrev pub unwanted_row : Option Item → Option Item
unwanted_row none = none
unwanted_row (some old) =
    if old.state.local
    then none
    else if not (is_empty old.state.peer_id)
    then some (cleared old)
    else some old

abbrev pub row_after : ℕ → Option ItemState → Option Item → Option Item
row_after now none old = unwanted_row old
row_after now (some d) old = wanted_row now d old

lookup-upsert_one :
    (now : ℕ) (g : Str) (existing : Table Item) (id : Str) (d : ItemState) (w : Writing)
    → lookup id w.items ≡ lookup id existing
    → lookup g (upsert_one now existing id d w).items
      ≡ (if str_eq id g then wanted_row now d (lookup id existing) else lookup g w.items)
unfolding upsert_one
lookup-upsert_one now g existing id d w e = elim (Bool-cases (up_to_date (lookup id existing) d)) [
  | inl same ↦ rw (same, upsert_one) (ground (arith, str_eq_iff id g))
  | inr new ↦ rw (new, upsert_one) (rw (lookup-insert, e) refl)
]

lookup-upsert_one_off :
    (now : ℕ) (g : Str) (existing : Table Item) (id : Str) (d : ItemState) (w : Writing)
    → str_eq id g ≡ false
    → lookup g (upsert_one now existing id d w).items ≡ lookup g w.items
unfolding upsert_one
lookup-upsert_one_off now g existing id d w ne =
    elim (Bool-cases (up_to_date (lookup id existing) d)) [
      | inl same ↦ rw (same, upsert_one) refl
      | inr new ↦ rw (new, upsert_one) (rw (lookup-insert, ne) refl)
    ]

lookup-upsert_all_off :
    (now : ℕ) (g : Str) (existing : Table Item) (ds : Table ItemState) (w : Writing)
    → lookup g ds ≡ none
    → lookup g (upsert_all now existing ds w).items ≡ lookup g w.items
unfolding upsert_all lookup
lookup-upsert_all_off now g existing [] w n = refl
lookup-upsert_all_off now g existing ((id, d) ∷ ds) w n =
    lookup-upsert_all_off now g existing ds (upsert_one now existing id d w) (ground arith)
    ∙ lookup-upsert_one_off now g existing id d w (ground arith)

abbrev pub wanted_of : ℕ → Option ItemState → Option Item → Option Item
wanted_of now none old = old
wanted_of now (some d) old = wanted_row now d old

-- While the loop runs, rows still to come are as they were.
pub lookup-upsert_all :
    (now : ℕ) (g : Str) (existing : Table Item) (ds : Table ItemState) (w : Writing)
    → IsUnique ds
    → lookup g w.items ≡ lookup g existing
    → lookup g (upsert_all now existing ds w).items
      ≡ wanted_of now (lookup g ds) (lookup g existing)
unfolding upsert_all lookup
lookup-upsert_all now g existing [] w u e = e
lookup-upsert_all now g existing ((id, d) ∷ ds) w u e = elim (Bool-cases (str_eq id g)) [
  | inl hit ↦
      let same = (str_eq_iff id g).0 hit in
      rw (hit, lookup)
        (lookup-upsert_all_off now g existing ds (upsert_one now existing id d w)
            (ground (arith, u.0, same))
          ∙ lookup-upsert_one now g existing id d w (ground (arith, same, e))
          ∙ ground (arith, same, hit))
  | inr miss ↦
      rw (miss, lookup)
        (lookup-upsert_all now g existing ds (upsert_one now existing id d w) u.1
          (lookup-upsert_one_off now g existing id d w miss ∙ e))
]

lookup-withdraw :
    (g id : Str) (old : Item) (w : Writing)
    → lookup id w.items ≡ some old
    → lookup g (withdraw id old w).items
      ≡ (if str_eq id g then unwanted_row (some old) else lookup g w.items)
unfolding withdraw
lookup-withdraw g id old w e =
    ground (arith, str_eq_iff id g, lookup-delete id g w.items, lookup-update id g cleared w.items)

lookup-withdraw_off :
    (g id : Str) (old : Item) (w : Writing)
    → str_eq id g ≡ false
    → lookup g (withdraw id old w).items ≡ lookup g w.items
unfolding withdraw
lookup-withdraw_off g id old w ne =
    ground (arith, lookup-delete id g w.items, lookup-update id g cleared w.items)

lookup-withdraw_all_off :
    (g : Str) (desired : Table ItemState) (ex : Table Item) (w : Writing)
    → lookup g ex ≡ none
    → lookup g (withdraw_all desired ex w).items ≡ lookup g w.items
unfolding withdraw_all lookup
lookup-withdraw_all_off g desired [] w n = refl
lookup-withdraw_all_off g desired ((id, old) ∷ ex) w n = elim (Bool-cases (has id desired)) [
  | inl want ↦ rw (want, withdraw_all) (lookup-withdraw_all_off g desired ex w (ground arith))
  | inr drop ↦
      rw (drop, withdraw_all)
        (lookup-withdraw_all_off g desired ex (withdraw id old w) (ground arith)
          ∙ lookup-withdraw_off g id old w (ground arith))
]

pub lookup-withdraw_all_wanted :
    (g : Str) (desired : Table ItemState) (ex : Table Item) (w : Writing)
    → has g desired ≡ true
    → lookup g (withdraw_all desired ex w).items ≡ lookup g w.items
unfolding withdraw_all
lookup-withdraw_all_wanted g desired [] w h = refl
lookup-withdraw_all_wanted g desired ((id, old) ∷ ex) w h = elim (Bool-cases (has id desired)) [
  | inl want ↦ rw (want, withdraw_all) (lookup-withdraw_all_wanted g desired ex w h)
  | inr drop ↦
      rw (drop, withdraw_all)
        (lookup-withdraw_all_wanted g desired ex (withdraw id old w) h
          ∙ lookup-withdraw_off g id old w (ground (arith, str_eq_iff id g)))
]

pub lookup-withdraw_all :
    (g : Str) (desired : Table ItemState) (ex : Table Item) (w : Writing)
    → IsUnique ex
    → has g desired ≡ false
    → lookup g w.items ≡ lookup g ex
    → lookup g (withdraw_all desired ex w).items ≡ unwanted_row (lookup g ex)
unfolding withdraw_all lookup
lookup-withdraw_all g desired [] w u h e = e
lookup-withdraw_all g desired ((id, old) ∷ ex) w u h e = elim (Bool-cases (str_eq id g)) [
  | inl hit ↦
      let same = (str_eq_iff id g).0 hit in
      let drop : has id desired ≡ false = ground (arith, same) in
      rw (drop, withdraw_all)
        (lookup-withdraw_all_off g desired ex (withdraw id old w) (ground (arith, u.0, same))
          ∙ lookup-withdraw g id old w (ground (arith, same, e))
          ∙ rw (hit, lookup) refl)
  | inr miss ↦ elim (Bool-cases (has id desired)) [
    | inl want ↦
        rw (want, withdraw_all, miss, lookup)
          (lookup-withdraw_all g desired ex w u.1 h (ground arith))
    | inr drop ↦
        rw (drop, withdraw_all, miss, lookup)
          (lookup-withdraw_all g desired ex (withdraw id old w) u.1 h
            (lookup-withdraw_off g id old w miss ∙ ground arith))
  ]
]
