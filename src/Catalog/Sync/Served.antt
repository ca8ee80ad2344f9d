-- ===== src/Catalog/Sync/Served.antt =====
-- catalog.go: the peers that an election gives items to.
use jellysync.Common.{
  Str, str_eq_iff, is_empty, ℕ, ◌≡◌, refl, sym, ap, Bool, true, not, ◌||◌, ◌&&◌, Option, none, some,
  List, [], ◌∷◌, arith, if◌then◌else◌, Bool-cases, inl, inr,
}
use mathlib.Core.Path.{subst}
use jellysync.Common.Table.{Table, lookup, insert, has, IsUnique, kept, insert-IsUnique}
use jellysync.Catalog.Hidden.{Hides}
use jellysync.Catalog.Folders.{Exclusions}
use jellysync.Catalog.Index.{Row}
use jellysync.Catalog.Election.{
  ItemState, Election, Offer, no_election, local_state, state_from_entry, elect_local, remote_state,
  is_excluded, consider, elect_offers, merge_fallback, order_offers, elect,
}
use jellysync.Catalog.Items.{Item, state_eq, cleared}
use jellysync.Catalog.Items.Outcome.{path_of, row_after, unwanted_row}

-- Every row satisfies the test.
unfoldable pub all_rows : (ItemState → Bool) → Table ItemState → Bool
all_rows p [] = true
all_rows p ((k, d) ∷ m) = p d && all_rows p m

insert-all_rows :
    (p : ItemState → Bool) (k : Str) (d : ItemState) (m : Table ItemState)
    → p d ≡ true
    → all_rows p m ≡ true
    → all_rows p (insert k d m) ≡ true
unfolding all_rows insert
insert-all_rows p k d [] h a = ground arith
insert-all_rows p k d ((j, e) ∷ m) h a = ground (arith, insert-all_rows p k d m h)

pub lookup-all_rows :
    (p : ItemState → Bool) (k : Str) (m : Table ItemState) (d : ItemState)
    → all_rows p m ≡ true
    → lookup k m ≡ some d
    → p d ≡ true
unfolding all_rows lookup
lookup-all_rows p k [] d a e = ground arith
lookup-all_rows p k ((j, c) ∷ m) d a e = ground (arith, lookup-all_rows p k m d)

none_is_not_some : (i : Item) → ¬ (none ≡ some i)
none_is_not_some i e = cc

pub kept_is_there : (p : Item → Bool) (o : Option Item) (i : Item) → kept p o ≡ some i → o ≡ some i
kept_is_there p none i e = e
kept_is_there p (some j) i e = elim (Bool-cases (p j)) [
  | inl t ↦ rw t at e
  | inr f ↦ absurd (none_is_not_some i (rw f at e))
]

-- The state of a row, or `d`.
abbrev state_of : ItemState → Option Item → ItemState
state_of d none = d
state_of d (some i) = i.state

state_eq-peer_id : (a b : ItemState) → state_eq a b ≡ true → a.peer_id ≡ b.peer_id
unfolding state_eq
state_eq-peer_id a b h = ground (arith, str_eq_iff a.peer_id b.peer_id)

unwanted_has_no_peer :
    (old i : Item) → unwanted_row (some old) ≡ some i → is_empty i.state.peer_id ≡ true
unfolding cleared
unwanted_has_no_peer old i e = elim (Bool-cases old.state.local) [
  | inl l ↦ absurd (
      none_is_not_some i (
        subst
          (λ t.
            (if t
              then none
              else if not (is_empty old.state.peer_id)
              then some (cleared old)
              else some old)
            ≡ some i)
          l e))
  | inr r ↦
      let f =
        subst
          (λ t.
            (if t
              then none
              else if not (is_empty old.state.peer_id)
              then some (cleared old)
              else some old)
            ≡ some i)
          r e in
      elim (Bool-cases (is_empty old.state.peer_id)) [
        | inl none_left ↦
            let g =
              subst (λ t. (if not t then some (cleared old) else some old) ≡ some i) none_left f in
            subst (λ x. is_empty x.peer_id ≡ true) (ap (state_of old.state) g) none_left
        | inr peer ↦
            let g = subst (λ t. (if not t then some (cleared old) else some old) ≡ some i) peer f in
            ap (λ x. is_empty (state_of old.state x).peer_id) (sym g)
      ]
]

module _ (offering : Str → Bool) (hidden : Hides) (excluded : Exclusions) where
  -- No peer, or one that counts.
  abbrev pub is_served : ItemState → Bool
  is_served d = is_empty d.peer_id || offering d.peer_id

  -- What holds of an election on the way.
  abbrev pub IsSound : Election → Type 0
  IsSound el =
      (all_rows is_served el.desired ≡ true)
      × IsUnique el.desired
      × (all_rows is_served el.fallback ≡ true)

  local_state-is_served : (r : Row) → is_served (local_state r) ≡ true
  unfolding local_state state_from_entry
  local_state-is_served r = refl

  elect_local-IsSound :
      (rows : Table Row) (el : Election) → IsSound el → IsSound (elect_local rows el)
  unfolding elect_local
  elect_local-IsSound [] el h = h
  elect_local-IsSound ((id, r) ∷ rows) el h = elim (Bool-cases r.deleted) [
    | inl gone ↦ rw (gone, elect_local) (elect_local-IsSound rows el h)
    | inr there ↦
        rw (there, elect_local)
          (elect_local-IsSound rows _ (
            insert-all_rows is_served r.entry.global_id (local_state r) el.desired
                (local_state-is_served r) h.0,
            insert-IsUnique r.entry.global_id (local_state r) el.desired h.1,
            h.2,
          ))
  ]

  remote_state-is_served :
      (o : Offer)
      → offering o.peer_id ≡ true
      → is_served (remote_state offering hidden excluded o) ≡ true
  unfolding remote_state
  remote_state-is_served o h = ground arith

  consider-IsSound :
      (o : Offer) (el : Election) → IsSound el → IsSound (consider offering hidden excluded o el)
  unfolding consider
  consider-IsSound o el h =
      let own = remote_state offering hidden excluded o in
      let last : ItemState = record (remote_state offering hidden excluded o) {
        hidden_folder = true;
      } in
      let served = remote_state-is_served o in
      let a = insert-all_rows is_served o.global_id own el.desired in
      let b = insert-all_rows is_served o.global_id last el.fallback in
      let u = insert-IsUnique o.global_id own el.desired h.1 in
      elim (Bool-cases (not (offering o.peer_id))) [
        | inl out ↦ rw (out, consider) h
        | inr counts ↦ elim (Bool-cases (has o.global_id el.desired)) [
          | inl taken ↦ rw (counts, taken, consider) h
          | inr free ↦ elim (Bool-cases (is_excluded offering hidden excluded o)) [
            | inr clear ↦ rw (counts, free, clear, consider) (a (served (ground arith)) h.0, u, h.2)
            | inl shut ↦ elim (Bool-cases (has o.global_id el.fallback)) [
              | inl known ↦ rw (counts, free, shut, known, consider) h
              | inr new ↦
                  rw (counts, free, shut, new, consider) (h.0, h.1, b (served (ground arith)) h.2)
            ]
          ]
        ]
      ]

  elect_offers-IsSound :
      (os : List Offer) (el : Election)
      → IsSound el
      → IsSound (elect_offers offering hidden excluded os el)
  unfolding elect_offers
  elect_offers-IsSound [] el h = h
  elect_offers-IsSound (o ∷ os) el h = elect_offers-IsSound os _ (consider-IsSound o _ h)

  merge_fallback-IsSound :
      (rest desired : Table ItemState)
      → all_rows is_served rest ≡ true
      → all_rows is_served desired ≡ true
      → IsUnique desired
      → (all_rows is_served (merge_fallback rest desired) ≡ true)
        × IsUnique (merge_fallback rest desired)
  unfolding merge_fallback all_rows
  merge_fallback-IsSound [] desired k h u = (h, u)
  merge_fallback-IsSound ((id, st) ∷ rest) desired k h u =
      let own : is_served st ≡ true = ground arith in
      let others : all_rows is_served rest ≡ true = ground arith in
      elim (Bool-cases (has id desired)) [
        | inl t ↦ rw (t, merge_fallback) (merge_fallback-IsSound rest desired others h u)
        | inr f ↦
            rw (f, merge_fallback)
              (merge_fallback-IsSound rest _ others (insert-all_rows is_served id st desired own h)
                (insert-IsUnique id st desired u))
      ]

  pub elect-IsSound :
      (rows : Table Row) (offers : List Offer)
      → (all_rows is_served (elect offering hidden excluded rows offers).0 ≡ true)
        × IsUnique (elect offering hidden excluded rows offers).0
  unfolding elect all_rows
  elect-IsSound rows offers =
      let h =
        elect_offers-IsSound (order_offers offers) (elect_local rows no_election)
          (elect_local-IsSound rows no_election (refl, tt, refl)) in
      let el =
        elect_offers offering hidden excluded (order_offers offers)
          (elect_local rows no_election) in
      merge_fallback-IsSound el.fallback el.desired h.2 h.0 h.1

  pub row_after-is_served :
      (now : ℕ) (desired : Option ItemState) (old : Option Item) (i : Item)
      → ((d : ItemState) → desired ≡ some d → is_served d ≡ true)
      → row_after now desired old ≡ some i
      → is_served i.state ≡ true
  row_after-is_served now none none i h e = ground arith
  row_after-is_served now none (some old) i h e =
      let gone = unwanted_has_no_peer old i e in ground arith
  row_after-is_served now (some d) none i h e =
      subst (λ x. is_served x ≡ true) (ap (state_of d) e) (h d refl)
  row_after-is_served now (some d) (some old) i h e = elim (Bool-cases (state_eq old.state d)) [
    | inl same ↦
        let f =
          subst
            (λ t.
              (if t
                then some old
                else some (record { state = d; strm_path = path_of (some old); updated_at = now }))
              ≡ some i)
            same e in
        let p = state_eq-peer_id old.state d same in
        let own : is_served old.state ≡ true =
          subst (λ x. (is_empty x || offering x) ≡ true) (sym p) (h d refl) in
        subst (λ x. is_served x ≡ true) (ap (state_of d) f) own
    | inr new ↦
        let f =
          subst
            (λ t.
              (if t
                then some old
                else some (record { state = d; strm_path = path_of (some old); updated_at = now }))
              ≡ some i)
            new e in
        subst (λ x. is_served x ≡ true) (ap (state_of d) f) (h d refl)
  ]
