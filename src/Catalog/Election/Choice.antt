-- ===== src/Catalog/Election/Choice.antt =====
-- The election against a description of it item by item.
use jellysync.Common.{
  Str, str_eq, str_eq_iff, ◌≡◌, ◌∙◌, refl, Bool, true, not, ◌&&◌, Option, none, some, List, [], ◌∷◌,
  arith, if◌then◌else◌, Bool-cases, inl, inr,
}
use jellysync.Common.Table.{Table, lookup, insert, IsUnique, AllRows, lookup-insert}
use jellysync.Catalog.Hidden.{Hides, hide_key}
use jellysync.Catalog.Folders.{Exclusions}
use jellysync.Catalog.Index.{Row}
use jellysync.Catalog.Election.{
  ItemState, Offer, Election, local_state, elect_local, remote_state, is_excluded, consider,
  elect_offers, merge_fallback, elect, order_offers, no_election,
}
use jellysync.Catalog.Election.Order.{first_of_all}

-- What this node has of its own.
abbrev pub local_choice : Option Row → Option ItemState
local_choice none = none
local_choice (some r) = if r.deleted then none else some (local_state r)

abbrev pub or_else {ℓ} : {A : Type ℓ} → Option A → Option A → Option A
or_else none b = b
or_else (some a) b = some a

abbrev pub Named : Str → Row → Type 0
Named id r = r.entry.global_id ≡ id

lookup-elect_local :
    (g : Str) (rows : Table Row) (el : Election)
    → IsUnique rows
    → AllRows Named rows
    → lookup g (elect_local rows el).desired
      ≡ or_else (local_choice (lookup g rows)) (lookup g el.desired)
unfolding elect_local lookup
lookup-elect_local g [] el u k = refl
lookup-elect_local g ((id, r) ∷ rows) el u k = ground (
  arith,
  str_eq_iff id g,
  lookup-elect_local g rows el u.1 k.1,
  lookup-elect_local g rows
      (record el {
        desired = insert r.entry.global_id (local_state r) el.desired;
        offered = insert (hide_key r.entry) true el.offered;
      })
      u.1 k.1,
  lookup-insert r.entry.global_id g (local_state r) el.desired,
)

fallback-elect_local :
    (rows : Table Row) (el : Election) → (elect_local rows el).fallback ≡ el.fallback
unfolding elect_local
fallback-elect_local [] el = refl
fallback-elect_local ((id, r) ∷ rows) el = elim (Bool-cases r.deleted) [
  | inl gone ↦ rw (gone, elect_local) (fallback-elect_local rows el)
  | inr here ↦ rw (here, elect_local) (fallback-elect_local rows _)
]

join {ℓ} :
    {A : Type ℓ} (d f a b c : Option A)
    → d ≡ or_else (or_else a none) b
    → (d ≡ none → f ≡ or_else none c)
    → or_else d f ≡ or_else a (or_else b c)
join d f (some x) b c e h = rw e refl
join d f none (some y) c e h = rw e refl
join d f none none c e h = rw e (h e)

module _ (offering : Str → Bool) (hidden : Hides) (excluded : Exclusions) where
  -- An offer of the item that counts, and one that counts only if nothing else does.
  abbrev pub eligible : Str → Offer → Bool
  eligible g o =
      str_eq o.global_id g && offering o.peer_id && not (is_excluded offering hidden excluded o)

  abbrev pub last_resort : Str → Offer → Bool
  last_resort g o =
      str_eq o.global_id g && offering o.peer_id && is_excluded offering hidden excluded o

  abbrev pub as_elected : Option Offer → Option ItemState
  as_elected none = none
  as_elected (some o) = some (remote_state offering hidden excluded o)

  abbrev pub as_fallback : Option Offer → Option ItemState
  as_fallback none = none
  as_fallback (some o) =
      some (record (remote_state offering hidden excluded o) { hidden_folder = true })

  lookup-consider :
      (g : Str) (o : Offer) (el : Election)
      → lookup g (consider offering hidden excluded o el).desired
        ≡ or_else (lookup g el.desired) (if eligible g o then as_elected (some o) else none)
  unfolding consider
  lookup-consider g o el = ground (
    arith,
    str_eq_iff o.global_id g,
    lookup-insert o.global_id g (remote_state offering hidden excluded o) el.desired,
  )

  lookup_fallback-consider :
      (g : Str) (o : Offer) (el : Election)
      → lookup g el.desired ≡ none
      → lookup g (consider offering hidden excluded o el).fallback
        ≡ or_else (lookup g el.fallback) (if last_resort g o then as_fallback (some o) else none)
  unfolding consider
  lookup_fallback-consider g o el d = ground (
    arith,
    str_eq_iff o.global_id g,
    lookup-insert o.global_id g
        (record (remote_state offering hidden excluded o) { hidden_folder = true }) el.fallback,
  )

  noted : Offer → Election → Election
  noted o el = record el { offered = insert (hide_key o.entry) true el.offered }

  lookup-elect_offers :
      (g : Str) (os : List Offer) (el : Election)
      → lookup g (elect_offers offering hidden excluded os el).desired
        ≡ or_else (lookup g el.desired) (as_elected (first_of_all (eligible g) os))
  unfolding elect_offers first_of_all noted
  lookup-elect_offers g [] el = ground arith
  lookup-elect_offers g (o ∷ os) el =
      lookup-elect_offers g os (consider offering hidden excluded o (noted o el))
      ∙ rw (lookup-consider g o (noted o el)) (ground arith)

  lookup_fallback-elect_offers :
      (g : Str) (os : List Offer) (el : Election)
      → lookup g (elect_offers offering hidden excluded os el).desired ≡ none
      → lookup g (elect_offers offering hidden excluded os el).fallback
        ≡ or_else (lookup g el.fallback) (as_fallback (first_of_all (last_resort g) os))
  unfolding elect_offers first_of_all noted
  lookup_fallback-elect_offers g [] el d = ground arith
  lookup_fallback-elect_offers g (o ∷ os) el d =
      let lost = lookup-elect_offers g (o ∷ os) el in
      lookup_fallback-elect_offers g os (consider offering hidden excluded o (noted o el)) d
      ∙ rw (lookup_fallback-consider g o (noted o el) (ground (arith, lost))) (ground arith)

  lookup-merge_fallback :
      (g : Str) (fb d : Table ItemState)
      → lookup g (merge_fallback fb d) ≡ or_else (lookup g d) (lookup g fb)
  unfolding merge_fallback lookup
  lookup-merge_fallback g [] d = ground arith
  lookup-merge_fallback g ((id, st) ∷ fb) d = ground (
    arith,
    str_eq_iff id g,
    lookup-merge_fallback g fb d,
    lookup-merge_fallback g fb (insert id st d),
    lookup-insert id g st d,
  )

  -- For every item, over tables of local rows keyed by their entries' ids: this node's own row that
  -- is not deleted wins, else the first offer, by item and peer id, from an offering peer and
  -- outside its excluded folders, else the first offering peer's offer from an excluded folder.
  pub lookup-elect :
      (g : Str) (rows : Table Row) (offers : List Offer)
      → IsUnique rows
      → AllRows Named rows
      → lookup g (elect offering hidden excluded rows offers).0
        ≡ or_else (local_choice (lookup g rows)) (
            or_else
              (as_elected (first_of_all (eligible g) (order_offers offers)))
              (as_fallback (first_of_all (last_resort g) (order_offers offers))))
  unfolding elect lookup
  lookup-elect g rows offers u k =
      let os = order_offers offers in
      let start = elect_local rows no_election in
      let el = elect_offers offering hidden excluded os start in
      lookup-merge_fallback g el.fallback el.desired
      ∙ join (lookup g el.desired) (lookup g el.fallback) (local_choice (lookup g rows))
          (as_elected (first_of_all (eligible g) os))
          (as_fallback (first_of_all (last_resort g) os))
          (rw (lookup-elect_offers g os start, lookup-elect_local g rows no_election u k) refl)
          (λ lost.
            rw (lookup_fallback-elect_offers g os start lost, fallback-elect_local rows no_election)
              refl)
