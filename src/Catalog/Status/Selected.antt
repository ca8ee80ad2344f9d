-- ===== src/Catalog/Status/Selected.antt =====
-- status.go: the films that the filters of a page select.
use jellysync.Common.{
  Str, str_eq, str_eq_iff, is_empty, lit, ◌&&◌, Bool, true, false, not, Option, none, some, List,
  [], ◌∷◌, ◌++◌, ◌≡◌, ◌≢◌, ◌↔◌, ◌⊎◌, inl, inr, refl, sym, ◌∙◌, arith, Bool-cases,
}
use jellysync.Common.Bytes.{split_commas, trim_space}
use jellysync.Catalog.Items.{Item}
use jellysync.Catalog.Status.{owned_by, owner_filter, escape_like, search_pattern, is_listed}
use jellysync.Catalog.Status.Search.{LikeLaws, Contains, like-search}

-- The text asked for, of the parameter `q`.
abbrev pub MatchesSearch : Str → Str → Type 0
MatchesSearch q name = (trim_space q ≡ []) ⊎ Contains (trim_space q) name

-- One source that is asked for is the row's: "local" is this node.
abbrev pub IsOwner : Str → Item → Type 0
IsOwner owner i =
    (owner ≢ [])
    × (((owner ≡ lit "local") × (i.state.local ≡ true))
        ⊎ ((owner ≢ lit "local") × (i.state.local ≡ false) × (i.state.peer_id ≡ owner)))

abbrev pub IsOwned : List Str → Item → Type 0
IsOwned [] i = ⊥
IsOwned (o ∷ os) i = IsOwner (trim_space o) i ⊎ IsOwned os i

abbrev pub MatchesOwners : Option Str → Item → Type 0
MatchesOwners none i = Unit {0}
MatchesOwners (some owners) i = IsOwned (split_commas [] owners) i

-- A film that a page is asked for.
abbrev pub IsWanted : Option Str → Str → Item → Type 0
IsWanted owners q i =
    (i.state.media_type ≡ lit "movie") × MatchesOwners owners i × MatchesSearch q i.state.name

empty_iff : (s : Str) → (is_empty s ≡ true) ↔ (s ≡ [])
empty_iff [] = (λ _. refl, λ _. refl)
empty_iff (c ∷ s) = (λ h. cc, λ h. cc)

owned_by-IsOwned : (os : List Str) (i : Item) → owned_by os i ≡ true → IsOwned os i
unfolding owned_by
owned_by-IsOwned [] i h = cc
owned_by-IsOwned (o ∷ os) i h =
    let owner = trim_space o in
    let named = empty_iff owner in
    let local_iff = str_eq_iff owner (lit "local") in
    let own_iff = str_eq_iff i.state.peer_id owner in
    let later = owned_by-IsOwned os i in
    elim (Bool-cases (is_empty owner)) [
      | inl e ↦ inr (later (ground arith))
      | inr f ↦ elim (Bool-cases (str_eq owner (lit "local"))) [
        | inl l ↦ elim (Bool-cases i.state.local) [
          | inl at_home ↦ inl (λ n. ground (arith, named.1 n), inl (local_iff.0 l, at_home))
          | inr away ↦ inr (later (ground arith))
        ]
        | inr n ↦ elim (Bool-cases (not i.state.local && str_eq i.state.peer_id owner)) [
          | inl own ↦ inl (
            λ m. ground (arith, named.1 m),
            inr (λ m. ground (arith, local_iff.1 m), ground arith, own_iff.0 (ground arith)),
          )
          | inr other ↦ inr (later (ground arith))
        ]
      ]
    ]

IsOwner-owned_by :
    (o : Str) (os : List Str) (i : Item) → IsOwner (trim_space o) i → owned_by (o ∷ os) i ≡ true
unfolding owned_by
IsOwner-owned_by o os i (n, inl (l, at_home)) =
    let e = (str_eq_iff (trim_space o) (lit "local")).1 l in
    let named = empty_iff (trim_space o) in
    elim (Bool-cases (is_empty (trim_space o))) [
      | inl m ↦ absurd (n (named.0 m))
      | inr f ↦ ground arith
    ]
IsOwner-owned_by o os i (n, inr (l, away, p)) =
    let named = empty_iff (trim_space o) in
    let own = (str_eq_iff i.state.peer_id (trim_space o)).1 p in
    elim (Bool-cases (is_empty (trim_space o))) [
      | inl m ↦ absurd (n (named.0 m))
      | inr f ↦ elim (Bool-cases (str_eq (trim_space o) (lit "local"))) [
        | inl e ↦ absurd (l ((str_eq_iff (trim_space o) (lit "local")).0 e))
        | inr g ↦ ground arith
      ]
    ]

IsOwned-owned_by : (os : List Str) (i : Item) → IsOwned os i → owned_by os i ≡ true
unfolding owned_by
IsOwned-owned_by [] i h = absurd h
IsOwned-owned_by (o ∷ os) i (inl h) = IsOwner-owned_by o os i h
IsOwned-owned_by (o ∷ os) i (inr h) = ground (arith, IsOwned-owned_by os i h)

owner_filter-Matches :
    (owners : Option Str) (i : Item) → (owner_filter owners i ≡ true) ↔ MatchesOwners owners i
unfolding owner_filter
owner_filter-Matches none i = (λ _. tt, λ _. refl)
owner_filter-Matches (some owners) i =
    (owned_by-IsOwned (split_commas [] owners) i, IsOwned-owned_by (split_commas [] owners) i)

true_is_not_false : ¬ (true ≡ false)
true_is_not_false h = cc

-- The search of is_listed.
abbrev searched : (Str → Str → Bool) → Str → Str → Bool
searched like q name = elim (search_pattern q) [ none ↦ true | some pattern ↦ like pattern name ]

searched-Matches :
    (like : Str → Str → Bool) (q name : Str)
    → LikeLaws like
    → (searched like q name ≡ true) ↔ MatchesSearch q name
unfolding search_pattern
searched-Matches like q name laws = elim (Bool-cases (is_empty (trim_space q))) [
  | inl e ↦ (λ _. inl ((empty_iff (trim_space q)).0 e), λ _. ground arith)
  | inr f ↦
      let pattern : searched like q name
          ≡ like (lit "%" ++ escape_like (trim_space q) ++ lit "%") name =
        ground arith in
      let found = like-search like laws (trim_space q) name in
      (
        λ h. inr (found.0 (sym pattern ∙ h)),
        λ m. elim m [
          | inl n ↦ absurd (true_is_not_false (sym ((empty_iff (trim_space q)).1 n) ∙ f))
          | inr c ↦ pattern ∙ found.1 c
        ],
      )
]

-- Where SQLite's LIKE does what it documents, a row is selected for a page of films exactly if it is
-- a film, its source is one of those asked for, and its name contains the text asked for, whatever
-- wildcards that has and whatever the case of ASCII letters: without the parameter `owners` every
-- source is asked for, and with a search of white space alone every name matches.
pub is_listed-IsWanted :
    (like : Str → Str → Bool) (owners : Option Str) (q : Str) (i : Item)
    → LikeLaws like
    → (is_listed like owners q i ≡ true) ↔ IsWanted owners q i
unfolding is_listed
is_listed-IsWanted like owners q i laws =
    let film = str_eq_iff i.state.media_type (lit "movie") in
    let owned = owner_filter-Matches owners i in
    let named = searched-Matches like q i.state.name laws in
    (
      λ h. (film.0 (ground arith), owned.0 (ground arith), named.0 (ground arith)),
      λ (f, o, n). let a = film.1 f in let b = owned.1 o in let c = named.1 n in ground arith,
    )
