-- ===== src/Catalog/Election/Smallest.antt =====
-- The elected peer among those whose offer counts.
use jellysync.Common.{
  Str, str_eq_iff, str_lt, str_lt_asym, ◌≡◌, refl, sym, Bool, true, false, Option, none, some, List,
  [], ◌∷◌, arith, Bool-cases, inl, inr,
}
use jellysync.Common.Table.{Table, lookup, IsUnique, AllRows}
use jellysync.Catalog.Hidden.{Hides}
use jellysync.Catalog.Folders.{Exclusions}
use jellysync.Catalog.Index.{Row}
use jellysync.Catalog.Election.{
  ItemState, Offer, local_state, remote_state, elect, order_offers, offer_le,
}
use jellysync.Catalog.Election.Order.{
  All, IsSorted, order_offers-IsSorted, All-order_offers, first_of_all,
}
use mathlib.Core.Path.{subst}
use mathlib.Core.List.{Memᴰ}
use mathlib.Core.List.Memᴰ
use jellysync.Catalog.Election.Choice.{
  Named, local_choice, or_else, eligible, last_resort, as_elected, as_fallback, lookup-elect,
}

str_lt_self : (s : Str) → str_lt s s ≡ false
str_lt_self s = elim (Bool-cases (str_lt s s)) [ inl t ↦ cc (str_lt_asym s s t) | inr f ↦ f ]

All-Mem : (P : Offer → Type 0) (o : Offer) (os : List Offer) → Memᴰ o os → All P os → P o
All-Mem P o (p ∷ ps) m h = elim (Memᴰ.cases_cons m) [
  | inl e ↦ subst P (sym e) h.0
  | inr n ↦ All-Mem P o ps n h.1
]
All-Mem P o [] m h = absurd (Memᴰ.not-nil m)

module _ (offering : Str → Bool) (hidden : Hides) (excluded : Exclusions) where
  -- No offer of the item that counts comes from a smaller peer.
  abbrev pub NoSmaller : Str → Str → List Offer → Type 0
  NoSmaller g peer =
      All (λ p. eligible offering hidden excluded g p ≡ true → str_lt p.peer_id peer ≡ false)

  after_first :
      (g : Str) (p : Offer) (os : List Offer)
      → p.global_id ≡ g
      → All (λ q. offer_le p q ≡ true) os
      → NoSmaller g p.peer_id os
  unfolding offer_le
  after_first g p [] same h = tt
  after_first g p (q ∷ qs) same h = (
    λ e. ground (arith, str_eq_iff q.global_id g, str_eq_iff p.global_id q.global_id),
    after_first g p qs same h.1,
  )

  first-smallest :
      (g : Str) (o : Offer) (os : List Offer)
      → IsSorted os
      → first_of_all (eligible offering hidden excluded g) os ≡ some o
      → NoSmaller g o.peer_id os
  unfolding first_of_all
  first-smallest g o [] s e = tt
  first-smallest g o (p ∷ ps) s e = elim (Bool-cases (eligible offering hidden excluded g p)) [
    | inl hit ↦
        let same : p ≡ o = ground arith in
        subst (λ x. NoSmaller g x.peer_id (p ∷ ps)) same
          (
            λ h. str_lt_self p.peer_id,
            after_first g p ps (ground (arith, str_eq_iff p.global_id g)) s.0,
          )
    | inr miss ↦ (λ h. cc, first-smallest g o ps s.1 (ground arith))
  ]

  chosen-smallest :
      (g : Str) (l : Option ItemState) (c f : Option Offer) (st : ItemState) (os : List Offer)
      → ((a : ItemState) → l ≡ some a → a.local ≡ true)
      → ((o : Offer) → c ≡ some o → NoSmaller g o.peer_id os)
      → or_else l
          (or_else (as_elected offering hidden excluded c) (as_fallback offering hidden excluded f))
        ≡ some st
      → st.local ≡ false
      → st.hidden_folder ≡ false
      → NoSmaller g st.peer_id os
  unfolding remote_state
  chosen-smallest g (some a) c f st os own least e nl nf = absurd (ground (arith, own a refl))
  chosen-smallest g none (some o) f st os own least e nl nf =
      let same : o.peer_id ≡ st.peer_id = ground arith in
      subst (λ x. NoSmaller g x os) same (least o refl)
  chosen-smallest g none none (some o) st os own least e nl nf = absurd (ground arith)
  chosen-smallest g none none none st os own least e nl nf = absurd (cc)

  local_choice-local : (o : Option Row) (a : ItemState) → local_choice o ≡ some a → a.local ≡ true
  unfolding local_state
  local_choice-local none a e = cc
  local_choice-local (some r) a e = ground arith

  none_smaller :
      (g : Str) (rows : Table Row) (offers : List Offer) (st : ItemState)
      → IsUnique rows
      → AllRows Named rows
      → lookup g (elect offering hidden excluded rows offers).0 ≡ some st
      → st.local ≡ false
      → st.hidden_folder ≡ false
      → NoSmaller g st.peer_id offers
  none_smaller g rows offers st u k e nl nf =
      let os = order_offers offers in
      All-order_offers
        (λ p. eligible offering hidden excluded g p ≡ true → str_lt p.peer_id st.peer_id ≡ false)
        offers
        (chosen-smallest g (local_choice (lookup g rows))
          (first_of_all (eligible offering hidden excluded g) os)
          (first_of_all (last_resort offering hidden excluded g) os) st os
          (local_choice-local (lookup g rows))
          (λ o found. first-smallest g o os (order_offers-IsSorted offers) found)
          (rw (lookup-elect offering hidden excluded g rows offers u k) at e) nl nf)

  -- Where an item's elected state is not this node's own and not a fallback from an excluded
  -- folder, no eligible offer of the item comes from a peer with a smaller id than the elected one.
  pub elect-smallest :
      (g : Str) (rows : Table Row) (offers : List Offer) (st : ItemState) (o : Offer)
      → IsUnique rows
      → AllRows Named rows
      → lookup g (elect offering hidden excluded rows offers).0 ≡ some st
      → st.local ≡ false
      → st.hidden_folder ≡ false
      → Memᴰ o offers
      → eligible offering hidden excluded g o ≡ true
      → str_lt o.peer_id st.peer_id ≡ false
  elect-smallest g rows offers st o u k e nl nf here =
      All-Mem
        (λ p. eligible offering hidden excluded g p ≡ true → str_lt p.peer_id st.peer_id ≡ false) o
        offers here (none_smaller g rows offers st u k e nl nf)
