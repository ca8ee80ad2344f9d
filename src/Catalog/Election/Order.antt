-- ===== src/Catalog/Election/Order.antt =====
-- The offers in the order of the query.
use jellysync.Common.{
  str_eq_iff, str_lt_asym, str_lt_total, str_lt_trans, ◌≡◌, Bool, true, false, Option, none, some,
  List, [], ◌∷◌, arith, if◌then◌else◌, Bool-cases, inl, inr,
}
use jellysync.Catalog.Election.{Offer, offer_le, place_offer, order_offers}

abbrev pub All : (Offer → Type 0) → List Offer → Type 0
All P [] = Unit {0}
All P (o ∷ os) = P o × All P os

pub place_offer-All :
    (P : Offer → Type 0) (o : Offer) (os : List Offer) → P o → All P os → All P (place_offer o os)
unfolding place_offer
place_offer-All P o [] h k = (h, tt)
place_offer-All P o (p ∷ ps) h k = ground (arith, place_offer-All P o ps h k.1)

pub order_offers-All : (P : Offer → Type 0) (os : List Offer) → All P os → All P (order_offers os)
unfolding order_offers
order_offers-All P [] h = tt
order_offers-All P (o ∷ os) h =
    place_offer-All P o (order_offers os) h.0 (order_offers-All P os h.1)

offer_le_total : (a b : Offer) → offer_le a b ≡ false → offer_le b a ≡ true
unfolding offer_le
offer_le_total a b h = ground (
  arith,
  str_eq_iff a.global_id b.global_id,
  str_eq_iff b.global_id a.global_id,
  str_lt_total a.global_id b.global_id,
  str_lt_asym b.peer_id a.peer_id,
)

offer_le_trans : (a b c : Offer) → offer_le a b ≡ true → offer_le b c ≡ true → offer_le a c ≡ true
unfolding offer_le
offer_le_trans a b c h k = ground (
  arith,
  str_eq_iff a.global_id b.global_id,
  str_eq_iff b.global_id c.global_id,
  str_eq_iff a.global_id c.global_id,
  str_lt_trans a.global_id b.global_id c.global_id,
  str_lt_asym a.global_id b.global_id,
  str_lt_trans c.peer_id b.peer_id a.peer_id,
  str_lt_trans c.peer_id a.peer_id b.peer_id,
  str_lt_trans b.peer_id c.peer_id a.peer_id,
  str_lt_total b.peer_id a.peer_id,
  str_lt_total c.peer_id b.peer_id,
)

-- Each offer stands before all that follow it.
abbrev pub IsSorted : List Offer → Type 0
IsSorted [] = Unit {0}
IsSorted (o ∷ os) = All (λ p. offer_le o p ≡ true) os × IsSorted os

All-weaken :
    (o p : Offer) (os : List Offer)
    → offer_le o p ≡ true
    → All (λ q. offer_le p q ≡ true) os
    → All (λ q. offer_le o q ≡ true) os
All-weaken o p [] l h = tt
All-weaken o p (q ∷ qs) l h = (offer_le_trans o p q l h.0, All-weaken o p qs l h.1)

place_offer-IsSorted : (o : Offer) (os : List Offer) → IsSorted os → IsSorted (place_offer o os)
unfolding place_offer
place_offer-IsSorted o [] s = (tt, tt)
place_offer-IsSorted o (p ∷ ps) s = elim (Bool-cases (offer_le o p)) [
  | inl le ↦ rw (le, place_offer) ((le, All-weaken o p ps le s.0), s)
  | inr gt ↦
      rw (gt, place_offer)
        (
          place_offer-All (λ q. offer_le p q ≡ true) o ps (offer_le_total o p gt) s.0,
          place_offer-IsSorted o ps s.1,
        )
]

pub order_offers-IsSorted : (os : List Offer) → IsSorted (order_offers os)
unfolding order_offers
order_offers-IsSorted [] = tt
order_offers-IsSorted (o ∷ os) = place_offer-IsSorted o (order_offers os) (order_offers-IsSorted os)

-- The first offer that passes a test.
unfoldable pub first_of_all : (Offer → Bool) → List Offer → Option Offer
first_of_all p [] = none
first_of_all p (o ∷ os) = if p o then some o else first_of_all p os

All-place_offer :
    (P : Offer → Type 0) (o : Offer) (os : List Offer) → All P (place_offer o os) → P o × All P os
unfolding place_offer
All-place_offer P o [] h = h
All-place_offer P o (p ∷ ps) h = elim (Bool-cases (offer_le o p)) [
  | inl le ↦ rw (le, place_offer) at h
  | inr gt ↦
      let k = rw (gt, place_offer) at h in let r = All-place_offer P o ps k.1 in (r.0, (k.0, r.1))
]

-- What holds of all ordered offers holds of all offers.
pub All-order_offers : (P : Offer → Type 0) (os : List Offer) → All P (order_offers os) → All P os
unfolding order_offers
All-order_offers P [] h = tt
All-order_offers P (o ∷ os) h =
    let r = All-place_offer P o (order_offers os) h in (r.0, All-order_offers P os r.1)
