-- ===== src/Peers/Ids/Free.antt =====
-- ids.go `idFor`: the loop over numbered ids.
use jellysync.Common.{
  Str, str_eq, str_eq_iff, is_empty, lit, ◌==◌, ◌||◌, ◌&&◌, ℕ, zero, suc, ◌+◌, ◌≤◌, ◌<◌, Bool, true,
  false, not, some, List, [], ◌∷◌, ◌++◌, if◌then◌else◌, length, ◌≡◌, refl, ap, arith, Bool-cases,
  inl, inr,
}
use jellysync.Common.Bytes.{two_places, int_places}
use mathlib.Core.List.{append_cancel_left}
use jellysync.Common.Numbers.{ten_to, two_places_differ}
use jellysync.Catalog.Folders.{contains}
use jellysync.Peers.Ids.{is_reserved, slug, numbered, first_free, id_for}

-- Two numbers give two ids.
numbered_differ :
    (base : Str) (n m : ℕ)
    → n < ten_to int_places
    → m < ten_to int_places
    → numbered base n ≡ numbered base m
    → n ≡ m
unfolding numbered
numbered_differ base n m hn hm e =
    two_places_differ n m hn hm
      (append_cancel_left (base ++ lit "_") (two_places n) (two_places m) e)

-- A list without one of its elements.
without : Str → List Str → List Str
without x [] = []
without x (y ∷ ys) = let rest = without x ys in if str_eq y x then ys else y ∷ rest

length-without :
    (x : Str) (ys : List Str) → contains x ys ≡ true → length ys ≡ suc (length (without x ys))
unfolding contains without
length-without x [] h = ground arith
length-without x (y ∷ ys) h = let ih = length-without x ys in ground arith

contains-without :
    (x z : Str) (ys : List Str)
    → str_eq x z ≡ false
    → contains z ys ≡ true
    → contains z (without x ys) ≡ true
unfolding contains without
contains-without x z [] h k = k
contains-without x z (y ∷ ys) h k =
    ground (arith, contains-without x z ys h, str_eq_iff y x, str_eq_iff y z)

other :
    (base : Str) (n m : ℕ)
    → n + 1 ≤ m
    → n < ten_to int_places
    → m < ten_to int_places
    → str_eq (numbered base n) (numbered base m) ≡ false
other base n m l hn hm = elim (Bool-cases (str_eq (numbered base n) (numbered base m))) [
  | inl same ↦
      let e =
        numbered_differ base n m hn hm ((str_eq_iff (numbered base n) (numbered base m)).0 same) in
      ground arith
  | inr f ↦ f
]

no_less : (n : ℕ) → ¬ (n < 0)
no_less n = omega arith

-- With more rounds than ids that may be taken from here on, the loop finds one that is not.
first_free_found :
    (taken : Str → Bool) (base : Str) (rounds n : ℕ) (ids : List Str)
    → ((m : ℕ)
        → n ≤ m
        → m < ten_to int_places
        → taken (numbered base m) ≡ true
        → contains (numbered base m) ids ≡ true)
    → length ids < rounds
    → n + rounds ≤ ten_to int_places
    → (m : ℕ) × (first_free taken base rounds n ≡ some (numbered base m))
      × (taken (numbered base m) ≡ false)
unfolding first_free
first_free_found taken base zero n ids h l b = absurd (no_less (length ids) l)
first_free_found taken base (suc rounds) n ids h l b = elim (Bool-cases (taken (numbered base n))) [
  | inr f ↦ (n, ground arith, f)
  | inl t ↦
      let id = numbered base n in
      let there = h n (omega arith) (omega arith) t in
      let shorter = length-without (numbered base n) ids there in
      let found =
        first_free_found taken base rounds (n + 1) (without (numbered base n) ids)
          (λ m above below k.
            contains-without (numbered base n) (numbered base m) ids
              (other base n m above (omega arith) below) (h m (omega arith) below k))
          (omega arith) (omega arith) in
      (found.0, (ground (arith, found.1)), found.2)
]

has_byte : ℕ → Str → Bool
has_byte b [] = false
has_byte b (c ∷ s) = c == b || has_byte b s

has_byte-++ : (b : ℕ) (s t : Str) → has_byte b s ≡ true → has_byte b (s ++ t) ≡ true
unfolding has_byte
has_byte-++ b [] t h = ground arith
has_byte-++ b (c ∷ s) t h = ground (arith, has_byte-++ b s t)

has_underscore : (base : Str) → has_byte b'_' (base ++ lit "_") ≡ true
unfolding has_byte
has_underscore [] = refl
has_underscore (c ∷ s) = ground (arith, has_underscore s)

differ_by_byte :
    (b : ℕ) (s t : Str) → has_byte b s ≡ true → has_byte b t ≡ false → str_eq s t ≡ false
differ_by_byte b s t h k = elim (Bool-cases (str_eq s t)) [
  | inl e ↦ let same = ap (has_byte b) ((str_eq_iff s t).0 e) in ground arith
  | inr f ↦ f
]

-- A reserved id has no number.
numbered-is_reserved : (base : Str) (n : ℕ) → is_reserved (numbered base n) ≡ false
unfolding is_reserved numbered has_byte
numbered-is_reserved base n =
    let has = has_byte-++ b'_' (base ++ lit "_") (two_places n) (has_underscore base) in
    let a = differ_by_byte b'_' (numbered base n) (lit "local") has refl in
    let b = differ_by_byte b'_' (numbered base n) (lit "unknown") has refl in ground arith

-- If fewer than 10 ^ 19 - 1 ids are taken, with one round more than those, a peer of a usable name
-- gets an id, and one that is neither taken nor reserved.
pub id_for_free :
    (fresh name : Str) (taken : Str → Bool) (ids : List Str)
    → ((id : Str) → taken id ≡ true → contains id ids ≡ true)
    → suc (suc (length ids)) ≤ ten_to int_places
    → is_empty (slug name) ≡ false
    → (id : Str) × (id_for (suc (length ids)) fresh name taken ≡ some id)
      × (taken id ≡ false)
      × (is_reserved id ≡ false)
unfolding id_for
id_for_free fresh name taken ids h b s =
    let base = slug name in
    let found =
      first_free_found taken (slug name) (suc (length ids)) 1 ids
        (λ m l u t. h (numbered (slug name) m) t) (omega arith) (omega arith) in
    elim (Bool-cases (not (taken (slug name)) && not (is_reserved (slug name)))) [
      | inl t ↦ (slug name, rw (s, t, id_for) refl, ground arith, ground arith)
      | inr f ↦ (
        numbered (slug name) found.0,
        rw (s, f, id_for) found.1,
        found.2,
        numbered-is_reserved (slug name) found.0,
      )
    ]
