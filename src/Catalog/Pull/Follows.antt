-- ===== src/Catalog/Pull/Follows.antt =====
-- The invariant between a node's index and a peer's mirror of it: what the mirror must hold up to
-- the cursor's revision. While a resync runs, only rows of the current generation count.
use jellysync.Common.{
  Str, str_eq, ℕ, ◌+◌, ◌≤◌, ◌<◌, ◌≡◌, ◌∙◌, ◌⊎◌, inl, inr, refl, Bool, true, Option, none, some,
  arith, ◌==◌, if◌then◌else◌, Option-cases, Bool-cases, List,
}
use jellysync.Common.Table.{
  Table, lookup, insert, retain, IsUnique, AllRows, lookup-insert, lookup-retain,
}
use jellysync.Catalog.Entry.{Entry}
use jellysync.Catalog.Index.{Index, Row, refresh}
use jellysync.Catalog.Index.Valid.{
  IsValid, survives, written-IsValid, bumped-IsValid, purged-IsValid,
}
use jellysync.Catalog.Index.Induction.{refresh_induction}
use jellysync.Catalog.Hidden.{Hides}
use jellysync.Catalog.Changes.{is_gone}
use jellysync.Catalog.Pull.{Mirrored, Cursor}

-- What a row offers to peers.
abbrev pub offer_of : Option Row → Option Entry
offer_of none = none
offer_of (some r) = if is_gone r then none else some r.entry

unfoldable pub offered : Index → Str → Option Entry
offered ix g = offer_of (lookup g ix.rows)

-- What counts of a mirrored row.
abbrev pub seen_as : Bool → ℕ → Option Mirrored → Option Entry
seen_as resync gen none = none
seen_as resync gen (some x) =
    if resync then (if x.gen == gen then some x.entry else none) else some x.entry

abbrev pub mirrored : Cursor → Table Mirrored → Str → Option Entry
mirrored c m g = seen_as c.resync c.gen (lookup g m)

-- The mirror agrees with a row that changed up to `rev`, and with a row that is not there.
abbrev pub AgreesAt : ℕ → Option Row → Option Entry → Type 0
AgreesAt rev none e = e ≡ none
AgreesAt rev (some r) e = (rev < r.rev) ⊎ (e ≡ offer_of (some r))

abbrev pub UpTo : ℕ → Str → Mirrored → Type 0
UpTo gen id x = x.gen ≤ gen

pub record Follows (ix : Index) (c : Cursor) (m : Table Mirrored) : Type 0 where
  pub unique : IsUnique m
  pub gens : AllRows (UpTo c.gen) m
  pub in_reach : c.epoch ≡ ix.epoch → c.rev ≤ ix.head
  pub fresh : c.epoch ≡ ix.epoch → c.rev ≡ 0 → (g : Str) → mirrored c m g ≡ none
  pub agrees :
      c.epoch ≡ ix.epoch
      → ix.min_rev ≤ c.rev
      → (g : Str) → AgreesAt c.rev (lookup g ix.rows) (mirrored c m g)

-- How one row may change: not at all, to a newer revision, or away once it is a purged tombstone.
abbrev pub Moves : ℕ → ℕ → Option Row → Option Row → Type 0
Moves head min_rev old new =
    (new ≡ old)
    ⊎ ((r : Row) × (new ≡ some r) × (head < r.rev))
    ⊎ ((r : Row) × (old ≡ some r) × (new ≡ none) × (r.deleted ≡ true) × (r.rev ≤ min_rev))

pub record Evolves (ix jx : Index) : Type 0 where
  pub same_epoch : jx.epoch ≡ ix.epoch
  pub head_grows : ix.head ≤ jx.head
  pub min_rev_grows : ix.min_rev ≤ jx.min_rev
  pub moves : (g : Str) → Moves ix.head jx.min_rev (lookup g ix.rows) (lookup g jx.rows)

AgreesAt-Moves :
    (head min_rev rev : ℕ) (old new : Option Row) (e : Option Entry)
    → Moves head min_rev old new
    → rev ≤ head
    → min_rev ≤ rev
    → AgreesAt rev old e
    → AgreesAt rev new e
AgreesAt-Moves head min_rev rev none none e mv l k a = ground arith
AgreesAt-Moves head min_rev rev none (some s) e mv l k a = ground arith
AgreesAt-Moves head min_rev rev (some r) none e mv l k a = ground arith
AgreesAt-Moves head min_rev rev (some r) (some s) e mv l k a = ground arith

-- A mirror that follows an index follows what the index becomes.
pub Follows-Evolves :
    {ix jx : Index} (c : Cursor) (m : Table Mirrored)
    → Evolves ix jx
    → Follows ix c m
    → Follows jx c m
Follows-Evolves {ix} {jx} c m ev f = record {
  unique = f.unique;
  gens = f.gens;
  in_reach = λ e. omega (arith, f.in_reach (e ∙ ev.same_epoch), ev.head_grows);
  fresh = λ e z g. f.fresh (e ∙ ev.same_epoch) z g;
  agrees = λ e k g.
      AgreesAt-Moves ix.head jx.min_rev c.rev (lookup g ix.rows) (lookup g jx.rows) (mirrored c m g)
        (ev.moves g) (f.in_reach (e ∙ ev.same_epoch)) k
        (f.agrees (e ∙ ev.same_epoch) (omega (arith, ev.min_rev_grows)) g);
}

written_Moves :
    (k g : Str) (r : Row) (ix : Index)
    → r.rev ≡ ix.head + 1
    → Moves ix.head ix.min_rev (lookup g ix.rows) (lookup g (insert k r ix.rows))
written_Moves k g r ix n = elim (Bool-cases (str_eq k g)) [
  | inl hit ↦ inr (inl (r, ground (arith, lookup-insert k g r ix.rows), omega (arith, n)))
  | inr miss ↦ inl (ground (arith, lookup-insert k g r ix.rows))
]

purge_Moves :
    (g : Str) (n : ℕ) (ix : Index)
    → IsValid ix
    → Moves ix.head n (lookup g ix.rows) (lookup g (retain (survives n) ix.rows))
purge_Moves g n ix v = elim (Option-cases (lookup g ix.rows)) [
  | inl e ↦ inl (ground (arith, lookup-retain (survives n) g ix.rows v.unique))
  | inr (r, e) ↦ elim (Bool-cases (survives n g r)) [
    | inl stays ↦ inl (ground (arith, lookup-retain (survives n) g ix.rows v.unique))
    | inr goes ↦ inr (
        inr (
          r,
          e,
          ground (arith, lookup-retain (survives n) g ix.rows v.unique),
          ground arith,
          ground arith,
        ))
  ]
]

-- A refresh of a valid index, whatever it lists, whatever is hidden and whenever it runs, leaves a
-- valid index, and every cursor and mirror that followed the index before follows it after: what
-- the mirror holds up to the cursor's revision is still right or is due to be sent.
pub refresh-Follows :
    (content_hash : Entry → Str) (hidden : Hides) (now : ℕ) (es : List Entry) (ix : Index)
    (c : Cursor) (m : Table Mirrored)
    → IsValid ix
    → Follows ix c m
    → IsValid (refresh content_hash hidden now es ix).index
      × Follows (refresh content_hash hidden now es ix).index c m
refresh-Follows content_hash hidden now es ix c m v f =
    refresh_induction (λ jx. IsValid jx × Follows jx c m) (λ jx p. p.0)
      (λ jx at p. (
        record {
          named = p.0.named;
          unique = p.0.unique;
          fits = p.0.fits;
          distinct = p.0.distinct;
          retained = p.0.retained;
        },
        Follows-Evolves c m
            (record {
              same_epoch = refl;
              head_grows = omega arith;
              min_rev_grows = omega arith;
              moves = λ g. inl refl;
            })
            p.1,
      ))
      (λ k r jx named next p. (
        written-IsValid k r jx named next p.0,
        Follows-Evolves c m
            (record {
              same_epoch = refl;
              head_grows = omega arith;
              min_rev_grows = omega arith;
              moves = λ g. written_Moves k g r jx next;
            })
            p.1,
      ))
      (λ jx p. (
        bumped-IsValid jx p.0,
        Follows-Evolves c m
            (record {
              same_epoch = refl;
              head_grows = omega arith;
              min_rev_grows = omega arith;
              moves = λ g. inl refl;
            })
            p.1,
      ))
      (λ n jx low high p. (
        purged-IsValid n jx high p.0,
        Follows-Evolves c m
            (record {
              same_epoch = refl;
              head_grows = omega arith;
              min_rev_grows = low;
              moves = λ g. purge_Moves g n jx p.0;
            })
            p.1,
      ))
      content_hash hidden now es ix (v, f)
