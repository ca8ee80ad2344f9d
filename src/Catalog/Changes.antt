-- ===== src/Catalog/Changes.antt =====
-- internal/catalog/index.go: one page of the change feed (Index.Changes), the whole catalog for
-- older peers (Index.Entries), and the request checks of ChangesHandler in catalog.go.
pub mod Page
use Prim.Native.Nat.{min}
use jellysync.Common.{
  Str, str_eq, is_empty, ℕ, zero, suc, ◌+◌, Bool, true, false, not, ◌&&◌, ◌||◌, Option, none, some,
  List, [], ◌∷◌, ltb, leb, ◌==◌, take, is_some, if◌then◌else◌, map,
}
use jellysync.Common.Table.{Table, retain, order_by}
use jellysync.Catalog.Entry.{Entry, ℤ, pos, negsuc}
use jellysync.Catalog.Index.{Index, Row, key_le}

-- The item's entry, or `none` for a tombstone.
pub record Change : Type 0 where
  pub rev : ℕ
  pub global_id : Str
  pub deleted : Bool
  pub entry : Option Entry

pub data ResetReason : Type 0 where
  first_sync epoch_changed out_of_range too_old : ResetReason

pub record Feed : Type 0 where
  pub epoch : Str
  pub head : ℕ
  pub next : ℕ
  pub more : Bool
  pub reset : Bool
  pub changes : List Change
  pub reset_reason : Option ResetReason

unfoldable pub reset_reason_of : Index → Str → ℤ → Option ResetReason
reset_reason_of ix epoch (negsuc n) =
    if is_empty epoch
    then some first_sync
    else if not (str_eq epoch ix.epoch)
    then some epoch_changed
    else some out_of_range
reset_reason_of ix epoch (pos since) =
    if is_empty epoch
    then some first_sync
    else if not (str_eq epoch ix.epoch)
    then some epoch_changed
    else if ltb ix.head since
    then some out_of_range
    else if ltb 0 since && ltb since ix.min_rev
    then some too_old
    else none

-- The cursor that the page starts from.
unfoldable pub base_of : Option ResetReason → ℤ → ℕ
base_of (some reason) since = 0
base_of none (pos since) = since
base_of none (negsuc n) = 0

abbrev pub is_gone : Row → Bool
is_gone r = r.deleted || r.hidden

abbrev pub rev_le : Str × Row → Str × Row → Bool
rev_le a b = leb a.1.rev b.1.rev

-- The `SELECT`: from scratch, rows that are gone are left out.
unfoldable pub select : ℕ → Table Row → Table Row
select base rows =
    order_by rev_le
      (retain (λ _ r. ltb base r.rev && (if base == 0 then not (is_gone r) else true)) rows)

unfoldable pub to_change : Str × Row → Change
to_change (id, r) = record {
  rev = r.rev;
  global_id = id;
  deleted = is_gone r;
  entry = if is_gone r then none else some r.entry;
}

-- The loop over the rows read: the page, and whether a row was left over.
unfoldable pub read_page : ℕ → Table Row → List Change × Bool
read_page zero [] = ([], false)
read_page zero (x ∷ rows) = ([], true)
read_page (suc n) [] = ([], false)
read_page (suc n) (x ∷ rows) = let rest = read_page n rows in (to_change x ∷ rest.0, rest.1)

unfoldable pub last_rev : List Change → Option ℕ
last_rev [] = none
last_rev (c ∷ []) = some c.rev
last_rev (c ∷ d ∷ cs) = last_rev (d ∷ cs)

-- feed.Next: the head, or the last revision of a page with more to come. `none` is the panic of
-- an empty page with more to come, which only a limit of 0 gives.
unfoldable pub next_of : ℕ → List Change × Bool → Option ℕ
unfolding last_rev
next_of head (cs, more) = if more then last_rev cs else some head

unfoldable pub feed_of : Index → Option ResetReason → List Change × Bool → Option ℕ → Option Feed
feed_of ix reason page none = none
feed_of ix reason page (some next) = some (record {
  epoch = ix.epoch;
  head = ix.head;
  next = next;
  more = page.1;
  reset = is_some reason;
  changes = page.0;
  reset_reason = reason;
})

unfoldable pub changes : Index → Str → ℤ → ℕ → Option Feed
changes ix epoch since limit =
    let reason = reset_reason_of ix epoch since in
    let page = read_page limit (take (suc limit) (select (base_of reason since) ix.rows)) in
    feed_of ix reason page (next_of ix.head page)

-- Index.Entries: what is offered, by key.
unfoldable pub entries : Index → List Entry
entries ix = map (λ r. r.1.entry) (order_by key_le (retain (λ _ r. not (is_gone r)) ix.rows))

-- A query parameter as strconv reads it.
pub data Param : Type 0 where
  absent malformed : Param
  number : ℤ → Param

abbrev pub default_changes_limit : ℕ
default_changes_limit = 1000

abbrev pub max_changes_limit : ℕ
max_changes_limit = 5000

unfoldable pub since_of : Param → Option ℤ
since_of absent = some (pos 0)
since_of malformed = none
since_of (number n) = some n

unfoldable pub limit_of : Param → Option ℕ
limit_of absent = some default_changes_limit
limit_of malformed = none
limit_of (number (negsuc n)) = none
limit_of (number (pos zero)) = none
limit_of (number (pos (suc n))) = some (min (suc n) max_changes_limit)

pub data Reply : Type 0 where
  bad_request server_error panic : Reply
  page : Feed → Reply

-- ChangesHandler, over the outcome of EnsureIndexed.
unfoldable pub changes_handler : Option Index → Str → Param → Param → Reply
unfolding since_of limit_of
changes_handler indexed epoch since limit = elim (since_of since) [
  | none ↦ bad_request
  | some n ↦ elim (limit_of limit) [
    | none ↦ bad_request
    | some l ↦ elim indexed [
      | none ↦ server_error
      | some ix ↦ elim (changes ix epoch n l) [ none ↦ panic | some feed ↦ page feed ]
    ]
  ]
]
