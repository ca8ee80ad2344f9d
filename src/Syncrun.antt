-- ===== src/Syncrun.antt =====
-- internal/syncrun/syncrun.go: requests for a sync and the queue that merges them, with the loop
-- that waits for the next one (waitForNextRun of internal/app/app.go).
pub mod Local
pub mod Report
pub mod Runs
pub mod Merge
pub mod Wake
pub mod Examples
use jellysync.Common.{
  Str, is_empty, ℕ, zero, suc, ◌+◌, ◌-◌, Bool, true, false, not, ◌&&◌, ◌||◌, Option, none, some,
  List, [], ◌∷◌, ◌++◌, ◌==◌, if◌then◌else◌,
}
use jellysync.Catalog.Folders.{contains}

pub record Request : Type 0 where
  pub refresh_local : Bool
  pub reason : Str

abbrev pub plus : ℕ
plus = b'+'

abbrev pub onto_first : ℕ → List Str → List Str
onto_first c [] = (c ∷ []) ∷ []
onto_first c (w ∷ ws) = (c ∷ w) ∷ ws

-- strings.Split(reason, "+")
unfoldable pub split_reasons : Str → List Str
split_reasons [] = [] ∷ []
split_reasons (c ∷ s) =
    let rest = split_reasons s in if c == plus then [] ∷ rest else onto_first c rest

-- Request.Merge
unfoldable pub merge : Request → Request → Request
unfolding split_reasons contains
merge r o = record {
  refresh_local = r.refresh_local || o.refresh_local;
  reason =
      if is_empty r.reason
      then o.reason
      else if not (is_empty o.reason) && not (contains o.reason (split_reasons r.reason))
      then r.reason ++ plus ∷ o.reason
      else r.reason;
}

-- The queue, with the token of its channel, the pushes that queued their request and are about to
-- send the token, and whether the loop received it and is about to take the request.
pub record Queue : Type 0 where
  pub pending : Option Request
  pub token : Bool
  pub waking : ℕ
  pub received : Bool

abbrev pub new_queue : Queue
new_queue = record { pending = none; token = false; waking = 0; received = false }

abbrev pub merged : Option Request → Request → Request
merged none r = r
merged (some p) r = merge p r

-- Push up to the unlock.
unfoldable pub enqueue : Request → Queue → Queue
enqueue r q = record q { pending = some (merged q.pending r); waking = q.waking + 1 }

-- The rest of one Push: a full channel keeps its token.
unfoldable pub send : Queue → Queue
send q = record q { token = true; waking = q.waking - 1 }

unfoldable pub receive : Queue → Queue
receive q = record q { token = false; received = true }

-- Queue.Take, and what it returns.
unfoldable pub take_request : Queue → Queue × Option Request
take_request q = (record q { pending = none; received = false }, q.pending)

-- The request of the timer's branch.
unfoldable pub scheduled : Str → Queue → Queue × Request
unfolding take_request
scheduled reason q =
    let r : Request = record { refresh_local = true; reason = reason } in
    let taken = take_request q in
    (taken.0, elim taken.1 [ none ↦ r | some queued ↦ merge r queued ])

unfoldable pub enqueue_all : List Request → Queue → Queue
unfolding enqueue
enqueue_all [] q = q
enqueue_all (r ∷ rs) q = enqueue_all rs (enqueue r q)
