-- ===== src/Syncrun/Wake.antt =====
-- The wake-ups of the waiting loop, against the requests.
use jellysync.Common.{Str, ◌<◌, ◌≡◌, ◌⊎◌, inl, inr, refl, true, false, none, arith}
use jellysync.Syncrun.{Request, Queue, new_queue, enqueue, send, receive, take_request, scheduled}

-- One step of a push or of the loop; the loop waits for a token or its timer unless it received one.
pub data Step : Queue → Queue → Type 0 where
  pushed : (q : Queue) (r : Request) → Step q (enqueue r q)
  sent : (q : Queue) → 0 < q.waking → Step q (send q)
  woken : (q : Queue) → q.token ≡ true → q.received ≡ false → Step q (receive q)
  taken : (q : Queue) → q.received ≡ true → Step q (take_request q).0
  timed_out : (q : Queue) (reason : Str) → q.received ≡ false → Step q (scheduled reason q).0

pub data Reach : Queue → Type 0 where
  here : Reach new_queue
  next : {q t : Queue} → Reach q → Step q t → Reach t

-- Nothing waits, or a token is there or about to be sent, or the loop is about to take.
abbrev pub IsNoticed : Queue → Type 0
IsNoticed q = (q.pending ≡ none) ⊎ (q.token ≡ true) ⊎ (0 < q.waking) ⊎ (q.received ≡ true)

Step-IsNoticed : {q t : Queue} → Step q t → IsNoticed q → IsNoticed t
unfolding enqueue send receive take_request scheduled
Step-IsNoticed (pushed q r) h = inr (inr (inl (omega arith)))
Step-IsNoticed (sent q w) h = inr (inl refl)
Step-IsNoticed (woken q t w) h = inr (inr (inr refl))
Step-IsNoticed (taken q w) h = inl refl
Step-IsNoticed (timed_out q reason w) h = inl refl

-- In every interleaving of pushes with the loop's waits, takes and timeouts, a request that is
-- pending is announced: a token is in the channel or about to be sent, or the loop has received
-- one and takes the request next.
pub Reach-IsNoticed : (q : Queue) → Reach q → IsNoticed q
Reach-IsNoticed q here = inl refl
Reach-IsNoticed q (next h st) = Step-IsNoticed st (Reach-IsNoticed _ h)
