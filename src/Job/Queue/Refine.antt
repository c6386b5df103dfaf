-- ===== src/Job/Queue/Refine.antt =====
-- The queue against a list of jobs, oldest first: what is enqueued comes out once, in order.
use native.Mathlib.Decide.{ℕ_discrete}
use ant_chain_trust_sdk.Prelude.{
  ℕ, ◌+◌, ◌-◌, ◌%◌, ◌^◌, ◌<◌, ◌≤◌, ◌≡◌, ◌≢◌, ◌⊎◌, ◌∙◌, sym, refl, inl, inr, false, Option, none,
  some, List, [], ◌∷◌, ◌++◌, length, get_or, arith, length-set, Bool-cases, Option-cases,
}
use ant_chain_trust_sdk.Prelude.Slots.{
  stored, stored-set, tail-next, head-next, count-nonzero, stored-nonzero,
}
use ant_chain_trust_sdk.Errno.{Err, actrust_ok, is_ok, err_make, queue_full}
use ant_chain_trust_sdk.Job.Pool.{core_err}
use ant_chain_trust_sdk.Job.Queue.{
  JobQueue, Waited, enqueue, dequeue, dequeue_enter, dequeue_take, dequeue_timeout,
}

-- The jobs in the queue, oldest first.
abbrev pub jobs : JobQueue → List ℕ
jobs q = stored 0 q.buf q.depth q.head q.count

pub record IsValid (q : JobQueue) : Type 0 where
  pub storage : q.depth ≤ length q.buf
  pub small : q.depth < 2 ^ 16
  pub head_in : q.head < q.depth
  pub count_in : q.count ≤ q.depth
  pub tail_at : q.tail ≡ (q.head + q.count) % q.depth

-- With every adapter call of it successful, an enqueue on an open queue keeps the invariant. Either
-- the queue has room, and the job is appended; or it is full, and the enqueue reports QUEUE_FULL and
-- changes nothing.
pub enqueue_lem :
    (q : JobQueue) (job : ℕ)
    → IsValid q
    → q.closed ≡ false
    → let (e, q') = enqueue actrust_ok actrust_ok actrust_ok q job in
      IsValid q'
      × ((q.count < q.depth) × (e ≡ actrust_ok) × (jobs q' ≡ jobs q ++ job ∷ [])
          ⊎ (q.count ≡ q.depth) × (e ≡ core_err queue_full) × (q' ≡ q))
unfolding enqueue
enqueue_lem q job v running = ground (
  arith,
  length-set q.buf q.tail job,
  tail-next q.head q.count q.depth,
  stored-set 0 q.buf q.depth job q.count q.head q.tail,
)

-- The results of a dequeue in which every adapter call succeeds.
abbrev pub served : Waited
served = record {
  enter = actrust_ok;
  wait = actrust_ok;
  lock = actrust_ok;
  post = actrust_ok;
  unlock = actrust_ok;
}

-- With every adapter call of it successful, a dequeue from a queue that holds jobs returns the
-- oldest one and leaves the others in order, whether the queue is closed or not. The invariant is
-- kept, and the number of waiters is what it was.
pub dequeue_lem :
    (q : JobQueue) (job : ℕ) (rest : List ℕ)
    → IsValid q
    → q.waiter_count + 1 < 2 ^ 16
    → jobs q ≡ job ∷ rest
    → let (e, out, q') = dequeue served q in
      IsValid q'
      × (e ≡ actrust_ok)
      × (out ≡ some job)
      × (jobs q' ≡ rest)
      × (q'.waiter_count ≡ q.waiter_count)
unfolding dequeue dequeue_enter dequeue_take
dequeue_lem q job rest v few holds =
    let some_held : q.count ≢ 0 = count-nonzero 0 q.buf q.depth q.head q.count job rest holds in
    let split = sym holds ∙ stored-nonzero 0 q.buf q.depth q.head q.count some_held in
    ground (arith, split, head-next q.head q.count q.depth some_held)

-- What a dequeue does to the jobs. Either it returns an error, none comes out and the jobs are as
-- they were; or the oldest comes out, the others remain, and the result is that of the last unlock.
abbrev pub Keeps : Err → JobQueue → Err × Option ℕ × JobQueue → Type 0
Keeps unlock q (e, out, q') =
    (e ≢ actrust_ok) × (out ≡ none) × (jobs q' ≡ jobs q)
    ⊎ ((job : ℕ) × (out ≡ some job) × (jobs q ≡ job ∷ jobs q') × (e ≡ unlock))

dequeue_take-Keeps :
    (lock post unlock : Err) (q : JobQueue) → Keeps unlock q (dequeue_take lock post unlock q)
unfolding dequeue_take core_err err_make
dequeue_take-Keeps lock post unlock q = elim (Bool-cases (is_ok lock)) [
  | inr failed ↦ inl (λ h. ground arith, ground arith, ground arith)
  | inl locked ↦ elim (ℕ_discrete q.count 0) [
    | yes empty ↦ inl (λ h. ground arith, ground arith, ground arith)
    | no held ↦ inr (
      get_or q.buf q.head 0,
      ground arith,
      ground (arith, stored-nonzero 0 q.buf q.depth q.head q.count held),
      ground arith,
    )
  ]
]

dequeue_timeout-fails :
    (lock err : Err) (q : JobQueue)
    → err ≢ actrust_ok
    → ((dequeue_timeout lock err q).0 ≢ actrust_ok) × (jobs (dequeue_timeout lock err q).1 ≡ jobs q)
unfolding dequeue_timeout core_err err_make
dequeue_timeout-fails lock err q bad = (λ h. ground arith, ground arith)

dequeue_enter-jobs : (lock : Err) (q : JobQueue) → jobs (dequeue_enter lock q).1 ≡ jobs q
unfolding dequeue_enter
dequeue_enter-jobs lock q = ground arith

dequeue_enter-fails :
    (lock err : Err) (q : JobQueue) → (dequeue_enter lock q).0 ≡ some err → err ≢ actrust_ok
unfolding dequeue_enter core_err err_make
dequeue_enter-fails lock err q e h = ground arith

Keeps-from :
    (unlock : Err) (p q : JobQueue) (r : Err × Option ℕ × JobQueue)
    → jobs p ≡ jobs q
    → Keeps unlock p r
    → Keeps unlock q r
Keeps-from unlock p q r same (inl (bad, e, k)) = inl (bad, e, k ∙ same)
Keeps-from unlock p q r same (inr (job, e, k, u)) = inr (job, e, sym same ∙ k, u)

-- The queue behind a wait that took a token.
abbrev paid : Waited → JobQueue → JobQueue
paid w q = record (dequeue_enter w.enter q).1 {
  sem_items = (dequeue_enter w.enter q).1.sem_items - 1;
}

-- With any results of its adapter calls a dequeue does one of two things. It returns an error, hands
-- out nothing and leaves the jobs as they were. Or it removes the oldest job, hands it out, leaves the
-- others in order, and returns what its last unlock returned: an error, if that unlock failed.
pub dequeue-Keeps : (w : Waited) (q : JobQueue) → Keeps w.unlock q (dequeue w q)
unfolding dequeue
dequeue-Keeps w q = elim (Option-cases (dequeue_enter w.enter q).0) [
  | inr (err, e) ↦
      rw (e, dequeue)
        (inl (dequeue_enter-fails w.enter err q e, refl, dequeue_enter-jobs w.enter q))
  | inl e ↦
      rw (e, dequeue)
        (elim (Bool-cases (is_ok w.wait)) [
          | inl got ↦ rw got (
              Keeps-from w.unlock (paid w q) q (dequeue_take w.lock w.post w.unlock (paid w q))
                (dequeue_enter-jobs w.enter q)
                (dequeue_take-Keeps w.lock w.post w.unlock (paid w q)))
          | inr not_got ↦
              let out =
                dequeue_timeout-fails w.lock w.wait (dequeue_enter w.enter q).1
                  (λ h. ground arith) in
              rw not_got (inl (out.0, refl, out.1 ∙ dequeue_enter-jobs w.enter q))
        ])
]
