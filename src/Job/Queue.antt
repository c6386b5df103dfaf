-- ===== src/Job/Queue.antt =====
-- The job queue of core_job.c. The semaphore is its count. The result of an adapter call that can
-- fail is an argument of the operation that makes the call, unless it is an unlock whose result the
-- code discards. Jobs are passed on as their indices.
pub mod Refine
pub mod Threads
pub mod Stranded
use ant_chain_trust_sdk.Prelude.{
  ℕ, zero, suc, ◌+◌, ◌-◌, ◌%◌, ◌^◌, Bool, true, false, ◌&&◌, not, Option, none, some, List, [], ◌∷◌,
  ◌++◌, length, get_or, set, replicate, ltb, leb, ◌==◌, if◌then◌else◌,
}
use ant_chain_trust_sdk.Errno.{
  Err, actrust_ok, err_make, module_core, invalid_arg, bad_state, no_resource, no_mem, queue_full,
  is_ok,
}
use ant_chain_trust_sdk.Job.Pool.{core_err}

-- `actrust_job_queue_t`; `sem_items` is the semaphore's count. A null `buf` is empty, and
-- `has_lock` and `has_sem` say that the mutex and the semaphore exist.
pub record JobQueue : Type 0 where
  pub buf : List ℕ
  pub has_lock : Bool
  pub has_sem : Bool
  pub depth : ℕ
  pub head : ℕ
  pub tail : ℕ
  pub count : ℕ
  pub waiter_count : ℕ
  pub close_wake_pending : ℕ
  pub closed : Bool
  pub sem_items : ℕ

-- `uint16_t` arithmetic
abbrev pub u16 : ℕ → ℕ
u16 n = n % 2 ^ 16

-- `actrust_job_queue_init`: `storage` is what the allocation gives, `lock` and `sem` the results of
-- creating the mutex and the semaphore.
unfoldable pub queue_init : Option (List ℕ) → Err → Err → ℕ → Err × Option JobQueue
queue_init storage lock sem depth =
    if depth == 0 then (core_err invalid_arg, none) else elim storage [
      | none ↦ (core_err no_mem, none)
      | some buf ↦
          if not (is_ok lock) then (lock, none) else if not (is_ok sem) then (sem, none) else (
            actrust_ok,
            some (record {
              buf = buf;
              has_lock = true;
              has_sem = true;
              depth = depth;
              head = 0;
              tail = 0;
              count = 0;
              waiter_count = 0;
              close_wake_pending = 0;
              closed = false;
              sem_items = 0;
            }),
          )
    ]

-- `actrust_job_queue_enqueue`: the semaphore is posted before the job is stored.
unfoldable pub enqueue : Err → Err → Err → JobQueue → ℕ → Err × JobQueue
enqueue lock unlock post q job =
    if not (is_ok lock)
    then (lock, q)
    else if q.closed
    then (core_err bad_state, q)
    else if leb q.depth q.count
    then (if not (is_ok unlock) then unlock else core_err queue_full, q)
    else if not (is_ok post)
    then (post, q)
    else (
      actrust_ok,
      record q {
        sem_items = q.sem_items + 1;
        buf = set q.buf q.tail job;
        tail = (q.tail + 1) % q.depth;
        count = u16 (q.count + 1);
      },
    )

-- The loop of `actrust_job_queue_close`: a post for each pending waiter, until one fails. The list
-- holds the results of the posts; behind its end they succeed.
unfoldable pub wake : List Err → ℕ → JobQueue → Err × JobQueue
wake posts zero q = (actrust_ok, q)
wake [] (suc n) q =
    wake [] n
      (record q { sem_items = q.sem_items + 1; close_wake_pending = q.close_wake_pending - 1 })
wake (post ∷ posts) (suc n) q =
    let rest =
      wake posts n
        (record q { sem_items = q.sem_items + 1; close_wake_pending = q.close_wake_pending - 1 }) in
    if not (is_ok post) then (post, q) else rest

-- The first close marks the queue, and counts the waiters to wake.
unfoldable pub closing : JobQueue → JobQueue
closing q = if q.closed then q else record q { closed = true; close_wake_pending = q.waiter_count }

-- `actrust_job_queue_close`
unfoldable pub close : Err → List Err → Err → JobQueue → Err × JobQueue
close lock posts unlock q =
    if not (is_ok lock)
    then (lock, q)
    else let (err, q') = wake posts (closing q).close_wake_pending (closing q) in
      if not (is_ok err) then (err, q') else (unlock, q')

-- `actrust_job_queue_dequeue` up to the wait: it refuses, or the caller goes on to wait.
unfoldable pub dequeue_enter : Err → JobQueue → Option Err × JobQueue
dequeue_enter lock q =
    if not (is_ok lock)
    then (some lock, q)
    else if q.closed && q.count == 0
    then (some (core_err bad_state), q)
    else (none, record q { waiter_count = u16 (q.waiter_count + 1) })

abbrev pub one_waiter_less : JobQueue → JobQueue
one_waiter_less q =
    if ltb 0 q.waiter_count then record q { waiter_count = q.waiter_count - 1 } else q

-- The branch behind a wait that failed with `err`.
unfoldable pub dequeue_timeout : Err → Err → JobQueue → Err × JobQueue
dequeue_timeout lock err q = if not (is_ok lock) then (lock, q) else (
  if (one_waiter_less q).closed && (one_waiter_less q).count == 0 then core_err bad_state else err,
  one_waiter_less q,
)

-- The branch behind a wait that succeeded. If the lock fails the token is given back by a `post`,
-- whose result the code does not look at.
unfoldable pub dequeue_take : Err → Err → Err → JobQueue → Err × Option ℕ × JobQueue
dequeue_take lock post unlock q =
    let q' = one_waiter_less q in
    if not (is_ok lock)
    then (lock, none, if is_ok post then record q' { sem_items = q'.sem_items + 1 } else q')
    else if q'.count == 0
    then (
      if not (is_ok unlock)
          then unlock
          else if q'.closed
          then core_err bad_state
          else core_err no_resource,
      none,
      q',
    )
    else (
      unlock,
      some (get_or q'.buf q'.head 0),
      record q' { head = (q'.head + 1) % q'.depth; count = q'.count - 1 },
    )

-- The results of the adapter calls of a `dequeue`. A wait that succeeds takes a token.
pub record Waited : Type 0 where
  pub enter : Err
  pub wait : Err
  pub lock : Err
  pub post : Err
  pub unlock : Err

-- `actrust_job_queue_dequeue` with nothing else running in between.
unfoldable pub dequeue : Waited → JobQueue → Err × Option ℕ × JobQueue
dequeue w q =
    let (refused, q') = dequeue_enter w.enter q in
    elim refused [
      | some err ↦ (err, none, q')
      | none ↦
          if is_ok w.wait
          then dequeue_take w.lock w.post w.unlock (record q' { sem_items = q'.sem_items - 1 })
          else let (err, q'') = dequeue_timeout w.lock w.wait q' in (err, none, q'')
    ]

abbrev pub is_null : List ℕ → Bool
is_null buf = length buf == 0

-- The end of `actrust_job_queue_deinit`, from destroying the semaphore on.
unfoldable pub tear_down : Err → Err → JobQueue → Err × JobQueue
tear_down destroy_sem destroy_lock q =
    if q.has_sem && not (is_ok destroy_sem)
    then (destroy_sem, q)
    else if not (is_ok destroy_lock)
    then (destroy_lock, record q { has_sem = false })
    else (
      actrust_ok,
      record q {
        has_sem = false;
        has_lock = false;
        buf = [];
        count = 0;
        waiter_count = 0;
        close_wake_pending = 0;
      },
    )

-- `actrust_job_queue_deinit`: only a closed, empty queue that nobody waits on is torn down.
unfoldable pub queue_deinit : Err → Err → Err → Err → JobQueue → Err × JobQueue
queue_deinit lock unlock destroy_sem destroy_lock q =
    if not q.has_lock
    then (if is_null q.buf && not q.has_sem then actrust_ok else core_err bad_state, q)
    else if not (is_ok lock)
    then (lock, q)
    else if not (is_ok unlock)
    then (unlock, q)
    else if not (q.closed && q.count == 0 && q.waiter_count == 0)
    then (core_err bad_state, q)
    else tear_down destroy_sem destroy_lock q
