-- ===== src/Queue/Sections.antt =====
-- The state of queue.c, and the sections of its functions that run under a lock. A semaphore is its
-- count; a result of an adapter call that the code looks at is an argument.
use ant_chain_trust_sdk.Prelude.{
  ℕ, ◌+◌, ◌-◌, ◌%◌, ◌^◌, Bool, true, false, ◌&&◌, not, List, set, get_or, ltb, ◌==◌, if◌then◌else◌,
  [],
}
use ant_chain_trust_sdk.Errno.{
  Err, Outcome, fail, done, actrust_ok, err_make, err_code, err_module, module_components_queue,
  module_adapter_system, is_ok, bad_state, would_block, queue_full, no_resource,
}

abbrev pub Bytes : Type 0
Bytes = List ℕ

-- `QUEUE_ERR`
unfoldable pub queue_err : ℕ → Err
queue_err reason = err_make module_components_queue reason

-- `actrust_queue_state_t`
pub data QueueState : Type 0 where
  open_queue closing closed : QueueState

abbrev pub is_open : QueueState → Bool
is_open open_queue = true
is_open _ = false

-- `struct actrust_queue`. The buffer is its slots, each the bytes of one item. A `has_*` field says
-- that a mutex or a semaphore is not null.
pub record Queue : Type 0 where
  pub buffer : List Bytes
  pub capacity : ℕ
  pub head : ℕ
  pub tail : ℕ
  pub size : ℕ
  pub has_lock : Bool
  pub has_state_lock : Bool
  pub has_empty : Bool
  pub has_filled : Bool
  pub empty_slots : ℕ
  pub filled_slots : ℕ
  pub state : QueueState
  pub in_flight : ℕ
  pub waiting_push : ℕ
  pub waiting_pop : ℕ

-- The parameter `push` of `queue_wait_resource`.
pub data Side : Type 0 where
  push pop : Side

-- `queue_lock` and `queue_state_lock`, with what the mutex answers
unfoldable pub queue_lock : Err → Queue → Err
queue_lock lock q = if not q.has_lock then queue_err bad_state else lock

unfoldable pub queue_state_lock : Err → Queue → Err
queue_state_lock lock q = if not q.has_state_lock then queue_err bad_state else lock

-- `queue_operation_leave_locked`
unfoldable pub leave : Queue → Queue
leave q = if ltb 0 q.in_flight then record q { in_flight = q.in_flight - 1 } else q

unfoldable pub one_waiter_less : Side → Queue → Queue
one_waiter_less push q =
    if ltb 0 q.waiting_push then record q { waiting_push = q.waiting_push - 1 } else q
one_waiter_less pop q =
    if ltb 0 q.waiting_pop then record q { waiting_pop = q.waiting_pop - 1 } else q

-- The semaphore that a side waits on: it gets a token by a wait that succeeds, and gives it back by
-- a post.
abbrev pub tokens : Side → Queue → ℕ
tokens push q = q.empty_slots
tokens pop q = q.filled_slots

unfoldable pub took : Side → Queue → Queue
took push q = record q { empty_slots = q.empty_slots - 1 }
took pop q = record q { filled_slots = q.filled_slots - 1 }

unfoldable pub give_back : Side → Err → Queue → Queue
give_back push post q = if is_ok post then record q { empty_slots = q.empty_slots + 1 } else q
give_back pop post q = if is_ok post then record q { filled_slots = q.filled_slots + 1 } else q

abbrev pub one_waiter_more : Side → Queue → Queue
one_waiter_more push q = record q { waiting_push = (q.waiting_push + 1) % 2 ^ 64 }
one_waiter_more pop q = record q { waiting_pop = (q.waiting_pop + 1) % 2 ^ 64 }

-- The first section of `actrust_queue_push` and `actrust_queue_pop`
unfoldable pub enter : Side → Err → Queue → Err × Queue
enter side lock q =
    let err = queue_state_lock lock q in
    if not (is_ok err)
    then (err, q)
    else if not (is_open q.state)
    then (queue_err bad_state, q)
    else (actrust_ok, one_waiter_more side (record q { in_flight = (q.in_flight + 1) % 2 ^ 64 }))

abbrev pub is_bad_state : Err → Bool
is_bad_state err = err_module err == module_components_queue && err_code err == bad_state

abbrev pub is_would_block : Err → Bool
is_would_block err = err_module err == module_adapter_system && err_code err == would_block

-- What a wait that would block is reported as.
abbrev pub blocked : Side → ℕ
blocked push = queue_full
blocked pop = no_resource

-- The branch of `actrust_queue_push` and `actrust_queue_pop` behind a wait that returned an error.
unfoldable pub refused : Side → Err → Err → Queue → Err × Queue
refused side err lock q =
    if is_bad_state err
    then (err, q)
    else let lock_err = queue_state_lock lock q in
      if not (is_ok lock_err)
      then (lock_err, q)
      else (if is_would_block err then queue_err (blocked side) else err, leave q)

-- The results of the adapter calls behind the wait: the queue's lock, the state lock (`restate` where
-- the queue's lock has failed), the post that hands the other side a token, and the one that gives
-- the own token back.
pub record Turn : Type 0 where
  pub lock : Err
  pub restate : Err
  pub state : Err
  pub post : Err
  pub back : Err

-- The section in which a task whose `queue->lock` has failed is counted out. Its token is given back
-- behind that section.
unfoldable pub count_out : Err → Queue → Queue
count_out restate q = if is_ok (queue_state_lock restate q) then leave q else q

-- The rest of both functions up to the copy: an error, or the other side's token is posted. The branch
-- on which the queue's lock fails is two steps for the other tasks, `count_out` and then `give_back`;
-- each other branch is over when the state lock is unlocked, or its post is made without that lock.
unfoldable pub reserve : Side → Side → Turn → Queue → Err × Queue
reserve own other t q =
    let lock_err = queue_lock t.lock q in
    if not (is_ok lock_err)
    then (lock_err, give_back own t.back (count_out t.restate q))
    else let state_err = queue_state_lock t.state q in
      if not (is_ok state_err)
      then (state_err, give_back own t.back q)
      else if not (is_open q.state)
      then (queue_err bad_state, leave (give_back own t.back q))
      else if not (is_ok t.post)
      then (t.post, leave (give_back own t.back q))
      else (actrust_ok, give_back other t.post q)

-- The section of `actrust_queue_push` that publishes an item. The unlock of `queue->lock`, which
-- follows that of the state lock, changes nothing of the queue.
unfoldable pub push_locked : Turn → Bytes → Queue → Err × Queue
push_locked t item q =
    let (err, q') = reserve push pop t q in
    if not (is_ok err) then (err, q') else (
      actrust_ok,
      leave (record q' {
        buffer = set q'.buffer q'.tail item;
        tail = (q'.tail + 1) % q'.capacity;
        size = q'.size + 1;
      }),
    )

-- The section of `actrust_queue_pop` that takes an item, with the same unlock to come.
unfoldable pub pop_locked : Turn → Queue → Outcome Bytes × Queue
pop_locked t q =
    let (err, q') = reserve pop push t q in
    if not (is_ok err) then (fail err, q') else (
      done (get_or q'.buffer q'.head []),
      leave (record q' { head = (q'.head + 1) % q'.capacity; size = q'.size - 1 }),
    )
