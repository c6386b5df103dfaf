-- ===== src/Queue/Wait.antt =====
-- `queue_wait_resource` of queue.c.
use ant_chain_trust_sdk.Prelude.{
  ℕ, ◌+◌, ◌-◌, ◌%◌, ◌^◌, Bool, ◌&&◌, ◌||◌, not, Option, none, some, List, [], ◌∷◌, ltb, leb, ◌==◌,
  if◌then◌else◌,
}
use ant_chain_trust_sdk.Errno.{
  Err, err_make, err_code, is_ok, module_adapter_system, bad_state, timeout, would_block,
}
use ant_chain_trust_sdk.Queue.Sections.{
  Queue, Side, queue_err, queue_state_lock, is_open, leave, one_waiter_less, took, give_back,
}

-- `QUEUE_WAIT_SLICE_MS`
abbrev pub slice_ms : ℕ
slice_ms = 10

-- `UINT32_MAX`, a timeout without end
abbrev pub forever : ℕ
forever = 2 ^ 32 - 1

-- `queue_wait_slice`, with the clock's reading
unfoldable pub wait_slice : ℕ → ℕ → ℕ → ℕ
wait_slice timeout_ms deadline_ms now =
    if timeout_ms == forever
    then slice_ms
    else if leb deadline_ms now
    then 0
    else if ltb slice_ms (deadline_ms - now)
    then slice_ms
    else deadline_ms - now

-- The deadline of a wait that has one: `now + timeout_ms`, or UINT64_MAX where that overflows.
unfoldable pub deadline_at : ℕ → ℕ → ℕ
deadline_at timeout_ms now =
    let deadline = (now + timeout_ms) % 2 ^ 64 in if ltb deadline now then 2 ^ 64 - 1 else deadline

-- The branch with a timeout of 0, behind its `sem_wait`, which returned `err`.
unfoldable pub after_poll : Side → Err → Err → Err → Queue → Err × Queue
after_poll side err lock post q =
    let lock_err = queue_state_lock lock q in
    if not (is_ok lock_err)
    then (lock_err, if is_ok err then give_back side post q else q)
    else let q' = one_waiter_less side q in
      if not (is_open q'.state)
      then (queue_err bad_state, leave (if is_ok err then give_back side post q' else q'))
      else (err, q')

-- The branch for a deadline that has passed.
unfoldable pub after_deadline : Side → Err → Queue → Err × Queue
after_deadline side lock q =
    let lock_err = queue_state_lock lock q in
    if not (is_ok lock_err)
    then (lock_err, q)
    else (err_make module_adapter_system timeout, one_waiter_less side q)

abbrev pub goes_on : Err → Bool
goes_on err = not (is_ok err) && (err_code err == timeout || err_code err == would_block)

-- A round of the loop behind its `sem_wait`; `none` means another round.
unfoldable pub after_wait : Side → Err → Err → Queue → Option Err × Queue
after_wait side err lock q =
    let lock_err = queue_state_lock lock q in
    if not (is_ok lock_err)
    then (some lock_err, q)
    else if not (is_open q.state)
    then (some (queue_err bad_state), leave (one_waiter_less side q))
    else if goes_on err
    then (none, q)
    else (some err, one_waiter_less side q)

-- What a round meets: the clock's reading, and the results of the wait and of the state lock.
pub record Round : Type 0 where
  pub now : ℕ
  pub wait : Err
  pub lock : Err

abbrev pub waited : Side → Err → Queue → Queue
waited side err q = if is_ok err then took side q else q

-- The loop over the rounds to come; `none` means that it still waits behind them.
unfoldable pub wait_loop : Side → ℕ → ℕ → List Round → Queue → Option (Err × Queue)
wait_loop side timeout_ms deadline_ms [] q = none
wait_loop side timeout_ms deadline_ms (r ∷ rs) q =
    if not (timeout_ms == forever) && wait_slice timeout_ms deadline_ms r.now == 0
    then some (after_deadline side r.lock q)
    else let (o, q') = after_wait side r.wait r.lock (waited side r.wait q) in
      elim o [ none ↦ wait_loop side timeout_ms deadline_ms rs q' | some err ↦ some (err, q') ]

-- `queue_wait_resource`, with nothing else running: `start` is the clock's reading before the loop,
-- and a poll takes the results of the first round.
unfoldable pub wait_resource : Side → ℕ → ℕ → Err → List Round → Queue → Option (Err × Queue)
wait_resource side timeout_ms start back [] q = none
wait_resource side timeout_ms start back (r ∷ rs) q =
    if timeout_ms == 0
    then some (after_poll side r.wait r.lock back (waited side r.wait q))
    else wait_loop side timeout_ms
        (if timeout_ms == forever then 0 else deadline_at timeout_ms start) (r ∷ rs) q
