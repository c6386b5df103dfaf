-- ===== src/Queue/Calls.antt =====
-- The calls of queue.c, each whole, with nothing else running. A null pointer is `none`.
use ant_chain_trust_sdk.Prelude.{
  ℕ, ◌-◌, ◌/◌, ◌^◌, Bool, true, ◌||◌, not, Option, none, some, List, ltb, ◌==◌, if◌then◌else◌,
}
use ant_chain_trust_sdk.Errno.{Err, Outcome, fail, done, is_ok, invalid_arg, bad_state, no_mem}
use ant_chain_trust_sdk.Queue.Sections.{
  Bytes, Queue, open_queue, is_open, push, pop, queue_err, queue_state_lock, enter, refused, Turn,
  push_locked, pop_locked,
}
use ant_chain_trust_sdk.Queue.Wait.{Round, wait_resource}

-- `actrust_queue_create`: `block` is what `malloc` gives for the buffer if it gives one, and the
-- other arguments are the results of creating the two mutexes and the two semaphores.
unfoldable pub queue_create :
    Bool → Option (List Bytes) → Err → Err → Err → Err → ℕ → ℕ → Outcome Queue
queue_create has_struct block lock state_lock empty filled capacity item_size =
    if capacity == 0 || item_size == 0
    then fail (queue_err invalid_arg)
    else if ltb (2 ^ 32 - 1) capacity || ltb ((2 ^ 64 - 1) / item_size) capacity
    then fail (queue_err invalid_arg)
    else if not has_struct
    then fail (queue_err no_mem)
    else elim block [
      | none ↦ fail (queue_err no_mem)
      | some slots ↦
          if not (is_ok lock)
          then fail lock
          else if not (is_ok state_lock)
          then fail state_lock
          else if not (is_ok empty)
          then fail empty
          else if not (is_ok filled)
          then fail filled
          else done (record {
            buffer = slots;
            capacity = capacity;
            head = 0;
            tail = 0;
            size = 0;
            has_lock = true;
            has_state_lock = true;
            has_empty = true;
            has_filled = true;
            empty_slots = capacity;
            filled_slots = 0;
            state = open_queue;
            in_flight = 0;
            waiting_push = 0;
            waiting_pop = 0;
          })
    ]

-- What a call meets: the first state lock, the clock before the wait, the post that gives a token
-- back, the rounds of the wait, the state lock of the branch for a failed wait, and the last turn.
pub record Meets : Type 0 where
  pub first : Err
  pub start : ℕ
  pub back : Err
  pub rounds : List Round
  pub again : Err
  pub turn : Turn

-- `actrust_queue_push`; `none` means that the call still waits behind the rounds given.
unfoldable pub queue_push : Meets → Option Bytes → ℕ → Queue → Option (Err × Queue)
queue_push m none timeout_ms q = some (queue_err invalid_arg, q)
queue_push m (some item) timeout_ms q =
    let (err, q') = enter push m.first q in
    if not (is_ok err)
    then some (err, q')
    else elim (wait_resource push timeout_ms m.start m.back m.rounds q') [
      | none ↦ none
      | some (err', q'') ↦
          some (
            if not (is_ok err') then refused push err' m.again q'' else push_locked m.turn item q'')
    ]

-- `actrust_queue_pop`
unfoldable pub queue_pop : Meets → Bool → ℕ → Queue → Option (Outcome Bytes × Queue)
queue_pop m has_out timeout_ms q =
    if not has_out
    then some (fail (queue_err invalid_arg), q)
    else let (err, q') = enter pop m.first q in
      if not (is_ok err)
      then some (fail err, q')
      else elim (wait_resource pop timeout_ms m.start m.back m.rounds q') [
        | none ↦ none
        | some (err', q'') ↦ some (
            if not (is_ok err')
            then (fail (refused pop err' m.again q'').0, (refused pop err' m.again q'').1)
            else pop_locked m.turn q'')
      ]

-- `actrust_queue_size`: the count of operations is raised and lowered under one lock.
unfoldable pub queue_size : Err → Err → Bool → Queue → Err × Option ℕ
queue_size lock unlock has_out q =
    if not has_out
    then (queue_err invalid_arg, none)
    else let err = queue_state_lock lock q in
      if not (is_ok err)
      then (err, none)
      else if not (is_open q.state)
      then (queue_err bad_state, none)
      else (unlock, some q.size)
