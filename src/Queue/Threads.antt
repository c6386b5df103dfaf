-- ===== src/Queue/Threads.antt =====
-- Tasks that push, tasks that pop and one that closes, on one queue, interleaved at the points where
-- the state lock is not held. Every adapter call may fail. What a task does behind the section that
-- counts it out is a step of its own: to give a token back, or to unlock the queue's lock.
use ant_chain_trust_sdk.Prelude.{ℕ, ◌+◌, ◌-◌, ◌^◌, ◌<◌, ◌≤◌, ◌≡◌, ◌≢◌, some, if◌then◌else◌, arith}
use ant_chain_trust_sdk.Errno.{Err, actrust_ok, is_ok, err_make, err_module, err_code}
use ant_chain_trust_sdk.Queue.Sections.{
  Bytes, Queue, Side, push, pop, queue_err, queue_lock, queue_state_lock, leave, one_waiter_less,
  tokens, took, give_back, enter, is_bad_state, refused, Turn, count_out, reserve, push_locked,
  pop_locked,
}
use ant_chain_trust_sdk.Queue.Wait.{after_poll, after_deadline, after_wait}
use ant_chain_trust_sdk.Queue.Close.{close_begin}

-- The tasks of one side: inside the wait, behind a wait that took a token, with a token and on the
-- way to the last section, with an error on the way to `refused`, and counted out with a token that is
-- still to be given back.
pub record Crew : Type 0 where
  pub waiting : ℕ
  pub holders : ℕ
  pub turns : ℕ
  pub leaving : ℕ
  pub owing : ℕ

-- `unlocking` is the number of tasks that have been counted out and still hold the queue's lock.
pub record Tasks : Type 0 where
  pub q : Queue
  pub unlocking : ℕ
  pub pushers : Crew
  pub poppers : Crew

abbrev pub crew : Side → Tasks → Crew
crew push s = s.pushers
crew pop s = s.poppers

-- The count of waiters that the queue keeps for a side.
abbrev pub waiters : Side → Queue → ℕ
waiters push q = q.waiting_push
waiters pop q = q.waiting_pop

abbrev pub moved : Side → Queue → Crew → Tasks → Tasks
moved push q c s = record s { q = q; pushers = c }
moved pop q c s = record s { q = q; poppers = c }

-- Where a task goes on with the result of its wait: to its last section, out of the call, or to
-- `refused`.
unfoldable pub onward : Err → Crew → Crew
onward e c =
    if is_ok e
    then record c { turns = c.turns + 1 }
    else if is_bad_state e
    then c
    else record c { leaving = c.leaving + 1 }

abbrev pub one_waiting_less : Crew → Crew
one_waiting_less c = record c { waiting = c.waiting - 1 }

abbrev pub one_holder_less : Crew → Crew
one_holder_less c = record c { holders = c.holders - 1 }

-- A task behind its last section: it holds the queue's lock.
abbrev pub published : Turn → Bytes → Tasks → Tasks
published t item s = record s {
  q = (push_locked t item s.q).1;
  unlocking = s.unlocking + 1;
  pushers = record s.pushers { turns = s.pushers.turns - 1 };
}

abbrev pub collected : Turn → Tasks → Tasks
collected t s = record s {
  q = (pop_locked t s.q).1;
  unlocking = s.unlocking + 1;
  poppers = record s.poppers { turns = s.poppers.turns - 1 };
}

abbrev pub counted_out : Side → Err → Tasks → Tasks
counted_out side restate s =
    moved side (count_out restate s.q)
      (record (crew side s) { turns = (crew side s).turns - 1; owing = (crew side s).owing + 1 }) s

abbrev pub handed_back : Side → Err → Tasks → Tasks
handed_back side post s =
    moved side (give_back side post s.q) (record (crew side s) { owing = (crew side s).owing - 1 })
      s

pub data Step : Tasks → Tasks → Type 0 where
  come :
      (s : Tasks) (side : Side) (lock : Err)
      → s.q.in_flight + 1 < 2 ^ 64
      → waiters side s.q + 1 < 2 ^ 64
      → (enter side lock s.q).0 ≡ actrust_ok
      → Step s (
          moved side
            (enter side lock s.q).1
            (record (crew side s) { waiting = (crew side s).waiting + 1 })
            s)
  -- A wait takes a token.
  take :
      (s : Tasks) (side : Side)
      → 0 < (crew side s).waiting
      → 0 < tokens side s.q
      → Step s (
          moved side
            (took side s.q)
            (record (crew side s) {
              waiting = (crew side s).waiting - 1;
              holders = (crew side s).holders + 1;
            })
            s)
  -- The section behind a wait that took a token, in the loop and for a timeout of 0.
  check :
      (s : Tasks) (side : Side) (lock e : Err)
      → 0 < (crew side s).holders
      → (after_wait side actrust_ok lock s.q).0 ≡ some e
      → Step s (
          moved side
            (after_wait side actrust_ok lock s.q).1
            (onward e (one_holder_less (crew side s)))
            s)
  check_poll :
      (s : Tasks) (side : Side) (lock post : Err)
      → 0 < (crew side s).holders
      → Step s (
          moved side
            (after_poll side actrust_ok lock post s.q).1
            (onward (after_poll side actrust_ok lock post s.q).0 (one_holder_less (crew side s)))
            s)
  -- The section behind a wait that failed; where the loop goes on nothing changes.
  miss :
      (s : Tasks) (side : Side) (err lock e : Err)
      → err ≢ actrust_ok
      → 0 < (crew side s).waiting
      → (after_wait side err lock s.q).0 ≡ some e
      → Step s (
          moved side (after_wait side err lock s.q).1 (onward e (one_waiting_less (crew side s))) s)
  miss_poll :
      (s : Tasks) (side : Side) (err lock post : Err)
      → err ≢ actrust_ok
      → 0 < (crew side s).waiting
      → Step s (
          moved side
            (after_poll side err lock post s.q).1
            (onward (after_poll side err lock post s.q).0 (one_waiting_less (crew side s)))
            s)
  expire :
      (s : Tasks) (side : Side) (lock : Err)
      → 0 < (crew side s).waiting
      → Step s (
          moved side
            (after_deadline side lock s.q).1
            (onward (after_deadline side lock s.q).0 (one_waiting_less (crew side s)))
            s)
  refuse :
      (s : Tasks) (side : Side) (err lock : Err)
      → 0 < (crew side s).leaving
      → Step s (
          moved side
            (refused side err lock s.q).1
            (record (crew side s) { leaving = (crew side s).leaving - 1 })
            s)
  -- The last section of a push and of a pop, from the queue's lock to the unlock of the state lock.
  publish :
      (s : Tasks) (t : Turn) (item : Bytes)
      → 0 < s.pushers.turns
      → s.unlocking ≡ 0
      → queue_lock t.lock s.q ≡ actrust_ok
      → Step s (published t item s)
  collect :
      (s : Tasks) (t : Turn)
      → 0 < s.poppers.turns
      → s.unlocking ≡ 0
      → queue_lock t.lock s.q ≡ actrust_ok
      → Step s (collected t s)
  unlock : (s : Tasks) → 0 < s.unlocking → Step s (record s { unlocking = s.unlocking - 1 })
  -- The branch on which the queue's lock fails, and the post that ends it.
  fail_lock :
      (s : Tasks) (side : Side) (lock restate : Err)
      → 0 < (crew side s).turns
      → queue_lock lock s.q ≢ actrust_ok
      → Step s (counted_out side restate s)
  hand_back :
      (s : Tasks) (side : Side) (post : Err)
      → 0 < (crew side s).owing
      → Step s (handed_back side post s)
  shut : (s : Tasks) (lock : Err) → Step s (record s { q = (close_begin lock s.q).1 })

pub data Reach (s : Tasks) : Tasks → Type 0 where
  here : Reach s s
  next : {t u : Tasks} → Reach s t → Step t u → Reach s u

abbrev pub in_crew : Crew → ℕ
in_crew c = c.waiting + c.holders + c.turns + c.leaving

-- What every interleaving keeps: tokens and tasks that hold one fit what is free and what is stored,
-- and each task inside is counted.
pub record IsFair (s : Tasks) : Type 0 where
  pub free :
      s.q.empty_slots + s.pushers.holders + s.pushers.turns + s.pushers.owing + s.q.size
      ≤ s.q.capacity
  pub held : s.q.filled_slots + s.poppers.holders + s.poppers.turns + s.poppers.owing ≤ s.q.size
  pub counted : in_crew s.pushers + in_crew s.poppers ≤ s.q.in_flight

come-IsFair :
    (s : Tasks) (side : Side) (lock : Err)
    → IsFair s
    → s.q.in_flight + 1 < 2 ^ 64
    → (enter side lock s.q).0 ≡ actrust_ok
    → IsFair (
        moved side
          (enter side lock s.q).1
          (record (crew side s) { waiting = (crew side s).waiting + 1 })
          s)
unfolding enter err_make err_code err_module queue_err queue_state_lock
come-IsFair s push lock v few e = ground arith
come-IsFair s pop lock v few e = ground arith

take-IsFair :
    (s : Tasks) (side : Side)
    → IsFair s
    → 0 < (crew side s).waiting
    → 0 < tokens side s.q
    → IsFair (
        moved side
          (took side s.q)
          (record (crew side s) {
            waiting = (crew side s).waiting - 1;
            holders = (crew side s).holders + 1;
          })
          s)
unfolding took
take-IsFair s push v w t = ground arith
take-IsFair s pop v w t = ground arith

check-IsFair :
    (s : Tasks) (side : Side) (lock e : Err)
    → IsFair s
    → 0 < (crew side s).holders
    → (after_wait side actrust_ok lock s.q).0 ≡ some e
    → IsFair (
        moved side
          (after_wait side actrust_ok lock s.q).1
          (onward e (one_holder_less (crew side s)))
          s)
unfolding after_wait onward leave one_waiter_less err_make err_code err_module queue_err
    queue_state_lock
check-IsFair s push lock e v h o = ground arith
check-IsFair s pop lock e v h o = ground arith

check_poll-IsFair :
    (s : Tasks) (side : Side) (lock post : Err)
    → IsFair s
    → 0 < (crew side s).holders
    → IsFair (
        moved side
          (after_poll side actrust_ok lock post s.q).1
          (onward (after_poll side actrust_ok lock post s.q).0 (one_holder_less (crew side s)))
          s)
unfolding after_poll onward leave one_waiter_less give_back err_make err_code err_module queue_err
    queue_state_lock
check_poll-IsFair s push lock post v h = ground arith
check_poll-IsFair s pop lock post v h = ground arith

miss-IsFair :
    (s : Tasks) (side : Side) (err lock e : Err)
    → IsFair s
    → err ≢ actrust_ok
    → 0 < (crew side s).waiting
    → (after_wait side err lock s.q).0 ≡ some e
    → IsFair
        (moved side (after_wait side err lock s.q).1 (onward e (one_waiting_less (crew side s))) s)
unfolding after_wait onward leave one_waiter_less err_make err_code err_module queue_err
    queue_state_lock
miss-IsFair s push err lock e v n w o = ground arith
miss-IsFair s pop err lock e v n w o = ground arith

miss_poll-IsFair :
    (s : Tasks) (side : Side) (err lock post : Err)
    → IsFair s
    → err ≢ actrust_ok
    → 0 < (crew side s).waiting
    → IsFair (
        moved side
          (after_poll side err lock post s.q).1
          (onward (after_poll side err lock post s.q).0 (one_waiting_less (crew side s)))
          s)
unfolding after_poll onward leave one_waiter_less give_back err_make err_code err_module queue_err
    queue_state_lock
miss_poll-IsFair s push err lock post v n w = ground arith
miss_poll-IsFair s pop err lock post v n w = ground arith

expire-IsFair :
    (s : Tasks) (side : Side) (lock : Err)
    → IsFair s
    → 0 < (crew side s).waiting
    → IsFair (
        moved side
          (after_deadline side lock s.q).1
          (onward (after_deadline side lock s.q).0 (one_waiting_less (crew side s)))
          s)
unfolding after_deadline onward one_waiter_less err_make err_code err_module queue_err
    queue_state_lock
expire-IsFair s push lock v w = ground arith
expire-IsFair s pop lock v w = ground arith

refuse-IsFair :
    (s : Tasks) (side : Side) (err lock : Err)
    → IsFair s
    → 0 < (crew side s).leaving
    → IsFair (
        moved side
          (refused side err lock s.q).1
          (record (crew side s) { leaving = (crew side s).leaving - 1 })
          s)
unfolding refused leave err_make err_code err_module queue_err queue_state_lock
refuse-IsFair s push err lock v l = ground arith
refuse-IsFair s pop err lock v l = ground arith

publish-IsFair :
    (s : Tasks) (t : Turn) (item : Bytes)
    → IsFair s
    → 0 < s.pushers.turns
    → queue_lock t.lock s.q ≡ actrust_ok
    → IsFair (published t item s)
unfolding push_locked reserve leave give_back count_out err_make err_code err_module queue_err
    queue_state_lock
publish-IsFair s t item v w locked = ground arith

collect-IsFair :
    (s : Tasks) (t : Turn)
    → IsFair s
    → 0 < s.poppers.turns
    → queue_lock t.lock s.q ≡ actrust_ok
    → IsFair (collected t s)
unfolding pop_locked reserve leave give_back count_out err_make err_code err_module queue_err
    queue_state_lock
collect-IsFair s t v w locked = ground arith

fail_lock-IsFair :
    (s : Tasks) (side : Side) (restate : Err)
    → IsFair s
    → 0 < (crew side s).turns
    → IsFair (counted_out side restate s)
unfolding count_out leave err_make err_code err_module queue_err queue_state_lock
fail_lock-IsFair s push restate v w = ground arith
fail_lock-IsFair s pop restate v w = ground arith

hand_back-IsFair :
    (s : Tasks) (side : Side) (post : Err)
    → IsFair s
    → 0 < (crew side s).owing
    → IsFair (handed_back side post s)
unfolding give_back
hand_back-IsFair s push post v w = ground arith
hand_back-IsFair s pop post v w = ground arith

shut-IsFair :
    (s : Tasks) (lock : Err) → IsFair s → IsFair (record s { q = (close_begin lock s.q).1 })
unfolding close_begin
shut-IsFair s lock v = ground arith

-- Every step keeps the invariant.
pub Step-IsFair : {s t : Tasks} → Step s t → IsFair s → IsFair t
Step-IsFair (come s side lock few w e) v = come-IsFair s side lock v few e
Step-IsFair (take s side w t) v = take-IsFair s side v w t
Step-IsFair (check s side lock e h o) v = check-IsFair s side lock e v h o
Step-IsFair (check_poll s side lock post h) v = check_poll-IsFair s side lock post v h
Step-IsFair (miss s side err lock e n w o) v = miss-IsFair s side err lock e v n w o
Step-IsFair (miss_poll s side err lock post n w) v = miss_poll-IsFair s side err lock post v n w
Step-IsFair (expire s side lock w) v = expire-IsFair s side lock v w
Step-IsFair (refuse s side err lock l) v = refuse-IsFair s side err lock v l
Step-IsFair (publish s t item w free locked) v = publish-IsFair s t item v w locked
Step-IsFair (collect s t w free locked) v = collect-IsFair s t v w locked
Step-IsFair (unlock s w) v = record { free = v.free; held = v.held; counted = v.counted }
Step-IsFair (fail_lock s side lock restate w bad) v = fail_lock-IsFair s side restate v w
Step-IsFair (hand_back s side post w) v = hand_back-IsFair s side post v w
Step-IsFair (shut s lock) v = shut-IsFair s lock v
