-- ===== src/Queue/Leaks.antt =====
-- A push whose state lock fails behind its wait is counted as a waiter for ever.
use ant_chain_trust_sdk.Prelude.{◌+◌, ◌-◌, ◌^◌, ◌<◌, ◌≡◌, ◌≢◌, true, false, some, arith}
use ant_chain_trust_sdk.Errno.{Err, actrust_ok, err_make, err_module, err_code}
use ant_chain_trust_sdk.Queue.Sections.{
  Bytes, Side, push, pop, queue_err, queue_lock, queue_state_lock, leave, one_waiter_less, took,
  give_back, enter, refused, Turn, count_out, reserve, push_locked, pop_locked,
}
use ant_chain_trust_sdk.Queue.Wait.{after_poll, after_deadline, after_wait}
use ant_chain_trust_sdk.Queue.Close.{close_begin, quiescent}
use ant_chain_trust_sdk.Queue.Threads.{
  Tasks, crew, waiters, moved, onward, one_waiting_less, one_holder_less, Step, come, take, check,
  check_poll, miss, miss_poll, expire, refuse, publish, collect, unlock, fail_lock, hand_back,
  published, collected, counted_out, handed_back, shut, Reach, here, next,
}

-- The queue counts more waiting pushes than there are.
abbrev pub Leaks : Tasks → Type 0
Leaks s = s.pushers.waiting + s.pushers.holders < s.q.waiting_push

come-Leaks :
    (s : Tasks) (side : Side) (lock : Err)
    → Leaks s
    → waiters side s.q + 1 < 2 ^ 64
    → (enter side lock s.q).0 ≡ actrust_ok
    → Leaks (
        moved side
          (enter side lock s.q).1
          (record (crew side s) { waiting = (crew side s).waiting + 1 })
          s)
unfolding enter err_make err_code err_module queue_err queue_state_lock
come-Leaks s push lock v few e = ground arith
come-Leaks s pop lock v few e = ground arith

take-Leaks :
    (s : Tasks) (side : Side)
    → Leaks s
    → 0 < (crew side s).waiting
    → Leaks (
        moved side
          (took side s.q)
          (record (crew side s) {
            waiting = (crew side s).waiting - 1;
            holders = (crew side s).holders + 1;
          })
          s)
unfolding took
take-Leaks s push v w = ground arith
take-Leaks s pop v w = ground arith

check-Leaks :
    (s : Tasks) (side : Side) (lock e : Err)
    → Leaks s
    → 0 < (crew side s).holders
    → (after_wait side actrust_ok lock s.q).0 ≡ some e
    → Leaks (
        moved side
          (after_wait side actrust_ok lock s.q).1
          (onward e (one_holder_less (crew side s)))
          s)
unfolding after_wait onward leave one_waiter_less err_make err_code err_module queue_err
    queue_state_lock
check-Leaks s push lock e v h o = ground arith
check-Leaks s pop lock e v h o = ground arith

check_poll-Leaks :
    (s : Tasks) (side : Side) (lock post : Err)
    → Leaks s
    → 0 < (crew side s).holders
    → Leaks (
        moved side
          (after_poll side actrust_ok lock post s.q).1
          (onward (after_poll side actrust_ok lock post s.q).0 (one_holder_less (crew side s)))
          s)
unfolding after_poll onward leave one_waiter_less give_back err_make err_code err_module queue_err
    queue_state_lock
check_poll-Leaks s push lock post v h = ground arith
check_poll-Leaks s pop lock post v h = ground arith

miss-Leaks :
    (s : Tasks) (side : Side) (err lock e : Err)
    → Leaks s
    → 0 < (crew side s).waiting
    → (after_wait side err lock s.q).0 ≡ some e
    → Leaks
        (moved side (after_wait side err lock s.q).1 (onward e (one_waiting_less (crew side s))) s)
unfolding after_wait onward leave one_waiter_less err_make err_code err_module queue_err
    queue_state_lock
miss-Leaks s push err lock e v w o = ground arith
miss-Leaks s pop err lock e v w o = ground arith

miss_poll-Leaks :
    (s : Tasks) (side : Side) (err lock post : Err)
    → Leaks s
    → 0 < (crew side s).waiting
    → Leaks (
        moved side
          (after_poll side err lock post s.q).1
          (onward (after_poll side err lock post s.q).0 (one_waiting_less (crew side s)))
          s)
unfolding after_poll onward leave one_waiter_less give_back err_make err_code err_module queue_err
    queue_state_lock
miss_poll-Leaks s push err lock post v w = ground arith
miss_poll-Leaks s pop err lock post v w = ground arith

expire-Leaks :
    (s : Tasks) (side : Side) (lock : Err)
    → Leaks s
    → 0 < (crew side s).waiting
    → Leaks (
        moved side
          (after_deadline side lock s.q).1
          (onward (after_deadline side lock s.q).0 (one_waiting_less (crew side s)))
          s)
unfolding after_deadline onward one_waiter_less err_make err_code err_module queue_err
    queue_state_lock
expire-Leaks s push lock v w = ground arith
expire-Leaks s pop lock v w = ground arith

refuse-Leaks :
    (s : Tasks) (side : Side) (err lock : Err)
    → Leaks s
    → Leaks (
        moved side
          (refused side err lock s.q).1
          (record (crew side s) { leaving = (crew side s).leaving - 1 })
          s)
unfolding refused leave err_make err_code err_module queue_err queue_state_lock
refuse-Leaks s push err lock v = ground arith
refuse-Leaks s pop err lock v = ground arith

publish-Leaks :
    (s : Tasks) (t : Turn) (item : Bytes)
    → Leaks s
    → queue_lock t.lock s.q ≡ actrust_ok
    → Leaks (published t item s)
unfolding push_locked reserve leave give_back count_out err_make err_code err_module queue_err
    queue_state_lock
publish-Leaks s t item v locked = ground arith

collect-Leaks :
    (s : Tasks) (t : Turn) → Leaks s → queue_lock t.lock s.q ≡ actrust_ok → Leaks (collected t s)
unfolding pop_locked reserve leave give_back count_out err_make err_code err_module queue_err
    queue_state_lock
collect-Leaks s t v locked = ground arith

fail_lock-Leaks :
    (s : Tasks) (side : Side) (restate : Err) → Leaks s → Leaks (counted_out side restate s)
unfolding count_out leave err_make err_code err_module queue_err queue_state_lock
fail_lock-Leaks s push restate v = ground arith
fail_lock-Leaks s pop restate v = ground arith

hand_back-Leaks : (s : Tasks) (side : Side) (post : Err) → Leaks s → Leaks (handed_back side post s)
unfolding give_back
hand_back-Leaks s push post v = ground arith
hand_back-Leaks s pop post v = ground arith

shut-Leaks : (s : Tasks) (lock : Err) → Leaks s → Leaks (record s { q = (close_begin lock s.q).1 })
unfolding close_begin err_make err_code err_module queue_err queue_state_lock
shut-Leaks s lock v = ground arith

Step-Leaks : {s t : Tasks} → Step s t → Leaks s → Leaks t
Step-Leaks (come s side lock few w e) v = come-Leaks s side lock v w e
Step-Leaks (take s side w t) v = take-Leaks s side v w
Step-Leaks (check s side lock e h o) v = check-Leaks s side lock e v h o
Step-Leaks (check_poll s side lock post h) v = check_poll-Leaks s side lock post v h
Step-Leaks (miss s side err lock e n w o) v = miss-Leaks s side err lock e v w o
Step-Leaks (miss_poll s side err lock post n w) v = miss_poll-Leaks s side err lock post v w
Step-Leaks (expire s side lock w) v = expire-Leaks s side lock v w
Step-Leaks (refuse s side err lock l) v = refuse-Leaks s side err lock v
Step-Leaks (publish s t item w free locked) v = publish-Leaks s t item v locked
Step-Leaks (collect s t w free locked) v = collect-Leaks s t v locked
Step-Leaks (unlock s w) v = v
Step-Leaks (fail_lock s side lock restate w bad) v = fail_lock-Leaks s side restate v
Step-Leaks (hand_back s side post w) v = hand_back-Leaks s side post v
Step-Leaks (shut s lock) v = shut-Leaks s lock v

Reach-Leaks : {s t : Tasks} → Leaks s → Reach s t → Leaks t
Reach-Leaks v here = v
Reach-Leaks v (next r st) = Step-Leaks st (Reach-Leaks v r)

-- The state in which the state lock of a push that holds a token has failed.
abbrev pub unlucky : Err → Tasks → Tasks
unlucky lock s =
    moved push (after_wait push actrust_ok lock s.q).1 (onward lock (one_holder_less s.pushers)) s

unlucky-Leaks :
    (s : Tasks) (lock : Err)
    → s.q.has_state_lock ≡ true
    → lock ≢ actrust_ok
    → s.q.waiting_push ≡ s.pushers.waiting + s.pushers.holders
    → 0 < s.pushers.holders
    → Leaks (unlucky lock s)
unfolding after_wait onward queue_state_lock
unlucky-Leaks s lock has bad counts some_held = ground arith

-- When the state lock of a push fails behind a wait that took a token, the queue is never quiescent
-- again, whatever its tasks do, so that a close polls for ever.
pub unlucky_push_blocks_close :
    (s t : Tasks) (lock : Err)
    → s.q.has_state_lock ≡ true
    → lock ≢ actrust_ok
    → s.q.waiting_push ≡ s.pushers.waiting + s.pushers.holders
    → 0 < s.pushers.holders
    → Reach (unlucky lock s) t
    → quiescent t.q ≡ false
unlucky_push_blocks_close s t lock has bad counts some_held r =
    let leaks = Reach-Leaks (unlucky-Leaks s lock has bad counts some_held) r in ground arith
