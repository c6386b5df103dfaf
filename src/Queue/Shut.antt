-- ===== src/Queue/Shut.antt =====
-- A queue that is being closed: it lets no task in, and once it is quiescent none is inside.
use ant_chain_trust_sdk.Prelude.{
  ℕ, ◌<◌, ◌≡◌, ◌≢◌, refl, true, false, Option, none, some, List, [], ◌∷◌, ◌∙◌, ap, arith,
}
use ant_chain_trust_sdk.Errno.{Err, done, actrust_ok, err_make}
use ant_chain_trust_sdk.Queue.Sections.{
  Bytes, Queue, is_open, Side, push, pop, queue_err, queue_lock, queue_state_lock, leave,
  one_waiter_less, took, give_back, enter, refused, Turn, count_out, reserve, push_locked,
  pop_locked,
}
use ant_chain_trust_sdk.Queue.Wait.{after_poll, after_deadline, after_wait}
use ant_chain_trust_sdk.Queue.Close.{close_begin, quiescent, wait_quiescent}
use ant_chain_trust_sdk.Queue.Threads.{
  Tasks, Step, come, take, check, check_poll, miss, miss_poll, expire, refuse, publish, collect,
  unlock, fail_lock, hand_back, shut, counted_out, Reach, here, next, in_crew, Step-IsFair,
}
use ant_chain_trust_sdk.Queue.Quiet.{alone, created, created-IsFair, Reach-IsFair}

close_begin-shut :
    (lock : Err) (q : Queue)
    → is_open q.state ≡ false
    → is_open (close_begin lock q).1.state ≡ false
unfolding close_begin
close_begin-shut lock q h = ground arith

-- A close that goes on to wait has marked the queue.
close_begin-closes :
    (lock : Err) (q : Queue)
    → (close_begin lock q).0 ≡ none
    → is_open (close_begin lock q).1.state ≡ false
unfolding close_begin
close_begin-closes lock q h = ground arith

enter-shut :
    (side : Side) (lock : Err) (q : Queue)
    → is_open q.state ≡ false
    → (enter side lock q).0 ≢ actrust_ok
unfolding enter queue_err err_make
enter-shut side lock q h e = ground arith

-- The other sections leave the state alone.
took-state : (side : Side) (q : Queue) → (took side q).state ≡ q.state
unfolding took
took-state push q = refl
took-state pop q = refl

give_back-state : (side : Side) (post : Err) (q : Queue) → (give_back side post q).state ≡ q.state
unfolding give_back
give_back-state push post q = ground arith
give_back-state pop post q = ground arith

after_wait-state :
    (side : Side) (err lock : Err) (q : Queue) → (after_wait side err lock q).1.state ≡ q.state
unfolding after_wait leave one_waiter_less
after_wait-state push err lock q = ground arith
after_wait-state pop err lock q = ground arith

after_poll-state :
    (side : Side) (err lock post : Err) (q : Queue)
    → (after_poll side err lock post q).1.state ≡ q.state
unfolding after_poll leave one_waiter_less give_back
after_poll-state push err lock post q = ground arith
after_poll-state pop err lock post q = ground arith

after_deadline-state :
    (side : Side) (lock : Err) (q : Queue) → (after_deadline side lock q).1.state ≡ q.state
unfolding after_deadline one_waiter_less
after_deadline-state push lock q = ground arith
after_deadline-state pop lock q = ground arith

refused-state :
    (side : Side) (err lock : Err) (q : Queue) → (refused side err lock q).1.state ≡ q.state
unfolding refused leave
refused-state push err lock q = ground arith
refused-state pop err lock q = ground arith

count_out-state : (restate : Err) (q : Queue) → (count_out restate q).state ≡ q.state
unfolding count_out leave
count_out-state restate q = ground arith

push_locked-state :
    (t : Turn) (item : Bytes) (q : Queue)
    → queue_lock t.lock q ≡ actrust_ok
    → (push_locked t item q).1.state ≡ q.state
unfolding push_locked reserve leave give_back
push_locked-state t item q locked = ground arith

pop_locked-state :
    (t : Turn) (q : Queue) → queue_lock t.lock q ≡ actrust_ok → (pop_locked t q).1.state ≡ q.state
unfolding pop_locked reserve leave give_back
pop_locked-state t q locked = ground arith

-- The queue is not open.
abbrev IsShut : Tasks → Type 0
IsShut s = is_open s.q.state ≡ false

Step-IsShut : {s t : Tasks} → Step s t → IsShut s → IsShut t
Step-IsShut (come s side lock few w e) v = absurd (enter-shut side lock s.q v e)
Step-IsShut (take s push w t) v = ap is_open (took-state push s.q) ∙ v
Step-IsShut (take s pop w t) v = ap is_open (took-state pop s.q) ∙ v
Step-IsShut (check s push lock e h o) v = ap is_open (after_wait-state push actrust_ok lock s.q) ∙ v
Step-IsShut (check s pop lock e h o) v = ap is_open (after_wait-state pop actrust_ok lock s.q) ∙ v
Step-IsShut (check_poll s push lock post h) v =
    ap is_open (after_poll-state push actrust_ok lock post s.q) ∙ v
Step-IsShut (check_poll s pop lock post h) v =
    ap is_open (after_poll-state pop actrust_ok lock post s.q) ∙ v
Step-IsShut (miss s push err lock e n w o) v = ap is_open (after_wait-state push err lock s.q) ∙ v
Step-IsShut (miss s pop err lock e n w o) v = ap is_open (after_wait-state pop err lock s.q) ∙ v
Step-IsShut (miss_poll s push err lock post n w) v =
    ap is_open (after_poll-state push err lock post s.q) ∙ v
Step-IsShut (miss_poll s pop err lock post n w) v =
    ap is_open (after_poll-state pop err lock post s.q) ∙ v
Step-IsShut (expire s push lock w) v = ap is_open (after_deadline-state push lock s.q) ∙ v
Step-IsShut (expire s pop lock w) v = ap is_open (after_deadline-state pop lock s.q) ∙ v
Step-IsShut (refuse s push err lock l) v = ap is_open (refused-state push err lock s.q) ∙ v
Step-IsShut (refuse s pop err lock l) v = ap is_open (refused-state pop err lock s.q) ∙ v
Step-IsShut (publish s t item w free locked) v =
    ap is_open (push_locked-state t item s.q locked) ∙ v
Step-IsShut (collect s t w free locked) v = ap is_open (pop_locked-state t s.q locked) ∙ v
Step-IsShut (unlock s w) v = v
Step-IsShut (fail_lock s push lock restate w bad) v = ap is_open (count_out-state restate s.q) ∙ v
Step-IsShut (fail_lock s pop lock restate w bad) v = ap is_open (count_out-state restate s.q) ∙ v
Step-IsShut (hand_back s push post w) v = ap is_open (give_back-state push post s.q) ∙ v
Step-IsShut (hand_back s pop post w) v = ap is_open (give_back-state pop post s.q) ∙ v
Step-IsShut (shut s lock) v = close_begin-shut lock s.q v

Reach-IsShut : {s t : Tasks} → IsShut s → Reach s t → IsShut t
Reach-IsShut v here = v
Reach-IsShut v (next r st) = Step-IsShut st (Reach-IsShut v r)

-- A queue that no task is inside of.
record IsLeft (s : Tasks) : Type 0 where
  nobody_pushes : in_crew s.pushers ≡ 0
  nobody_pops : in_crew s.poppers ≡ 0

Step-IsLeft : {s t : Tasks} → Step s t → IsShut s → IsLeft s → IsLeft t
Step-IsLeft (come s side lock few w e) c v = absurd (enter-shut side lock s.q c e)
Step-IsLeft (take s push w t) c v = absurd (omega (arith, v.nobody_pushes))
Step-IsLeft (take s pop w t) c v = absurd (omega (arith, v.nobody_pops))
Step-IsLeft (check s push lock e h o) c v = absurd (omega (arith, v.nobody_pushes))
Step-IsLeft (check s pop lock e h o) c v = absurd (omega (arith, v.nobody_pops))
Step-IsLeft (check_poll s push lock post h) c v = absurd (omega (arith, v.nobody_pushes))
Step-IsLeft (check_poll s pop lock post h) c v = absurd (omega (arith, v.nobody_pops))
Step-IsLeft (miss s push err lock e n w o) c v = absurd (omega (arith, v.nobody_pushes))
Step-IsLeft (miss s pop err lock e n w o) c v = absurd (omega (arith, v.nobody_pops))
Step-IsLeft (miss_poll s push err lock post n w) c v = absurd (omega (arith, v.nobody_pushes))
Step-IsLeft (miss_poll s pop err lock post n w) c v = absurd (omega (arith, v.nobody_pops))
Step-IsLeft (expire s push lock w) c v = absurd (omega (arith, v.nobody_pushes))
Step-IsLeft (expire s pop lock w) c v = absurd (omega (arith, v.nobody_pops))
Step-IsLeft (refuse s push err lock l) c v = absurd (omega (arith, v.nobody_pushes))
Step-IsLeft (refuse s pop err lock l) c v = absurd (omega (arith, v.nobody_pops))
Step-IsLeft (publish s t item w free locked) c v = absurd (omega (arith, v.nobody_pushes))
Step-IsLeft (collect s t w free locked) c v = absurd (omega (arith, v.nobody_pops))
Step-IsLeft (fail_lock s push lock restate w bad) c v = absurd (omega (arith, v.nobody_pushes))
Step-IsLeft (fail_lock s pop lock restate w bad) c v = absurd (omega (arith, v.nobody_pops))
Step-IsLeft (unlock s w) c v = record {
  nobody_pushes = v.nobody_pushes;
  nobody_pops = v.nobody_pops;
}
Step-IsLeft (hand_back s push post w) c v = record {
  nobody_pushes = v.nobody_pushes;
  nobody_pops = v.nobody_pops;
}
Step-IsLeft (hand_back s pop post w) c v = record {
  nobody_pushes = v.nobody_pushes;
  nobody_pops = v.nobody_pops;
}
Step-IsLeft (shut s lock) c v = record {
  nobody_pushes = v.nobody_pushes;
  nobody_pops = v.nobody_pops;
}

Reach-IsLeft : {s t : Tasks} → IsShut s → IsLeft s → Reach s t → IsLeft t
Reach-IsLeft c v here = v
Reach-IsLeft c v (next r st) = Step-IsLeft st (Reach-IsShut c r) (Reach-IsLeft c v r)

wait_quiescent-quiescent :
    (lock : Err) (q : Queue) → wait_quiescent ((lock, q) ∷ []) ≡ some actrust_ok → q.in_flight ≡ 0
unfolding wait_quiescent
wait_quiescent-quiescent lock q h = ground arith

-- The tasks behind the first section of a close.
abbrev pub begun : Err → Tasks → Tasks
begun lock s = record s { q = (close_begin lock s.q).1 }

-- On a queue that has been created, let a close go on to wait, and let a poll of it find the queue
-- quiescent later. Then no task is inside any more, in that state or in any later one: each has been
-- counted out, and none is let in. What a task still does behind the section that counts it out, to
-- give its token back or to unlock the queue's lock, may be to come.
pub close-nobody_inside :
    (block : Option (List Bytes)) (capacity item_size : ℕ) (q : Queue) (s t u : Tasks)
    (lock poll : Err)
    → created block capacity item_size ≡ done q
    → Reach (alone q) s
    → (close_begin lock s.q).0 ≡ none
    → Reach (begun lock s) t
    → wait_quiescent ((poll, t.q) ∷ []) ≡ some actrust_ok
    → Reach t u
    → (in_crew u.pushers ≡ 0) × (in_crew u.poppers ≡ 0)
close-nobody_inside block capacity item_size q s t u lock poll h r begins r' polled r'' =
    let fair = Reach-IsFair (created-IsFair block capacity item_size h) r in
    let v = Reach-IsFair (Step-IsFair (shut s lock) fair) r' in
    let idle = wait_quiescent-quiescent poll t.q polled in
    let down = Reach-IsShut {s = begun lock s} {t = t} (close_begin-closes lock s.q begins) r' in
    let left =
      Reach-IsLeft {s = t} {t = u} down
        (record {
          nobody_pushes = omega (arith, v.counted, idle);
          nobody_pops = omega (arith, v.counted, idle);
        })
        r'' in
    (left.nobody_pushes, left.nobody_pops)

-- A queue is quiescent as soon as its last task has been counted out, also where that task, whose
-- queue lock has failed, still has a token to give back.
quiescent_while_owing :
    (s : Tasks) (lock : Err)
    → 0 < s.pushers.turns
    → queue_lock lock s.q ≢ actrust_ok
    → s.q.has_state_lock ≡ true
    → s.q.in_flight ≡ 1
    → s.q.waiting_push ≡ 0
    → s.q.waiting_pop ≡ 0
    → (t : Tasks) × Reach s t × (quiescent t.q ≡ true) × (0 < t.pushers.owing)
unfolding count_out leave queue_state_lock
quiescent_while_owing s lock w bad has one no_push no_pop = (
  counted_out push actrust_ok s,
  next here (fail_lock s push lock actrust_ok w bad),
  ground arith,
  omega arith,
)
