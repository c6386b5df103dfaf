-- ===== src/Queue/Tests.antt =====
-- Runs of the queue, and its theorems at concrete inputs.
use ant_chain_trust_sdk.Prelude.{
  ◌<◌, ◌≡◌, ◌≢◌, ◌⊎◌, refl, true, false, none, some, List, [], ◌∷◌, ◌++◌, arith,
}
use ant_chain_trust_sdk.Prelude.Slots.{stored}
use ant_chain_trust_sdk.Errno.{
  Err, fail, done, actrust_ok, err_make, err_module, err_code, module_adapter_system, would_block,
  bad_state, queue_full,
}
use ant_chain_trust_sdk.Queue.Sections
use ant_chain_trust_sdk.Queue.Sections.{
  Bytes, Queue, open_queue, closing, push, pop, queue_err, Turn, push_locked, pop_locked,
}
use ant_chain_trust_sdk.Queue.Wait
use ant_chain_trust_sdk.Queue.Wait.{Round}
use ant_chain_trust_sdk.Queue.Calls.{Meets, queue_create, queue_push, queue_pop}
use ant_chain_trust_sdk.Queue.Close
use ant_chain_trust_sdk.Queue.Close.{queue_destroy, quiescent, wait_quiescent, Ends}
use ant_chain_trust_sdk.Queue.Refine.{items, IsValid, push_locked_lem, pop_locked_lem}
use ant_chain_trust_sdk.Queue.Threads
use ant_chain_trust_sdk.Queue.Threads.{
  Crew, Tasks, Reach, here, next, come, take, check, shut, in_crew,
}
use ant_chain_trust_sdk.Queue.Quiet.{nobody, alone, created, turns-find_slot}
use ant_chain_trust_sdk.Queue.Shut.{begun, close-nobody_inside}
use ant_chain_trust_sdk.Queue.Leaks.{unlucky, unlucky_push_blocks_close}

-- A queue of two slots of one byte.
abbrev slots : List Bytes
slots = (0 ∷ []) ∷ (0 ∷ []) ∷ []

abbrev two : Queue
two = record {
  buffer = slots;
  capacity = 2;
  head = 0;
  tail = 0;
  size = 0;
  has_lock = true;
  has_state_lock = true;
  has_empty = true;
  has_filled = true;
  empty_slots = 2;
  filled_slots = 0;
  state = open_queue;
  in_flight = 0;
  waiting_push = 0;
  waiting_pop = 0;
}

two-created : created (some slots) 2 1 ≡ done two
unfolding queue_create
two-created = refl

abbrev good : Turn
good = record { lock = 0; restate = 0; state = 0; post = 0; back = 0 }

-- A call whose first wait answers `wait`.
abbrev meets : Err → Meets
meets wait = record {
  first = 0;
  start = 100;
  back = 0;
  rounds = record { now = 100; wait = wait; lock = 0 } ∷ [];
  again = 0;
  turn = good;
}

abbrev one : Queue
one = record two {
  buffer = (5 ∷ []) ∷ (0 ∷ []) ∷ [];
  tail = 1;
  size = 1;
  empty_slots = 1;
  filled_slots = 1;
}

push_one : queue_push (meets 0) (some (5 ∷ [])) 50 two ≡ some (actrust_ok, one)
unfolding queue_push Sections.enter Sections.queue_state_lock Wait.wait_resource Wait.wait_loop
    Wait.wait_slice Wait.deadline_at Wait.after_wait Sections.one_waiter_less Sections.took
    push_locked Sections.reserve Sections.queue_lock Sections.give_back Sections.leave
push_one = refl

-- A poll of a full queue is reported as QUEUE_FULL.
push_full :
    queue_push
      (meets (err_make module_adapter_system would_block))
      (some (5 ∷ []))
      0
      (record one { empty_slots = 0 })
    ≡ some (queue_err queue_full, record one { empty_slots = 0 })
unfolding queue_push Sections.enter Sections.queue_state_lock Wait.wait_resource Wait.after_poll
    Sections.one_waiter_less Sections.refused Sections.leave queue_err err_make err_module err_code
push_full = refl

pop_one :
    queue_pop (meets 0) true 50 one
    ≡ some (done (5 ∷ []), record one { head = 1; size = 0; empty_slots = 2; filled_slots = 0 })
unfolding queue_pop Sections.enter Sections.queue_state_lock Wait.wait_resource Wait.wait_loop
    Wait.wait_slice Wait.deadline_at Wait.after_wait Sections.one_waiter_less Sections.took
    pop_locked Sections.reserve Sections.queue_lock Sections.give_back Sections.leave
pop_one = refl

destroy_two :
    queue_destroy 0
      (0 ∷ [])
      (record { empty = 0; filled = 0; relock = 0; state_lock = 0; lock = 0 })
      two
    ≡ some (actrust_ok, none)
unfolding queue_destroy Close.close_begin Close.meets wait_quiescent Close.destroy_rest
    Close.destroy_lock Close.destroy_state_lock Close.destroy_filled Close.destroy_empty
    Sections.queue_state_lock
destroy_two = refl

push_locked_lem_example :
    let (e, q') = push_locked good (6 ∷ []) one in
    IsValid q'
    × ((e ≡ actrust_ok) × (items q' ≡ items one ++ (6 ∷ []) ∷ [])
        ⊎ (e ≢ actrust_ok) × (items q' ≡ items one))
push_locked_lem_example = push_locked_lem good (6 ∷ []) one (omega arith) (omega arith)

pop_locked_lem_example :
    let (o, q') = pop_locked good one in
    IsValid q'
    × ((o ≡ done (5 ∷ [])) × (items q' ≡ []) ⊎ ((e : Err) × (o ≡ fail e) × (items q' ≡ items one)))
unfolding stored
pop_locked_lem_example = pop_locked_lem good (5 ∷ []) [] one (omega arith) refl

-- A push on its way to the last section.
abbrev at_turn : Tasks
at_turn = record {
  unlocking = 0;
  q = record two { empty_slots = 1; in_flight = 1 };
  pushers = record nobody { turns = 1 };
  poppers = nobody;
}

abbrev at_hold : Tasks
at_hold = record {
  unlocking = 0;
  q = record two { empty_slots = 1; in_flight = 1; waiting_push = 1 };
  pushers = record nobody { holders = 1 };
  poppers = nobody;
}

abbrev at_wait : Tasks
at_wait = record {
  unlocking = 0;
  q = record two { in_flight = 1; waiting_push = 1 };
  pushers = record nobody { waiting = 1 };
  poppers = nobody;
}

at_hold-Reach : Reach (alone two) at_hold
unfolding Sections.enter Sections.queue_state_lock Sections.took
at_hold-Reach =
    next (next here (come (alone two) push actrust_ok (omega arith) (omega arith) refl))
      (take at_wait push (omega arith) (omega arith))

at_turn-Reach : Reach (alone two) at_turn
unfolding Wait.after_wait Sections.queue_state_lock Sections.one_waiter_less Threads.onward
at_turn-Reach = next at_hold-Reach (check at_hold push actrust_ok actrust_ok (omega arith) refl)

turns-find_slot_example :
    (0 < at_turn.pushers.turns → at_turn.q.size < at_turn.q.capacity)
    × (0 < at_turn.poppers.turns → 0 < at_turn.q.size)
turns-find_slot_example = turns-find_slot (some slots) 2 1 two at_turn two-created at_turn-Reach

-- A push is on its way while a close begins, and leaves.
abbrev closing_at_hold : Tasks
closing_at_hold = begun actrust_ok at_hold

abbrev left_two : Tasks
left_two = record at_hold {
  q = record two { empty_slots = 1; in_flight = 0; waiting_push = 0; state = closing };
  pushers = nobody;
}

left_two-Reach : Reach closing_at_hold left_two
unfolding Close.close_begin Sections.queue_state_lock Wait.after_wait Sections.one_waiter_less
    Sections.leave Threads.onward queue_err err_make err_module err_code
left_two-Reach =
    next here (check closing_at_hold push actrust_ok (queue_err bad_state) (omega arith) refl)

close-nobody_inside_example : (in_crew left_two.pushers ≡ 0) × (in_crew left_two.poppers ≡ 0)
unfolding wait_quiescent Sections.queue_state_lock Close.close_begin
close-nobody_inside_example =
    close-nobody_inside (some slots) 2 1 two at_hold left_two left_two actrust_ok actrust_ok
      two-created at_hold-Reach refl left_two-Reach refl here

unlucky_push_blocks_close_example : quiescent (unlucky 7 at_hold).q ≡ false
unlucky_push_blocks_close_example =
    unlucky_push_blocks_close at_hold (unlucky 7 at_hold) 7 refl (omega arith) refl (omega arith)
      here
