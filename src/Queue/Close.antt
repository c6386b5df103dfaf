-- ===== src/Queue/Close.antt =====
-- `actrust_queue_close` and `actrust_queue_destroy` of queue.c.
use ant_chain_trust_sdk.Prelude.{
  Bool, false, ◌&&◌, ◌||◌, not, Option, none, some, List, [], ◌∷◌, ◌==◌, if◌then◌else◌,
}
use ant_chain_trust_sdk.Errno.{Err, actrust_ok, is_ok, is_err, busy}
use ant_chain_trust_sdk.Queue.Sections.{
  Queue, open_queue, closing, closed, queue_err, queue_state_lock,
}

-- The first section of `actrust_queue_close`: it returns, or goes on to wait.
unfoldable pub close_begin : Err → Queue → Option Err × Queue
close_begin lock q =
    let err = queue_state_lock lock q in
    if not (is_ok err) then (some err, q) else elim q.state [
      | open_queue ↦ (none, record q { state = closing })
      | closing ↦ (none, q)
      | closed ↦ (some actrust_ok, q)
    ]

abbrev pub quiescent : Queue → Bool
quiescent q = q.in_flight == 0 && q.waiting_push == 0 && q.waiting_pop == 0

-- `queue_wait_quiescent` over what its polls meet: the result of the state lock and the queue as the
-- other tasks have left it; `none` means that it still polls.
unfoldable pub wait_quiescent : List (Err × Queue) → Option Err
wait_quiescent [] = none
wait_quiescent ((lock, q) ∷ polls) =
    let rest = wait_quiescent polls in
    let err = queue_state_lock lock q in
    if not (is_ok err) then some err else if quiescent q then some actrust_ok else rest

-- The results of the adapter calls of `actrust_queue_destroy` behind the close.
pub record Ends : Type 0 where
  pub empty : Err
  pub filled : Err
  pub relock : Err
  pub state_lock : Err
  pub lock : Err

abbrev first_of : Err → Err → Err
first_of first err = if is_ok first then err else first

-- Each primitive that is left is destroyed, and the first error kept.
unfoldable pub destroy_empty : Err → Err × Queue → Err × Queue
destroy_empty empty (first, q) =
    if not q.has_empty
    then (first, q)
    else if is_ok empty
    then (first, record q { has_empty = false })
    else (empty, q)

unfoldable pub destroy_filled : Err → Err × Queue → Err × Queue
destroy_filled filled (first, q) =
    if not q.has_filled
    then (first, q)
    else if is_ok filled
    then (first, record q { has_filled = false })
    else (first_of first filled, q)

unfoldable pub destroy_state_lock : Err → Err → Err × Queue → Err × Queue
destroy_state_lock relock state_lock (first, q) =
    if not q.has_state_lock
    then (first, q)
    else if not (is_ok relock)
    then (first_of first relock, q)
    else if is_ok state_lock
    then (first, record q { state = closed; has_state_lock = false })
    else (first_of first state_lock, record q { state = closed })

unfoldable pub destroy_lock : Err → Err × Queue → Err × Queue
destroy_lock lock (first, q) =
    if not q.has_lock
    then (first, q)
    else if is_ok lock
    then (first, record q { has_lock = false })
    else (first_of first lock, q)

-- `actrust_queue_destroy` behind a close that succeeded or was not needed. The queue that is freed is
-- `none`.
unfoldable pub destroy_rest : Ends → Queue → Err × Option Queue
destroy_rest ends q =
    let (first, q') = destroy_lock ends.lock (
      destroy_state_lock ends.relock ends.state_lock
        (destroy_filled ends.filled (destroy_empty ends.empty (actrust_ok, q)))) in
    if is_err first || q'.has_empty || q'.has_filled || q'.has_state_lock || q'.has_lock
    then (if is_ok first then queue_err busy else first, some q')
    else (actrust_ok, none)

-- Polls of a queue that nobody changes.
unfoldable pub meets : List Err → Queue → List (Err × Queue)
meets [] q = []
meets (lock ∷ polls) q = (lock, q) ∷ meets polls q

-- `actrust_queue_destroy`, with nothing else running: the close's lock, and the results of its polls.
unfoldable pub queue_destroy : Err → List Err → Ends → Queue → Option (Err × Option Queue)
queue_destroy lock polls ends q =
    if not q.has_state_lock
    then some (destroy_rest ends q)
    else let (o, q') = close_begin lock q in
      elim o [
        | some err ↦ if is_err err then some (err, some q') else some (destroy_rest ends q')
        | none ↦ elim (wait_quiescent (meets polls q')) [
          | none ↦ none
          | some err ↦ if is_err err then some (err, some q') else some (destroy_rest ends q')
        ]
      ]
