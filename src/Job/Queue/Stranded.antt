-- ===== src/Job/Queue/Stranded.antt =====
-- A limit of closing: `actrust_job_queue_close` counts its waiters once, so a consumer that enters
-- later is woken only by a job that is left.
use ant_chain_trust_sdk.Prelude.{ℕ, ◌-◌, ◌%◌, ◌<◌, ◌≡◌, true, none, List, [], set, arith}
use ant_chain_trust_sdk.Errno.{actrust_ok}
use ant_chain_trust_sdk.Job.Queue.{
  JobQueue, enqueue, close, closing, wake, dequeue_enter, dequeue_take,
}
use ant_chain_trust_sdk.Job.Queue.Threads.{
  Threads, produce, enter, wake_up, take, shut, Reach, here, next, fresh,
}

module _ (buf : List ℕ) (depth job : ℕ) where
  -- One job is put in, and the queue is closed.
  closed_queue : JobQueue
  closed_queue =
      (close actrust_ok [] actrust_ok
        (enqueue actrust_ok actrust_ok actrust_ok (fresh buf depth).q job).1).1

  -- A consumer enters.
  entered : JobQueue → JobQueue
  entered q = (dequeue_enter actrust_ok q).1

  -- Two consumers have entered, and one has woken.
  one_woken : JobQueue
  one_woken = record (entered (entered closed_queue)) {
    sem_items = (entered (entered closed_queue)).sem_items - 1;
  }

  stranded : Threads
  stranded = record {
    q = (dequeue_take actrust_ok actrust_ok actrust_ok one_woken).2;
    waiting = 1;
    woken = 0;
  }

  closed_queue_lem :
      0 < depth
      → closed_queue ≡ record {
        buf = set buf 0 job;
        has_lock = true;
        has_sem = true;
        depth = depth;
        head = 0;
        tail = 1 % depth;
        count = 1;
        waiter_count = 0;
        close_wake_pending = 0;
        closed = true;
        sem_items = 1;
      }
  unfolding closed_queue enqueue close closing wake
  closed_queue_lem pos = ground arith

  stranded_lem :
      0 < depth
      → (stranded.q.closed ≡ true)
        × (stranded.q.count ≡ 0)
        × (stranded.q.sem_items ≡ 0)
        × (stranded.q.close_wake_pending ≡ 0)
        × (stranded.waiting ≡ 1)
  unfolding stranded one_woken entered dequeue_enter dequeue_take
  stranded_lem pos = ground (arith, closed_queue_lem pos)

  enters_once : 0 < depth → (dequeue_enter actrust_ok closed_queue).0 ≡ none
  unfolding dequeue_enter
  enters_once pos = ground (arith, closed_queue_lem pos)

  enters_twice : 0 < depth → (dequeue_enter actrust_ok (entered closed_queue)).0 ≡ none
  unfolding dequeue_enter entered
  enters_twice pos = ground (arith, closed_queue_lem pos)

  token_left : 0 < depth → 0 < (entered (entered closed_queue)).sem_items
  unfolding dequeue_enter entered
  token_left pos = ground (arith, closed_queue_lem pos)

  stranded_reached : 0 < depth → Reach (fresh buf depth) stranded
  unfolding stranded one_woken entered closed_queue
  stranded_reached pos =
      let s1 : Threads = record (fresh buf depth) {
        q = (enqueue actrust_ok actrust_ok actrust_ok (fresh buf depth).q job).1;
      } in
      let s2 : Threads = record s1 { q = closed_queue } in
      let s3 : Threads = record { q = entered closed_queue; waiting = 1; woken = 0 } in
      let s4 : Threads = record { q = entered (entered closed_queue); waiting = 2; woken = 0 } in
      let s5 : Threads = record { q = one_woken; waiting = 1; woken = 1 } in
      let r1 : Reach (fresh buf depth) s1 =
        next {t = fresh buf depth} here (produce (fresh buf depth) actrust_ok job) in
      let r2 : Reach (fresh buf depth) s2 = next {t = s1} r1 (shut s1 []) in
      let r3 : Reach (fresh buf depth) s3 =
        next {t = s2} r2 (enter s2 (omega arith) (enters_once pos)) in
      let r4 : Reach (fresh buf depth) s4 =
        next {t = s3} r3 (enter s3 (omega arith) (enters_twice pos)) in
      let r5 : Reach (fresh buf depth) s5 =
        next {t = s4} r4 (wake_up s4 (omega arith) (token_left pos)) in
      next {t = s5} r5 (take s5 (omega arith))

-- A consumer that enters after the close is not counted among the waiters to wake. With one job
-- left, a second one that enters then waits with no token to come: from every fresh queue such a
-- state is reached, closed, empty and with a thread inside the wait.
pub late_waiter_stranded :
    (buf : List ℕ) (depth job : ℕ)
    → 0 < depth
    → (s : Threads) × Reach (fresh buf depth) s
      × (s.q.closed ≡ true)
      × (s.q.count ≡ 0)
      × (s.q.sem_items ≡ 0)
      × (s.q.close_wake_pending ≡ 0)
      × (s.waiting ≡ 1)
late_waiter_stranded buf depth job pos =
    let (a, b, c, d, e) = stranded_lem buf depth job pos in
    (stranded buf depth job, stranded_reached buf depth job pos, a, b, c, d, e)
