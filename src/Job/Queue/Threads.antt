-- ===== src/Job/Queue/Threads.antt =====
-- Producers, consumers and a closer on one queue, interleaved at the adapter's waits. Locks succeed
-- here; posts and waits may fail.
use ant_chain_trust_sdk.Prelude.{
  ℕ, zero, suc, ◌+◌, ◌-◌, ◌^◌, ◌<◌, ◌≤◌, ◌≡◌, ◌≢◌, refl, true, false, none, some, List, [], ◌∷◌,
  get_or, arith,
}
use ant_chain_trust_sdk.Errno.{Err, actrust_ok}
use ant_chain_trust_sdk.Job.Queue.{
  JobQueue, enqueue, close, closing, wake, dequeue_enter, dequeue_take, dequeue_timeout,
}

-- The queue, the threads inside the wait, and the threads that hold a token and have not locked yet.
pub record Threads : Type 0 where
  pub q : JobQueue
  pub waiting : ℕ
  pub woken : ℕ

pub data Step : Threads → Threads → Type 0 where
  produce :
      (s : Threads) (post : Err) (job : ℕ)
      → Step s (record s { q = (enqueue actrust_ok actrust_ok post s.q job).1 })
  enter :
      (s : Threads)
      → s.waiting + s.woken + 1 < 2 ^ 16
      → (dequeue_enter actrust_ok s.q).0 ≡ none
      → Step s (record s { q = (dequeue_enter actrust_ok s.q).1; waiting = s.waiting + 1 })
  -- `sem_wait` returns with a token.
  wake_up :
      (s : Threads)
      → 0 < s.waiting
      → 0 < s.q.sem_items
      → Step s (record s {
        q = record s.q { sem_items = s.q.sem_items - 1 };
        waiting = s.waiting - 1;
        woken = s.woken + 1;
      })
  -- `sem_wait` fails.
  give_up :
      (s : Threads) (err : Err)
      → 0 < s.waiting
      → Step s (record s { q = (dequeue_timeout actrust_ok err s.q).1; waiting = s.waiting - 1 })
  take :
      (s : Threads)
      → 0 < s.woken
      → Step s (record s {
        q = (dequeue_take actrust_ok actrust_ok actrust_ok s.q).2;
        woken = s.woken - 1;
      })
  shut :
      (s : Threads) (posts : List Err)
      → Step s (record s { q = (close actrust_ok posts actrust_ok s.q).1 })

pub data Reach (s : Threads) : Threads → Type 0 where
  here : Reach s s
  next : {t u : Threads} → Reach s t → Step t u → Reach s u

-- What every interleaving keeps.
pub record Balanced (s : Threads) : Type 0 where
  pub waiters : s.q.waiter_count ≡ s.waiting + s.woken
  pub few : s.waiting + s.woken < 2 ^ 16
  pub small : s.q.depth < 2 ^ 16
  pub count_in : s.q.count ≤ s.q.depth
  pub tokens : s.q.count ≤ s.q.sem_items + s.woken
  pub exact : s.q.closed ≡ false → s.q.sem_items + s.woken ≡ s.q.count

produce-Balanced :
    (s : Threads) (post : Err) (job : ℕ)
    → Balanced s
    → Balanced (record s { q = (enqueue actrust_ok actrust_ok post s.q job).1 })
unfolding enqueue
produce-Balanced s post job b = ground arith

enter-Balanced :
    (s : Threads)
    → s.waiting + s.woken + 1 < 2 ^ 16
    → (dequeue_enter actrust_ok s.q).0 ≡ none
    → Balanced s
    → Balanced (record s { q = (dequeue_enter actrust_ok s.q).1; waiting = s.waiting + 1 })
unfolding dequeue_enter
enter-Balanced s few goes b = ground arith

give_up-Balanced :
    (s : Threads) (err : Err)
    → 0 < s.waiting
    → Balanced s
    → Balanced (record s { q = (dequeue_timeout actrust_ok err s.q).1; waiting = s.waiting - 1 })
unfolding dequeue_timeout
give_up-Balanced s err h b = ground arith

take-Balanced :
    (s : Threads)
    → 0 < s.woken
    → Balanced s
    → Balanced (record s {
      q = (dequeue_take actrust_ok actrust_ok actrust_ok s.q).2;
      woken = s.woken - 1;
    })
unfolding dequeue_take
take-Balanced s h b = ground arith

-- What waking leaves alone, and what it moves.
record Wakes (q : JobQueue) (r : Err × JobQueue) : Type 0 where
  count : r.1.count ≡ q.count
  depth : r.1.depth ≡ q.depth
  waiters : r.1.waiter_count ≡ q.waiter_count
  closed : r.1.closed ≡ q.closed
  posted : r.1.sem_items + r.1.close_wake_pending ≡ q.sem_items + q.close_wake_pending
  grows : q.sem_items ≤ r.1.sem_items
  all : r.0 ≡ actrust_ok → r.1.close_wake_pending ≡ 0

wake-Wakes :
    (posts : List Err) (n : ℕ) (q : JobQueue) → n ≡ q.close_wake_pending → Wakes q (wake posts n q)
unfolding wake
wake-Wakes posts zero q e = ground arith
wake-Wakes [] (suc n) q e = ground (
  arith,
  wake-Wakes [] n
      (record q { sem_items = q.sem_items + 1; close_wake_pending = q.close_wake_pending - 1 }),
)
wake-Wakes (post ∷ posts) (suc n) q e = ground (
  arith,
  wake-Wakes posts n
      (record q { sem_items = q.sem_items + 1; close_wake_pending = q.close_wake_pending - 1 }),
)

close_lem :
    (posts : List Err) (q : JobQueue)
    → let r = wake posts (closing q).close_wake_pending (closing q) in
      ((close actrust_ok posts actrust_ok q).0 ≡ r.0)
      × ((close actrust_ok posts actrust_ok q).1 ≡ r.1)
unfolding close
close_lem posts q = (ground arith, ground arith)

shut-Balanced :
    (s : Threads) (posts : List Err)
    → Balanced s
    → Balanced (record s { q = (close actrust_ok posts actrust_ok s.q).1 })
unfolding closing
shut-Balanced s posts b =
    let w = wake-Wakes posts (closing s.q).close_wake_pending (closing s.q) refl in
    rw (close_lem posts s.q).1 (ground (arith, w))

Step-Balanced : {s t : Threads} → Step s t → Balanced s → Balanced t
Step-Balanced (produce s post job) b = produce-Balanced s post job b
Step-Balanced (enter s few goes) b = enter-Balanced s few goes b
Step-Balanced (wake_up s w t) b = ground arith
Step-Balanced (give_up s err h) b = give_up-Balanced s err h b
Step-Balanced (take s h) b = take-Balanced s h b
Step-Balanced (shut s posts) b = shut-Balanced s posts b

Reach-Balanced : {s t : Threads} → Balanced s → Reach s t → Balanced t
Reach-Balanced b here = b
Reach-Balanced b (next r st) = Step-Balanced st (Reach-Balanced b r)

-- An empty, open queue that nobody waits on.
abbrev pub fresh : List ℕ → ℕ → Threads
fresh buf depth = record {
  q = record {
    buf = buf;
    has_lock = true;
    has_sem = true;
    depth = depth;
    head = 0;
    tail = 0;
    count = 0;
    waiter_count = 0;
    close_wake_pending = 0;
    closed = false;
    sem_items = 0;
  };
  waiting = 0;
  woken = 0;
}

fresh-Balanced : (buf : List ℕ) (depth : ℕ) → depth < 2 ^ 16 → Balanced (fresh buf depth)
fresh-Balanced buf depth small = omega arith

take_some :
    (q : JobQueue)
    → q.count ≢ 0
    → (dequeue_take actrust_ok actrust_ok actrust_ok q).1 ≡ some (get_or q.buf q.head 0)
unfolding dequeue_take
take_some q h = ground arith

-- However producers, consumers and failing posts interleave from a fresh queue, a consumer that
-- holds a token while the queue is open comes away with the oldest job: it never finds the queue
-- empty, so the code's NO_RESOURCE is not reached.
pub take-finds_job :
    (buf : List ℕ) (depth : ℕ) (s : Threads)
    → depth < 2 ^ 16
    → Reach (fresh buf depth) s
    → s.q.closed ≡ false
    → 0 < s.woken
    → (0 < s.q.count)
      × ((dequeue_take actrust_ok actrust_ok actrust_ok s.q).1 ≡ some (get_or s.q.buf s.q.head 0))
take-finds_job buf depth s small r running held =
    let b = Reach-Balanced (fresh-Balanced buf depth small) r in
    let more : 0 < s.q.count = omega (arith, b.exact running) in (more, take_some s.q (omega arith))

-- When an open queue is closed and every post succeeds, it has a token for each job that is left and
-- one for each thread that waits at that moment, and no more.
pub close-posts_all :
    (buf : List ℕ) (depth : ℕ) (s : Threads) (posts : List Err)
    → depth < 2 ^ 16
    → Reach (fresh buf depth) s
    → s.q.closed ≡ false
    → (close actrust_ok posts actrust_ok s.q).0 ≡ actrust_ok
    → (close actrust_ok posts actrust_ok s.q).1.sem_items ≡ s.q.count + s.waiting
unfolding closing
close-posts_all buf depth s posts small r running fine =
    let b = Reach-Balanced (fresh-Balanced buf depth small) r in
    let w = wake-Wakes posts (closing s.q).close_wake_pending (closing s.q) refl in
    let c = close_lem posts s.q in rw c.1 (ground (arith, c.0, w, b.waiters, b.exact running))
