-- ===== src/Job/Tests.antt =====
-- The theorems on core_job.c at concrete pools and queues, and runs of its functions.
use ant_chain_trust_sdk.Prelude.{
  ℕ, ◌<◌, ◌≡◌, ◌⊎◌, refl, true, none, some, List, [], ◌∷◌, ◌++◌, arith,
}
use ant_chain_trust_sdk.Errno.{actrust_ok, no_resource, queue_full}
use ant_chain_trust_sdk.Job.Pool.{Pool, zero_job, job_init, pool_init, job_alloc, core_err}
use ant_chain_trust_sdk.Job.Pool.Invariant.{IsValid, busy}
use ant_chain_trust_sdk.Job.Pool.Laws.{
  Call, allocate, retain, release, run, run-IsValid, HandsOut, job_alloc_lem, pool_init-IsValid,
}
use ant_chain_trust_sdk.Job.Queue
use ant_chain_trust_sdk.Job.Queue.{JobQueue, Waited, enqueue, dequeue, close, dequeue_take}
use ant_chain_trust_sdk.Prelude.Slots.{stored}
use ant_chain_trust_sdk.Job.Queue.Refine
use ant_chain_trust_sdk.Job.Queue.Refine.{
  jobs, served, Keeps, enqueue_lem, dequeue_lem, dequeue-Keeps,
}
use ant_chain_trust_sdk.Job.Queue.Threads.{
  Threads, Reach, here, next, produce, enter, wake_up, fresh, take-finds_job, close-posts_all,
}
use ant_chain_trust_sdk.Job.Queue.Stranded.{late_waiter_stranded}

abbrev calls : List Call
calls =
    allocate actrust_ok
    ∷ retain actrust_ok 1
    ∷ allocate 7
    ∷ release actrust_ok 1
    ∷ release actrust_ok 1
    ∷ []

run-IsValid_example : IsValid 2 (run 2 (pool_init 2 actrust_ok).1 calls)
run-IsValid_example = run-IsValid 2 actrust_ok calls (omega arith)

job_alloc_lem_example :
    let p = (pool_init 2 actrust_ok).1 in
    (busy p.pool ≡ 2) × (job_alloc actrust_ok p ≡ (core_err no_resource, none, p))
    ⊎ (busy p.pool < 2) × ((j : ℕ) × HandsOut 2 p (job_alloc actrust_ok p) j)
job_alloc_lem_example = job_alloc_lem 2 (pool_init 2 actrust_ok).1 (pool_init-IsValid 2 actrust_ok)

-- A pool of one job, held once, with a certificate of two bytes.
abbrev held_pool : Pool
held_pool = record {
  pool = record zero_job { type = job_init; refcnt = 1; claim_cert = some (7 ∷ 9 ∷ []) } ∷ [];
  free_indices = 0 ∷ [];
  free_count = 0;
  mutex = true;
}

-- Two jobs, round the end of three slots.
abbrev wrapped : JobQueue
wrapped = record (fresh (5 ∷ 0 ∷ 4 ∷ []) 3).q { head = 2; tail = 1; count = 2; sem_items = 2 }

wrapped-IsValid : Refine.IsValid wrapped
wrapped-IsValid = omega arith

enqueue_lem_example :
    let (e, q') = enqueue actrust_ok actrust_ok actrust_ok wrapped 6 in
    Refine.IsValid q'
    × ((wrapped.count < 3) × (e ≡ actrust_ok) × (jobs q' ≡ jobs wrapped ++ 6 ∷ [])
        ⊎ (wrapped.count ≡ 3) × (e ≡ core_err queue_full) × (q' ≡ wrapped))
enqueue_lem_example = enqueue_lem wrapped 6 wrapped-IsValid refl

dequeue_lem_example :
    let (e, out, q') = dequeue served wrapped in
    Refine.IsValid q'
    × (e ≡ actrust_ok)
    × (out ≡ some 4)
    × (jobs q' ≡ 5 ∷ [])
    × (q'.waiter_count ≡ wrapped.waiter_count)
unfolding stored
dequeue_lem_example = dequeue_lem wrapped 4 (5 ∷ []) wrapped-IsValid (omega arith) refl

dequeue-Keeps_example : Keeps served.unlock wrapped (dequeue served wrapped)
dequeue-Keeps_example = dequeue-Keeps served wrapped

-- A consumer waits, a job arrives, and the consumer is woken.
abbrev one_slot : Threads
one_slot = fresh (0 ∷ []) 1

abbrev waits : Threads
waits = record one_slot { q = record one_slot.q { waiter_count = 1 }; waiting = 1 }

abbrev woken_up : Threads
woken_up = record waits { q = record waits.q { buf = 8 ∷ []; count = 1 }; waiting = 0; woken = 1 }

waits-Reach : Reach one_slot waits
unfolding Queue.dequeue_enter
waits-Reach = next {t = one_slot} here (enter one_slot (omega arith) refl)

woken_up-Reach : Reach one_slot woken_up
unfolding Queue.enqueue
woken_up-Reach =
    next {t = record waits { q = (enqueue actrust_ok actrust_ok actrust_ok waits.q 8).1 }}
      (next {t = waits} waits-Reach (produce waits actrust_ok 8))
      (wake_up (record waits { q = (enqueue actrust_ok actrust_ok actrust_ok waits.q 8).1 })
        (omega arith) (omega arith))

take-finds_job_example :
    (0 < woken_up.q.count) × ((dequeue_take actrust_ok actrust_ok actrust_ok woken_up.q).1 ≡ some 8)
take-finds_job_example =
    take-finds_job (0 ∷ []) 1 woken_up (omega arith) woken_up-Reach refl (omega arith)

close-posts_all_example : (close actrust_ok [] actrust_ok waits.q).1.sem_items ≡ 1
unfolding Queue.close Queue.closing Queue.wake
close-posts_all_example = close-posts_all (0 ∷ []) 1 waits [] (omega arith) waits-Reach refl refl

late_waiter_stranded_example :
    (s : Threads) × Reach (fresh (0 ∷ []) 1) s
    × (s.q.closed ≡ true)
    × (s.q.count ≡ 0)
    × (s.q.sem_items ≡ 0)
    × (s.q.close_wake_pending ≡ 0)
    × (s.waiting ≡ 1)
late_waiter_stranded_example = late_waiter_stranded (0 ∷ []) 1 8 (omega arith)
