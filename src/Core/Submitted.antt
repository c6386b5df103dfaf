-- ===== src/Core/Submitted.antt =====
-- What a submission does to the pool and the queue of jobs.
use ant_chain_trust_sdk.Prelude.{
  ℕ, ◌+◌, ◌-◌, ◌<◌, ◌≡◌, ◌≢◌, ◌⊎◌, inl, inr, refl, sym, ap, ◌∙◌, Bool, true, false, ◌||◌, not, none,
  some, [], ◌∷◌, ◌++◌, length, set, get_or, leb, arith, Bool-cases, length-set, get_or-set_self,
  subst,
}
use ant_chain_trust_sdk.Errno.{Err, actrust_ok, is_ok, is_err, err_make, no_resource, queue_full}
use ant_chain_trust_sdk.Job.Pool.{
  Job, Job, Pool, zero_job, job_at, job_alloc, job_release, job_recycle, core_err,
}
use ant_chain_trust_sdk.Job.Pool.Invariant
use ant_chain_trust_sdk.Job.Pool.Invariant.{busy}
use ant_chain_trust_sdk.Job.Pool.Laws.{HandsOut, job_alloc_lem}
use ant_chain_trust_sdk.Job.Queue.{JobQueue, enqueue}
use ant_chain_trust_sdk.Job.Queue.Refine
use ant_chain_trust_sdk.Job.Queue.Refine.{jobs, enqueue_lem}
use ant_chain_trust_sdk.Core.Context.{CoreState, registered}
use ant_chain_trust_sdk.Core.Filled.{job_of, started, copy_params-filled}
use ant_chain_trust_sdk.Core.Submit.{
  Submission, with_config, with_data, plain, SubmitReplies, copy_init_config, copy_send_payload,
  copy_params, post_allocated, post_job, lets_in, submit_job,
}

copy_params-kept :
    (r : SubmitReplies) (s : Submission) (job : Job) → (copy_params r s job).1.refcnt ≡ job.refcnt
unfolding copy_init_config copy_send_payload
copy_params-kept r (with_config c) job = ground arith
copy_params-kept r (with_data d) job = ground arith
copy_params-kept r (plain t) job = refl

full-is_error : core_err queue_full ≢ actrust_ok
unfolding core_err err_make
full-is_error h = ground arith

none-is_error : core_err no_resource ≢ actrust_ok
unfolding core_err err_make
none-is_error h = ground arith

-- An enqueue that fails leaves the queue, and one that succeeds met no error.
enqueue-cases :
    (lock unlock post : Err) (q : JobQueue) (j : ℕ)
    → let (e, q') = enqueue lock unlock post q j in
      (e ≢ actrust_ok) × (q' ≡ q)
      ⊎ (e ≡ actrust_ok)
        × (q.closed ≡ false)
        × (enqueue actrust_ok actrust_ok actrust_ok q j ≡ (actrust_ok, q'))
unfolding enqueue core_err err_make
enqueue-cases lock unlock post q j = elim (Bool-cases (is_ok lock)) [
  | inr bad ↦ rw (enqueue, bad) (inl (λ h. ground arith, refl))
  | inl good ↦ elim (Bool-cases q.closed) [
    | inl shut ↦ rw (enqueue, good, shut) (inl (λ h. absurd (ground arith), refl))
    | inr open_to ↦ elim (Bool-cases (leb q.depth q.count)) [
      | inl full ↦ rw (enqueue, good, open_to, full) (inl (λ h. ground arith, refl))
      | inr room ↦ elim (Bool-cases (is_ok post)) [
        | inr bad ↦ rw (enqueue, good, open_to, room, bad) (inl (λ h. ground arith, refl))
        | inl posted ↦ rw (enqueue, good, open_to, room, posted) (inr (refl, refl, refl))
      ]
    ]
  ]
]

-- The last release of a job gives its index back.
release-free :
    (size : ℕ) (p : Pool) (j : ℕ)
    → j < size
    → (job_at p j).refcnt ≡ 1
    → (job_release size actrust_ok p j).2.free_count ≡ p.free_count + 1
unfolding job_release job_recycle
release-free size p j inside held = ground arith

alloc-free :
    (lock : Err) (p : Pool) (j : ℕ)
    → (job_alloc lock p).1 ≡ some j
    → (job_alloc lock p).2.free_count + 1 ≡ p.free_count
unfolding job_alloc
alloc-free lock p j h = ground arith

alloc-length : (lock : Err) (p : Pool) → length (job_alloc lock p).2.pool ≡ length p.pool
unfolding job_alloc
alloc-length lock p = ground (
  arith,
  length-set p.pool (get_or p.free_indices (p.free_count - 1) 0) (record zero_job { refcnt = 1 }),
)

module _ (size : ℕ) (r : SubmitReplies) where
  -- A job was taken from the pool, filled in and put at the end of the queue.
  pub record Posted (s : Submission) (p : Pool) (q : JobQueue) (p' : Pool) (q' : JobQueue)
      : Type 0 where
    pub handle : ℕ
    pub inside : handle < size
    pub filled : job_at p' handle ≡ job_of s
    pub taken : p'.free_count + 1 ≡ p.free_count
    pub queued : jobs q' ≡ jobs q ++ handle ∷ []

  -- Nothing is left of a submission.
  pub record Refused (e : Err) (p : Pool) (q : JobQueue) (p' : Pool) (q' : JobQueue) : Type 0 where
    pub is_error : e ≢ actrust_ok
    pub given_back : p'.free_count ≡ p.free_count
    pub same_queue : q' ≡ q

  post_allocated-Settled :
      (s : Submission) (j : ℕ) (p0 p : Pool) (q : JobQueue)
      → Refine.IsValid q
      → r.release_lock ≡ actrust_ok
      → j < size
      → j < length p.pool
      → job_at p j ≡ record zero_job { refcnt = 1 }
      → p.free_count + 1 ≡ p0.free_count
      → let (e, p', q') = post_allocated size r s j p q in
        (e ≡ actrust_ok) × Posted s p0 q p' q' ⊎ Refused e p0 q p' q'
  unfolding post_allocated
  post_allocated-Settled s j p0 p q v lock inside there held taken =
      let start = started s (job_at p j) in
      let job = (copy_params r s start).1 in
      let p' = record p { pool = set p.pool j job } in
      let same = copy_params-kept r s start in
      let now : job_at p' j ≡ job = get_or-set_self p.pool j job zero_job there in
      let one : (job_at p' j).refcnt ≡ 1 =
        ap (λ x. x.refcnt) now ∙ same ∙ ap (λ x. x.refcnt) held in
      let back : (job_release size r.release_lock p' j).2.free_count ≡ p'.free_count + 1 =
        subst (λ l. (job_release size l p' j).2.free_count ≡ p'.free_count + 1) (sym lock)
          (release-free size p' j inside one) in
      elim (Bool-cases (is_err (copy_params r s start).0)) [
        | inl bad ↦
            rw (post_allocated, bad)
              (inr record {
                is_error = λ h. ground arith;
                given_back = back ∙ taken;
                same_queue = refl;
              })
        | inr fine ↦ elim (enqueue-cases r.queue_lock r.queue_unlock r.queue_post q j) [
          | inl (bad, unchanged) ↦
              let err : is_err (enqueue r.queue_lock r.queue_unlock r.queue_post q j).0 ≡ true =
                ground arith in
              rw (post_allocated, fine, err)
                (inr record { is_error = bad; given_back = back ∙ taken; same_queue = unchanged })
          | inr (good, open_to, plain_call) ↦
              let ok : is_err (enqueue r.queue_lock r.queue_unlock r.queue_post q j).0 ≡ false =
                ground arith in
              rw (post_allocated, fine, ok)
                (inl (
                  refl,
                  record {
                    handle = j;
                    inside = inside;
                    filled = now ∙ copied fine;
                    taken = taken;
                    queued = appended good open_to plain_call;
                  },
                ))
        ]
      ]
    where
      copied :
          let start = started s (job_at p j) in
          is_err (copy_params r s start).0 ≡ false → (copy_params r s start).1 ≡ job_of s
      copied =
          subst (λ x. is_err (copy_params r s x).0 ≡ false → (copy_params r s x).1 ≡ job_of s)
            (sym (ap (started s) held)) (λ fine. copy_params-filled r s (ground arith))

      appended :
          let (e, q') = enqueue r.queue_lock r.queue_unlock r.queue_post q j in
          e ≡ actrust_ok
          → q.closed ≡ false
          → enqueue actrust_ok actrust_ok actrust_ok q j ≡ (actrust_ok, q')
          → jobs q' ≡ jobs q ++ j ∷ []
      appended good open_to same = elim (enqueue_lem q j v open_to).1 [
        | inl (room, e, l) ↦ ap (λ x. jobs x.1) (sym same) ∙ l
        | inr (full, e, l) ↦ absurd (full-is_error (sym e ∙ ap (λ x. x.0) same))
      ]

  post_job-Settled :
      (s : Submission) (p : Pool) (q : JobQueue)
      → Invariant.IsValid size p
      → Refine.IsValid q
      → r.pool_lock ≡ actrust_ok
      → r.release_lock ≡ actrust_ok
      → let (e, p', q') = post_job size r s p q in
        (e ≡ actrust_ok) × Posted s p q p' q' ⊎ Refused e p q p' q'
  unfolding post_job core_err err_make
  post_job-Settled s p q vp vq pool_lock release_lock = elim alloc [
    | inl (full, e) ↦
        let none_left : (job_alloc r.pool_lock p).1 ≡ none = ap (λ x. x.1) e in
        rw (post_job, none_left)
          (inr record {
            is_error = λ h. none-is_error (sym (ap (λ x. x.0) e) ∙ h);
            given_back = ap (λ x. x.2.free_count) e;
            same_queue = refl;
          })
    | inr (room, (j, out)) ↦
        let p1 = (job_alloc r.pool_lock p).2 in
        rw (post_job, out.handle)
          (post_allocated-Settled s j p p1 q vq release_lock out.inside
            (omega (arith, alloc-length r.pool_lock p, vp.jobs, out.inside)) out.clean
            (alloc-free r.pool_lock p j out.handle))
  ]
    where
      alloc :
          (busy p.pool ≡ size) × (job_alloc r.pool_lock p ≡ (core_err no_resource, none, p))
          ⊎ (busy p.pool < size) × ((j : ℕ) × HandsOut size p (job_alloc r.pool_lock p) j)
      alloc =
          subst
            (λ l.
              (busy p.pool ≡ size) × (job_alloc l p ≡ (core_err no_resource, none, p))
              ⊎ (busy p.pool < size) × ((j : ℕ) × HandsOut size p (job_alloc l p) j))
            (sym pool_lock) (job_alloc_lem size p vp)

  let_in :
      (required : CoreState) (allow : Bool) (st : CoreState)
      → lets_in size r required allow st ≡ true
      → (st ≡ required) ⊎ (allow ≡ true) × (st ≡ registered)
  unfolding lets_in
  let_in required allow st h = ground arith

  -- A submission is let in from the state that it asks for, and from REGISTERED where it allows it,
  -- before a deinitialization has begun. It succeeds, and then it was let in, one job was taken from
  -- the pool, holds the type and the configuration or data that were submitted, zeroed in all else but
  -- for its one reference, and stands last in the queue. Or it fails, and then the queue
  -- is unchanged and as many jobs are free as before. The pool and the queue are valid, and the
  -- pool's lock can be taken.
  pub submit_job-Settled :
      (has_lock pending : Bool) (st : CoreState) (s : Submission) (required : CoreState)
      (allow : Bool) (p : Pool) (q : JobQueue)
      → Invariant.IsValid size p
      → Refine.IsValid q
      → r.pool_lock ≡ actrust_ok
      → r.release_lock ≡ actrust_ok
      → let (e, p', q') = submit_job size r has_lock pending st s required allow p q in
        (e ≡ actrust_ok)
          × (has_lock ≡ true)
          × (pending ≡ false)
          × ((st ≡ required) ⊎ (allow ≡ true) × (st ≡ registered))
          × Posted s p q p' q'
        ⊎ Refused e p q p' q'
  unfolding submit_job core_err err_make
  submit_job-Settled has_lock pending st s required allow p q vp vq pool_lock release_lock =
      elim (Bool-cases (is_ok r.lifecycle)) [
        | inr bad ↦ rw (submit_job, bad) (inr (nothing r.lifecycle (λ h. ground arith)))
        | inl one ↦ elim (Bool-cases (not has_lock || pending)) [
          | inl shut ↦ rw (submit_job, one, shut) (inr (nothing _ (λ h. absurd (ground arith))))
          | inr running ↦ elim (Bool-cases (is_ok r.core_lock)) [
            | inr bad ↦
                rw (submit_job, one, running, bad) (inr (nothing r.core_lock (λ h. ground arith)))
            | inl two ↦ elim (Bool-cases (lets_in size r required allow st)) [
              | inr wrong ↦
                  rw (submit_job, one, running, two, wrong)
                    (inr (nothing _ (λ h. absurd (ground arith))))
              | inl right ↦
                  rw (submit_job, one, running, two, right)
                    (elim (post_job-Settled s p q vp vq pool_lock release_lock) [
                      | inl (ok, posted) ↦
                          inl
                            (ok, ground arith, ground arith, let_in required allow st right, posted)
                      | inr refused ↦ inr refused
                    ])
            ]
          ]
        ]
      ]
    where
      nothing : (e : Err) → e ≢ actrust_ok → Refused e p q p q
      nothing e bad = record { is_error = bad; given_back = refl; same_queue = refl }
