-- ===== src/Core/Submit.antt =====
-- How a call of the public API becomes a job: core_copy_init_config, core_copy_send_payload,
-- core_post_job and core_submit_job of source/core/source/core_api.c. A result of an adapter call is
-- an argument.
use ant_chain_trust_sdk.Prelude.{
  ℕ, ◌-◌, ◌^◌, Bool, true, false, ◌||◌, not, Option, none, some, length, set, leb, ◌==◌,
  if◌then◌else◌,
}
use ant_chain_trust_sdk.Errno.{Err, actrust_ok, is_ok, is_err, invalid_arg, bad_state, no_mem}
use ant_chain_trust_sdk.Job.Pool.{
  Bytes, JobType, job_init, job_send, Job, Pool, job_at, job_alloc, job_release, core_err,
}
use ant_chain_trust_sdk.Job.Queue.{JobQueue, enqueue}
use ant_chain_trust_sdk.Core.Context.{
  CoreState, uninit, initing, init_failed, ready, unregistered, registered, deinit,
}

-- `actrust_config_t`. A null pointer is `none`; the length that comes with a block is its own.
pub record Config : Type 0 where
  pub claim_cert : Option Bytes
  pub claim_key : Option Bytes

-- `core_job_submit_t`
pub data Submission : Type 0 where
  with_config : Option Config → Submission
  with_data : Option Bytes → Submission
  plain : JobType → Submission

abbrev pub type_of : Submission → JobType
type_of (with_config c) = job_init
type_of (with_data d) = job_send
type_of (plain t) = t

-- The results of the calls that a submission makes.
pub record SubmitReplies : Type 0 where
  pub lifecycle : Err
  pub core_lock : Err
  pub pool_lock : Err
  pub mem_cert : Bool
  pub mem_key : Bool
  pub mem_payload : Bool
  pub queue_lock : Err
  pub queue_unlock : Err
  pub queue_post : Err
  pub release_lock : Err

-- A block that the code takes: not null, not empty, and with room for one byte more.
abbrev pub block_of : Option Bytes → Option Bytes
block_of none = none
block_of (some s) = if length s == 0 || leb (2 ^ 64 - 1) (length s) then none else some s

-- `core_copy_init_config`
unfoldable pub copy_init_config : SubmitReplies → Option Config → Job → Err × Job
copy_init_config r config job = elim config [
  | none ↦ (actrust_ok, job)
  | some c ↦ elim (block_of c.claim_cert) [
    | none ↦ (core_err invalid_arg, job)
    | some cert ↦ elim (block_of c.claim_key) [
      | none ↦ (core_err invalid_arg, job)
      | some key ↦
          if not r.mem_cert
          then (core_err no_mem, job)
          else if not r.mem_key
          then (core_err no_mem, record job { claim_cert = none })
          else (
            actrust_ok,
            record job { claim_cert = some cert; claim_key = some key; has_config = true },
          )
    ]
  ]
]

-- `core_copy_send_payload`
unfoldable pub copy_send_payload : SubmitReplies → Option Bytes → Job → Err × Job
copy_send_payload r data_in job = elim (block_of data_in) [
  | none ↦ (core_err invalid_arg, job)
  | some s ↦
      if not r.mem_payload
      then (core_err no_mem, job)
      else (actrust_ok, record job { payload = some s })
]

-- What `core_post_job` copies into the job of a submission.
abbrev pub copy_params : SubmitReplies → Submission → Job → Err × Job
copy_params r (with_config c) job = copy_init_config r c job
copy_params r (with_data d) job = copy_send_payload r d job
copy_params r (plain t) job = (actrust_ok, job)

-- `size` is CONFIG_ACTRUST_CORE_JOB_POOL_SIZE.
module _ (size : ℕ) (r : SubmitReplies) where
  -- `core_post_job` with its job allocated
  unfoldable pub post_allocated : Submission → ℕ → Pool → JobQueue → Err × Pool × JobQueue
  post_allocated s j p q =
      let (err, job) =
        copy_params r s (record (job_at p j) { type = type_of s; result = actrust_ok }) in
      let p' = record p { pool = set p.pool j job } in
      if is_err err
      then (err, (job_release size r.release_lock p' j).2, q)
      else let (err', q') = enqueue r.queue_lock r.queue_unlock r.queue_post q j in
        if is_err err'
        then (err', (job_release size r.release_lock p' j).2, q')
        else (actrust_ok, p', q')

  -- `core_post_job`
  unfoldable pub post_job : Submission → Pool → JobQueue → Err × Pool × JobQueue
  post_job s p q =
      let (err, handle, p') = job_alloc r.pool_lock p in
      elim handle [ none ↦ (err, p', q) | some j ↦ post_allocated s j p' q ]

  -- A state that a submission is let in from: `allow_registered` lets the registered one in too.
  unfoldable pub lets_in : CoreState → Bool → CoreState → Bool
  lets_in ready allow ready = true
  lets_in unregistered allow unregistered = true
  lets_in registered allow registered = true
  lets_in uninit allow uninit = true
  lets_in initing allow initing = true
  lets_in init_failed allow init_failed = true
  lets_in deinit allow deinit = true
  lets_in required allow registered = allow
  lets_in required allow st = false

  -- `core_submit_job`; `has_lock`, `pending` and `st` are what it finds in the context.
  unfoldable pub submit_job :
      Bool
      → Bool
      → CoreState
      → Submission
      → CoreState
      → Bool
      → Pool
      → JobQueue
      → Err × Pool × JobQueue
  submit_job has_lock pending st s required allow p q =
      if not (is_ok r.lifecycle)
      then (r.lifecycle, p, q)
      else if not has_lock || pending
      then (core_err bad_state, p, q)
      else if not (is_ok r.core_lock)
      then (r.core_lock, p, q)
      else if not (lets_in required allow st)
      then (core_err bad_state, p, q)
      else post_job s p q
