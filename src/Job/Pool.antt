-- ===== src/Job/Pool.antt =====
-- The job pool of core_job.c. A job is named by its index in the pool. The result of an adapter
-- call that can fail is an argument of the operation that makes the call; the results of unlocking
-- are discarded by the code and take no argument.
pub mod Invariant
pub mod Calls
pub mod Laws
use ant_chain_trust_sdk.Prelude.{
  ℕ, zero, suc, ◌+◌, ◌-◌, ◌%◌, ◌^◌, Bool, true, false, ◌&&◌, not, Option, none, some, List, [], ◌∷◌,
  ◌++◌, length, get_or, set, replicate, ltb, leb, ◌==◌, if◌then◌else◌,
}
use ant_chain_trust_sdk.Errno.{
  Err, actrust_ok, err_make, module_core, invalid_arg, bad_state, no_resource, is_ok,
}

abbrev pub Bytes : Type 0
Bytes = List ℕ

-- `CORE_ERR`
unfoldable pub core_err : ℕ → Err
core_err reason = err_make module_core reason

-- `actrust_job_type_t`
pub data JobType : Type 0 where
  job_none job_init job_connect job_disconnect job_register job_send job_deinit : JobType

-- `actrust_job_t`. The two views of the union `params` are kept side by side: the code reads each
-- only under its own job type, and clears both when a job is allocated. A block is its bytes, and
-- a null pointer is `none`; the code's lengths leave out the NUL that ends a block.
pub record Job : Type 0 where
  pub type : JobType
  pub refcnt : ℕ
  pub result : Err
  pub has_config : Bool
  pub claim_cert : Option Bytes
  pub claim_key : Option Bytes
  pub payload : Option Bytes

-- `memset(job, 0, sizeof(*job))`
abbrev pub zero_job : Job
zero_job = record {
  type = job_none;
  refcnt = 0;
  result = actrust_ok;
  has_config = false;
  claim_cert = none;
  claim_key = none;
  payload = none;
}

-- `actrust_job_pool_t`; `free_count` is `free_top + 1`, and `mutex` says that the mutex exists.
pub record Pool : Type 0 where
  pub pool : List Job
  pub free_indices : List ℕ
  pub free_count : ℕ
  pub mutex : Bool

abbrev pub job_at : Pool → ℕ → Job
job_at p j = get_or p.pool j zero_job

abbrev pub uint8_max : ℕ
uint8_max = 255

unfoldable pub counting : ℕ → ℕ → List ℕ
counting i zero = []
counting i (suc n) = i ∷ counting (i + 1) n

-- `actrust_secure_free`: the block that goes back to the allocator, and what it holds then.
unfoldable pub secure_free : Option Bytes → List Bytes
secure_free none = []
secure_free (some block) = replicate (length block) 0 ∷ []

-- `ACTRUST_FREE` of a block that need not be erased.
unfoldable pub plain_free : Option Bytes → List Bytes
plain_free none = []
plain_free (some block) = block ∷ []

-- The blocks that the last release gives back, by the type of the job.
unfoldable pub blocks_of : JobType → Job → List Bytes
blocks_of job_init job = secure_free job.claim_cert ++ secure_free job.claim_key
blocks_of job_send job = plain_free job.payload
blocks_of _ job = []

-- The job after the last release.
unfoldable pub cleared : JobType → Job → Job
cleared job_init job = record job {
  type = job_none;
  refcnt = 0;
  result = actrust_ok;
  has_config = false;
  claim_cert = none;
  claim_key = none;
}
cleared job_send job = record job {
  type = job_none;
  refcnt = 0;
  result = actrust_ok;
  payload = none;
}
cleared _ job = record job { type = job_none; refcnt = 0; result = actrust_ok }

-- `actrust_job_pool_deinit`
unfoldable pub pool_deinit : Err → Pool → Err × Pool
pool_deinit destroy p =
    if not p.mutex
    then (actrust_ok, p)
    else if is_ok destroy
    then (destroy, record p { mutex = false })
    else (destroy, p)

-- `actrust_job_alloc`: the job popped off the free stack, cleared and held once.
unfoldable pub job_alloc : Err → Pool → Err × Option ℕ × Pool
job_alloc lock p =
    if not (is_ok lock)
    then (lock, none, p)
    else if p.free_count == 0
    then (core_err no_resource, none, p)
    else let idx = get_or p.free_indices (p.free_count - 1) 0 in
      (
        actrust_ok,
        some idx,
        record p {
          free_count = p.free_count - 1;
          pool = set p.pool idx (record zero_job { refcnt = 1 });
        },
      )

-- `actrust_job_retain`
unfoldable pub job_retain : Err → Pool → ℕ → Err × Pool
job_retain lock p j =
    if not (is_ok lock)
    then (lock, p)
    else if (job_at p j).refcnt == 0
    then (core_err bad_state, p)
    else if (job_at p j).refcnt == uint8_max
    then (core_err no_resource, p)
    else (
      actrust_ok,
      record p { pool = set p.pool j (record (job_at p j) { refcnt = (job_at p j).refcnt + 1 }) },
    )

-- `size` is CONFIG_ACTRUST_CORE_JOB_POOL_SIZE.
module _ (size : ℕ) where
  -- `actrust_job_pool_init`; `create` is the result of creating the mutex.
  unfoldable pub pool_init : Err → Err × Pool
  pool_init create = (
    create,
    record {
      pool = replicate size zero_job;
      free_indices = counting 0 size;
      free_count = size;
      mutex = is_ok create;
    },
  )

  -- The end of a job's life: its blocks are freed and its index is pushed on the free stack.
  unfoldable pub job_recycle : Pool → ℕ → Err × List Bytes × Pool
  job_recycle p j =
      let job = job_at p j in
      let p' = record p { pool = set p.pool j (cleared job.type job) } in
      if leb size j then (core_err invalid_arg, blocks_of job.type job, p') else (
        actrust_ok,
        blocks_of job.type job,
        record p' {
          free_count = p.free_count + 1;
          free_indices = set p.free_indices p.free_count j;
        },
      )

  -- `actrust_job_release`; the list is what goes back to the allocator.
  unfoldable pub job_release : Err → Pool → ℕ → Err × List Bytes × Pool
  job_release lock p j =
      if not (is_ok lock)
      then (lock, [], p)
      else if (job_at p j).refcnt == 0
      then (core_err bad_state, [], p)
      else if (job_at p j).refcnt == 1
      then job_recycle p j
      else (
        actrust_ok,
        [],
        record p { pool = set p.pool j (record (job_at p j) { refcnt = (job_at p j).refcnt - 1 }) },
      )
