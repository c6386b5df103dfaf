-- ===== src/Job/Pool/Laws.antt =====
-- What the pool promises its callers: the invariant over every sequence of calls, who is handed
-- out, and what a job leaves behind.
use ant_chain_trust_sdk.Prelude.{
  ℕ, zero, suc, ◌+◌, ◌-◌, ◌<◌, ◌≡◌, ◌≢◌, ◌∙◌, sym, refl, ap, false, Option, none, some, List, [],
  ◌∷◌, length, get_or, replicate, arith, get_or-set_self, get_or-set_ne, length-replicate, ◌==◌,
  ◌⊎◌, inl, inr, Zero-cases, All,
}
use ant_chain_trust_sdk.Errno.{Err, actrust_ok, no_resource}
use ant_chain_trust_sdk.Job.Pool.{
  Job, Pool, Bytes, zero_job, job_at, counting, pool_init, job_alloc, job_retain, job_release,
  core_err,
}
use ant_chain_trust_sdk.Job.Pool.Invariant.{IsValid, busy, busy-set, free_at}
use ant_chain_trust_sdk.Job.Pool.Calls.{job_alloc-IsValid, job_retain-IsValid, job_release-IsValid}

-- A caller's call, with the result of locking; jobs are named by their indices.
pub data Call : Type 0 where
  allocate : Err → Call
  retain release : Err → ℕ → Call

-- Callers name jobs of the pool only.
abbrev pub InPool : ℕ → Call → Type 0
InPool size (allocate lock) = Unit {0}
InPool size (retain lock j) = j < size
InPool size (release lock j) = j < size

pub step : ℕ → Pool → Call → Pool
step size p (allocate lock) = (job_alloc lock p).2
step size p (retain lock j) = (job_retain lock p j).1
step size p (release lock j) = (job_release size lock p j).2

pub run : ℕ → Pool → List Call → Pool
run size p [] = p
run size p (c ∷ cs) = run size (step size p c) cs

get_or-counting : (i n k : ℕ) → k < n → get_or (counting i n) k 0 ≡ i + k
unfolding counting
get_or-counting i zero k h = absurd (omega arith)
get_or-counting i (suc n) zero h = omega arith
get_or-counting i (suc n) (suc k) h = omega (arith, get_or-counting (i + 1) n k (omega arith))

length-counting : (i n : ℕ) → length (counting i n) ≡ n
unfolding counting
length-counting i zero = refl
length-counting i (suc n) = ap suc (length-counting (i + 1) n)

busy-fresh : (n : ℕ) → busy (replicate n zero_job) ≡ 0
unfolding busy
busy-fresh zero = refl
busy-fresh (suc n) = omega (arith, busy-fresh n)

job_at-fresh : (n j : ℕ) → get_or (replicate n zero_job) j zero_job ≡ zero_job
job_at-fresh zero j = refl
job_at-fresh (suc n) zero = refl
job_at-fresh (suc n) (suc j) = job_at-fresh n j

pub pool_init-IsValid : (size : ℕ) (create : Err) → IsValid size (pool_init size create).1
unfolding pool_init
pool_init-IsValid size create = record {
  jobs = length-replicate size zero_job;
  slots = length-counting 0 size;
  balance = omega (arith, busy-fresh size);
  listed = λ i hi. (
    omega (arith, get_or-counting 0 size i hi),
    rw (job_at-fresh size (get_or (counting 0 size) i 0)),
  );
  distinct = λ i k hik hk.
      omega (arith, get_or-counting 0 size i (omega arith), get_or-counting 0 size k hk);
  complete = λ j hj e. (j, hj, get_or-counting 0 size j hj ∙ omega arith);
  counts = λ j. rw (job_at-fresh size j) (omega arith);
}

step-IsValid :
    (size : ℕ) (p : Pool) (c : Call) → InPool size c → IsValid size p → IsValid size (step size p c)
unfolding step
step-IsValid size p (allocate lock) h v = job_alloc-IsValid size lock p v
step-IsValid size p (retain lock j) h v = job_retain-IsValid size lock p j h v
step-IsValid size p (release lock j) h v = job_release-IsValid size lock p j h v

run-IsValid_from :
    (size : ℕ) (cs : List Call) (p : Pool)
    → All (InPool size) cs
    → IsValid size p
    → IsValid size (run size p cs)
unfolding run
run-IsValid_from size [] p h v = v
run-IsValid_from size (c ∷ cs) p h v =
    run-IsValid_from size cs (step size p c) h.1 (step-IsValid size p c h.0 v)

-- After any sequence of calls on jobs of the pool, whichever of them fail to lock, the pool's
-- invariant holds: the free stack lists the unreferenced jobs, each once, and its length and the
-- number of referenced jobs make up the pool.
pub run-IsValid :
    (size : ℕ) (create : Err) (cs : List Call)
    → All (InPool size) cs
    → IsValid size (run size (pool_init size create).1 cs)
run-IsValid size create cs h = run-IsValid_from size cs _ h (pool_init-IsValid size create)

-- What a successful allocation hands out.
pub record HandsOut (size : ℕ) (p : Pool) (r : Err × Option ℕ × Pool) (j : ℕ) : Type 0 where
  pub code : r.0 ≡ actrust_ok
  pub handle : r.1 ≡ some j
  pub inside : j < size
  pub unused : (job_at p j).refcnt ≡ 0
  pub clean : job_at r.2 j ≡ record zero_job { refcnt = 1 }
  pub others : (k : ℕ) → k ≢ j → job_at r.2 k ≡ job_at p k
  pub one_more : busy r.2.pool ≡ busy p.pool + 1

-- Under the lock, either every job is referenced, and allocation fails with NO_RESOURCE and changes
-- nothing; or some job is not, and allocation hands out a job that nobody referenced, zeroed but
-- for one reference, and leaves every other job as it was.
pub job_alloc_lem :
    (size : ℕ) (p : Pool)
    → IsValid size p
    → (busy p.pool ≡ size) × (job_alloc actrust_ok p ≡ (core_err no_resource, none, p))
      ⊎ (busy p.pool < size) × ((j : ℕ) × HandsOut size p (job_alloc actrust_ok p) j)
unfolding job_alloc
job_alloc_lem size p v = elim (Zero-cases p.free_count) [
  | inl none_left ↦ inl (omega (arith, v.balance), ground (arith, none_left))
  | inr some_left ↦ inr (
    omega (arith, v.balance),
    let more : (p.free_count == 0) ≡ false = ground (arith, v.balance) in
        let top = v.listed (p.free_count - 1) (ground arith) in
        let j = free_at p (p.free_count - 1) in
        let there : j < length p.pool = omega (arith, v.jobs) in
        (
          j,
          rw more (record {
            code = refl;
            handle = refl;
            inside = top.0;
            unused = top.1;
            clean = get_or-set_self p.pool j _ zero_job there;
            others = λ k ne. get_or-set_ne p.pool j k _ zero_job (λ e. ne (sym e));
            one_more = ground (arith, busy-set p.pool j (record zero_job { refcnt = 1 }) there);
          }),
        ),
  )
]

-- A block of zeros.
abbrev pub IsErased : Bytes → Type 0
IsErased = All (λ b. b ≡ 0)
