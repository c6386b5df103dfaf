-- ===== src/Job/Pool/Invariant.antt =====
-- The pool's invariant: the free stack holds exactly the jobs that nobody references, each once.
use native.Mathlib.Decide.{ℕ_discrete}
use ant_chain_trust_sdk.Prelude.{
  ℕ, zero, suc, ◌+◌, ◌-◌, ◌<◌, ◌≤◌, ◌≡◌, ◌≢◌, ◌⊎◌, ◌∙◌, inl, inr, List, [], ◌∷◌, length, get_or,
  set, arith, length-set, get_or-set_self, get_or-set_ne, ◌==◌, if◌then◌else◌,
}
use ant_chain_trust_sdk.Job.Pool.{Job, Pool, zero_job, job_at, uint8_max}

-- How many jobs are referenced.
unfoldable pub busy : List Job → ℕ
busy [] = 0
busy (j ∷ js) = (if j.refcnt == 0 then 0 else 1) + busy js

-- One job set anew.
abbrev pub weight : Job → ℕ
weight j = if j.refcnt == 0 then 0 else 1

pub busy-set :
    (js : List Job) (i : ℕ) (job : Job)
    → i < length js
    → busy (set js i job) + weight (get_or js i zero_job) ≡ busy js + weight job
unfolding busy
busy-set [] i job h = absurd (omega arith)
busy-set (x ∷ js) zero job h = omega arith
busy-set (x ∷ js) (suc i) job h = omega (arith, busy-set js i job (omega arith))

abbrev pub free_at : Pool → ℕ → ℕ
free_at p i = get_or p.free_indices i 0

pub record IsValid (size : ℕ) (p : Pool) : Type 0 where
  pub jobs : length p.pool ≡ size
  pub slots : length p.free_indices ≡ size
  pub balance : busy p.pool + p.free_count ≡ size
  pub listed :
      (i : ℕ) → i < p.free_count → (free_at p i < size) × ((job_at p (free_at p i)).refcnt ≡ 0)
  pub distinct : (i k : ℕ) → i < k → k < p.free_count → free_at p i ≢ free_at p k
  pub complete :
      (j : ℕ)
      → j < size
      → (job_at p j).refcnt ≡ 0
      → (i : ℕ) × (i < p.free_count) × (free_at p i ≡ j)
  pub counts : (j : ℕ) → (job_at p j).refcnt ≤ uint8_max

-- The job at `k` after the one at `j` is set.
abbrev After : List Job → ℕ → Job → ℕ → Type 0
After js j job k =
    ((j ≡ k) × (get_or (set js j job) k zero_job ≡ job))
    ⊎ ((j ≢ k) × (get_or (set js j job) k zero_job ≡ get_or js k zero_job))

job_set : (js : List Job) (j : ℕ) (job : Job) (k : ℕ) → j < length js → After js j job k
job_set js j job k h = elim (ℕ_discrete j k) [
  | yes e ↦ inl (e, rw (← e) (get_or-set_self js j job zero_job h))
  | no ne ↦ inr (ne, get_or-set_ne js j k job zero_job ne)
]

-- Setting a referenced job anew, still referenced.
pub held-IsValid :
    (size : ℕ) (p : Pool) (j : ℕ) (job : Job)
    → j < size
    → (job_at p j).refcnt ≢ 0
    → job.refcnt ≢ 0
    → job.refcnt ≤ uint8_max
    → IsValid size p
    → IsValid size (record p { pool = set p.pool j job })
held-IsValid size p j job h was is small v =
    let there : j < length p.pool = omega (arith, v.jobs) in
    record {
      jobs = length-set p.pool j job ∙ v.jobs;
      slots = v.slots;
      balance = ground (arith, busy-set p.pool j job there, v.balance);
      listed = λ i hi. ground (arith, v.listed i hi, job_set p.pool j job (free_at p i) there);
      distinct = v.distinct;
      complete = λ k hk e. v.complete k hk (ground (arith, job_set p.pool j job k there));
      counts = λ k. ground (arith, job_set p.pool j job k there, v.counts k);
    }

-- A free index other than the top one lies below it.
below_top :
    (p : Pool) (i k : ℕ)
    → i < p.free_count
    → free_at p i ≡ k
    → free_at p (p.free_count - 1) ≢ k
    → i < p.free_count - 1
below_top p i k h at ne = elim (ℕ_discrete i (p.free_count - 1)) [
  | yes e ↦ absurd (ne (rw (← e) at))
  | no below ↦ omega arith
]

-- The free stack after a push at `top`.
slot_set :
    (fs : List ℕ) (top j i : ℕ)
    → top < length fs
    → ((top ≡ i) × (get_or (set fs top j) i 0 ≡ j))
      ⊎ ((top ≢ i) × (get_or (set fs top j) i 0 ≡ get_or fs i 0))
slot_set fs top j i h = elim (ℕ_discrete top i) [
  | yes e ↦ inl (e, rw (← e) (get_or-set_self fs top j 0 h))
  | no ne ↦ inr (ne, get_or-set_ne fs top i j 0 ne)
]

-- A referenced job is not on the free stack.
not_free :
    (size : ℕ) (p : Pool) (j i : ℕ)
    → IsValid size p
    → (job_at p j).refcnt ≢ 0
    → i < p.free_count
    → free_at p i ≢ j
not_free size p j i v was hi e = was (rw (← e) (v.listed i hi).1)

-- Popping the free stack: the index and the job that holds it.
pub alloc-IsValid :
    (size : ℕ) (p : Pool) (job : Job)
    → job.refcnt ≡ 1
    → p.free_count ≢ 0
    → IsValid size p
    → IsValid size (record p {
      free_count = p.free_count - 1;
      pool = set p.pool (free_at p (p.free_count - 1)) job;
    })
alloc-IsValid size p job one some_free v =
    let top = v.listed (p.free_count - 1) (omega arith) in
    let j = free_at p (p.free_count - 1) in
    let there : j < length p.pool = omega (arith, v.jobs) in
    record {
      jobs = length-set p.pool j job ∙ v.jobs;
      slots = v.slots;
      balance = ground (arith, busy-set p.pool j job there, v.balance);
      listed = λ i hi. ground (
        arith,
        v.listed i (omega arith),
        v.distinct i (p.free_count - 1) (omega arith) (omega arith),
        job_set p.pool j job (free_at p i) there,
      );
      distinct = λ i k hik hk. v.distinct i k hik (omega arith);
      complete = λ k hk e.
          let old : ((job_at p k).refcnt ≡ 0) × (j ≢ k) =
            ground (arith, job_set p.pool j job k there) in
          let (i, hi, at) = v.complete k hk old.0 in (i, below_top p i k hi at old.1, at);
      counts = λ k. ground (arith, job_set p.pool j job k there, v.counts k);
    }

-- Pushing the index of a job that loses its last reference.
pub recycle-IsValid :
    (size : ℕ) (p : Pool) (j : ℕ) (job : Job)
    → j < size
    → (job_at p j).refcnt ≢ 0
    → job.refcnt ≡ 0
    → IsValid size p
    → IsValid size (record p {
      pool = set p.pool j job;
      free_count = p.free_count + 1;
      free_indices = set p.free_indices p.free_count j;
    })
recycle-IsValid size p j job h was is v =
    let there : j < length p.pool = omega (arith, v.jobs) in
    let balanced = busy-set p.pool j job there in
    let slot : p.free_count < length p.free_indices =
      ground (arith, balanced, v.balance, v.slots) in
    record {
      jobs = length-set p.pool j job ∙ v.jobs;
      slots = length-set p.free_indices p.free_count j ∙ v.slots;
      balance = ground (arith, balanced, v.balance);
      listed = λ i hi. elim (slot_set p.free_indices p.free_count j i slot) [
        | inl (e, at) ↦ rw at (h, rw (get_or-set_self p.pool j job zero_job there) is)
        | inr (ne, at) ↦
            let old = v.listed i (omega arith) in
            rw at (old.0, ground (arith, old.1, job_set p.pool j job (free_at p i) there))
      ];
      distinct = λ i k hik hk. ground (
        arith,
        slot_set p.free_indices p.free_count j i slot,
        slot_set p.free_indices p.free_count j k slot,
        not_free size p j i v was,
        v.distinct i k hik,
      );
      complete = λ k hk e. elim (job_set p.pool j job k there) [
        | inl (same, _) ↦
            (p.free_count, omega arith, get_or-set_self p.free_indices p.free_count j 0 slot ∙ same)
        | inr (ne, at) ↦
            let (i, hi, old) = v.complete k hk (rw at at e) in
            (i, omega arith, get_or-set_ne p.free_indices p.free_count i j 0 (omega arith) ∙ old)
      ];
      counts = λ k. ground (arith, job_set p.pool j job k there, v.counts k);
    }
