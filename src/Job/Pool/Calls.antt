-- ===== src/Job/Pool/Calls.antt =====
-- The pool's operations: the invariant over every sequence of calls, who is handed out, and what is
-- given back.
use ant_chain_trust_sdk.Prelude.{
  ℕ, ◌<◌, ◌≡◌, ◌≢◌, refl, inl, inr, false, arith, ◌==◌, Bool-cases, leb,
}
use ant_chain_trust_sdk.Errno.{Err, is_ok}
use ant_chain_trust_sdk.Job.Pool.{
  Job, JobType, Pool, job_at, uint8_max, job_alloc, job_retain, job_recycle, job_release, cleared,
  job_init, job_send,
}
use ant_chain_trust_sdk.Job.Pool.Invariant.{IsValid, held-IsValid, alloc-IsValid, recycle-IsValid}

refcnt-cleared : (t : JobType) (job : Job) → (cleared t job).refcnt ≡ 0
unfolding cleared
refcnt-cleared job_init job = refl
refcnt-cleared job_send job = refl
refcnt-cleared _ job = refl

module _ (size : ℕ) where
  pub job_alloc-IsValid :
      (lock : Err) (p : Pool) → IsValid size p → IsValid size (job_alloc lock p).2
  unfolding job_alloc
  job_alloc-IsValid lock p v = elim (Bool-cases (is_ok lock)) [
    | inr failed ↦ rw failed v
    | inl locked ↦ rw locked (elim (Bool-cases (p.free_count == 0)) [
      | inl empty ↦ rw empty v
      | inr more ↦ rw more (alloc-IsValid size p _ refl (ground arith) v)
    ])
  ]

  pub job_retain-IsValid :
      (lock : Err) (p : Pool) (j : ℕ)
      → j < size
      → IsValid size p
      → IsValid size (job_retain lock p j).1
  unfolding job_retain
  job_retain-IsValid lock p j h v = elim (Bool-cases (is_ok lock)) [
    | inr failed ↦ rw failed v
    | inl locked ↦ rw locked (elim (Bool-cases ((job_at p j).refcnt == 0)) [
      | inl unused ↦ rw unused v
      | inr used ↦ rw used (elim (Bool-cases ((job_at p j).refcnt == uint8_max)) [
        | inl full ↦ rw full v
        | inr fits ↦
            rw fits (
              held-IsValid size p j _ h (ground arith) (ground arith) (ground (arith, v.counts j))
                v)
      ])
    ])
  ]

  job_recycle-IsValid :
      (p : Pool) (j : ℕ)
      → j < size
      → (job_at p j).refcnt ≢ 0
      → IsValid size p
      → IsValid size (job_recycle size p j).2
  unfolding job_recycle
  job_recycle-IsValid p j h was v =
      let inside : leb size j ≡ false = ground arith in
      rw inside (recycle-IsValid size p j _ h was (refcnt-cleared _ (job_at p j)) v)

  pub job_release-IsValid :
      (lock : Err) (p : Pool) (j : ℕ)
      → j < size
      → IsValid size p
      → IsValid size (job_release size lock p j).2
  unfolding job_release
  job_release-IsValid lock p j h v = elim (Bool-cases (is_ok lock)) [
    | inr failed ↦ rw failed v
    | inl locked ↦ rw locked (elim (Bool-cases ((job_at p j).refcnt == 0)) [
      | inl unused ↦ rw unused v
      | inr used ↦ rw used (elim (Bool-cases ((job_at p j).refcnt == 1)) [
        | inl last ↦ rw last (job_recycle-IsValid p j h (ground arith) v)
        | inr more ↦
            rw more (
              held-IsValid size p j _ h (ground arith) (ground arith) (ground (arith, v.counts j))
                v)
      ])
    ])
  ]
