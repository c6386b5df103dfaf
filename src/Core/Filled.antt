-- ===== src/Core/Filled.antt =====
-- What a submission copies into its job.
use ant_chain_trust_sdk.Prelude.{◌≡◌, inl, inr, refl, true, Option, none, some, arith, Option-cases}
use ant_chain_trust_sdk.Errno.{actrust_ok, err_make}
use ant_chain_trust_sdk.Job.Pool.{job_init, job_send, Bytes, Job, zero_job, core_err}
use ant_chain_trust_sdk.Core.Submit.{
  Config, Submission, with_config, with_data, plain, type_of, SubmitReplies, block_of,
  copy_init_config, copy_send_payload, copy_params,
}

-- The job that a submission stands for.
abbrev pub job_of : Submission → Job
job_of (with_config none) = record zero_job { refcnt = 1; type = job_init }
job_of (with_config (some c)) = record zero_job {
  refcnt = 1;
  type = job_init;
  has_config = true;
  claim_cert = c.claim_cert;
  claim_key = c.claim_key;
}
job_of (with_data d) = record zero_job { refcnt = 1; type = job_send; payload = d }
job_of (plain t) = record zero_job { refcnt = 1; type = t }

-- The job that is filled in.
abbrev pub started : Submission → Job → Job
started s job = record job { type = type_of s; result = actrust_ok }

abbrev pub blank : Submission → Job
blank s = record zero_job { refcnt = 1; type = type_of s }

-- A block that is taken is the one that was given.
block_of-same : (b : Option Bytes) (s : Bytes) → block_of b ≡ some s → b ≡ some s
block_of-same none s h = absurd (ground arith)
block_of-same (some t) s h = ground arith

copy_config-filled :
    (r : SubmitReplies) (c : Config)
    → (copy_init_config r (some c) (blank (with_config (some c)))).0 ≡ actrust_ok
    → (copy_init_config r (some c) (blank (with_config (some c)))).1 ≡ job_of (with_config (some c))
unfolding copy_init_config core_err err_make
copy_config-filled r c = elim (Option-cases (block_of c.claim_cert)) [
  | inl e ↦ rw (e, copy_init_config) (λ h. absurd (ground arith))
  | inr (cert, e1) ↦ elim (Option-cases (block_of c.claim_key)) [
    | inl e ↦ rw (e1, copy_init_config, e) (λ h. absurd (ground arith))
    | inr (key, e2) ↦
        let same1 = block_of-same c.claim_cert cert e1 in
        let same2 = block_of-same c.claim_key key e2 in
        rw (e1, copy_init_config, e2) (λ h. ground (arith, same1, same2))
  ]
]

-- A copy that succeeds makes that job.
pub copy_params-filled :
    (r : SubmitReplies) (s : Submission)
    → (copy_params r s (blank s)).0 ≡ actrust_ok
    → (copy_params r s (blank s)).1 ≡ job_of s
unfolding copy_init_config copy_send_payload core_err err_make
copy_params-filled r (with_config none) h = refl
copy_params-filled r (with_config (some c)) h = copy_config-filled r c h
copy_params-filled r (with_data d) h = elim (Option-cases (block_of d)) [
  | inl e ↦ absurd (ground arith)
  | inr (b, e) ↦ let same = block_of-same d b e in ground arith
]
copy_params-filled r (plain t) h = refl
