-- ===== src/Core/Init.antt =====
-- What an initialization leaves.
use ant_chain_trust_sdk.Prelude.{
  ◌≡◌, ◌≢◌, ◌⊎◌, inl, inr, refl, Bool, true, false, ◌&&◌, not, ◌==◌, if◌then◌else◌, arith,
  Bool-cases,
}
use ant_chain_trust_sdk.Errno.{Err, actrust_ok, is_ok, is_err, err_code, no_resource}
use ant_chain_trust_sdk.Core.Context.{Context, init_failed, ready, set_state}
use ant_chain_trust_sdk.Core.Ops.{
  InitReplies, read_local_registered, prepare_signing_key, store_claim_credentials, fail_crypto,
  fail_ntp, fail_cloud, init_keys, ops_init,
}
use ant_chain_trust_sdk.Core.Tidy.{IsTidy, IsBare}

-- No task runs.
record IsIdle (c : Context) : Type 0 where
  no_downlink : c.downlink_task ≡ false
  no_ntp_task : c.ntp_task ≡ false
  no_tasks : c.ntp_tasks ≡ 0
  no_downlinks : c.downlink_tasks ≡ 0

-- What an initialization that fails leaves.
pub record Failed (r : InitReplies) (e : Err) (c : Context) : Type 0 where
  pub is_error : e ≢ actrust_ok
  pub down : c.state ≡ init_failed
  pub tidy : IsTidy c
  pub no_cloud : c.cloud ≡ false
  pub no_ntp : c.ntp ≡ false
  pub released : r.key_close ≡ actrust_ok → r.crypto_deinit ≡ actrust_ok → IsBare c

fail_crypto-Failed :
    (r : InitReplies) (err : Err) (c : Context)
    → err ≢ actrust_ok
    → IsIdle c
    → c.cloud ≡ false
    → c.downlink_queue ≡ false
    → c.ntp ≡ false
    → Failed r (fail_crypto r err c).0 (fail_crypto r err c).1
unfolding fail_crypto
fail_crypto-Failed r err c bad idle no_cloud no_queue no_ntp = record {
  is_error = ground arith;
  down = ground arith;
  tidy = ground arith;
  no_cloud = ground arith;
  no_ntp = ground arith;
  released = λ k d. ground arith;
}

-- What an initialization leaves.
abbrev Settled : InitReplies → Err × Context → Type 0
Settled r x = (x.0 ≡ actrust_ok) × (x.1.state ≡ ready) × IsTidy x.1 ⊎ Failed r x.0 x.1

prepare-Idle :
    (r : InitReplies) (local : Bool) (c : Context)
    → IsIdle c
    → IsIdle (prepare_signing_key r local c).1
      × ((prepare_signing_key r local c).1.ntp ≡ c.ntp)
      × ((prepare_signing_key r local c).1.cloud ≡ c.cloud)
      × ((prepare_signing_key r local c).1.downlink_queue ≡ c.downlink_queue)
      × ((prepare_signing_key r local c).1.crypto ≡ c.crypto)
unfolding prepare_signing_key
prepare-Idle r local c idle = ground arith

fail_cloud-Failed :
    (r : InitReplies) (err : Err) (c : Context)
    → err ≢ actrust_ok
    → IsIdle c
    → Failed r (fail_cloud r err c).0 (fail_cloud r err c).1
unfolding fail_cloud fail_ntp
fail_cloud-Failed r err c bad idle =
    fail_crypto-Failed r err (record c { cloud = false; downlink_queue = false; ntp = false }) bad
      (ground arith) refl refl refl

init_keys-Settled :
    (r : InitReplies) (local : Bool) (c : Context)
    → IsIdle c
    → c.ntp ≡ true
    → c.cloud ≡ true
    → c.downlink_queue ≡ true
    → c.crypto ≡ true
    → Settled r (init_keys r local c)
unfolding init_keys
init_keys-Settled r local c idle ntp cloud queue crypto =
    let (idle', n, l, q, y) = prepare-Idle r local c idle in
    let c' = (prepare_signing_key r local c).1 in
    elim (Bool-cases (is_ok (prepare_signing_key r local c).0)) [
      | inr bad ↦ rw (bad, init_keys) (inr (fail_cloud-Failed r _ c' (λ e. ground arith) idle'))
      | inl good ↦ elim (Bool-cases (is_ok (store_claim_credentials r))) [
        | inr bad ↦
            rw (good, init_keys, bad) (inr (fail_cloud-Failed r _ c' (λ e. ground arith) idle'))
        | inl stored ↦ rw (good, init_keys, stored) (inl (refl, refl, ground arith))
      ]
    ]

-- An initialization of a core that holds nothing succeeds and leaves it READY with its components; or
-- it fails with an error, and leaves it INIT_FAILED with no cloud and no NTP client. Then it holds
-- nothing, if the calls that release the key and the crypto context succeeded.
pub ops_init-Settled :
    (r : InitReplies) (c : Context)
    → IsBare c
    → let (e, c') = ops_init r c in
      (e ≡ actrust_ok) × (c'.state ≡ ready) × IsTidy c' ⊎ Failed r e c'
unfolding ops_init fail_ntp
ops_init-Settled r c b =
    let c1 = record c { crypto = true } in
    let (err, found) = read_local_registered r.marker in
    let local = if err_code err == no_resource then false else found in
    elim (Bool-cases (is_ok r.kv)) [
      | inr bad ↦ rw (bad, ops_init) (inr (stopped r r.kv c (λ e. ground arith) b))
      | inl kv ↦ elim (Bool-cases (is_ok r.crypto)) [
        | inr bad ↦ rw (kv, ops_init, bad) (inr (stopped r r.crypto c (λ e. ground arith) b))
        | inl crypto ↦ elim (Bool-cases (is_err err && not (err_code err == no_resource))) [
          | inl bad ↦
              rw (kv, ops_init, crypto, bad)
                (inr (
                  fail_crypto-Failed r err c1 (λ e. ground arith) (ground arith) b.no_cloud
                    b.no_queue b.no_ntp))
          | inr read ↦ elim (Bool-cases (is_ok r.ntp)) [
            | inr bad ↦
                rw (kv, ops_init, crypto, read, bad)
                  (inr (
                    fail_crypto-Failed r r.ntp c1 (λ e. ground arith) (ground arith) b.no_cloud
                      b.no_queue b.no_ntp))
            | inl ntp ↦ elim (Bool-cases (is_ok r.cloud)) [
              | inr bad ↦
                  rw (kv, ops_init, crypto, read, ntp, bad, fail_ntp)
                    (inr (
                      fail_crypto-Failed r r.cloud (record c1 { ntp = false }) (λ e. ground arith)
                        (ground arith) b.no_cloud b.no_queue refl))
              | inl cloud ↦
                  rw (kv, ops_init, crypto, read, ntp, cloud)
                    (init_keys-Settled r local
                      (record c1 { ntp = true; cloud = true; downlink_queue = true }) (ground arith)
                      refl refl refl refl)
            ]
          ]
        ]
      ]
    ]
  where
    stopped :
        (r : InitReplies) (e : Err) (c : Context)
        → e ≢ actrust_ok
        → IsBare c
        → Failed r e (set_state init_failed c)
    stopped r e c bad b = record {
      is_error = bad;
      down = refl;
      tidy = ground arith;
      no_cloud = b.no_cloud;
      no_ntp = b.no_ntp;
      released = λ k d. ground arith;
    }
