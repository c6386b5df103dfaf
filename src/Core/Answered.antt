-- ===== src/Core/Answered.antt =====
-- `core_ops_register`, whole: when a device counts as registered.
use ant_chain_trust_sdk.Prelude.{
  ◌+◌, ◌*◌, ◌≡◌, ◌≢◌, ◌⊎◌, inl, inr, refl, true, false, length, ltb, arith, Bool-cases,
}
use ant_chain_trust_sdk.Errno.{
  Outcome, fail, done, Outcome-cases, actrust_ok, is_ok, is_err, err_make,
}
use ant_chain_trust_sdk.Job.Pool.{core_err}
use ant_chain_trust_sdk.Json.Chars.{Bytes}
use ant_chain_trust_sdk.Json.View.{CoreJson}
use ant_chain_trust_sdk.Core.Handshake.{Registration, serve}
use ant_chain_trust_sdk.Core.Context.{Context, unregistered, registered}
use ant_chain_trust_sdk.Core.Ops.{persist_registered, commit_registered}
use ant_chain_trust_sdk.Core.Register.{
  RegisterReplies, Traffic, make_keypair, begin_registration, shake_hands, end_registration,
  do_register, is_unregistered, ops_register,
}
use ant_chain_trust_sdk.Core.Agreed.{IsHonest, AreHonest, failed, Answered, shake_hands-ok}

module _ (json : CoreJson) (r : RegisterReplies) (t : Traffic) (honest : AreHonest r) where
  make_keypair-IsHonest :
      (c : Context)
      → IsHonest (make_keypair json r t c).0
        × ((make_keypair json r t c).1.state ≡ c.state)
        × ((key : Bytes)
            → (make_keypair json r t c).0 ≡ done key
            → (make_keypair json r t c).1.sign_key ≡ true)
  unfolding make_keypair core_err err_make
  make_keypair-IsHonest c = elim (Bool-cases (is_ok r.key_generate)) [
    | inr bad ↦ rw (make_keypair, bad) (λ e. ground arith, refl, λ key h. absurd (ground arith))
    | inl good ↦ elim (Outcome-cases r.pubkey) [
      | inl (e, q) ↦ rw (make_keypair, good, q) (failed _ e honest.pubkey q, refl, λ key h. refl)
      | inr (der, q) ↦ elim (Bool-cases (ltb 257 (length der * 2 + 1))) [
        | inl long ↦
            rw (make_keypair, good, q, long) (λ e. absurd (ground arith), refl, λ key h. refl)
        | inr short ↦ rw (make_keypair, good, q, short) (tt, refl, λ key h. refl)
      ]
    ]
  ]

  shake_hands-key :
      (pubkey : Outcome Bytes) (g : Registration)
      → IsHonest pubkey
      → (shake_hands json r t pubkey g).0 ≡ actrust_ok
      → (key : Bytes) × (pubkey ≡ done key)
  unfolding shake_hands
  shake_hands-key (fail e) g good = λ h. absurd (good h)
  shake_hands-key (done key) g good = λ h. (key, refl)

  do_register-Answered :
      (c : Context)
      → let (e, c') = do_register json r t c in
        (c'.state ≡ c.state)
        × (e ≡ actrust_ok
            → (c'.sign_key ≡ true) × (c'.reg.in_progress ≡ false) × Answered json r t honest)
  unfolding do_register end_registration
  do_register-Answered c = elim (Bool-cases (is_ok r.challenge_sem)) [
    | inr bad ↦ rw (do_register, bad) (refl, λ h. absurd (ground arith))
    | inl sem ↦ elim (Bool-cases (is_ok r.result_sem)) [
      | inr bad ↦ rw (do_register, sem, bad) (refl, λ h. absurd (ground arith))
      | inl sem' ↦
          rw (do_register, sem, sem')
            (
              made.1,
              λ h.
                  let (key, k) = shake_hands-key pubkey g made.0 h in
                  (
                    ground (arith, made.2 key k),
                    refl,
                    shake_hands-ok json r t honest pubkey g made.0 h,
                  ),
            )
    ]
  ]
    where
      pubkey : Outcome Bytes
      pubkey = (make_keypair json r t c).0

      g : Registration
      g = serve json t.at_start (begin_registration json r t c.reg)

      made :
          IsHonest pubkey
          × ((make_keypair json r t c).1.state ≡ c.state)
          × ((key : Bytes) → pubkey ≡ done key → (make_keypair json r t c).1.sign_key ≡ true)
      made = make_keypair-IsHonest c

  -- A registration ends in one of two ways. It succeeds: then the core was UNREGISTERED; among the
  -- messages that came while each was waited for is a challenge of the session that this registration
  -- drew, whose nonce fits its array and was signed, and a result of that session that says ok; the
  -- response with the signature was sent; the core is REGISTERED and holds its signing key, and no
  -- registration is in progress. Or it fails with an error and leaves the core's state as it was.
  -- Any other messages may come at any time. A call that gives no value is assumed to return an error.
  pub ops_register-Answered :
      (c : Context)
      → let (e, c') = ops_register json r t c in
        (e ≡ actrust_ok)
          × (c.state ≡ unregistered)
          × (c'.state ≡ registered)
          × (c'.sign_key ≡ true)
          × (c'.reg.in_progress ≡ false)
          × Answered json r t honest
        ⊎ (e ≢ actrust_ok) × (c'.state ≡ c.state)
  unfolding ops_register commit_registered core_err err_make
  ops_register-Answered c = elim (Bool-cases (is_unregistered json r t c.state)) [
    | inr bad ↦ rw (ops_register, bad) (inr (λ h. absurd (ground arith), refl))
    | inl up ↦
        let (same, won) = do_register-Answered c in
        elim (Bool-cases (is_err (do_register json r t c).0)) [
          | inl bad ↦ rw (ops_register, up, bad) (inr (λ h. ground arith, same))
          | inr fine ↦
              let (key, over, answered) = won (ground arith) in
              elim (Bool-cases (is_ok (persist_registered r.marker))) [
                | inr bad ↦
                    rw (ops_register, up, fine, commit_registered, bad)
                      (inr (λ h. ground arith, same))
                | inl kept ↦
                    rw (ops_register, up, fine, commit_registered, kept)
                      (inl (refl, ground arith, refl, key, over, answered))
              ]
        ]
  ]
