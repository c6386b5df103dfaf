-- ===== src/Core/Registered.antt =====
-- What a registration that succeeds has gone through.
use ant_chain_trust_sdk.Prelude.{
  ◌<◌, ◌≡◌, ◌≢◌, ◌⊎◌, inl, inr, refl, sym, ap, ◌∙◌, true, false, List, [], ◌∷◌, ◌++◌, length, arith,
  Bool-cases, Option-cases, subst,
}
use ant_chain_trust_sdk.Errno.{actrust_ok, is_err, err_make}
use ant_chain_trust_sdk.Job.Pool.{core_err}
use ant_chain_trust_sdk.Json.Chars.{Bytes}
use ant_chain_trust_sdk.Json.View.{CoreJson}
use ant_chain_trust_sdk.Core.Handshake.{
  wait_challenge, wait_result, Registration, Delivery, nonce_max, dispatch, serve,
}
use ant_chain_trust_sdk.Core.Answers.{
  Keeps, Same, Has, Challenges, Confirms, Heard, Told, dispatch-Keeps, dispatch-Heard,
  dispatch-Told,
}
use ant_chain_trust_sdk.Core.Register.{
  RegisterReplies, Traffic, sem_wait, await_challenge, open_challenge, await_result, open_result,
}

Has-append :
    (P : Delivery → Type 0) (ds es : List Delivery) → Has P ds ⊎ Has P es → Has P (ds ++ es)
Has-append P [] es (inl x) = absurd x
Has-append P [] es (inr h) = h
Has-append P (d ∷ ds) es (inl (inl p)) = inl p
Has-append P (d ∷ ds) es (inl (inr h)) = inr (Has-append P ds es (inl h))
Has-append P (d ∷ ds) es (inr h) = inr (Has-append P ds es (inr h))

module _ (json : CoreJson) where
  pub serve-Keeps : (ds : List Delivery) (g : Registration) → Keeps g (serve json ds g)
  unfolding serve
  serve-Keeps [] g = record { same_session = refl; same_phase = refl; same_progress = refl }
  serve-Keeps (d ∷ ds) g =
      let k = dispatch-Keeps json d g in
      let rest = serve-Keeps ds (dispatch json d g) in
      record {
        same_session = rest.same_session ∙ k.same_session;
        same_phase = rest.same_phase ∙ k.same_phase;
        same_progress = rest.same_progress ∙ k.same_progress;
      }

  -- What messages do while a challenge is waited for.
  abbrev Heards : List Delivery → Registration → Registration → Type 0
  Heards ds g g' =
      (g'.ok ≡ false)
      ⊎ Same g g'
      ⊎ Has (Challenges json g.session_id g'.nonce) ds
        × (g'.nonce_len ≡ length g'.nonce)
        × (length g'.nonce < nonce_max)

  Heards-next :
      (d : Delivery) (ds : List Delivery) (g g1 g' : Registration)
      → g1.session_id ≡ g.session_id
      → Heard json d g g1
      → Heards ds g1 g'
      → Heards (d ∷ ds) g g'
  Heards-next d ds g g1 g' k h (inl off) = inl off
  Heards-next d ds g g1 g' k (inl off) (inr (inl (o, n, l))) = inl (o ∙ off)
  Heards-next d ds g g1 g' k (inr (inl (o, n, l))) (inr (inl (o', n', l'))) =
      inr (inl (o' ∙ o, n' ∙ n, l' ∙ l))
  Heards-next d ds g g1 g' k (inr (inr (c, l, f))) (inr (inl (o', n', l'))) = inr (
      inr (
        inl (subst (λ n. Challenges json g.session_id n d) (sym n') c),
        l' ∙ l ∙ ap length (sym n'),
        subst (λ n. length n < nonce_max) (sym n') f,
      ))
  Heards-next d ds g g1 g' k h (inr (inr (c, l, f))) =
      inr (inr (inr (subst (λ s. Has (Challenges json s g'.nonce) ds) k c), l, f))

  serve-Heards :
      (ds : List Delivery) (g : Registration)
      → g.phase ≡ wait_challenge
      → Heards ds g (serve json ds g)
  unfolding serve
  serve-Heards [] g p = inr (inl (refl, refl, refl))
  serve-Heards (d ∷ ds) g p =
      let g1 = dispatch json d g in
      let k = dispatch-Keeps json d g in
      Heards-next d ds g g1 (serve json ds g1) k.same_session (dispatch-Heard json d g p)
        (serve-Heards ds g1 (k.same_phase ∙ p))

  -- What messages do while a result is waited for.
  abbrev Tolds : List Delivery → Registration → Registration → Type 0
  Tolds ds g g' = (g'.ok ≡ false) ⊎ (g'.ok ≡ g.ok) ⊎ Has (Confirms json g.session_id) ds

  Tolds-next :
      (d : Delivery) (ds : List Delivery) (g g1 g' : Registration)
      → g1.session_id ≡ g.session_id
      → Told json d g g1
      → Tolds ds g1 g'
      → Tolds (d ∷ ds) g g'
  Tolds-next d ds g g1 g' k h (inl off) = inl off
  Tolds-next d ds g g1 g' k (inl off) (inr (inl o)) = inl (o ∙ off)
  Tolds-next d ds g g1 g' k (inr (inl o)) (inr (inl o')) = inr (inl (o' ∙ o))
  Tolds-next d ds g g1 g' k (inr (inr c)) (inr (inl o')) = inr (inr (inl c))
  Tolds-next d ds g g1 g' k h (inr (inr c)) =
      inr (inr (inr (subst (λ s. Has (Confirms json s) ds) k c)))

  serve-Tolds :
      (ds : List Delivery) (g : Registration) → g.phase ≡ wait_result → Tolds ds g (serve json ds g)
  unfolding serve
  serve-Tolds [] g p = inr (inl refl)
  serve-Tolds (d ∷ ds) g p =
      let g1 = dispatch json d g in
      let k = dispatch-Keeps json d g in
      Tolds-next d ds g g1 (serve json ds g1) k.same_session (dispatch-Told json d g p)
        (serve-Tolds ds g1 (k.same_phase ∙ p))

  -- A challenge that the flag reports came while it was waited for, before the wait ended or behind it.
  Heards-both :
      (ds es : List Delivery) (g g1 g2 : Registration)
      → g.ok ≡ false
      → g1.session_id ≡ g.session_id
      → Heards ds g g1
      → Heards es g1 g2
      → g2.ok ≡ true
      → Has (Challenges json g.session_id g2.nonce) (ds ++ es)
        × (g2.nonce_len ≡ length g2.nonce)
        × (length g2.nonce < nonce_max)
  Heards-both ds es g g1 g2 off k h (inl no_ok) ok = absurd (ground arith)
  Heards-both ds es g g1 g2 off k (inl no_ok) (inr (inl (o, n, l))) ok = absurd (ground arith)
  Heards-both ds es g g1 g2 off k (inr (inl (o', n', l'))) (inr (inl (o, n, l))) ok =
      absurd (ground arith)
  Heards-both ds es g g1 g2 off k (inr (inr (c, l', f))) (inr (inl (o, n, l))) ok = (
    Has-append _ ds es (inl (subst (λ s. Has (Challenges json g.session_id s) ds) (sym n) c)),
    l ∙ l' ∙ ap length (sym n),
    subst (λ s. length s < nonce_max) (sym n) f,
  )
  Heards-both ds es g g1 g2 off k h (inr (inr (c, l, f))) ok =
      (Has-append _ ds es (inr (subst (λ s. Has (Challenges json s g2.nonce) es) k c)), l, f)

  Tolds-both :
      (ds es : List Delivery) (g g1 g2 : Registration)
      → g.ok ≡ false
      → g1.session_id ≡ g.session_id
      → Tolds ds g g1
      → Tolds es g1 g2
      → g2.ok ≡ true
      → Has (Confirms json g.session_id) (ds ++ es)
  Tolds-both ds es g g1 g2 off k h (inl no_ok) ok = absurd (ground arith)
  Tolds-both ds es g g1 g2 off k (inl no_ok) (inr (inl o)) ok = absurd (ground arith)
  Tolds-both ds es g g1 g2 off k (inr (inl o')) (inr (inl o)) ok = absurd (ground arith)
  Tolds-both ds es g g1 g2 off k (inr (inr c)) (inr (inl o)) ok = Has-append _ ds es (inl c)
  Tolds-both ds es g g1 g2 off k h (inr (inr c)) ok =
      Has-append _ ds es (inr (subst (λ s. Has (Confirms json s) es) k c))

  module _ (r : RegisterReplies) (t : Traffic) where
    await_challenge-ok :
        (g : Registration)
        → g.phase ≡ wait_challenge
        → (await_challenge json r t g).0 ≡ actrust_ok
        → let g' = (await_challenge json r t g).1 in
          (g'.ok ≡ true)
          × (g'.nonce_len ≢ 0)
          × (g'.session_id ≡ g.session_id)
          × Heards t.late_challenge g g'
    unfolding await_challenge core_err err_make
    await_challenge-ok g p h =
        let g1 = record g {
          challenge_sem = (sem_wait r.timed_out r.wait_challenge g.challenge_sem).1;
        } in
        (
          ground arith,
          λ z. ground arith,
          (serve-Keeps t.late_challenge g1).same_session,
          serve-Heards t.late_challenge g1 p,
        )

    -- What the request for a challenge leaves, for a session.
    abbrev pub Challenged : Bytes → Registration → Type 0
    Challenged session g' =
        (g'.session_id ≡ session)
        × Has (Challenges json session g'.nonce) (t.for_challenge ++ t.late_challenge)
        × (g'.nonce_len ≡ length g'.nonce)
        × (0 < length g'.nonce)
        × (length g'.nonce < nonce_max)

    pub open_challenge-ok :
        (text : Bytes) (g : Registration)
        → (open_challenge json r t text g).0 ≡ actrust_ok
        → Challenged g.session_id (open_challenge json r t text g).1
    unfolding open_challenge core_err err_make
    open_challenge-ok text g =
        let g1 = record g { phase = wait_challenge; ok = false; nonce_len = 0 } in
        let g2 = serve json t.for_challenge g1 in
        let k = serve-Keeps t.for_challenge g1 in
        elim (Option-cases g.challenge_sem) [
          | inl e ↦ rw (e, open_challenge) (λ h. absurd (ground arith))
          | inr (n, e) ↦ elim (Bool-cases (is_err (r.send_request text))) [
            | inl bad ↦ rw (e, open_challenge, bad) (λ h. absurd (ground arith))
            | inr sent ↦
                rw (e, open_challenge, sent)
                  (λ h.
                    let (ok, some_nonce, s, heard) = await_challenge-ok g2 k.same_phase h in
                    let (has, l, f) =
                      Heards-both t.for_challenge t.late_challenge g1 g2
                        (await_challenge json r t g2).1 refl k.same_session
                        (serve-Heards t.for_challenge g1 refl) heard ok in
                    (s ∙ k.same_session, has, l, ground (arith, l, some_nonce), f))
          ]
        ]

    await_result-ok :
        (g : Registration)
        → g.phase ≡ wait_result
        → (await_result json r t g).0 ≡ actrust_ok
        → let g' = (await_result json r t g).1 in (g'.ok ≡ true) × Tolds t.late_result g g'
    unfolding await_result core_err err_make
    await_result-ok g p h =
        let g1 = record g { result_sem = (sem_wait r.timed_out r.wait_result g.result_sem).1 } in
        (ground arith, serve-Tolds t.late_result g1 p)

    pub open_result-ok :
        (text : Bytes) (g : Registration)
        → (open_result json r t text g).0 ≡ actrust_ok
        → Has (Confirms json g.session_id) (t.for_result ++ t.late_result)
          × (r.send_response text ≡ actrust_ok)
    unfolding open_result core_err err_make
    open_result-ok text g =
        let g1 = record g { phase = wait_result; ok = false } in
        let g2 = serve json t.for_result g1 in
        let k = serve-Keeps t.for_result g1 in
        elim (Option-cases g.result_sem) [
          | inl e ↦ rw (e, open_result) (λ h. absurd (ground arith))
          | inr (n, e) ↦ elim (Bool-cases (is_err (r.send_response text))) [
            | inl bad ↦ rw (e, open_result, bad) (λ h. absurd (ground arith))
            | inr sent ↦
                rw (e, open_result, sent)
                  (λ h.
                    let (ok, told) = await_result-ok g2 k.same_phase h in
                    (
                      Tolds-both t.for_result t.late_result g1 g2 (await_result json r t g2).1 refl
                          k.same_session (serve-Tolds t.for_result g1 refl) told ok,
                      ground arith,
                    ))
          ]
        ]
