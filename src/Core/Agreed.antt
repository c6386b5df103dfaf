-- ===== src/Core/Agreed.antt =====
-- What the handshake of a registration that succeeds has agreed on.
use ant_chain_trust_sdk.Prelude.{
  ◌<◌, ◌≡◌, ◌≢◌, inl, inr, refl, sym, ap, ◌∙◌, ◌||◌, ◌++◌, length, take, ltb, ◌==◌, arith,
  Bool-cases, subst,
}
use ant_chain_trust_sdk.Errno.{
  Err, Outcome, fail, done, Outcome-cases, actrust_ok, is_err, err_make,
}
use ant_chain_trust_sdk.Job.Pool.{core_err}
use ant_chain_trust_sdk.Json.Chars.{Bytes}
use ant_chain_trust_sdk.Json.View.{CoreJson}
use ant_chain_trust_sdk.Kv.Entry.{take-whole}
use ant_chain_trust_sdk.Core.Handshake.{Registration, session_id_len, nonce_max, serve}
use ant_chain_trust_sdk.Core.Answers.{Has, Challenges, Confirms}
use ant_chain_trust_sdk.Core.Registered.{serve-Keeps, Challenged, open_challenge-ok, open_result-ok}
use ant_chain_trust_sdk.Core.Register.{
  RegisterReplies, Traffic, hex_text, open_challenge, request_challenge, answer_challenge,
  shake_hands,
}

-- A call that gives no value returns an error.
abbrev pub IsHonest : {A : Type 0} → Outcome A → Type 0
IsHonest (fail e) = e ≢ actrust_ok
IsHonest (done a) = Unit

-- The calls of a registration that give a value.
pub record AreHonest (r : RegisterReplies) : Type 0 where
  pub pubkey : IsHonest r.pubkey
  pub device_id : IsHonest r.device_id
  pub hw_model : IsHonest r.hw_model
  pub fw_version : IsHonest r.fw_version
  pub random : IsHonest r.random
  pub build_request :
      (key id model version session : Bytes)
      → IsHonest (r.build_request key id model version session)
  pub sign : (nonce : Bytes) → IsHonest (r.sign nonce)
  pub build_response : (sig session : Bytes) → IsHonest (r.build_response sig session)

pub failed : {A : Type 0} (o : Outcome A) (e : Err) → IsHonest o → o ≡ fail e → e ≢ actrust_ok
failed o e h q = subst IsHonest q h

module _ (json : CoreJson) (r : RegisterReplies) (t : Traffic) (honest : AreHonest r) where
  -- The cloud has challenged the session of this registration, whose identifier is the text of random
  -- bytes; its nonce is within the array, and was signed; the response carried the
  -- signature and was sent; and the cloud has confirmed the session.
  pub record Answered : Type 0 where
    pub random : Bytes
    pub nonce : Bytes
    pub signature : Bytes
    pub response : Bytes
    pub drawn : r.random ≡ done random
    pub challenged :
        Has (Challenges json (hex_text random) nonce) (t.for_challenge ++ t.late_challenge)
    pub some_nonce : 0 < length nonce
    pub fits : length nonce < nonce_max
    pub signed : r.sign nonce ≡ done signature
    pub built : r.build_response (hex_text signature) (hex_text random) ≡ done response
    pub sent : r.send_response response ≡ actrust_ok
    pub confirmed : Has (Confirms json (hex_text random)) (t.for_result ++ t.late_result)

  answer_challenge-ok :
      (random : Bytes) (g : Registration)
      → r.random ≡ done random
      → Challenged json r t (hex_text random) g
      → (answer_challenge json r t g).0 ≡ actrust_ok
      → Answered
  unfolding answer_challenge core_err err_make
  answer_challenge-ok random g drawn (same, has, len, some_nonce, fits) =
      let whole : take g.nonce_len g.nonce ≡ g.nonce =
        ap (λ n. take n g.nonce) len ∙ take-whole g.nonce in
      let g1 = serve json t.in_between g in
      elim (Bool-cases (
        g.nonce_len == 0 || length g.session_id == 0 || ltb session_id_len (length g.session_id))) [
          | inl bad ↦ rw (answer_challenge, bad) (λ h. absurd (ground arith))
          | inr good ↦ elim (Outcome-cases (r.sign (take g.nonce_len g.nonce))) [
            | inl (e, q) ↦
                rw (answer_challenge, good, q)
                  (λ h. absurd (failed _ e (honest.sign (take g.nonce_len g.nonce)) q h))
            | inr (sig, q) ↦ elim (Outcome-cases (r.build_response (hex_text sig) g.session_id)) [
              | inl (e, b) ↦
                  rw (answer_challenge, good, q, b)
                    (λ h.
                      absurd (failed _ e (honest.build_response (hex_text sig) g.session_id) b h))
              | inr (text, b) ↦
                  rw (answer_challenge, good, q, b)
                    (λ h.
                      let (told, sent) = open_result-ok json r t text g1 h in
                      record {
                        random = random;
                        nonce = g.nonce;
                        signature = sig;
                        response = text;
                        drawn = drawn;
                        challenged = has;
                        some_nonce = some_nonce;
                        fits = fits;
                        signed = ap r.sign (sym whole) ∙ q;
                        built = ap (r.build_response (hex_text sig)) (sym same) ∙ b;
                        sent = sent;
                        confirmed =
                            subst (λ s. Has (Confirms json s) (t.for_result ++ t.late_result))
                              ((serve-Keeps json t.in_between g).same_session ∙ same) told;
                      })
            ]
          ]
        ]

  request_challenge-ok :
      (key id model version : Bytes) (g : Registration)
      → let (e, g') = request_challenge json r t key id model version g in
        e ≡ actrust_ok
        → (random : Bytes) × (r.random ≡ done random) × Challenged json r t (hex_text random) g'
  unfolding request_challenge
  request_challenge-ok key id model version g = elim (Outcome-cases r.random) [
    | inl (e, q) ↦ rw (request_challenge, q) (λ h. absurd (failed _ e honest.random q h))
    | inr (random, q) ↦
        let session = hex_text random in
        let g' = serve json t.with_session (record g { session_id = session }) in
        let same =
          (serve-Keeps json t.with_session (record g { session_id = session })).same_session in
        elim (Outcome-cases (r.build_request key id model version session)) [
          | inl (e, b) ↦
              rw (request_challenge, q, b)
                (λ h. absurd (failed _ e (honest.build_request key id model version session) b h))
          | inr (text, b) ↦
              rw (request_challenge, q, b)
                (λ h. (
                  random,
                  refl,
                  subst (λ s. Challenged json r t s (open_challenge json r t text g').1) same
                      (open_challenge-ok json r t text g' h),
                ))
        ]
  ]

  pub shake_hands-ok :
      (pubkey : Outcome Bytes) (g : Registration)
      → IsHonest pubkey
      → (shake_hands json r t pubkey g).0 ≡ actrust_ok
      → Answered
  unfolding shake_hands
  shake_hands-ok (fail e) g good = λ h. absurd (good h)
  shake_hands-ok (done key) g good = elim (Outcome-cases r.device_id) [
    | inl (e, q) ↦ rw (shake_hands, q) (λ h. absurd (failed _ e honest.device_id q h))
    | inr (id, q1) ↦ elim (Outcome-cases r.hw_model) [
      | inl (e, q) ↦ rw (shake_hands, q1, q) (λ h. absurd (failed _ e honest.hw_model q h))
      | inr (model, q2) ↦ elim (Outcome-cases r.fw_version) [
        | inl (e, q) ↦ rw (shake_hands, q1, q2, q) (λ h. absurd (failed _ e honest.fw_version q h))
        | inr (version, q3) ↦
            elim (Bool-cases (is_err (request_challenge json r t key id model version g).0)) [
              | inl bad ↦ rw (shake_hands, q1, q2, q3, bad) (λ h. absurd (ground arith))
              | inr fine ↦
                  let (random, drawn, c) =
                    request_challenge-ok key id model version g (ground arith) in
                  rw (shake_hands, q1, q2, q3, fine) (answer_challenge-ok random _ drawn c)
            ]
      ]
    ]
  ]
