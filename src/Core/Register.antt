-- ===== src/Core/Register.antt =====
-- `core_ops_register` and the functions of core_ops.c that it is made of. Between two of its sections
-- under the lock the downlink task may handle any messages: they are arguments, one list for each
-- place. The other components' results are arguments too, and so are the texts that
-- core_build_register_req and core_build_challenge_resp build.
use ant_chain_trust_sdk.Prelude.{
  ℕ, ◌+◌, ◌-◌, ◌*◌, Bool, true, false, ◌||◌, not, Option, none, some, List, [], length, take, ltb,
  ◌==◌, if◌then◌else◌,
}
use ant_chain_trust_sdk.Errno.{
  Err, Outcome, fail, done, actrust_ok, is_ok, is_err, buf_too_small, bad_state, io,
}
use ant_chain_trust_sdk.Job.Pool.{core_err}
use ant_chain_trust_sdk.Json.Chars.{Bytes}
use ant_chain_trust_sdk.Json.View.{CoreJson}
use ant_chain_trust_sdk.Encoding.Hex.{hex_encode}
use ant_chain_trust_sdk.Core.Handshake.{
  phase_idle, wait_challenge, wait_result, Registration, Delivery, session_id_len, serve,
}
use ant_chain_trust_sdk.Core.Context.{Context, CoreState, unregistered}
use ant_chain_trust_sdk.Core.Ops.{KvReplies, commit_registered}

pub record RegisterReplies : Type 0 where
  pub challenge_sem : Err
  pub result_sem : Err
  pub key_generate : Err
  pub pubkey : Outcome Bytes
  pub device_id : Outcome Bytes
  pub hw_model : Outcome Bytes
  pub fw_version : Outcome Bytes
  pub random : Outcome Bytes
  pub build_request : Bytes → Bytes → Bytes → Bytes → Bytes → Outcome Bytes
  pub send_request : Bytes → Err
  pub wait_challenge : Err
  pub sign : Bytes → Outcome Bytes
  pub build_response : Bytes → Bytes → Outcome Bytes
  pub send_response : Bytes → Err
  pub wait_result : Err
  pub timed_out : Err
  pub marker : KvReplies

-- The messages that are handled in each place.
pub record Traffic : Type 0 where
  pub at_start : List Delivery
  pub with_session : List Delivery
  pub for_challenge : List Delivery
  pub late_challenge : List Delivery
  pub in_between : List Delivery
  pub for_result : List Delivery
  pub late_result : List Delivery
  pub at_end : List Delivery

-- The text that `actrust_hex_encode` writes, without its final zero.
abbrev pub hex_text : Bytes → Bytes
hex_text s = let (len, out) = hex_encode (some s) (length s) true in take len out

-- `actrust_sem_wait`: only a wait that finds a token succeeds.
unfoldable pub sem_wait : Err → Err → Option ℕ → Err × Option ℕ
sem_wait timed_out reply sem = elim sem [
  | none ↦ (timed_out, none)
  | some n ↦
      if not (is_ok reply)
      then (reply, some n)
      else if n == 0
      then (timed_out, some n)
      else (actrust_ok, some (n - 1))
]

-- What a wait that succeeded stands for: the flag that the handler has set.
abbrev pub verdict : Bool → Err
verdict ok = if ok then actrust_ok else core_err io

module _ (json : CoreJson) (r : RegisterReplies) (t : Traffic) where
  -- `core_register_make_keypair`: its result with the text of the public key, and the signing key.
  unfoldable pub make_keypair : Context → Outcome Bytes × Context
  make_keypair c = if not (is_ok r.key_generate) then (fail r.key_generate, c) else (
    elim r.pubkey [
      | fail e ↦ fail e
      | done der ↦
          if ltb 257 (length der * 2 + 1)
          then fail (core_err buf_too_small)
          else done (hex_text der)
    ],
    record c { sign_key = true },
  )

  -- The end of `core_register_request_challenge`, from the wait on.
  unfoldable pub await_challenge : Registration → Err × Registration
  await_challenge g =
      let (e, sem) = sem_wait r.timed_out r.wait_challenge g.challenge_sem in
      let g' = serve json t.late_challenge (record g { challenge_sem = sem }) in
      (
        if is_err e then e else if g'.nonce_len == 0 then core_err io else verdict g'.ok,
        record g' { phase = phase_idle },
      )

  -- `core_register_request_challenge` from the section that opens the phase on
  unfoldable pub open_challenge : Bytes → Registration → Err × Registration
  open_challenge text g =
      let g1 = record g { phase = wait_challenge; ok = false; nonce_len = 0 } in
      let g2 = serve json t.for_challenge g1 in
      elim g1.challenge_sem [
        | none ↦ (core_err bad_state, record g2 { phase = phase_idle })
        | some n ↦
            if is_err (r.send_request text)
            then (r.send_request text, record g2 { phase = phase_idle })
            else await_challenge g2
      ]

  -- `core_register_request_challenge`, with `core_register_generate_session_id`
  unfoldable pub request_challenge :
      Bytes → Bytes → Bytes → Bytes → Registration → Err × Registration
  request_challenge pubkey_hex device_id hw_model fw_version g = elim r.random [
    | fail e ↦ (e, g)
    | done random ↦
        let session = hex_text random in
        let g' = serve json t.with_session (record g { session_id = session }) in
        elim (r.build_request pubkey_hex device_id hw_model fw_version session) [
          | fail e ↦ (e, g')
          | done text ↦ open_challenge text g'
        ]
  ]

  -- The end of `core_register_answer_challenge`, from the wait on.
  unfoldable pub await_result : Registration → Err × Registration
  await_result g =
      let (e, sem) = sem_wait r.timed_out r.wait_result g.result_sem in
      let g' = serve json t.late_result (record g { result_sem = sem }) in
      (if is_err e then e else verdict g'.ok, record g' { phase = phase_idle })

  -- `core_register_answer_challenge` from the section that opens the phase on
  unfoldable pub open_result : Bytes → Registration → Err × Registration
  open_result text g =
      let g1 = record g { phase = wait_result; ok = false } in
      let g2 = serve json t.for_result g1 in
      elim g1.result_sem [
        | none ↦ (core_err bad_state, record g2 { phase = phase_idle })
        | some n ↦
            if is_err (r.send_response text)
            then (r.send_response text, record g2 { phase = phase_idle })
            else await_result g2
      ]

  -- `core_register_answer_challenge`
  unfoldable pub answer_challenge : Registration → Err × Registration
  answer_challenge g =
      if g.nonce_len == 0 || length g.session_id == 0 || ltb session_id_len (length g.session_id)
      then (core_err bad_state, g)
      else elim (r.sign (take g.nonce_len g.nonce)) [
        | fail e ↦ (e, g)
        | done sig ↦ elim (r.build_response (hex_text sig) g.session_id) [
          | fail e ↦ (e, g)
          | done text ↦ open_result text (serve json t.in_between g)
        ]
      ]

  -- The start of `core_ops_do_register`, with both semaphores created.
  abbrev pub begin_registration : Registration → Registration
  begin_registration g = record g {
    challenge_sem = some 0;
    result_sem = some 0;
    in_progress = true;
    ok = false;
    nonce_len = 0;
    session_id = [];
    phase = phase_idle;
  }

  -- The handshake of `core_ops_do_register`, with the key made and the device's texts collected.
  unfoldable pub shake_hands : Outcome Bytes → Registration → Err × Registration
  shake_hands pubkey g = elim pubkey [
    | fail e ↦ (e, g)
    | done pubkey_hex ↦ elim r.device_id [
      | fail e ↦ (e, g)
      | done device_id ↦ elim r.hw_model [
        | fail e ↦ (e, g)
        | done hw_model ↦ elim r.fw_version [
          | fail e ↦ (e, g)
          | done fw_version ↦
              let (e, g') = request_challenge pubkey_hex device_id hw_model fw_version g in
              if is_err e then (e, g') else answer_challenge g'
        ]
      ]
    ]
  ]

  -- The label `out` of `core_ops_do_register`. The key is closed and destroyed when an error came.
  unfoldable pub end_registration : Err → Registration → Context → Err × Context
  end_registration e g c =
      let g' = serve json t.at_end g in
      (
        e,
        record c {
          sign_key = if is_err e then false else c.sign_key;
          reg = record g' {
            in_progress = false;
            phase = phase_idle;
            session_id = [];
            challenge_sem = none;
            result_sem = none;
          };
        },
      )

  -- `core_ops_do_register`
  unfoldable pub do_register : Context → Err × Context
  do_register c =
      if not (is_ok r.challenge_sem)
      then (r.challenge_sem, c)
      else if not (is_ok r.result_sem)
      then (r.result_sem, c)
      else let (pubkey, c') = make_keypair c in
        let (e, g) = shake_hands pubkey (serve json t.at_start (begin_registration c.reg)) in
        end_registration e g c'

  abbrev pub is_unregistered : CoreState → Bool
  is_unregistered unregistered = true
  is_unregistered _ = false

  -- `core_ops_register`
  unfoldable pub ops_register : Context → Err × Context
  ops_register c =
      if not (is_unregistered c.state)
      then (core_err bad_state, c)
      else let (e, c') = do_register c in
        if is_err e then (e, c') else commit_registered r.marker c'
