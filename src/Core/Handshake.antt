-- ===== src/Core/Handshake.antt =====
-- The registration's state and what the downlink task makes of a message: core_register_generate and
-- core_register_session_matches_locked, core_handle_challenge, core_handle_register_result and
-- core_downlink_dispatch of core_ops.c. Each handler is one section under the core's lock.
use ant_chain_trust_sdk.Prelude.{
  ℕ, ◌+◌, ◌^◌, Bool, true, false, ◌&&◌, ◌||◌, not, Option, none, some, List, [], ◌∷◌, length, leb,
  ◌==◌, if◌then◌else◌,
}
use ant_chain_trust_sdk.Prelude.Int.{pos, negsuc}
use ant_chain_trust_sdk.Errno.{Err, is_ok}
use ant_chain_trust_sdk.Json.Chars.{Bytes}
use ant_chain_trust_sdk.Json.View.{
  CoreJson, json_init, json_query, Got, refused, too_long, got, get_string, get_int,
}
use ant_chain_trust_sdk.Kv.Store.{same_bytes}

-- `actrust_core_register_phase_t`
pub data Phase : Type 0 where
  phase_idle wait_challenge wait_result : Phase

-- `actrust_core_register_ctx_t`. A semaphore is its count, once it is created. `nonce` is what was
-- last written to the array, and `session_id` the bytes of the identifier.
pub record Registration : Type 0 where
  pub challenge_sem : Option ℕ
  pub result_sem : Option ℕ
  pub nonce : Bytes
  pub nonce_len : ℕ
  pub session_id : Bytes
  pub ok : Bool
  pub in_progress : Bool
  pub phase : Phase

abbrev pub nonce_max : ℕ
nonce_max = 64

abbrev pub session_id_len : ℕ
session_id_len = 32

-- A message that the downlink task has taken from its queue, with the results of the calls that
-- handle it: the allocations for its session's name and for the value behind it, and the post.
pub record Delivery : Type 0 where
  pub payload : Bytes
  pub mem_session : Bool
  pub mem_value : Bool
  pub posted : Err

abbrev pub is_waiting_challenge : Phase → Bool
is_waiting_challenge wait_challenge = true
is_waiting_challenge _ = false

abbrev pub is_waiting_result : Phase → Bool
is_waiting_result wait_result = true
is_waiting_result _ = false

-- `actrust_sem_post`, where there is a semaphore.
abbrev pub post : Err → Option ℕ → Option ℕ
post posted none = none
post posted (some n) = some (if is_ok posted then n + 1 else n)

-- The names of the members.
abbrev pub name_session : Bytes
name_session = b's' ∷ b'e' ∷ b's' ∷ b's' ∷ b'i' ∷ b'o' ∷ b'n' ∷ b'_' ∷ b'i' ∷ b'd' ∷ []

abbrev pub name_nonce : Bytes
name_nonce = b'n' ∷ b'o' ∷ b'n' ∷ b'c' ∷ b'e' ∷ []

abbrev pub name_status : Bytes
name_status = b's' ∷ b't' ∷ b'a' ∷ b't' ∷ b'u' ∷ b's' ∷ []

abbrev pub name_action : Bytes
name_action = b'a' ∷ b'c' ∷ b't' ∷ b'i' ∷ b'o' ∷ b'n' ∷ []

abbrev pub text_ok : Bytes
text_ok = b'o' ∷ b'k' ∷ []

module _ (json : CoreJson) where
  -- A query, and the string it finds.
  unfoldable pub member : Bool → Bytes → Bytes → ℕ → Option Got
  member mem payload name cap = elim (json_query json payload name) [
    | none ↦ none
    | some v ↦ some (get_string mem v cap)
  ]

  -- `core_register_session_matches_locked`
  unfoldable pub session_matches : Delivery → Registration → Bool
  session_matches d r =
      if length r.session_id == 0
      then false
      else elim (member d.mem_session d.payload name_session (session_id_len + 1)) [
        | some (got s) ↦ length s == length r.session_id && same_bytes s r.session_id
        | some (refused e) ↦ false
        | some (too_long n) ↦ false
        | none ↦ false
      ]

  -- The handler's end: the flag is set, and the semaphore of its phase posted.
  abbrev pub answer_challenge_sem : Err → Registration → Registration
  answer_challenge_sem posted r = record r { challenge_sem = post posted r.challenge_sem }

  abbrev pub answer_result_sem : Err → Registration → Registration
  answer_result_sem posted r = record r { result_sem = post posted r.result_sem }

  -- `core_handle_challenge` from the query of the nonce on
  unfoldable pub take_nonce : Delivery → Registration → Registration
  take_nonce d r =
      answer_challenge_sem d.posted (elim (member d.mem_value d.payload name_nonce nonce_max) [
        | some (got s) ↦ record r { ok = true; nonce = s; nonce_len = length s }
        | some (too_long n) ↦ record r { ok = false; nonce_len = n }
        | some (refused e) ↦ record r { ok = false }
        | none ↦ record r { ok = false }
      ])

  -- `core_handle_challenge`
  unfoldable pub handle_challenge : Delivery → Registration → Registration
  handle_challenge d r =
      if not r.in_progress || not (is_waiting_challenge r.phase)
      then r
      else if not (json_init json d.payload)
      then answer_challenge_sem d.posted (record r { ok = false })
      else if not (session_matches d r)
      then r
      else if not (r.nonce_len == 0)
      then r
      else take_nonce d r

  -- `core_handle_register_result` from the query of the status on
  unfoldable pub take_status : Delivery → Registration → Registration
  take_status d r = answer_result_sem d.posted (elim (member d.mem_value d.payload name_status 16) [
    | some (got s) ↦ record r { ok = length s == 2 && same_bytes s text_ok }
    | some (too_long n) ↦ record r { ok = false }
    | some (refused e) ↦ record r { ok = false }
    | none ↦ record r { ok = false }
  ])

  -- `core_handle_register_result`
  unfoldable pub handle_result : Delivery → Registration → Registration
  handle_result d r =
      if not r.in_progress || not (is_waiting_result r.phase)
      then r
      else if not (json_init json d.payload)
      then answer_result_sem d.posted (record r { ok = false })
      else if not (session_matches d r)
      then r
      else take_status d r

  -- The action of a message, in the range of 32 bits.
  unfoldable pub action_of : Bytes → Option ℕ
  action_of payload =
      if not (json_init json payload) then none else elim (json_query json payload name_action) [
        | none ↦ none
        | some v ↦ elim (get_int v) [
          | some (pos n) ↦ if leb (2 ^ 32) n then none else some n
          | some (negsuc n) ↦ none
          | none ↦ none
        ]
      ]

  -- `core_downlink_dispatch`
  unfoldable pub dispatch : Delivery → Registration → Registration
  dispatch d r = elim (action_of d.payload) [
    | none ↦ r
    | some action ↦
        if action == 0x1001
        then handle_challenge d r
        else if action == 0x1003
        then handle_result d r
        else r
  ]

  -- The messages that the downlink task handles one after the other.
  unfoldable pub serve : List Delivery → Registration → Registration
  serve [] r = r
  serve (d ∷ ds) r = serve ds (dispatch d r)
