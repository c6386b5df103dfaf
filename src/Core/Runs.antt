-- ===== src/Core/Runs.antt =====
-- Runs of a registration, and its theorem at a concrete input.
use ant_chain_trust_sdk.Prelude.{
  arith, ℕ, ◌≡◌, ◌≢◌, ◌⊎◌, refl, true, false, ◌==◌, if◌then◌else◌, Option, none, some, [], ◌∷◌,
  ◌++◌, length,
}
use ant_chain_trust_sdk.Errno.{done, actrust_ok, timeout, err_make}
use ant_chain_trust_sdk.Job.Pool.{core_err}
use ant_chain_trust_sdk.Json.Chars.{Bytes, encode_utf8, hex_digit_to_int, join_hex}
use ant_chain_trust_sdk.Json.Unescape.{
  unescape_string, after_backslash, escape_case, join_surrogates, low_surrogate, read_hex4,
  unescape_loop, unescape_step, unicode_escape,
}
use ant_chain_trust_sdk.Json.View.{
  Value, CoreJson, json_number, json_string, json_init, json_query, get_string, get_int,
}
use ant_chain_trust_sdk.Core.Handshake.{
  Delivery, phase_idle, member, session_matches, take_nonce, handle_challenge, take_status,
  handle_result, action_of, dispatch, serve,
}
use ant_chain_trust_sdk.Encoding.Hex.{hex_encode, hex_loop}
use ant_chain_trust_sdk.Json.Escape.{json_err}
use ant_chain_trust_sdk.Kv.Store.{same_bytes}
use ant_chain_trust_sdk.Core.Context.{Context, unregistered, registered}
use ant_chain_trust_sdk.Core.Ops.{commit_registered, persist_registered}
use ant_chain_trust_sdk.Core.Register.{
  RegisterReplies, Traffic, ops_register, do_register, end_registration, shake_hands, make_keypair,
  request_challenge, open_challenge, await_challenge, sem_wait, answer_challenge, await_result,
  open_result,
}
use ant_chain_trust_sdk.Job.Pool.{Pool, pool_init, counting, job_alloc}
use ant_chain_trust_sdk.Job.Pool.Laws.{pool_init-IsValid}
use ant_chain_trust_sdk.Job.Queue.{JobQueue, enqueue}
use ant_chain_trust_sdk.Job.Queue.Refine
use ant_chain_trust_sdk.Core.Submit.{
  Submission, with_data, SubmitReplies, submit_job, post_job, post_allocated, copy_send_payload,
  lets_in,
}
use ant_chain_trust_sdk.Core.Submitted.{Posted, Refused, submit_job-Settled}
use ant_chain_trust_sdk.Core.Agreed.{AreHonest, Answered}
use ant_chain_trust_sdk.Core.Answered.{ops_register-Answered}

abbrev sixteen : Bytes
sixteen = 7 ∷ 7 ∷ 7 ∷ 7 ∷ 7 ∷ 7 ∷ 7 ∷ 7 ∷ 7 ∷ 7 ∷ 7 ∷ 7 ∷ 7 ∷ 7 ∷ 7 ∷ 7 ∷ []

-- The text of sixteen bytes.
abbrev session : Bytes
session =
    b'0' ∷ b'7' ∷ b'0' ∷ b'7' ∷ b'0' ∷ b'7' ∷ b'0' ∷ b'7' ∷ b'0' ∷ b'7' ∷ b'0' ∷ b'7' ∷ b'0' ∷ b'7'
    ∷ b'0' ∷ b'7' ∷ b'0' ∷ b'7' ∷ b'0' ∷ b'7' ∷ b'0' ∷ b'7' ∷ b'0' ∷ b'7' ∷ b'0' ∷ b'7' ∷ b'0'
    ∷ b'7' ∷ b'0' ∷ b'7' ∷ b'0' ∷ b'7' ∷ []

-- A reader that knows texts of one byte: a challenge of the session, a result, and a challenge of
-- another session. A member is told from the others by the first byte of its name, and `session_id`
-- and `status` by their lengths.
abbrev text : Bytes → Value
text s = record { text = s; kind = json_string }

abbrev number : Bytes → Value
number s = record { text = s; kind = json_number }

abbrev member_of : ℕ → Bytes → ℕ → Option Value
member_of kind name first =
    if first == b'a'
    then some (
        number
          (if kind == 2 then b'4' ∷ b'0' ∷ b'9' ∷ b'9' ∷ [] else b'4' ∷ b'0' ∷ b'9' ∷ b'7' ∷ []))
    else if first == b'n'
    then some (text (b'x' ∷ []))
    else if length name == 10
    then some (text (if kind == 3 then b'z' ∷ [] else session))
    else some (text (b'o' ∷ b'k' ∷ []))

abbrev search : Bytes → Bytes → Option Value
search (kind ∷ rest) (first ∷ name) = member_of kind (first ∷ name) first
search _ _ = none

abbrev reader : CoreJson
reader = record { validate = λ buf. true; search = search }

abbrev arrives : ℕ → Delivery
arrives kind = record {
  payload = kind ∷ [];
  mem_session = true;
  mem_value = true;
  posted = actrust_ok;
}

abbrev replies : RegisterReplies
replies = record {
  challenge_sem = actrust_ok;
  result_sem = actrust_ok;
  key_generate = actrust_ok;
  pubkey = done (1 ∷ 2 ∷ []);
  device_id = done (b'd' ∷ []);
  hw_model = done (b'h' ∷ []);
  fw_version = done (b'f' ∷ []);
  random = done sixteen;
  build_request = λ key id model version s. done (key ++ s);
  send_request = λ text. actrust_ok;
  wait_challenge = actrust_ok;
  sign = λ nonce. done nonce;
  build_response = λ sig s. done (sig ++ s);
  send_response = λ text. actrust_ok;
  wait_result = actrust_ok;
  timed_out = timeout;
  marker = record { opened = actrust_ok; called = actrust_ok; found = false; closed = actrust_ok };
}

replies-AreHonest : AreHonest replies
replies-AreHonest = record {
  pubkey = tt;
  device_id = tt;
  hw_model = tt;
  fw_version = tt;
  random = tt;
  build_request = λ key id model version s. tt;
  sign = λ nonce. tt;
  build_response = λ sig s. tt;
}

abbrev silence : Traffic
silence = record {
  at_start = [];
  with_session = [];
  for_challenge = [];
  late_challenge = [];
  in_between = [];
  for_result = [];
  late_result = [];
  at_end = [];
}

-- A result that comes too soon and a challenge of another session come before the challenge.
abbrev traffic : Traffic
traffic = record silence {
  for_challenge = arrives 2 ∷ arrives 3 ∷ arrives 1 ∷ [];
  for_result = arrives 2 ∷ [];
}

-- Nobody confirms this session.
abbrev unconfirmed : Traffic
unconfirmed = record traffic { for_result = arrives 3 ∷ arrives 1 ∷ [] }

abbrev online : Context
online = record {
  state = unregistered;
  cloud = true;
  downlink_queue = true;
  downlink_task = true;
  downlink_stop_sem = true;
  crypto = true;
  sign_key = false;
  ntp = true;
  ntp_task = true;
  ntp_stop_sem = true;
  reg = record {
    challenge_sem = none;
    result_sem = none;
    nonce = [];
    nonce_len = 0;
    session_id = [];
    ok = false;
    in_progress = false;
    phase = phase_idle;
  };
  ntp_tasks = 1;
  downlink_tasks = 1;
}

ops_register-Answered_example :
    let (e, c') = ops_register reader replies traffic online in
    (e ≡ actrust_ok)
      × (online.state ≡ unregistered)
      × (c'.state ≡ registered)
      × (c'.sign_key ≡ true)
      × (c'.reg.in_progress ≡ false)
      × Answered reader replies traffic replies-AreHonest
    ⊎ (e ≢ actrust_ok) × (c'.state ≡ online.state)
ops_register-Answered_example =
    ops_register-Answered reader replies traffic replies-AreHonest online

registers : (ops_register reader replies traffic online).0 ≡ actrust_ok
unfolding do_register end_registration shake_hands make_keypair request_challenge open_challenge
    await_challenge sem_wait answer_challenge await_result open_result ops_register serve dispatch
    action_of handle_challenge handle_result member session_matches take_nonce take_status
    commit_registered persist_registered hex_encode hex_loop err_make core_err json_init json_query
    get_int get_string encode_utf8 hex_digit_to_int join_hex json_err after_backslash escape_case
    join_surrogates low_surrogate read_hex4 unescape_loop unescape_step unescape_string
    unicode_escape same_bytes
registers = refl

fails : (ops_register reader replies unconfirmed online).0 ≡ timeout
unfolding do_register end_registration shake_hands make_keypair request_challenge open_challenge
    await_challenge sem_wait answer_challenge await_result open_result ops_register serve dispatch
    action_of handle_challenge handle_result member session_matches take_nonce take_status
    commit_registered persist_registered hex_encode hex_loop err_make core_err json_init json_query
    get_int get_string encode_utf8 hex_digit_to_int join_hex json_err after_backslash escape_case
    join_surrogates low_surrogate read_hex4 unescape_loop unescape_step unescape_string
    unicode_escape same_bytes
fails = refl

-- A pool of two jobs, and a queue with room for two.
abbrev pool : Pool
pool = (pool_init 2 actrust_ok).1

abbrev queue : JobQueue
queue = record {
  buf = 0 ∷ 0 ∷ [];
  has_lock = true;
  has_sem = true;
  depth = 2;
  head = 0;
  tail = 0;
  count = 0;
  waiter_count = 0;
  close_wake_pending = 0;
  closed = false;
  sem_items = 0;
}

queue-IsValid : Refine.IsValid queue
queue-IsValid = record {
  storage = omega arith;
  small = omega arith;
  head_in = omega arith;
  count_in = omega arith;
  tail_at = refl;
}

abbrev smooth : SubmitReplies
smooth = record {
  lifecycle = actrust_ok;
  core_lock = actrust_ok;
  pool_lock = actrust_ok;
  mem_cert = true;
  mem_key = true;
  mem_payload = true;
  queue_lock = actrust_ok;
  queue_unlock = actrust_ok;
  queue_post = actrust_ok;
  release_lock = actrust_ok;
}

abbrev data_of : Submission
data_of = with_data (some (1 ∷ 2 ∷ []))

sends :
    (submit_job 2 smooth true false registered data_of registered false pool queue).0 ≡ actrust_ok
unfolding submit_job post_job post_allocated copy_send_payload lets_in job_alloc pool_init counting
    enqueue
sends = refl

submit_job-Settled_example :
    let (e, p', q') =
      submit_job 2 smooth true false registered data_of registered false pool queue in
    (e ≡ actrust_ok)
      × (true ≡ true)
      × (false ≡ false)
      × ((registered ≡ registered) ⊎ (false ≡ true) × (registered ≡ registered))
      × Posted 2 smooth data_of pool queue p' q'
    ⊎ Refused 2 smooth e pool queue p' q'
submit_job-Settled_example =
    submit_job-Settled 2 smooth true false registered data_of registered false pool queue
      (pool_init-IsValid 2 actrust_ok) queue-IsValid refl refl
