-- ===== src/Core/Tests.antt =====
-- Runs of the core's life cycle, and its theorems at concrete inputs.
use ant_chain_trust_sdk.Prelude.{none, [], ◌≡◌, ◌⊎◌, refl, true, false}
use ant_chain_trust_sdk.Errno.{actrust_ok, timeout}
use ant_chain_trust_sdk.Core.Handshake.{Registration, phase_idle}
use ant_chain_trust_sdk.Core.Context.{Context, initing, init_failed, ready, registered, deinit}
use ant_chain_trust_sdk.Core.Background.{
  ntp_start, ntp_stop, downlink_start, downlink_stop, downlink_clear,
}
use ant_chain_trust_sdk.Core.Ops.{
  KvReplies, InitReplies, DeinitReplies, ConnectReplies, ops_init, ops_deinit, ops_connect,
  init_keys, prepare_signing_key, store_claim_credentials, read_local_registered, fail_cloud,
  fail_ntp, fail_crypto, connect_state, connect_fail,
}
use ant_chain_trust_sdk.Core.Tidy.{IsTidy, IsBare}
use ant_chain_trust_sdk.Core.Init.{Failed, ops_init-Settled}
use ant_chain_trust_sdk.Core.Shutdown.{Released, ops_deinit-Released}
use ant_chain_trust_sdk.Core.Life.{
  here, next, connect, shut_down, Reach-IsTidy, all_good, connect_forgets_task,
}

-- No registration has begun.
abbrev idle : Registration
idle = record {
  challenge_sem = none;
  result_sem = none;
  nonce = [];
  nonce_len = 0;
  session_id = [];
  ok = false;
  in_progress = false;
  phase = phase_idle;
}

-- A core before its initialization.
abbrev bare : Context
bare = record {
  state = initing;
  cloud = false;
  downlink_queue = false;
  downlink_task = false;
  downlink_stop_sem = false;
  crypto = false;
  sign_key = false;
  ntp = false;
  ntp_task = false;
  ntp_stop_sem = false;
  reg = idle;
  ntp_tasks = 0;
  downlink_tasks = 0;
}

bare-IsBare : IsBare bare
bare-IsBare = record {
  no_cloud = refl;
  no_queue = refl;
  no_downlink = refl;
  no_crypto = refl;
  no_key = refl;
  no_ntp = refl;
  no_ntp_task = refl;
  no_tasks = refl;
  no_downlinks = refl;
}

-- A device that is registered, its key in its slot.
abbrev marked : KvReplies
marked = record { opened = actrust_ok; called = actrust_ok; found = true; closed = actrust_ok }

abbrev starts : InitReplies
starts = record {
  kv = actrust_ok;
  crypto = actrust_ok;
  marker = marked;
  ntp = actrust_ok;
  cloud = actrust_ok;
  key_open = actrust_ok;
  key_migrate = actrust_ok;
  key_reopen = actrust_ok;
  has_config = true;
  cert_write = actrust_ok;
  key_import = actrust_ok;
  key_close = actrust_ok;
  crypto_deinit = actrust_ok;
}

-- The claim certificate cannot be written.
abbrev cut_short : InitReplies
cut_short = record starts { cert_write = timeout }

abbrev ends : DeinitReplies
ends = record {
  ntp_join = actrust_ok;
  ntp_destroy = actrust_ok;
  downlink_join = actrust_ok;
  downlink_destroy = actrust_ok;
  key_close = actrust_ok;
  cloud = actrust_ok;
  ntp = actrust_ok;
  crypto = actrust_ok;
}

-- The core after a good start.
abbrev started : Context
started = record bare {
  state = ready;
  cloud = true;
  downlink_queue = true;
  crypto = true;
  sign_key = true;
  ntp = true;
}

start_run : ops_init starts bare ≡ (actrust_ok, started)
unfolding ops_init init_keys prepare_signing_key store_claim_credentials read_local_registered
start_run = refl

cut_short_run : ops_init cut_short bare ≡ (timeout, record bare { state = init_failed })
unfolding ops_init init_keys prepare_signing_key store_claim_credentials read_local_registered
    fail_cloud fail_ntp fail_crypto
cut_short_run = refl

ops_init-Settled_example :
    let (e, c') = ops_init cut_short bare in
    (e ≡ actrust_ok) × (c'.state ≡ ready) × IsTidy c' ⊎ Failed cut_short e c'
ops_init-Settled_example = ops_init-Settled cut_short bare bare-IsBare

-- A connected core whose marker was found with its key.
abbrev online : Context
online = record started {
  state = registered;
  downlink_task = true;
  downlink_stop_sem = true;
  ntp_task = true;
  ntp_stop_sem = true;
  ntp_tasks = 1;
  downlink_tasks = 1;
}

connect_run : ops_connect (record all_good { marker = marked }) started ≡ (actrust_ok, online)
unfolding ops_connect connect_state ntp_start downlink_start read_local_registered
connect_run = refl

started-IsTidy : IsTidy started
started-IsTidy = record {
  ntp_kept = refl;
  downlink_kept = refl;
  ntp_used = λ e. refl;
  queue_used = λ e. refl;
  queue_of = refl;
  up_ntp = λ e. refl;
  up_cloud = λ e. refl;
  up_crypto = λ e. refl;
  signed = λ e. refl;
}

online-IsTidy : IsTidy online
online-IsTidy = record {
  ntp_kept = refl;
  downlink_kept = refl;
  ntp_used = λ e. refl;
  queue_used = λ e. refl;
  queue_of = refl;
  up_ntp = λ e. refl;
  up_cloud = λ e. refl;
  up_crypto = λ e. refl;
  signed = λ e. refl;
}

ops_deinit-Released_example :
    let (e, c') = ops_deinit ends online in
    IsTidy c' × (c'.state ≡ deinit) × (e ≡ actrust_ok → Released c')
ops_deinit-Released_example = ops_deinit-Released ends online online-IsTidy

-- Connected, and shut down again.
Reach-IsTidy_example :
    IsTidy
      (ops_deinit ends
        (ops_connect (record all_good { marker = marked }) (ops_init starts bare).1).1).1
unfolding ops_init init_keys prepare_signing_key store_claim_credentials read_local_registered
Reach-IsTidy_example =
    Reach-IsTidy starts bare
      (ops_deinit ends
        (ops_connect (record all_good { marker = marked }) (ops_init starts bare).1).1).1
      bare-IsBare
      (next
        (next here
          (connect (record all_good { marker = marked }) (ops_init starts bare).1 refl refl refl))
        (shut_down ends
          (ops_connect (record all_good { marker = marked }) (ops_init starts bare).1).1))

-- The marker cannot be read, and the NTP task does not end within the time of the join.
abbrev stuck : ConnectReplies
stuck = record all_good { marker = record marked { opened = timeout }; ntp_join = timeout }

-- The core behind such a connection attempt.
abbrev half_connected : Context
half_connected = record started { ntp_task = true; ntp_stop_sem = true; ntp_tasks = 1 }

stuck_run : ops_connect stuck started ≡ (timeout, half_connected)
unfolding ops_connect connect_fail ntp_start ntp_stop downlink_start downlink_stop downlink_clear
    read_local_registered
stuck_run = refl

half_connected-IsTidy : IsTidy half_connected
half_connected-IsTidy = record {
  ntp_kept = refl;
  downlink_kept = refl;
  ntp_used = λ e. refl;
  queue_used = λ e. refl;
  queue_of = refl;
  up_ntp = λ e. refl;
  up_cloud = λ e. refl;
  up_crypto = λ e. refl;
  signed = λ e. refl;
}

connect_forgets_task_example :
    let (e, c1) = ops_connect all_good half_connected in
    let (e', c2) = ops_deinit ends c1 in
    (e ≡ actrust_ok) × (e' ≡ actrust_ok → (c2.ntp ≡ false) × (c2.ntp_tasks ≡ 1))
connect_forgets_task_example =
    connect_forgets_task ends half_connected half_connected-IsTidy refl refl
