-- ===== src/Ntp/Tests.antt =====
-- Runs of the NTP client, and its theorems at concrete inputs.
use ant_chain_trust_sdk.Prelude.{
  ℕ, ◌≡◌, ◌≢◌, ◌⊎◌, refl, true, false, Option, some, List, [], ◌∷◌, ◌==◌, if◌then◌else◌, All, arith,
}
use ant_chain_trust_sdk.Prelude.Int.{pos, negsuc, ◌+ℤ◌}
use ant_chain_trust_sdk.Errno.{fail, done, actrust_ok, hw_failure}
use ant_chain_trust_sdk.Ntp.Time.{
  ntp_err, deadline_start, deadline_remaining, checked_time, Timestamp, wall_ms_to_sntp,
  offset_is_acceptable,
}
use ant_chain_trust_sdk.Ntp.Client
use ant_chain_trust_sdk.Ntp.Client.{
  Ntp, Locks, ntp_init, now_ms, acquire, admit, release, take_back,
}
use ant_chain_trust_sdk.Ntp.Sync
use ant_chain_trust_sdk.Ntp.Sync.{
  Call, resolve, open_socket, send, receive, close_socket, Response, Replies, ntp_sync,
}
use ant_chain_trust_sdk.Ntp.Clock.{in_u64, checked_time_lem}
use ant_chain_trust_sdk.Ntp.Sync.Laws.{Accepted, Timely, Closes, ntp_sync-Accepted, ntp_sync-Timely}
use ant_chain_trust_sdk.Ntp.Users.{
  Users, IsFresh, Reach, here, next, enter, shut, up, waiting, refused, through,
  through-nobody_inside, refused_user_strands, leave, wake,
}

abbrev fresh : Ntp
fresh = record {
  server = b'n' ∷ [];
  port = 123;
  timeout_ms = 5000;
  synced = false;
  last_offset_ms = pos 0;
  closing = false;
  active_users = 0;
  has_admission = true;
  has_operation = true;
  has_idle = true;
  idle_sem = 0;
}

init_fresh : ntp_init (b'n' ∷ []) 5000 true actrust_ok actrust_ok actrust_ok ≡ done fresh
unfolding ntp_init
init_fresh = refl

checked_time_lem_example :
    checked_time 5 (negsuc 9)
    ≡ (if ◌==◌ 5 0 then fail (ntp_err hw_failure) else in_u64 (pos 5 +ℤ negsuc 9))
checked_time_lem_example = checked_time_lem 5 (negsuc 9) (omega arith) (omega arith) (omega arith)

-- coreSNTP's constants, a request that is always built, and a reader that finds 70 ms.
abbrev request : Timestamp → ℕ → Option (List ℕ)
request t r = some (0x23 ∷ [])

abbrev reader : Timestamp → Timestamp → List ℕ → Option Response
reader t1 t4 pkt = some (record { alarm = false; clock_offset_ms = pos 70 })

abbrev locks : Locks
locks = record { admission = 0; operation = 0; relock = 0; leave = 0; post = 0 }

abbrev replies : Replies
replies = record {
  now = 1000;
  now_resolve = 1001;
  now_send = 1500;
  now_receive = 1600;
  wall_send = 1700000000000;
  wall_receive = 1700000000100;
  random = 7;
  resolved = 0;
  ip = b'1' ∷ [];
  opened = 0;
  sent = 0;
  sent_len = 1;
  received = 0;
  sender_ip = b'1' ∷ [];
  sender_port = 123;
  packet = 0x24 ∷ [];
}

synced_run :
    let (err, n, calls) = ntp_sync 2208988800 4295 86400000 request reader locks replies fresh in
    (err ≡ actrust_ok)
    × (n.last_offset_ms ≡ pos 70)
    × (calls ≡ resolve 4999 ∷ open_socket ∷ send 4500 ∷ receive 4400 ∷ close_socket ∷ [])
unfolding ntp_sync Sync.sync_admitted Sync.steps Sync.exchange Sync.send_request
    Sync.receive_response Sync.judge Sync.settle Sync.same_text acquire admit release deadline_start
    deadline_remaining offset_is_acceptable wall_ms_to_sntp
synced_run = (refl, refl, refl)

ntp_sync-Accepted_example :
    let (err, n, _) = ntp_sync 2208988800 4295 86400000 request reader locks replies fresh in
    (err ≢ actrust_ok) × (n.synced ≡ false) × (n.last_offset_ms ≡ pos 0)
    ⊎ (err ≡ actrust_ok)
      × (n.synced ≡ true)
      × Accepted 2208988800 4295 86400000 request reader replies 123 n.last_offset_ms
ntp_sync-Accepted_example =
    ntp_sync-Accepted 2208988800 4295 86400000 request reader locks replies fresh

ntp_sync-Timely_example :
    let calls = (ntp_sync 2208988800 4295 86400000 request reader locks replies fresh).2 in
    All (Timely replies 6000) calls × Closes calls
ntp_sync-Timely_example =
    ntp_sync-Timely 2208988800 4295 86400000 request reader locks replies fresh (omega arith)

abbrev nobody : Users
nobody = record { n = fresh; inside = 0; holding = false; phase = up }

abbrev one_inside : Users
one_inside = record {
  n = record fresh { active_users = 1 };
  inside = 1;
  holding = false;
  phase = up;
}

abbrev one_waited_for : Users
one_waited_for = record {
  n = record fresh { active_users = 1; closing = true };
  inside = 1;
  holding = false;
  phase = waiting;
}

one_waited_for-Reach : Reach nobody one_waited_for
unfolding admit Client.deinit_start
one_waited_for-Reach =
    next (next here (enter nobody (omega arith) refl refl)) (shut one_inside _ true refl refl)

-- The deinitialization goes on before the last user has unlocked the admission lock.
abbrev gone_on : Users
gone_on = record {
  n = record fresh { closing = true };
  inside = 0;
  holding = true;
  phase = through;
}

abbrev posted : Users
posted = record {
  n = record fresh { closing = true; idle_sem = 1 };
  inside = 0;
  holding = true;
  phase = waiting;
}

gone_on-Reach : Reach nobody gone_on
unfolding admit Client.deinit_start release
gone_on-Reach =
    next (next one_waited_for-Reach (leave one_waited_for actrust_ok (omega arith) refl))
      (wake posted refl (omega arith))

nobody-IsFresh : IsFresh nobody
nobody-IsFresh = record {
  alone = refl;
  none_inside = refl;
  admits = refl;
  no_token = refl;
  unheld = refl;
  running = refl;
}

through-nobody_inside_example :
    (gone_on.inside ≡ 0)
    × (gone_on.n.active_users ≡ 0)
    × ((admit actrust_ok gone_on.n).0 ≢ actrust_ok)
through-nobody_inside_example =
    through-nobody_inside nobody gone_on nobody-IsFresh gone_on-Reach refl

refused_user_strands_example :
    ((refused one_waited_for).phase ≡ waiting)
    × ((refused one_waited_for).inside ≡ 0)
    × ((refused one_waited_for).n.idle_sem ≡ 0)
refused_user_strands_example =
    refused_user_strands nobody one_waited_for (refused one_waited_for) nobody-IsFresh
      one_waited_for-Reach refl refl here
