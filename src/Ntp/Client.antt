-- ===== src/Ntp/Client.antt =====
-- The client of ntp.c, its users and its getters. The result of an adapter call that can fail is an
-- argument of the operation that makes the call, unless it is an unlock: the code discards these.
use ant_chain_trust_sdk.Prelude.{
  ℕ, ◌+◌, ◌-◌, ◌%◌, ◌^◌, Bool, true, false, ◌&&◌, not, List, ltb, ◌==◌, if◌then◌else◌,
}
use ant_chain_trust_sdk.Prelude.Int.{ℤ, pos}
use ant_chain_trust_sdk.Errno.{
  Err, Outcome, fail, done, actrust_ok, is_ok, bad_state, no_mem, not_ready,
}
use ant_chain_trust_sdk.Ntp.Time.{ntp_err, checked_time}

-- `struct actrust_ntp_s`. The `has_*` fields say that a mutex or the semaphore exists; `idle_sem`
-- is the semaphore's count.
pub record Ntp : Type 0 where
  pub server : List ℕ
  pub port : ℕ
  pub timeout_ms : ℕ
  pub synced : Bool
  pub last_offset_ms : ℤ
  pub closing : Bool
  pub active_users : ℕ
  pub has_admission : Bool
  pub has_operation : Bool
  pub has_idle : Bool
  pub idle_sem : ℕ

-- `actrust_ntp_init` on a block that the allocator gave, if it gave one. The server's name and the
-- timeout are CONFIG_ACTRUST_NTP_SERVER, cut to the 63 characters that fit, and
-- CONFIG_ACTRUST_NTP_TIMEOUT_MS.
unfoldable pub ntp_init : List ℕ → ℕ → Bool → Err → Err → Err → Outcome Ntp
ntp_init server timeout_ms block admission operation idle =
    if not block
    then fail (ntp_err no_mem)
    else if not (is_ok admission)
    then fail admission
    else if not (is_ok operation)
    then fail operation
    else if not (is_ok idle)
    then fail idle
    else done (record {
      server = server;
      port = 123;
      timeout_ms = timeout_ms % 2 ^ 32;
      synced = false;
      last_offset_ms = pos 0;
      closing = false;
      active_users = 0;
      has_admission = true;
      has_operation = true;
      has_idle = true;
      idle_sem = 0;
    })

-- The first lock of `ntp_operation_acquire`: a user is admitted, unless the client is closing.
unfoldable pub admit : Err → Ntp → Err × Ntp
admit lock n =
    if not (is_ok lock)
    then (lock, n)
    else if n.closing
    then (ntp_err bad_state, n)
    else (actrust_ok, record n { active_users = (n.active_users + 1) % 2 ^ 32 })

abbrev pub one_user_less : Ntp → Ntp
one_user_less n = if ltb 0 n.active_users then record n { active_users = n.active_users - 1 } else n

-- Its error path, behind an operation lock that failed.
unfoldable pub take_back : Err → Ntp → Ntp
take_back relock n = if is_ok relock then one_user_less n else n

-- `ntp_operation_acquire`
unfoldable pub acquire : Err → Err → Err → Ntp → Err × Ntp
acquire lock operation relock n =
    let (err, n') = admit lock n in
    if not (is_ok err)
    then (err, n')
    else (operation, if not (is_ok operation) then take_back relock n' else n')

-- `ntp_operation_release`: the last user of a closing client posts the semaphore.
unfoldable pub release : Err → Err → Ntp → Ntp
release lock post n =
    if not (is_ok lock)
    then n
    else let n' = one_user_less n in
      if n'.closing && n'.active_users == 0 && is_ok post
      then record n' { idle_sem = n'.idle_sem + 1 }
      else n'

-- `actrust_ntp_deinit` up to the wait: whether there are users to wait for.
unfoldable pub deinit_start : Err → Ntp → Outcome Bool × Ntp
deinit_start lock n =
    if not (is_ok lock)
    then (fail lock, n)
    else if n.closing
    then (fail (ntp_err bad_state), n)
    else (done (ltb 0 n.active_users), record n { closing = true })

-- The rest of it, behind the wait: the locks and the semaphore are destroyed.
unfoldable pub deinit_finish : Err → Err → Err → Ntp → Err × Ntp
deinit_finish operation idle admission n =
    if not (is_ok operation)
    then (operation, n)
    else if not (is_ok idle)
    then (idle, record n { has_operation = false })
    else if not (is_ok admission)
    then (admission, record n { has_operation = false; has_idle = false })
    else (actrust_ok, record n { has_operation = false; has_idle = false; has_admission = false })

-- The results of the adapter calls of an operation: the locks of `acquire` and `release`, and the
-- post.
pub record Locks : Type 0 where
  pub admission : Err
  pub operation : Err
  pub relock : Err
  pub leave : Err
  pub post : Err

abbrev pub released : Locks → Ntp → Ntp
released l n = release l.leave l.post n

-- `actrust_ntp_get_last_offset_ms`
unfoldable pub get_last_offset_ms : Locks → Ntp → Outcome ℤ × Ntp
get_last_offset_ms l n =
    let (err, n') = acquire l.admission l.operation l.relock n in
    if not (is_ok err)
    then (fail err, n')
    else if not n'.synced
    then (fail (ntp_err not_ready), released l n')
    else (done n'.last_offset_ms, released l n')

-- `actrust_ntp_now_ms`, with the wall clock's reading
unfoldable pub now_ms : Locks → ℕ → Ntp → Outcome ℕ × Ntp
now_ms l wall_ms n =
    let (err, n') = acquire l.admission l.operation l.relock n in
    if not (is_ok err)
    then (fail err, n')
    else if not n'.synced
    then (fail (ntp_err not_ready), released l n')
    else (checked_time wall_ms n'.last_offset_ms, released l n')
