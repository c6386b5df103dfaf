-- ===== src/Core/Ops.antt =====
-- The life-cycle operations of core_ops.c. The results of the calls of other components are a record
-- for each operation.
use ant_chain_trust_sdk.Prelude.{Bool, true, false, ◌&&◌, not, ◌==◌, if◌then◌else◌}
use ant_chain_trust_sdk.Errno.{Err, actrust_ok, err_code, is_ok, is_err, no_resource, unsupported}
use ant_chain_trust_sdk.Job.Pool.{core_err}
use ant_chain_trust_sdk.Core.Context.{
  Context, init_failed, ready, unregistered, registered, deinit, set_state,
}
use ant_chain_trust_sdk.Core.Background.{downlink_start, downlink_stop, ntp_start, ntp_stop}

-- What the key-value store answers to an open, a call in between, and a close.
pub record KvReplies : Type 0 where
  pub opened : Err
  pub called : Err
  pub found : Bool
  pub closed : Err

-- `core_read_local_registered`; `actrust_kv_exists` says whether the marker is there.
unfoldable pub read_local_registered : KvReplies → Err × Bool
read_local_registered kv = if not (is_ok kv.opened) then (kv.opened, false) else (
  if is_ok kv.called && is_err kv.closed then kv.closed else kv.called,
  if is_ok kv.called then kv.found else false,
)

-- `core_persist_registered`
unfoldable pub persist_registered : KvReplies → Err
persist_registered kv =
    if not (is_ok kv.opened)
    then kv.opened
    else if is_ok kv.called && is_err kv.closed
    then kv.closed
    else kv.called

-- `core_commit_registered`
unfoldable pub commit_registered : KvReplies → Context → Err × Context
commit_registered kv c =
    if not (is_ok (persist_registered kv))
    then (persist_registered kv, c)
    else (actrust_ok, set_state registered c)

pub record InitReplies : Type 0 where
  pub kv : Err
  pub crypto : Err
  pub marker : KvReplies
  pub ntp : Err
  pub cloud : Err
  pub key_open : Err
  pub key_migrate : Err
  pub key_reopen : Err
  pub has_config : Bool
  pub cert_write : Err
  pub key_import : Err
  pub key_close : Err
  pub crypto_deinit : Err

-- `core_prepare_signing_key`
unfoldable pub prepare_signing_key : InitReplies → Bool → Context → Err × Context
prepare_signing_key r local c =
    if is_ok r.key_open
    then (actrust_ok, record c { sign_key = true })
    else if not local
    then (actrust_ok, c)
    else if not (err_code r.key_open == no_resource)
    then (r.key_open, c)
    else if not (is_ok r.key_migrate)
    then (r.key_migrate, c)
    else (r.key_reopen, if is_ok r.key_reopen then record c { sign_key = true } else c)

-- `core_store_claim_credentials`
unfoldable pub store_claim_credentials : InitReplies → Err
store_claim_credentials r =
    if not r.has_config
    then actrust_ok
    else if not (is_ok r.cert_write)
    then r.cert_write
    else r.key_import

-- The labels `fail_crypto`, `fail_ntp` and `fail_cloud` of `core_ops_init`. A deinitialization of the
-- crypto context that fails leaves it.
unfoldable pub fail_crypto : InitReplies → Err → Context → Err × Context
fail_crypto r err c =
    if c.sign_key && not (is_ok r.key_close) then (err, set_state init_failed c) else (
      err,
      record c {
        state = init_failed;
        sign_key = false;
        crypto = if is_ok r.crypto_deinit then false else c.crypto;
      },
    )

unfoldable pub fail_ntp : InitReplies → Err → Context → Err × Context
fail_ntp r err c = fail_crypto r err (record c { ntp = false })

unfoldable pub fail_cloud : InitReplies → Err → Context → Err × Context
fail_cloud r err c = fail_ntp r err (record c { cloud = false; downlink_queue = false })

-- `core_ops_init` from the signing key on
unfoldable pub init_keys : InitReplies → Bool → Context → Err × Context
init_keys r local c =
    let (err, c') = prepare_signing_key r local c in
    if not (is_ok err)
    then fail_cloud r err c'
    else if not (is_ok (store_claim_credentials r))
    then fail_cloud r (store_claim_credentials r) c'
    else (actrust_ok, set_state ready c')

-- `core_ops_init`
unfoldable pub ops_init : InitReplies → Context → Err × Context
ops_init r c =
    if not (is_ok r.kv)
    then (r.kv, set_state init_failed c)
    else if not (is_ok r.crypto)
    then (r.crypto, set_state init_failed c)
    else let c1 = record c { crypto = true } in
      let (err, found) = read_local_registered r.marker in
      let local = if err_code err == no_resource then false else found in
      if is_err err && not (err_code err == no_resource)
      then fail_crypto r err c1
      else if not (is_ok r.ntp)
      then fail_crypto r r.ntp c1
      else if not (is_ok r.cloud)
      then fail_ntp r r.cloud (record c1 { ntp = true })
      else init_keys r local (record c1 { ntp = true; cloud = true; downlink_queue = true })

pub record DeinitReplies : Type 0 where
  pub ntp_join : Err
  pub ntp_destroy : Err
  pub downlink_join : Err
  pub downlink_destroy : Err
  pub key_close : Err
  pub cloud : Err
  pub ntp : Err
  pub crypto : Err

-- `core_ops_deinit` from the signing key on: what is held is released, until a call fails.
unfoldable pub release_key : DeinitReplies → Context → Err × Context
release_key r c =
    if not c.sign_key
    then (actrust_ok, c)
    else (r.key_close, if is_ok r.key_close then record c { sign_key = false } else c)

unfoldable pub release_cloud : DeinitReplies → Context → Err × Context
release_cloud r c =
    if not c.cloud
    then (actrust_ok, c)
    else (r.cloud, if is_ok r.cloud then record c { cloud = false; downlink_queue = false } else c)

unfoldable pub release_ntp : DeinitReplies → Context → Err × Context
release_ntp r c =
    if not c.ntp
    then (actrust_ok, c)
    else (r.ntp, if is_ok r.ntp then record c { ntp = false } else c)

unfoldable pub release_crypto : DeinitReplies → Context → Err × Context
release_crypto r c =
    if not c.crypto
    then (actrust_ok, c)
    else (r.crypto, if is_ok r.crypto then record c { crypto = false } else c)

-- `if (ACTRUST_IS_ERR(err)) return err;` between two parts
infixr 5 ◌then_do◌
abbrev pub ◌then_do◌ :
    (Context → Err × Context) → (Context → Err × Context) → Context → Err × Context
◌then_do◌ m k c = let (e, c') = m c in if is_ok e then k c' else (e, c')

-- `core_ops_deinit`
unfoldable pub ops_deinit : DeinitReplies → Context → Err × Context
ops_deinit r c =
    (ntp_stop r.ntp_join r.ntp_destroy
        then_do downlink_stop r.downlink_join r.downlink_destroy
        then_do release_key r
        then_do release_cloud r
        then_do release_ntp r
        then_do release_crypto r)
      (set_state deinit c)

pub record ConnectReplies : Type 0 where
  pub cloud : Err
  pub ntp_sem : Err
  pub ntp_task : Err
  pub marker : KvReplies
  pub downlink_sem : Err
  pub downlink_task : Err
  pub ntp_join : Err
  pub ntp_destroy : Err
  pub downlink_join : Err
  pub downlink_destroy : Err

-- The label `fail` of `core_ops_connect`. What the clean-up returns is only logged.
unfoldable pub connect_fail : ConnectReplies → Err → Context → Err × Context
connect_fail r err c = (
  err,
  (ntp_stop r.ntp_join r.ntp_destroy (downlink_stop r.downlink_join r.downlink_destroy c).1).1,
)

-- The end of `core_ops_connect`, with both tasks started.
unfoldable pub connect_state : ConnectReplies → Bool → Context → Err × Context
connect_state r local c =
    if local && c.sign_key
    then (actrust_ok, set_state registered c)
    else if local
    then connect_fail r (core_err unsupported) c
    else (actrust_ok, set_state unregistered c)

-- `core_ops_connect`
unfoldable pub ops_connect : ConnectReplies → Context → Err × Context
ops_connect r c =
    if not (is_ok r.cloud)
    then (r.cloud, c)
    else let (err, c1) = ntp_start r.ntp_sem r.ntp_task c in
      let (err', local) = read_local_registered r.marker in
      let (err'', c2) = downlink_start r.downlink_sem r.downlink_task c1 in
      if not (is_ok err)
      then connect_fail r err c1
      else if not (is_ok err')
      then connect_fail r err' c1
      else if not (is_ok err'')
      then connect_fail r err'' c2
      else connect_state r local c2

pub record DisconnectReplies : Type 0 where
  pub ntp_join : Err
  pub ntp_destroy : Err
  pub downlink_join : Err
  pub downlink_destroy : Err
  pub cloud : Err

abbrev pub first_of : Err → Err → Err
first_of first err = if is_ok first then err else first

-- `core_ops_disconnect`: every part is tried, and the first error returned.
unfoldable pub ops_disconnect : DisconnectReplies → Context → Err × Context
ops_disconnect r c =
    let (e1, c1) = ntp_stop r.ntp_join r.ntp_destroy c in
    let (e2, c2) = downlink_stop r.downlink_join r.downlink_destroy c1 in
    let err = first_of (first_of e1 e2) r.cloud in
    if is_err err then (err, c2) else (actrust_ok, set_state ready c2)
