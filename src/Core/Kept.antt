-- ===== src/Core/Kept.antt =====
-- Each operation of the service task keeps the core tidy.
use ant_chain_trust_sdk.Prelude.{
  Bool-cases, subst, sym, ◌≡◌, inl, inr, refl, ap, ◌∙◌, Bool, true, false, arith,
}
use ant_chain_trust_sdk.Errno.{Err, unsupported}
use ant_chain_trust_sdk.Job.Pool.{core_err}
use ant_chain_trust_sdk.Core.Context.{Context}
use ant_chain_trust_sdk.Core.Background.{
  downlink_start, downlink_stop, downlink_clear, ntp_start, ntp_stop, ntp_clear,
}
use ant_chain_trust_sdk.Core.Ops.{
  ConnectReplies, DisconnectReplies, read_local_registered, commit_registered, connect_fail,
  connect_state, ops_connect, ops_disconnect,
}
use ant_chain_trust_sdk.Core.Tidy.{is_up, IsTidy}
use ant_chain_trust_sdk.Json.View.{CoreJson}
use ant_chain_trust_sdk.Core.Register.{
  RegisterReplies, Traffic, make_keypair, end_registration, do_register, is_unregistered,
  ops_register,
}
use ant_chain_trust_sdk.Core.Agreed.{AreHonest}
use ant_chain_trust_sdk.Core.Answered.{ops_register-Answered}

stop-IsTidy :
    (join destroy : Err) (c : Context)
    → IsTidy c
    → IsTidy (ntp_stop join destroy c).1 × IsTidy (downlink_stop join destroy c).1
unfolding ntp_stop ntp_clear downlink_stop downlink_clear
stop-IsTidy join destroy c v = (ground arith, ground arith)

connect_fail-IsTidy :
    (r : ConnectReplies) (err : Err) (c : Context) → IsTidy c → IsTidy (connect_fail r err c).1
unfolding connect_fail
connect_fail-IsTidy r err c v =
    (stop-IsTidy r.ntp_join r.ntp_destroy (downlink_stop r.downlink_join r.downlink_destroy c).1
      (stop-IsTidy r.downlink_join r.downlink_destroy c v).1).0

-- What a start of the tasks keeps.
ntp_start-IsTidy :
    (sem task : Err) (c : Context)
    → IsTidy c
    → c.ntp ≡ true
    → c.ntp_task ≡ false
    → IsTidy (ntp_start sem task c).1
      × ((ntp_start sem task c).1.downlink_task ≡ c.downlink_task)
      × ((ntp_start sem task c).1.downlink_queue ≡ c.downlink_queue)
      × ((ntp_start sem task c).1.state ≡ c.state)
unfolding ntp_start
ntp_start-IsTidy sem task c v held none_left = ground arith

downlink_start-IsTidy :
    (sem task : Err) (c : Context)
    → IsTidy c
    → c.downlink_queue ≡ true
    → c.downlink_task ≡ false
    → IsTidy (downlink_start sem task c).1 × ((downlink_start sem task c).1.state ≡ c.state)
unfolding downlink_start
downlink_start-IsTidy sem task c v held none_left = ground arith

connect_state-IsTidy :
    (r : ConnectReplies) (local : Bool) (c : Context)
    → IsTidy c
    → is_up c.state ≡ true
    → IsTidy (connect_state r local c).1
unfolding connect_state
connect_state-IsTidy r local c v up =
    ground (arith, connect_fail-IsTidy r (core_err unsupported) c v)

-- A connection attempt of a core that is up and has no task left keeps the core tidy, whether it
-- succeeds or not.
pub ops_connect-IsTidy :
    (r : ConnectReplies) (c : Context)
    → IsTidy c
    → is_up c.state ≡ true
    → c.ntp_task ≡ false
    → c.downlink_task ≡ false
    → IsTidy (ops_connect r c).1
unfolding ops_connect
ops_connect-IsTidy r c v up no_ntp no_downlink =
    let c1 = (ntp_start r.ntp_sem r.ntp_task c).1 in
    let c2 = (downlink_start r.downlink_sem r.downlink_task c1).1 in
    let (v1, d1, q1, s1) = ntp_start-IsTidy r.ntp_sem r.ntp_task c v (v.up_ntp up) no_ntp in
    let queue : c.downlink_queue ≡ true = v.queue_of ∙ v.up_cloud up in
    let (v2, s2) =
      downlink_start-IsTidy r.downlink_sem r.downlink_task c1 v1 (q1 ∙ queue) (d1 ∙ no_downlink) in
    let up2 : is_up c2.state ≡ true = ap is_up (s2 ∙ s1) ∙ up in
    ground (
      arith,
      connect_fail-IsTidy r (ntp_start r.ntp_sem r.ntp_task c).0 c1 v1,
      connect_fail-IsTidy r (read_local_registered r.marker).0 c1 v1,
      connect_fail-IsTidy r (downlink_start r.downlink_sem r.downlink_task c1).0 c2 v2,
      connect_state-IsTidy r (read_local_registered r.marker).1 c2 v2 up2,
    )

stop-state :
    (join destroy : Err) (c : Context)
    → let a = (ntp_stop join destroy c).1 in
      let b = (downlink_stop join destroy c).1 in
      (a.state ≡ c.state)
      × (b.state ≡ c.state)
      × (a.ntp ≡ c.ntp)
      × (b.ntp ≡ c.ntp)
      × (a.cloud ≡ c.cloud)
      × (b.cloud ≡ c.cloud)
      × (a.crypto ≡ c.crypto)
      × (b.crypto ≡ c.crypto)
unfolding ntp_stop ntp_clear downlink_stop downlink_clear
stop-state join destroy c = ground arith

pub ops_disconnect-IsTidy :
    (r : DisconnectReplies) (c : Context)
    → IsTidy c
    → is_up c.state ≡ true
    → IsTidy (ops_disconnect r c).1
unfolding ops_disconnect
ops_disconnect-IsTidy r c v up =
    let c1 = (ntp_stop r.ntp_join r.ntp_destroy c).1 in
    let c2 = (downlink_stop r.downlink_join r.downlink_destroy c1).1 in
    let v1 = (stop-IsTidy r.ntp_join r.ntp_destroy c v).0 in
    let v2 = (stop-IsTidy r.downlink_join r.downlink_destroy c1 v1).1 in
    let e1 = stop-state r.ntp_join r.ntp_destroy c in
    let e2 = stop-state r.downlink_join r.downlink_destroy c1 in
    let up2 : is_up c2.state ≡ true = ap is_up (e2.1 ∙ e1.0) ∙ up in ground (arith, v2, up2)

-- What a registration leaves alone.
abbrev Beside : Context → Context → Type 0
Beside c c' =
    (c'.cloud ≡ c.cloud)
    × (c'.downlink_queue ≡ c.downlink_queue)
    × (c'.downlink_task ≡ c.downlink_task)
    × (c'.crypto ≡ c.crypto)
    × (c'.ntp ≡ c.ntp)
    × (c'.ntp_task ≡ c.ntp_task)
    × (c'.ntp_tasks ≡ c.ntp_tasks)
    × (c'.downlink_tasks ≡ c.downlink_tasks)

module _ (json : CoreJson) (r : RegisterReplies) (t : Traffic) where
  make_keypair-Beside : (c : Context) → Beside c (make_keypair json r t c).1
  unfolding make_keypair
  make_keypair-Beside c = ground arith

  do_register-Beside : (c : Context) → Beside c (do_register json r t c).1
  unfolding do_register end_registration
  do_register-Beside c = ground (arith, make_keypair-Beside c)

  ops_register-Beside : (c : Context) → Beside c (ops_register json r t c).1
  unfolding ops_register commit_registered
  ops_register-Beside c = ground (arith, do_register-Beside c)

  refused_otherwise :
      (c : Context) → is_unregistered json r t c.state ≡ false → (ops_register json r t c).1 ≡ c
  unfolding ops_register
  refused_otherwise c other = rw (ops_register, other) refl

  pub ops_register-IsTidy :
      (c : Context) → AreHonest r → IsTidy c → IsTidy (ops_register json r t c).1
  ops_register-IsTidy c honest v =
      let beside = ops_register-Beside c in
      elim (ops_register-Answered json r t honest c) [
        | inl (e, before, st, key, over, answered) ↦ ground arith
        | inr (bad, st) ↦ elim (Bool-cases (is_unregistered json r t c.state)) [
          | inr other ↦ subst IsTidy (sym (refused_otherwise c other)) v
          | inl open_to ↦ ground arith
        ]
      ]
