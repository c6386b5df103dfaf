-- ===== src/Core/Life.antt =====
-- The life cycle of the core, one operation of the service task after the other.
use ant_chain_trust_sdk.Prelude.{◌≡◌, ◌⊎◌, inl, inr, refl, true, false, arith}
use ant_chain_trust_sdk.Errno.{Err, actrust_ok}
use ant_chain_trust_sdk.Core.Context.{Context, ready}
use ant_chain_trust_sdk.Core.Background.{downlink_start, ntp_start}
use ant_chain_trust_sdk.Core.Ops.{
  InitReplies, DeinitReplies, ConnectReplies, DisconnectReplies, read_local_registered, ops_init,
  ops_deinit, connect_state, ops_connect, ops_disconnect,
}
use ant_chain_trust_sdk.Core.Tidy.{is_up, IsTidy, IsBare}
use ant_chain_trust_sdk.Core.Init.{Failed, ops_init-Settled}
use ant_chain_trust_sdk.Core.Shutdown.{ops_deinit-Released, ops_deinit-OneForgotten}
use ant_chain_trust_sdk.Json.View.{CoreJson}
use ant_chain_trust_sdk.Core.Register.{RegisterReplies, Traffic, ops_register}
use ant_chain_trust_sdk.Core.Agreed.{AreHonest}
use ant_chain_trust_sdk.Core.Kept.{ops_connect-IsTidy, ops_disconnect-IsTidy, ops_register-IsTidy}

-- The operations that the service task runs on one core, each when its job is let in: a connection
-- attempt finds the tasks of an earlier connection joined.
pub data Step : Context → Context → Type 0 where
  connect :
      (r : ConnectReplies) (c : Context)
      → is_up c.state ≡ true
      → c.ntp_task ≡ false
      → c.downlink_task ≡ false
      → Step c (ops_connect r c).1
  disconnect :
      (r : DisconnectReplies) (c : Context) → is_up c.state ≡ true → Step c (ops_disconnect r c).1
  register :
      (json : CoreJson) (r : RegisterReplies) (t : Traffic) (c : Context)
      → AreHonest r
      → Step c (ops_register json r t c).1
  shut_down : (r : DeinitReplies) (c : Context) → Step c (ops_deinit r c).1

pub data Reach (s : Context) : Context → Type 0 where
  here : Reach s s
  next : {t u : Context} → Reach s t → Step t u → Reach s u

Step-IsTidy : {s t : Context} → Step s t → IsTidy s → IsTidy t
Step-IsTidy (connect r c up n d) v = ops_connect-IsTidy r c v up n d
Step-IsTidy (disconnect r c up) v = ops_disconnect-IsTidy r c v up
Step-IsTidy (register json r t c honest) v = ops_register-IsTidy json r t c honest v
Step-IsTidy (shut_down r c) v = (ops_deinit-Released r c v).0

-- From a core that holds nothing, an initialization and any operations after it, with any results of
-- the calls they make, keep the core tidy: every background task that runs is one whose handle is
-- kept, and runs only while the NTP client or the queue that it uses is there; a core that is up has
-- its components, and a registered one its signing key. A connection attempt finds earlier tasks
-- joined, and a call of a registration that gives no value returns an error.
pub Reach-IsTidy :
    (r : InitReplies) (s t : Context) → IsBare s → Reach (ops_init r s).1 t → IsTidy t
Reach-IsTidy r s t b reach = kept (ops_init-Settled r s b) reach
  where
    kept :
        {e : Err} {c u : Context}
        → (e ≡ actrust_ok) × (c.state ≡ ready) × IsTidy c ⊎ Failed r e c
        → Reach c u
        → IsTidy u
    kept (inl (e, st, v)) here = v
    kept (inr f) here = f.tidy
    kept h (next rest st) = Step-IsTidy st (kept h rest)

-- The replies of a connection attempt in which every call succeeds.
abbrev pub all_good : ConnectReplies
all_good = record {
  cloud = actrust_ok;
  ntp_sem = actrust_ok;
  ntp_task = actrust_ok;
  marker = record { opened = actrust_ok; called = actrust_ok; found = false; closed = actrust_ok };
  downlink_sem = actrust_ok;
  downlink_task = actrust_ok;
  ntp_join = actrust_ok;
  ntp_destroy = actrust_ok;
  downlink_join = actrust_ok;
  downlink_destroy = actrust_ok;
}

-- Where the clean-up of a connection attempt could not join the NTP task, a connection that succeeds
-- starts a second one and forgets the first: a deinitialization that succeeds then frees the NTP
-- client while a task that was not joined still uses it.
pub connect_forgets_task :
    (r : DeinitReplies) (c : Context)
    → IsTidy c
    → is_up c.state ≡ true
    → c.ntp_task ≡ true
    → let (e, c1) = ops_connect all_good c in
      let (e', c2) = ops_deinit r c1 in
      (e ≡ actrust_ok) × (e' ≡ actrust_ok → (c2.ntp ≡ false) × (c2.ntp_tasks ≡ 1))
unfolding ops_connect connect_state ntp_start downlink_start read_local_registered
connect_forgets_task r c v up left = (
  refl,
  λ e.
      let gone = ops_deinit-OneForgotten r (ops_connect all_good c).1 (ground arith) e in
      (gone.1, gone.0),
)
