-- ===== src/Core/Shutdown.antt =====
-- `core_ops_deinit`, part by part.
use ant_chain_trust_sdk.Prelude.{◌+◌, ◌≡◌, refl, false, arith, Bool-cases, inl, inr}
use ant_chain_trust_sdk.Errno.{Err, actrust_ok, is_ok}
use ant_chain_trust_sdk.Core.Context.{Context, deinit, set_state}
use ant_chain_trust_sdk.Core.Background.{downlink_stop, downlink_clear, ntp_stop, ntp_clear}
use ant_chain_trust_sdk.Core.Ops.{
  DeinitReplies, release_key, release_cloud, release_ntp, release_crypto, ops_deinit, ◌then_do◌,
}
use ant_chain_trust_sdk.Core.Tidy.{one_if, IsTidy, IsBare}

abbrev Part : Type 0
Part = Context → Err × Context

abbrev Down : Context → Type 0
Down c = IsTidy c × (c.state ≡ deinit)

-- From `A` a part leaves a tidy context in DEINIT, and `B` when it succeeds.
abbrev Leads : (Context → Type 0) → Part → (Context → Type 0) → Type 0
Leads A m B = (c : Context) → A c → Down (m c).1 × ((m c).0 ≡ actrust_ok → B (m c).1)

Leads-then_do :
    (A B C : Context → Type 0) (m k : Part) → Leads A m B → Leads B k C → Leads A (m then_do k) C
Leads-then_do A B C m k hm hk c a = elim (Bool-cases (is_ok (m c).0)) [
  | inl good ↦ rw good (hk (m c).1 ((hm c a).1 (ground arith)))
  | inr bad ↦ rw bad ((hm c a).0, λ e. absurd (ground arith))
]

-- What has been released behind each part.
abbrev NoNtpTask : Context → Type 0
NoNtpTask c = Down c × (c.ntp_task ≡ false) × (c.ntp_stop_sem ≡ false)

abbrev NoTask : Context → Type 0
NoTask c = NoNtpTask c × (c.downlink_task ≡ false) × (c.downlink_stop_sem ≡ false)

abbrev NoKey : Context → Type 0
NoKey c = NoTask c × (c.sign_key ≡ false)

abbrev NoCloud : Context → Type 0
NoCloud c = NoKey c × (c.cloud ≡ false)

abbrev NoNtp : Context → Type 0
NoNtp c = NoCloud c × (c.ntp ≡ false)

abbrev NoCrypto : Context → Type 0
NoCrypto c = NoNtp c × (c.crypto ≡ false)

-- Nothing is held any more, and no semaphore is left.
pub record Released (c : Context) : Type 0 where
  pub none_left : IsBare c
  pub no_ntp_sem : c.ntp_stop_sem ≡ false
  pub no_downlink_sem : c.downlink_stop_sem ≡ false

NoCrypto-Released : (c : Context) → NoCrypto c → Released c
NoCrypto-Released c n = record {
  none_left = ground arith;
  no_ntp_sem = ground arith;
  no_downlink_sem = ground arith;
}

module _ (r : DeinitReplies) where
  -- The parts from each one on
  abbrev from_ntp : Part
  from_ntp = release_ntp r then_do release_crypto r

  abbrev from_cloud : Part
  from_cloud = release_cloud r then_do from_ntp

  abbrev from_key : Part
  from_key = release_key r then_do from_cloud

  abbrev from_downlink : Part
  from_downlink = downlink_stop r.downlink_join r.downlink_destroy then_do from_key

  abbrev ntp_part : Part
  ntp_part = ntp_stop r.ntp_join r.ntp_destroy

  abbrev downlink_part : Part
  downlink_part = downlink_stop r.downlink_join r.downlink_destroy

  ntp_stop-Leads : Leads Down (ntp_stop r.ntp_join r.ntp_destroy) NoNtpTask
  unfolding ntp_stop ntp_clear
  ntp_stop-Leads c d = ((ground arith, ground arith), λ e. ground arith)

  downlink_stop-Leads : Leads NoNtpTask (downlink_stop r.downlink_join r.downlink_destroy) NoTask
  unfolding downlink_stop downlink_clear
  downlink_stop-Leads c d = ((ground arith, ground arith), λ e. ground arith)

  release_key-Leads : Leads NoTask (release_key r) NoKey
  unfolding release_key
  release_key-Leads c d = ((ground arith, ground arith), λ e. ground arith)

  release_cloud-Leads : Leads NoKey (release_cloud r) NoCloud
  unfolding release_cloud
  release_cloud-Leads c d = ((ground arith, ground arith), λ e. ground arith)

  release_ntp-Leads : Leads NoCloud (release_ntp r) NoNtp
  unfolding release_ntp
  release_ntp-Leads c d = ((ground arith, ground arith), λ e. ground arith)

  release_crypto-Leads : Leads NoNtp (release_crypto r) NoCrypto
  unfolding release_crypto
  release_crypto-Leads c d = ((ground arith, ground arith), λ e. ground arith)

  -- A deinitialization of a tidy core leaves a tidy one in DEINIT, from which it can be tried again.
  -- When it succeeds nothing is held any more, and both background tasks have been joined.
  pub ops_deinit-Released :
      (c : Context)
      → IsTidy c
      → let (e, c') = ops_deinit r c in
        IsTidy c' × (c'.state ≡ deinit) × (e ≡ actrust_ok → Released c')
  unfolding ops_deinit
  ops_deinit-Released c v =
      let start : Down (set_state deinit c) = (ground arith, refl) in
      let run =
        Leads-then_do Down NoNtpTask NoCrypto ntp_part from_downlink ntp_stop-Leads
          (Leads-then_do NoNtpTask NoTask NoCrypto downlink_part from_key downlink_stop-Leads (
            Leads-then_do NoTask NoKey NoCrypto (release_key r) from_cloud release_key-Leads (
              Leads-then_do NoKey NoCloud NoCrypto (release_cloud r) from_ntp release_cloud-Leads (
                Leads-then_do NoCloud NoNtp NoCrypto (release_ntp r) (release_crypto r)
                  release_ntp-Leads release_crypto-Leads))))
          (set_state deinit c) start in
      (run.0.0, run.0.1, λ e. NoCrypto-Released _ (run.1 e))

  -- A part that succeeds leads from `A` to `B`.
  abbrev Gives : (Context → Type 0) → Part → (Context → Type 0) → Type 0
  Gives A m B = (c : Context) → A c → (m c).0 ≡ actrust_ok → B (m c).1

  Gives-then_do :
      (A B C : Context → Type 0) (m k : Part) → Gives A m B → Gives B k C → Gives A (m then_do k) C
  Gives-then_do A B C m k hm hk c a = elim (Bool-cases (is_ok (m c).0)) [
    | inl good ↦ rw good (λ e. hk (m c).1 (hm c a (ground arith)) e)
    | inr bad ↦ rw bad (λ e. absurd (ground arith))
  ]

  -- One NTP task more runs than there is a handle for.
  abbrev pub OneForgotten : Context → Type 0
  OneForgotten c = c.ntp_tasks ≡ 1 + one_if c.ntp_task

  abbrev OneLeft : Context → Type 0
  OneLeft c = c.ntp_tasks ≡ 1

  abbrev OneLeftFreed : Context → Type 0
  OneLeftFreed c = (c.ntp_tasks ≡ 1) × (c.ntp ≡ false)

  ntp_stop-Gives : Gives OneForgotten (ntp_stop r.ntp_join r.ntp_destroy) OneLeft
  unfolding ntp_stop ntp_clear
  ntp_stop-Gives c a e = ground arith

  downlink_stop-Gives : Gives OneLeft (downlink_stop r.downlink_join r.downlink_destroy) OneLeft
  unfolding downlink_stop downlink_clear
  downlink_stop-Gives c a e = ground arith

  release_key-Gives : Gives OneLeft (release_key r) OneLeft
  unfolding release_key
  release_key-Gives c a e = ground arith

  release_cloud-Gives : Gives OneLeft (release_cloud r) OneLeft
  unfolding release_cloud
  release_cloud-Gives c a e = ground arith

  release_ntp-Gives : Gives OneLeft (release_ntp r) OneLeftFreed
  unfolding release_ntp
  release_ntp-Gives c a e = (ground arith, ground arith)

  release_crypto-Gives : Gives OneLeftFreed (release_crypto r) OneLeftFreed
  unfolding release_crypto
  release_crypto-Gives c a e = (ground arith, ground arith)

  pub ops_deinit-OneForgotten :
      (c : Context)
      → OneForgotten c
      → (ops_deinit r c).0 ≡ actrust_ok
      → ((ops_deinit r c).1.ntp_tasks ≡ 1) × ((ops_deinit r c).1.ntp ≡ false)
  unfolding ops_deinit
  ops_deinit-OneForgotten c a e =
      Gives-then_do OneForgotten OneLeft OneLeftFreed ntp_part from_downlink ntp_stop-Gives
        (Gives-then_do OneLeft OneLeft OneLeftFreed downlink_part from_key downlink_stop-Gives (
          Gives-then_do OneLeft OneLeft OneLeftFreed (release_key r) from_cloud release_key-Gives (
            Gives-then_do OneLeft OneLeft OneLeftFreed (release_cloud r) from_ntp
              release_cloud-Gives
              (Gives-then_do OneLeft OneLeftFreed OneLeftFreed (release_ntp r) (release_crypto r)
                release_ntp-Gives release_crypto-Gives))))
        (set_state deinit c) a e
