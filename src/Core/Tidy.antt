-- ===== src/Core/Tidy.antt =====
-- What the core's state says of what it holds.
use ant_chain_trust_sdk.Prelude.{ℕ, ◌≡◌, Bool, true, false, if◌then◌else◌}
use ant_chain_trust_sdk.Core.Context.{Context, CoreState, ready, unregistered, registered}

-- Initialized, and not on the way down.
abbrev pub is_up : CoreState → Bool
is_up ready = true
is_up unregistered = true
is_up registered = true
is_up _ = false

abbrev pub one_if : Bool → ℕ
one_if b = if b then 1 else 0

-- Every task that runs is one whose handle is kept, and what it uses is there; a core that is up has
-- its components, and a registered one its signing key.
pub record IsTidy (c : Context) : Type 0 where
  pub ntp_kept : c.ntp_tasks ≡ one_if c.ntp_task
  pub downlink_kept : c.downlink_tasks ≡ one_if c.downlink_task
  pub ntp_used : c.ntp_task ≡ true → c.ntp ≡ true
  pub queue_used : c.downlink_task ≡ true → c.downlink_queue ≡ true
  pub queue_of : c.downlink_queue ≡ c.cloud
  pub up_ntp : is_up c.state ≡ true → c.ntp ≡ true
  pub up_cloud : is_up c.state ≡ true → c.cloud ≡ true
  pub up_crypto : is_up c.state ≡ true → c.crypto ≡ true
  pub signed : c.state ≡ registered → c.sign_key ≡ true

-- Nothing is held.
pub record IsBare (c : Context) : Type 0 where
  pub no_cloud : c.cloud ≡ false
  pub no_queue : c.downlink_queue ≡ false
  pub no_downlink : c.downlink_task ≡ false
  pub no_crypto : c.crypto ≡ false
  pub no_key : c.sign_key ≡ false
  pub no_ntp : c.ntp ≡ false
  pub no_ntp_task : c.ntp_task ≡ false
  pub no_tasks : c.ntp_tasks ≡ 0
  pub no_downlinks : c.downlink_tasks ≡ 0
