-- ===== src/Core/Context.antt =====
-- The core's context, `actrust_core_ctx_t` of source/core/include/core/core_internal.h, as far as the
-- operations of core_ops.c use it.
use ant_chain_trust_sdk.Prelude.{ℕ, Bool}
use ant_chain_trust_sdk.Core.Handshake.{Registration}

-- `actrust_core_state_t`
pub data CoreState : Type 0 where
  uninit initing init_failed ready unregistered registered deinit : CoreState

-- A handle is the Boolean that says it is not null. Two numbers are no fields of the code:
-- `ntp_tasks` and `downlink_tasks` are the tasks of each kind that were created and not joined yet.
pub record Context : Type 0 where
  pub state : CoreState
  pub cloud : Bool
  pub downlink_queue : Bool
  pub downlink_task : Bool
  pub downlink_stop_sem : Bool
  pub crypto : Bool
  pub sign_key : Bool
  pub ntp : Bool
  pub ntp_task : Bool
  pub ntp_stop_sem : Bool
  pub reg : Registration
  pub ntp_tasks : ℕ
  pub downlink_tasks : ℕ

-- `core_set_state`
abbrev pub set_state : CoreState → Context → Context
set_state st c = record c { state = st }
