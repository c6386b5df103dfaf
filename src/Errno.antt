-- ===== src/Errno.antt =====
-- include/actrust_errno.h: an error is a 32-bit word, the module's identifier above the reason.
use ant_chain_trust_sdk.Prelude.{
  ℕ, ◌+◌, ◌*◌, ◌/◌, ◌%◌, ◌^◌, ◌<◌, ◌≡◌, ◌⊎◌, inl, inr, refl, Bool, not, ◌==◌, arith,
}

-- `actrust_err_t`
abbrev pub Err : Type 0
Err = ℕ

abbrev pub actrust_ok : Err
actrust_ok = 0

-- A call that gives a value through a pointer when it succeeds.
pub data Outcome (A : Type 0) : Type 0 where
  fail : Err → Outcome A
  done : A → Outcome A

pub Outcome-cases :
    {A : Type 0} (o : Outcome A) → ((e : Err) × (o ≡ fail e)) ⊎ ((a : A) × (o ≡ done a))
Outcome-cases (fail e) = inl (e, refl)
Outcome-cases (done a) = inr (a, refl)

-- `ACTRUST_ERR_MAKE`, also spelled `ACTRUST_ERR`. The two halves share no bit, so `|` is `+`.
unfoldable pub err_make : ℕ → ℕ → Err
err_make module_id code = module_id % 2 ^ 16 * 2 ^ 16 + code % 2 ^ 16

unfoldable pub err_module : Err → ℕ
err_module e = e / 2 ^ 16 % 2 ^ 16

unfoldable pub err_code : Err → ℕ
err_code e = e % 2 ^ 16

abbrev pub is_ok : Err → Bool
is_ok e = e == actrust_ok

abbrev pub is_err : Err → Bool
is_err e = not (e == actrust_ok)

-- The module identifiers and the common reasons.
abbrev pub module_core : ℕ
module_core = 0x0001

abbrev pub module_components_queue : ℕ
module_components_queue = 0x2001

abbrev pub module_components_kv : ℕ
module_components_kv = 0x2002

abbrev pub module_components_json : ℕ
module_components_json = 0x2003

abbrev pub module_components_ntp : ℕ
module_components_ntp = 0x2005

abbrev pub module_adapter_system : ℕ
module_adapter_system = 0x4000

abbrev pub invalid_arg : ℕ
invalid_arg = 0x0001

abbrev pub not_ready : ℕ
not_ready = 0x0002

abbrev pub bad_state : ℕ
bad_state = 0x0003

abbrev pub timeout : ℕ
timeout = 0x0004

abbrev pub unsupported : ℕ
unsupported = 0x0005

abbrev pub busy : ℕ
busy = 0x0006

abbrev pub would_block : ℕ
would_block = 0x0008

abbrev pub queue_full : ℕ
queue_full = 0x0009

abbrev pub no_mem : ℕ
no_mem = 0x0020

abbrev pub no_resource : ℕ
no_resource = 0x0021

abbrev pub buf_too_small : ℕ
buf_too_small = 0x0022

abbrev pub io : ℕ
io = 0x0023

abbrev pub hw_failure : ℕ
hw_failure = 0x0040

-- An error made of a 16-bit module and a 16-bit reason splits back into the two, and fits 32 bits.
pub err_make_parts :
    (m c : ℕ)
    → m < 2 ^ 16
    → c < 2 ^ 16
    → (err_module (err_make m c) ≡ m) × (err_code (err_make m c) ≡ c) × (err_make m c < 2 ^ 32)
unfolding err_module err_code err_make
err_make_parts m c hm hc = omega arith
