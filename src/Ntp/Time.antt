-- ===== src/Ntp/Time.antt =====
-- The arithmetic of ntp.c: deadlines, corrected time, timestamps and the limit on offsets. A clock
-- reading is an argument.
use ant_chain_trust_sdk.Prelude.{
  ℕ, ◌+◌, ◌-◌, ◌*◌, ◌/◌, ◌%◌, ◌^◌, Bool, true, ◌&&◌, ltb, leb, ◌==◌, if◌then◌else◌,
}
use ant_chain_trust_sdk.Prelude.Int.{ℤ, pos, negsuc, leb_ℤ, minus}
use ant_chain_trust_sdk.Errno.{
  Err, Outcome, fail, done, err_make, module_components_ntp, hw_failure, timeout, bad_state,
}

-- `NTP_ERR`
unfoldable pub ntp_err : ℕ → Err
ntp_err reason = err_make module_components_ntp reason

-- `ntp_deadline_t`
pub record Deadline : Type 0 where
  pub start_ms : ℕ
  pub budget_ms : ℕ

-- `ntp_deadline_start`
unfoldable pub deadline_start : ℕ → ℕ → Outcome Deadline
deadline_start now budget_ms =
    if now == 0
    then fail (ntp_err hw_failure)
    else done (record { start_ms = now; budget_ms = budget_ms })

-- `ntp_deadline_remaining`; the time that has passed is computed in `uint64_t`.
unfoldable pub deadline_remaining : ℕ → Deadline → Outcome ℕ
deadline_remaining now d =
    if now == 0
    then fail (ntp_err hw_failure)
    else let elapsed = (now + 2 ^ 64 - d.start_ms) % 2 ^ 64 in
      if leb d.budget_ms elapsed then fail (ntp_err timeout) else done (d.budget_ms - elapsed)

-- `ntp_checked_time`. For a negative offset the magnitude is `-(offset_ms + 1) + 1`.
unfoldable pub checked_time : ℕ → ℤ → Outcome ℕ
checked_time wall_ms (pos offset) =
    if wall_ms == 0
    then fail (ntp_err hw_failure)
    else if ltb (2 ^ 64 - 1 - offset) wall_ms
    then fail (ntp_err bad_state)
    else done (wall_ms + offset)
checked_time wall_ms (negsuc n) =
    if wall_ms == 0
    then fail (ntp_err hw_failure)
    else let magnitude = (n + 1) % 2 ^ 64 in
      if ltb wall_ms magnitude then fail (ntp_err bad_state) else done (wall_ms - magnitude)

-- `SntpTimestamp_t`
pub record Timestamp : Type 0 where
  pub seconds : ℕ
  pub fractions : ℕ

-- `wall_ms_to_sntp`; `epoch` and `per_us` are coreSNTP's SNTP_TIME_AT_UNIX_EPOCH_SECS and
-- SNTP_FRACTION_VALUE_PER_MICROSECOND.
unfoldable pub wall_ms_to_sntp : ℕ → ℕ → ℕ → Timestamp
wall_ms_to_sntp epoch per_us wall_ms =
    let unix_secs = wall_ms / 1000 % 2 ^ 32 in
    let frac_us = wall_ms % 1000 % 2 ^ 32 * 1000 % 2 ^ 32 in
    record { seconds = (unix_secs + epoch) % 2 ^ 32; fractions = frac_us * per_us % 2 ^ 32 }

-- `ntp_offset_is_acceptable`; `max` is CONFIG_ACTRUST_NTP_MAX_OFFSET_MS.
unfoldable pub offset_is_acceptable : ℕ → ℤ → Bool
offset_is_acceptable max offset =
    if max == 0 then true else leb_ℤ (minus max) offset && leb_ℤ offset (pos max)
