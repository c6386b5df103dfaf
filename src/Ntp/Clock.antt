-- ===== src/Ntp/Clock.antt =====
-- What the arithmetic of ntp.c gives.
use ant_chain_trust_sdk.Prelude.{ℕ, ◌+◌, ◌-◌, ◌^◌, ◌<◌, ◌≤◌, ◌≡◌, ltb, ◌==◌, if◌then◌else◌, arith}
use ant_chain_trust_sdk.Prelude.Int.{ℤ, pos, negsuc, ◌+ℤ◌, ◌≤ℤ◌}
use ant_chain_trust_sdk.Errno.{Outcome, fail, done, hw_failure, bad_state}
use ant_chain_trust_sdk.Ntp.Time.{ntp_err, Deadline, deadline_remaining, checked_time}

-- An integer as a `uint64_t`, where it fits.
unfoldable pub in_u64 : ℤ → Outcome ℕ
in_u64 (pos n) = if ltb n (2 ^ 64) then done n else fail (ntp_err bad_state)
in_u64 (negsuc n) = fail (ntp_err bad_state)

-- For a wall clock of 64 bits and an offset in the range of `int64_t`, the corrected time is their sum
-- as integers where that fits `uint64_t`, and else BAD_STATE; a wall clock of 0 is HW_FAILURE.
pub checked_time_lem :
    (wall : ℕ) (offset : ℤ)
    → wall < 2 ^ 64
    → negsuc (2 ^ 63 - 1) ≤ℤ offset
    → offset ≤ℤ pos (2 ^ 63 - 1)
    → checked_time wall offset
      ≡ (if wall == 0 then fail (ntp_err hw_failure) else in_u64 (pos wall +ℤ offset))
unfolding checked_time in_u64 ◌+ℤ◌
checked_time_lem wall (pos n) small low high = ground arith
checked_time_lem wall (negsuc n) small low high = ground arith

-- What is left before a deadline, on a clock that has not gone back, ends at the deadline.
pub deadline_remaining-done :
    (now : ℕ) (d : Deadline) {ms : ℕ}
    → d.start_ms ≤ now
    → now < 2 ^ 64
    → deadline_remaining now d ≡ done ms
    → (0 < ms) × (now + ms ≡ d.start_ms + d.budget_ms)
unfolding deadline_remaining
deadline_remaining-done now d later fits e = ground arith
