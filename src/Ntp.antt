-- ===== src/Ntp.antt =====
-- source/components/ntp/source/ntp.c: the NTP client.
pub mod Time
pub mod Client
pub mod Sync
pub mod Clock
pub mod Users
mod Tests
