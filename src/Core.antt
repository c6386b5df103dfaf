-- ===== src/Core.antt =====
-- source/core/source/core_ops.c: what the service task runs.
pub mod Handshake
pub mod Context
pub mod Background
pub mod Ops
pub mod Register
pub mod Answers
pub mod Registered
pub mod Agreed
pub mod Answered
pub mod Submit
pub mod Filled
pub mod Submitted
pub mod Tidy
pub mod Init
pub mod Shutdown
pub mod Kept
pub mod Life
mod Tests
mod Runs
