-- ===== src/Queue.antt =====
-- source/components/queue/source/queue.c: the bounded queue between two tasks.
pub mod Sections
pub mod Wait
pub mod Calls
pub mod Close
pub mod Refine
pub mod Threads
pub mod Quiet
pub mod Shut
pub mod Leaks
mod Tests
