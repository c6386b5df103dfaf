-- ===== src/Kv.antt =====
-- The key-value store of kv.c: its bytes, its storage, recovery, and the operations on keys.
pub mod Codec
pub mod Disk
pub mod Recover
pub mod Prepare
pub mod Store
pub mod Words
pub mod RoundTrip
pub mod Region
mod Tests
pub mod Parts
pub mod Valid
pub mod Selected
pub mod Runs
pub mod Sound
pub mod Change
pub mod Crash
pub mod Lookup
pub mod Entry
pub mod Steps
pub mod SetLocked
pub mod SetGet
pub mod Others
pub mod Delete
