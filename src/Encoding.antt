-- ===== src/Encoding.antt =====
-- source/common/source/encoding.c: bytes written in hexadecimal.
pub mod Hex
pub mod Laws
mod Tests
