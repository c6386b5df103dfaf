-- ===== src/Json.antt =====
-- source/components/json/source/core_json/json.c: the string utilities and the builder.
pub mod Chars
pub mod Escape
pub mod Unescape
pub mod Spec
pub mod EscapeLaws
pub mod Decoder
pub mod RoundTrip
pub mod Utf8
pub mod Builder
pub mod View
mod Tests
