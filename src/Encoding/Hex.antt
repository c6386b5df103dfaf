-- ===== src/Encoding/Hex.antt =====
-- `actrust_hex_encode` of source/common/source/encoding.c. A null pointer is `none`.
use ant_chain_trust_sdk.Prelude.{
  ℕ, ◌*◌, ◌/◌, ◌%◌, Bool, not, Option, none, some, List, [], ◌∷◌, ◌++◌, take, get_or, ltb,
  if◌then◌else◌,
}

abbrev pub Bytes : Type 0
Bytes = List ℕ

-- The characters `0` to `9` and `a` to `f`.
abbrev pub hex : Bytes
hex =
    b'0' ∷ b'1' ∷ b'2' ∷ b'3' ∷ b'4' ∷ b'5' ∷ b'6' ∷ b'7' ∷ b'8' ∷ b'9' ∷ b'a' ∷ b'b' ∷ b'c' ∷ b'd'
    ∷ b'e' ∷ b'f' ∷ []

-- The loop: what it writes for the bytes.
unfoldable pub hex_loop : Bytes → Bytes
hex_loop [] = []
hex_loop (b ∷ s) = get_or hex (b / 16) 0 ∷ get_or hex (b % 16) 0 ∷ hex_loop s

-- `actrust_hex_encode`: the length that it returns, and the bytes that it writes to `out`, where
-- `has_out` says that `out` is not null. The input holds `in_len` bytes.
unfoldable pub hex_encode : Option Bytes → ℕ → Bool → ℕ × Bytes
hex_encode input in_len has_out = if not has_out then (0, []) else elim input [
  | none ↦ if ltb 0 in_len then (0, []) else (in_len * 2, 0 ∷ [])
  | some s ↦ (in_len * 2, hex_loop (take in_len s) ++ 0 ∷ [])
]
