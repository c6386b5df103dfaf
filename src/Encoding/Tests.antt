-- ===== src/Encoding/Tests.antt =====
-- The hexadecimal encoder at concrete inputs.
use ant_chain_trust_sdk.Prelude.{◌≡◌, true, some, none, [], ◌∷◌, ◌++◌, length, All, arith}
use ant_chain_trust_sdk.Json.Chars.{escape_seq}
use ant_chain_trust_sdk.Encoding.Hex.{Bytes, hex_encode}
use ant_chain_trust_sdk.Encoding.Laws.{read_hex, read_hex-hex_encode}

abbrev some_bytes : Bytes
some_bytes = 0x00 ∷ 0x7f ∷ 0xa5 ∷ []

read_hex-hex_encode_example :
    (text : Bytes) × (hex_encode (some some_bytes) 3 true ≡ (6, text ++ 0 ∷ []))
    × (length text ≡ 6)
    × (read_hex text ≡ some some_bytes)
    × All (λ c. escape_seq c ≡ none) text
read_hex-hex_encode_example = read_hex-hex_encode some_bytes (omega arith)
