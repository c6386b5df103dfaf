-- ===== src/Json/Chars.antt =====
-- Characters of json.c: the escape sequences, hexadecimal digits and the UTF-8 encoder.
-- A `char` is a byte; the comparisons that the code makes read the same signed or unsigned.
use Prim.Native.Nat.{bit_or}
use ant_chain_trust_sdk.Prelude.{
  ℕ, ◌+◌, ◌-◌, ◌*◌, ◌/◌, ◌%◌, ◌^◌, ◌&&◌, Option, none, some, List, [], ◌∷◌, ltb, leb, ◌==◌,
  if◌then◌else◌,
}

abbrev pub Bytes : Type 0
Bytes = List ℕ

-- `size_t` addition
abbrev pub add_size : ℕ → ℕ → ℕ
add_size a b = (a + b) % 2 ^ 64

abbrev pub shl32 : ℕ → ℕ → ℕ
shl32 x k = x * 2 ^ k % 2 ^ 32

abbrev pub shr : ℕ → ℕ → ℕ
shr x k = x / 2 ^ k

-- `x & (2^k - 1)`
abbrev pub low_bits : ℕ → ℕ → ℕ
low_bits x k = x % 2 ^ k

-- A digit of `%x`.
unfoldable pub hex_digit : ℕ → ℕ
hex_digit d = if ltb d 10 then b'0' + d else b'a' + (d - 10)

-- What `snprintf` writes for `"\\u%04x"` and a value below 2 ^ 16: six bytes, so the code's check of
-- its result against `sizeof(hex_buf)` passes.
unfoldable pub hex_escape : ℕ → Bytes
hex_escape n =
    b'\\'
    ∷ b'u'
    ∷ hex_digit (n / 2 ^ 12 % 16)
    ∷ hex_digit (n / 2 ^ 8 % 16)
    ∷ hex_digit (n / 2 ^ 4 % 16)
    ∷ hex_digit (n % 16)
    ∷ []

-- The `switch` on the byte: the sequence that stands for it, `none` where it is copied.
unfoldable pub escape_seq : ℕ → Option Bytes
escape_seq c =
    if c == b'"'
    then some (b'\\' ∷ b'"' ∷ [])
    else if c == b'\\'
    then some (b'\\' ∷ b'\\' ∷ [])
    else if c == 0x08
    then some (b'\\' ∷ b'b' ∷ [])
    else if c == 0x0c
    then some (b'\\' ∷ b'f' ∷ [])
    else if c == 0x0a
    then some (b'\\' ∷ b'n' ∷ [])
    else if c == 0x0d
    then some (b'\\' ∷ b'r' ∷ [])
    else if c == 0x09
    then some (b'\\' ∷ b't' ∷ [])
    else if ltb c 0x20
    then some (hex_escape c)
    else none

-- `json_hex_digit_to_int`; `none` is its -1.
unfoldable pub hex_digit_to_int : ℕ → Option ℕ
hex_digit_to_int c =
    if leb b'0' c && leb c b'9'
    then some (c - b'0')
    else if leb b'a' c && leb c b'f'
    then some (c - b'a' + 10)
    else if leb b'A' c && leb c b'F'
    then some (c - b'A' + 10)
    else none

-- `(h1 << 12) | (h2 << 8) | (h3 << 4) | h4`
unfoldable pub join_hex : ℕ → ℕ → ℕ → ℕ → ℕ
join_hex h1 h2 h3 h4 = bit_or (bit_or (bit_or (shl32 h1 12) (shl32 h2 8)) (shl32 h3 4)) h4

-- The encoder of a code point. A byte is cast from the word. `& 0x3Fu` keeps six bits.
unfoldable pub encode_utf8 : ℕ → Bytes
encode_utf8 cp =
    if leb cp 0x7f
    then cp % 256 ∷ []
    else if leb cp 0x7ff
    then bit_or 0xc0 (shr cp 6) % 256 ∷ bit_or 0x80 (low_bits cp 6) % 256 ∷ []
    else if leb cp 0xffff
    then bit_or 0xe0 (shr cp 12) % 256
      ∷ bit_or 0x80 (low_bits (shr cp 6) 6) % 256
      ∷ bit_or 0x80 (low_bits cp 6) % 256
      ∷ []
    else bit_or 0xf0 (shr cp 18) % 256
      ∷ bit_or 0x80 (low_bits (shr cp 12) 6) % 256
      ∷ bit_or 0x80 (low_bits (shr cp 6) 6) % 256
      ∷ bit_or 0x80 (low_bits cp 6) % 256
      ∷ []
