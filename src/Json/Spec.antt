-- ===== src/Json/Spec.antt =====
-- What escaping means, independent of buffers, and the laws of single characters.
use ant_chain_trust_sdk.Prelude.{
  ℕ, ◌/◌, ◌%◌, ◌^◌, ◌<◌, ◌≤◌, ◌≡◌, ◌≢◌, refl, inl, inr, Bool-cases, ltb, ltb→lt, true, none, some,
  [], ◌∷◌, ◌++◌, length, ◌==◌, ==_iff, sweep, sweep_sound, arith,
}
use ant_chain_trust_sdk.Json.Chars.{
  Bytes, hex_digit, hex_escape, escape_seq, hex_digit_to_int, join_hex, encode_utf8,
}
use ant_chain_trust_sdk.Json.Unescape.{
  Round, refuse, yield, read_hex4, unicode_escape, escape_case, unescape_step, after_backslash,
}

-- How one byte is written.
unfoldable pub escape_byte : ℕ → Bytes
escape_byte c = elim (escape_seq c) [ some esc ↦ esc | none ↦ c ∷ [] ]

-- How a text is written.
unfoldable pub escape_all : Bytes → Bytes
escape_all [] = []
escape_all (c ∷ s) = escape_byte c ++ escape_all s

pub length-escape_byte : (c : ℕ) → (1 ≤ length (escape_byte c)) × (length (escape_byte c) ≤ 6)
unfolding escape_byte escape_seq hex_escape
length-escape_byte c = ground arith

pub hex_digit_to_int-hex_digit : (d : ℕ) → d < 16 → hex_digit_to_int (hex_digit d) ≡ some d
unfolding hex_digit_to_int hex_digit
hex_digit_to_int-hex_digit d h = ground arith

join_hex_table : sweep (λ n. join_hex 0 0 (n / 16) (n % 16) == n) 256 ≡ true
unfolding sweep join_hex
join_hex_table = refl

join_hex_low : (n : ℕ) → n < 256 → join_hex 0 0 (n / 16) (n % 16) ≡ n
join_hex_low n h = (==_iff _ n).0 (sweep_sound _ 256 n join_hex_table h)

read_hex4-hex_escape :
    (c : ℕ) (rest : Bytes)
    → c < 0x20
    → read_hex4 (
        hex_digit (c / 2 ^ 12 % 16)
        ∷ hex_digit (c / 2 ^ 8 % 16)
        ∷ hex_digit (c / 2 ^ 4 % 16)
        ∷ hex_digit (c % 16)
        ∷ rest)
      ≡ some (c, rest)
unfolding read_hex4
read_hex4-hex_escape c rest h = ground (
  arith,
  hex_digit_to_int-hex_digit 0 (omega arith),
  hex_digit_to_int-hex_digit (c / 16) (omega arith),
  hex_digit_to_int-hex_digit (c % 16) (omega arith),
  join_hex_low c (omega arith),
)

-- A control character comes back from its hexadecimal escape.
unicode_escape-hex_escape :
    (c : ℕ) (rest : Bytes)
    → c < 0x20
    → unescape_step b'\\' (
        b'u'
        ∷ hex_digit (c / 2 ^ 12 % 16)
        ∷ hex_digit (c / 2 ^ 8 % 16)
        ∷ hex_digit (c / 2 ^ 4 % 16)
        ∷ hex_digit (c % 16)
        ∷ rest)
      ≡ yield (c ∷ []) rest
unfolding unescape_step after_backslash escape_case unicode_escape encode_utf8
unicode_escape-hex_escape c rest h = ground (arith, read_hex4-hex_escape c rest h)

control_rounds :
    (c : ℕ) (rest : Bytes)
    → (unescape_step b'\\' (b'b' ∷ rest) ≡ yield (0x08 ∷ []) rest)
      × (unescape_step b'\\' (b'f' ∷ rest) ≡ yield (0x0c ∷ []) rest)
      × (unescape_step b'\\' (b'n' ∷ rest) ≡ yield (0x0a ∷ []) rest)
      × (unescape_step b'\\' (b'r' ∷ rest) ≡ yield (0x0d ∷ []) rest)
      × (unescape_step b'\\' (b't' ∷ rest) ≡ yield (0x09 ∷ []) rest)
unfolding unescape_step after_backslash escape_case
control_rounds c rest = (refl, refl, refl, refl, refl)

plain_rounds :
    (c : ℕ) (rest : Bytes)
    → (unescape_step b'\\' (b'"' ∷ rest) ≡ yield (b'"' ∷ []) rest)
      × (unescape_step b'\\' (b'\\' ∷ rest) ≡ yield (b'\\' ∷ []) rest)
      × (c ≢ b'\\' → unescape_step c rest ≡ yield (c ∷ []) rest)
unfolding unescape_step after_backslash escape_case
plain_rounds c rest = (refl, refl, λ h. ground arith)

-- One round of the decoder at the front of an input.
unfoldable pub front : Bytes → Round
front [] = refuse
front (ch ∷ rest) = unescape_step ch rest

-- One round on the bytes that stand for `c` gives `c` back and leaves what follows them.
pub front-escape_byte :
    (c : ℕ) (rest : Bytes) → c < 256 → front (escape_byte c ++ rest) ≡ yield (c ∷ []) rest
unfolding front escape_byte escape_seq hex_escape
front-escape_byte c rest h = elim (Bool-cases (ltb c 0x20)) [
  | inl low ↦
      ground (arith, unicode_escape-hex_escape c rest (ltb→lt _ _ low), control_rounds c rest)
  | inr high ↦ ground (arith, plain_rounds c rest)
]
