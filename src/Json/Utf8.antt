-- ===== src/Json/Utf8.antt =====
-- `\u` escapes: the code points that they name, and the UTF-8 that is written for these.
use Prim.Native.Nat.{bit_or}
use ant_chain_trust_sdk.Prelude.{
  ℕ, ◌+◌, ◌-◌, ◌*◌, ◌/◌, ◌%◌, ◌^◌, ◌<◌, ◌≤◌, ◌≡◌, refl, Bool, true, ◌&&◌, Option, none, some, [],
  ◌∷◌, ◌++◌, ltb, leb, ◌==◌, if◌then◌else◌, ==_iff, sweep, sweep_sound, arith, inl, inr, Bool-cases,
  false, ◌≢◌,
}
use ant_chain_trust_sdk.Json.Chars.{Bytes, hex_digit, join_hex, encode_utf8}
use ant_chain_trust_sdk.Json.Unescape.{
  refuse, yield, read_hex4, low_surrogate, unicode_escape, join_surrogates, unescape_step,
  after_backslash, escape_case,
}
use ant_chain_trust_sdk.Json.Spec.{hex_digit_to_int-hex_digit}

abbrev is_tail : ℕ → Bool
is_tail b = leb 0x80 b && ltb b 0xc0

-- A code point of at least `least`: no overlong form.
abbrev at_least : ℕ → ℕ → Option ℕ
at_least least n = if leb least n then some n else none

-- RFC 3629 by arithmetic: the code point that a whole sequence stands for.
pub utf8_value : Bytes → Option ℕ
utf8_value (a ∷ []) = if ltb a 0x80 then some a else none
utf8_value (a ∷ b ∷ []) =
    if leb 0xc0 a && ltb a 0xe0 && is_tail b
    then at_least 0x80 ((a - 0xc0) * 64 + (b - 0x80))
    else none
utf8_value (a ∷ b ∷ c ∷ []) =
    if leb 0xe0 a && ltb a 0xf0 && is_tail b && is_tail c
    then at_least 0x800 ((a - 0xe0) * 4096 + (b - 0x80) * 64 + (c - 0x80))
    else none
utf8_value (a ∷ b ∷ c ∷ d ∷ []) =
    if leb 0xf0 a && ltb a 0xf8 && is_tail b && is_tail c && is_tail d
    then at_least 0x10000 ((a - 0xf0) * 262144 + (b - 0x80) * 4096 + (c - 0x80) * 64 + (d - 0x80))
    else none
utf8_value _ = none

tail_table : sweep (λ x. bit_or 0x80 x % 256 == 0x80 + x) 64 ≡ true
unfolding sweep
tail_table = refl

lead2_table : sweep (λ x. bit_or 0xc0 x % 256 == 0xc0 + x) 32 ≡ true
unfolding sweep
lead2_table = refl

lead3_table : sweep (λ x. bit_or 0xe0 x % 256 == 0xe0 + x) 16 ≡ true
unfolding sweep
lead3_table = refl

lead4_table : sweep (λ x. bit_or 0xf0 x % 256 == 0xf0 + x) 8 ≡ true
unfolding sweep
lead4_table = refl

tail_byte : (x : ℕ) → bit_or 0x80 (x % 2 ^ 6) % 256 ≡ 0x80 + x % 64
tail_byte x = (==_iff _ _).0 (sweep_sound _ 64 (x % 64) tail_table (omega arith))

lead2 : (x : ℕ) → x < 32 → bit_or 0xc0 x % 256 ≡ 0xc0 + x
lead2 x h = (==_iff _ _).0 (sweep_sound _ 32 x lead2_table h)

lead3 : (x : ℕ) → x < 16 → bit_or 0xe0 x % 256 ≡ 0xe0 + x
lead3 x h = (==_iff _ _).0 (sweep_sound _ 16 x lead3_table h)

lead4 : (x : ℕ) → x < 8 → bit_or 0xf0 x % 256 ≡ 0xf0 + x
lead4 x h = (==_iff _ _).0 (sweep_sound _ 8 x lead4_table h)

-- The encoder writes the UTF-8 of every code point: the sequence stands for that point again.
pub utf8_value-encode_utf8 : (cp : ℕ) → cp < 0x110000 → utf8_value (encode_utf8 cp) ≡ some cp
unfolding utf8_value encode_utf8
utf8_value-encode_utf8 cp h = ground (
  arith,
  tail_byte cp,
  tail_byte (cp / 2 ^ 6),
  tail_byte (cp / 2 ^ 12),
  lead2 (cp / 2 ^ 6),
  lead3 (cp / 2 ^ 12),
  lead4 (cp / 2 ^ 18),
)

-- Four digits of a number below 2 ^ 16.
abbrev hex4 : ℕ → Bytes
hex4 n =
    hex_digit (n / 2 ^ 12 % 16)
    ∷ hex_digit (n / 2 ^ 8 % 16)
    ∷ hex_digit (n / 2 ^ 4 % 16)
    ∷ hex_digit (n % 16)
    ∷ []

join_table :
    sweep (λ n. join_hex (n / 2 ^ 12 % 16) (n / 2 ^ 8 % 16) (n / 2 ^ 4 % 16) (n % 16) == n) 0x10000
    ≡ true
unfolding sweep join_hex
join_table = refl

join_hex_digits :
    (n : ℕ)
    → n < 0x10000
    → join_hex (n / 2 ^ 12 % 16) (n / 2 ^ 8 % 16) (n / 2 ^ 4 % 16) (n % 16) ≡ n
join_hex_digits n h = (==_iff _ n).0 (sweep_sound _ 0x10000 n join_table h)

read_hex4-hex4 : (n : ℕ) (rest : Bytes) → n < 0x10000 → read_hex4 (hex4 n ++ rest) ≡ some (n, rest)
unfolding read_hex4
read_hex4-hex4 n rest h = ground (
  arith,
  hex_digit_to_int-hex_digit (n / 2 ^ 12 % 16) (omega arith),
  hex_digit_to_int-hex_digit (n / 2 ^ 8 % 16) (omega arith),
  hex_digit_to_int-hex_digit (n / 2 ^ 4 % 16) (omega arith),
  hex_digit_to_int-hex_digit (n % 16) (omega arith),
  join_hex_digits n h,
)

-- The two surrogates of a code point above U+FFFF.
abbrev pub high_of : ℕ → ℕ
high_of cp = 0xd800 + (cp - 0x10000) / 1024

abbrev pub low_of : ℕ → ℕ
low_of cp = 0xdc00 + (cp - 0x10000) % 1024

-- What follows a backslash when a code point is written as `\u` escapes, in two surrogates above
-- U+FFFF.
abbrev pub unicode_text : ℕ → Bytes
unicode_text cp =
    if ltb cp 0x10000
    then b'u' ∷ hex4 cp
    else (b'u' ∷ hex4 (high_of cp)) ++ b'\\' ∷ b'u' ∷ hex4 (low_of cp)

abbrev pub is_surrogate : ℕ → Bool
is_surrogate cp = leb 0xd800 cp && leb cp 0xdfff

low_surrogate-pair :
    (hi low : ℕ) (rest : Bytes)
    → 0xdc00 ≤ low
    → low ≤ 0xdfff
    → low_surrogate hi (b'\\' ∷ b'u' ∷ (hex4 low ++ rest))
      ≡ yield (encode_utf8 (join_surrogates hi low)) rest
unfolding low_surrogate
low_surrogate-pair hi low rest h k = ground (arith, read_hex4-hex4 low rest (omega arith))

join_surrogates-halves :
    (cp : ℕ) → 0x10000 ≤ cp → cp < 0x110000 → join_surrogates (high_of cp) (low_of cp) ≡ cp
unfolding join_surrogates
join_surrogates-halves cp big h = omega arith

unescape_step-encode_utf8 :
    (cp : ℕ) (rest : Bytes)
    → cp < 0x110000
    → is_surrogate cp ≡ false
    → unescape_step b'\\' (unicode_text cp ++ rest) ≡ yield (encode_utf8 cp) rest
unfolding unescape_step after_backslash escape_case unicode_escape
unescape_step-encode_utf8 cp rest h plain = elim (Bool-cases (ltb cp 0x10000)) [
  | inl one ↦ rw one (ground (arith, read_hex4-hex4 cp rest))
  | inr two ↦ rw two (
      ground (
        arith,
        read_hex4-hex4 (high_of cp) (b'\\' ∷ b'u' ∷ (hex4 (low_of cp) ++ rest)) (omega arith),
        low_surrogate-pair (high_of cp) (low_of cp) rest (omega arith) (omega arith),
        join_surrogates-halves cp,
      ))
]

-- A round of the decoder at the escapes of any code point but a lone surrogate writes bytes that by
-- RFC 3629 stand for that code point, in its shortest form, and leaves what follows the escapes.
pub unescape_step-unicode_text :
    (cp : ℕ) (rest : Bytes)
    → cp < 0x110000
    → is_surrogate cp ≡ false
    → (bytes : Bytes) × (unescape_step b'\\' (unicode_text cp ++ rest) ≡ yield bytes rest)
      × (utf8_value bytes ≡ some cp)
unescape_step-unicode_text cp rest h plain =
    (encode_utf8 cp, unescape_step-encode_utf8 cp rest h plain, utf8_value-encode_utf8 cp h)

low_surrogate-lone :
    (cp next : ℕ) (rest : Bytes) → next ≢ b'\\' → low_surrogate cp (next ∷ rest) ≡ refuse
unfolding low_surrogate
low_surrogate-lone cp next [] n = refl
low_surrogate-lone cp next (u ∷ rest) n = ground arith

-- The escape of a surrogate, first or second, is refused if the byte behind it is no backslash.
pub unescape_step-lone_surrogate :
    (cp next : ℕ) (rest : Bytes)
    → cp < 0x10000
    → is_surrogate cp ≡ true
    → next ≢ b'\\'
    → unescape_step b'\\' (b'u' ∷ (hex4 cp ++ next ∷ rest)) ≡ refuse
unfolding unescape_step after_backslash escape_case unicode_escape
unescape_step-lone_surrogate cp next rest h s n =
    ground (arith, read_hex4-hex4 cp (next ∷ rest) h, low_surrogate-lone cp next rest n)
