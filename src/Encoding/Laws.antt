-- ===== src/Encoding/Laws.antt =====
-- Hexadecimal text is read back, and JSON has nothing to escape in it.
use ant_chain_trust_sdk.Prelude.{
  ℕ, ◌+◌, ◌*◌, ◌/◌, ◌%◌, ◌<◌, ◌≡◌, refl, sym, ap, ◌∙◌, Bool, true, false, ◌&&◌, Option, none, some,
  [], ◌∷◌, ◌++◌, length, take, take-append, append-nil, get_or, All, ◌==◌, sweep, sweep_sound,
  arith,
}
use ant_chain_trust_sdk.Json.Chars.{hex_digit_to_int, escape_seq}
use ant_chain_trust_sdk.Encoding.Hex.{Bytes, hex, hex_loop, hex_encode}

unfoldable pub joined : Option ℕ → Option ℕ → Option Bytes → Option Bytes
joined (some h) (some l) (some s) = some ((h * 16 + l) ∷ s)
joined _ _ _ = none

-- An independent reading of hexadecimal text, by the digits that json.c reads.
unfoldable pub read_hex : Bytes → Option Bytes
unfolding joined
read_hex [] = some []
read_hex (c ∷ []) = none
read_hex (c ∷ d ∷ s) = joined (hex_digit_to_int c) (hex_digit_to_int d) (read_hex s)

abbrev is_some_of : Option ℕ → ℕ → Bool
is_some_of none n = false
is_some_of (some m) n = m == n

abbrev is_none : Option Bytes → Bool
is_none none = true
is_none (some s) = false

digit_table :
    sweep
      (λ d.
        is_some_of (hex_digit_to_int (get_or hex d 0)) d && is_none (escape_seq (get_or hex d 0)))
      16
    ≡ true
unfolding sweep hex_digit_to_int escape_seq
digit_table = refl

pub digit_lem :
    (d : ℕ)
    → d < 16
    → (hex_digit_to_int (get_or hex d 0) ≡ some d) × (escape_seq (get_or hex d 0) ≡ none)
digit_lem d h =
    both (hex_digit_to_int (get_or hex d 0)) (escape_seq (get_or hex d 0))
      (sweep_sound _ 16 d digit_table h)
  where
    both :
        (o : Option ℕ) (e : Option Bytes)
        → (is_some_of o d && is_none e) ≡ true
        → (o ≡ some d) × (e ≡ none)
    both none e h = absurd (ground arith)
    both (some m) none h = ground arith
    both (some m) (some s) h = absurd (ground arith)

abbrev pub IsByte : ℕ → Type 0
IsByte b = b < 256

read_hex-hex_loop : (s : Bytes) → All IsByte s → read_hex (hex_loop s) ≡ some s
unfolding read_hex hex_loop
read_hex-hex_loop [] h = refl
read_hex-hex_loop (b ∷ s) h =
    ap (λ o. joined o (hex_digit_to_int (get_or hex (b % 16) 0)) (read_hex (hex_loop s)))
      (digit_lem (b / 16) (omega (arith, h.0))).0
    ∙ ap (λ o. joined (some (b / 16)) o (read_hex (hex_loop s)))
        (digit_lem (b % 16) (omega arith)).0
    ∙ ap (joined (some (b / 16)) (some (b % 16))) (read_hex-hex_loop s h.1)
    ∙ ap (λ x. some (x ∷ s)) (omega arith)

pub length-hex_loop : (s : Bytes) → length (hex_loop s) ≡ length s * 2
unfolding hex_loop
length-hex_loop [] = refl
length-hex_loop (b ∷ s) = omega (arith, length-hex_loop s)

pub hex_loop-plain : (s : Bytes) → All IsByte s → All (λ c. escape_seq c ≡ none) (hex_loop s)
unfolding hex_loop
hex_loop-plain [] h = tt
hex_loop-plain (b ∷ s) h = (
  (digit_lem (b / 16) (omega (arith, h.0))).1,
  ((digit_lem (b % 16) (omega arith)).1, hex_loop-plain s h.1),
)

-- For any bytes, the encoder returns twice their number and writes that many characters and a NUL.
-- The characters are read back as the bytes, and a JSON string holds each of them unescaped.
pub read_hex-hex_encode :
    (s : Bytes)
    → All IsByte s
    → (text : Bytes) × (hex_encode (some s) (length s) true ≡ (length s * 2, text ++ 0 ∷ []))
      × (length text ≡ length s * 2)
      × (read_hex text ≡ some s)
      × All (λ c. escape_seq c ≡ none) text
unfolding hex_encode
read_hex-hex_encode s h = (
  hex_loop s,
  ap (λ t. (length s * 2, hex_loop t ++ 0 ∷ [])) (whole s),
  length-hex_loop s,
  read_hex-hex_loop s h,
  hex_loop-plain s h,
)
  where
    whole : (s : Bytes) → take (length s) s ≡ s
    whole s = ap (take (length s)) (sym (append-nil s)) ∙ take-append s []
