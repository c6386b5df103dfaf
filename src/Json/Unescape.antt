-- ===== src/Json/Unescape.antt =====
-- `actrust_json_unescape_string`. One round of its loop is `unescape_step`, on what is left of
-- the input.
use ant_chain_trust_sdk.Prelude.{
  ℕ, zero, suc, ◌+◌, ◌-◌, ◌^◌, ◌%◌, Bool, true, false, ◌&&◌, ◌||◌, not, Option, none, some, [], ◌∷◌,
  ◌++◌, length, ltb, leb, ◌==◌, if◌then◌else◌,
}
use ant_chain_trust_sdk.Errno.{actrust_ok, invalid_arg, buf_too_small}
use ant_chain_trust_sdk.Json.Chars.{Bytes, add_size, shl32, hex_digit_to_int, join_hex, encode_utf8}
use ant_chain_trust_sdk.Json.Escape.{Written, stop, json_err}

-- A round refuses the input, or yields bytes and what is left.
pub data Round : Type 0 where
  refuse : Round
  yield : Bytes → Bytes → Round

-- Four digits at the front of the input.
unfoldable pub read_hex4 : Bytes → Option (ℕ × Bytes)
read_hex4 (a ∷ b ∷ c ∷ d ∷ rest) = elim (hex_digit_to_int a) [
  | none ↦ none
  | some h1 ↦ elim (hex_digit_to_int b) [
    | none ↦ none
    | some h2 ↦ elim (hex_digit_to_int c) [
      | none ↦ none
      | some h3 ↦ elim (hex_digit_to_int d) [
        | none ↦ none
        | some h4 ↦ some (join_hex h1 h2 h3 h4, rest)
      ]
    ]
  ]
]
read_hex4 _ = none

abbrev pub is_high : ℕ → Bool
is_high cp = leb 0xd800 cp && leb cp 0xdbff

abbrev pub is_low : ℕ → Bool
is_low cp = leb 0xdc00 cp && leb cp 0xdfff

-- `0x10000u + ((cp - 0xD800u) << 10) + (low - 0xDC00u)`
unfoldable pub join_surrogates : ℕ → ℕ → ℕ
join_surrogates cp low = (0x10000 + shl32 (cp - 0xd800) 10 + (low - 0xdc00)) % 2 ^ 32

-- The second half of a surrogate pair, at the input behind the first.
unfoldable pub low_surrogate : ℕ → Bytes → Round
low_surrogate cp (s ∷ u ∷ rest) =
    if s == b'\\' && u == b'u'
    then elim (read_hex4 rest) [
      | none ↦ refuse
      | some (low, rest') ↦
          if is_low low then yield (encode_utf8 (join_surrogates cp low)) rest' else refuse
    ]
    else refuse
low_surrogate cp _ = refuse

-- `case 'u'`
unfoldable pub unicode_escape : Bytes → Round
unicode_escape input = elim (read_hex4 input) [
  | none ↦ refuse
  | some (cp, rest) ↦
      if is_high cp
      then low_surrogate cp rest
      else if is_low cp
      then refuse
      else yield (encode_utf8 cp) rest
]

-- The `switch` on the byte behind a backslash.
unfoldable pub escape_case : ℕ → Bytes → Round
escape_case esc rest =
    if esc == b'"'
    then yield (b'"' ∷ []) rest
    else if esc == b'\\'
    then yield (b'\\' ∷ []) rest
    else if esc == b'/'
    then yield (b'/' ∷ []) rest
    else if esc == b'b'
    then yield (0x08 ∷ []) rest
    else if esc == b'f'
    then yield (0x0c ∷ []) rest
    else if esc == b'n'
    then yield (0x0a ∷ []) rest
    else if esc == b'r'
    then yield (0x0d ∷ []) rest
    else if esc == b't'
    then yield (0x09 ∷ []) rest
    else if esc == b'u'
    then unicode_escape rest
    else refuse

unfoldable pub after_backslash : Bytes → Round
after_backslash [] = refuse
after_backslash (esc ∷ rest) = escape_case esc rest

-- A round at a byte `ch` and the input behind it.
unfoldable pub unescape_step : ℕ → Bytes → Round
unescape_step ch rest = if ch == b'\\' then after_backslash rest else yield (ch ∷ []) rest

-- The loop; `none` means that the fuel ran out.
unfoldable pub unescape_loop : ℕ → ℕ → Bytes → Bytes → Option Written
unescape_loop fuel cap [] out = some (stop actrust_ok out)
unescape_loop zero cap (ch ∷ rest) out = none
unescape_loop (suc fuel) cap (ch ∷ rest) out = elim (unescape_step ch rest) [
  | refuse ↦ some (stop (json_err invalid_arg) out)
  | yield bytes rest' ↦ elim (ltb cap (add_size (add_size (length out) (length bytes)) 1)) [
    | true ↦ some (stop (json_err buf_too_small) out)
    | false ↦ unescape_loop fuel cap rest' (out ++ bytes)
  ]
]

-- As in `escape_string`. A round takes a byte of the input at least, so its length is the fuel.
unfoldable pub unescape_string : Option Bytes → Bool → Bool → ℕ → Option Written
unescape_string none has_out has_len out_cap = some (stop (json_err invalid_arg) [])
unescape_string (some input) has_out has_len out_cap =
    if not has_out || not has_len || out_cap == 0
    then some (stop (json_err invalid_arg) [])
    else unescape_loop (length input) out_cap input []
