-- ===== src/Json/Tests.antt =====
-- The theorems on json.c at concrete texts and buffers, and runs of its functions.
use ant_chain_trust_sdk.Prelude.{
  ◌≤◌, ◌<◌, ◌≡◌, ◌⊎◌, refl, true, false, some, [], ◌∷◌, ◌++◌, length, arith, ◌≢◌,
}
use ant_chain_trust_sdk.Errno.{actrust_ok, buf_too_small}
use ant_chain_trust_sdk.Json.Chars.{Bytes, hex_digit, hex_escape, escape_seq}
use ant_chain_trust_sdk.Json.Escape.{Written, stop, json_err, escape_string}
use ant_chain_trust_sdk.Json.Unescape.{yield, unescape_step, unescape_string}
use ant_chain_trust_sdk.Json.Spec.{escape_byte, escape_all}
use ant_chain_trust_sdk.Json.EscapeLaws.{escape_string-escape_all}
use ant_chain_trust_sdk.Json.Decoder.{unescape_string_total}
use ant_chain_trust_sdk.Json.RoundTrip.{unescape_string-escape_string, inside, inside-escape_string}
use ant_chain_trust_sdk.Json.Utf8.{unicode_text, utf8_value, unescape_step-unicode_text}
use ant_chain_trust_sdk.Json.Builder.{Builder, add_string}
use ant_chain_trust_sdk.Json.Builder.Invariant.{grown, Holds, Grows}
use ant_chain_trust_sdk.Json.Builder.Texts.{key_text, add_string-Grows}

-- A quote, a line feed, an escape character and a byte above 127.
abbrev sample : Bytes
sample = b'"' ∷ 0x0a ∷ 0x1b ∷ 0xe9 ∷ []

abbrev name : Bytes
name = b'i' ∷ b'd' ∷ []

sample_escaped :
    escape_all sample
    ≡ b'\\' ∷ b'"' ∷ b'\\' ∷ b'n' ∷ b'\\' ∷ b'u' ∷ b'0' ∷ b'0' ∷ b'1' ∷ b'b' ∷ 0xe9 ∷ []
unfolding escape_all escape_byte escape_seq hex_escape hex_digit
sample_escaped = refl

unescape_string-escape_string_example :
    ((escape_string (some sample) true true 16).code ≡ actrust_ok)
    × (unescape_string (some (escape_string (some sample) true true 16).bytes) true true 5
        ≡ some (stop actrust_ok sample))
unfolding escape_all escape_byte escape_seq hex_escape hex_digit
unescape_string-escape_string_example =
    unescape_string-escape_string sample 16 5 (omega arith) (omega arith) (omega arith)
      (omega arith) (omega arith)

inside-escape_string_example :
    inside false ((escape_string (some sample) true true 16).bytes ++ (b'"' ∷ []))
    ≡ inside false (b'"' ∷ [])
unfolding escape_all escape_byte escape_seq hex_escape hex_digit
inside-escape_string_example =
    inside-escape_string sample (b'"' ∷ []) 16 (omega arith) (omega arith)

escape_string-escape_all_example :
    (length (escape_all sample) < 4)
      × (escape_string (some sample) true true 4 ≡ stop actrust_ok (escape_all sample))
    ⊎ (4 ≤ length (escape_all sample))
      × ((escape_string (some sample) true true 4).code ≡ json_err buf_too_small)
      × (length (escape_string (some sample) true true 4).bytes < 4)
escape_string-escape_all_example = escape_string-escape_all sample 4 (omega arith) (omega arith)

unescape_string_total_example :
    (w : Written) × (unescape_string (some sample) true true 5 ≡ some w)
    × (length w.bytes < 5)
    × (length w.bytes ≤ length sample)
    × ((w.code ≢ json_err buf_too_small) ⊎ (5 ≤ length sample))
unescape_string_total_example = unescape_string_total sample 5 (omega arith) (omega arith)

unescape_step-unicode_text_example :
    (bytes : Bytes) × (unescape_step b'\\' (unicode_text 0x1f600 ++ (b'!' ∷ []))
      ≡ yield bytes (b'!' ∷ []))
    × (utf8_value bytes ≡ some 0x1f600)
unescape_step-unicode_text_example =
    unescape_step-unicode_text 0x1f600 (b'!' ∷ []) (omega arith) refl

-- A builder behind `init` on a buffer of twelve bytes.
abbrev started : Builder
started = grown 12 (b'{' ∷ []) (0 ∷ 0 ∷ 0 ∷ 0 ∷ 0 ∷ 0 ∷ 0 ∷ 0 ∷ 0 ∷ 0 ∷ [])

started-Holds : Holds 12 (b'{' ∷ []) started
started-Holds = record {
  behind = 0 ∷ 0 ∷ 0 ∷ 0 ∷ 0 ∷ 0 ∷ 0 ∷ 0 ∷ 0 ∷ 0 ∷ [];
  same = refl;
  small = omega arith;
  room = omega arith;
  fits = omega arith;
}

add_string-Grows_example :
    Grows 12
      (b'{' ∷ [])
      (key_text name (b'{' ∷ []) ++ (b'"' ∷ [] ++ (escape_all sample ++ (b'"' ∷ []))))
      (add_string (some name) (some sample) 4 started)
add_string-Grows_example = add_string-Grows 12 (b'{' ∷ []) started started-Holds name sample
