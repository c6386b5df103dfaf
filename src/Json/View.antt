-- ===== src/Json/View.antt =====
-- `actrust_json_init`, `actrust_json_query` and two getters of json.c. coreJSON, which validates a
-- text and finds the members of an object, is a parameter.
use ant_chain_trust_sdk.Prelude.{
  ℕ, ◌+◌, ◌-◌, ◌*◌, ◌^◌, Bool, true, false, ◌||◌, not, Option, none, some, [], ◌∷◌, length, ltb,
  leb, ◌==◌, if◌then◌else◌,
}
use ant_chain_trust_sdk.Prelude.Int.{ℤ, pos, negsuc}
use ant_chain_trust_sdk.Errno.{Err, is_ok, invalid_arg, no_mem}
use ant_chain_trust_sdk.Json.Chars.{Bytes}
use ant_chain_trust_sdk.Json.Escape.{json_err}
use ant_chain_trust_sdk.Json.Unescape.{unescape_string}

-- `actrust_json_type_t`
pub data Kind : Type 0 where
  json_null json_bool json_number json_string json_array json_object : Kind

abbrev is_string : Kind → Bool
is_string json_string = true
is_string _ = false

abbrev is_number : Kind → Bool
is_number json_number = true
is_number _ = false

-- `actrust_json_value_t`: the bytes of a value, a string without its quotes.
pub record Value : Type 0 where
  pub text : Bytes
  pub kind : Kind

-- `JSON_Validate` and `JSON_SearchConst`
pub record CoreJson : Type 0 where
  pub validate : Bytes → Bool
  pub search : Bytes → Bytes → Option Value

-- `actrust_json_init`, on a text that is not null: whether it succeeds.
unfoldable pub json_init : CoreJson → Bytes → Bool
json_init json buf = if length buf == 0 then false else json.validate buf

-- `actrust_json_query`
unfoldable pub json_query : CoreJson → Bytes → Bytes → Option Value
json_query json buf path = json.search buf path

-- What `actrust_json_get_string` does with a buffer: it leaves it and `actual_len`; it sets
-- `actual_len` alone, since the text does not fit; or it writes the text and its length.
pub data Got : Type 0 where
  refused : Err → Got
  too_long : ℕ → Got
  got : Bytes → Got

-- `actrust_json_get_string`, where `mem` says that the allocation succeeds, and no pointer is null.
-- The decoder always ends.
unfoldable pub get_string : Bool → Value → ℕ → Got
get_string mem value out_len =
    if not (is_string value.kind)
    then refused (json_err invalid_arg)
    else if leb (2 ^ 64 - 1) (length value.text)
    then refused (json_err invalid_arg)
    else if not mem
    then refused (json_err no_mem)
    else elim (unescape_string (some value.text) true true (length value.text + 1)) [
      | none ↦ refused (json_err invalid_arg)
      | some w ↦
          if not (is_ok w.code)
          then refused w.code
          else if leb out_len (length w.bytes)
          then too_long (length w.bytes)
          else got w.bytes
    ]

-- `strtoll` with base 10, of the C library: the sign, and the digits up to the end of the text.
abbrev digits_value : Bytes → ℕ → Option ℕ
digits_value [] acc = some acc
digits_value (d ∷ rest) acc =
    let value = digits_value rest (acc * 10 + (d - b'0')) in
    if ltb d b'0' || ltb b'9' d then none else value

abbrev digits : Bytes → Option ℕ
digits [] = none
digits (d ∷ rest) = digits_value (d ∷ rest) 0

abbrev positive : Option ℕ → Option ℤ
positive none = none
positive (some n) = if leb (2 ^ 63) n then none else some (pos n)

abbrev negative : Option ℕ → Option ℤ
negative none = none
negative (some n) =
    if ltb (2 ^ 63) n then none else if n == 0 then some (pos 0) else some (negsuc (n - 1))

abbrev read_signed : Bytes → Option ℤ
read_signed [] = none
read_signed (c ∷ rest) =
    if c == b'-'
    then negative (digits rest)
    else if c == b'+'
    then positive (digits rest)
    else positive (digits (c ∷ rest))

-- `actrust_json_get_int`. A number's text starts with no space.
unfoldable pub get_int : Value → Option ℤ
get_int value =
    if not (is_number value.kind) || leb 32 (length value.text)
    then none
    else read_signed value.text
