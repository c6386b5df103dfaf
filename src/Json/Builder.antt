-- ===== src/Json/Builder.antt =====
-- The builder of json.c: a text grown in the caller's buffer. `validate` stands for coreJSON's
-- `JSON_Validate`, which is not part of this repository.
pub mod Invariant
pub mod Texts
use ant_chain_trust_sdk.Prelude.{
  ℕ, ◌+◌, ◌-◌, ◌^◌, ◌%◌, ◌≡◌, Bool, true, false, ◌&&◌, ◌||◌, not, Option, none, some, [], ◌∷◌, ◌++◌,
  length, get_or, set, take, drop, ltb, ◌==◌, if◌then◌else◌, List,
}
use ant_chain_trust_sdk.Errno.{Err, actrust_ok, invalid_arg, buf_too_small, is_ok}
use ant_chain_trust_sdk.Json.Chars.{Bytes, add_size, escape_seq}
use ant_chain_trust_sdk.Json.Escape.{json_err}

-- `actrust_json_builder_t`; `buf` is the caller's array, `none` a null pointer.
pub record Builder : Type 0 where
  pub buf : Option Bytes
  pub cap : ℕ
  pub len : ℕ

-- A function on a builder returns its code and leaves a builder.
abbrev pub M : Type 0
M = Builder → Err × Builder

-- `if ((err = m) != ACTRUST_OK) return err;`
infixr 5 ◌then_do◌
abbrev pub ◌then_do◌ : M → M → M
◌then_do◌ m k b = let (e, b') = m b in if is_ok e then k b' else (e, b')

abbrev pub return_err : Err → M
return_err e b = (e, b)

-- `memcpy` of the bytes to `buf + i`
unfoldable pub splice : Bytes → ℕ → Bytes → Bytes
splice buf i bytes = take i buf ++ (bytes ++ drop (i + length bytes) buf)

-- `json_builder_write`: `len + 1 > cap - len` in `size_t`, then the copy and the NUL.
unfoldable pub write : Bytes → M
write bytes b = elim b.buf [
  | none ↦ (json_err invalid_arg, b)
  | some buf ↦
      if b.cap == 0
      then (json_err invalid_arg, b)
      else if length bytes == 0
      then (actrust_ok, b)
      else if ltb ((b.cap + 2 ^ 64 - b.len) % 2 ^ 64) (add_size (length bytes) 1)
      then (json_err buf_too_small, b)
      else (
        actrust_ok,
        record b {
          buf = some (set (splice buf b.len bytes) (b.len + length bytes) 0);
          len = b.len + length bytes;
        },
      )
]

unfoldable pub write_char : ℕ → M
write_char c = write (c ∷ [])

-- `json_builder_append_escaped_len` on the bytes of its range: the loop ends at the first error.
unfoldable pub append_escaped : Bytes → M
append_escaped [] = return_err actrust_ok
append_escaped (c ∷ s) =
    let this : M = elim (escape_seq c) [ some esc ↦ write esc | none ↦ write_char c ] in
    let rest = append_escaped s in this then_do rest

-- The byte before the end of the text.
abbrev pub last_char : Builder → ℕ
last_char b = elim b.buf [ none ↦ 0 | some buf ↦ get_or buf (b.len - 1) 0 ]

-- A comma, unless the text is empty or ends in an opening brace or bracket.
unfoldable pub append_comma : M
append_comma b =
    if ltb 0 b.len && not (last_char b == b'{') && not (last_char b == b'[')
    then write_char b',' b
    else (actrust_ok, b)

-- `json_builder_append_key`
unfoldable pub append_key : Bytes → M
append_key key =
    append_comma then_do write_char b'"' then_do append_escaped key then_do write (b'"' ∷ b':' ∷ [])

-- `actrust_json_builder_init`
unfoldable pub init : Option Bytes → ℕ → M
init none cap b = (json_err invalid_arg, b)
init (some buf) cap b =
    if ltb cap 2
    then (json_err invalid_arg, b)
    else write_char b'{' (record { buf = some buf; cap = cap; len = 0 })

-- `actrust_json_builder_add_string`; a null pointer is `none`.
unfoldable pub add_string : Option Bytes → Option Bytes → ℕ → M
add_string none val val_len = return_err (json_err invalid_arg)
add_string (some key) none val_len = return_err (json_err invalid_arg)
add_string (some key) (some val) val_len =
    if length val == val_len
    then append_key key then_do write_char b'"' then_do append_escaped val then_do write_char b'"'
    else return_err (json_err invalid_arg)

-- `actrust_json_builder_open_object`
unfoldable pub open_object : Option Bytes → M
open_object none = return_err (json_err invalid_arg)
open_object (some key) = append_key key then_do write_char b'{'

-- `actrust_json_builder_close_object`
unfoldable pub close_object : M
close_object = write_char b'}'

-- `actrust_json_builder_add_bool`
unfoldable pub add_bool : Option Bytes → Bool → M
add_bool none val = return_err (json_err invalid_arg)
add_bool (some key) val =
    append_key key
    then_do write
        (if val then b't' ∷ b'r' ∷ b'u' ∷ b'e' ∷ [] else b'f' ∷ b'a' ∷ b'l' ∷ b's' ∷ b'e' ∷ [])

-- `json_is_space_char`
abbrev pub is_space_char : ℕ → Bool
is_space_char c = c == 0x20 || c == 0x09 || c == 0x0d || c == 0x0a

unfoldable pub skip_spaces : Bytes → Bytes
skip_spaces [] = []
skip_spaces (c ∷ s) = if is_space_char c then skip_spaces s else c ∷ s

unfoldable pub last_visible : ℕ → Bytes → ℕ
last_visible best [] = best
last_visible best (c ∷ s) = last_visible (if is_space_char c then best else c) s

-- `json_is_object_text`: the first byte that is no space is `{`, and the last such byte is `}`.
unfoldable pub is_object_text : Bytes → Bool
is_object_text text = elim (skip_spaces text) [
  | [] ↦ false
  | c ∷ s ↦ c == b'{' && last_visible c s == b'}'
]

module _ (validate : Bytes → Bool) where
  -- `actrust_json_builder_add_object`
  unfoldable pub add_object : Option Bytes → Option Bytes → M
  add_object none obj = return_err (json_err invalid_arg)
  add_object (some key) none = return_err (json_err invalid_arg)
  add_object (some key) (some obj) =
      if length obj == 0 || not (validate obj) || not (is_object_text obj)
      then return_err (json_err invalid_arg)
      else append_key key then_do write obj

  abbrev pub text_is_valid : Builder → Bool
  text_is_valid b = elim b.buf [ none ↦ false | some buf ↦ validate (take b.len buf) ]

  -- `actrust_json_builder_finish`: a text that is not valid yet is closed once more.
  unfoldable pub finish : M
  finish b = elim b.buf [
    | none ↦ (json_err invalid_arg, b)
    | some _ ↦
        if text_is_valid b
        then (actrust_ok, b)
        else let (e, b') = write_char b'}' b in
          if not (is_ok e)
          then (json_err buf_too_small, b')
          else if text_is_valid b'
          then (actrust_ok, b')
          else (json_err invalid_arg, b')
  ]
