-- ===== src/Json/Escape.antt =====
-- `actrust_json_escape_string`. A C string is the list of its bytes before the NUL.
use ant_chain_trust_sdk.Prelude.{
  ℕ, Bool, true, false, ◌||◌, not, Option, none, some, [], ◌∷◌, ◌++◌, length, ltb, ◌==◌,
  if◌then◌else◌,
}
use ant_chain_trust_sdk.Errno.{
  Err, actrust_ok, err_make, module_components_json, invalid_arg, buf_too_small,
}
use ant_chain_trust_sdk.Json.Chars.{Bytes, add_size, escape_seq}

-- `JSON_ERR`
unfoldable pub json_err : ℕ → Err
json_err reason = err_make module_components_json reason

-- What a call leaves: its code, and the bytes `out[0 .. dst_idx)`. On success these are followed
-- by a NUL and `*out_len` is their number.
pub record Written : Type 0 where
  pub code : Err
  pub bytes : Bytes

abbrev pub stop : Err → Bytes → Written
stop e out = record { code = e; bytes = out }

-- The loop over the input; `out` is `out[0 .. dst_idx)`.
unfoldable pub escape_loop : ℕ → Bytes → Bytes → Written
escape_loop cap [] out = stop actrust_ok out
escape_loop cap (c ∷ rest) out = elim (escape_seq c) [
  | some esc ↦ elim (ltb cap (add_size (add_size (length out) (length esc)) 1)) [
    | true ↦ stop (json_err buf_too_small) out
    | false ↦ escape_loop cap rest (out ++ esc)
  ]
  | none ↦ elim (ltb cap (add_size (length out) 2)) [
    | true ↦ stop (json_err buf_too_small) out
    | false ↦ escape_loop cap rest (out ++ c ∷ [])
  ]
]

-- `none` is a null `input`; `has_out` and `has_len` say that those pointers are not null.
unfoldable pub escape_string : Option Bytes → Bool → Bool → ℕ → Written
escape_string none has_out has_len out_cap = stop (json_err invalid_arg) []
escape_string (some input) has_out has_len out_cap =
    if not has_out || not has_len || out_cap == 0
    then stop (json_err invalid_arg) []
    else escape_loop out_cap input []
