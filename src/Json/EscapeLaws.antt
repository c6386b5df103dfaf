-- ===== src/Json/EscapeLaws.antt =====
-- The escaper against its specification: what it writes, when it stops, and where it writes.
use native.Mathlib.Decide.{dec_lt}
use ant_chain_trust_sdk.Prelude.{
  ℕ, ◌+◌, ◌^◌, ◌<◌, ◌≤◌, ◌≡◌, refl, ◌∙◌, ap, ◌==◌, ◌⊎◌, inl, inr, Bool, true, false, Option, none,
  some, [], ◌∷◌, ◌++◌, length, length-append, append-nil, append_assoc, arith,
}
use ant_chain_trust_sdk.Errno.{actrust_ok, buf_too_small, invalid_arg}
use ant_chain_trust_sdk.Json.Chars.{Bytes}
use ant_chain_trust_sdk.Json.Escape.{stop, json_err, escape_loop, escape_string}
use ant_chain_trust_sdk.Json.Spec.{escape_byte, escape_all, length-escape_byte}

-- No object is larger than half the address space.
abbrev pub max_object : ℕ
max_object = 2 ^ 63

-- One round writes the bytes of `c` where they and a NUL fit, and stops where they do not.
escape_round :
    (cap c : ℕ) (rest out : Bytes)
    → cap ≤ max_object
    → length out < cap
    → (length out + length (escape_byte c) + 1 ≤ cap
        → escape_loop cap (c ∷ rest) out ≡ escape_loop cap rest (out ++ escape_byte c))
      × (cap < length out + length (escape_byte c) + 1
          → escape_loop cap (c ∷ rest) out ≡ stop (json_err buf_too_small) out)
unfolding escape_loop escape_byte
escape_round cap c rest out small room =
    let l = length-escape_byte c in (λ fits. ground arith, λ full. ground arith)

pub not_zero : (cap : ℕ) → 0 < cap → (cap == 0) ≡ false
not_zero cap h = ground arith

module _ (cap : ℕ) (small : cap ≤ max_object) where
  escape_loop_fits :
      (s out : Bytes)
      → length out < cap
      → length out + length (escape_all s) + 1 ≤ cap
      → escape_loop cap s out ≡ stop actrust_ok (out ++ escape_all s)
  unfolding escape_all
  escape_loop_fits [] out room fits = unfold escape_loop in rw append-nil
  escape_loop_fits (c ∷ s) out room fits =
      let l = length-append out (escape_byte c) in
      let m = length-append (escape_byte c) (escape_all s) in
      (escape_round cap c s out small room).0 (omega arith)
      ∙ escape_loop_fits s (out ++ escape_byte c) (omega arith) (omega arith)
      ∙ ap (stop actrust_ok) (append_assoc out (escape_byte c) (escape_all s))

  -- What is left when the rest does not fit: the error, and the bytes of a shorter text.
  escape_loop_full :
      (s out : Bytes)
      → length out < cap
      → cap < length out + length (escape_all s) + 1
      → ((escape_loop cap s out).code ≡ json_err buf_too_small)
        × (length (escape_loop cap s out).bytes < cap)
  unfolding escape_all
  escape_loop_full [] out room full = absurd (omega arith)
  escape_loop_full (c ∷ s) out room full =
      let l = length-append out (escape_byte c) in
      let m = length-append (escape_byte c) (escape_all s) in
      elim (dec_lt cap (length out + length (escape_byte c) + 1)) [
        | yes stops ↦ rw ((escape_round cap c s out small room).1 stops) (refl, room)
        | no goes ↦
            rw ((escape_round cap c s out small room).0 (omega arith))
              (escape_loop_full s (out ++ escape_byte c) (omega arith) (omega arith))
      ]

pub escape_string-fits :
    (s : Bytes) (cap : ℕ)
    → cap ≤ max_object
    → length (escape_all s) < cap
    → escape_string (some s) true true cap ≡ stop actrust_ok (escape_all s)
unfolding escape_string
escape_string-fits s cap small fits =
    rw (not_zero cap (omega arith)) (escape_loop_fits cap small s [] (omega arith) (omega arith))

-- With a buffer, either the escaped text fits with its NUL, and the escaper writes exactly that
-- text; or it does not fit, and the escaper reports BUF_TOO_SMALL and has still written less than
-- the buffer holds.
pub escape_string-escape_all :
    (s : Bytes) (cap : ℕ)
    → 0 < cap
    → cap ≤ max_object
    → (length (escape_all s) < cap)
        × (escape_string (some s) true true cap ≡ stop actrust_ok (escape_all s))
      ⊎ (cap ≤ length (escape_all s))
        × ((escape_string (some s) true true cap).code ≡ json_err buf_too_small)
        × (length (escape_string (some s) true true cap).bytes < cap)
unfolding escape_string
escape_string-escape_all s cap pos small = elim (dec_lt (length (escape_all s)) cap) [
  | yes fits ↦ inl (fits, escape_string-fits s cap small fits)
  | no full ↦ inr (
    omega arith,
    rw (not_zero cap pos) (escape_loop_full cap small s [] pos (omega arith)).0,
    rw (not_zero cap pos) (escape_loop_full cap small s [] pos (omega arith)).1,
  )
]

-- A call without a text, a buffer or a place for the length is refused before anything is written.
pub escape_string-invalid :
    (input : Option Bytes) (has_out has_len : Bool) (cap : ℕ)
    → (input ≡ none) ⊎ (has_out ≡ false) ⊎ (has_len ≡ false) ⊎ (cap ≡ 0)
    → escape_string input has_out has_len cap ≡ stop (json_err invalid_arg) []
unfolding escape_string
escape_string-invalid none has_out has_len cap h = refl
escape_string-invalid (some s) has_out has_len cap h = ground arith
