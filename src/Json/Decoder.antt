-- ===== src/Json/Decoder.antt =====
-- The decoder: it always ends, and it never writes past its buffer.
use native.Mathlib.Decide.{dec_lt}
use ant_chain_trust_sdk.Prelude.{
  ℕ, zero, suc, ◌+◌, ◌<◌, ◌≤◌, ◌≡◌, ◌≢◌, refl, inl, inr, true, some, [], ◌∷◌, ◌++◌, length,
  length-append, arith, Option-cases, ◌⊎◌,
}
use ant_chain_trust_sdk.Errno.{err_make, actrust_ok, buf_too_small, invalid_arg}
use ant_chain_trust_sdk.Json.Chars.{Bytes, encode_utf8}
use ant_chain_trust_sdk.Json.Escape.{Written, stop, json_err}
use ant_chain_trust_sdk.Json.Unescape.{
  Round, refuse, yield, unescape_step, unescape_loop, unescape_string, after_backslash, escape_case,
  unicode_escape, low_surrogate, read_hex4, join_surrogates,
}
use ant_chain_trust_sdk.Json.EscapeLaws.{max_object, not_zero}

read_hex4-length :
    (s : Bytes) (n : ℕ) (rest : Bytes) → read_hex4 s ≡ some (n, rest) → length s ≡ 4 + length rest
unfolding read_hex4
read_hex4-length [] n rest h = cc
read_hex4-length (a ∷ []) n rest h = cc
read_hex4-length (a ∷ b ∷ []) n rest h = cc
read_hex4-length (a ∷ b ∷ c ∷ []) n rest h = cc
read_hex4-length (a ∷ b ∷ c ∷ d ∷ s) n rest h = ground arith

length-encode_utf8 : (cp : ℕ) → (1 ≤ length (encode_utf8 cp)) × (length (encode_utf8 cp) ≤ 4)
unfolding encode_utf8
length-encode_utf8 cp = ground arith

-- A round that yields takes at least as many bytes from the input as it gives, and one at least.
abbrev Shrinks : ℕ → Round → Type 0
Shrinks n r =
    (bytes rest : Bytes)
    → r ≡ yield bytes rest
    → (length bytes + length rest ≤ n) × (length rest < n) × (1 ≤ length bytes) × (length bytes ≤ 4)

low_surrogate-Shrinks : (cp : ℕ) (s : Bytes) → Shrinks (length s + 2) (low_surrogate cp s)
unfolding low_surrogate
low_surrogate-Shrinks cp [] bytes rest h = cc
low_surrogate-Shrinks cp (s ∷ []) bytes rest h = cc
low_surrogate-Shrinks cp (s ∷ u ∷ t) bytes rest h = elim (Option-cases (read_hex4 t)) [
  | inl e ↦ ground arith
  | inr (p, e) ↦
      ground (arith, read_hex4-length t p.0 p.1 e, length-encode_utf8 (join_surrogates cp p.0))
]

unicode_escape-Shrinks : (s : Bytes) → Shrinks (length s) (unicode_escape s)
unfolding unicode_escape
unicode_escape-Shrinks s bytes rest h = elim (Option-cases (read_hex4 s)) [
  | inl e ↦ ground arith
  | inr (p, e) ↦ ground (
    arith,
    read_hex4-length s p.0 p.1 e,
    length-encode_utf8 p.0,
    low_surrogate-Shrinks p.0 p.1 bytes rest,
  )
]

unescape_step-Shrinks : (ch : ℕ) (s : Bytes) → Shrinks (suc (length s)) (unescape_step ch s)
unfolding unescape_step after_backslash escape_case
unescape_step-Shrinks ch [] bytes rest h = ground arith
unescape_step-Shrinks ch (esc ∷ s) bytes rest h =
    ground (arith, unicode_escape-Shrinks s bytes rest)

Round-cases :
    (r : Round) → (r ≡ refuse) ⊎ ((bytes : Bytes) × (rest : Bytes) × (r ≡ yield bytes rest))
Round-cases refuse = inl refl
Round-cases (yield bytes rest) = inr (bytes, rest, refl)

-- How the loop may end, `out` written before it and `n` bytes of input left.
record Ends (cap n : ℕ) (out : Bytes) (w : Written) : Type 0 where
  inside : length w.bytes < cap
  short : length w.bytes ≤ length out + n
  roomy : length out + n < cap → w.code ≢ json_err buf_too_small

codes_differ :
    (actrust_ok ≢ json_err buf_too_small) × (json_err invalid_arg ≢ json_err buf_too_small)
unfolding json_err err_make
codes_differ = (ground arith, ground arith)

module _ (cap : ℕ) (small : cap ≤ max_object) where
  Ends-later :
      (n m : ℕ) (out bytes : Bytes) (w : Written)
      → length bytes + m ≤ n
      → Ends cap m (out ++ bytes) w
      → Ends cap n out w
  Ends-later n m out bytes w h e =
      let l = length-append out bytes in
      record {
        inside = e.inside;
        short = omega (arith, e.short);
        roomy = λ fits. e.roomy (omega arith);
      }

  unescape_loop-Ends :
      (fuel : ℕ) (s out : Bytes)
      → length s ≤ fuel
      → length out < cap
      → (w : Written) × (unescape_loop fuel cap s out ≡ some w) × Ends cap (length s) out w
  unfolding unescape_loop
  unescape_loop-Ends fuel [] out enough room = (
    stop actrust_ok out,
    refl,
    record { inside = room; short = omega arith; roomy = λ _. codes_differ.0 },
  )
  unescape_loop-Ends zero (ch ∷ s) out enough room = absurd (omega arith)
  unescape_loop-Ends (suc fuel) (ch ∷ s) out enough room = elim (Round-cases (unescape_step ch s)) [
    | inl e ↦ (
      stop (json_err invalid_arg) out,
      rw (e, unescape_loop) refl,
      record { inside = room; short = omega arith; roomy = λ _. codes_differ.1 },
    )
    | inr (bytes, rest, e) ↦
        let small_step = unescape_step-Shrinks ch s bytes rest e in
        let l = length-append out bytes in
        elim (dec_lt cap (length out + length bytes + 1)) [
          | yes full ↦ (
            stop (json_err buf_too_small) out,
            ground arith,
            record { inside = room; short = omega arith; roomy = λ fits. absurd (omega arith) },
          )
          | no goes ↦
              let (w, same, ends) =
                unescape_loop-Ends fuel rest (out ++ bytes) (omega arith) (omega arith) in
              (
                w,
                ground arith,
                Ends-later (suc (length s)) (length rest) out bytes w small_step.0 ends,
              )
        ]
  ]

-- With a buffer, the decoder ends on every input. It writes less than the buffer holds and no more
-- than it read, so a buffer larger than the input is never reported as too small.
pub unescape_string_total :
    (s : Bytes) (cap : ℕ)
    → 0 < cap
    → cap ≤ max_object
    → (w : Written) × (unescape_string (some s) true true cap ≡ some w)
      × (length w.bytes < cap)
      × (length w.bytes ≤ length s)
      × ((w.code ≢ json_err buf_too_small) ⊎ (cap ≤ length s))
unfolding unescape_string
unescape_string_total s cap pos small =
    let (w, same, e) = unescape_loop-Ends cap small (length s) s [] (omega arith) pos in
    (
      w,
      rw (not_zero cap pos) same,
      e.inside,
      omega (arith, e.short),
      elim (dec_lt (length s) cap) [
        | yes room ↦ inl (e.roomy (omega arith))
        | no full ↦ inr (omega arith)
      ],
    )
