-- ===== src/Json/RoundTrip.antt =====
-- The decoder undoes the escaper, and an escaped text stays inside its quotes.
use ant_chain_trust_sdk.Prelude.{
  ℕ, zero, suc, ◌+◌, ◌<◌, ◌≤◌, ◌≡◌, ◌∙◌, ap, refl, Bool, true, false, Option, none, some, [], ◌∷◌,
  ◌++◌, length, length-append, append-nil, append_assoc, arith, All, ltb, ◌==◌, if◌then◌else◌,
}
use ant_chain_trust_sdk.Errno.{actrust_ok}
use ant_chain_trust_sdk.Json.Chars.{Bytes, escape_seq, hex_escape, hex_digit}
use ant_chain_trust_sdk.Json.Escape.{stop, escape_string}
use ant_chain_trust_sdk.Json.Unescape.{yield, unescape_loop, unescape_string}
use ant_chain_trust_sdk.Json.Spec.{
  escape_byte, escape_all, length-escape_byte, front, front-escape_byte,
}
use ant_chain_trust_sdk.Json.EscapeLaws.{max_object, not_zero, escape_string-fits}

-- A text of bytes.
abbrev pub IsText : Bytes → Type 0
IsText = All (λ c. c < 256)

unescape_loop-front :
    (fuel cap : ℕ) (input bytes rest out : Bytes)
    → front input ≡ yield bytes rest
    → cap ≤ max_object
    → length bytes ≤ 4
    → length out + length bytes + 1 ≤ cap
    → unescape_loop (suc fuel) cap input out ≡ unescape_loop fuel cap rest (out ++ bytes)
unfolding front unescape_loop
unescape_loop-front fuel cap [] bytes rest out e small few fits = cc
unescape_loop-front fuel cap (ch ∷ t) bytes rest out e small few fits = ground arith

unescape_loop-escape_all :
    (fuel cap : ℕ) (s out : Bytes)
    → IsText s
    → cap ≤ max_object
    → length s ≤ fuel
    → length out + length s + 1 ≤ cap
    → unescape_loop fuel cap (escape_all s) out ≡ some (stop actrust_ok (out ++ s))
unfolding escape_all
unescape_loop-escape_all fuel cap [] out text small enough fits =
    unfold unescape_loop in rw append-nil
unescape_loop-escape_all zero cap (c ∷ s) out text small enough fits = absurd (omega arith)
unescape_loop-escape_all (suc fuel) cap (c ∷ s) out text small enough fits =
    let l = length-append out (c ∷ []) in
    unescape_loop-front fuel cap (escape_byte c ++ escape_all s) (c ∷ []) (escape_all s) out
      (front-escape_byte c (escape_all s) text.0) small (omega arith) (omega arith)
    ∙ unescape_loop-escape_all fuel cap s (out ++ c ∷ []) text.1 small (omega arith) (omega arith)
    ∙ ap (λ b. some (stop actrust_ok b)) (append_assoc out (c ∷ []) s)

length-escape_all : (s : Bytes) → length s ≤ length (escape_all s)
unfolding escape_all
length-escape_all [] = omega arith
length-escape_all (c ∷ s) =
    omega (
      arith,
      length-append (escape_byte c) (escape_all s),
      length-escape_byte c,
      length-escape_all s,
    )

-- A text that is escaped into a buffer with room for it is decoded to itself, whatever its bytes,
-- in a buffer with room for the text.
pub unescape_string-escape_string :
    (s : Bytes) (cap back : ℕ)
    → IsText s
    → length (escape_all s) < cap
    → cap ≤ max_object
    → length s < back
    → back ≤ max_object
    → let w = escape_string (some s) true true cap in
      (w.code ≡ actrust_ok)
      × (unescape_string (some w.bytes) true true back ≡ some (stop actrust_ok s))
unfolding unescape_string
unescape_string-escape_string s cap back text fits small room small' =
    rw (escape_string-fits s cap small fits) (
      refl,
      rw (not_zero back (omega arith)) (
          unescape_loop-escape_all (length (escape_all s)) back s [] text small'
            (length-escape_all s) (omega arith)),
    )

-- A reader of a JSON string, `esc` behind a backslash: `none` if the literal ends or holds a control
-- character, and otherwise whether a backslash is pending at the end.
pub inside : Bool → Bytes → Option Bool
inside esc [] = some esc
inside true (c ∷ s) = if ltb c 0x20 then none else inside false s
inside false (c ∷ s) = elim (c == b'"') [
  | true ↦ none
  | false ↦ elim (ltb c 0x20) [ true ↦ none | false ↦ inside (c == b'\\') s ]
]

inside-escape_byte : (c : ℕ) (s : Bytes) → inside false (escape_byte c ++ s) ≡ inside false s
unfolding inside escape_byte escape_seq hex_escape hex_digit
inside-escape_byte c s = ground arith

inside-escape_all : (s rest : Bytes) → inside false (escape_all s ++ rest) ≡ inside false rest
unfolding escape_all
inside-escape_all [] rest = refl
inside-escape_all (c ∷ s) rest =
    ap (inside false) (append_assoc (escape_byte c) (escape_all s) rest)
    ∙ inside-escape_byte c (escape_all s ++ rest)
    ∙ inside-escape_all s rest

-- No text escapes from its quotes: a reader that is inside a string literal is still inside it, with
-- no backslash pending, behind the escaped text.
pub inside-escape_string :
    (s rest : Bytes) (cap : ℕ)
    → length (escape_all s) < cap
    → cap ≤ max_object
    → inside false ((escape_string (some s) true true cap).bytes ++ rest) ≡ inside false rest
inside-escape_string s rest cap fits small =
    rw (escape_string-fits s cap small fits) (inside-escape_all s rest)
