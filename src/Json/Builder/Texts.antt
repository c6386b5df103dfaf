-- ===== src/Json/Builder/Texts.antt =====
-- What each operation of the builder writes.
use ant_chain_trust_sdk.Prelude.{
  ℕ, ◌-◌, ◌<◌, ◌≤◌, ◌≡◌, sym, refl, inl, inr, Bool, true, false, none, some, [], ◌∷◌, ◌++◌, length,
  get_or, arith, length-append, append-nil, if◌then◌else◌, ◌==◌, ltb, ◌&&◌, not, get_or-append,
  get_or-append_last, Option-cases,
}
use ant_chain_trust_sdk.Errno.{actrust_ok}
use ant_chain_trust_sdk.Json.Chars.{Bytes, escape_seq}
use ant_chain_trust_sdk.Json.Spec.{escape_byte, escape_all, length-escape_byte}
use ant_chain_trust_sdk.Json.Builder.{
  Builder, M, write, write_char, append_escaped, append_comma, append_key, add_string, return_err,
  open_object, close_object, add_bool,
}
use mathlib.Core.Path.{subst, fun_ext}
use ant_chain_trust_sdk.Json.Builder.Invariant.{
  Holds-text, Holds, Grows, Appends, Appends-Grows, grown, write-Appends, then_do-Appends,
  write-nothing,
}

-- The comma before a key, by the last byte of the text.
abbrev pub comma_of : Bytes → Bytes
comma_of t =
    let last = get_or t (length t - 1) 0 in
    if ltb 0 (length t) && not (last == b'{') && not (last == b'[') then b',' ∷ [] else []

write_char-Appends : (c : ℕ) → Appends (λ t. c ∷ []) (write_char c)
unfolding write_char
write_char-Appends c = write-Appends (c ∷ []) (omega arith)

Appends-ext : (f g : Bytes → Bytes) (m : M) → ((t : Bytes) → f t ≡ g t) → Appends f m → Appends g m
Appends-ext f g m e p = subst (λ h. Appends h m) (fun_ext e) p

nothing-Appends : Appends (λ t. []) (return_err actrust_ok)
nothing-Appends = record {
  done = λ limit t b h fits. (refl, Holds-text t (t ++ []) (sym (append-nil t)) h);
  full = λ limit t b h full. absurd (omega (arith, h.room));
}

one-Appends :
    (c : ℕ)
    → Appends
        (λ t. escape_byte c)
        (elim (escape_seq c) [ some esc ↦ write esc | none ↦ write_char c ])
unfolding escape_byte
one-Appends c = elim (Option-cases (escape_seq c)) [
  | inl e ↦ rw (e, escape_byte) (write_char-Appends c)
  | inr (esc, e) ↦
      let l : length esc ≤ 6 = ground (arith, length-escape_byte c) in
      rw (e, escape_byte) (write-Appends esc (omega arith))
]

append_escaped-Appends : (s : Bytes) → Appends (λ t. escape_all s) (append_escaped s)
unfolding append_escaped escape_all
append_escaped-Appends [] = nothing-Appends
append_escaped-Appends (c ∷ s) =
    then_do-Appends (λ t. escape_byte c) (λ t. escape_all s) _ (append_escaped s) (one-Appends c)
      (append_escaped-Appends s)

append_comma_lem :
    (limit : ℕ) (t behind : Bytes)
    → length t < limit
    → append_comma (grown limit t behind) ≡ write (comma_of t) (grown limit t behind)
unfolding append_comma write_char
append_comma_lem limit t behind room =
    ground (arith, write-nothing limit t behind room, get_or-append t (0 ∷ behind) (length t - 1) 0)

comma_of-short : (t : Bytes) → length (comma_of t) ≤ 1
comma_of-short t = ground arith

append_comma-Appends : Appends comma_of append_comma
append_comma-Appends = record {
  done = λ limit t b h fits.
      let w =
        (write-Appends (comma_of t) (omega (arith, comma_of-short t))).done limit t b h fits in
      rw (h.same, append_comma_lem limit t h.behind h.room) (rw h.same at w);
  full = λ limit t b h full.
      let w =
        (write-Appends (comma_of t) (omega (arith, comma_of-short t))).full limit t b h full in
      rw (h.same, append_comma_lem limit t h.behind h.room) (rw h.same at w);
}

same_length : (s : Bytes) → (length s == length s) ≡ true
same_length s = ground arith

-- The text of a key.
abbrev pub key_text : Bytes → Bytes → Bytes
key_text key t = comma_of t ++ (b'"' ∷ [] ++ (escape_all key ++ (b'"' ∷ b':' ∷ [])))

append_key-Appends : (key : Bytes) → Appends (key_text key) (append_key key)
unfolding append_key
append_key-Appends key = then_do-Appends comma_of _ append_comma _ append_comma-Appends (
    then_do-Appends (λ t. b'"' ∷ []) _ (write_char b'"') _ (write_char-Appends b'"')
      (then_do-Appends (λ t. escape_all key) _ (append_escaped key) _ (append_escaped-Appends key)
        (write-Appends (b'"' ∷ b':' ∷ []) (omega arith))))

string_text :
    (key val : Bytes)
    → Appends
        (λ t. key_text key t ++ (b'"' ∷ [] ++ (escape_all val ++ (b'"' ∷ []))))
        (add_string (some key) (some val) (length val))
unfolding add_string
string_text key val = rw (same_length val) (
    then_do-Appends (key_text key) _ (append_key key) _ (append_key-Appends key) (
      then_do-Appends (λ t. b'"' ∷ []) _ (write_char b'"') _ (write_char-Appends b'"')
        (then_do-Appends (λ t. escape_all val) _ (append_escaped val) _ (append_escaped-Appends val)
          (write_char-Appends b'"'))))

object_text : (key : Bytes) → Appends (λ t. key_text key t ++ (b'{' ∷ [])) (open_object (some key))
unfolding open_object
object_text key =
    then_do-Appends (key_text key) _ (append_key key) _ (append_key-Appends key)
      (write_char-Appends b'{')

abbrev pub bool_text : Bool → Bytes
bool_text val =
    if val then b't' ∷ b'r' ∷ b'u' ∷ b'e' ∷ [] else b'f' ∷ b'a' ∷ b'l' ∷ b's' ∷ b'e' ∷ []

bool_text-Appends :
    (key : Bytes) (val : Bool)
    → Appends (λ t. key_text key t ++ bool_text val) (add_bool (some key) val)
unfolding add_bool
bool_text-Appends key true =
    then_do-Appends (key_text key) _ (append_key key) _ (append_key-Appends key)
      (write-Appends (b't' ∷ b'r' ∷ b'u' ∷ b'e' ∷ []) (omega arith))
bool_text-Appends key false =
    then_do-Appends (key_text key) _ (append_key key) _ (append_key-Appends key)
      (write-Appends (b'f' ∷ b'a' ∷ b'l' ∷ b's' ∷ b'e' ∷ []) (omega arith))

no_comma : (t : Bytes) → comma_of (t ++ b'{' ∷ []) ≡ []
no_comma t =
    let e : length (t ++ b'{' ∷ []) - 1 ≡ length t = omega (arith, length-append t (b'{' ∷ [])) in
    rw (e, get_or-append_last t b'{' 0) (ground arith)

module _ (limit : ℕ) (t : Bytes) (b : Builder) (held : Holds limit t b) where
  -- On a builder that holds the text `t` in a buffer of capacity `limit`, a member with a text for
  -- its value: if the key and the value, escaped and quoted and behind a comma where one is due, fit
  -- with the NUL, the call succeeds and appends them. Otherwise it reports BUF_TOO_SMALL and the
  -- builder still holds a terminated text that begins with `t`.
  pub add_string-Grows :
      (key val : Bytes)
      → Grows limit t
          (key_text key t ++ (b'"' ∷ [] ++ (escape_all val ++ (b'"' ∷ []))))
          (add_string (some key) (some val) (length val) b)
  add_string-Grows key val = Appends-Grows limit t b _ _ (string_text key val) held

  -- In the same way, an opened object appends its key and a brace, and a member that comes next gets
  -- no comma.
  pub open_object-Grows :
      (key : Bytes)
      → Grows limit t (key_text key t ++ (b'{' ∷ [])) (open_object (some key) b)
        × (comma_of ((t ++ key_text key t) ++ b'{' ∷ []) ≡ [])
  open_object-Grows key =
      (Appends-Grows limit t b _ _ (object_text key) held, no_comma (t ++ key_text key t))

  -- In the same way, a Boolean member appends its key and `true` or `false`.
  pub add_bool-Grows :
      (key : Bytes) (val : Bool)
      → Grows limit t (key_text key t ++ bool_text val) (add_bool (some key) val b)
  add_bool-Grows key val = Appends-Grows limit t b _ _ (bool_text-Appends key val) held

  -- In the same way, closing an object appends a brace.
  pub close_object-Grows : Grows limit t (b'}' ∷ []) (close_object b)
  unfolding close_object
  close_object-Grows = Appends-Grows limit t b _ _ (write_char-Appends b'}') held
