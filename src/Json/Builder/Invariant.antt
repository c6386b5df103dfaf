-- ===== src/Json/Builder/Invariant.antt =====
-- What a builder holds, and what each function on builders appends to it.
use native.Mathlib.Decide.{dec_lt}
use mathlib.Core.Path.{subst}
use ant_chain_trust_sdk.Prelude.{
  ℕ, ◌+◌, ◌<◌, ◌≤◌, ◌≡◌, ◌⊎◌, inl, inr, suc, sym, refl, false, some, [], ◌∷◌, ◌++◌, length, set,
  drop, arith, length-append, take-append, drop-append_add, drop-cons, set-append, append_assoc,
  append-nil,
}
use ant_chain_trust_sdk.Errno.{Err, is_ok, actrust_ok, err_make, buf_too_small}
use ant_chain_trust_sdk.Json.Chars.{Bytes}
use ant_chain_trust_sdk.Json.Escape.{json_err}
use ant_chain_trust_sdk.Json.EscapeLaws.{max_object}
use ant_chain_trust_sdk.Json.Builder.{Builder, M, ◌then_do◌, write, splice}

-- A builder of capacity `limit` over a buffer that starts with the text `t` and a NUL.
abbrev pub grown : ℕ → Bytes → Bytes → Builder
grown limit t behind = record { buf = some (t ++ 0 ∷ behind); cap = limit; len = length t }

-- `b` is such a builder, and the text and its NUL lie inside the capacity.
pub record Holds (limit : ℕ) (t : Bytes) (b : Builder) : Type 0 where
  pub behind : Bytes
  pub same : b ≡ grown limit t behind
  pub small : limit ≤ max_object
  pub room : length t < limit
  pub fits : limit ≤ length t + 1 + length behind

splice-text :
    (t behind : Bytes) (c : ℕ) (s : Bytes) (d : ℕ) (rest : Bytes)
    → drop (length s) behind ≡ d ∷ rest
    → set (splice (t ++ 0 ∷ behind) (length t) (c ∷ s)) (length t + length (c ∷ s)) 0
      ≡ (t ++ c ∷ s) ++ 0 ∷ rest
unfolding splice
splice-text t behind c s d rest e = rw (
  take-append t (0 ∷ behind),
  drop-append_add t (0 ∷ behind) (length (c ∷ s)) _ refl,
  e,
  ← append_assoc t (c ∷ s) (d ∷ rest),
  ← length-append t (c ∷ s),
  set-append (t ++ c ∷ s) rest d 0,
)

pub write-nothing :
    (limit : ℕ) (t behind : Bytes)
    → length t < limit
    → write [] (grown limit t behind) ≡ (actrust_ok, grown limit t behind)
unfolding write
write-nothing limit t behind room = ground arith

module _ (limit : ℕ) where
  write-room :
      (t behind : Bytes) (c : ℕ) (s : Bytes) (d : ℕ) (rest : Bytes)
      → limit ≤ max_object
      → length t + suc (length s) < limit
      → drop (length s) behind ≡ d ∷ rest
      → write (c ∷ s) (grown limit t behind) ≡ (actrust_ok, grown limit (t ++ c ∷ s) rest)
  unfolding write
  write-room t behind c s d rest small fits e =
      ground (arith, splice-text t behind c s d rest e, length-append t (c ∷ s))

  write-full :
      (t behind s : Bytes)
      → limit ≤ max_object
      → length t < limit
      → limit ≤ length t + length s
      → length s < max_object
      → write s (grown limit t behind) ≡ (json_err buf_too_small, grown limit t behind)
  unfolding write
  write-full t behind s small room full short = ground arith

-- The same text, at a path between texts.
pub Holds-text : {limit : ℕ} {b : Builder} (t u : Bytes) → t ≡ u → Holds limit t b → Holds limit u b
Holds-text {limit} {b} t u e h = subst (λ v. Holds limit v b) e h

-- `m` appends `out t` to a text `t`. With room for it and the NUL it succeeds; without, it reports
-- BUF_TOO_SMALL and leaves a text that begins with `t`.
pub record Appends (out : Bytes → Bytes) (m : M) : Type 0 where
  pub done :
      (limit : ℕ) (t : Bytes) (b : Builder)
      → Holds limit t b
      → length t + length (out t) < limit
      → ((m b).0 ≡ actrust_ok) × Holds limit (t ++ out t) (m b).1
  pub full :
      (limit : ℕ) (t : Bytes) (b : Builder)
      → Holds limit t b
      → limit ≤ length t + length (out t)
      → ((m b).0 ≡ json_err buf_too_small) × ((more : Bytes) × Holds limit (t ++ more) (m b).1)

-- What a call on a builder of capacity `limit` with the text `t` leaves, when its business is to
-- append `s`: with room for `s` and the NUL it succeeds and appends `s`; without, it reports
-- BUF_TOO_SMALL and leaves a text that begins with `t`.
abbrev pub Grows : ℕ → Bytes → Bytes → Err × Builder → Type 0
Grows limit t s (e, b) =
    (length t + length s < limit) × (e ≡ actrust_ok) × Holds limit (t ++ s) b
    ⊎ (limit ≤ length t + length s)
      × (e ≡ json_err buf_too_small)
      × ((more : Bytes) × Holds limit (t ++ more) b)

pub Appends-Grows :
    (limit : ℕ) (t : Bytes) (b : Builder) (out : Bytes → Bytes) (m : M)
    → Appends out m
    → Holds limit t b
    → Grows limit t (out t) (m b)
Appends-Grows limit t b out m a h = elim (dec_lt (length t + length (out t)) limit) [
  | yes fits ↦ inl (fits, (a.done limit t b h fits).0, (a.done limit t b h fits).1)
  | no full ↦
      inr (omega arith, (a.full limit t b h (omega arith)).0, (a.full limit t b h (omega arith)).1)
]

unchanged :
    (limit : ℕ) (t behind : Bytes)
    → limit ≤ max_object
    → length t < limit
    → limit ≤ length t + 1 + length behind
    → Holds limit (t ++ []) (grown limit t behind)
unchanged limit t behind small room fits =
    Holds-text t (t ++ []) (sym (append-nil t))
      (record { behind = behind; same = refl; small = small; room = room; fits = fits })

too_small-is_err : is_ok (json_err buf_too_small) ≡ false
unfolding json_err err_make
too_small-is_err = refl

-- A write fits.
write-done :
    (s : Bytes) (limit : ℕ) (t : Bytes) (b : Builder)
    → Holds limit t b
    → length t + length s < limit
    → ((write s b).0 ≡ actrust_ok) × Holds limit (t ++ s) (write s b).1
write-done [] limit t b h fits =
    rw (h.same, write-nothing limit t h.behind h.room)
      (refl, unchanged limit t h.behind h.small h.room h.fits)
write-done (c ∷ s) limit t b h fits =
    let (d, rest, e, l) = drop-cons (length s) h.behind (omega (arith, h.fits)) in
    rw (h.same, write-room limit t h.behind c s d rest h.small fits e)
      (
        refl,
        record {
          behind = rest;
          same = refl;
          small = h.small;
          room = omega (arith, length-append t (c ∷ s));
          fits = omega (arith, length-append t (c ∷ s), h.fits);
        },
      )

pub write-Appends : (s : Bytes) → length s < max_object → Appends (λ t. s) (write s)
write-Appends s short = record {
  done = write-done s;
  full = λ limit t b h full.
      rw (h.same, write-full limit t h.behind s h.small h.room full short)
        (refl, ([], unchanged limit t h.behind h.small h.room h.fits));
}

-- One after the other.
pub then_do-Appends :
    (f g : Bytes → Bytes) (m k : M)
    → Appends f m
    → Appends g k
    → Appends (λ t. f t ++ g (t ++ f t)) (m then_do k)
then_do-Appends f g m k p q = record {
  done = λ limit t b h fits.
      let l = length-append (f t) (g (t ++ f t)) in
      let l' = length-append t (f t) in
      let (ok, held) = p.done limit t b h (omega arith) in
      let (ok', held') = q.done limit (t ++ f t) _ held (omega arith) in
      rw (ok, ◌then_do◌) (ok', Holds-text _ _ (append_assoc t (f t) (g (t ++ f t))) held');
  full = λ limit t b h full. elim (dec_lt (length t + length (f t)) limit) [
    | yes fits ↦
        let l = length-append (f t) (g (t ++ f t)) in
        let l' = length-append t (f t) in
        let (ok, held) = p.done limit t b h fits in
        let (e, (more, held')) = q.full limit (t ++ f t) _ held (omega arith) in
        rw (ok, ◌then_do◌) (e, (f t ++ more, Holds-text _ _ (append_assoc t (f t) more) held'))
    | no stops ↦
        let (e, (more, held)) = p.full limit t b h (omega arith) in
        rw (e, ◌then_do◌, too_small-is_err) (refl, (more, held))
  ];
}
