-- ===== src/Prelude/Slots.antt =====
-- Slots used in a circle, read as the list of what they hold.
use native.Mathlib.Nat.{mod-eq_of_lt, mod-eq-sub-mod, mod-add-mod, add-zero}
use native.Mathlib.Decide.{dec_lt}
use Prim.Native.Nat.{ℕ, zero, suc, ◌+◌, ◌-◌, ◌%◌, ◌<◌, ◌≤◌}
use mathlib.Core.Path.{◌≡◌, refl, sym, ap, ap₂, ◌∙◌}
use mathlib.Core.Logic.{◌≢◌}
use mathlib.Core.List.{List, [], ◌∷◌, ◌++◌}
use native.Mathlib.Omega.{arith}
use ant_chain_trust_sdk.Prelude.Lists.{length, get_or, set, get_or-set_self, get_or-set_ne}

round-ne : (depth h n : ℕ) → h < depth → suc n < depth → (h + suc n) % depth ≢ h
round-ne depth h n hh hn = elim (dec_lt (h + suc n) depth) [
  | yes inside ↦ omega (arith, mod-eq_of_lt inside)
  | no over ↦ omega (
    arith,
    mod-eq-sub-mod {n = h + suc n} {m = depth} (omega arith),
    mod-eq_of_lt {n = h + suc n - depth} {m = depth} (omega arith),
  )
]

pub tail-next : (head n depth : ℕ) → (((head + n) % depth + 1) % depth) ≡ (head + (n + 1)) % depth
tail-next head n depth = mod-add-mod (head + n) depth 1 ∙ ap (λ k. k % depth) (omega arith)

pub head-next :
    (head n depth : ℕ) → n ≢ 0 → (((head + 1) % depth + (n - 1)) % depth) ≡ (head + n) % depth
head-next head n depth h = mod-add-mod (head + 1) depth (n - 1) ∙ ap (λ k. k % depth) (omega arith)

-- A slot outside the buffer reads as `d`.
module _ {ℓ} {A : Type ℓ} (d : A) where
  -- The `n` slots from `head` on, going round at `depth`.
  unfoldable pub stored : List A → ℕ → ℕ → ℕ → List A
  stored buf depth head zero = []
  stored buf depth head (suc n) = get_or buf head d ∷ stored buf depth ((head + 1) % depth) n

  -- A value stored behind the last one.
  pub stored-set :
      (buf : List A) (depth : ℕ) (v : A) (n head at : ℕ)
      → depth ≤ length buf
      → head < depth
      → n < depth
      → at ≡ (head + n) % depth
      → stored (set buf at v) depth head (suc n) ≡ stored buf depth head n ++ v ∷ []
  unfolding stored
  stored-set buf depth v zero head at room hh hn e =
      let here : at ≡ head = e ∙ ap (λ k. k % depth) (add-zero head) ∙ mod-eq_of_lt hh in
      rw (here, get_or-set_self buf head v d (omega arith))
  stored-set buf depth v (suc n) head at room hh hn e =
      let next : at ≡ ((head + 1) % depth + n) % depth =
        e ∙ ap (λ k. k % depth) (omega arith) ∙ sym (mod-add-mod (head + 1) depth n) in
      let apart : at ≢ head = λ same. round-ne depth head n hh hn (sym e ∙ same) in
      ap₂ ◌∷◌ (get_or-set_ne buf at head v d apart)
        (stored-set buf depth v n ((head + 1) % depth) at room (omega arith) (omega arith) next)

  pub count-nonzero :
      (buf : List A) (depth head n : ℕ) (v : A) (rest : List A)
      → stored buf depth head n ≡ v ∷ rest
      → n ≢ 0
  unfolding stored
  count-nonzero buf depth head zero v rest e = cc
  count-nonzero buf depth head (suc n) v rest e = omega arith

  -- `stored` matches on `suc`, code tests for 0.
  pub stored-nonzero :
      (buf : List A) (depth head n : ℕ)
      → n ≢ 0
      → stored buf depth head n ≡ get_or buf head d ∷ stored buf depth ((head + 1) % depth) (n - 1)
  unfolding stored
  stored-nonzero buf depth head zero h = absurd (h refl)
  stored-nonzero buf depth head (suc n) h =
      ap (λ k. get_or buf head d ∷ stored buf depth ((head + 1) % depth) k) (omega arith)
