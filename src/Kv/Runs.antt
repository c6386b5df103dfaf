-- ===== src/Kv/Runs.antt =====
-- Sequences of storage calls: the step behind a call that succeeds, and what a sequence leaves
-- wherever it stops.
use mathlib.Core.Path.{subst, fun_ext}
use ant_chain_trust_sdk.Prelude.{
  ℕ, ◌≡◌, ap, refl, sym, ◌∙◌, ◌⊎◌, inl, inr, List, [], ◌∷◌, take, Bool-cases, All, arith,
}
use ant_chain_trust_sdk.Errno.{Err, is_ok}
use ant_chain_trust_sdk.Kv.Disk.{
  Disk, Reply, Outcome, fail, done, Io, ◌>>=◌, ◌>>◌, reply_of, later, overlay, storage_write,
  storage_sync,
}

pub >>=-done :
    {A B : Type 0} (m : Io A) (k : A → Io B) (d d' : Disk) (a : A)
    → m d ≡ (done a, d')
    → (m >>= k) d ≡ k a d'
>>=-done {A} {B} m k d d' a e =
    let go : Outcome A × Disk → Outcome B × Disk =
      λ r. let (o, d2) = r in elim o [ fail e ↦ (fail e, d2) | done b ↦ k b d2 ] in
    ap go e

pub >>=-fail :
    {A B : Type 0} (m : Io A) (k : A → Io B) (d d' : Disk) (e : Err)
    → m d ≡ (fail e, d')
    → (m >>= k) d ≡ (fail e, d')
>>=-fail {A} {B} m k d d' e eq =
    let go : Outcome A × Disk → Outcome B × Disk =
      λ r. let (o, d2) = r in elim o [ fail e' ↦ (fail e', d2) | done b ↦ k b d2 ] in
    ap go eq

-- Every call still to come changes nothing if it fails.
abbrev pub Clean : Disk → Type 0
Clean d = All (λ r. r.stored ≡ 0) d.replies

-- From a region `before`, `m` succeeds and leaves `after`, or stops at a region with the property.
pub record Runs (stops : (ℕ → ℕ) → Type 0) (before after : ℕ → ℕ) (m : Io (Unit {0})) : Type 0 where
  pub outcome :
      (d : Disk)
      → Clean d
      → d.bytes ≡ before
      → (((m d).0 ≡ done tt) × ((m d).1.bytes ≡ after)
          ⊎ ((e : Err) × ((m d).0 ≡ fail e) × stops (m d).1.bytes))
        × Clean (m d).1

clean-later : (rs : List Reply) → All (λ r. r.stored ≡ 0) rs → All (λ r. r.stored ≡ 0) (later rs)
clean-later [] h = tt
clean-later (r ∷ rs) h = h.1

reply_stored : (rs : List Reply) → All (λ r. r.stored ≡ 0) rs → (reply_of rs).stored ≡ 0
reply_stored [] h = refl
reply_stored (r ∷ rs) h = h.0

overlay-nothing : (f : ℕ → ℕ) (offset : ℕ) → overlay f offset [] ≡ f
unfolding overlay
overlay-nothing f offset = fun_ext (λ i. ground arith)

module _ (stops : (ℕ → ℕ) → Type 0) where
  pub storage_write-Runs :
      (before : ℕ → ℕ) (offset : ℕ) (new : List ℕ)
      → stops before
      → Runs stops before (overlay before offset new) (storage_write offset new)
  unfolding storage_write
  storage_write-Runs before offset new p = record {
    outcome = λ d clean e. elim (Bool-cases (is_ok (reply_of d.replies).code)) [
      | inl good ↦
          rw good (inl (refl, ap (λ f. overlay f offset new) e), clean-later d.replies clean)
      | inr bad ↦
          let same : overlay d.bytes offset (take (reply_of d.replies).stored new) ≡ before =
            rw (reply_stored d.replies clean) (overlay-nothing d.bytes offset ∙ e) in
          rw bad (
            inr ((reply_of d.replies).code, refl, subst stops (sym same) p),
            clean-later d.replies clean,
          )
    ];
  }

  pub storage_sync-Runs : (before : ℕ → ℕ) → stops before → Runs stops before before storage_sync
  unfolding storage_sync
  storage_sync-Runs before p = record {
    outcome = λ d clean e. elim (Bool-cases (is_ok (reply_of d.replies).code)) [
      | inl good ↦ rw good (inl (refl, e), clean-later d.replies clean)
      | inr bad ↦ rw bad (
        inr ((reply_of d.replies).code, refl, subst stops (sym e) p),
        clean-later d.replies clean,
      )
    ];
  }

  pub >>-Runs :
      (a b c : ℕ → ℕ) (m k : Io (Unit {0}))
      → Runs stops a b m
      → Runs stops b c k
      → Runs stops a c (m >> k)
  >>-Runs a b c m k p q = record {
    outcome = λ d clean e.
        let (first, clean') = p.outcome d clean e in
        elim first [
          | inl (ok, there) ↦ rw (ok, ◌>>=◌) (q.outcome (m d).1 clean' there)
          | inr (err, bad, stopped) ↦ rw (bad, ◌>>=◌) (inr (err, refl, stopped), clean')
        ];
  }
