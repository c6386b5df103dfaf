-- ===== src/Kv/Change.antt =====
-- A change of the store, and what regions hold before its new superblock and behind it.
use native.Mathlib.Decide.{ℕ_discrete}
use ant_chain_trust_sdk.Prelude.{
  ℕ, zero, suc, ◌+◌, ◌-◌, ◌%◌, ◌^◌, ◌<◌, ◌≤◌, ◌≡◌, ◌≢◌, ◌⊎◌, inl, inr, refl, sym, ap, ◌∙◌, Bool,
  true, false, some, ◌==◌, Bool-cases, arith, if◌then◌else◌,
}
use ant_chain_trust_sdk.Kv.Codec.{Config, Record, Superblock, Journal}
use ant_chain_trust_sdk.Kv.Recover.{
  journal_is_valid, record_is_valid, make_superblock, newer_journal, pick,
}
use ant_chain_trust_sdk.Kv.Prepare.{prepare, commit}
use ant_chain_trust_sdk.Kv.RoundTrip.{RecordFits, JournalFits}
use ant_chain_trust_sdk.Kv.Valid.{
  make_superblock-fits, make_superblock-valid, prepare-fits, prepare-valid, commit-fits,
}
use ant_chain_trust_sdk.Kv.Region.{
  Region, superblock_at, record_at, superblock_at-written, record_at-written,
}
use ant_chain_trust_sdk.Kv.Parts.{
  put_superblock, put_record, put_journal, wipe_journal, superblock_at-other,
  superblock_at-put_record, superblock_at-put_journal, record_at-put_superblock, record_at-other,
  record_at-put_journal, record_at-wipe_journal, journal_at-put_superblock, journal_at-put_record,
  journal_at-other, journal_at-wipe_other,
}
use ant_chain_trust_sdk.Kv.Selected.{Current}
use ant_chain_trust_sdk.Kv.Sound.{in_use, Quiet, Current-wiped}

-- Both journal slots, from the one and the other.
pub both : (P : ℕ → Type 0) (s : ℕ) → s < 2 → P s → P (1 - s) → P 0 × P 1
both P zero h p q = (p, q)
both P (suc zero) h p q = (q, p)
both P (suc (suc s)) h p q = absurd (omega arith)

pub other_of : (P : ℕ → Type 0) (s : ℕ) → s < 2 → P 0 → P 1 → P (1 - s)
other_of P zero h p q = q
other_of P (suc zero) h p q = p
other_of P (suc (suc s)) h p q = absurd (omega arith)

pub pick-at : {A : Type 0} (g : ℕ → A) (s : ℕ) → s < 2 → pick s (g 0) (g 1) ≡ g s
pick-at g zero h = refl
pick-at g (suc zero) h = refl
pick-at g (suc (suc s)) h = absurd (omega arith)

pub newer-due :
    (valid : Journal → Bool) (at : ℕ → Journal) (g s : ℕ)
    → s < 2
    → valid (at s) ≡ true
    → g < (at s).generation
    → (valid (at (1 - s)) ≡ false) ⊎ ((at (1 - s)).generation ≤ g)
    → newer_journal (valid (at 0)) (valid (at 1)) (at 0) (at 1) ≡ some s
unfolding newer_journal
newer-due valid at g zero low v l q = elim (Bool-cases (valid (at 1))) [
  | inl w ↦ rw (v, w) (ground arith)
  | inr w ↦ rw (v, w) refl
]
newer-due valid at g (suc zero) low v l q = elim (Bool-cases (valid (at 0))) [
  | inl w ↦ rw (v, w) (ground arith)
  | inr w ↦ rw (v, w) refl
]
newer-due valid at g (suc (suc s)) low v l q = absurd (omega arith)

-- The records with `r` at `k`.
unfoldable pub replaced : (ℕ → Record) → ℕ → Record → ℕ → Record
replaced old k r i = if i == k then r else old i

-- A change that the store may be asked for: the record `r` for slot `k`, `n` records in use then.
pub record Change (cfg : Config) (old : ℕ → Record) (now : Superblock) (op k n : ℕ) (r : Record)
    : Type 0 where
  pub operation : (op ≡ 1) ⊎ (op ≡ 2)
  pub small : cfg.max_records < 2 ^ 32
  pub top : now.generation + 1 < 2 ^ 64
  pub place : k < cfg.max_records
  pub few : n ≤ cfg.max_records
  pub fits : RecordFits cfg r
  pub good : record_is_valid cfg r ≡ true
  pub counted : in_use (replaced old k r) 0 cfg.max_records 0 ≡ n

module _ (cfg : Config) (old : ℕ → Record) (now : Superblock) (c op k n : ℕ) (r : Record)
    (change : Change cfg old now op k n r) where
  abbrev generation : ℕ
  generation = (now.generation + 1) % 2 ^ 64

  pub next_generation : generation ≡ now.generation + 1
  next_generation = omega (arith, change.top)

  abbrev slot : ℕ
  slot = now.generation % 2

  abbrev next : Superblock
  next = make_superblock generation n

  abbrev c' : ℕ
  c' = (c + 1) % 2

  abbrev j : Journal
  j = prepare cfg op generation now.generation k n r

  pub j-fits : JournalFits cfg j
  j-fits =
      prepare-fits cfg op generation now.generation k n r change.small change.operation
        (omega (arith, next_generation)) (omega arith) (omega (arith, change.top)) change.place
        (omega (arith, change.few, change.small)) change.fits change.good

  pub j-valid : journal_is_valid cfg j ≡ true
  j-valid =
      prepare-valid cfg op generation now.generation k n r change.small change.operation
        (omega (arith, next_generation)) (omega arith) (omega (arith, change.top)) change.place
        (omega (arith, change.few, change.small)) change.fits change.good

  pub committed-fits : JournalFits cfg (commit j)
  committed-fits =
      commit-fits cfg op generation now.generation k n r change.small change.operation
        (omega (arith, next_generation)) (omega arith) (omega (arith, change.top)) change.place
        (omega (arith, change.few, change.small)) change.fits change.good

  -- Up to the new superblock: the old one is in force, and the records but for slot `k` are old.
  pub record Before (f : Region) : Type 0 where
    pub current : Current cfg f now c
    pub quiet : Quiet cfg f now.generation (1 - slot)
    pub content : (i : ℕ) → i < cfg.max_records → i ≢ k → record_at cfg f i ≡ old i

  -- From the new superblock on.
  pub record After (f : Region) : Type 0 where
    pub current : Current cfg f next c'
    pub quiet : Quiet cfg f next.generation (1 - slot)
    pub content : (i : ℕ) → i < cfg.max_records → record_at cfg f i ≡ replaced old k r i

  pub Before-journal : (f : Region) → Before f → Before (put_journal cfg f slot j)
  Before-journal f b = record {
    current = record {
      low = b.current.low;
      here = superblock_at-put_journal cfg f c slot j b.current.low ∙ b.current.here;
      valid = b.current.valid;
      older = rw (superblock_at-put_journal cfg f (1 - c) slot j (omega arith)) b.current.older;
    };
    quiet = rw (journal_at-other cfg f slot j (omega arith) j-fits) b.quiet;
    content = λ i l ne. record_at-put_journal cfg f i slot j l ∙ b.content i l ne;
  }

  pub Before-record : (f : Region) → Before f → Before (put_record cfg f k r)
  Before-record f b = record {
    current = record {
      low = b.current.low;
      here = superblock_at-put_record cfg f c k r b.current.low ∙ b.current.here;
      valid = b.current.valid;
      older = rw (superblock_at-put_record cfg f (1 - c) k r (omega arith)) b.current.older;
    };
    quiet = rw (journal_at-put_record cfg f (1 - slot) k r change.fits change.place) b.quiet;
    content = λ i l ne. record_at-other cfg f i k r change.fits ne ∙ b.content i l ne;
  }

  -- The new superblock over the new record.
  abbrev published : Region → Region
  published f = put_superblock (put_record cfg f k r) c' next

  published-content :
      (f : Region)
      → Before f
      → (i : ℕ) → i < cfg.max_records
      → record_at cfg (published f) i ≡ replaced old k r i
  unfolding replaced
  published-content f b i l =
      record_at-put_superblock cfg (put_record cfg f k r) i c' next (omega arith)
      ∙ elim (ℕ_discrete i k) [
        | yes e ↦
            let new : (if i == k then r else old i) ≡ r = ground (arith, e) in
            ap (record_at cfg (put_record cfg f k r)) e
            ∙ record_at-written cfg f k r change.fits
            ∙ sym new
        | no ne ↦
            let kept : (if i == k then r else old i) ≡ old i = ground (arith, ne) in
            record_at-other cfg f i k r change.fits ne ∙ b.content i l ne ∙ sym kept
      ]

  next-generation : next.generation ≡ now.generation + 1
  unfolding make_superblock
  next-generation = next_generation

  Quiet-later : (f : Region) (i : ℕ) → Quiet cfg f now.generation i → Quiet cfg f next.generation i
  Quiet-later f i (inl e) = inl e
  Quiet-later f i (inr l) = inr (omega (arith, next-generation))

  pub Before-published : (f : Region) → Before f → After (published f)
  Before-published f b =
      let back : 1 - c' ≡ c = omega (arith, b.current.low) in
      let apart : c ≢ c' = omega (arith, b.current.low) in
      let kept : superblock_at (published f) c ≡ now =
        superblock_at-other (put_record cfg f k r) c c' next apart
        ∙ superblock_at-put_record cfg f c k r b.current.low
        ∙ b.current.here in
      record {
        current = record {
          low = omega arith;
          here = superblock_at-written (put_record cfg f k r) c' next (
              make_superblock-fits generation n (omega arith)
                (omega (arith, change.few, change.small)));
          valid = make_superblock-valid cfg generation n change.few;
          older = inr (inl (rw (back, kept) (omega (arith, next-generation))));
        };
        quiet =
            rw
              (
                journal_at-put_superblock cfg (put_record cfg f k r) (1 - slot) c' next
                    (omega arith),
                journal_at-put_record cfg f (1 - slot) k r change.fits change.place,
              )
              (Quiet-later f (1 - slot) b.quiet);
        content = published-content f b;
      }

  pub After-journal :
      (f : Region) (i : Journal) → JournalFits cfg i → After f → After (put_journal cfg f slot i)
  After-journal f i fits a = record {
    current = record {
      low = a.current.low;
      here = superblock_at-put_journal cfg f c' slot i a.current.low ∙ a.current.here;
      valid = a.current.valid;
      older = rw (superblock_at-put_journal cfg f (1 - c') slot i (omega arith)) a.current.older;
    };
    quiet = rw (journal_at-other cfg f slot i (omega arith) fits) a.quiet;
    content = λ m l. record_at-put_journal cfg f m slot i l ∙ a.content m l;
  }

  pub After-wiped : (f : Region) → After f → After (wipe_journal cfg f slot)
  After-wiped f a = record {
    current = Current-wiped cfg f slot next c' a.current;
    quiet = rw (journal_at-wipe_other cfg f slot (omega arith)) a.quiet;
    content = λ m l. record_at-wipe_journal cfg f m slot l ∙ a.content m l;
  }
