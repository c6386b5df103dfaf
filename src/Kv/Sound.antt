-- ===== src/Kv/Sound.antt =====
-- Regions that hold given records, and that recovery keeps them.
use native.Mathlib.Decide.{dec_lt}
use ant_chain_trust_sdk.Prelude.{
  ℕ, zero, suc, ◌+◌, ◌-◌, ◌<◌, ◌≤◌, ◌≡◌, ◌⊎◌, inl, inr, refl, ap, ◌∙◌, Bool, true, false, Option,
  none, some, ◌==◌, arith, if◌then◌else◌,
}
use ant_chain_trust_sdk.Kv.Codec.{Config, Record, Superblock, Journal}
use ant_chain_trust_sdk.Kv.Disk.{
  Disk, Io, done, read_record, storage_read, clear_journal, storage_erase, storage_write,
}
use ant_chain_trust_sdk.Kv.Recover.{
  journal_is_valid, record_is_valid, validate_from, validate_records, recover_changes, redo, pick,
  recover, newer_journal,
}
use ant_chain_trust_sdk.Kv.Region.{Region, record_at, journal_at}
use ant_chain_trust_sdk.Kv.Parts.{
  wipe_journal, superblock_at-wipe_journal, record_at-wipe_journal, journal_at-wipe_other,
  wiped_magic,
}
use ant_chain_trust_sdk.Kv.Selected.{disk, Current, recover-Current}

-- The number of records in use among `n` from `i` on, added to `count`.
unfoldable pub in_use : (ℕ → Record) → ℕ → ℕ → ℕ → ℕ
in_use recs i zero count = count
in_use recs i (suc n) count =
    in_use recs (i + 1) n (if (recs i).used == 1 then count + 1 else count)

module _ (cfg : Config) where
  -- A journal that asks for nothing: invalid, or of a generation that is in force already.
  abbrev pub Quiet : Region → ℕ → ℕ → Type 0
  Quiet f generation i =
      (journal_is_valid cfg (journal_at cfg f i) ≡ false)
      ⊎ ((journal_at cfg f i).generation ≤ generation)

  -- `f` holds the records `recs`: a superblock counts them, each is valid, and no journal is due.
  pub record Sound (f : Region) (recs : ℕ → Record) (now : Superblock) (c : ℕ) : Type 0 where
    pub current : Current cfg f now c
    pub quiet0 : Quiet f now.generation 0
    pub quiet1 : Quiet f now.generation 1
    pub content : (i : ℕ) → i < cfg.max_records → record_at cfg f i ≡ recs i
    pub valid : (i : ℕ) → i < cfg.max_records → record_is_valid cfg (recs i) ≡ true
    pub counted : in_use recs 0 cfg.max_records 0 ≡ now.record_count

  validate_from-Sound :
      (f : Region) (size : ℕ) (recs : ℕ → Record) (i n count expected : ℕ)
      → ((k : ℕ) → k < i + n → record_at cfg f k ≡ recs k)
      → ((k : ℕ) → k < i + n → record_is_valid cfg (recs k) ≡ true)
      → in_use recs i n count ≡ expected
      → validate_from cfg i n count expected (disk f size) ≡ (done tt, disk f size)
  unfolding validate_from in_use read_record storage_read
  validate_from-Sound f size recs i zero count expected same valid e = ground arith
  validate_from-Sound f size recs i (suc n) count expected same valid e =
      let good : record_is_valid cfg (record_at cfg f i) ≡ true =
        ap (record_is_valid cfg) (same i (omega arith)) ∙ valid i (omega arith) in
      let e' : in_use recs (i + 1) n (if (record_at cfg f i).used == 1 then count + 1 else count)
          ≡ expected =
        rw (same i (omega arith)) e in
      rw (good, validate_from)
        (validate_from-Sound f size recs (i + 1) n _ expected (λ k h. same k (omega arith))
          (λ k h. valid k (omega arith)) e')

  clear_journal-disk :
      (f : Region) (size i : ℕ)
      → clear_journal cfg i (disk f size) ≡ (done tt, disk (wipe_journal cfg f i) size)
  unfolding clear_journal storage_erase storage_write
  clear_journal-disk f size i = refl

  pub wiped-Quiet : (f : Region) (s generation : ℕ) → Quiet (wipe_journal cfg f s) generation s
  unfolding journal_is_valid
  wiped-Quiet f s generation = inl (rw (wiped_magic cfg f s) refl)

  pub Current-wiped :
      (f : Region) (s : ℕ) (now : Superblock) (c : ℕ)
      → Current cfg f now c
      → Current cfg (wipe_journal cfg f s) now c
  Current-wiped f s now c cur = record {
    low = cur.low;
    here = superblock_at-wipe_journal cfg f c s cur.low ∙ cur.here;
    valid = cur.valid;
    older = rw (superblock_at-wipe_journal cfg f (1 - c) s (omega arith)) cur.older;
  }

  -- Clearing a journal keeps the records.
  pub Sound-wiped :
      (f : Region) (recs : ℕ → Record) (now : Superblock) (c s : ℕ)
      → s < 2
      → Sound f recs now c
      → Sound (wipe_journal cfg f s) recs now c
  Sound-wiped f recs now c zero h sound = record {
    current = Current-wiped f 0 now c sound.current;
    quiet0 = wiped-Quiet f 0 now.generation;
    quiet1 = rw (journal_at-wipe_other cfg f 0 h) sound.quiet1;
    content = λ i l. record_at-wipe_journal cfg f i 0 l ∙ sound.content i l;
    valid = sound.valid;
    counted = sound.counted;
  }
  Sound-wiped f recs now c (suc zero) h sound = record {
    current = Current-wiped f 1 now c sound.current;
    quiet0 = rw (journal_at-wipe_other cfg f 1 h) sound.quiet0;
    quiet1 = wiped-Quiet f 1 now.generation;
    content = λ i l. record_at-wipe_journal cfg f i 1 l ∙ sound.content i l;
    valid = sound.valid;
    counted = sound.counted;
  }
  Sound-wiped f recs now c (suc (suc s)) h sound = absurd (omega arith)

  redo-old :
      (now : Superblock) (c s : ℕ) (j : Journal) (d : Disk)
      → j.generation ≤ now.generation
      → redo cfg now c s j d ≡ clear_journal cfg s d
  unfolding redo
  redo-old now c s j d h = ground arith

  newer-quiet :
      (v0 v1 : Bool) (j0 j1 : Journal) (g : ℕ)
      → (v0 ≡ false) ⊎ (j0.generation ≤ g)
      → (v1 ≡ false) ⊎ (j1.generation ≤ g)
      → (newer_journal v0 v1 j0 j1 ≡ none)
        ⊎ ((s : ℕ) × (s < 2)
            × (newer_journal v0 v1 j0 j1 ≡ some s)
            × ((pick s j0 j1).generation ≤ g))
  unfolding newer_journal
  newer-quiet false false j0 j1 g q0 q1 = inl refl
  newer-quiet true false j0 j1 g q0 q1 = inr (0, omega arith, refl, ground arith)
  newer-quiet false true j0 j1 g q0 q1 = inr (1, omega arith, refl, ground arith)
  newer-quiet true true j0 j1 g q0 q1 = elim (dec_lt j0.generation j1.generation) [
    | yes lt ↦ inr (1, omega arith, ground arith, ground arith)
    | no ge ↦ inr (0, omega arith, ground arith, ground arith)
  ]

  -- What recovery leaves of a region.
  pub record Recovers (f : Region) (size : ℕ) (recs : ℕ → Record) (now : Superblock) (c : ℕ)
      : Type 0 where
    pub after : Region
    pub runs : recover cfg (disk f size) ≡ (done tt, disk after size)
    pub sound : Sound after recs now c

  -- Recovery of a region that holds records succeeds and keeps them.
  pub recover-Sound :
      (f : Region) (size : ℕ) (recs : ℕ → Record) (now : Superblock) (c : ℕ)
      → Sound f recs now c
      → Recovers f size recs now c
  unfolding recover_changes validate_records
  recover-Sound f size recs now c sound =
      elim (newer-quiet (journal_is_valid cfg (journal_at cfg f 0))
        (journal_is_valid cfg (journal_at cfg f 1)) (journal_at cfg f 0) (journal_at cfg f 1)
        now.generation sound.quiet0 sound.quiet1) [
          | inl e ↦ record {
            after = f;
            runs =
                recover-Current cfg f size now c sound.current
                ∙ ap (λ x. changes x (disk f size)) e
                ∙ validate_from-Sound f size recs 0 cfg.max_records 0 now.record_count
                    (λ k h. sound.content k (omega arith)) (λ k h. sound.valid k (omega arith))
                    sound.counted;
            sound = sound;
          }
          | inr (s, low, e, old) ↦ record {
            after = wipe_journal cfg f s;
            runs =
                recover-Current cfg f size now c sound.current
                ∙ ap (λ x. changes x (disk f size)) e
                ∙ redo-old now c s (pick s (journal_at cfg f 0) (journal_at cfg f 1)) (disk f size)
                    old
                ∙ clear_journal-disk f size s;
            sound = Sound-wiped f recs now c s low sound;
          }
        ]
    where
      changes : Option ℕ → Io (Unit {0})
      changes x = recover_changes cfg now c x (journal_at cfg f 0) (journal_at cfg f 1)
