-- ===== src/Kv/Parts.antt =====
-- A region as two superblocks, the records and two journals: a write to one part is read back, and
-- leaves the other parts as they were.
use native.Mathlib.Decide.{dec_lt}
use ant_chain_trust_sdk.Prelude.{
  ℕ, zero, suc, ◌-◌, ◌*◌, ◌<◌, ◌≡◌, ◌≢◌, inl, inr, refl, sym, ap, ◌∙◌, replicate, arith,
  length-replicate,
}
use ant_chain_trust_sdk.Kv.Codec.{
  Config, Record, Superblock, Journal, encode_record, encode_superblock, encode_journal,
  decode_journal, get_le, journal_wire_size,
}
use ant_chain_trust_sdk.Kv.Disk.{overlay, bytes_at, record_offset, journal_offset}
use ant_chain_trust_sdk.Kv.RoundTrip.{RecordFits, JournalFits, length-encode_record}
use ant_chain_trust_sdk.Kv.Region.{
  Region, superblock_at, superblock_at-beside, record_at, record_at-beside, journal_at,
  journal_at-beside, length-encode_superblock, length-encode_journal, record_slot_end,
  bytes_at-overlay,
}

abbrev pub put_superblock : Region → ℕ → Superblock → Region
put_superblock f i sb = overlay f (i * 64) (encode_superblock sb)

pub superblock_at-other :
    (f : Region) (i j : ℕ) (sb : Superblock)
    → i ≢ j
    → superblock_at (put_superblock f j sb) i ≡ superblock_at f i
superblock_at-other f i j sb ne =
    superblock_at-beside f i (j * 64) (encode_superblock sb)
      (ground (arith, length-encode_superblock sb))

get_le-zeros : (k n : ℕ) → get_le k (replicate n 0) ≡ 0
unfolding get_le
get_le-zeros zero n = refl
get_le-zeros (suc k) zero = omega (arith, get_le-zeros k zero)
get_le-zeros (suc k) (suc n) = omega (arith, get_le-zeros k n)

module _ (cfg : Config) where
  abbrev pub put_record : Region → ℕ → Record → Region
  put_record f k r = overlay f (record_offset cfg k) (encode_record r)

  abbrev pub put_journal : Region → ℕ → Journal → Region
  put_journal f i j = overlay f (journal_offset cfg i) (encode_journal j)

  abbrev pub wipe_journal : Region → ℕ → Region
  wipe_journal f i = overlay f (journal_offset cfg i) (replicate (journal_wire_size cfg) 0)

  pub superblock_at-put_record :
      (f : Region) (i k : ℕ) (r : Record)
      → i < 2
      → superblock_at (put_record f k r) i ≡ superblock_at f i
  superblock_at-put_record f i k r h =
      superblock_at-beside f i (record_offset cfg k) (encode_record r) (inl (omega arith))

  pub superblock_at-put_journal :
      (f : Region) (i s : ℕ) (j : Journal)
      → i < 2
      → superblock_at (put_journal f s j) i ≡ superblock_at f i
  superblock_at-put_journal f i s j h =
      superblock_at-beside f i (journal_offset cfg s) (encode_journal j) (inl (omega arith))

  pub superblock_at-wipe_journal :
      (f : Region) (i s : ℕ) → i < 2 → superblock_at (wipe_journal f s) i ≡ superblock_at f i
  superblock_at-wipe_journal f i s h =
      superblock_at-beside f i (journal_offset cfg s) (replicate (journal_wire_size cfg) 0)
        (inl (omega arith))

  pub record_at-put_superblock :
      (f : Region) (k i : ℕ) (sb : Superblock)
      → i < 2
      → record_at cfg (put_superblock f i sb) k ≡ record_at cfg f k
  record_at-put_superblock f k i sb h =
      record_at-beside cfg f k (i * 64) (encode_superblock sb)
        (inr (omega (arith, length-encode_superblock sb)))

  pub record_at-other :
      (f : Region) (k l : ℕ) (r : Record)
      → RecordFits cfg r
      → k ≢ l
      → record_at cfg (put_record f l r) k ≡ record_at cfg f k
  record_at-other f k l r fits ne =
      record_at-beside cfg f k (record_offset cfg l) (encode_record r) (elim (dec_lt k l) [
        | yes lt ↦ inl (omega (arith, record_slot_end cfg k l lt))
        | no ge ↦
            let lt : l < k = omega arith in
            inr (omega (arith, record_slot_end cfg l k lt, length-encode_record cfg r fits))
      ])

  pub record_at-put_journal :
      (f : Region) (k s : ℕ) (j : Journal)
      → k < cfg.max_records
      → record_at cfg (put_journal f s j) k ≡ record_at cfg f k
  record_at-put_journal f k s j h =
      record_at-beside cfg f k (journal_offset cfg s) (encode_journal j)
        (inl (omega (arith, record_slot_end cfg k cfg.max_records h)))

  pub record_at-wipe_journal :
      (f : Region) (k s : ℕ)
      → k < cfg.max_records
      → record_at cfg (wipe_journal f s) k ≡ record_at cfg f k
  record_at-wipe_journal f k s h =
      record_at-beside cfg f k (journal_offset cfg s) (replicate (journal_wire_size cfg) 0)
        (inl (omega (arith, record_slot_end cfg k cfg.max_records h)))

  pub journal_at-put_superblock :
      (f : Region) (s i : ℕ) (sb : Superblock)
      → i < 2
      → journal_at cfg (put_superblock f i sb) s ≡ journal_at cfg f s
  journal_at-put_superblock f s i sb h =
      journal_at-beside cfg f s (i * 64) (encode_superblock sb)
        (inr (omega (arith, length-encode_superblock sb)))

  pub journal_at-put_record :
      (f : Region) (s k : ℕ) (r : Record)
      → RecordFits cfg r
      → k < cfg.max_records
      → journal_at cfg (put_record f k r) s ≡ journal_at cfg f s
  journal_at-put_record f s k r fits h =
      journal_at-beside cfg f s (record_offset cfg k) (encode_record r) (
        inr
          (omega (arith, record_slot_end cfg k cfg.max_records h, length-encode_record cfg r fits)))

  -- The two journal slots, `1 - s` being the other one.
  pub journal_at-other :
      (f : Region) (s : ℕ) (j : Journal)
      → s < 2
      → JournalFits cfg j
      → journal_at cfg (put_journal f s j) (1 - s) ≡ journal_at cfg f (1 - s)
  journal_at-other f zero j h fits =
      journal_at-beside cfg f 1 (journal_offset cfg 0) (encode_journal j)
        (inr (omega (arith, length-encode_journal cfg j fits)))
  journal_at-other f (suc zero) j h fits =
      journal_at-beside cfg f 0 (journal_offset cfg 1) (encode_journal j) (inl (omega arith))
  journal_at-other f (suc (suc s)) j h fits = absurd (omega arith)

  pub journal_at-wipe_other :
      (f : Region) (s : ℕ)
      → s < 2
      → journal_at cfg (wipe_journal f s) (1 - s) ≡ journal_at cfg f (1 - s)
  journal_at-wipe_other f zero h =
      journal_at-beside cfg f 1 (journal_offset cfg 0) (replicate (journal_wire_size cfg) 0)
        (inr (omega (arith, length-replicate {A = ℕ} (journal_wire_size cfg) 0)))
  journal_at-wipe_other f (suc zero) h =
      journal_at-beside cfg f 0 (journal_offset cfg 1) (replicate (journal_wire_size cfg) 0)
        (inl (omega arith))
  journal_at-wipe_other f (suc (suc s)) h = absurd (omega arith)

  pub wiped_magic : (f : Region) (s : ℕ) → (journal_at cfg (wipe_journal f s) s).magic ≡ 0
  unfolding decode_journal
  wiped_magic f s =
      ap (get_le 4) (
        ap (λ n. bytes_at (wipe_journal f s) (journal_offset cfg s) n)
          (sym (length-replicate (journal_wire_size cfg) 0))
        ∙ bytes_at-overlay f (journal_offset cfg s) (replicate (journal_wire_size cfg) 0))
      ∙ get_le-zeros 4 (journal_wire_size cfg)
