-- ===== src/Kv/Region.antt =====
-- The parts of a region, and what a write to one part leaves of the others.
use native.Mathlib.Nat.{mul-le-mul_left, mul-suc}
use ant_chain_trust_sdk.Prelude.{
  ℕ, zero, suc, ◌+◌, ◌-◌, ◌*◌, ◌<◌, ◌≤◌, ◌≡◌, ◌⊎◌, refl, sym, ap, ap₂, ◌∙◌, [], ◌∷◌, length, arith,
  append-nil, length-append,
}
use ant_chain_trust_sdk.Kv.Codec.{
  Bytes, Config, Record, Superblock, Journal, encode_record, decode_record, encode_superblock,
  decode_superblock, encode_journal, decode_journal, record_wire_size, journal_wire_size,
  superblock_front, put_le, journal_head, commit_bytes,
}
use ant_chain_trust_sdk.Kv.Disk.{bytes_at, overlay, record_offset, journal_offset, record_size}
use ant_chain_trust_sdk.Kv.RoundTrip.{
  SuperblockFits, RecordFits, JournalFits, decode_superblock-encode_superblock,
  decode_record-encode_record, decode_journal-encode_journal, length-encode_record,
}

abbrev pub Region : Type 0
Region = ℕ → ℕ

overlay-first : (f : Region) (off b : ℕ) (s : Bytes) → overlay f off (b ∷ s) off ≡ b
unfolding overlay
overlay-first f off b s = let e : off - off ≡ 0 = omega arith in rw e (ground arith)

overlay-outside :
    (f : Region) (off : ℕ) (s : Bytes) (i : ℕ)
    → (i < off) ⊎ (off + length s ≤ i)
    → overlay f off s i ≡ f i
unfolding overlay
overlay-outside f off s i h = ground arith

bytes_at-same :
    (f g : Region) (at n : ℕ) → ((i : ℕ) → at ≤ i → f i ≡ g i) → bytes_at f at n ≡ bytes_at g at n
unfolding bytes_at
bytes_at-same f g at zero h = refl
bytes_at-same f g at (suc n) h =
    ap₂ ◌∷◌ (h at (omega arith)) (bytes_at-same f g (at + 1) n (λ i l. h i (omega arith)))

overlay-tail :
    (f : Region) (off b : ℕ) (s : Bytes) (i : ℕ)
    → off + 1 ≤ i
    → overlay f off (b ∷ s) i ≡ overlay f (off + 1) s i
unfolding overlay
overlay-tail f off b s i h =
    let e : i - off ≡ suc (i - (off + 1)) = omega arith in rw e (ground arith)

-- What is written is read.
pub bytes_at-overlay :
    (f : Region) (off : ℕ) (s : Bytes) → bytes_at (overlay f off s) off (length s) ≡ s
unfolding bytes_at
bytes_at-overlay f off [] = refl
bytes_at-overlay f off (b ∷ s) = ap₂ ◌∷◌ (overlay-first f off b s) (
    bytes_at-same _ _ (off + 1) (length s) (λ i l. overlay-tail f off b s i l)
    ∙ bytes_at-overlay f (off + 1) s)

-- What is read beside a write is what was there.
pub bytes_at-overlay_beside :
    (f : Region) (off : ℕ) (s : Bytes) (at n : ℕ)
    → (at + n ≤ off) ⊎ (off + length s ≤ at)
    → bytes_at (overlay f off s) at n ≡ bytes_at f at n
unfolding bytes_at
bytes_at-overlay_beside f off s at zero h = refl
bytes_at-overlay_beside f off s at (suc n) h =
    ap₂ ◌∷◌ (overlay-outside f off s at (ground arith))
      (bytes_at-overlay_beside f off s (at + 1) n (ground arith))

abbrev pub superblock_at : Region → ℕ → Superblock
superblock_at f i = decode_superblock (bytes_at f (i * 64) 64)

pub length-encode_superblock : (sb : Superblock) → length (encode_superblock sb) ≡ 64
unfolding encode_superblock superblock_front put_le
length-encode_superblock sb = refl

pub superblock_at-written :
    (f : Region) (i : ℕ) (sb : Superblock)
    → SuperblockFits sb
    → superblock_at (overlay f (i * 64) (encode_superblock sb)) i ≡ sb
superblock_at-written f i sb fits =
    ap decode_superblock (
      ap (λ n. bytes_at (overlay f (i * 64) (encode_superblock sb)) (i * 64) n)
        (sym (length-encode_superblock sb))
      ∙ bytes_at-overlay f (i * 64) (encode_superblock sb)
      ∙ sym (append-nil (encode_superblock sb)))
    ∙ decode_superblock-encode_superblock sb [] fits

pub superblock_at-beside :
    (f : Region) (i off : ℕ) (s : Bytes)
    → (i * 64 + 64 ≤ off) ⊎ (off + length s ≤ i * 64)
    → superblock_at (overlay f off s) i ≡ superblock_at f i
superblock_at-beside f i off s h =
    ap decode_superblock (bytes_at-overlay_beside f off s (i * 64) 64 h)

module _ (cfg : Config) where
  abbrev pub record_at : Region → ℕ → Record
  record_at f i = decode_record cfg (bytes_at f (record_offset cfg i) (record_wire_size cfg))

  abbrev pub journal_at : Region → ℕ → Journal
  journal_at f i = decode_journal cfg (bytes_at f (journal_offset cfg i) (journal_wire_size cfg))

  pub length-encode_journal :
      (j : Journal) → JournalFits cfg j → length (encode_journal j) ≡ journal_wire_size cfg
  unfolding encode_journal journal_head commit_bytes put_le
  length-encode_journal j f = omega (
    arith,
    length-append (encode_record j.entry) (commit_bytes j),
    length-encode_record cfg j.entry f.entry,
  )

  pub record_at-written :
      (f : Region) (i : ℕ) (r : Record)
      → RecordFits cfg r
      → record_at (overlay f (record_offset cfg i) (encode_record r)) i ≡ r
  record_at-written f i r fits =
      ap (decode_record cfg) (
        ap
          (λ n.
            bytes_at (overlay f (record_offset cfg i) (encode_record r)) (record_offset cfg i) n)
          (sym (length-encode_record cfg r fits))
        ∙ bytes_at-overlay f (record_offset cfg i) (encode_record r)
        ∙ sym (append-nil (encode_record r)))
      ∙ decode_record-encode_record cfg r [] fits

  pub record_at-beside :
      (f : Region) (i off : ℕ) (s : Bytes)
      → (record_offset cfg i + record_wire_size cfg ≤ off) ⊎ (off + length s ≤ record_offset cfg i)
      → record_at (overlay f off s) i ≡ record_at f i
  record_at-beside f i off s h =
      ap (decode_record cfg)
        (bytes_at-overlay_beside f off s (record_offset cfg i) (record_wire_size cfg) h)

  pub journal_at-written :
      (f : Region) (i : ℕ) (j : Journal)
      → JournalFits cfg j
      → journal_at (overlay f (journal_offset cfg i) (encode_journal j)) i ≡ j
  journal_at-written f i j fits =
      ap (decode_journal cfg) (
        ap
          (λ n.
            bytes_at (overlay f (journal_offset cfg i) (encode_journal j)) (journal_offset cfg i) n)
          (sym (length-encode_journal j fits))
        ∙ bytes_at-overlay f (journal_offset cfg i) (encode_journal j))
      ∙ decode_journal-encode_journal cfg j fits

  pub journal_at-beside :
      (f : Region) (i off : ℕ) (s : Bytes)
      → (journal_offset cfg i + journal_wire_size cfg ≤ off)
        ⊎ (off + length s ≤ journal_offset cfg i)
      → journal_at (overlay f off s) i ≡ journal_at f i
  journal_at-beside f i off s h =
      ap (decode_journal cfg)
        (bytes_at-overlay_beside f off s (journal_offset cfg i) (journal_wire_size cfg) h)

  -- The places of the parts: no two overlap.
  pub record_slot_end :
      (k n : ℕ) → k < n → record_size cfg * k + record_wire_size cfg ≤ record_size cfg * n
  record_slot_end k n h =
      let up : suc k ≤ n = omega arith in
      let m = mul-le-mul_left (record_size cfg) up in
      let e = mul-suc (record_size cfg) k in omega arith
