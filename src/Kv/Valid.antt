-- ===== src/Kv/Valid.antt =====
-- What the store writes passes its own checks and fits its C types.
use ant_chain_trust_sdk.Prelude.{ℕ, ◌^◌, ◌<◌, ◌≤◌, ◌≡◌, ◌⊎◌, refl, true, ◌==◌, ==_iff, arith}
use ant_chain_trust_sdk.Kv.Codec.{
  Config, Record, Journal, Bytes, crc32_of, superblock_crc, superblock_front, journal_crc,
  journal_head, commit_crc,
}
use ant_chain_trust_sdk.Kv.Recover.{
  make_superblock, superblock_is_valid, journal_is_valid, record_is_valid,
}
use ant_chain_trust_sdk.Kv.Prepare.{prepare, commit}
use ant_chain_trust_sdk.Kv.RoundTrip.{SuperblockFits, RecordFits, JournalFits}

pub crc32_of-fits : (s : Bytes) → crc32_of s < 2 ^ 32
unfolding crc32_of
crc32_of-fits s = omega arith

pub make_superblock-fits :
    (generation count : ℕ)
    → generation < 2 ^ 64
    → count < 2 ^ 32
    → SuperblockFits (make_superblock generation count)
unfolding make_superblock superblock_crc
make_superblock-fits generation count h l = record {
  magic = omega arith;
  version = omega arith;
  layout = omega arith;
  generation = h;
  record_count = l;
  crc32 = crc32_of-fits _;
}

same : (a : ℕ) → (a == a) ≡ true
same a = (==_iff a a).1 refl

module _ (cfg : Config) where
  pub make_superblock-valid :
      (generation count : ℕ)
      → count ≤ cfg.max_records
      → superblock_is_valid cfg (make_superblock generation count) ≡ true
  unfolding superblock_is_valid make_superblock superblock_crc superblock_front
  make_superblock-valid generation count h = grind arith

  module _ (operation generation base index count : ℕ) (r : Record)
      (small : cfg.max_records < 2 ^ 32) (op : (operation ≡ 1) ⊎ (operation ≡ 2))
      (pos : 0 < generation) (top : generation < 2 ^ 64) (base_top : base < 2 ^ 64)
      (place : index < cfg.max_records) (few : count < 2 ^ 32) (fits : RecordFits cfg r)
      (good : record_is_valid cfg r ≡ true) where
    abbrev j : Journal
    j = prepare cfg operation generation base index count r

    pub prepare-fits : JournalFits cfg j
    unfolding prepare journal_crc
    prepare-fits = record {
      magic = omega arith;
      version = omega arith;
      state = omega arith;
      operation = omega arith;
      generation = top;
      base_generation = base_top;
      record_index = omega arith;
      record_count = few;
      crc32 = crc32_of-fits _;
      entry = fits;
      commit_magic = omega arith;
      commit_generation = omega arith;
      commit_crc32 = omega arith;
    }

    pub commit-fits : JournalFits cfg (commit j)
    unfolding commit prepare journal_crc commit_crc
    commit-fits = record {
      magic = omega arith;
      version = omega arith;
      state = omega arith;
      operation = omega arith;
      generation = top;
      base_generation = base_top;
      record_index = omega arith;
      record_count = few;
      crc32 = crc32_of-fits _;
      entry = fits;
      commit_magic = omega arith;
      commit_generation = top;
      commit_crc32 = crc32_of-fits _;
    }

    pub prepare-valid : journal_is_valid cfg j ≡ true
    unfolding journal_is_valid prepare journal_crc journal_head
    prepare-valid = grind arith

    pub commit-valid : journal_is_valid cfg (commit j) ≡ true
    unfolding journal_is_valid commit prepare journal_crc journal_head commit_crc
    commit-valid = grind arith
