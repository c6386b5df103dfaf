-- ===== src/Kv/Steps.antt =====
-- The steps of an operation on a region that holds records, with a storage whose calls succeed.
use ant_chain_trust_sdk.Prelude.{
  ℕ, ◌≡◌, ◌≢◌, inl, inr, refl, ◌∙◌, true, false, ◌==◌, arith, Bool-cases,
}
use ant_chain_trust_sdk.Kv.Codec.{Bytes, Config, Record, Superblock}
use ant_chain_trust_sdk.Kv.Disk.{
  done, write_record, write_superblock, write_journal, clear_journal, storage_erase, storage_sync,
  storage_write,
}
use ant_chain_trust_sdk.Kv.Recover.{load_current, recover, select_superblock, op_format}
use ant_chain_trust_sdk.Kv.Prepare.{prepare}
use ant_chain_trust_sdk.Kv.Store.{Found, find_record, find_free_record, transaction}
use ant_chain_trust_sdk.Kv.Region.{Region}
use ant_chain_trust_sdk.Kv.Selected.{disk, select_superblock-Current}
use ant_chain_trust_sdk.Kv.Sound.{Sound, recover-Sound}
use ant_chain_trust_sdk.Kv.Runs.{>>=-done}
use ant_chain_trust_sdk.Kv.Crash.{f5}
use ant_chain_trust_sdk.Kv.Change.{Change}
use ant_chain_trust_sdk.Kv.Lookup.{holds, find_in, free_in, find_from-disk, free_from-disk}

pub holds-used : (key : Bytes) (r : Record) → holds key r ≡ true → (r.used == 1) ≡ true
holds-used key r h = elim (Bool-cases (r.used == 1)) [ inl e ↦ e | inr e ↦ absurd (no (rw e at h)) ]
  where
    no : false ≢ true
    no h = ground arith

module _ (cfg : Config) (size : ℕ) where
  -- Loading finds the superblock in force and keeps the records.
  pub load_current-Sound :
      (f : Region) (recs : ℕ → Record) (now : Superblock) (c : ℕ)
      → Sound cfg f recs now c
      → (g : Region) × (load_current cfg (disk f size) ≡ (done (now, c), disk g size))
        × Sound cfg g recs now c
  unfolding load_current
  load_current-Sound f recs now c sound =
      let r = recover-Sound cfg f size recs now c sound in
      (
        r.after,
        >>=-done (recover cfg) (λ _. select_superblock cfg) (disk f size) (disk r.after size) tt
              r.runs
            ∙ select_superblock-Current cfg r.after size now c r.sound.current,
        r.sound,
      )

  -- On a storage whose calls succeed a transaction succeeds.
  pub transaction-disk :
      (old : ℕ → Record) (now : Superblock) (c op k n : ℕ) (r : Record) (f : Region)
      (change : Change cfg old now op k n r) (sound : Sound cfg f old now c)
      → transaction cfg now c op k n r (disk f size)
        ≡ (done tt, disk (f5 cfg old now c op k n r change size sound.valid f sound) size)
  unfolding transaction write_journal write_record write_superblock clear_journal storage_erase
      storage_write storage_sync prepare
  transaction-disk old now c op k n r f change sound =
      let changes : (op == op_format) ≡ false = ground (arith, change.operation) in rw changes refl

  abbrev pub found_in : (ℕ → Record) → Bytes → Found
  found_in recs key =
      find_in recs 0 cfg.max_records key (record { index = cfg.max_records; count = 0 })

  pub find_record-Sound :
      (f : Region) (recs : ℕ → Record) (now : Superblock) (c : ℕ) (key : Bytes)
      → Sound cfg f recs now c
      → find_record cfg key (disk f size) ≡ (done (found_in recs key), disk f size)
  unfolding find_record
  find_record-Sound f recs now c key sound =
      find_from-disk cfg f size recs cfg.max_records sound.content sound.valid 0 cfg.max_records key
        _ (omega arith)

  pub find_free_record-Sound :
      (f : Region) (recs : ℕ → Record) (now : Superblock) (c : ℕ)
      → Sound cfg f recs now c
      → find_free_record cfg (disk f size)
        ≡ (done (free_in recs 0 cfg.max_records cfg.max_records), disk f size)
  unfolding find_free_record
  find_free_record-Sound f recs now c sound =
      free_from-disk cfg f size recs cfg.max_records sound.content sound.valid 0 cfg.max_records
        (omega arith)
