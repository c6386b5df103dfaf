-- ===== src/Kv/Recover.antt =====
-- Validation and recovery in kv.c: which superblock and which journal count, and how an interrupted
-- change is finished.
use ant_chain_trust_sdk.Prelude.{
  ℕ, zero, suc, ◌+◌, ◌%◌, Bool, true, false, ◌&&◌, ◌||◌, not, Option, none, some, [], ◌∷◌, ltb, leb,
  ◌==◌, if◌then◌else◌,
}
use ant_chain_trust_sdk.Errno.{err_code, no_resource, io}
use ant_chain_trust_sdk.Kv.Codec.{
  Bytes, Config, Record, Superblock, Journal, max_key, record_crc, superblock_crc, journal_crc,
  commit_crc, encode_journal,
}
use ant_chain_trust_sdk.Kv.Disk.{
  kv_err, fail, done, Io, ◌>>=◌, ◌>>◌, give, throw, storage_erase, storage_sync, read_superblock,
  write_superblock, read_record, write_record, read_journal, clear_journal, journal_offset_0,
}

-- KV_HEADER_MAGIC, KV_JOURNAL_MAGIC and KV_JOURNAL_COMMIT_MAGIC
abbrev pub header_magic : ℕ
header_magic = 0x41435452

abbrev pub journal_magic : ℕ
journal_magic = 0x4a4e4c32

abbrev pub journal_commit_magic : ℕ
journal_commit_magic = 0x434f4d32

-- KV_JOURNAL_PREPARED and KV_JOURNAL_COMMITTED
abbrev pub prepared : ℕ
prepared = 1

abbrev pub committed : ℕ
committed = 2

-- KV_OP_SET, KV_OP_DELETE and KV_OP_FORMAT
abbrev pub op_set : ℕ
op_set = 1

abbrev pub op_delete : ℕ
op_delete = 2

abbrev pub op_format : ℕ
op_format = 3

-- `kv_region_is_zero`
unfoldable pub region_is_zero : Bytes → Bool
region_is_zero [] = true
region_is_zero (b ∷ rest) = b == 0 && region_is_zero rest

-- `kv_journal_is_zero`: the structure is zero if each of its fields is.
unfoldable pub journal_is_zero : Journal → Bool
journal_is_zero j = region_is_zero (encode_journal j)

-- `kv_make_superblock`
unfoldable pub make_superblock : ℕ → ℕ → Superblock
make_superblock generation record_count =
    let sb : Superblock = record {
      magic = header_magic;
      version = 2;
      layout = 1;
      generation = generation;
      record_count = record_count;
      crc32 = 0;
    } in
    record sb { crc32 = superblock_crc sb }

-- The choice of the index by `kv_select_superblock`, one of the two being valid.
unfoldable pub newer_superblock : Bool → Bool → Superblock → Superblock → ℕ
newer_superblock valid0 valid1 sb0 sb1 =
    if valid1 && (not valid0 || ltb sb0.generation sb1.generation) then 1 else 0

abbrev pub pick {ℓ} : {A : Type ℓ} → ℕ → A → A → A
pick zero a b = a
pick (suc _) a b = b

-- The choice of a journal: its index, `none` where no slot is valid. The first of two equals counts.
unfoldable pub newer_journal : Bool → Bool → Journal → Journal → Option ℕ
newer_journal true true j0 j1 = if ltb j0.generation j1.generation then some 1 else some 0
newer_journal true false j0 j1 = some 0
newer_journal false true j0 j1 = some 1
newer_journal false false j0 j1 = none

module _ (cfg : Config) where
  -- `kv_record_is_valid`
  unfoldable pub record_is_valid : Record → Bool
  record_is_valid r =
      r.used == 0
      || (r.used == 1
          && not (r.key_len == 0)
          && leb r.key_len max_key
          && leb r.value_len cfg.max_value
          && r.crc32 == record_crc r)

  -- `kv_superblock_is_valid`
  unfoldable pub superblock_is_valid : Superblock → Bool
  superblock_is_valid sb =
      sb.magic == header_magic
      && sb.version == 2
      && sb.layout == 1
      && leb sb.record_count cfg.max_records
      && sb.crc32 == superblock_crc sb

  -- `kv_journal_is_valid`
  unfoldable pub journal_is_valid : Journal → Bool
  journal_is_valid j =
      j.magic == journal_magic
      && j.version == 1
      && (j.state == prepared || j.state == committed)
      && leb op_set j.operation
      && leb j.operation op_format
      && not (j.generation == 0)
      && j.crc32 == journal_crc j
      && (j.operation == op_format || ltb j.record_index cfg.max_records)
      && (j.operation == op_format || record_is_valid j.entry)
      && (not (j.state == committed)
          || (j.commit_magic == journal_commit_magic
              && j.commit_generation == j.generation
              && j.commit_crc32 == commit_crc j))

  -- `kv_select_superblock`: the superblock and its index.
  unfoldable pub select_superblock : Io (Superblock × ℕ)
  select_superblock = do
    sb0 ← read_superblock 0
    sb1 ← read_superblock 1
    let valid0 = superblock_is_valid sb0
    let valid1 = superblock_is_valid sb1
    let index = newer_superblock valid0 valid1 sb0 sb1
    if not valid0 && not valid1
        then throw (kv_err no_resource)
        else give (pick index sb0 sb1, index)

  -- The loop of `kv_validate_records`: `n` records are left from `i` on, and `count` are in use.
  unfoldable pub validate_from : ℕ → ℕ → ℕ → ℕ → Io (Unit {0})
  validate_from i zero count expected d =
      if count == expected then (done tt, d) else (fail (kv_err io), d)
  validate_from i (suc n) count expected d =
      let (o, d') = read_record cfg i d in
      elim o [
        | fail _ ↦ (fail (kv_err io), d')
        | done r ↦ elim (record_is_valid r) [
          | false ↦ (fail (kv_err io), d')
          | true ↦ validate_from (i + 1) n (if r.used == 1 then count + 1 else count) expected d'
        ]
      ]

  -- `kv_validate_records`
  unfoldable pub validate_records : ℕ → Io (Unit {0})
  validate_records expected = validate_from 0 cfg.max_records 0 expected

  -- `kv_complete_format`
  unfoldable pub complete_format : Journal → Io (Unit {0})
  complete_format j =
      if not (j.base_generation == 0) || j.generation == 0 then throw (kv_err io) else do
        storage_erase 0 (journal_offset_0 cfg)
        write_superblock 0 (make_superblock j.generation 0)
        write_superblock 1 (make_superblock j.generation 0)
        storage_sync

  unfoldable pub checked_journal : Bool → Journal → Io (Bool × Journal)
  checked_journal no_superblock j =
      if journal_is_zero j
      then give (false, j)
      else if journal_is_valid j
      then give (true, j)
      else if no_superblock
      then throw (kv_err io)
      else give (false, j)

  -- A round of the loop in `kv_recover` that reads a journal: whether the slot is valid, and it.
  unfoldable pub load_journal : Bool → ℕ → Io (Bool × Journal)
  load_journal no_superblock i = do j ← read_journal cfg i; checked_journal no_superblock j

  -- The end of `kv_recover` without a superblock.
  unfoldable pub recover_format : Option ℕ → Journal → Journal → Io (Unit {0})
  recover_format none j0 j1 = throw (kv_err no_resource)
  recover_format (some i) j0 j1 =
      if not ((pick i j0 j1).operation == op_format)
      then throw (kv_err io)
      else do complete_format (pick i j0 j1); clear_journal cfg i

  -- The end of `kv_recover` behind a choice of the journal in slot `i`.
  unfoldable pub redo : Superblock → ℕ → ℕ → Journal → Io (Unit {0})
  redo current current_index i j =
      if leb j.generation current.generation
      then clear_journal cfg i
      else if not (j.base_generation == current.generation) || j.operation == op_format
      then throw (kv_err io)
      else do
        write_record cfg j.record_index j.entry
        write_superblock ((current_index + 1) % 2) (make_superblock j.generation j.record_count)
        storage_sync
        clear_journal cfg i

  unfoldable pub recover_changes : Superblock → ℕ → Option ℕ → Journal → Journal → Io (Unit {0})
  recover_changes current current_index none j0 j1 = validate_records current.record_count
  recover_changes current current_index (some i) j0 j1 = redo current current_index i (pick i j0 j1)

  -- `kv_recover` behind the choice of a superblock; `none` is its flag `no_superblock`.
  unfoldable pub recover_with : Option (Superblock × ℕ) → Io (Unit {0})
  recover_with none = do
    (valid0, j0) ← load_journal true 0
    (valid1, j1) ← load_journal true 1
    recover_format (newer_journal valid0 valid1 j0 j1) j0 j1
  recover_with (some (current, current_index)) = do
    (valid0, j0) ← load_journal false 0
    (valid1, j1) ← load_journal false 1
    recover_changes current current_index (newer_journal valid0 valid1 j0 j1) j0 j1

  -- `kv_recover`. Any error with the reason NO_RESOURCE counts as a missing superblock.
  unfoldable pub recover : Io (Unit {0})
  recover d =
      let (o, d') = select_superblock d in
      elim o [
        | done chosen ↦ recover_with (some chosen) d'
        | fail e ↦ if err_code e == no_resource then recover_with none d' else (fail e, d')
      ]

  -- `kv_load_current`
  unfoldable pub load_current : Io (Superblock × ℕ)
  load_current = recover >> select_superblock
