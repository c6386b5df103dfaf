-- ===== src/Kv/Prepare.antt =====
-- `kv_prepare_storage`: a region is refused, recovered, or formatted when it is all zero.
use ant_chain_trust_sdk.Prelude.{
  ℕ, zero, suc, ◌+◌, ◌-◌, Bool, true, false, not, drop, ltb, ◌==◌, ◌&&◌, if◌then◌else◌,
}
use ant_chain_trust_sdk.Errno.{err_code, no_resource, io, unsupported}
use ant_chain_trust_sdk.Kv.Codec.{
  Bytes, Config, Record, Journal, journal_crc, commit_crc, get_le, zero_record,
}
use ant_chain_trust_sdk.Kv.Disk.{
  kv_err, fail, done, Io, ◌>>=◌, ◌>>◌, throw, storage_read, storage_sync, storage_get_capacity,
  write_journal, clear_journal, region_size,
}
use ant_chain_trust_sdk.Kv.Recover.{
  header_magic, journal_magic, journal_commit_magic, prepared, committed, op_format, region_is_zero,
  complete_format, recover,
}

abbrev pub chunk_size : ℕ
chunk_size = 256

-- The loop of `kv_storage_is_zero`; a chunk has a byte at least, so `len` rounds are enough. A read
-- that fails gives `false`.
unfoldable pub zero_from : ℕ → ℕ → ℕ → Io Bool
zero_from zero offset len d = (done true, d)
zero_from (suc fuel) offset len d = elim (ltb offset len) [
  | false ↦ (done true, d)
  | true ↦
      let n = if ltb chunk_size (len - offset) then chunk_size else len - offset in
      let (o, d') = storage_read offset n d in
      elim o [
        | fail _ ↦ (done false, d')
        | done input ↦ elim (region_is_zero input) [
          | false ↦ (done false, d')
          | true ↦ zero_from fuel (offset + n) len d'
        ]
      ]
]

-- `kv_storage_is_zero`
unfoldable pub storage_is_zero : ℕ → Io Bool
storage_is_zero len = zero_from len 0 len

-- The changes of a journal that has been carried out.
unfoldable pub commit : Journal → Journal
commit j =
    let j1 : Journal = record j {
      state = committed;
      commit_magic = journal_commit_magic;
      commit_generation = j.generation;
    } in
    let j2 : Journal = record j1 { commit_crc32 = commit_crc j1 } in
    record j2 { crc32 = journal_crc j2 }

module _ (cfg : Config) where
  -- A journal as it is prepared, its checksum last.
  unfoldable pub prepare : ℕ → ℕ → ℕ → ℕ → ℕ → Record → Journal
  prepare operation generation base index count r =
      let j : Journal = record {
        magic = journal_magic;
        version = 1;
        state = prepared;
        operation = operation;
        generation = generation;
        base_generation = base;
        record_index = index;
        record_count = count;
        crc32 = 0;
        entry = r;
        commit_magic = 0;
        commit_generation = 0;
        commit_crc32 = 0;
      } in
      record j { crc32 = journal_crc j }

  abbrev pub format_journal : Journal
  format_journal = prepare op_format 1 0 0 0 (zero_record cfg)

  -- The end of `kv_prepare_storage`: a new store.
  unfoldable pub format_storage : Io (Unit {0})
  format_storage = do
    write_journal cfg 0 format_journal
    storage_sync
    complete_format cfg format_journal
    write_journal cfg 0 (commit format_journal)
    storage_sync
    clear_journal cfg 0

  -- A region whose first bytes are zero: recovered, or formatted if it holds nothing at all.
  unfoldable pub recover_or_format : Io (Unit {0})
  recover_or_format d =
      let (o, d') = recover cfg d in
      elim o [
        | done _ ↦ (done tt, d')
        | fail e ↦
            if not (err_code e == no_resource)
            then (fail e, d')
            else (storage_is_zero (region_size cfg) >>= λ blank.
                  if blank then format_storage else throw (kv_err io))
                d'
      ]

  -- What the first twelve bytes of a region decide.
  unfoldable pub by_prefix : Bytes → Io (Unit {0})
  by_prefix prefix =
      let magic = get_le 4 prefix in
      let version = get_le 2 (drop 4 prefix) in
      if magic == header_magic && version == 1
      then throw (kv_err unsupported)
      else if magic == header_magic && version == 2
      then recover cfg
      else if not (region_is_zero prefix)
      then throw (kv_err io)
      else recover_or_format

  -- `kv_prepare_storage`
  unfoldable pub prepare_storage : Io (Unit {0})
  prepare_storage = do
    capacity ← storage_get_capacity
    if ltb capacity (region_size cfg)
        then throw (kv_err unsupported)
        else do prefix ← storage_read 0 12; by_prefix prefix
