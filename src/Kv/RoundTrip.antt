-- ===== src/Kv/RoundTrip.antt =====
-- The stored structures are read back as they were written.
use ant_chain_trust_sdk.Prelude.{
  ℕ, ◌+◌, ◌^◌, ◌<◌, ◌≡◌, refl, ◌∙◌, [], ◌++◌, length, take, drop, arith, append_assoc,
  drop-append_add, take-append_add, append-nil, length-append,
}
use ant_chain_trust_sdk.Kv.Codec.{
  Bytes, Config, Record, Superblock, Journal, max_key, put_le, get_le, record_head, encode_record,
  decode_record, superblock_front, encode_superblock, decode_superblock, journal_head, commit_bytes,
  encode_journal, decode_journal, commit_offset, record_wire_size,
}
use ant_chain_trust_sdk.Kv.Words.{get_le-put_le}

-- The fields of a superblock fit their C types.
pub record SuperblockFits (sb : Superblock) : Type 0 where
  pub magic : sb.magic < 2 ^ 32
  pub version : sb.version < 2 ^ 16
  pub layout : sb.layout < 2 ^ 16
  pub generation : sb.generation < 2 ^ 64
  pub record_count : sb.record_count < 2 ^ 32
  pub crc32 : sb.crc32 < 2 ^ 32

-- A superblock whose fields fit their C types is read back as it was written.
pub decode_superblock-encode_superblock :
    (sb : Superblock) (rest : Bytes)
    → SuperblockFits sb
    → decode_superblock (encode_superblock sb ++ rest) ≡ sb
unfolding decode_superblock encode_superblock superblock_front put_le
decode_superblock-encode_superblock sb rest f =
    let e1 : get_le 4 (encode_superblock sb ++ rest) ≡ sb.magic =
      get_le-put_le 4 sb.magic _ f.magic in
    let e2 : get_le 2 (drop 4 (encode_superblock sb ++ rest)) ≡ sb.version =
      get_le-put_le 2 sb.version _ f.version in
    let e3 : get_le 2 (drop 6 (encode_superblock sb ++ rest)) ≡ sb.layout =
      get_le-put_le 2 sb.layout _ f.layout in
    let e4 : get_le 8 (drop 8 (encode_superblock sb ++ rest)) ≡ sb.generation =
      get_le-put_le 8 sb.generation _ f.generation in
    let e5 : get_le 4 (drop 16 (encode_superblock sb ++ rest)) ≡ sb.record_count =
      get_le-put_le 4 sb.record_count _ f.record_count in
    let e6 : get_le 4 (drop 20 (encode_superblock sb ++ rest)) ≡ sb.crc32 =
      get_le-put_le 4 sb.crc32 _ f.crc32 in
    rw (e1, e2, e3, e4, e5, e6) refl

-- The fields of a record fit their C types, and its arrays have their full length.
pub record RecordFits (cfg : Config) (r : Record) : Type 0 where
  pub used : r.used < 2 ^ 8
  pub key_len : r.key_len < 2 ^ 8
  pub reserved : r.reserved < 2 ^ 16
  pub crc32 : r.crc32 < 2 ^ 32
  pub value_len : r.value_len < 2 ^ 32
  pub key : length r.key ≡ max_key
  pub value : length r.value ≡ cfg.max_value

-- The same for a journal and the record in it.
pub record JournalFits (cfg : Config) (j : Journal) : Type 0 where
  pub magic : j.magic < 2 ^ 32
  pub version : j.version < 2 ^ 16
  pub state : j.state < 2 ^ 8
  pub operation : j.operation < 2 ^ 8
  pub generation : j.generation < 2 ^ 64
  pub base_generation : j.base_generation < 2 ^ 64
  pub record_index : j.record_index < 2 ^ 32
  pub record_count : j.record_count < 2 ^ 32
  pub crc32 : j.crc32 < 2 ^ 32
  pub entry : RecordFits cfg j.entry
  pub commit_magic : j.commit_magic < 2 ^ 32
  pub commit_generation : j.commit_generation < 2 ^ 64
  pub commit_crc32 : j.commit_crc32 < 2 ^ 32

module _ (cfg : Config) where
  key_part : (k v rest : Bytes) → length k ≡ max_key → take max_key ((k ++ v) ++ rest) ≡ k
  key_part k v rest h =
      rw (append_assoc k v rest)
        (take-append_add k (v ++ rest) 0 max_key (omega (arith, h)) ∙ append-nil k)

  value_part :
      (k v rest : Bytes)
      → length k ≡ max_key
      → length v ≡ cfg.max_value
      → take cfg.max_value (drop max_key ((k ++ v) ++ rest)) ≡ v
  value_part k v rest h l =
      rw (append_assoc k v rest, drop-append_add k (v ++ rest) 0 max_key (omega (arith, h)))
        (take-append_add v rest 0 cfg.max_value (omega (arith, l)) ∙ append-nil v)

  -- A record whose fields fit their C types is read back as it was written, whatever comes behind.
  pub decode_record-encode_record :
      (r : Record) (rest : Bytes)
      → RecordFits cfg r
      → decode_record cfg (encode_record r ++ rest) ≡ r
  unfolding decode_record encode_record record_head put_le
  decode_record-encode_record r rest f =
      let input = encode_record r ++ rest in
      let e1 : get_le 2 (drop 2 input) ≡ r.reserved = get_le-put_le 2 r.reserved _ f.reserved in
      let e2 : get_le 4 (drop 4 input) ≡ r.crc32 = get_le-put_le 4 r.crc32 _ f.crc32 in
      let e3 : get_le 4 (drop 8 input) ≡ r.value_len = get_le-put_le 4 r.value_len _ f.value_len in
      let e4 : take max_key (drop 12 input) ≡ r.key = key_part r.key r.value rest f.key in
      let e5 : take cfg.max_value (drop 44 input) ≡ r.value =
        value_part r.key r.value rest f.key f.value in
      rw (e1, e2, e3, e4, e5) refl

  pub length-encode_record :
      (r : Record) → RecordFits cfg r → length (encode_record r) ≡ record_wire_size cfg
  unfolding encode_record record_head put_le
  length-encode_record r f = omega (arith, length-append r.key r.value, f.key, f.value)

  behind_entry :
      (j : Journal) (k n : ℕ)
      → JournalFits cfg j
      → k ≡ commit_offset cfg + n
      → drop k (encode_journal j) ≡ drop n (commit_bytes j)
  unfolding encode_journal journal_head put_le
  behind_entry j k n f e =
      drop-append_add (journal_head j j.crc32) (encode_record j.entry ++ commit_bytes j)
        (record_wire_size cfg + n) k (omega (arith, e))
      ∙ drop-append_add (encode_record j.entry) (commit_bytes j) n (record_wire_size cfg + n)
          (omega (arith, length-encode_record j.entry f.entry))

  commit_magic_part :
      (j : Journal)
      → JournalFits cfg j
      → get_le 4 (drop (commit_offset cfg) (encode_journal j)) ≡ j.commit_magic
  unfolding commit_bytes
  commit_magic_part j f =
      rw (behind_entry j (commit_offset cfg) 0 f (omega arith))
        (get_le-put_le 4 j.commit_magic _ f.commit_magic)

  commit_generation_part :
      (j : Journal)
      → JournalFits cfg j
      → get_le 8 (drop (commit_offset cfg + 4) (encode_journal j)) ≡ j.commit_generation
  unfolding commit_bytes put_le
  commit_generation_part j f =
      rw (behind_entry j (commit_offset cfg + 4) 4 f refl)
        (get_le-put_le 8 j.commit_generation _ f.commit_generation)

  commit_crc32_part :
      (j : Journal)
      → JournalFits cfg j
      → get_le 4 (drop (commit_offset cfg + 12) (encode_journal j)) ≡ j.commit_crc32
  unfolding commit_bytes put_le
  commit_crc32_part j f =
      rw (behind_entry j (commit_offset cfg + 12) 12 f refl, ← append-nil (put_le 4 j.commit_crc32))
        (get_le-put_le 4 j.commit_crc32 [] f.commit_crc32)

  -- A journal whose fields fit their C types is read back as it was written.
  pub decode_journal-encode_journal :
      (j : Journal) → JournalFits cfg j → decode_journal cfg (encode_journal j) ≡ j
  unfolding decode_journal encode_journal journal_head put_le
  decode_journal-encode_journal j f =
      let input = encode_journal j in
      let e1 : get_le 4 input ≡ j.magic = get_le-put_le 4 j.magic _ f.magic in
      let e2 : get_le 2 (drop 4 input) ≡ j.version = get_le-put_le 2 j.version _ f.version in
      let e3 : get_le 8 (drop 8 input) ≡ j.generation =
        get_le-put_le 8 j.generation _ f.generation in
      let e4 : get_le 8 (drop 16 input) ≡ j.base_generation =
        get_le-put_le 8 j.base_generation _ f.base_generation in
      let e5 : get_le 4 (drop 24 input) ≡ j.record_index =
        get_le-put_le 4 j.record_index _ f.record_index in
      let e6 : get_le 4 (drop 28 input) ≡ j.record_count =
        get_le-put_le 4 j.record_count _ f.record_count in
      let e7 : get_le 4 (drop 32 input) ≡ j.crc32 = get_le-put_le 4 j.crc32 _ f.crc32 in
      let e8 : decode_record cfg (drop 36 input) ≡ j.entry =
        decode_record-encode_record j.entry (commit_bytes j) f.entry in
      rw (e1, e2, e3, e4, e5, e6, e7, e8)
        (rw (commit_magic_part j f, commit_generation_part j f, commit_crc32_part j f) refl)
