-- ===== src/Kv/Codec.antt =====
-- The bytes of kv.c: little-endian words, the checksum, and the three structures it stores.
use Prim.Native.Nat.{bit_xor}
use ant_chain_trust_sdk.Prelude.{
  ℕ, zero, suc, ◌+◌, ◌-◌, ◌*◌, ◌/◌, ◌%◌, ◌^◌, List, [], ◌∷◌, ◌++◌, get_or, take, drop, replicate,
  ◌==◌, if◌then◌else◌,
}

abbrev pub Bytes : Type 0
Bytes = List ℕ

-- CONFIG_ACTRUST_KV_MAX_VALUE_LEN and CONFIG_ACTRUST_KV_MAX_RECORDS. The length of a key is fixed.
pub record Config : Type 0 where
  pub max_value : ℕ
  pub max_records : ℕ

abbrev pub max_key : ℕ
max_key = 32

-- `kv_put_u16`, `kv_put_u32` and `kv_put_u64`: the lowest byte first.
unfoldable pub put_le : ℕ → ℕ → Bytes
put_le zero value = []
put_le (suc n) value = value % 256 ∷ put_le n (value / 256)

-- `kv_get_u16`, `kv_get_u32` and `kv_get_u64`. The bytes share no bit, so `|` is `+`.
unfoldable pub get_le : ℕ → Bytes → ℕ
get_le zero input = 0
get_le (suc n) input = get_or input 0 0 + get_le n (drop 1 input) * 256

abbrev pub crc_poly : ℕ
crc_poly = 0xedb88320

-- The inner loop of `kv_crc32_update`.
unfoldable pub crc_bits : ℕ → ℕ → ℕ
crc_bits zero crc = crc
crc_bits (suc n) crc = crc_bits n (if crc % 2 == 1 then bit_xor (crc / 2) crc_poly else crc / 2)

-- `kv_crc32_update`
unfoldable pub crc_update : ℕ → Bytes → ℕ
crc_update crc [] = crc
crc_update crc (byte ∷ data_rest) = crc_update (crc_bits 8 (bit_xor crc byte)) data_rest

-- `kv_crc32`; the complement of a 32-bit word is what it lacks of the largest one.
unfoldable pub crc32_of : Bytes → ℕ
crc32_of input = (2 ^ 32 - 1) - crc_update (2 ^ 32 - 1) input

-- `kv_record_t`, its head's fields and its value. The two arrays are lists of their full length.
pub record Record : Type 0 where
  pub used : ℕ
  pub key_len : ℕ
  pub reserved : ℕ
  pub crc32 : ℕ
  pub value_len : ℕ
  pub key : Bytes
  pub value : Bytes

-- `kv_superblock_t`; its reserved bytes are never set.
pub record Superblock : Type 0 where
  pub magic : ℕ
  pub version : ℕ
  pub layout : ℕ
  pub generation : ℕ
  pub record_count : ℕ
  pub crc32 : ℕ

-- `kv_journal_t`; `entry` is the field `record`.
pub record Journal : Type 0 where
  pub magic : ℕ
  pub version : ℕ
  pub state : ℕ
  pub operation : ℕ
  pub generation : ℕ
  pub base_generation : ℕ
  pub record_index : ℕ
  pub record_count : ℕ
  pub crc32 : ℕ
  pub entry : Record
  pub commit_magic : ℕ
  pub commit_generation : ℕ
  pub commit_crc32 : ℕ

-- The twelve bytes in front of the key.
unfoldable pub record_head : Record → ℕ → Bytes
record_head r crc =
    r.used ∷ r.key_len ∷ (put_le 2 r.reserved ++ (put_le 4 crc ++ put_le 4 r.value_len))

-- `kv_encode_record`
unfoldable pub encode_record : Record → Bytes
encode_record r = record_head r r.crc32 ++ (r.key ++ r.value)

-- `kv_record_crc`: over the head, with its checksum zeroed, and the bytes of the value in use.
unfoldable pub record_crc : Record → ℕ
record_crc r = crc32_of (take (44 + r.value_len) (record_head r 0 ++ (r.key ++ r.value)))

-- The twenty bytes that a superblock's checksum is over.
unfoldable pub superblock_front : Superblock → Bytes
superblock_front sb =
    put_le 4 sb.magic
    ++ (put_le 2 sb.version
        ++ (put_le 2 sb.layout ++ (put_le 8 sb.generation ++ put_le 4 sb.record_count)))

-- `kv_superblock_crc`
unfoldable pub superblock_crc : Superblock → ℕ
superblock_crc sb = crc32_of (superblock_front sb)

-- `kv_encode_superblock`, 64 bytes
unfoldable pub encode_superblock : Superblock → Bytes
encode_superblock sb = superblock_front sb ++ (put_le 4 sb.crc32 ++ replicate 40 0)

-- `kv_decode_superblock`
unfoldable pub decode_superblock : Bytes → Superblock
decode_superblock input = record {
  magic = get_le 4 input;
  version = get_le 2 (drop 4 input);
  layout = get_le 2 (drop 6 input);
  generation = get_le 8 (drop 8 input);
  record_count = get_le 4 (drop 16 input);
  crc32 = get_le 4 (drop 20 input);
}

-- The 36 bytes in front of a journal's record.
unfoldable pub journal_head : Journal → ℕ → Bytes
journal_head j crc =
    put_le 4 j.magic
    ++ (put_le 2 j.version
        ++ (j.state
            ∷ j.operation
            ∷ (put_le 8 j.generation
                ++ (put_le 8 j.base_generation
                    ++ (put_le 4 j.record_index ++ (put_le 4 j.record_count ++ put_le 4 crc))))))

-- `kv_journal_crc`: over the journal up to the commit fields, its checksum zeroed.
unfoldable pub journal_crc : Journal → ℕ
journal_crc j = crc32_of (journal_head j 0 ++ encode_record j.entry)

-- `kv_commit_crc`
unfoldable pub commit_crc : Journal → ℕ
commit_crc j = crc32_of (put_le 4 j.commit_magic ++ put_le 8 j.commit_generation)

-- The sixteen bytes behind a journal's record.
unfoldable pub commit_bytes : Journal → Bytes
commit_bytes j =
    put_le 4 j.commit_magic ++ (put_le 8 j.commit_generation ++ put_le 4 j.commit_crc32)

-- `kv_encode_journal`
unfoldable pub encode_journal : Journal → Bytes
encode_journal j = journal_head j j.crc32 ++ (encode_record j.entry ++ commit_bytes j)

module _ (cfg : Config) where
  -- `kv_record_wire_size`, KV_RECORD_HEAD_WIRE_SIZE being 44
  abbrev pub record_wire_size : ℕ
  record_wire_size = 44 + cfg.max_value

  -- `kv_decode_record`
  unfoldable pub decode_record : Bytes → Record
  decode_record input = record {
    used = get_or input 0 0;
    key_len = get_or input 1 0;
    reserved = get_le 2 (drop 2 input);
    crc32 = get_le 4 (drop 4 input);
    value_len = get_le 4 (drop 8 input);
    key = take max_key (drop 12 input);
    value = take cfg.max_value (drop 44 input);
  }

  -- `memset(&record, 0, sizeof(record))`
  abbrev pub zero_record : Record
  zero_record = record {
    used = 0;
    key_len = 0;
    reserved = 0;
    crc32 = 0;
    value_len = 0;
    key = replicate max_key 0;
    value = replicate cfg.max_value 0;
  }

  -- KV_JOURNAL_COMMIT_OFFSET and KV_JOURNAL_WIRE_SIZE
  abbrev pub commit_offset : ℕ
  commit_offset = 36 + record_wire_size

  abbrev pub journal_wire_size : ℕ
  journal_wire_size = commit_offset + 16

  -- `kv_decode_journal`
  unfoldable pub decode_journal : Bytes → Journal
  decode_journal input = record {
    magic = get_le 4 input;
    version = get_le 2 (drop 4 input);
    state = get_or input 6 0;
    operation = get_or input 7 0;
    generation = get_le 8 (drop 8 input);
    base_generation = get_le 8 (drop 16 input);
    record_index = get_le 4 (drop 24 input);
    record_count = get_le 4 (drop 28 input);
    crc32 = get_le 4 (drop 32 input);
    entry = decode_record (drop 36 input);
    commit_magic = get_le 4 (drop commit_offset input);
    commit_generation = get_le 8 (drop (commit_offset + 4) input);
    commit_crc32 = get_le 4 (drop (commit_offset + 12) input);
  }
