-- ===== src/Kv/Disk.antt =====
-- The storage under the key-value store, and the functions of kv.c that read and write its parts.
-- A region is a function from offsets to bytes.
use ant_chain_trust_sdk.Prelude.{
  ℕ, zero, suc, ◌+◌, ◌-◌, ◌*◌, ◌/◌, ◌&&◌, List, [], ◌∷◌, length, get_or, take, replicate, ltb, leb,
  if◌then◌else◌,
}
pub use ant_chain_trust_sdk.Errno.{Outcome, fail, done}
use ant_chain_trust_sdk.Errno.{Err, actrust_ok, err_make, module_components_kv, is_ok}
use ant_chain_trust_sdk.Kv.Codec.{
  Bytes, Config, Record, Superblock, Journal, record_wire_size, journal_wire_size, encode_record,
  decode_record, encode_superblock, decode_superblock, encode_journal, decode_journal,
}

-- `KV_ERR`
unfoldable pub kv_err : ℕ → Err
kv_err reason = err_make module_components_kv reason

-- What a call of the storage adapter returns, and how many bytes it stored where it failed.
pub record Reply : Type 0 where
  pub code : Err
  pub stored : ℕ

-- The region, its size, and the replies to the calls to come; behind the last all succeed.
pub record Disk : Type 0 where
  pub bytes : ℕ → ℕ
  pub capacity : ℕ
  pub replies : List Reply

-- A function on a storage fails with a code or gives a value, and leaves a storage.
abbrev pub Io : Type 0 → Type 0
Io A = Disk → Outcome A × Disk

infixl 5 ◌>>=◌ ◌>>◌
abbrev pub ◌>>=◌ : {A B : Type 0} → Io A → (A → Io B) → Io B
◌>>=◌ m f d = let (o, d') = m d in elim o [ fail e ↦ (fail e, d') | done a ↦ f a d' ]

abbrev pub ◌>>◌ : {B : Type 0} → Io (Unit {0}) → Io B → Io B
m >> k = m >>= λ _. k

abbrev pub give : {A : Type 0} → A → Io A
give a d = (done a, d)

abbrev pub throw : {A : Type 0} → Err → Io A
throw e d = (fail e, d)

abbrev pub reply_of : List Reply → Reply
reply_of [] = record { code = actrust_ok; stored = 0 }
reply_of (r ∷ rs) = r

abbrev pub later : List Reply → List Reply
later [] = []
later (r ∷ rs) = rs

abbrev pub answered : Disk → Disk
answered d = record d { replies = later d.replies }

-- The bytes of a region from an offset on.
unfoldable pub bytes_at : (ℕ → ℕ) → ℕ → ℕ → Bytes
bytes_at region offset zero = []
bytes_at region offset (suc n) = region offset ∷ bytes_at region (offset + 1) n

-- A region with bytes put over it.
unfoldable pub overlay : (ℕ → ℕ) → ℕ → Bytes → ℕ → ℕ
overlay region offset new i =
    if leb offset i && ltb (i - offset) (length new) then get_or new (i - offset) 0 else region i

-- `actrust_storage_read`
unfoldable pub storage_read : ℕ → ℕ → Io Bytes
storage_read offset len d =
    if is_ok (reply_of d.replies).code
    then (done (bytes_at d.bytes offset len), answered d)
    else (fail (reply_of d.replies).code, answered d)

-- `actrust_storage_write`: the bytes go out in order, so a call that fails has stored some first of
-- them.
unfoldable pub storage_write : ℕ → Bytes → Io (Unit {0})
storage_write offset new d =
    let r = reply_of d.replies in
    if is_ok r.code
    then (done tt, record (answered d) { bytes = overlay d.bytes offset new })
    else (fail r.code, record (answered d) { bytes = overlay d.bytes offset (take r.stored new) })

-- `actrust_storage_erase`
unfoldable pub storage_erase : ℕ → ℕ → Io (Unit {0})
storage_erase offset len = storage_write offset (replicate len 0)

-- `actrust_storage_sync`
unfoldable pub storage_sync : Io (Unit {0})
storage_sync d =
    if is_ok (reply_of d.replies).code
    then (done tt, answered d)
    else (fail (reply_of d.replies).code, answered d)

-- `actrust_storage_get_capacity`
unfoldable pub storage_get_capacity : Io ℕ
storage_get_capacity d =
    if is_ok (reply_of d.replies).code
    then (done d.capacity, answered d)
    else (fail (reply_of d.replies).code, answered d)

-- KV_SUPERBLOCK_SIZE and KV_DATA_OFFSET
abbrev pub superblock_size : ℕ
superblock_size = 64

abbrev pub data_offset : ℕ
data_offset = 128

unfoldable pub read_superblock : ℕ → Io Superblock
read_superblock index = do
  input ← storage_read (index * superblock_size) superblock_size
  give (decode_superblock input)

unfoldable pub write_superblock : ℕ → Superblock → Io (Unit {0})
write_superblock index sb = storage_write (index * superblock_size) (encode_superblock sb)

module _ (cfg : Config) where
  -- KV_RECORD_SIZE, KV_JOURNAL_OFFSET and KV_REGION_SIZE: a record is padded to a multiple of 4. The
  -- sizes and offsets are uint32_t in the code. They do not wrap here: a build's constants are taken
  -- to make a region smaller than 2 ^ 32 bytes.
  abbrev pub record_size : ℕ
  record_size = (record_wire_size cfg + 3) / 4 * 4

  abbrev pub journal_offset_0 : ℕ
  journal_offset_0 = data_offset + record_size * cfg.max_records

  abbrev pub region_size : ℕ
  region_size = journal_offset_0 + journal_wire_size cfg * 2

  -- `kv_record_offset` and `kv_journal_offset`
  abbrev pub record_offset : ℕ → ℕ
  record_offset index = data_offset + record_size * index

  abbrev pub journal_offset : ℕ → ℕ
  journal_offset index = journal_offset_0 + journal_wire_size cfg * index

  unfoldable pub read_record : ℕ → Io Record
  read_record index = do
    input ← storage_read (record_offset index) (record_wire_size cfg)
    give (decode_record cfg input)

  unfoldable pub write_record : ℕ → Record → Io (Unit {0})
  write_record index r = storage_write (record_offset index) (encode_record r)

  unfoldable pub read_journal : ℕ → Io Journal
  read_journal index = do
    input ← storage_read (journal_offset index) (journal_wire_size cfg)
    give (decode_journal cfg input)

  unfoldable pub write_journal : ℕ → Journal → Io (Unit {0})
  write_journal index j = storage_write (journal_offset index) (encode_journal j)

  unfoldable pub clear_journal : ℕ → Io (Unit {0})
  clear_journal index = storage_erase (journal_offset index) (journal_wire_size cfg)
