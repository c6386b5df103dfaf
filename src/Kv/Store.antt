-- ===== src/Kv/Store.antt =====
-- The operations of kv.c on keys. The caller's lock and unlock are arguments of an operation; a
-- handle that is not null stands for the namespace it was opened on.
use ant_chain_trust_sdk.Prelude.{
  ℕ, zero, suc, ◌+◌, ◌-◌, ◌%◌, ◌^◌, Bool, true, false, ◌&&◌, ◌||◌, not, Option, none, some, [], ◌∷◌,
  ◌++◌, length, take, replicate, ltb, ◌==◌, if◌then◌else◌,
}
use ant_chain_trust_sdk.Errno.{Err, is_ok, invalid_arg, io, no_resource, buf_too_small}
use ant_chain_trust_sdk.Kv.Codec.{
  Bytes, Config, Record, Superblock, max_key, record_crc, zero_record,
}
use ant_chain_trust_sdk.Kv.Disk.{
  kv_err, Disk, Outcome, fail, done, Io, ◌>>=◌, ◌>>◌, give, throw, storage_sync, read_record,
  write_record, write_superblock, write_journal, clear_journal,
}
use ant_chain_trust_sdk.Kv.Recover.{
  op_set, op_delete, op_format, record_is_valid, make_superblock, complete_format, load_current,
}
use ant_chain_trust_sdk.Kv.Prepare.{prepare, commit}

-- `memcmp` of the first bytes is 0.
unfoldable pub same_bytes : Bytes → Bytes → Bool
same_bytes [] [] = true
same_bytes (a ∷ s) (b ∷ t) = a == b && same_bytes s t
same_bytes _ _ = false

-- Bytes copied to the front of a zeroed array.
abbrev pub padded : ℕ → Bytes → Bytes
padded size s = s ++ replicate (size - length s) 0

-- What `kv_find_record` writes to its outputs. It returns NO_RESOURCE if `index` is the number of
-- records.
pub record Found : Type 0 where
  pub index : ℕ
  pub count : ℕ

-- A record holds the key.
unfoldable pub has_key : Bytes → Record → Bool
has_key key r = r.key_len == length key && same_bytes (take (length key) r.key) key

-- What `actrust_kv_get` leaves: its code, and what it has written to `*out_len` and `out_value`.
pub record Got : Type 0 where
  pub code : Err
  pub out_len : Option ℕ
  pub out_value : Option Bytes

-- `kv_unlock` at the end of an operation.
unfoldable pub unlocked : {A : Type 0} → Err → Outcome A → Outcome A
unlocked unlock (fail e) = fail e
unlocked unlock (done a) = if is_ok unlock then done a else fail unlock

-- `kv_lock`, the body, and `kv_unlock`
unfoldable pub under_lock : {A : Type 0} → Err → Err → Io A → Io A
under_lock lock unlock body d =
    if not (is_ok lock) then (fail lock, d) else let (o, d') = body d in (unlocked unlock o, d')

module _ (cfg : Config) where
  -- The loop of `kv_find_record`; the last record that holds the key counts.
  unfoldable pub find_from : ℕ → ℕ → Bytes → Found → Io Found
  find_from i zero key so_far d = (done so_far, d)
  find_from i (suc n) key so_far d =
      let (o, d') = read_record cfg i d in
      elim o [
        | fail _ ↦ (fail (kv_err io), d')
        | done r ↦ elim (record_is_valid cfg r) [
          | false ↦ (fail (kv_err io), d')
          | true ↦
              find_from (i + 1) n key
                (if not (r.used == 1) then so_far else record {
                  index = if has_key key r then i else so_far.index;
                  count = so_far.count + 1;
                })
                d'
        ]
      ]

  -- `kv_find_record`
  unfoldable pub find_record : Bytes → Io Found
  find_record key = find_from 0 cfg.max_records key (record { index = cfg.max_records; count = 0 })

  abbrev pub is_new : Found → Bool
  is_new f = f.index == cfg.max_records

  -- The loop of `kv_find_free_record`. A read that fails gives the number of records.
  unfoldable pub free_from : ℕ → ℕ → Io ℕ
  free_from i zero d = (done cfg.max_records, d)
  free_from i (suc n) d =
      let (o, d') = read_record cfg i d in
      elim o [
        | fail _ ↦ (done cfg.max_records, d')
        | done r ↦ elim (record_is_valid cfg r) [
          | false ↦ (done cfg.max_records, d')
          | true ↦ elim (r.used == 0) [ true ↦ (done i, d') | false ↦ free_from (i + 1) n d' ]
        ]
      ]

  -- `kv_find_free_record`
  unfoldable pub find_free_record : Io ℕ
  find_free_record = free_from 0 cfg.max_records

  -- `kv_transaction`. Its callers give a record, and an operation other than KV_OP_FORMAT.
  unfoldable pub transaction : Superblock → ℕ → ℕ → ℕ → ℕ → Record → Io (Unit {0})
  transaction current current_index operation index count r =
      let j =
        prepare cfg operation ((current.generation + 1) % 2 ^ 64) current.generation index count
          r in
      let slot = current.generation % 2 in
      do
        write_journal cfg slot j
        storage_sync
        if operation == op_format then complete_format cfg j else write_record cfg index r
        write_superblock ((current_index + 1) % 2) (make_superblock j.generation count)
        storage_sync
        write_journal cfg slot (commit j)
        storage_sync
        clear_journal cfg slot

  -- The record that `actrust_kv_set` stores.
  unfoldable pub make_record : Bytes → Bytes → Record
  make_record key value =
      let r : Record = record {
        used = 1;
        key_len = length key;
        reserved = 0;
        crc32 = 0;
        value_len = length value;
        key = padded max_key key;
        value = padded cfg.max_value value;
      } in
      record r { crc32 = record_crc r }

  -- The slot for a key: its own, or a free one.
  unfoldable pub slot_for : Found → Io ℕ
  slot_for f = if not (is_new f) then give f.index else do
    index ← find_free_record
    if index == cfg.max_records then throw (kv_err no_resource) else give index

  -- `actrust_kv_set` under its lock
  unfoldable pub set_locked : Bytes → Bytes → Io (Unit {0})
  set_locked key value = do
    (sb, sb_index) ← load_current cfg
    f ← find_record key
    index ← slot_for f
    transaction sb sb_index op_set index (if is_new f then f.count + 1 else f.count)
        (make_record key value)

  abbrev pub bad_key : Bytes → Bool
  bad_key key = length key == 0 || ltb max_key (length key)

  -- `actrust_kv_set`; a null pointer is `none`.
  unfoldable pub kv_set : Err → Err → Option Bytes → Option Bytes → ℕ → Io (Unit {0})
  kv_set lock unlock none value value_len = throw (kv_err invalid_arg)
  kv_set lock unlock (some key) none value_len =
      if bad_key key || ltb 0 value_len
      then throw (kv_err invalid_arg)
      else under_lock lock unlock (set_locked key [])
  kv_set lock unlock (some key) (some value) value_len =
      if bad_key key || ltb cfg.max_value value_len
      then throw (kv_err invalid_arg)
      else under_lock lock unlock (set_locked key (take value_len value))

  -- `actrust_kv_get` under its lock, up to the copy: the record of the key.
  unfoldable pub get_locked : Bytes → Io Record
  get_locked key = do
    current ← load_current cfg
    f ← find_record key
    if is_new f then throw (kv_err no_resource) else do
      r ← read_record cfg f.index
      if record_is_valid cfg r then give r else throw (kv_err io)

  -- The copy of a value to a buffer of `out_cap` bytes, and the unlock behind it.
  unfoldable pub copy_out : Err → ℕ → Outcome Record → Got
  copy_out unlock out_cap (fail e) = record { code = e; out_len = none; out_value = none }
  copy_out unlock out_cap (done r) =
      if ltb out_cap r.value_len
      then record { code = kv_err buf_too_small; out_len = some r.value_len; out_value = none }
      else record {
        code = unlock;
        out_len = some r.value_len;
        out_value = some (take r.value_len r.value);
      }

  -- `actrust_kv_get`; `has_out` and `has_len` say that its outputs are not null.
  unfoldable pub kv_get : Err → Err → Option Bytes → Bool → ℕ → Bool → Disk → Got × Disk
  kv_get lock unlock none has_out out_cap has_len d =
      (record { code = kv_err invalid_arg; out_len = none; out_value = none }, d)
  kv_get lock unlock (some key) has_out out_cap has_len d =
      if bad_key key || (not has_out && ltb 0 out_cap) || not has_len
      then (record { code = kv_err invalid_arg; out_len = none; out_value = none }, d)
      else if not (is_ok lock)
      then (record { code = lock; out_len = none; out_value = none }, d)
      else let (o, d') = get_locked key d in (copy_out unlock out_cap o, d')

  -- `actrust_kv_del` under its lock
  unfoldable pub del_locked : Bytes → Io (Unit {0})
  del_locked key = do
    (sb, sb_index) ← load_current cfg
    f ← find_record key
    if is_new f
        then throw (kv_err no_resource)
        else transaction sb sb_index op_delete f.index (f.count - 1) (zero_record cfg)

  -- `actrust_kv_del`
  unfoldable pub kv_del : Err → Err → Option Bytes → Io (Unit {0})
  kv_del lock unlock none = throw (kv_err invalid_arg)
  kv_del lock unlock (some key) =
      if bad_key key then throw (kv_err invalid_arg) else under_lock lock unlock (del_locked key)

  -- `actrust_kv_exists` under its lock
  unfoldable pub exists_locked : Bytes → Io Bool
  exists_locked key = do current ← load_current cfg; f ← find_record key; give (not (is_new f))

  -- `actrust_kv_exists`; `has_out` says that its output is not null. What it holds after a failed
  -- call is left out.
  unfoldable pub kv_exists : Err → Err → Option Bytes → Bool → Io Bool
  kv_exists lock unlock none has_out = throw (kv_err invalid_arg)
  kv_exists lock unlock (some key) has_out =
      if bad_key key || not has_out
      then throw (kv_err invalid_arg)
      else under_lock lock unlock (exists_locked key)
