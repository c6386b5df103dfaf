-- ===== src/Kv/Tests.antt =====
-- Runs of kv.c on a small region, and its theorems at concrete inputs.
use ant_chain_trust_sdk.Prelude.{
  ◌≢◌, false, ap, get_or, ℕ, zero, suc, ◌<◌, ◌≡◌, ◌⊎◌, refl, inl, inr, arith, true, some, [], ◌∷◌,
  ◌++◌,
}
use ant_chain_trust_sdk.Errno.{Err, actrust_ok, no_resource, err_code, err_make}
use ant_chain_trust_sdk.Kv.Codec
use ant_chain_trust_sdk.Kv.Codec.{
  Bytes, Config, Record, Superblock, Journal, crc32_of, crc_update, crc_bits, decode_record,
  encode_record, decode_superblock, encode_superblock, decode_journal, encode_journal,
}
use ant_chain_trust_sdk.Kv.Disk
use ant_chain_trust_sdk.Kv.Disk.{Disk, Outcome, fail, done, kv_err}
use ant_chain_trust_sdk.Kv.Prepare
use ant_chain_trust_sdk.Kv.Prepare.{prepare_storage}
use ant_chain_trust_sdk.Kv.Region.{Region, record_at}
use ant_chain_trust_sdk.Kv.Recover
use ant_chain_trust_sdk.Kv.Recover.{make_superblock, record_is_valid, header_magic, journal_magic}
use ant_chain_trust_sdk.Kv.RoundTrip.{
  decode_record-encode_record, decode_superblock-encode_superblock, decode_journal-encode_journal,
}
use ant_chain_trust_sdk.Kv.Sound
use ant_chain_trust_sdk.Kv.Sound.{Sound, Recovers, recover-Sound}
use ant_chain_trust_sdk.Kv.Crash.{transaction-Recovers, f5, sound5}
use ant_chain_trust_sdk.Kv.Delete.{Single, kv_del-kv_exists}
use ant_chain_trust_sdk.Kv.Change
use ant_chain_trust_sdk.Kv.Change.{Change, replaced}
use ant_chain_trust_sdk.Kv.Selected.{disk}
use ant_chain_trust_sdk.Kv.Lookup.{Absent, Full}
use ant_chain_trust_sdk.Kv.SetGet.{kv_set-kv_get}
use ant_chain_trust_sdk.Kv.Others.{kv_set-kv_get_other}
use ant_chain_trust_sdk.Kv.Store
use ant_chain_trust_sdk.Kv.Store.{make_record, transaction, Got, kv_set, kv_get, kv_del, kv_exists}

-- The check value of the checksum, for the digits from 1 to 9.
crc_check :
    crc32_of (b'1' ∷ b'2' ∷ b'3' ∷ b'4' ∷ b'5' ∷ b'6' ∷ b'7' ∷ b'8' ∷ b'9' ∷ []) ≡ 0xcbf43926
unfolding crc32_of crc_update crc_bits
crc_check = refl

abbrev small : Config
small = record { max_value = 4; max_records = 2 }

abbrev blank : Disk
blank = record { bytes = λ i. 0; capacity = 4096; replies = [] }

abbrev formatted : Disk
formatted = (prepare_storage small blank).1

abbrev with_key : Disk
with_key = (kv_set small actrust_ok actrust_ok (some (b'k' ∷ [])) (some (7 ∷ 9 ∷ [])) 2 formatted).1

abbrev start : Region
start = formatted.bytes

abbrev now0 : Superblock
now0 = make_superblock 1 0

abbrev entry : Record
entry = make_record small (b'k' ∷ []) (7 ∷ 9 ∷ [])

start-Sound : Sound small start (record_at small start) now0 0
unfolding Codec.put_le Codec.get_le Codec.crc_bits Codec.crc_update Codec.crc32_of Codec.record_head
    Codec.encode_record Codec.record_crc Codec.superblock_front Codec.superblock_crc
    Codec.encode_superblock Codec.decode_superblock Codec.journal_head Codec.journal_crc
    Codec.commit_crc Codec.commit_bytes Codec.encode_journal Codec.decode_record
    Codec.decode_journal Disk.kv_err Disk.bytes_at Disk.overlay Disk.storage_read Disk.storage_write
    Disk.storage_erase Disk.storage_sync Disk.storage_get_capacity Disk.read_superblock
    Disk.write_superblock Disk.read_record Disk.write_record Disk.read_journal Disk.write_journal
    Disk.clear_journal Recover.region_is_zero Recover.journal_is_zero Recover.make_superblock
    Recover.newer_superblock Recover.newer_journal Recover.record_is_valid
    Recover.superblock_is_valid Recover.journal_is_valid Recover.select_superblock
    Recover.validate_from Recover.validate_records Recover.complete_format Recover.load_journal
    Recover.checked_journal Recover.recover_format Recover.redo Recover.recover_changes
    Recover.recover_with Recover.recover Prepare.zero_from Prepare.storage_is_zero Prepare.commit
    Prepare.prepare Prepare.format_storage Prepare.recover_or_format Prepare.by_prefix
    Prepare.prepare_storage Sound.in_use Change.replaced Store.make_record err_code err_make
start-Sound = record {
  current = record {
    low = omega arith;
    here = refl;
    valid = refl;
    older = inr (inr (refl, omega arith));
  };
  quiet0 = inl refl;
  quiet1 = inl refl;
  content = λ i l. refl;
  valid = start-valid;
  counted = refl;
}
  where
    start-valid : (i : ℕ) → i < 2 → record_is_valid small (record_at small start i) ≡ true
    start-valid zero h = refl
    start-valid (suc zero) h = refl
    start-valid (suc (suc i)) h = absurd (omega arith)

entry-Change : Change small (record_at small start) now0 1 0 1 entry
unfolding Codec.put_le Codec.get_le Codec.crc_bits Codec.crc_update Codec.crc32_of Codec.record_head
    Codec.encode_record Codec.record_crc Codec.superblock_front Codec.superblock_crc
    Codec.encode_superblock Codec.decode_superblock Codec.journal_head Codec.journal_crc
    Codec.commit_crc Codec.commit_bytes Codec.encode_journal Codec.decode_record
    Codec.decode_journal Disk.kv_err Disk.bytes_at Disk.overlay Disk.storage_read Disk.storage_write
    Disk.storage_erase Disk.storage_sync Disk.storage_get_capacity Disk.read_superblock
    Disk.write_superblock Disk.read_record Disk.write_record Disk.read_journal Disk.write_journal
    Disk.clear_journal Recover.region_is_zero Recover.journal_is_zero Recover.make_superblock
    Recover.newer_superblock Recover.newer_journal Recover.record_is_valid
    Recover.superblock_is_valid Recover.journal_is_valid Recover.select_superblock
    Recover.validate_from Recover.validate_records Recover.complete_format Recover.load_journal
    Recover.checked_journal Recover.recover_format Recover.redo Recover.recover_changes
    Recover.recover_with Recover.recover Prepare.zero_from Prepare.storage_is_zero Prepare.commit
    Prepare.prepare Prepare.format_storage Prepare.recover_or_format Prepare.by_prefix
    Prepare.prepare_storage Sound.in_use Change.replaced Store.make_record err_code err_make
entry-Change = record {
  operation = inl refl;
  small = omega arith;
  top = omega arith;
  place = omega arith;
  few = omega arith;
  fits = record {
    used = omega arith;
    key_len = omega arith;
    reserved = omega arith;
    crc32 = omega arith;
    value_len = omega arith;
    key = refl;
    value = refl;
  };
  good = refl;
  counted = refl;
}

-- The third call, which writes the record, fails, and so do all that could follow it.
abbrev failing : Disk
failing = record {
  bytes = start;
  capacity = 4096;
  replies =
      record { code = 0; stored = 0 }
      ∷ record { code = 0; stored = 0 }
      ∷ record { code = 0x40020023; stored = 0 }
      ∷ [];
}

transaction-Recovers_example :
    let old = record_at small start in
    let next = make_superblock 2 1 in
    let (o, d') = transaction small now0 0 1 0 1 entry failing in
    (o ≡ done tt) × Sound small d'.bytes (replaced old 0 entry) next 1
    ⊎ ((e : Err) × (o ≡ fail e)
        × (Recovers small d'.bytes 4096 old now0 0
            ⊎ Recovers small d'.bytes 4096 (replaced old 0 entry) next 1))
unfolding Recover.make_superblock
transaction-Recovers_example =
    transaction-Recovers small (record_at small start) now0 0 1 0 1 entry failing entry-Change
      start-Sound (refl, (refl, (refl, tt)))

kv_set-kv_get_example :
    let (o, d) =
      kv_set small actrust_ok actrust_ok
        (some (b'k' ∷ []))
        (some (7 ∷ 9 ∷ []))
        2
        (disk start 4096) in
    (o ≡ fail (kv_err no_resource))
      × Absent (record_at small start) (b'k' ∷ []) 0 2
      × Full (record_at small start) 0 2
    ⊎ (o ≡ done tt)
      × ((kv_get small actrust_ok actrust_ok (some (b'k' ∷ [])) true 10 true d).0
          ≡ record { code = actrust_ok; out_len = some 2; out_value = some (7 ∷ 9 ∷ []) })
unfolding Recover.make_superblock
kv_set-kv_get_example =
    kv_set-kv_get small (b'k' ∷ []) (7 ∷ 9 ∷ []) start 4096 (record_at small start) now0 0 10
      (omega arith) (omega arith) (omega arith) (omega arith) (omega arith) (omega arith)
      (omega arith) start-Sound

different : false ≢ true
different h = ground arith

other_key : ◌≢◌ {A = Bytes} (b'k' ∷ []) (b'j' ∷ [])
other_key e = let h : ◌≡◌ {A = ℕ} 0x6b 0x6a = ap (λ s. get_or s 0 0) e in omega arith

kv_set-kv_get_other_example :
    let d =
      (kv_set small actrust_ok actrust_ok
        (some (b'k' ∷ []))
        (some (7 ∷ 9 ∷ []))
        2
        (disk start 4096)).1 in
    (kv_get small actrust_ok actrust_ok (some (b'j' ∷ [])) true 10 true d).0
    ≡ (kv_get small actrust_ok actrust_ok (some (b'j' ∷ [])) true 10 true (disk start 4096)).0
unfolding Recover.make_superblock
kv_set-kv_get_other_example =
    kv_set-kv_get_other small (b'k' ∷ []) (b'j' ∷ []) (7 ∷ 9 ∷ []) start 4096
      (record_at small start) now0 0 10 other_key (omega arith) (omega arith) (omega arith)
      (omega arith) (omega arith) (omega arith) (omega arith) (omega arith) start-Sound

abbrev with_entry : Region
with_entry =
    f5 small (record_at small start) now0 0 1 0 1 entry entry-Change 4096 start-Sound.valid start
      start-Sound

second_free : (record_at small start 1).used ≡ 0
unfolding Codec.put_le Codec.get_le Codec.crc_bits Codec.crc_update Codec.crc32_of Codec.record_head
    Codec.encode_record Codec.record_crc Codec.superblock_front Codec.superblock_crc
    Codec.encode_superblock Codec.decode_superblock Codec.journal_head Codec.journal_crc
    Codec.commit_crc Codec.commit_bytes Codec.encode_journal Codec.decode_record
    Codec.decode_journal Disk.kv_err Disk.bytes_at Disk.overlay Disk.storage_read Disk.storage_write
    Disk.storage_erase Disk.storage_sync Disk.storage_get_capacity Disk.read_superblock
    Disk.write_superblock Disk.read_record Disk.write_record Disk.read_journal Disk.write_journal
    Disk.clear_journal Recover.region_is_zero Recover.journal_is_zero Recover.make_superblock
    Recover.newer_superblock Recover.newer_journal Recover.record_is_valid
    Recover.superblock_is_valid Recover.journal_is_valid Recover.select_superblock
    Recover.validate_from Recover.validate_records Recover.complete_format Recover.load_journal
    Recover.checked_journal Recover.recover_format Recover.redo Recover.recover_changes
    Recover.recover_with Recover.recover Prepare.zero_from Prepare.storage_is_zero Prepare.commit
    Prepare.prepare Prepare.format_storage Prepare.recover_or_format Prepare.by_prefix
    Prepare.prepare_storage Sound.in_use Change.replaced Store.make_record err_code err_make
second_free = refl

with_entry-Single : Single (replaced (record_at small start) 0 entry) (b'k' ∷ []) 2
unfolding replaced
with_entry-Single zero zero l m p q = refl
with_entry-Single zero (suc zero) l m p q = absurd (different (rw second_free at q))
with_entry-Single (suc zero) zero l m p q = absurd (different (rw second_free at p))
with_entry-Single (suc zero) (suc zero) l m p q = refl
with_entry-Single (suc (suc i)) j l m p q = absurd (omega arith)
with_entry-Single zero (suc (suc j)) l m p q = absurd (omega arith)
with_entry-Single (suc zero) (suc (suc j)) l m p q = absurd (omega arith)

kv_del-kv_exists_example :
    let (o, d) = kv_del small actrust_ok actrust_ok (some (b'k' ∷ [])) (disk with_entry 4096) in
    (o ≡ fail (kv_err no_resource))
      × Absent (replaced (record_at small start) 0 entry) (b'k' ∷ []) 0 2
    ⊎ (o ≡ done tt)
      × ((kv_exists small actrust_ok actrust_ok (some (b'k' ∷ [])) true d).0 ≡ done false)
unfolding Recover.make_superblock
kv_del-kv_exists_example =
    kv_del-kv_exists small (b'k' ∷ []) with_entry 4096 (replaced (record_at small start) 0 entry) _
      _ (omega arith) (omega arith) (omega arith) (omega arith)
      (sound5 small (record_at small start) now0 0 1 0 1 entry entry-Change 4096 start-Sound.valid
        start start-Sound)
      with_entry-Single

recover-Sound_example : Recovers small start 4096 (record_at small start) now0 0
recover-Sound_example = recover-Sound small start 4096 (record_at small start) now0 0 start-Sound

decode_record-encode_record_example : decode_record small (encode_record entry ++ (5 ∷ [])) ≡ entry
decode_record-encode_record_example =
    decode_record-encode_record small entry (5 ∷ []) entry-Change.fits

abbrev some_superblock : Superblock
some_superblock = record {
  magic = header_magic;
  version = 2;
  layout = 1;
  generation = 0x1_0000_0001;
  record_count = 3;
  crc32 = 0xdeadbeef;
}

decode_superblock-encode_superblock_example :
    decode_superblock (encode_superblock some_superblock ++ (5 ∷ [])) ≡ some_superblock
decode_superblock-encode_superblock_example =
    decode_superblock-encode_superblock some_superblock (5 ∷ []) (record {
      magic = omega arith;
      version = omega arith;
      layout = omega arith;
      generation = omega arith;
      record_count = omega arith;
      crc32 = omega arith;
    })

abbrev some_journal : Journal
some_journal = record {
  magic = journal_magic;
  version = 1;
  state = 1;
  operation = 1;
  generation = 2;
  base_generation = 1;
  record_index = 0;
  record_count = 1;
  crc32 = 7;
  entry = entry;
  commit_magic = 0;
  commit_generation = 0;
  commit_crc32 = 0;
}

decode_journal-encode_journal_example :
    decode_journal small (encode_journal some_journal) ≡ some_journal
decode_journal-encode_journal_example = decode_journal-encode_journal small some_journal (record {
  magic = omega arith;
  version = omega arith;
  state = omega arith;
  operation = omega arith;
  generation = omega arith;
  base_generation = omega arith;
  record_index = omega arith;
  record_count = omega arith;
  crc32 = omega arith;
  entry = entry-Change.fits;
  commit_magic = omega arith;
  commit_generation = omega arith;
  commit_crc32 = omega arith;
})
