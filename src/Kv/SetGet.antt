-- ===== src/Kv/SetGet.antt =====
-- What is set under a key is what is got from it.
use ant_chain_trust_sdk.Prelude.{
  ℕ, ◌+◌, ◌^◌, ◌<◌, ◌≤◌, ◌≡◌, ◌⊎◌, inl, inr, refl, ap, ◌∙◌, true, false, some, length, ◌==◌, ltb,
  arith, if◌then◌else◌,
}
use ant_chain_trust_sdk.Errno.{actrust_ok, no_resource, io}
use ant_chain_trust_sdk.Kv.Codec.{Bytes, Config, Record, Superblock, max_key}
use ant_chain_trust_sdk.Kv.Disk.{
  Disk, Io, fail, done, kv_err, give, throw, ◌>>=◌, read_record, storage_read,
}
use ant_chain_trust_sdk.Kv.Recover.{load_current, record_is_valid}
use ant_chain_trust_sdk.Kv.Store.{
  Found, find_record, make_record, get_locked, kv_set, kv_get, bad_key, under_lock, unlocked,
  copy_out,
}
use ant_chain_trust_sdk.Kv.Region.{Region, record_at}
use ant_chain_trust_sdk.Kv.Selected.{disk}
use ant_chain_trust_sdk.Kv.Sound.{Sound}
use ant_chain_trust_sdk.Kv.Runs.{>>=-done}
use ant_chain_trust_sdk.Kv.Lookup.{find_in-LastOf, LastOf-unique, Absent, Full}
use ant_chain_trust_sdk.Kv.Entry.{
  make_record-valid, make_record-holds, make_record-value, take-whole,
}
use ant_chain_trust_sdk.Kv.Steps.{load_current-Sound, found_in, find_record-Sound}
use ant_chain_trust_sdk.Kv.SetLocked.{Stored, set_locked-Sound}

module _ (cfg : Config) (size : ℕ) where
  -- Getting a key from a storage that holds it finds the record.
  get_locked-Stored :
      (old : ℕ → Record) (key value : Bytes)
      → 0 < length key
      → length key ≤ max_key
      → length value ≤ cfg.max_value
      → cfg.max_value < 2 ^ 32
      → (d : Disk) → Stored cfg size old key value d
      → (get_locked cfg key d).0 ≡ done (make_record cfg key value)
  unfolding get_locked read_record storage_read
  get_locked-Stored old key value some_key short_key short_value small d st =
      let (g, loads, kept) = load_current-Sound cfg size st.region st.recs st.now st.c st.sound in
      let found : (found_in cfg size st.recs key).index ≡ st.k =
        LastOf-unique st.recs key 0 (0 + cfg.max_records) cfg.max_records _ st.k
          (find_in-LastOf st.recs 0 cfg.max_records key
            (record { index = cfg.max_records; count = 0 }))
          (omega arith) (omega (arith, st.place))
          (rw st.entry (make_record-holds cfg key value some_key short_key short_value small))
          (λ i p q. st.last i p (omega arith)) in
      let known : (st.k == cfg.max_records) ≡ false = ground (arith, st.place) in
      let read : record_at cfg g st.k ≡ make_record cfg key value =
        kept.content st.k st.place ∙ st.entry in
      let good : record_is_valid cfg (record_at cfg g st.k) ≡ true =
        ap (record_is_valid cfg) read
        ∙ make_record-valid cfg key value some_key short_key short_value small in
      let start : get_locked cfg key (disk st.region size)
          ≡ picked key (found_in cfg size st.recs key) (disk g size) =
        >>=-done (load_current cfg) (λ _. find_record cfg key >>= picked key) (disk st.region size)
          (disk g size) (st.now, st.c) loads
        ∙ >>=-done (find_record cfg key) (picked key) (disk g size) (disk g size)
            (found_in cfg size st.recs key)
            (find_record-Sound cfg size g st.recs st.now st.c key kept) in
      rw (st.same, start, found, known, good) (ap done read)
    where
      picked : Bytes → Found → Io Record
      picked key f =
          if f.index == cfg.max_records
          then throw (kv_err no_resource)
          else (read_record cfg f.index >>= λ r.
              if record_is_valid cfg r then give r else throw (kv_err io))

copied :
    (cfg : Config) (key value : Bytes) (out_cap : ℕ)
    → 0 < length key
    → length key ≤ max_key
    → length value ≤ cfg.max_value
    → cfg.max_value < 2 ^ 32
    → length value ≤ out_cap
    → copy_out cfg actrust_ok out_cap (done (make_record cfg key value))
      ≡ record { code = actrust_ok; out_len = some (length value); out_value = some value }
unfolding copy_out make_record
copied cfg key value out_cap some_key short_key short_value small room =
    let fits : ltb out_cap (length value) ≡ false = ground arith in
    let read = make_record-value cfg key value some_key short_key short_value small in
    rw (fits, read) refl

-- On a region that holds records, with a storage whose calls succeed, a value set under a key is got
-- back from it, into a buffer with room for it. The set fails only with NO_RESOURCE, where no record
-- holds the key and every slot is taken.
pub kv_set-kv_get :
    (cfg : Config) (key value : Bytes) (f : Region) (size : ℕ) (old : ℕ → Record) (now : Superblock)
    (c out_cap : ℕ)
    → 0 < length key
    → length key ≤ max_key
    → length value ≤ cfg.max_value
    → length value ≤ out_cap
    → cfg.max_value < 2 ^ 32
    → cfg.max_records < 2 ^ 32
    → now.generation + 1 < 2 ^ 64
    → Sound cfg f old now c
    → let (o, d) =
        kv_set cfg actrust_ok actrust_ok (some key) (some value) (length value) (disk f size) in
      (o ≡ fail (kv_err no_resource))
        × Absent old key 0 cfg.max_records
        × Full old 0 cfg.max_records
      ⊎ (o ≡ done tt)
        × ((kv_get cfg actrust_ok actrust_ok (some key) true out_cap true d).0
            ≡ record { code = actrust_ok; out_len = some (length value); out_value = some value })
unfolding kv_set kv_get under_lock unlocked
kv_set-kv_get cfg key value f size old now c out_cap some_key short_key short_value room small few
      top sound =
    let good_key : bad_key cfg key ≡ false = ground arith in
    let good_length : ltb cfg.max_value (length value) ≡ false = ground arith in
    rw (good_key, good_length, take-whole value)
      (elim (set_locked-Sound cfg size key value some_key short_key short_value small few old now c
        top f sound) [
          | inl (e, a, full, _) ↦ inl (ap (unlocked actrust_ok) e, a, full)
          | inr (e, st) ↦ inr (
            ap (unlocked actrust_ok) e,
            ap (copy_out cfg actrust_ok out_cap) (
                  get_locked-Stored cfg size old key value some_key short_key short_value small _
                    st)
                ∙ copied cfg key value out_cap some_key short_key short_value small room,
          )
        ])
