-- ===== src/Kv/Delete.antt =====
-- `actrust_kv_del` and `actrust_kv_exists`, with a storage whose calls succeed.
use native.Mathlib.Decide.{ℕ_discrete}
use ant_chain_trust_sdk.Prelude.{
  ◌≢◌, ℕ, ◌+◌, ◌-◌, ◌^◌, ◌<◌, ◌≤◌, ◌≡◌, ◌⊎◌, inl, inr, refl, ap, sym, ◌∙◌, Bool, true, false, some,
  length, ◌==◌, arith, if◌then◌else◌, not, length-replicate, Bool-cases,
}
use ant_chain_trust_sdk.Errno.{actrust_ok, no_resource}
use ant_chain_trust_sdk.Kv.Codec.{Bytes, Config, Record, Superblock, max_key, zero_record}
use ant_chain_trust_sdk.Kv.Disk.{Io, fail, done, kv_err, give, throw, ◌>>=◌}
use ant_chain_trust_sdk.Kv.Recover.{load_current, op_delete, record_is_valid}
use ant_chain_trust_sdk.Kv.Store.{
  Found, find_record, transaction, del_locked, exists_locked, kv_del, kv_exists, bad_key,
  under_lock, unlocked,
}
use ant_chain_trust_sdk.Kv.RoundTrip.{RecordFits}
use ant_chain_trust_sdk.Kv.Region.{Region}
use ant_chain_trust_sdk.Kv.Selected.{disk}
use ant_chain_trust_sdk.Kv.Sound.{Sound}
use ant_chain_trust_sdk.Kv.Runs.{>>=-done}
use ant_chain_trust_sdk.Kv.Crash.{sound5}
use ant_chain_trust_sdk.Kv.Change.{Change, replaced}
use ant_chain_trust_sdk.Kv.Lookup.{
  holds, find_in-count, find_in-LastOf, in_use-bound, in_use-cleared, replaced-here, replaced-there,
  Absent,
}
use ant_chain_trust_sdk.Kv.Steps.{
  holds-used, load_current-Sound, transaction-disk, found_in, find_record-Sound,
}

zero_record-fits : (cfg : Config) → RecordFits cfg (zero_record cfg)
zero_record-fits cfg = record {
  used = omega arith;
  key_len = omega arith;
  reserved = omega arith;
  crc32 = omega arith;
  value_len = omega arith;
  key = length-replicate {A = ℕ} max_key 0;
  value = length-replicate {A = ℕ} cfg.max_value 0;
}

zero_record-valid : (cfg : Config) → record_is_valid cfg (zero_record cfg) ≡ true
unfolding record_is_valid
zero_record-valid cfg = refl

-- At most one record is in use under the key.
abbrev pub Single : (ℕ → Record) → Bytes → ℕ → Type 0
Single recs key n =
    (i j : ℕ) → i < n → j < n → holds key (recs i) ≡ true → holds key (recs j) ≡ true → i ≡ j

module _ (cfg : Config) (size : ℕ) (key : Bytes) where
  -- On a region that holds records, whether a key exists is whether the search finds it.
  pub exists_locked-Sound :
      (f : Region) (recs : ℕ → Record) (now : Superblock) (c : ℕ)
      → Sound cfg f recs now c
      → (exists_locked cfg key (disk f size)).0
        ≡ done (not ((found_in cfg size recs key).index == cfg.max_records))
  unfolding exists_locked
  exists_locked-Sound f recs now c sound =
      let (g, loads, kept) = load_current-Sound cfg size f recs now c sound in
      let whole : exists_locked cfg key (disk f size)
          ≡ (done (not ((found_in cfg size recs key).index == cfg.max_records)), disk g size) =
        >>=-done (load_current cfg) (λ _. find_record cfg key >>= answer) (disk f size)
          (disk g size) (now, c) loads
        ∙ >>=-done (find_record cfg key) answer (disk g size) (disk g size)
            (found_in cfg size recs key) (find_record-Sound cfg size g recs now c key kept) in
      rw whole refl
    where
      answer : Found → Io Bool
      answer x = give (not (x.index == cfg.max_records))

  -- A key that no record holds does not exist.
  pub absent_lem :
      (f : Region) (recs : ℕ → Record) (now : Superblock) (c : ℕ)
      → Sound cfg f recs now c
      → Absent recs key 0 cfg.max_records
      → (exists_locked cfg key (disk f size)).0 ≡ done false
  absent_lem f recs now c sound none =
      exists_locked-Sound f recs now c sound
      ∙ elim (find_in-LastOf recs 0 cfg.max_records key
          (record { index = cfg.max_records; count = 0 })) [
            | inl (e, a) ↦
                let new : ((found_in cfg size recs key).index == cfg.max_records) ≡ true =
                  ground (arith, e) in
                rw new refl
            | inr (l, m, h, a) ↦ absurd (differ (sym h ∙ none _ l (omega arith)))
          ]
    where
      differ : true ≢ false
      differ h = ground arith

  module _ (few : cfg.max_records < 2 ^ 32) (old : ℕ → Record) (now : Superblock) (c : ℕ)
      (top : now.generation + 1 < 2 ^ 64) where
    abbrev fd : Found
    fd = found_in cfg size old key

    abbrev located : Superblock → ℕ → Found → Io (Unit {0})
    located sb i f =
        if f.index == cfg.max_records
        then throw (kv_err no_resource)
        else transaction cfg sb i op_delete f.index (f.count - 1) (zero_record cfg)

    abbrev loaded : Superblock × ℕ → Io (Unit {0})
    loaded x = find_record cfg key >>= located x.0 x.1

    asked_for :
        fd.index < cfg.max_records
        → holds key (old fd.index) ≡ true
        → Change cfg old now op_delete fd.index (fd.count - 1) (zero_record cfg)
    asked_for l h =
        let n =
          find_in-count old 0 cfg.max_records key (record { index = cfg.max_records; count = 0 }) in
        let m =
          in_use-cleared old fd.index (zero_record cfg) refl (holds-used key (old fd.index) h) 0
            cfg.max_records 0 (omega arith) (omega arith) in
        record {
          operation = inr refl;
          small = few;
          top = top;
          place = l;
          few = omega (arith, n, m, in_use-bound old 0 cfg.max_records 0);
          fits = zero_record-fits cfg;
          good = zero_record-valid cfg;
          counted = omega (arith, n, m);
        }

    pub del_locked-Sound :
        (f : Region)
        → Sound cfg f old now c
        → Single old key cfg.max_records
        → let (o, d) = del_locked cfg key (disk f size) in
          (o ≡ fail (kv_err no_resource)) × Absent old key 0 cfg.max_records
          ⊎ (o ≡ done tt) × ((exists_locked cfg key d).0 ≡ done false)
    unfolding del_locked
    del_locked-Sound f sound single =
        let (g, loads, kept) = load_current-Sound cfg size f old now c sound in
        let start : del_locked cfg key (disk f size) ≡ located now c fd (disk g size) =
          >>=-done (load_current cfg) loaded (disk f size) (disk g size) (now, c) loads
          ∙ >>=-done (find_record cfg key) (located now c) (disk g size) (disk g size) fd
              (find_record-Sound cfg size g old now c key kept) in
        elim (find_in-LastOf old 0 cfg.max_records key
          (record { index = cfg.max_records; count = 0 })) [
            | inl (e, a) ↦
                let new : (fd.index == cfg.max_records) ≡ true = ground (arith, e) in
                inl (rw (start, new) refl, λ i p q. a i p (omega arith))
            | inr (l, m, h, a) ↦
                let known : (fd.index == cfg.max_records) ≡ false = ground arith in
                let place : fd.index < cfg.max_records = omega arith in
                let change = asked_for place h in
                let whole =
                  start
                  ∙ rw known (
                      transaction-disk cfg size old now c op_delete fd.index (fd.count - 1)
                        (zero_record cfg) g change kept) in
                inr (
                  rw whole refl,
                  rw whole (
                      absent_lem _ (replaced old fd.index (zero_record cfg)) _ _
                        (sound5 cfg old now c op_delete fd.index (fd.count - 1) (zero_record cfg)
                          change size kept.valid g kept)
                        (gone place h single)),
                )
          ]
      where
        gone :
            fd.index < cfg.max_records
            → holds key (old fd.index) ≡ true
            → Single old key cfg.max_records
            → Absent (replaced old fd.index (zero_record cfg)) key 0 cfg.max_records
        gone place h single i l m = elim (ℕ_discrete i fd.index) [
          | yes e ↦ rw (e, replaced-here old fd.index (zero_record cfg)) refl
          | no ne ↦ elim (Bool-cases (holds key (old i))) [
            | inl e ↦ absurd (ne (single i fd.index m place e h))
            | inr e ↦ rw (replaced-there old fd.index (zero_record cfg) i ne) e
          ]
        ]

-- On a region that holds records, at most one of them under the key, with a storage whose calls
-- succeed, a key that is deleted does not exist. The deletion fails only with NO_RESOURCE, where no
-- record holds the key.
pub kv_del-kv_exists :
    (cfg : Config) (key : Bytes) (f : Region) (size : ℕ) (old : ℕ → Record) (now : Superblock)
    (c : ℕ)
    → 0 < length key
    → length key ≤ max_key
    → cfg.max_records < 2 ^ 32
    → now.generation + 1 < 2 ^ 64
    → Sound cfg f old now c
    → Single old key cfg.max_records
    → let (o, d) = kv_del cfg actrust_ok actrust_ok (some key) (disk f size) in
      (o ≡ fail (kv_err no_resource)) × Absent old key 0 cfg.max_records
      ⊎ (o ≡ done tt) × ((kv_exists cfg actrust_ok actrust_ok (some key) true d).0 ≡ done false)
unfolding kv_del kv_exists under_lock unlocked
kv_del-kv_exists cfg key f size old now c some_key short_key few top sound single =
    let good_key : bad_key cfg key ≡ false = ground arith in
    rw good_key (elim (del_locked-Sound cfg size key few old now c top f sound single) [
      | inl (e, a) ↦ inl (ap (unlocked actrust_ok) e, a)
      | inr (e, x) ↦ inr (ap (unlocked actrust_ok) e, ap (unlocked actrust_ok) x)
    ])
