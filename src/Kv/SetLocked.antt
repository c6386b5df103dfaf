-- ===== src/Kv/SetLocked.antt =====
-- `actrust_kv_set` behind the lock, with a storage whose calls succeed.
use ant_chain_trust_sdk.Prelude.{
  ◌≢◌, ℕ, ◌+◌, ◌^◌, ◌<◌, ◌≤◌, ◌≡◌, ◌⊎◌, inl, inr, refl, ◌∙◌, true, false, length, ◌==◌, arith,
  if◌then◌else◌,
}
use ant_chain_trust_sdk.Errno.{no_resource}
use ant_chain_trust_sdk.Kv.Codec.{Bytes, Config, Record, Superblock, max_key}
use ant_chain_trust_sdk.Kv.Disk.{Disk, Io, fail, done, kv_err, give, throw, ◌>>=◌}
use ant_chain_trust_sdk.Kv.Recover.{load_current, op_set}
use ant_chain_trust_sdk.Kv.Store.{
  Found, find_record, find_free_record, slot_for, transaction, make_record, set_locked,
}
use ant_chain_trust_sdk.Kv.Region.{Region}
use ant_chain_trust_sdk.Kv.Selected.{disk}
use ant_chain_trust_sdk.Kv.Sound.{in_use, Sound}
use ant_chain_trust_sdk.Kv.Runs.{>>=-done, >>=-fail}
use ant_chain_trust_sdk.Kv.Crash.{f5, sound5}
use ant_chain_trust_sdk.Kv.Change.{Change, replaced}
use ant_chain_trust_sdk.Kv.Lookup.{
  holds, free_in, find_in-count, find_in-LastOf, free_in-cases, in_use-bound, in_use-replaced,
  replaced-here, replaced-there, Absent, Full, free_in-Full,
}
use ant_chain_trust_sdk.Kv.Entry.{make_record-fits, make_record-valid}
use ant_chain_trust_sdk.Kv.Steps.{
  holds-used, load_current-Sound, transaction-disk, found_in, find_record-Sound,
  find_free_record-Sound,
}

module _ (cfg : Config) (size : ℕ) where
  -- A storage that holds the value under the key, and no later record with the key. Its other records
  -- are those of `old`, where the record's slot held no record or one of the key.
  pub record Stored (old : ℕ → Record) (key value : Bytes) (d : Disk) : Type 0 where
    pub region : Region
    pub recs : ℕ → Record
    pub now : Superblock
    pub c : ℕ
    pub k : ℕ
    pub same : d ≡ disk region size
    pub sound : Sound cfg region recs now c
    pub place : k < cfg.max_records
    pub entry : recs k ≡ make_record cfg key value
    pub last : Absent recs key (k + 1) cfg.max_records
    pub kept : (i : ℕ) → i ≢ k → recs i ≡ old i
    pub before : (((old k).used == 1) ≡ false) ⊎ (holds key (old k) ≡ true)

  module _ (key value : Bytes) (some_key : 0 < length key) (short_key : length key ≤ max_key)
      (short_value : length value ≤ cfg.max_value) (small : cfg.max_value < 2 ^ 32)
      (few : cfg.max_records < 2 ^ 32) (old : ℕ → Record) (now : Superblock) (c : ℕ)
      (top : now.generation + 1 < 2 ^ 64) where
    abbrev r : Record
    r = make_record cfg key value

    abbrev fd : Found
    fd = found_in cfg size old key

    abbrev counted : ℕ
    counted = if fd.index == cfg.max_records then fd.count + 1 else fd.count

    abbrev slotted : Superblock → ℕ → Found → ℕ → Io (Unit {0})
    slotted sb i f k =
        transaction cfg sb i op_set k (if f.index == cfg.max_records then f.count + 1 else f.count)
          (make_record cfg key value)

    abbrev located : Superblock → ℕ → Found → Io (Unit {0})
    located sb i f = slot_for cfg f >>= slotted sb i f

    abbrev loaded : Superblock × ℕ → Io (Unit {0})
    loaded x = find_record cfg key >>= located x.0 x.1

    r-used : (r.used == 1) ≡ true
    unfolding make_record
    r-used = refl

    -- The count that is written is the number of records in use behind the change.
    counted-replaced :
        (k : ℕ)
        → k < cfg.max_records
        → ((fd.index == cfg.max_records) ≡ true) × (((old k).used == 1) ≡ false)
          ⊎ ((fd.index == cfg.max_records) ≡ false) × (((old k).used == 1) ≡ true)
        → in_use (replaced old k r) 0 cfg.max_records 0 ≡ counted
    counted-replaced k h (inl (new, off)) =
        let n =
          find_in-count old 0 cfg.max_records key (record { index = cfg.max_records; count = 0 }) in
        let m = in_use-replaced old k r r-used 0 cfg.max_records 0 (omega arith) (omega arith) in
        rw (new, n, m, off) refl
    counted-replaced k h (inr (known, on)) =
        let n =
          find_in-count old 0 cfg.max_records key (record { index = cfg.max_records; count = 0 }) in
        let m = in_use-replaced old k r r-used 0 cfg.max_records 0 (omega arith) (omega arith) in
        rw (known, n, m, on) (omega arith)

    asked_for :
        (k : ℕ)
        → k < cfg.max_records
        → in_use (replaced old k r) 0 cfg.max_records 0 ≡ counted
        → Change cfg old now op_set k counted r
    asked_for k h e = record {
      operation = inl refl;
      small = few;
      top = top;
      place = h;
      few = omega (arith, e, in_use-bound (replaced old k r) 0 cfg.max_records 0);
      fits = make_record-fits cfg key value some_key short_key short_value small;
      good = make_record-valid cfg key value some_key short_key short_value small;
      counted = e;
    }

    after_set :
        (g : Region) (k : ℕ) (sound : Sound cfg g old now c)
        (change : Change cfg old now op_set k counted r)
        → Absent old key (k + 1) cfg.max_records
        → (((old k).used == 1) ≡ false) ⊎ (holds key (old k) ≡ true)
        → Stored old key value
            (disk (f5 cfg old now c op_set k counted r change size sound.valid g sound) size)
    after_set g k sound change a b = record {
      region = f5 cfg old now c op_set k counted r change size sound.valid g sound;
      recs = replaced old k r;
      now = _;
      c = _;
      k = k;
      same = refl;
      sound = sound5 cfg old now c op_set k counted r change size sound.valid g sound;
      place = change.place;
      entry = replaced-here old k r;
      last = λ i l m. rw (replaced-there old k r i (omega arith)) (a i l m);
      kept = replaced-there old k r;
      before = b;
    }

    abbrev free : ℕ
    free = free_in old 0 cfg.max_records cfg.max_records

    slot_for-known :
        (d : Disk) → (fd.index == cfg.max_records) ≡ false → slot_for cfg fd d ≡ (done fd.index, d)
    unfolding slot_for
    slot_for-known d e = rw e refl

    abbrev or_throw : ℕ → Io ℕ
    or_throw k = if k == cfg.max_records then throw (kv_err no_resource) else give k

    slot_for-new :
        (g : Region)
        → Sound cfg g old now c
        → (fd.index == cfg.max_records) ≡ true
        → slot_for cfg fd (disk g size) ≡ or_throw free (disk g size)
    unfolding slot_for
    slot_for-new g sound e = rw e (
        >>=-done (find_free_record cfg) or_throw (disk g size) (disk g size) free
          (find_free_record-Sound cfg size g old now c sound))

    -- The change at a slot that the search has given.
    set_at :
        (f g : Region) (k : ℕ) (sound : Sound cfg g old now c)
        → set_locked cfg key value (disk f size) ≡ located now c fd (disk g size)
        → slot_for cfg fd (disk g size) ≡ (done k, disk g size)
        → k < cfg.max_records
        → in_use (replaced old k r) 0 cfg.max_records 0 ≡ counted
        → Absent old key (k + 1) cfg.max_records
        → (((old k).used == 1) ≡ false) ⊎ (holds key (old k) ≡ true)
        → let (o, d) = set_locked cfg key value (disk f size) in
          (o ≡ done tt) × Stored old key value d
    set_at f g k sound start slot l e a b =
        let change = asked_for k l e in
        let whole =
          start
          ∙ >>=-done (slot_for cfg fd) (slotted now c fd) (disk g size) (disk g size) k slot
          ∙ transaction-disk cfg size old now c op_set k counted r g change sound in
        rw whole (refl, after_set g k sound change a b)

    pub set_locked-Sound :
        (f : Region)
        → Sound cfg f old now c
        → let (o, d) = set_locked cfg key value (disk f size) in
          (o ≡ fail (kv_err no_resource))
            × Absent old key 0 cfg.max_records
            × Full old 0 cfg.max_records
            × ((g : Region) × (d ≡ disk g size) × Sound cfg g old now c)
          ⊎ (o ≡ done tt) × Stored old key value d
    unfolding set_locked
    set_locked-Sound f sound =
        let (g, loads, kept) = load_current-Sound cfg size f old now c sound in
        let start : set_locked cfg key value (disk f size) ≡ located now c fd (disk g size) =
          >>=-done (load_current cfg) loaded (disk f size) (disk g size) (now, c) loads
          ∙ >>=-done (find_record cfg key) (located now c) (disk g size) (disk g size) fd
              (find_record-Sound cfg size g old now c key kept) in
        elim (find_in-LastOf old 0 cfg.max_records key
          (record { index = cfg.max_records; count = 0 })) [
            | inr (l, m, h, a) ↦
                let known : (fd.index == cfg.max_records) ≡ false = ground arith in
                inr (
                  set_at f g fd.index kept start (slot_for-known (disk g size) known) (omega arith)
                    (counted-replaced fd.index (omega arith)
                      (inr (known, holds-used key (old fd.index) h)))
                    (λ i p q. a i p (omega arith)) (inr h))
            | inl (e, a) ↦
                let new : (fd.index == cfg.max_records) ≡ true = ground (arith, e) in
                elim (free_in-cases old 0 cfg.max_records cfg.max_records) [
                  | inl none_free ↦
                      let full : (free == cfg.max_records) ≡ true = ground (arith, none_free) in
                      let stops : slot_for cfg fd (disk g size)
                          ≡ (fail (kv_err no_resource), disk g size) =
                        slot_for-new g kept new ∙ rw full refl in
                      let whole =
                        start
                        ∙ >>=-fail (slot_for cfg fd) (slotted now c fd) (disk g size) (disk g size)
                            (kv_err no_resource) stops in
                      inl (
                        rw whole refl,
                        λ i p q. a i p (omega arith),
                        λ i p q.
                            free_in-Full old 0 cfg.max_records cfg.max_records (omega arith)
                              none_free i p (omega (arith, q)),
                        (g, rw whole refl, kept),
                      )
                  | inr (l, m, z) ↦
                      let some_free : (free == cfg.max_records) ≡ false = ground arith in
                      let slot : slot_for cfg fd (disk g size) ≡ (done free, disk g size) =
                        slot_for-new g kept new ∙ rw some_free refl in
                      inr (
                        set_at f g free kept start slot (omega arith)
                          (counted-replaced free (omega arith) (inl (new, ground arith)))
                          (λ i p q. a i (omega arith) (omega arith)) (inl (ground arith)))
                ]
          ]
