-- ===== src/Kv/Others.antt =====
-- A set leaves what is stored under other keys.
use native.Mathlib.Decide.{ℕ_discrete}
use ant_chain_trust_sdk.Prelude.{
  ℕ, zero, suc, ◌+◌, ◌^◌, ◌<◌, ◌≤◌, ◌≡◌, ◌≢◌, inl, inr, refl, sym, ap, ap₂, ◌∙◌, true, false, some,
  [], ◌∷◌, length, take, ◌==◌, ==_iff, ◌&&◌, ltb, arith, Bool-cases, if◌then◌else◌,
}
use ant_chain_trust_sdk.Errno.{actrust_ok, no_resource, io}
use ant_chain_trust_sdk.Kv.Codec.{Bytes, Config, Record, Superblock, max_key}
use ant_chain_trust_sdk.Kv.Disk.{
  Disk, Io, Outcome, fail, done, kv_err, ◌>>=◌, give, throw, read_record, storage_read,
}
use ant_chain_trust_sdk.Kv.Recover.{load_current, record_is_valid}
use ant_chain_trust_sdk.Kv.Store.{
  Found, has_key, same_bytes, make_record, find_record, get_locked, kv_set, kv_get, under_lock,
  copy_out, bad_key, set_locked,
}
use ant_chain_trust_sdk.Kv.Region.{Region, record_at}
use ant_chain_trust_sdk.Kv.Selected.{disk}
use ant_chain_trust_sdk.Kv.Sound.{Sound}
use ant_chain_trust_sdk.Kv.Runs.{>>=-done}
use ant_chain_trust_sdk.Kv.Lookup.{holds, seen, seen-index, find_in, find_in-LastOf}
use ant_chain_trust_sdk.Kv.Entry.{make_record-holds, take-whole}
use ant_chain_trust_sdk.Kv.Steps.{load_current-Sound, found_in, find_record-Sound, holds-used}
use ant_chain_trust_sdk.Kv.SetLocked.{Stored, set_locked-Sound}

true-is_not-false : true ≢ false
true-is_not-false h = ground arith

pub same_bytes-same : (s t : Bytes) → same_bytes s t ≡ true → s ≡ t
unfolding same_bytes
same_bytes-same [] [] h = refl
same_bytes-same [] (b ∷ t) h = absurd (true-is_not-false (sym h))
same_bytes-same (a ∷ s) [] h = absurd (true-is_not-false (sym h))
same_bytes-same (a ∷ s) (b ∷ t) h = elim (Bool-cases (a == b)) [
  | inl e ↦ ap₂ ◌∷◌ ((==_iff a b).0 e) (same_bytes-same s t (rw e at h))
  | inr e ↦ absurd (true-is_not-false (sym (rw e at h)))
]

-- The key that a record holds is its own.
own_key : (key : Bytes) (r : Record) → holds key r ≡ true → take r.key_len r.key ≡ key
unfolding has_key
own_key key r h = elim (Bool-cases (r.key_len == length key)) [
  | inl e ↦
      let l : r.key_len ≡ length key = (==_iff _ _).0 e in
      let g : (true && same_bytes (take (length key) r.key) key) ≡ true =
        rw (holds-used key r h, e) at h in
      ap (λ n. take n r.key) l ∙ same_bytes-same _ key g
  | inr e ↦ absurd (true-is_not-false (sym (rw (holds-used key r h, e) at h)))
]

one_key :
    (key other : Bytes) (r : Record) → key ≢ other → holds key r ≡ true → holds other r ≡ false
one_key key other r ne h = elim (Bool-cases (holds other r)) [
  | inl g ↦ absurd (ne (sym (own_key key r h) ∙ own_key other r g))
  | inr g ↦ g
]

seen-same :
    (i : ℕ) (key : Bytes) (r q : Record) (f g : Found)
    → holds key r ≡ holds key q
    → f.index ≡ g.index
    → (seen i key r f).index ≡ (seen i key q g).index
seen-same i key r q f g same e = elim (seen-index i key r f) [
  | inl (h, a) ↦ elim (seen-index i key q g) [
    | inl (h', b) ↦ a ∙ sym b
    | inr (h', b) ↦ absurd (true-is_not-false (sym h ∙ same ∙ h'))
  ]
  | inr (h, a) ↦ elim (seen-index i key q g) [
    | inl (h', b) ↦ absurd (true-is_not-false (sym h' ∙ sym same ∙ h))
    | inr (h', b) ↦ a ∙ e ∙ sym b
  ]
]

-- The search for a key sees only the records that hold it.
find_in-same :
    (recs old : ℕ → Record) (i n : ℕ) (key : Bytes) (f g : Found)
    → ((k : ℕ) → holds key (recs k) ≡ holds key (old k))
    → f.index ≡ g.index
    → (find_in recs i n key f).index ≡ (find_in old i n key g).index
unfolding find_in
find_in-same recs old i zero key f g same e = e
find_in-same recs old i (suc n) key f g same e =
    find_in-same recs old (i + 1) n key (seen i key (recs i) f) (seen i key (old i) g) same
      (seen-same i key (recs i) (old i) f g (same i) e)

module _ (cfg : Config) (size : ℕ) where
  -- What `get_locked` gives, by the records alone.
  abbrev got_in : (ℕ → Record) → Bytes → Outcome Record
  got_in recs key =
      if (found_in cfg size recs key).index == cfg.max_records
      then fail (kv_err no_resource)
      else done (recs (found_in cfg size recs key).index)

  get_locked-Sound :
      (f : Region) (recs : ℕ → Record) (now : Superblock) (c : ℕ) (key : Bytes)
      → Sound cfg f recs now c
      → (get_locked cfg key (disk f size)).0 ≡ got_in recs key
  unfolding get_locked read_record storage_read
  get_locked-Sound f recs now c key sound =
      let (g, loads, kept) = load_current-Sound cfg size f recs now c sound in
      let i = (found_in cfg size recs key).index in
      let start : get_locked cfg key (disk f size)
          ≡ picked (found_in cfg size recs key) (disk g size) =
        >>=-done (load_current cfg) (λ _. find_record cfg key >>= picked) (disk f size)
          (disk g size) (now, c) loads
        ∙ >>=-done (find_record cfg key) picked (disk g size) (disk g size)
            (found_in cfg size recs key) (find_record-Sound cfg size g recs now c key kept) in
      elim (find_in-LastOf recs 0 cfg.max_records key
        (record { index = cfg.max_records; count = 0 })) [
          | inl (e, a) ↦
              let new : (i == cfg.max_records) ≡ true = ground (arith, e) in rw (start, new) refl
          | inr (l, m, h, a) ↦
              let known : (i == cfg.max_records) ≡ false = ground arith in
              let read : record_at cfg g i ≡ recs i = kept.content i (omega arith) in
              let good : record_is_valid cfg (record_at cfg g i) ≡ true =
                ap (record_is_valid cfg) read ∙ kept.valid i (omega arith) in
              rw (start, known, good) (ap done read)
        ]
    where
      picked : Found → Io Record
      picked f =
          if f.index == cfg.max_records
          then throw (kv_err no_resource)
          else (read_record cfg f.index >>= λ r.
              if record_is_valid cfg r then give r else throw (kv_err io))

unused-absent : (key : Bytes) (r : Record) → (r.used == 1) ≡ false → holds key r ≡ false
unused-absent key r h = rw h refl

module _ (cfg : Config) (size : ℕ) (old : ℕ → Record) (key other value : Bytes) (d : Disk)
    (ne : key ≢ other) (st : Stored cfg size old key value d)
    (holds_it : holds key (make_record cfg key value) ≡ true) where
  old_slot : holds other (old st.k) ≡ false
  old_slot = elim st.before [
    | inl off ↦ unused-absent other (old st.k) off
    | inr on ↦ one_key key other (old st.k) ne on
  ]

  same_holders : (i : ℕ) → holds other (st.recs i) ≡ holds other (old i)
  same_holders i = elim (ℕ_discrete i st.k) [
    | yes e ↦ rw e (one_key key other (st.recs st.k) ne (rw st.entry holds_it) ∙ sym old_slot)
    | no apart ↦ ap (holds other) (st.kept i apart)
  ]

  got_in-same : got_in cfg size st.recs other ≡ got_in cfg size old other
  got_in-same =
      let start : Found = record { index = cfg.max_records; count = 0 } in
      let e = find_in-same st.recs old 0 cfg.max_records other start start same_holders refl in
      let i = (found_in cfg size old other).index in
      elim (find_in-LastOf old 0 cfg.max_records other start) [
        | inl (none_there, a) ↦
            let new : (i == cfg.max_records) ≡ true = ground (arith, none_there) in rw (e, new) refl
        | inr (l, m, h, a) ↦
            let apart : i ≢ st.k =
              λ at. true-is_not-false (sym h ∙ ap (λ k. holds other (old k)) at ∙ old_slot) in
            rw e (
              ap (λ r. if i == cfg.max_records then fail (kv_err no_resource) else done r)
                (st.kept i apart))
      ]

-- On a region that holds records, with a storage whose calls succeed, a set under one key, whether it
-- succeeds or not, leaves what is got from another key.
pub kv_set-kv_get_other :
    (cfg : Config) (key other value : Bytes) (f : Region) (size : ℕ) (old : ℕ → Record)
    (now : Superblock) (c out_cap : ℕ)
    → key ≢ other
    → 0 < length key
    → length key ≤ max_key
    → length value ≤ cfg.max_value
    → 0 < length other
    → length other ≤ max_key
    → cfg.max_value < 2 ^ 32
    → cfg.max_records < 2 ^ 32
    → now.generation + 1 < 2 ^ 64
    → Sound cfg f old now c
    → let d =
        (kv_set cfg actrust_ok actrust_ok (some key) (some value) (length value) (disk f size)).1 in
      (kv_get cfg actrust_ok actrust_ok (some other) true out_cap true d).0
      ≡ (kv_get cfg actrust_ok actrust_ok (some other) true out_cap true (disk f size)).0
unfolding kv_set kv_get under_lock
kv_set-kv_get_other cfg key other value f size old now c out_cap ne some_key short_key short_value
      some_other short_other small few top sound =
    let good_key : bad_key cfg key ≡ false = ground arith in
    let good_other : bad_key cfg other ≡ false = ground arith in
    let good_length : ltb cfg.max_value (length value) ≡ false = ground arith in
    let core : (get_locked cfg other (set_locked cfg key value (disk f size)).1).0
        ≡ (get_locked cfg other (disk f size)).0 =
      elim (set_locked-Sound cfg size key value some_key short_key short_value small few old now c
        top f sound) [
          | inl (e, a, full, (g, same, kept)) ↦ rw same (
              get_locked-Sound cfg size g old now c other kept
              ∙ sym (get_locked-Sound cfg size f old now c other sound))
          | inr (e, st) ↦ rw st.same (
              get_locked-Sound cfg size st.region st.recs st.now st.c other st.sound
              ∙ got_in-same cfg size old key other value _ ne st
                  (make_record-holds cfg key value some_key short_key short_value small)
              ∙ sym (get_locked-Sound cfg size f old now c other sound))
        ] in
    rw (good_key, good_other, good_length, take-whole value)
      (ap (copy_out cfg actrust_ok out_cap) core)
