-- ===== src/Kv/Selected.antt =====
-- What recovery reads on a storage whose calls succeed: the current superblock and the journals.
use ant_chain_trust_sdk.Prelude.{
  ℕ, zero, suc, ◌-◌, ◌<◌, ◌≤◌, ◌≡◌, ◌⊎◌, inl, inr, refl, ap, ◌∙◌, Bool, true, false, none, some, [],
  ◌==◌, ◌&&◌, not, arith, Bool-cases, if◌then◌else◌,
}
use ant_chain_trust_sdk.Kv.Codec.{Config, Superblock, Journal, encode_journal, journal_head, put_le}
use ant_chain_trust_sdk.Kv.Disk.{
  Disk, Outcome, Io, done, fail, storage_read, read_superblock, read_journal, ◌>>=◌,
}
use ant_chain_trust_sdk.Kv.Recover.{
  superblock_is_valid, journal_is_valid, journal_is_zero, region_is_zero, newer_superblock,
  newer_journal, select_superblock, load_journal, checked_journal, recover_changes, recover_with,
  recover,
}
use ant_chain_trust_sdk.Errno.{err_code, no_resource}
use ant_chain_trust_sdk.Kv.Runs.{>>=-done}
use ant_chain_trust_sdk.Kv.Region.{Region, superblock_at, journal_at}

-- A storage whose calls succeed.
abbrev pub disk : Region → ℕ → Disk
disk f size = record { bytes = f; capacity = size; replies = [] }

module _ (cfg : Config) where
  -- The superblock at `c` is the one in force: the other is invalid or older, or no newer and
  -- behind it.
  pub record Current (f : Region) (now : Superblock) (c : ℕ) : Type 0 where
    pub low : c < 2
    pub here : superblock_at f c ≡ now
    pub valid : superblock_is_valid cfg now ≡ true
    pub older :
        (superblock_is_valid cfg (superblock_at f (1 - c)) ≡ false)
        ⊎ ((superblock_at f (1 - c)).generation < now.generation)
        ⊎ ((c ≡ 0) × ((superblock_at f (1 - c)).generation ≤ now.generation))

  newest :
      (sb0 sb1 : Superblock) (c : ℕ)
      → c < 2
      → superblock_is_valid cfg (if c == 0 then sb0 else sb1) ≡ true
      → (superblock_is_valid cfg (if c == 0 then sb1 else sb0) ≡ false)
        ⊎ ((if c == 0 then sb1 else sb0).generation < (if c == 0 then sb0 else sb1).generation)
        ⊎ ((c ≡ 0)
            × ((if c == 0 then sb1 else sb0).generation ≤ (if c == 0 then sb0 else sb1).generation))
      → newer_superblock (superblock_is_valid cfg sb0) (superblock_is_valid cfg sb1) sb0 sb1 ≡ c
  unfolding newer_superblock
  newest sb0 sb1 zero l v o = ground arith
  newest sb0 sb1 (suc zero) l v o = ground arith
  newest sb0 sb1 (suc (suc c)) l v o = absurd (omega arith)

  some_valid : (b : Bool) → (not b && not true) ≡ false
  some_valid true = refl
  some_valid false = refl

  pub select_superblock-Current :
      (f : Region) (size : ℕ) (now : Superblock) (c : ℕ)
      → Current f now c
      → select_superblock cfg (disk f size) ≡ (done (now, c), disk f size)
  unfolding select_superblock read_superblock storage_read
  select_superblock-Current f size now zero cur =
      let v : superblock_is_valid cfg (superblock_at f 0) ≡ true =
        ap (superblock_is_valid cfg) cur.here ∙ cur.valid in
      let n = newest (superblock_at f 0) (superblock_at f 1) 0 cur.low v (rw cur.here cur.older) in
      rw (n, v) (ap (λ sb. (done (sb, 0), disk f size)) cur.here)
  select_superblock-Current f size now (suc zero) cur =
      let v : superblock_is_valid cfg (superblock_at f 1) ≡ true =
        ap (superblock_is_valid cfg) cur.here ∙ cur.valid in
      let n = newest (superblock_at f 0) (superblock_at f 1) 1 cur.low v (rw cur.here cur.older) in
      rw (n, v, some_valid (superblock_is_valid cfg (superblock_at f 0)))
        (ap (λ sb. (done (sb, 1), disk f size)) cur.here)
  select_superblock-Current f size now (suc (suc c)) cur = absurd (omega (arith, cur.low))

  -- A valid journal is not all zero.
  valid-nonzero : (j : Journal) → journal_is_valid cfg j ≡ true → journal_is_zero j ≡ false
  unfolding journal_is_valid journal_is_zero encode_journal journal_head put_le region_is_zero
  valid-nonzero j h = ground arith

  pub load_journal-disk :
      (f : Region) (size i : ℕ)
      → load_journal cfg false i (disk f size)
        ≡ (done (journal_is_valid cfg (journal_at cfg f i), journal_at cfg f i), disk f size)
  unfolding load_journal read_journal storage_read checked_journal
  load_journal-disk f size i = elim (Bool-cases (journal_is_valid cfg (journal_at cfg f i))) [
    | inl v ↦ rw (v, valid-nonzero (journal_at cfg f i) v) refl
    | inr v ↦ rw v (elim (Bool-cases (journal_is_zero (journal_at cfg f i))) [
      | inl z ↦ rw z refl
      | inr z ↦ rw z refl
    ])
  ]

  -- Recovery under a superblock in force goes on with the journals as they stand.
  pub recover-Current :
      (f : Region) (size : ℕ) (now : Superblock) (c : ℕ)
      → Current f now c
      → recover cfg (disk f size)
        ≡ recover_changes cfg now c
            (newer_journal
              (journal_is_valid cfg (journal_at cfg f 0))
              (journal_is_valid cfg (journal_at cfg f 1))
              (journal_at cfg f 0)
              (journal_at cfg f 1))
            (journal_at cfg f 0)
            (journal_at cfg f 1)
            (disk f size)
  unfolding recover recover_with
  recover-Current f size now c cur =
      let go : Outcome (Superblock × ℕ) × Disk → Outcome (Unit {0}) × Disk = λ r.
        let (o, d') = r in
        elim o [
          | done chosen ↦ recover_with cfg (some chosen) d'
          | fail e ↦ if err_code e == no_resource then recover_with cfg none d' else (fail e, d')
        ] in
      ap go (select_superblock-Current f size now c cur)
      ∙ >>=-done (load_journal cfg false 0) (λ x. load_journal cfg false 1 >>= λ y. with_both x y)
          (disk f size) (disk f size) _ (load_journal-disk f size 0)
      ∙ >>=-done (load_journal cfg false 1) (with_both _) (disk f size) (disk f size) _
          (load_journal-disk f size 1)
    where
      with_both : Bool × Journal → Bool × Journal → Io (Unit {0})
      with_both x y = recover_changes cfg now c (newer_journal x.0 y.0 x.1 y.1) x.1 y.1
