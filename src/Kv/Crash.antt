-- ===== src/Kv/Crash.antt =====
-- A change of the store, every point at which it may stop, and what recovery makes of it.
use mathlib.Core.Path.{subst}
use native.Mathlib.Decide.{ℕ_discrete}
use ant_chain_trust_sdk.Prelude.{
  ℕ, ◌+◌, ◌%◌, ◌^◌, ◌<◌, ◌≡◌, ◌⊎◌, inl, inr, refl, sym, ap, ◌∙◌, true, false, some, ◌==◌, ==_iff,
  leb, arith, if◌then◌else◌,
}
use ant_chain_trust_sdk.Errno.{Err}
use ant_chain_trust_sdk.Kv.Codec.{Config, Record, Superblock, Journal}
use ant_chain_trust_sdk.Kv.Disk.{
  Disk, fail, done, write_record, write_superblock, write_journal, clear_journal, storage_erase,
  storage_sync, storage_write,
}
use ant_chain_trust_sdk.Kv.Recover.{
  journal_is_valid, record_is_valid, make_superblock, newer_journal, redo, recover_changes,
  op_format, pick,
}
use ant_chain_trust_sdk.Kv.Prepare.{prepare, commit}
use ant_chain_trust_sdk.Kv.Store.{transaction}
use ant_chain_trust_sdk.Kv.Region.{Region, journal_at, journal_at-written}
use ant_chain_trust_sdk.Kv.Parts.{
  put_superblock, put_record, put_journal, wipe_journal, journal_at-put_superblock,
  journal_at-put_record,
}
use ant_chain_trust_sdk.Kv.Selected.{disk, recover-Current}
use ant_chain_trust_sdk.Kv.Sound.{Quiet, Sound, Recovers, recover-Sound, wiped-Quiet}
use ant_chain_trust_sdk.Kv.Runs.{Runs, Clean, storage_write-Runs, storage_sync-Runs, >>-Runs}
use ant_chain_trust_sdk.Kv.Change.{
  both, other_of, pick-at, newer-due, replaced, Change, Before, After, Before-journal,
  Before-record, Before-published, After-journal, After-wiped, j-fits, j-valid, committed-fits,
  next_generation,
}

module _ (cfg : Config) (old : ℕ → Record) (now : Superblock) (c op k n : ℕ) (r : Record)
    (change : Change cfg old now op k n r) where
  abbrev generation : ℕ
  generation = (now.generation + 1) % 2 ^ 64

  abbrev slot : ℕ
  slot = now.generation % 2

  abbrev next : Superblock
  next = make_superblock generation n

  abbrev c' : ℕ
  c' = (c + 1) % 2

  abbrev j : Journal
  j = prepare cfg op generation now.generation k n r

  abbrev published : Region → Region
  published f = put_superblock (put_record cfg f k r) c' next

  module _ (size : ℕ)
      (valid : (i : ℕ) → i < cfg.max_records → record_is_valid cfg (old i) ≡ true) where
    replaced-valid : (i : ℕ) → i < cfg.max_records → record_is_valid cfg (replaced old k r i) ≡ true
    unfolding replaced
    replaced-valid i l = elim (ℕ_discrete i k) [
      | yes e ↦
          let new : (if i == k then r else old i) ≡ r = ground (arith, e) in rw new change.good
      | no ne ↦
          let kept : (if i == k then r else old i) ≡ old i = ground (arith, ne) in
          rw kept (valid i l)
    ]

    After-Sound :
        (f : Region)
        → After cfg old now c op k n r change f
        → Quiet cfg f next.generation slot
        → Sound cfg f (replaced old k r) next c'
    unfolding make_superblock
    After-Sound f a q =
        let quiet = both (Quiet cfg f next.generation) slot (omega arith) q a.quiet in
        record {
          current = a.current;
          quiet0 = quiet.0;
          quiet1 = quiet.1;
          content = a.content;
          valid = replaced-valid;
          counted = change.counted;
        }

    j-due : now.generation < j.generation
    unfolding prepare
    j-due = omega (arith, (next_generation cfg old now c op k n r change))

    due :
        (f : Region)
        → Before cfg old now c op k n r change f
        → journal_at cfg f slot ≡ j
        → newer_journal
            (journal_is_valid cfg (journal_at cfg f 0))
            (journal_is_valid cfg (journal_at cfg f 1))
            (journal_at cfg f 0)
            (journal_at cfg f 1)
          ≡ some slot
    due f b there =
        newer-due (journal_is_valid cfg) (journal_at cfg f) now.generation slot (omega arith)
          (rw there (j-valid cfg old now c op k n r change)) (rw there j-due) b.quiet

    picked :
        (f : Region)
        → journal_at cfg f slot ≡ j
        → pick slot (journal_at cfg f 0) (journal_at cfg f 1) ≡ j
    picked f there = pick-at (journal_at cfg f) slot (omega arith) ∙ there

    redo-due :
        (f : Region)
        → redo cfg now c slot j (disk f size)
          ≡ (done tt, disk (wipe_journal cfg (published f) slot) size)
    unfolding redo prepare write_record write_superblock clear_journal storage_erase storage_write
        storage_sync
    redo-due f =
        let later : leb generation now.generation ≡ false =
          ground (arith, (next_generation cfg old now c op k n r change)) in
        let base : (now.generation == now.generation) ≡ true = (==_iff _ _).1 refl in
        let changes : (op == op_format) ≡ false = ground (arith, change.operation) in
        rw (later, base, changes) refl

    -- With the journal in place, recovery carries the change out.
    redone :
        (f : Region)
        → Before cfg old now c op k n r change f
        → journal_at cfg f slot ≡ j
        → Recovers cfg f size (replaced old k r) next c'
    unfolding recover_changes
    redone f b there = record {
      after = wipe_journal cfg (published f) slot;
      runs =
          recover-Current cfg f size now c b.current
          ∙ ap
              (λ x.
                recover_changes cfg now c x (journal_at cfg f 0) (journal_at cfg f 1) (disk f size))
              (due f b there)
          ∙ ap (λ x. redo cfg now c slot x (disk f size)) (picked f there)
          ∙ redo-due f;
      sound =
          After-Sound (wipe_journal cfg (published f) slot)
            (After-wiped cfg old now c op k n r change (published f)
              (Before-published cfg old now c op k n r change f b))
            (wiped-Quiet cfg (published f) slot next.generation);
    }

    -- Wherever the change stops, recovery brings back the old records or the new ones.
    abbrev pub Recoverable : Region → Type 0
    Recoverable f = Recovers cfg f size old now c ⊎ Recovers cfg f size (replaced old k r) next c'

    module _ (f0 : Region) (sound : Sound cfg f0 old now c) where
      abbrev f1 : Region
      f1 = put_journal cfg f0 slot j

      abbrev f2 : Region
      f2 = put_record cfg f1 k r

      abbrev f3 : Region
      f3 = put_superblock f2 c' next

      abbrev f4 : Region
      f4 = put_journal cfg f3 slot (commit j)

      abbrev pub f5 : Region
      f5 = wipe_journal cfg f4 slot

      b0 : Before cfg old now c op k n r change f0
      b0 = record {
        current = sound.current;
        quiet = other_of (Quiet cfg f0 now.generation) slot (omega arith) sound.quiet0 sound.quiet1;
        content = λ i l ne. sound.content i l;
      }

      b1 : Before cfg old now c op k n r change f1
      b1 = Before-journal cfg old now c op k n r change f0 b0

      a3 : After cfg old now c op k n r change f3
      a3 = Before-published cfg old now c op k n r change f1 b1

      a4 : After cfg old now c op k n r change f4
      a4 =
          After-journal cfg old now c op k n r change f3 (commit j)
            (committed-fits cfg old now c op k n r change) a3

      there1 : journal_at cfg f1 slot ≡ j
      there1 = journal_at-written cfg f0 slot j (j-fits cfg old now c op k n r change)

      there2 : journal_at cfg f2 slot ≡ j
      there2 = journal_at-put_record cfg f1 slot k r change.fits change.place ∙ there1

      there3 : journal_at cfg f3 slot ≡ j
      there3 = journal_at-put_superblock cfg f2 slot c' next (omega arith) ∙ there2

      there4 : journal_at cfg f4 slot ≡ commit j
      there4 =
          journal_at-written cfg f3 slot (commit j) (committed-fits cfg old now c op k n r change)

      sound3 : Sound cfg f3 (replaced old k r) next c'
      unfolding prepare make_superblock
      sound3 = After-Sound f3 a3 (rw there3 (inr (omega arith)))

      sound4 : Sound cfg f4 (replaced old k r) next c'
      unfolding prepare commit make_superblock
      sound4 = After-Sound f4 a4 (rw there4 (inr (omega arith)))

      pub sound5 : Sound cfg f5 (replaced old k r) next c'
      sound5 =
          After-Sound f5 (After-wiped cfg old now c op k n r change f4 a4)
            (wiped-Quiet cfg f4 slot next.generation)

      r0 : Recoverable f0
      r0 = inl (recover-Sound cfg f0 size old now c sound)

      r1 : Recoverable f1
      r1 = inr (redone f1 b1 there1)

      r2 : Recoverable f2
      r2 = inr (redone f2 (Before-record cfg old now c op k n r change f1 b1) there2)

      r3 : Recoverable f3
      r3 = inr (recover-Sound cfg f3 size (replaced old k r) next c' sound3)

      r4 : Recoverable f4
      r4 = inr (recover-Sound cfg f4 size (replaced old k r) next c' sound4)

      transaction-Runs : Runs Recoverable f0 f5 (transaction cfg now c op k n r)
      unfolding transaction write_journal write_record write_superblock clear_journal storage_erase
          prepare
      transaction-Runs =
          let changes : (op == op_format) ≡ false = ground (arith, change.operation) in
          let P = Recoverable in
          rw changes (
            >>-Runs P f0 f1 f5 _ _ (storage_write-Runs P f0 _ _ r0) (
              >>-Runs P f1 f1 f5 _ _ (storage_sync-Runs P f1 r1) (
                >>-Runs P f1 f2 f5 _ _ (storage_write-Runs P f1 _ _ r1) (
                  >>-Runs P f2 f3 f5 _ _ (storage_write-Runs P f2 _ _ r2) (
                    >>-Runs P f3 f3 f5 _ _ (storage_sync-Runs P f3 r3) (
                      >>-Runs P f3 f4 f5 _ _ (storage_write-Runs P f3 _ _ r3) (
                        >>-Runs P f4 f4 f5 _ _ (storage_sync-Runs P f4 r4)
                          (storage_write-Runs P f4 _ _ r4))))))))

-- A change, begun on a region that holds the records `old`, with any replies of the storage in which
-- a call that fails has changed nothing. If the change succeeds, the region holds the new records and
-- a newer superblock, and no journal is due. Wherever it fails, recovery afterwards succeeds, and the
-- region then holds either the old records or the new ones.
pub transaction-Recovers :
    (cfg : Config) (old : ℕ → Record) (now : Superblock) (c op k n : ℕ) (r : Record) (d : Disk)
    → Change cfg old now op k n r
    → Sound cfg d.bytes old now c
    → Clean d
    → let next = make_superblock ((now.generation + 1) % 2 ^ 64) n in
      let (o, d') = transaction cfg now c op k n r d in
      (o ≡ done tt) × Sound cfg d'.bytes (replaced old k r) next ((c + 1) % 2)
      ⊎ ((e : Err) × (o ≡ fail e)
          × (Recovers cfg d'.bytes d.capacity old now c
              ⊎ Recovers cfg d'.bytes d.capacity (replaced old k r) next ((c + 1) % 2)))
transaction-Recovers cfg old now c op k n r d change sound clean =
    let runs =
      transaction-Runs cfg old now c op k n r change d.capacity sound.valid d.bytes sound in
    let last = sound5 cfg old now c op k n r change d.capacity sound.valid d.bytes sound in
    elim (runs.outcome d clean refl).0 [
      | inl (ok, there) ↦ inl (
        ok,
        subst
            (λ f.
              Sound cfg f (replaced old k r) (make_superblock ((now.generation + 1) % 2 ^ 64) n)
                ((c + 1) % 2))
            (sym there) last,
      )
      | inr (e, bad, kept) ↦ inr (e, bad, kept)
    ]
