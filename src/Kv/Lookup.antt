-- ===== src/Kv/Lookup.antt =====
-- Searches over the records: what the loops of kv.c find, on a region that holds given records.
use native.Mathlib.Decide.{dec_lt, ℕ_discrete}
use ant_chain_trust_sdk.Prelude.{
  ℕ, zero, suc, ◌+◌, ◌<◌, ◌≤◌, ◌≡◌, ◌≢◌, ◌⊎◌, inl, inr, refl, sym, ap, ◌∙◌, Bool, true, false, ◌==◌,
  ◌&&◌, not, arith, Bool-cases, if◌then◌else◌,
}
use ant_chain_trust_sdk.Kv.Codec.{Bytes, Config, Record}
use ant_chain_trust_sdk.Kv.Disk.{done, read_record, storage_read}
use ant_chain_trust_sdk.Kv.Recover.{record_is_valid}
use ant_chain_trust_sdk.Kv.Store.{Found, has_key, find_from, free_from}
use ant_chain_trust_sdk.Kv.Region.{Region, record_at}
use ant_chain_trust_sdk.Kv.Selected.{disk}
use ant_chain_trust_sdk.Kv.Sound.{in_use}
use ant_chain_trust_sdk.Kv.Change.{replaced}

-- A record in use under the key.
abbrev pub holds : Bytes → Record → Bool
holds key r = r.used == 1 && has_key key r

abbrev pub seen : ℕ → Bytes → Record → Found → Found
seen i key r f =
    if not (r.used == 1)
    then f
    else record { index = if has_key key r then i else f.index; count = f.count + 1 }

unfoldable pub find_in : (ℕ → Record) → ℕ → ℕ → Bytes → Found → Found
find_in recs i zero key f = f
find_in recs i (suc n) key f = find_in recs (i + 1) n key (seen i key (recs i) f)

unfoldable pub free_in : (ℕ → Record) → ℕ → ℕ → ℕ → ℕ
free_in recs i zero none_free = none_free
free_in recs i (suc n) none_free =
    if (recs i).used == 0 then i else free_in recs (i + 1) n none_free

module _ (cfg : Config) (f : Region) (size : ℕ) (recs : ℕ → Record) (limit : ℕ)
    (same : (i : ℕ) → i < limit → record_at cfg f i ≡ recs i)
    (valid : (i : ℕ) → i < limit → record_is_valid cfg (recs i) ≡ true) where
  pub find_from-disk :
      (i n : ℕ) (key : Bytes) (so_far : Found)
      → i + n ≤ limit
      → find_from cfg i n key so_far (disk f size)
        ≡ (done (find_in recs i n key so_far), disk f size)
  unfolding find_from find_in read_record storage_read
  find_from-disk i zero key so_far h = refl
  find_from-disk i (suc n) key so_far h =
      let good : record_is_valid cfg (record_at cfg f i) ≡ true =
        ap (record_is_valid cfg) (same i (omega arith)) ∙ valid i (omega arith) in
      rw (good, find_from)
        (find_from-disk (i + 1) n key (seen i key (record_at cfg f i) so_far) (omega arith)
          ∙ ap (λ r. (done (find_in recs (i + 1) n key (seen i key r so_far)), disk f size))
              (same i (omega arith)))

  pub free_from-disk :
      (i n : ℕ)
      → i + n ≤ limit
      → free_from cfg i n (disk f size) ≡ (done (free_in recs i n cfg.max_records), disk f size)
  unfolding free_from free_in read_record storage_read
  free_from-disk i zero h = refl
  free_from-disk i (suc n) h =
      let good : record_is_valid cfg (record_at cfg f i) ≡ true =
        ap (record_is_valid cfg) (same i (omega arith)) ∙ valid i (omega arith) in
      let e = same i (omega arith) in
      elim (Bool-cases ((recs i).used == 0)) [
        | inl z ↦
            let z' : ((record_at cfg f i).used == 0) ≡ true = rw e z in
            rw (good, z', z, free_from) refl
        | inr z ↦
            let z' : ((record_at cfg f i).used == 0) ≡ false = rw e z in
            rw (good, z', z, free_from) (free_from-disk (i + 1) n (omega arith))
      ]

seen-count :
    (i : ℕ) (key : Bytes) (r : Record) (f : Found)
    → (seen i key r f).count ≡ (if r.used == 1 then f.count + 1 else f.count)
seen-count i key r f = elim (Bool-cases (r.used == 1)) [ inl e ↦ rw e refl | inr e ↦ rw e refl ]

pub seen-index :
    (i : ℕ) (key : Bytes) (r : Record) (f : Found)
    → (holds key r ≡ true) × ((seen i key r f).index ≡ i)
      ⊎ (holds key r ≡ false) × ((seen i key r f).index ≡ f.index)
seen-index i key r f = elim (Bool-cases (r.used == 1)) [
  | inr e ↦ rw e (inr (refl, refl))
  | inl e ↦ elim (Bool-cases (has_key key r)) [
    | inl k ↦ rw (e, k) (inl (refl, refl))
    | inr k ↦ rw (e, k) (inr (refl, refl))
  ]
]

pub find_in-count :
    (recs : ℕ → Record) (i n : ℕ) (key : Bytes) (f : Found)
    → (find_in recs i n key f).count ≡ in_use recs i n f.count
unfolding find_in in_use
find_in-count recs i zero key f = refl
find_in-count recs i (suc n) key f =
    find_in-count recs (i + 1) n key (seen i key (recs i) f)
    ∙ ap (in_use recs (i + 1) n) (seen-count i key (recs i) f)

-- No record from `i` up to `j` is in use under the key.
abbrev pub Absent : (ℕ → Record) → Bytes → ℕ → ℕ → Type 0
Absent recs key i j = (k : ℕ) → i ≤ k → k < j → holds key (recs k) ≡ false

-- The index is the one given, and the key is absent; or it is the last one that holds the key.
abbrev pub LastOf : (ℕ → Record) → Bytes → ℕ → ℕ → ℕ → ℕ → Type 0
LastOf recs key i j given found =
    ((found ≡ given) × Absent recs key i j)
    ⊎ ((i ≤ found) × (found < j) × (holds key (recs found) ≡ true) × Absent recs key (found + 1) j)

pub find_in-LastOf :
    (recs : ℕ → Record) (i n : ℕ) (key : Bytes) (f : Found)
    → LastOf recs key i (i + n) f.index (find_in recs i n key f).index
unfolding find_in
find_in-LastOf recs i zero key f = inl (refl, λ k l m. absurd (omega arith))
find_in-LastOf recs i (suc n) key f =
    elim (find_in-LastOf recs (i + 1) n key (seen i key (recs i) f)) [
      | inr (l, m, h, a) ↦ inr (omega arith, omega arith, h, λ k p q. a k p (omega arith))
      | inl (e, a) ↦ elim (seen-index i key (recs i) f) [
        | inl (h, e') ↦
            let here = e ∙ e' in
            rw here (inr (omega arith, omega arith, h, λ k p q. a k p (omega arith)))
        | inr (h, e') ↦ inl (
          e ∙ e',
          λ k p q. elim (ℕ_discrete k i) [
            | yes same ↦ rw same h
            | no ne ↦ a k (omega arith) (omega arith)
          ],
        )
      ]
    ]

true-not-false : true ≢ false
true-not-false h = ground arith

pub LastOf-unique :
    (recs : ℕ → Record) (key : Bytes) (i j given found k : ℕ)
    → LastOf recs key i j given found
    → i ≤ k
    → k < j
    → holds key (recs k) ≡ true
    → Absent recs key (k + 1) j
    → found ≡ k
LastOf-unique recs key i j given found k (inl (e, none)) l m h a =
    absurd (true-not-false (sym h ∙ none k l m))
LastOf-unique recs key i j given found k (inr (l', m', h', a')) l m h a = elim (dec_lt found k) [
  | yes lt ↦ absurd (true-not-false (sym h ∙ a' k (omega arith) m))
  | no ge ↦ elim (dec_lt k found) [
    | yes lt ↦ absurd (true-not-false (sym h' ∙ a found (omega arith) m'))
    | no le ↦ omega arith
  ]
]

pub free_in-cases :
    (recs : ℕ → Record) (i n none_free : ℕ)
    → (free_in recs i n none_free ≡ none_free)
      ⊎ ((i ≤ free_in recs i n none_free)
          × (free_in recs i n none_free < i + n)
          × (((recs (free_in recs i n none_free)).used == 0) ≡ true))
unfolding free_in
free_in-cases recs i zero none_free = inl refl
free_in-cases recs i (suc n) none_free = elim (Bool-cases ((recs i).used == 0)) [
  | inl e ↦ rw e (inr (omega arith, omega arith, e))
  | inr e ↦ rw e (elim (free_in-cases recs (i + 1) n none_free) [
    | inl same ↦ inl same
    | inr (l, m, z) ↦ inr (omega arith, omega arith, z)
  ])
]

-- Every slot from `i` up to `j` is taken.
abbrev pub Full : (ℕ → Record) → ℕ → ℕ → Type 0
Full recs i j = (k : ℕ) → i ≤ k → k < j → ((recs k).used == 0) ≡ false

-- A search that finds no free slot has seen them all taken.
pub free_in-Full :
    (recs : ℕ → Record) (i n none_free : ℕ)
    → i + n ≤ none_free
    → free_in recs i n none_free ≡ none_free
    → Full recs i (i + n)
unfolding free_in
free_in-Full recs i zero none_free h = λ e k p q. absurd (omega (arith, p, q))
free_in-Full recs i (suc n) none_free h = elim (Bool-cases ((recs i).used == 0)) [
  | inl z ↦ rw z (λ e. absurd (omega (arith, e, h)))
  | inr z ↦ rw z (λ e k p q. elim (ℕ_discrete k i) [
    | yes same ↦ rw same z
    | no other ↦
        free_in-Full recs (i + 1) n none_free (omega (arith, h)) e k (omega (arith, p, other))
          (omega (arith, q))
  ])
]

in_use-shift : (recs : ℕ → Record) (i n c d : ℕ) → in_use recs i n (c + d) ≡ in_use recs i n c + d
unfolding in_use
in_use-shift recs i zero c d = refl
in_use-shift recs i (suc n) c d = elim (Bool-cases ((recs i).used == 1)) [
  | inl e ↦ rw e (ap (in_use recs (i + 1) n) (omega arith) ∙ in_use-shift recs (i + 1) n (c + 1) d)
  | inr e ↦ rw e (in_use-shift recs (i + 1) n c d)
]

pub in_use-bound : (recs : ℕ → Record) (i n c : ℕ) → in_use recs i n c ≤ n + c
unfolding in_use
in_use-bound recs i zero c = omega arith
in_use-bound recs i (suc n) c = elim (Bool-cases ((recs i).used == 1)) [
  | inl e ↦ rw e (omega (arith, in_use-bound recs (i + 1) n (c + 1)))
  | inr e ↦ rw e (omega (arith, in_use-bound recs (i + 1) n c))
]

module _ (old : ℕ → Record) (k : ℕ) (r : Record) where
  pub replaced-here : replaced old k r k ≡ r
  unfolding replaced
  replaced-here = ground arith

  pub replaced-there : (i : ℕ) → i ≢ k → replaced old k r i ≡ old i
  unfolding replaced
  replaced-there i h = ground arith

  in_use-behind : (i n c : ℕ) → k < i → in_use (replaced old k r) i n c ≡ in_use old i n c
  unfolding in_use
  in_use-behind i zero c h = refl
  in_use-behind i (suc n) c h =
      rw (replaced-there i (omega arith)) (in_use-behind (i + 1) n _ (omega arith))

  -- Putting a record in use at `k` adds one to the count, unless the old one was in use.
  pub in_use-replaced :
      (r.used == 1) ≡ true
      → (i n c : ℕ) → i ≤ k
      → k < i + n
      → in_use (replaced old k r) i n c ≡ in_use old i n c + (if (old k).used == 1 then 0 else 1)
  unfolding in_use
  in_use-replaced on i zero c l m = absurd (omega arith)
  in_use-replaced on i (suc n) c l m = elim (ℕ_discrete i k) [
    | yes e ↦
        rw (e, replaced-here, on)
          (elim (Bool-cases ((old k).used == 1)) [
            | inl u ↦ rw u (omega (arith, in_use-behind (k + 1) n (c + 1) (omega arith)))
            | inr u ↦
                rw u
                  (in_use-behind (k + 1) n (c + 1) (omega arith) ∙ in_use-shift old (k + 1) n c 1)
          ])
    | no ne ↦ rw (replaced-there i ne) (in_use-replaced on (i + 1) n _ (omega arith) (omega arith))
  ]

  -- Clearing a record that is in use at `k` takes one from the count.
  pub in_use-cleared :
      (r.used == 1) ≡ false
      → ((old k).used == 1) ≡ true
      → (i n c : ℕ) → i ≤ k
      → k < i + n
      → in_use (replaced old k r) i n c + 1 ≡ in_use old i n c
  unfolding in_use
  in_use-cleared off u i zero c l m = absurd (omega arith)
  in_use-cleared off u i (suc n) c l m = elim (ℕ_discrete i k) [
    | yes e ↦
        rw (e, replaced-here, off, u)
          (ap (λ x. x + 1) (in_use-behind (k + 1) n c (omega arith))
            ∙ sym (in_use-shift old (k + 1) n c 1))
    | no ne ↦
        rw (replaced-there i ne) (in_use-cleared off u (i + 1) n _ (omega arith) (omega arith))
  ]
