-- ===== src/Queue/Refine.antt =====
-- The queue against a list of items, oldest first.
use ant_chain_trust_sdk.Prelude.{
  ◌+◌, ◌-◌, ◌%◌, ◌<◌, ◌≤◌, ◌≡◌, ◌≢◌, ◌⊎◌, inl, inr, refl, sym, ap, ◌∙◌, Bool-cases, List, [], ◌∷◌,
  ◌++◌, length, length-set, get_or, set, arith,
}
use ant_chain_trust_sdk.Prelude.Slots.{
  stored, stored-set, tail-next, head-next, count-nonzero, stored-nonzero,
}
use ant_chain_trust_sdk.Errno.{Err, fail, done, actrust_ok, is_ok}
use ant_chain_trust_sdk.Queue.Sections.{
  count_out, Bytes, Queue, Side, push, pop, queue_lock, queue_state_lock, leave, give_back, Turn,
  reserve, push_locked, pop_locked,
}

-- The items in the queue, oldest first.
abbrev pub items : Queue → List Bytes
items q = stored [] q.buffer q.capacity q.head q.size

pub record IsValid (q : Queue) : Type 0 where
  pub storage : q.capacity ≤ length q.buffer
  pub head_in : q.head < q.capacity
  pub size_in : q.size ≤ q.capacity
  pub tail_at : q.tail ≡ (q.head + q.size) % q.capacity

-- The ring of a queue is that of another.
record SameRing (q q' : Queue) : Type 0 where
  buffer : q'.buffer ≡ q.buffer
  capacity : q'.capacity ≡ q.capacity
  head : q'.head ≡ q.head
  tail : q'.tail ≡ q.tail
  size : q'.size ≡ q.size

reserve-SameRing : (own other : Side) (t : Turn) (q : Queue) → SameRing q (reserve own other t q).1
unfolding count_out reserve leave give_back queue_lock queue_state_lock
reserve-SameRing push push t q = ground arith
reserve-SameRing push pop t q = ground arith
reserve-SameRing pop push t q = ground arith
reserve-SameRing pop pop t q = ground arith

leave-SameRing : (q : Queue) → SameRing q (leave q)
unfolding leave
leave-SameRing q = ground arith

SameRing-items : (q q' : Queue) → SameRing q q' → items q' ≡ items q
SameRing-items q q' s = rw (s.buffer, s.capacity, s.head, s.size) refl

SameRing-IsValid : (q q' : Queue) → SameRing q q' → IsValid q → IsValid q'
SameRing-IsValid q q' s v = ground arith

abbrev put : Queue → Bytes → Queue
put q item = record q {
  buffer = set q.buffer q.tail item;
  tail = (q.tail + 1) % q.capacity;
  size = q.size + 1;
}

put_lem :
    (q : Queue) (item : Bytes)
    → IsValid q
    → q.size < q.capacity
    → IsValid (put q item) × (items (put q item) ≡ items q ++ item ∷ [])
put_lem q item v room = ground (
  arith,
  length-set q.buffer q.tail item,
  tail-next q.head q.size q.capacity,
  stored-set [] q.buffer q.capacity item q.size q.head q.tail,
)

abbrev got : Queue → Queue
got q = record q { head = (q.head + 1) % q.capacity; size = q.size - 1 }

got_lem :
    (q : Queue) (item : Bytes) (rest : List Bytes)
    → IsValid q
    → items q ≡ item ∷ rest
    → IsValid (got q) × (get_or q.buffer q.head [] ≡ item) × (items (got q) ≡ rest)
got_lem q item rest v holds =
    let some_held = count-nonzero [] q.buffer q.capacity q.head q.size item rest holds in
    let split = sym holds ∙ stored-nonzero [] q.buffer q.capacity q.head q.size some_held in
    ground (arith, split, head-next q.head q.size q.capacity some_held)

-- With any results of its adapter calls, the last section of a push that finds room keeps the
-- invariant. Either it succeeds and the item is appended, or it fails and the items are what they
-- were.
pub push_locked_lem :
    (t : Turn) (item : Bytes) (q : Queue)
    → IsValid q
    → q.size < q.capacity
    → let (e, q') = push_locked t item q in
      IsValid q'
      × ((e ≡ actrust_ok) × (items q' ≡ items q ++ item ∷ [])
          ⊎ (e ≢ actrust_ok) × (items q' ≡ items q))
unfolding push_locked
push_locked_lem t item q v room =
    let r = (reserve push pop t q).1 in
    let same = reserve-SameRing push pop t q in
    let valid = SameRing-IsValid q r same v in
    let kept = SameRing-items q r same in
    elim (Bool-cases (is_ok (reserve push pop t q).0)) [
      | inr bad ↦ rw (bad, push_locked) (valid, inr (λ e. ground arith, kept))
      | inl good ↦
          let (after, more) = put_lem r item valid (omega (arith, same, room)) in
          let left = leave-SameRing (put r item) in
          rw (good, push_locked)
            (
              SameRing-IsValid (put r item) (leave (put r item)) left after,
              inl (
                refl,
                SameRing-items (put r item) (leave (put r item)) left
                    ∙ more
                    ∙ ap (λ xs. xs ++ item ∷ []) kept,
              ),
            )
    ]

-- With any results of its adapter calls, the last section of a pop keeps the invariant of a queue
-- that holds items. Either it gives the oldest and the others are left in order, or it fails and the
-- items are what they were.
pub pop_locked_lem :
    (t : Turn) (item : Bytes) (rest : List Bytes) (q : Queue)
    → IsValid q
    → items q ≡ item ∷ rest
    → let (o, q') = pop_locked t q in
      IsValid q'
      × ((o ≡ done item) × (items q' ≡ rest) ⊎ ((e : Err) × (o ≡ fail e) × (items q' ≡ items q)))
unfolding pop_locked
pop_locked_lem t item rest q v holds =
    let r = (reserve pop push t q).1 in
    let same = reserve-SameRing pop push t q in
    let valid = SameRing-IsValid q r same v in
    let kept = SameRing-items q r same in
    elim (Bool-cases (is_ok (reserve pop push t q).0)) [
      | inr bad ↦ rw (bad, pop_locked) (valid, inr (_, refl, kept))
      | inl good ↦
          let (after, first, others) = got_lem r item rest valid (kept ∙ holds) in
          let left = leave-SameRing (got r) in
          rw (good, pop_locked)
            (
              SameRing-IsValid (got r) (leave (got r)) left after,
              inl (ap done first, SameRing-items (got r) (leave (got r)) left ∙ others),
            )
    ]
