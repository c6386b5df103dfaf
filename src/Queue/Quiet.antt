-- ===== src/Queue/Quiet.antt =====
-- What holds of the tasks on a queue that has been created.
use ant_chain_trust_sdk.Prelude.{ℕ, ◌<◌, ◌≡◌, true, Option, none, some, List, arith}
use ant_chain_trust_sdk.Errno.{Outcome, done, actrust_ok}
use ant_chain_trust_sdk.Queue.Sections.{Bytes, Queue}
use ant_chain_trust_sdk.Queue.Calls.{queue_create}
use ant_chain_trust_sdk.Queue.Threads.{Crew, Tasks, Reach, here, next, IsFair, Step-IsFair}

abbrev pub nobody : Crew
nobody = record { waiting = 0; holders = 0; turns = 0; leaving = 0; owing = 0 }

-- A queue that no task is inside of.
abbrev pub alone : Queue → Tasks
alone q = record { q = q; unlocking = 0; pushers = nobody; poppers = nobody }

abbrev pub created : Option (List Bytes) → ℕ → ℕ → Outcome Queue
created block capacity item_size =
    queue_create true block actrust_ok actrust_ok actrust_ok actrust_ok capacity item_size

pub created-IsFair :
    (block : Option (List Bytes)) (capacity item_size : ℕ) {q : Queue}
    → created block capacity item_size ≡ done q
    → IsFair (alone q)
unfolding queue_create
created-IsFair none capacity item_size h = absurd (ground arith)
created-IsFair (some slots) capacity item_size h = ground arith

pub Reach-IsFair : {s t : Tasks} → IsFair s → Reach s t → IsFair t
Reach-IsFair v here = v
Reach-IsFair v (next r st) = Step-IsFair st (Reach-IsFair v r)

-- On a queue that has been created, under every interleaving of its tasks and with any failures of
-- adapter calls, a push that comes to its last section finds a free slot, and a pop that comes to
-- its last section finds an item.
pub turns-find_slot :
    (block : Option (List Bytes)) (capacity item_size : ℕ) (q : Queue) (t : Tasks)
    → created block capacity item_size ≡ done q
    → Reach (alone q) t
    → (0 < t.pushers.turns → t.q.size < t.q.capacity) × (0 < t.poppers.turns → 0 < t.q.size)
turns-find_slot block capacity item_size q t h r =
    let v = Reach-IsFair (created-IsFair block capacity item_size h) r in
    (λ p. omega (arith, v.free, p), λ p. omega (arith, v.held, p))
