-- ===== src/Ntp/Users.antt =====
-- Users of an NTP client and one that deinitializes it, interleaved at the locks and the wait of
-- ntp.c. A user that leaves posts the semaphore while it holds the admission lock, and unlocks that in
-- a step of its own. Taking the admission lock succeeds here; the operation lock and posts may fail.
use ant_chain_trust_sdk.Prelude.{
  ℕ, ◌+◌, ◌-◌, ◌^◌, ◌<◌, ◌≡◌, ◌≢◌, refl, Bool, true, false, if◌then◌else◌, arith,
}
use ant_chain_trust_sdk.Errno.{err_make, Err, done, actrust_ok}
use ant_chain_trust_sdk.Ntp.Time.{ntp_err}
use ant_chain_trust_sdk.Ntp.Client.{Ntp, admit, take_back, release, deinit_start}

-- Where `actrust_ntp_deinit` is: not called yet, at its wait, or behind it.
pub data Phase : Type 0 where
  up waiting through : Phase

-- The client, its users from `acquire` up to the section of `release` that counts them out, and
-- whether a user that has been counted out still holds the admission lock.
pub record Users : Type 0 where
  pub n : Ntp
  pub inside : ℕ
  pub holding : Bool
  pub phase : Phase

abbrev pub refused : Users → Users
refused s = record s { n = take_back actrust_ok s.n; inside = s.inside - 1 }

abbrev pub left_by : Err → Users → Users
left_by post s = record s { n = release actrust_ok post s.n; inside = s.inside - 1; holding = true }

-- The wait of `actrust_ntp_deinit` has taken a token.
abbrev pub woken : Users → Users
woken s = record s { n = record s.n { idle_sem = s.n.idle_sem - 1 }; phase = through }

pub data Step : Users → Users → Type 0 where
  enter :
      (s : Users)
      → s.inside + 1 < 2 ^ 32
      → s.holding ≡ false
      → (admit actrust_ok s.n).0 ≡ actrust_ok
      → Step s (record s { n = (admit actrust_ok s.n).1; inside = s.inside + 1 })
  -- The operation lock of a user fails.
  refuse : (s : Users) → 0 < s.inside → s.holding ≡ false → Step s (refused s)
  leave : (s : Users) (post : Err) → 0 < s.inside → s.holding ≡ false → Step s (left_by post s)
  -- The end of `release`.
  unlock : (s : Users) → s.holding ≡ true → Step s (record s { holding = false })
  shut :
      (s : Users) (n' : Ntp) (wait : Bool)
      → s.holding ≡ false
      → deinit_start actrust_ok s.n ≡ (done wait, n')
      → Step s (record s { n = n'; phase = if wait then waiting else through })
  -- The wait of `actrust_ntp_deinit` takes a token.
  wake : (s : Users) → s.phase ≡ waiting → 0 < s.n.idle_sem → Step s (woken s)

pub data Reach (s : Users) : Users → Type 0 where
  here : Reach s s
  next : {t u : Users} → Reach s t → Step t u → Reach s u

-- What every interleaving keeps.
pub record IsQuiet (s : Users) : Type 0 where
  pub counted : s.n.active_users ≡ s.inside
  pub few : s.inside < 2 ^ 32
  pub up_open : s.phase ≡ up → s.n.closing ≡ false
  pub down_closing : s.phase ≢ up → s.n.closing ≡ true
  pub token : 0 < s.n.idle_sem → s.inside ≡ 0
  pub token_closing : 0 < s.n.idle_sem → s.n.closing ≡ true
  pub left : s.phase ≡ through → s.inside ≡ 0

-- A client that nobody uses.
pub record IsFresh (s : Users) : Type 0 where
  pub alone : s.n.active_users ≡ 0
  pub none_inside : s.inside ≡ 0
  pub admits : s.n.closing ≡ false
  pub no_token : s.n.idle_sem ≡ 0
  pub unheld : s.holding ≡ false
  pub running : s.phase ≡ up

Step-IsQuiet : {s t : Users} → Step s t → IsQuiet s → IsQuiet t
unfolding admit take_back release deinit_start ntp_err err_make
Step-IsQuiet (enter s few free ok) q = ground arith
Step-IsQuiet (refuse s some_inside free) q = ground arith
Step-IsQuiet (leave s post some_inside free) q = ground arith
Step-IsQuiet (unlock s held) q = ground arith
Step-IsQuiet (shut s n' wait free e) q = ground arith
Step-IsQuiet (wake s w t) q = ground arith

Reach-IsQuiet : {s t : Users} → IsQuiet s → Reach s t → IsQuiet t
Reach-IsQuiet q here = q
Reach-IsQuiet q (next r st) = Step-IsQuiet st (Reach-IsQuiet q r)

IsFresh-IsQuiet : (s : Users) → IsFresh s → IsQuiet s
IsFresh-IsQuiet s f = ground arith

-- When a deinitialization waits for one user, it may get behind its wait, where it destroys the locks,
-- while that user, counted out, still holds the admission lock.
last_leaves :
    (t : Users)
    → IsQuiet t
    → t.phase ≡ waiting
    → t.inside ≡ 1
    → t.holding ≡ false
    → (u : Users) × Reach t u × (u.phase ≡ through) × (u.holding ≡ true)
unfolding release
last_leaves t q w one free =
    let leaves : Reach t (left_by actrust_ok t) =
      next here (leave t actrust_ok (omega (arith, one)) free) in
    let token : 0 < (left_by actrust_ok t).n.idle_sem = ground (arith, q.counted, q.down_closing) in
    (woken (left_by actrust_ok t), next leaves (wake (left_by actrust_ok t) w token), refl, refl)

-- Under every interleaving of the users of a client, refused ones included: when the deinitialization
-- has gone past its wait, every user has been counted out, and none is let in any more. The unlock of
-- the admission lock, with which a user that has been counted out ends, may still be to come.
pub through-nobody_inside :
    (s t : Users)
    → IsFresh s
    → Reach s t
    → t.phase ≡ through
    → (t.inside ≡ 0) × (t.n.active_users ≡ 0) × ((admit actrust_ok t.n).0 ≢ actrust_ok)
unfolding admit ntp_err err_make
through-nobody_inside s t f r e =
    let q = Reach-IsQuiet (IsFresh-IsQuiet s f) r in ground (arith, q.left e, q.counted)

-- A deinitialization that waits, with nobody inside and no token.
record IsStuck (s : Users) : Type 0 where
  waits : s.phase ≡ waiting
  empty : s.inside ≡ 0
  closed : s.n.closing ≡ true
  no_token : s.n.idle_sem ≡ 0

Step-IsStuck : {s t : Users} → Step s t → IsStuck s → IsStuck t
unfolding admit take_back release deinit_start ntp_err err_make
Step-IsStuck (enter s few free ok) q = ground arith
Step-IsStuck (refuse s some_inside free) q = ground arith
Step-IsStuck (leave s post some_inside free) q = ground arith
Step-IsStuck (unlock s held) q = ground arith
Step-IsStuck (shut s n' wait free e) q = ground arith
Step-IsStuck (wake s w t) q = ground arith

Reach-IsStuck : {s t : Users} → IsStuck s → Reach s t → IsStuck t
Reach-IsStuck q here = q
Reach-IsStuck q (next r st) = Step-IsStuck st (Reach-IsStuck q r)

refused-IsStuck : (s : Users) → IsQuiet s → s.phase ≡ waiting → s.inside ≡ 1 → IsStuck (refused s)
unfolding take_back
refused-IsStuck s q w one = ground arith

-- When a deinitialization waits for the one user that is left, and the operation lock of that user
-- fails, the deinitialization waits forever: it does so in every state that is reached from there.
pub refused_user_strands :
    (s t u : Users)
    → IsFresh s
    → Reach s t
    → t.phase ≡ waiting
    → t.inside ≡ 1
    → Reach (refused t) u
    → (u.phase ≡ waiting) × (u.inside ≡ 0) × (u.n.idle_sem ≡ 0)
refused_user_strands s t u f r w one r' =
    let stuck =
      Reach-IsStuck (refused-IsStuck t (Reach-IsQuiet (IsFresh-IsQuiet s f) r) w one) r' in
    (stuck.waits, stuck.empty, stuck.no_token)
