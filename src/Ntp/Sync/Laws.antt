-- ===== src/Ntp/Sync/Laws.antt =====
-- What an exchange with the server commits, and the time that its calls may take.
use ant_chain_trust_sdk.Prelude.{
  ℕ, suc, ◌+◌, ◌^◌, ◌<◌, ◌≤◌, ◌≡◌, ◌≢◌, ◌⊎◌, inl, inr, refl, sym, subst, Bool, true, false, Option,
  none, some, List, [], ◌∷◌, ◌++◌, length, All, All-append, ◌==◌, Bool-cases, Option-cases, arith,
  if◌then◌else◌,
}
use ant_chain_trust_sdk.Prelude.Int.{ℤ}
use ant_chain_trust_sdk.Errno.{err_make, Err, Outcome, Outcome-cases, fail, done, actrust_ok, is_ok}
use ant_chain_trust_sdk.Ntp.Time.{
  ntp_err, Deadline, deadline_start, deadline_remaining, Timestamp, wall_ms_to_sntp,
  offset_is_acceptable,
}
use ant_chain_trust_sdk.Ntp.Client.{Ntp, Locks, acquire, admit, take_back, release}
use ant_chain_trust_sdk.Ntp.Clock.{deadline_remaining-done}
use ant_chain_trust_sdk.Ntp.Sync.{
  Call, resolve, open_socket, send, receive, close_socket, Response, Replies, same_text, judge,
  receive_response, send_request, exchange, steps, settle, sync_admitted, ntp_sync,
}

-- The calls of the network end by the deadline, and have some time to run.
abbrev pub Timely : Replies → ℕ → Call → Type 0
Timely w end (resolve ms) = (0 < ms) × (w.now_resolve + ms ≡ end)
Timely w end open_socket = Unit
Timely w end (send ms) = (0 < ms) × (w.now_send + ms ≡ end)
Timely w end (receive ms) = (0 < ms) × (w.now_receive + ms ≡ end)
Timely w end close_socket = Unit

-- The same, on a socket that stays open.
abbrev Inside : Replies → ℕ → Call → Type 0
Inside w end (resolve ms) = ⊥
Inside w end open_socket = ⊥
Inside w end (send ms) = Timely w end (send ms)
Inside w end (receive ms) = Timely w end (receive ms)
Inside w end close_socket = ⊥

-- The clock does not go back during the exchange.
abbrev pub Forward : Replies → Type 0
Forward w =
    (w.now ≤ w.now_resolve)
    × (w.now_resolve ≤ w.now_send)
    × (w.now_send ≤ w.now_receive)
    × (w.now_receive < 2 ^ 64)

abbrev is_open : Call → Bool
is_open open_socket = true
is_open _ = false

abbrev is_close : Call → Bool
is_close close_socket = true
is_close _ = false

unfoldable pub count : (Call → Bool) → List Call → ℕ
count p [] = 0
count p (c ∷ cs) = let rest = count p cs in if p c then suc rest else rest

count-append : (p : Call → Bool) (xs ys : List Call) → count p (xs ++ ys) ≡ count p xs + count p ys
unfolding count
count-append p [] ys = omega arith
count-append p (x ∷ xs) ys = ground (arith, count-append p xs ys)

-- Every socket that is opened is closed.
abbrev pub Closes : List Call → Type 0
Closes calls = count is_open calls ≡ count is_close calls

Inside-Timely :
    (w : Replies) (end : ℕ) (cs : List Call) → All (Inside w end) cs → All (Timely w end) cs
Inside-Timely w end [] h = tt
Inside-Timely w end (resolve ms ∷ cs) h = absurd h.0
Inside-Timely w end (open_socket ∷ cs) h = absurd h.0
Inside-Timely w end (send ms ∷ cs) h = (h.0, Inside-Timely w end cs h.1)
Inside-Timely w end (receive ms ∷ cs) h = (h.0, Inside-Timely w end cs h.1)
Inside-Timely w end (close_socket ∷ cs) h = absurd h.0

Inside-count :
    (w : Replies) (end : ℕ) (cs : List Call)
    → All (Inside w end) cs
    → (count is_open cs ≡ 0) × (count is_close cs ≡ 0)
unfolding count
Inside-count w end [] h = (refl, refl)
Inside-count w end (resolve ms ∷ cs) h = absurd h.0
Inside-count w end (open_socket ∷ cs) h = absurd h.0
Inside-count w end (send ms ∷ cs) h = Inside-count w end cs h.1
Inside-count w end (receive ms ∷ cs) h = Inside-count w end cs h.1
Inside-count w end (close_socket ∷ cs) h = absurd h.0

module _ (epoch per_us max_offset : ℕ) (serialize : Timestamp → ℕ → Option (List ℕ))
    (deserialize : Timestamp → Timestamp → List ℕ → Option Response) where
  -- The response that gave an offset: it came from the server's address and port, and coreSNTP reads
  -- it as an answer of a synchronized server, with an offset inside the limit.
  pub record Accepted (w : Replies) (port : ℕ) (offset : ℤ) : Type 0 where
    pub response : Response
    pub from_server : same_text w.sender_ip w.ip ≡ true
    pub from_port : w.sender_port ≡ port
    pub read :
        deserialize
          (wall_ms_to_sntp epoch per_us w.wall_send)
          (wall_ms_to_sntp epoch per_us w.wall_receive)
          w.packet
        ≡ some response
    pub synchronized : response.alarm ≡ false
    pub gives : response.clock_offset_ms ≡ offset
    pub small : offset_is_acceptable max_offset offset ≡ true

  judge-done :
      (r : Option Response) {offset : ℤ}
      → judge epoch per_us max_offset serialize deserialize r ≡ done offset
      → (response : Response) × (r ≡ some response)
        × (response.alarm ≡ false)
        × (response.clock_offset_ms ≡ offset)
        × (offset_is_acceptable max_offset offset ≡ true)
  unfolding judge
  judge-done none h = absurd (ground arith)
  judge-done (some resp) h = (resp, refl, ground arith, ground arith, ground arith)

  abbrev judged : Replies → Outcome ℤ
  judged w = judge epoch per_us max_offset serialize deserialize (
      deserialize (wall_ms_to_sntp epoch per_us w.wall_send)
        (wall_ms_to_sntp epoch per_us w.wall_receive) w.packet)

  receive_response-done :
      (w : Replies) (d : Deadline) (n : Ntp) {offset : ℤ}
      → (receive_response epoch per_us max_offset serialize deserialize w d n).0 ≡ done offset
      → (same_text w.sender_ip w.ip ≡ true) × (w.sender_port ≡ n.port) × (judged w ≡ done offset)
  unfolding receive_response
  receive_response-done w d n h = ground arith

  steps-done :
      (w : Replies) (d : Deadline) (n : Ntp) {offset : ℤ}
      → (steps epoch per_us max_offset serialize deserialize w d n).0 ≡ done offset
      → (receive_response epoch per_us max_offset serialize deserialize w d n).0 ≡ done offset
  unfolding steps exchange send_request
  steps-done w d n h = ground arith

  steps-Accepted :
      (w : Replies) (d : Deadline) (n : Ntp) {offset : ℤ}
      → (steps epoch per_us max_offset serialize deserialize w d n).0 ≡ done offset
      → Accepted w n.port offset
  steps-Accepted w d n {offset} h =
      let (from, port, judged) = receive_response-done w d n (steps-done w d n h) in
      let (resp, read, sync, gives, small) = judge-done _ judged in
      record {
        response = resp;
        from_server = from;
        from_port = port;
        read = read;
        synchronized = sync;
        gives = gives;
        small = small;
      }

  abbrev RunsInside : {A : Type 0} → Replies → Deadline → A × List Call → Type 0
  RunsInside w d r = All (Inside w (d.start_ms + d.budget_ms)) r.1

  module _ (w : Replies) (d : Deadline) (n : Ntp) (started : d.start_ms ≡ w.now)
      (forward : Forward w) where
    receive_response-Inside :
        RunsInside w d (receive_response epoch per_us max_offset serialize deserialize w d n)
    unfolding receive_response
    receive_response-Inside = elim (Outcome-cases (deadline_remaining w.now_receive d)) [
      | inl (e, p) ↦ rw (p, receive_response) tt
      | inr (ms, p) ↦
          rw (p, receive_response)
            (deadline_remaining-done w.now_receive d (omega arith) (omega arith) p, tt)
    ]

    send_request-Inside :
        (pkt : List ℕ)
        → RunsInside w d (send_request epoch per_us max_offset serialize deserialize w d n pkt)
    unfolding send_request
    send_request-Inside pkt = elim (Outcome-cases (deadline_remaining w.now_send d)) [
      | inl (e, p) ↦ rw (p, send_request) tt
      | inr (ms, p) ↦
          let now = deadline_remaining-done w.now_send d (omega arith) (omega arith) p in
          elim (Bool-cases (is_ok w.sent)) [
            | inr bad ↦ rw (p, send_request, bad) (now, tt)
            | inl good ↦ elim (Bool-cases (w.sent_len == length pkt)) [
              | inr bad ↦ rw (p, send_request, good, bad) (now, tt)
              | inl all ↦ rw (p, send_request, good, all) (now, receive_response-Inside)
            ]
          ]
    ]

    exchange-Inside : RunsInside w d (exchange epoch per_us max_offset serialize deserialize w d n)
    unfolding exchange
    exchange-Inside =
        elim (Option-cases (serialize (wall_ms_to_sntp epoch per_us w.wall_send) w.random)) [
          | inl e ↦ rw (e, exchange) tt
          | inr (pkt, e) ↦ rw (e, exchange) (send_request-Inside pkt)
        ]

    steps-Timely :
        let calls = (steps epoch per_us max_offset serialize deserialize w d n).1 in
        All (Timely w (d.start_ms + d.budget_ms)) calls × Closes calls
    unfolding steps count
    steps-Timely = elim (Outcome-cases (deadline_remaining w.now_resolve d)) [
      | inl (e, p) ↦ rw (p, steps) (tt, refl)
      | inr (ms, p) ↦
          let now = deadline_remaining-done w.now_resolve d (omega arith) (omega arith) p in
          elim (Bool-cases (is_ok w.resolved)) [
            | inr bad ↦ rw (p, steps, bad) ((now, tt), refl)
            | inl good ↦ elim (Bool-cases (is_ok w.opened)) [
              | inr bad ↦ rw (p, steps, good, bad) ((now, tt), refl)
              | inl opened ↦
                  let calls = (exchange epoch per_us max_offset serialize deserialize w d n).1 in
                  let (none_opened, none_closed) =
                    Inside-count w (d.start_ms + d.budget_ms) calls exchange-Inside in
                  rw (p, steps, good, opened)
                    (
                      (
                        now,
                        (
                          tt,
                          All-append (Timely w (d.start_ms + d.budget_ms)) calls _
                              (Inside-Timely w _ calls exchange-Inside) (tt, tt),
                        ),
                      ),
                      omega (
                        arith,
                        none_opened,
                        none_closed,
                        count-append is_open calls (close_socket ∷ []),
                        count-append is_close calls (close_socket ∷ []),
                      ),
                    )
            ]
          ]
    ]

  judge-fail :
      (r : Option Response) {e : Err}
      → judge epoch per_us max_offset serialize deserialize r ≡ fail e
      → e ≢ actrust_ok
  unfolding judge ntp_err err_make
  judge-fail none h = ground arith
  judge-fail (some resp) h = ground arith

  deadline_remaining-fail :
      (now : ℕ) (d : Deadline) {e : Err} → deadline_remaining now d ≡ fail e → e ≢ actrust_ok
  unfolding deadline_remaining ntp_err err_make
  deadline_remaining-fail now d h z = ground arith

  abbrev Fails : {A : Type 0} → Outcome A → Type 0
  Fails o = (e : Err) → o ≡ fail e → e ≢ actrust_ok

  receive_response-fail :
      (w : Replies) (d : Deadline) (n : Ntp)
      → Fails (receive_response epoch per_us max_offset serialize deserialize w d n).0
  unfolding receive_response ntp_err err_make
  receive_response-fail w d n e h z = ground (
    arith,
    deadline_remaining-fail w.now_receive d {e = e},
    judge-fail
        (deserialize (wall_ms_to_sntp epoch per_us w.wall_send)
          (wall_ms_to_sntp epoch per_us w.wall_receive) w.packet)
        {e = e},
  )

  send_request-fail :
      (w : Replies) (d : Deadline) (n : Ntp) (pkt : List ℕ)
      → Fails (send_request epoch per_us max_offset serialize deserialize w d n pkt).0
  unfolding send_request ntp_err err_make
  send_request-fail w d n pkt e h z =
      ground (arith, deadline_remaining-fail w.now_send d {e = e}, receive_response-fail w d n e)

  exchange-fail :
      (w : Replies) (d : Deadline) (n : Ntp)
      → Fails (exchange epoch per_us max_offset serialize deserialize w d n).0
  unfolding exchange ntp_err err_make
  exchange-fail w d n =
      elim (Option-cases (serialize (wall_ms_to_sntp epoch per_us w.wall_send) w.random)) [
        | inl q ↦ rw (q, exchange) (λ e h z. ground arith)
        | inr (pkt, q) ↦ rw (q, exchange) (send_request-fail w d n pkt)
      ]

  steps-fail :
      (w : Replies) (d : Deadline) (n : Ntp) {e : Err}
      → (steps epoch per_us max_offset serialize deserialize w d n).0 ≡ fail e
      → e ≢ actrust_ok
  unfolding steps
  steps-fail w d n {e} h z =
      ground (arith, deadline_remaining-fail w.now_resolve d {e = e}, exchange-fail w d n e)

  acquire-keeps :
      (a o r : Err) (n : Ntp)
      → let n' = (acquire a o r n).1 in
        (n'.port ≡ n.port)
        × (n'.timeout_ms ≡ n.timeout_ms)
        × (n'.synced ≡ n.synced)
        × (n'.last_offset_ms ≡ n.last_offset_ms)
  unfolding acquire admit take_back
  acquire-keeps a o r n = ground arith

  release-keeps :
      (a p : Err) (n : Ntp)
      → let n' = release a p n in (n'.synced ≡ n.synced) × (n'.last_offset_ms ≡ n.last_offset_ms)
  unfolding release
  release-keeps a p n = ground arith

  deadline_start-fail :
      (now budget : ℕ) {e : Err} → deadline_start now budget ≡ fail e → e ≢ actrust_ok
  unfolding deadline_start ntp_err err_make
  deadline_start-fail now budget h z = ground arith

  deadline_start-done :
      (now budget : ℕ) {d : Deadline}
      → deadline_start now budget ≡ done d
      → d ≡ record { start_ms = now; budget_ms = budget }
  unfolding deadline_start
  deadline_start-done now budget h = ground arith

  -- What is said of an exchange from a state with the port, the mark and the offset.
  abbrev Verdict : Replies → ℕ → Bool → ℤ → Err → Ntp → Type 0
  Verdict w port synced offset err n' =
      (err ≢ actrust_ok) × (n'.synced ≡ synced) × (n'.last_offset_ms ≡ offset)
      ⊎ (err ≡ actrust_ok) × (n'.synced ≡ true) × Accepted w port n'.last_offset_ms

  sync_admitted-Accepted :
      (l : Locks) (w : Replies) (n : Ntp)
      → let (err, n', _) = sync_admitted epoch per_us max_offset serialize deserialize l w n in
        Verdict w n.port n.synced n.last_offset_ms err n'
  unfolding sync_admitted settle
  sync_admitted-Accepted l w n = elim (Outcome-cases (deadline_start w.now n.timeout_ms)) [
    | inl (e, p) ↦
        let keep = release-keeps l.leave l.post n in
        rw (p, sync_admitted) (inl (deadline_start-fail w.now n.timeout_ms p, keep.0, keep.1))
    | inr (d, p) ↦
        elim (Outcome-cases (steps epoch per_us max_offset serialize deserialize w d n).0) [
          | inl (e, q) ↦
              let keep = release-keeps l.leave l.post n in
              rw (p, sync_admitted, q, settle) (inl (steps-fail w d n q, keep.0, keep.1))
          | inr (offset, q) ↦
              let keep =
                release-keeps l.leave l.post
                  (record n { synced = true; last_offset_ms = offset }) in
              rw (p, sync_admitted, q, settle)
                (inr
                  (refl, keep.0, subst (Accepted w n.port) (sym keep.1) (steps-Accepted w d n q)))
        ]
  ]

  -- An exchange that fails leaves the time as it was. One that succeeds commits the offset of a
  -- response from the server's address and port, which coreSNTP reads as that of a synchronized server
  -- and which is inside the limit.
  pub ntp_sync-Accepted :
      (l : Locks) (w : Replies) (n : Ntp)
      → let (err, n', _) = ntp_sync epoch per_us max_offset serialize deserialize l w n in
        (err ≢ actrust_ok) × (n'.synced ≡ n.synced) × (n'.last_offset_ms ≡ n.last_offset_ms)
        ⊎ (err ≡ actrust_ok) × (n'.synced ≡ true) × Accepted w n.port n'.last_offset_ms
  unfolding ntp_sync
  ntp_sync-Accepted l w n =
      let (port, _, synced, offset) = acquire-keeps l.admission l.operation l.relock n in
      elim (Bool-cases (is_ok (acquire l.admission l.operation l.relock n).0)) [
        | inr bad ↦ rw (bad, ntp_sync) (inl (λ e. ground arith, synced, offset))
        | inl good ↦
            let m = (acquire l.admission l.operation l.relock n).1 in
            let r = sync_admitted epoch per_us max_offset serialize deserialize l w m in
            rw (good, ntp_sync)
              (subst (λ p. Verdict w p n.synced n.last_offset_ms r.0 r.1) port
                (subst (λ s. Verdict w m.port s n.last_offset_ms r.0 r.1) synced
                  (subst (λ o. Verdict w m.port m.synced o r.0 r.1) offset
                    (sync_admitted-Accepted l w m))))
      ]

  sync_admitted-Timely :
      (l : Locks) (w : Replies) (n : Ntp)
      → Forward w
      → let calls = (sync_admitted epoch per_us max_offset serialize deserialize l w n).2 in
        All (Timely w (w.now + n.timeout_ms)) calls × Closes calls
  unfolding sync_admitted count
  sync_admitted-Timely l w n forward = elim (Outcome-cases (deadline_start w.now n.timeout_ms)) [
    | inl (e, p) ↦ rw (p, sync_admitted) (tt, refl)
    | inr (d, p) ↦
        let d_is = deadline_start-done w.now n.timeout_ms p in
        rw (p, sync_admitted, d_is)
          (steps-Timely w (record { start_ms = w.now; budget_ms = n.timeout_ms }) n refl forward)
  ]

  -- Where the monotonic clock does not go back during an exchange, each of its calls of the network
  -- gets some time, and no more than what is left before the deadline, which is the start and the
  -- configured timeout; and every socket that it opens is closed.
  pub ntp_sync-Timely :
      (l : Locks) (w : Replies) (n : Ntp)
      → Forward w
      → let calls = (ntp_sync epoch per_us max_offset serialize deserialize l w n).2 in
        All (Timely w (w.now + n.timeout_ms)) calls × Closes calls
  unfolding ntp_sync count
  ntp_sync-Timely l w n forward =
      let (_, timeout, _, _) = acquire-keeps l.admission l.operation l.relock n in
      elim (Bool-cases (is_ok (acquire l.admission l.operation l.relock n).0)) [
        | inr bad ↦ rw (bad, ntp_sync) (tt, refl)
        | inl good ↦
            let m = (acquire l.admission l.operation l.relock n).1 in
            let calls = (sync_admitted epoch per_us max_offset serialize deserialize l w m).2 in
            rw (good, ntp_sync)
              (subst (λ t. All (Timely w (w.now + t)) calls × Closes calls) timeout
                (sync_admitted-Timely l w m forward))
      ]
