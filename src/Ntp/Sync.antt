-- ===== src/Ntp/Sync.antt =====
-- `actrust_ntp_sync`: the exchange with the server, with the calls that it makes of the network.
-- `serialize` and `deserialize` stand for coreSNTP's Sntp_SerializeRequest and
-- Sntp_DeserializeResponse, `epoch` and `per_us` for its constants, and `max_offset` for
-- CONFIG_ACTRUST_NTP_MAX_OFFSET_MS.
pub mod Laws
use ant_chain_trust_sdk.Prelude.{
  ℕ, ◌+◌, Bool, true, false, ◌&&◌, ◌||◌, not, Option, none, some, List, [], ◌∷◌, ◌++◌, length, ltb,
  ◌==◌, if◌then◌else◌,
}
use ant_chain_trust_sdk.Prelude.Int.{ℤ}
use ant_chain_trust_sdk.Errno.{Err, Outcome, fail, done, actrust_ok, is_ok, io, bad_state}
use ant_chain_trust_sdk.Ntp.Time.{
  ntp_err, Deadline, deadline_start, deadline_remaining, Timestamp, wall_ms_to_sntp,
  offset_is_acceptable,
}
use ant_chain_trust_sdk.Ntp.Client.{Ntp, Locks, acquire, released}

-- A call of the network adapter; the number is the time that it may take.
pub data Call : Type 0 where
  resolve : ℕ → Call
  open_socket : Call
  send : ℕ → Call
  receive : ℕ → Call
  close_socket : Call

-- What coreSNTP reads in a response: whether the server says that it is not synchronized, and the
-- offset.
pub record Response : Type 0 where
  pub alarm : Bool
  pub clock_offset_ms : ℤ

-- What the clocks and the network answer: `now` at the four readings of the monotonic clock, `wall`
-- at the two of the other, and what comes of each call.
pub record Replies : Type 0 where
  pub now : ℕ
  pub now_resolve : ℕ
  pub now_send : ℕ
  pub now_receive : ℕ
  pub wall_send : ℕ
  pub wall_receive : ℕ
  pub random : ℕ
  pub resolved : Err
  pub ip : List ℕ
  pub opened : Err
  pub sent : Err
  pub sent_len : ℕ
  pub received : Err
  pub sender_ip : List ℕ
  pub sender_port : ℕ
  pub packet : List ℕ

-- `strcmp(s, t) == 0`
unfoldable pub same_text : List ℕ → List ℕ → Bool
same_text [] [] = true
same_text [] (c ∷ t) = false
same_text (b ∷ s) [] = false
same_text (b ∷ s) (c ∷ t) = b == c && same_text s t

module _ (epoch per_us max_offset : ℕ) (serialize : Timestamp → ℕ → Option (List ℕ))
    (deserialize : Timestamp → Timestamp → List ℕ → Option Response) where
  -- Step 6: the response is parsed and judged.
  unfoldable pub judge : Option Response → Outcome ℤ
  judge none = fail (ntp_err io)
  judge (some resp) =
      if resp.alarm
      then fail (ntp_err bad_state)
      else if not (offset_is_acceptable max_offset resp.clock_offset_ms)
      then fail (ntp_err bad_state)
      else done resp.clock_offset_ms

  -- Step 5
  unfoldable pub receive_response : Replies → Deadline → Ntp → Outcome ℤ × List Call
  receive_response w d n = elim (deadline_remaining w.now_receive d) [
    | fail e ↦ (fail e, [])
    | done ms ↦ (
      if not (is_ok w.received)
          then fail w.received
          else if not (same_text w.sender_ip w.ip) || not (w.sender_port == n.port)
          then fail (ntp_err io)
          else judge (
              deserialize (wall_ms_to_sntp epoch per_us w.wall_send)
                (wall_ms_to_sntp epoch per_us w.wall_receive) w.packet),
      receive ms ∷ [],
    )
  ]

  -- Step 4
  unfoldable pub send_request : Replies → Deadline → Ntp → List ℕ → Outcome ℤ × List Call
  send_request w d n pkt = elim (deadline_remaining w.now_send d) [
    | fail e ↦ (fail e, [])
    | done ms ↦
        if not (is_ok w.sent)
        then (fail w.sent, send ms ∷ [])
        else if not (w.sent_len == length pkt)
        then (fail (ntp_err io), send ms ∷ [])
        else let (o, calls) = receive_response w d n in (o, send ms ∷ calls)
  ]

  -- Step 3, on an open socket
  unfoldable pub exchange : Replies → Deadline → Ntp → Outcome ℤ × List Call
  exchange w d n = elim (serialize (wall_ms_to_sntp epoch per_us w.wall_send) w.random) [
    | none ↦ (fail (ntp_err io), [])
    | some pkt ↦ send_request w d n pkt
  ]

  -- Steps 1 and 2, and the socket's end. A socket that does not open needs no closing.
  unfoldable pub steps : Replies → Deadline → Ntp → Outcome ℤ × List Call
  steps w d n = elim (deadline_remaining w.now_resolve d) [
    | fail e ↦ (fail e, [])
    | done ms ↦
        if not (is_ok w.resolved)
        then (fail w.resolved, resolve ms ∷ [])
        else if not (is_ok w.opened)
        then (fail w.opened, resolve ms ∷ [])
        else let (o, calls) = exchange w d n in
          (o, resolve ms ∷ open_socket ∷ calls ++ close_socket ∷ [])
  ]

  -- Step 7
  unfoldable pub settle : Outcome ℤ → Ntp → Err × Ntp
  settle (fail e) n = (e, n)
  settle (done offset) n = (actrust_ok, record n { synced = true; last_offset_ms = offset })

  -- The exchange of a user that holds the operation lock, and its release.
  unfoldable pub sync_admitted : Locks → Replies → Ntp → Err × Ntp × List Call
  sync_admitted l w n = elim (deadline_start w.now n.timeout_ms) [
    | fail e ↦ (e, released l n, [])
    | done d ↦ let (o, calls) = steps w d n in let (e, n') = settle o n in (e, released l n', calls)
  ]

  -- `actrust_ntp_sync`
  unfoldable pub ntp_sync : Locks → Replies → Ntp → Err × Ntp × List Call
  ntp_sync l w n =
      let (err, n') = acquire l.admission l.operation l.relock n in
      if not (is_ok err) then (err, n', []) else sync_admitted l w n'
