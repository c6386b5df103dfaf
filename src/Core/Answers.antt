-- ===== src/Core/Answers.antt =====
-- What the messages that are handled during a registration do to its state.
use ant_chain_trust_sdk.Prelude.{
  ℕ, ◌+◌, ◌<◌, ◌≡◌, ◌⊎◌, inl, inr, refl, ap, ◌∙◌, Bool, true, false, ◌&&◌, ◌||◌, not, some, List,
  [], ◌∷◌, length, ◌==◌, arith, Bool-cases, Option-cases, ==_iff,
}
use ant_chain_trust_sdk.Json.Chars.{Bytes}
use ant_chain_trust_sdk.Json.View.{
  Value, CoreJson, json_init, json_query, refused, too_long, got, get_string,
}
use ant_chain_trust_sdk.Kv.Store.{same_bytes}
use ant_chain_trust_sdk.Kv.Others.{same_bytes-same}
use ant_chain_trust_sdk.Core.Handshake.{
  wait_challenge, wait_result, Registration, Delivery, session_id_len, nonce_max, name_session,
  name_nonce, name_status, text_ok, member, session_matches, take_nonce, handle_challenge,
  take_status, handle_result, action_of, dispatch, is_waiting_challenge, is_waiting_result,
}

-- What no message changes.
pub record Keeps (g g' : Registration) : Type 0 where
  pub same_session : g'.session_id ≡ g.session_id
  pub same_phase : g'.phase ≡ g.phase
  pub same_progress : g'.in_progress ≡ g.in_progress

-- The flag and the nonce are as they were.
abbrev pub Same : Registration → Registration → Type 0
Same g g' = (g'.ok ≡ g.ok) × (g'.nonce ≡ g.nonce) × (g'.nonce_len ≡ g.nonce_len)

-- A message of a list has the property.
abbrev pub Has : (Delivery → Type 0) → List Delivery → Type 0
Has P [] = ⊥
Has P (d ∷ ds) = P d ⊎ Has P ds

module _ (json : CoreJson) where
  -- A challenge of the session, with its nonce.
  pub record Challenges (session nonce : Bytes) (d : Delivery) : Type 0 where
    pub is_challenge : action_of json d.payload ≡ some 0x1001
    pub belongs :
        member json d.mem_session d.payload name_session (session_id_len + 1) ≡ some (got session)
    pub brings : member json d.mem_value d.payload name_nonce nonce_max ≡ some (got nonce)

  -- A result of the session that says ok.
  pub record Confirms (session : Bytes) (d : Delivery) : Type 0 where
    pub is_result : action_of json d.payload ≡ some 0x1003
    pub belongs :
        member json d.mem_session d.payload name_session (session_id_len + 1) ≡ some (got session)
    pub says_ok : member json d.mem_value d.payload name_status 16 ≡ some (got text_ok)

  handle_challenge-Keeps : (d : Delivery) (g : Registration) → Keeps g (handle_challenge json d g)
  unfolding handle_challenge take_nonce
  handle_challenge-Keeps d g = record {
    same_session = ground arith;
    same_phase = ground arith;
    same_progress = ground arith;
  }

  handle_result-Keeps : (d : Delivery) (g : Registration) → Keeps g (handle_result json d g)
  unfolding handle_result take_status
  handle_result-Keeps d g = record {
    same_session = ground arith;
    same_phase = ground arith;
    same_progress = ground arith;
  }

  pub dispatch-Keeps : (d : Delivery) (g : Registration) → Keeps g (dispatch json d g)
  unfolding dispatch
  dispatch-Keeps d g = record {
    same_session = ground (arith, handle_challenge-Keeps d g, handle_result-Keeps d g);
    same_phase = ground (arith, handle_challenge-Keeps d g, handle_result-Keeps d g);
    same_progress = ground (arith, handle_challenge-Keeps d g, handle_result-Keeps d g);
  }

  session_matches-belongs :
      (d : Delivery) (g : Registration)
      → session_matches json d g ≡ true
      → member json d.mem_session d.payload name_session (session_id_len + 1)
        ≡ some (got g.session_id)
  unfolding session_matches
  session_matches-belongs d g h =
      elim (Option-cases (member json d.mem_session d.payload name_session (session_id_len + 1))) [
        | inl e ↦ absurd (ground arith)
        | inr (got s, e) ↦
            let same : same_bytes s g.session_id ≡ true = ground arith in
            e ∙ ap (λ t. some (got t)) (same_bytes-same s g.session_id same)
        | inr (refused x, e) ↦ absurd (ground arith)
        | inr (too_long n, e) ↦ absurd (ground arith)
      ]

  -- What a message does while a challenge is waited for.
  abbrev pub Heard : Delivery → Registration → Registration → Type 0
  Heard d g g' =
      (g'.ok ≡ false)
      ⊎ Same g g'
      ⊎ Challenges g.session_id g'.nonce d
        × (g'.nonce_len ≡ length g'.nonce)
        × (length g'.nonce < nonce_max)

  get_string-fits :
      (mem : Bool) (v : Value) (cap : ℕ) (s : Bytes) → get_string mem v cap ≡ got s → length s < cap
  unfolding get_string
  get_string-fits mem v cap s h = ground arith

  member-fits :
      (mem : Bool) (payload name : Bytes) (cap : ℕ) (s : Bytes)
      → member json mem payload name cap ≡ some (got s)
      → length s < cap
  unfolding member
  member-fits mem payload name cap s h = elim (Option-cases (json_query json payload name)) [
    | inl e ↦ absurd (ground arith)
    | inr (v, e) ↦ get_string-fits mem v cap s (ground arith)
  ]

  take_nonce-Heard :
      (d : Delivery) (g : Registration)
      → action_of json d.payload ≡ some 0x1001
      → session_matches json d g ≡ true
      → Heard d g (take_nonce json d g)
  unfolding take_nonce
  take_nonce-Heard d g a m =
      elim (Option-cases (member json d.mem_value d.payload name_nonce nonce_max)) [
        | inl e ↦ rw e (inl refl)
        | inr (got s, e) ↦ rw e (
            inr (
              inr (
                record { is_challenge = a; belongs = session_matches-belongs d g m; brings = e },
                refl,
                member-fits d.mem_value d.payload name_nonce nonce_max s e,
              )))
        | inr (too_long n, e) ↦ rw e (inl refl)
        | inr (refused x, e) ↦ rw e (inl refl)
      ]

  unchanged : (g : Registration) → Same g g
  unchanged g = (refl, refl, refl)

  handle_challenge-Heard :
      (d : Delivery) (g : Registration)
      → action_of json d.payload ≡ some 0x1001
      → Heard d g (handle_challenge json d g)
  unfolding handle_challenge
  handle_challenge-Heard d g a =
      elim (Bool-cases (not g.in_progress || not (is_waiting_challenge g.phase))) [
        | inl e ↦ rw (handle_challenge, e) (inr (inl (unchanged g)))
        | inr e1 ↦ elim (Bool-cases (json_init json d.payload)) [
          | inr e ↦ rw (handle_challenge, e1, e) (inl refl)
          | inl e2 ↦ elim (Bool-cases (session_matches json d g)) [
            | inr e ↦ rw (handle_challenge, e1, e2, e) (inr (inl (unchanged g)))
            | inl e3 ↦ elim (Bool-cases (g.nonce_len == 0)) [
              | inr e ↦ rw (handle_challenge, e1, e2, e3, e) (inr (inl (unchanged g)))
              | inl e ↦ rw (handle_challenge, e1, e2, e3, e) (take_nonce-Heard d g a e3)
            ]
          ]
        ]
      ]

  -- What a message does while a result is waited for.
  abbrev pub Told : Delivery → Registration → Registration → Type 0
  Told d g g' = (g'.ok ≡ false) ⊎ (g'.ok ≡ g.ok) ⊎ Confirms g.session_id d

  take_status-Told :
      (d : Delivery) (g : Registration)
      → action_of json d.payload ≡ some 0x1003
      → session_matches json d g ≡ true
      → Told d g (take_status json d g)
  unfolding take_status
  take_status-Told d g a m =
      elim (Option-cases (member json d.mem_value d.payload name_status 16)) [
        | inl e ↦ rw e (inl refl)
        | inr (got s, e) ↦ elim (Bool-cases (length s == 2 && same_bytes s text_ok)) [
          | inr other ↦ rw (e, other) (inl refl)
          | inl good ↦
              let same : same_bytes s text_ok ≡ true = ground arith in
              inr (
                inr record {
                  is_result = a;
                  belongs = session_matches-belongs d g m;
                  says_ok = e ∙ ap (λ t. some (got t)) (same_bytes-same s text_ok same);
                })
        ]
        | inr (too_long n, e) ↦ rw e (inl refl)
        | inr (refused x, e) ↦ rw e (inl refl)
      ]

  handle_result-Told :
      (d : Delivery) (g : Registration)
      → action_of json d.payload ≡ some 0x1003
      → Told d g (handle_result json d g)
  unfolding handle_result
  handle_result-Told d g a =
      elim (Bool-cases (not g.in_progress || not (is_waiting_result g.phase))) [
        | inl e ↦ rw (handle_result, e) (inr (inl refl))
        | inr e1 ↦ elim (Bool-cases (json_init json d.payload)) [
          | inr e ↦ rw (handle_result, e1, e) (inl refl)
          | inl e2 ↦ elim (Bool-cases (session_matches json d g)) [
            | inr e ↦ rw (handle_result, e1, e2, e) (inr (inl refl))
            | inl e ↦ rw (handle_result, e1, e2, e) (take_status-Told d g a e)
          ]
        ]
      ]

  handle_result-Same :
      (d : Delivery) (g : Registration) → g.phase ≡ wait_challenge → Same g (handle_result json d g)
  unfolding handle_result
  handle_result-Same d g p = (ground arith, ground arith, ground arith)

  pub dispatch-Heard :
      (d : Delivery) (g : Registration) → g.phase ≡ wait_challenge → Heard d g (dispatch json d g)
  unfolding dispatch
  dispatch-Heard d g p = elim (Option-cases (action_of json d.payload)) [
    | inl e ↦ rw (dispatch, e) (inr (inl (unchanged g)))
    | inr (a, e) ↦ elim (Bool-cases (a == 0x1001)) [
      | inl c ↦
          rw (dispatch, e, c) (handle_challenge-Heard d g (e ∙ ap some ((==_iff a 0x1001).0 c)))
      | inr c ↦ elim (Bool-cases (a == 0x1003)) [
        | inr other ↦ rw (dispatch, e, c, other) (inr (inl (unchanged g)))
        | inl same_action ↦ rw (dispatch, e, c, same_action) (inr (inl (handle_result-Same d g p)))
      ]
    ]
  ]

  handle_challenge-ok :
      (d : Delivery) (g : Registration)
      → g.phase ≡ wait_result
      → (handle_challenge json d g).ok ≡ g.ok
  unfolding handle_challenge
  handle_challenge-ok d g p = ground arith

  pub dispatch-Told :
      (d : Delivery) (g : Registration) → g.phase ≡ wait_result → Told d g (dispatch json d g)
  unfolding dispatch
  dispatch-Told d g p = elim (Option-cases (action_of json d.payload)) [
    | inl e ↦ rw (dispatch, e) (inr (inl refl))
    | inr (a, e) ↦ elim (Bool-cases (a == 0x1001)) [
      | inl c ↦ rw (dispatch, e, c) (inr (inl (handle_challenge-ok d g p)))
      | inr c ↦ elim (Bool-cases (a == 0x1003)) [
        | inr other ↦ rw (dispatch, e, c, other) (inr (inl refl))
        | inl same_action ↦
            rw (dispatch, e, c, same_action)
              (handle_result-Told d g (e ∙ ap some ((==_iff a 0x1003).0 same_action)))
      ]
    ]
  ]
