-- ===== src/OmeStream/Binding.antt =====
-- Histories of received packets: which packets reach the DTLS transport, which response is posted,
-- and how often the connection is reported complete.
use oven_web_rtctester.Prelude.{
  ℕ, suc, ◌+◌, ◌*◌, ◌≤◌, ◌<◌, ◌≡◌, refl, inl, inr, Bool, true, false, Option, none, some, List, [],
  ◌∷◌, ◌++◌, length, take, drop, take_append, length-append, Bool-cases, arith,
}
use oven_web_rtctester.Prelude.Bytes.{Bytes}
use oven_web_rtctester.Dtls.{Transport, is_rtp_packet}
use oven_web_rtctester.Dtls.Receive.{on_data_received}
use oven_web_rtctester.OmeStream.{
  OmeStream, State, Action, posts, stun_complete, make_binding_response_packet,
  send_binding_response, is_stun, stun_parsing, recv_binding_request, recv_handler,
}

-- A binding request with a correct cookie, the two bytes of its length field, and what follows.
abbrev pub request : ℕ → ℕ → Bytes → Bytes
request high low rest = 0 ∷ 1 ∷ high ∷ low ∷ 33 ∷ 18 ∷ 164 ∷ 66 ∷ rest

-- A request that declares 256 bytes or more is accepted with as few as 16 bytes for each 256.
pub is_stun_truncated :
    (high low : ℕ) (rest : Bytes)
    → 0 < high
    → high < 256
    → low < 256
    → length rest ≡ 12 + 16 * high + low
    → (is_stun (request high low rest) ≡ true)
      × (length (request high low rest) < 20 + 256 * high + low)
unfolding is_stun
is_stun_truncated high low rest some_high hh hl size = ground (arith, some_high, hh, hl, size)

media_not_stun : (bytes : Bytes) → is_rtp_packet bytes ≡ true → is_stun bytes ≡ false
unfolding is_stun is_rtp_packet
media_not_stun bytes rtp = ground (arith, rtp)

request-is_stun : (id rest : Bytes) → length id ≡ 12 → is_stun (request 0 0 (id ++ rest)) ≡ true
unfolding is_stun
request-is_stun id rest twelve = ground (arith, twelve, length-append id rest)

-- the first packet that a list of actions posts
abbrev pub first_post : List Action → Option Bytes
first_post [] = none
first_post (posts packet ∷ actions) = some packet
first_post (stun_complete ∷ actions) = first_post actions

abbrev pub completions : List Action → ℕ
completions [] = 0
completions (posts packet ∷ actions) = completions actions
completions (stun_complete ∷ actions) = suc (completions actions)

abbrev pub flag : Bool → ℕ
flag true = 1
flag false = 0

module _ {ℓ} {T : Type ℓ} (connect : T → List Bytes → T × List Bytes × Bool)
    (read : T → List Bytes → T × List Bytes) (initialize : T → Option T)
    (generated post_ok callback_ok : Bool) where
  -- A media packet is never taken for STUN: it goes to the DTLS transport as it came, nothing is
  -- posted, and the STUN state is as before.
  pub recv_handler-media :
      (now time : ℕ) (bytes : Bytes) (o : OmeStream) (link : T × Transport)
      → is_rtp_packet bytes ≡ true
      → let (link', started, accepted) = on_data_received connect read now bytes time link in
        recv_handler connect read initialize generated post_ok callback_ok now time bytes (o, link)
        ≡ ((o, link'), [], started)
  unfolding recv_handler stun_parsing
  recv_handler-media now time bytes o link rtp = rw (media_not_stun bytes rtp) refl

  abbrev stun : Bytes → State T → State T × List Action × Bool
  stun = stun_parsing connect read initialize generated post_ok callback_ok

  binding_response :
      (o : OmeStream) (link : T × Transport) (packet : Bytes)
      → o.bind_response_packet ≡ some packet
      → let after =
          recv_binding_request connect read initialize generated post_ok callback_ok (o, link) in
        (first_post (after.1) ≡ some packet) × (after.0.0.bind_response_packet ≡ some packet)
  unfolding recv_binding_request send_binding_response
  binding_response o link packet is = ground (arith, is)

  first_response :
      (o : OmeStream) (link : T × Transport)
      → o.bind_response_packet ≡ none
      → let after =
          recv_binding_request connect read initialize generated post_ok callback_ok (o, link) in
        let packet = make_binding_response_packet (o.offer_transaction_id) in
        (first_post (after.1) ≡ some packet) × (after.0.0.bind_response_packet ≡ some packet)
  unfolding recv_binding_request send_binding_response
  first_response o link is = ground (arith, is)

  -- Two binding requests in a row whose length field is zero, each with its own transaction id of
  -- twelve bytes, on an object that has made no response yet: the second one is answered with the
  -- packet made for the first, whatever the callbacks answered in between.
  pub stun_parsing-same_response :
      (o : OmeStream) (link : T × Transport) (id id' rest rest' : Bytes)
      → o.bind_response_packet ≡ none
      → length id ≡ 12
      → length id' ≡ 12
      → let parse = stun_parsing connect read initialize generated post_ok callback_ok in
        let (state, actions, accepted) = parse (request 0 0 (id ++ rest)) (o, link) in
        let packet = make_binding_response_packet id in
        (first_post actions ≡ some packet)
        × (first_post (parse (request 0 0 (id' ++ rest')) state).1 ≡ some packet)
  unfolding stun_parsing
  stun_parsing-same_response o link id id' rest rest' empty twelve twelve' =
      let o' = record o { offer_transaction_id = id } in
      let (posted, kept) = first_response o' link empty in
      let (s, state_link) =
        (recv_binding_request connect read initialize generated post_ok callback_ok (o', link)).0 in
      rw
        (
          request-is_stun id rest twelve,
          request-is_stun id' rest' twelve',
          take_append 12 id rest twelve,
          take_append 12 id' rest' twelve',
        )
        (
          posted,
          (binding_response (record s { offer_transaction_id = id' }) state_link
              (make_binding_response_packet id) kept).0,
        )

  completions_of_request :
      (o : OmeStream) (link : T × Transport)
      → let after =
          recv_binding_request connect read initialize generated post_ok callback_ok (o, link) in
        flag (o.is_completed) + completions (after.1) ≤ flag (after.0.0.is_completed)
  unfolding recv_binding_request send_binding_response
  completions_of_request o link = ground arith

  completions_of_stun :
      (bytes : Bytes) (o : OmeStream) (link : T × Transport)
      → let after = stun bytes (o, link) in
        flag (o.is_completed) + completions (after.1) ≤ flag (after.0.0.is_completed)
  unfolding stun_parsing
  completions_of_stun bytes o link = ground (
    arith,
    completions_of_request (record o { offer_transaction_id = take 12 (drop 8 bytes) }) link,
  )

  completions_of_packet :
      (now time : ℕ) (bytes : Bytes) (o : OmeStream) (link : T × Transport)
      → let after =
          recv_handler connect read initialize generated post_ok callback_ok now time bytes
            (o, link) in
        flag (o.is_completed) + completions (after.1) ≤ flag (after.0.0.is_completed)
  unfolding recv_handler
  completions_of_packet now time bytes o link = elim (Bool-cases (stun bytes (o, link)).2) [
    | inl handled ↦ rw handled (completions_of_stun bytes o link)
    | inr passed ↦ rw passed (completions_of_stun bytes o link)
  ]

  -- The completions reported while packets arrive, each with the clock and its time.
  pub completed : List (ℕ × Bytes × ℕ) → State T → ℕ
  completed [] state = 0
  completed ((now, bytes, time) ∷ rest) state =
      let after =
        recv_handler connect read initialize generated post_ok callback_ok now time bytes state in
      completions (after.1) + completed rest (after.0)

  -- However many packets come, the completion of STUN is reported at most once.
  pub completed_once :
      (arrivals : List (ℕ × Bytes × ℕ)) (o : OmeStream) (link : T × Transport)
      → completed arrivals (o, link) + flag (o.is_completed) ≤ 1
  unfolding completed
  completed_once [] o link = ground arith
  completed_once ((now, bytes, time) ∷ rest) o link =
      let (o', link') =
        (recv_handler connect read initialize generated post_ok callback_ok now time bytes
          (o, link)).0 in
      omega (arith, completions_of_packet now time bytes o link, completed_once rest o' link')
