-- ===== src/Signalling/Offer/Answered.antt =====
-- A whole offer: what the connection posts and the main object is told.
use oven_web_rtctester.Prelude.{
  ℕ, ◌+◌, ◌≡◌, refl, ap, ◌∙◌, Bool, true, false, Option, none, some, List, [], ◌∷◌, ◌++◌, map,
  length, All, arith,
}
use oven_web_rtctester.Prelude.Bytes.{Bytes, ascii}
use oven_web_rtctester.Common.Text.Split.{NoZero}
use oven_web_rtctester.Common.Text.Join.{join_with}
use oven_web_rtctester.WebSocket.{text_frame}
use oven_web_rtctester.Signalling.{
  MlineInfo, SignallingServer, Reply, handshake_complete, Library, JsonLibrary,
}
use oven_web_rtctester.Signalling.Offer.{
  getlines, parsed, parsing_sdp, parsing_signalling_data, send_answer_command, complete_info,
  answer, c_string, on_recv_websocket_data,
}
use oven_web_rtctester.Signalling.Offer.Tracks.{
  medias, media_lines, HasContent, Tracks, parsing_sdp-Tracks,
}
use oven_web_rtctester.Signalling.Offer.Candidate.{
  Candidate, fields, IsCandidate, with_address, parsing_candidate-join_with,
}

c_string_terminated : (text : Bytes) → NoZero text → c_string (text ++ 0 ∷ []) ≡ text
unfolding c_string
c_string_terminated [] no_zero = refl
c_string_terminated (c ∷ text) (letter, no_zero) =
    rw letter (ap (◌∷◌ c) (c_string_terminated text no_zero))

length-map {ℓ κ} :
    {A : Type ℓ} {B : Type κ} (f : A → B) (xs : List A) → length (map f xs) ≡ length xs
length-map f [] = refl
length-map f (x ∷ xs) = omega (arith, length-map f xs)

module _ {J : Type 0} (json : JsonLibrary J) where
  -- What jsoncpp says of the text of an offer.
  pub record IsOffer (root : J) (c : Candidate) (sdp : Bytes) : Type 0 where
    pub has_candidates : json.is_null (json.member root (ascii "candidates")) ≡ false
    pub candidates_are : json.is_array (json.member root (ascii "candidates")) ≡ true
    pub candidate_is :
        json.as_string (
          json.member
            (json.first_element (json.member root (ascii "candidates")))
            (ascii "candidate"))
        ≡ join_with b' ' (fields c)
    pub has_id : json.is_null (json.member root (ascii "id")) ≡ false
    pub has_sdp : json.is_null (json.member root (ascii "sdp")) ≡ false
    pub sdp_is_object : json.is_object (json.member root (ascii "sdp")) ≡ true
    pub text_is_string :
        json.is_string (json.member (json.member root (ascii "sdp")) (ascii "sdp")) ≡ true
    pub text_is : json.as_string (json.member (json.member root (ascii "sdp")) (ascii "sdp")) ≡ sdp

-- The answer is posted, and then the main object is told the address of the candidate and as many
-- tracks as there are.
abbrev pub Answers :
    Library → Bytes → Candidate → ℕ → Option (SignallingServer × List Reply × Bool) → Type 0
Answers library number c n result =
    (s' : SignallingServer) × (result
      ≡ some (
        record s' { mline_infos = [] },
        send_answer_command number s'
            ∷ handshake_complete (complete_info s')
                (map (λ (info : MlineInfo). info.track_info) s'.mline_infos)
            ∷ [],
        true,
      ))
    × (s'.candidate_ip ≡ library.inet_addr c.ip)
    × (s'.candidate_port ≡ library.strtol c.port)
    × (length s'.mline_infos ≡ n)

answer-Answers :
    (library : Library) (number : Bytes) (c : Candidate) (s : SignallingServer) (n : ℕ)
    (r : Option SignallingServer)
    → s.candidate_ip ≡ library.inet_addr c.ip
    → s.candidate_port ≡ library.strtol c.port
    → Tracks s n r
    → Answers library number c n (answer number (parsed r))
answer-Answers library number c s n none ip port tracks = elim tracks [ ]
answer-Answers library number c s n (some s') ip port ((ip', port'), e) =
    (s', refl, ip' ∙ ip, port' ∙ port, e)

-- An offer, that is a text that parses to candidates, an id and a description, whose first candidate's
-- line is `candidate:` and seven or more fields without blanks and zeros,
-- whose text has no zero and whose description has lines of two letters or more is answered: one text
-- is posted, then the main object is told the candidate's address and one track for each media line
-- of the description, and one more for a media line that was still current. The list of media lines
-- is empty afterwards; nothing is said of the media line that is current then.
pub on_recv_websocket_data-Answers :
    {J : Type 0} (json : JsonLibrary J) (library : Library) (number text sdp : Bytes) (root : J)
    (c : Candidate) (s : SignallingServer)
    → NoZero text
    → json.parse text ≡ some root
    → IsOffer json root c sdp
    → IsCandidate c
    → All HasContent (getlines [] sdp)
    → Answers library number c
        (medias s + media_lines (getlines [] sdp))
        (on_recv_websocket_data json library number (text ++ 0 ∷ []) text_frame s)
unfolding on_recv_websocket_data parsing_signalling_data
on_recv_websocket_data-Answers json library number text sdp root c s no_zero parses offer ok all =
    let placed = with_address library c s in
    let named = record placed {
      session_id = json.as_string (json.member root (ascii "id"));
      candidate_offer_sdp = sdp;
    } in
    let reads = c_string_terminated text no_zero in
    let candidate = parsing_candidate-join_with library c s ok in
    rw
      (
        reads, parses, offer.has_candidates, offer.candidates_are, offer.candidate_is, candidate,
        offer.has_id, offer.has_sdp, offer.sdp_is_object, offer.text_is_string, offer.text_is,
      )
      (answer-Answers library number c named (medias s + media_lines (getlines [] sdp))
        (parsing_sdp library sdp named) refl refl (parsing_sdp-Tracks library sdp named all))
