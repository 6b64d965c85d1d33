-- ===== src/Signalling/Offer.antt =====
-- srcs/signalling_server/signalling_server_object.cpp: the messages, from the text to the answer.
-- `number` is what `RandomNumberString(18)` gives.
pub mod Candidate
pub mod Tracks
pub mod Answered
use oven_web_rtctester.Prelude.{
  ℕ, Bool, true, false, not, ◌||◌, Option, none, some, List, [], ◌∷◌, ◌++◌, map, ltb, ◌==◌,
  if◌then◌else◌, length, get_or, drop,
}
use oven_web_rtctester.Prelude.Bytes.{Bytes, ascii, find_sub}
use oven_web_rtctester.Common.Text.{tokenize2}
use oven_web_rtctester.WebSocket.{text_frame, make_text_data}
use oven_web_rtctester.StreamManager.{StreamTrackInfo}
use oven_web_rtctester.Signalling.{
  MlineInfo, SignallingServer, CompleteInfo, Reply, posts, json_data_fail, handshake_complete,
  Library, JsonLibrary, push_current, parsing_media_line,
}

-- the lines that `std::getline` gives; nothing behind the last newline is no line
unfoldable pub getlines : Bytes → Bytes → List Bytes
getlines line [] = if length line == 0 then [] else line ∷ []
getlines line (c ∷ text) =
    if c == b'\n' then line ∷ getlines [] text else getlines (line ++ c ∷ []) text

unfoldable pub drop_cr : Bytes → Bytes
drop_cr [] = []
drop_cr (c ∷ []) = if c == b'\r' then [] else c ∷ []
drop_cr (c ∷ d ∷ line) = c ∷ drop_cr (d ∷ line)

-- `line[0]` and `line.substr(2)`
abbrev pub type_and_content : Bytes → Option (ℕ × Bytes)
type_and_content [] = none
type_and_content (c ∷ []) = none
type_and_content (c ∷ d ∷ content) = some (c, content)

abbrev pub on_content :
    Library
    → (SignallingServer → Option SignallingServer)
    → Option (ℕ × Bytes)
    → SignallingServer
    → Option SignallingServer
on_content library rest none s = none
on_content library rest (some (type, content)) s = rest (parsing_media_line library type content s)

unfoldable pub parse_lines : Library → List Bytes → SignallingServer → Option SignallingServer
parse_lines library [] s = some s
parse_lines library (line ∷ lines) s =
    on_content library (parse_lines library lines) (type_and_content (drop_cr line)) s

abbrev pub push_last : Option SignallingServer → Option SignallingServer
push_last none = none
push_last (some s) =
    some (record s { mline_infos = push_current s.current_mline_info s.mline_infos })

unfoldable pub parsing_sdp : Library → Bytes → SignallingServer → Option SignallingServer
parsing_sdp library sdp s = push_last (parse_lines library (getlines [] sdp) s)

abbrev is_absent : Option ℕ → Bool
is_absent none = true
is_absent (some i) = false

unfoldable pub parsing_candidate : Library → Bytes → SignallingServer → SignallingServer × Bool
parsing_candidate library candidate s =
    let tokens = tokenize2 candidate [] b' ' in
    if ltb (length tokens) 7 || is_absent (find_sub (ascii "candidate:") (get_or tokens 0 []))
    then (s, false)
    else (
      record s {
        candidate_ip_string = get_or tokens 4 [];
        candidate_ip = library.inet_addr (get_or tokens 4 []);
        candidate_port = library.strtol (get_or tokens 5 []);
      },
      true,
    )

abbrev pub parsed : Option SignallingServer → Option (SignallingServer × Bool)
parsed none = none
parsed (some s) = some (s, true)

module _ {J : Type 0} (json : JsonLibrary J) where
  -- the id and the session description, once the candidate is read
  abbrev pub parsing_rest : Library → J → SignallingServer × Bool → Option (SignallingServer × Bool)
  parsing_rest library root (s, false) = some (s, false)
  parsing_rest library root (s, true) =
      let id = json.member root (ascii "id") in
      let sdp = json.member root (ascii "sdp") in
      let text = json.member sdp (ascii "sdp") in
      let named = record s { session_id = json.as_string id } in
      if json.is_null id
      then some (s, false)
      else if json.is_null sdp || not (json.is_object sdp)
      then some (named, false)
      else if not (json.is_string text)
      then some (named, false)
      else parsed (
          parsing_sdp library (json.as_string text)
            (record named { candidate_offer_sdp = json.as_string text }))

  unfoldable pub parsing_signalling_data :
      Library → J → SignallingServer → Option (SignallingServer × Bool)
  parsing_signalling_data library root s =
      let candidates = json.member root (ascii "candidates") in
      let first = json.member (json.first_element candidates) (ascii "candidate") in
      if json.is_null candidates || not (json.is_array candidates)
      then some (s, false)
      else parsing_rest library root (parsing_candidate library (json.as_string first) s)

abbrev crlf : Bytes
crlf = ascii "\\r\\n"

abbrev group_mids : List MlineInfo → Bytes
group_mids [] = []
group_mids (info ∷ infos) = ascii " " ++ (info.mid ++ group_mids infos)

abbrev media_text : SignallingServer → List MlineInfo → Bytes
media_text s [] = []
media_text s (info ∷ infos) =
    ascii "m="
    ++ info.mline
    ++ crlf
    ++ ascii "c=IN IP4 0.0.0.0"
    ++ crlf
    ++ ascii "a=rtcp:9 IN IP4 0.0.0.0"
    ++ crlf
    ++ ascii "a=ice-ufrag:"
    ++ s.peer_ufrag
    ++ crlf
    ++ ascii "a=ice-pwd:NlXsC9Z5zPpm457uU9k9i179"
    ++ crlf
    ++ ascii "a=ice-options:"
    ++ s.offer_ice_option
    ++ crlf
    ++ ascii
        "a=fingerprint:sha-256 04:9F:A8:18:8B:1B:52:3E:F2:08:49:E8:37:6E:B3:F5:83:8B:F0:21:EA:98:AC:1E:D4:31:5B:7A:D3:27:61:AE"
    ++ crlf
    ++ ascii "a=setup:active"
    ++ crlf
    ++ ascii "a=mid:"
    ++ info.mid
    ++ crlf
    ++ ascii "a=recvonly"
    ++ crlf
    ++ ascii "a=rtcp-mux"
    ++ crlf
    ++ ascii "a="
    ++ info.rtpmap_line
    ++ crlf
    ++ media_text s infos

unfoldable pub answer_text : Bytes → SignallingServer → Bytes
answer_text number s =
    ascii "{\r\n\"id\":"
    ++ s.session_id
    ++ ascii ",\r\n\"command\":\"answer\",\r\n\"sdp\":{\"type\":\"answer\",\r\n\"sdp\":\""
    ++ ascii "v=0"
    ++ crlf
    ++ ascii "o=- "
    ++ number
    ++ ascii " 2 IN IP4 127.0.0.1"
    ++ crlf
    ++ ascii "s=-"
    ++ crlf
    ++ ascii "t=0 0"
    ++ crlf
    ++ ascii "a=group:BUNDLE"
    ++ group_mids s.mline_infos
    ++ crlf
    ++ ascii "a=msid-semantic: WMS"
    ++ crlf
    ++ media_text s s.mline_infos
    ++ ascii "\"}\r\n}"

unfoldable pub send_answer_command : Bytes → SignallingServer → Reply
send_answer_command number s = posts (make_text_data (answer_text number s) [])

-- `OnHandshakeComplete` sends the request of an offer.
unfoldable pub answer_handshake : Bool → List Reply
answer_handshake result =
    if result
    then posts (make_text_data (ascii "{ \"command\":\"request_offer\" }") []) ∷ []
    else []

abbrev pub complete_info : SignallingServer → CompleteInfo
complete_info s = record {
  ome_stream_ip = s.candidate_ip;
  ome_stream_port = s.candidate_port;
  complete_peer_ufrag = s.peer_ufrag;
  complete_offer_ufrag = s.offer_ufrag;
  complete_offer_pwd = s.offer_pwd;
}

abbrev pub answer :
    Bytes → Option (SignallingServer × Bool) → Option (SignallingServer × List Reply × Bool)
answer number none = none
answer number (some (s, false)) = some (s, json_data_fail ∷ [], false)
answer number (some (s, true)) = some (
  record s { mline_infos = [] },
  send_answer_command number s
      ∷ handshake_complete (complete_info s)
          (map (λ (info : MlineInfo). info.track_info) s.mline_infos)
      ∷ [],
  true,
)

-- the payload up to its zero
unfoldable pub c_string : Bytes → Bytes
c_string [] = []
c_string (c ∷ payload) = if c == 0 then [] else c ∷ c_string payload

module _ {J : Type 0} (json : JsonLibrary J) (library : Library) where
  abbrev pub on_json :
      Bytes → SignallingServer → Option J → Option (SignallingServer × List Reply × Bool)
  on_json number s none = some (s, json_data_fail ∷ [], false)
  on_json number s (some root) = answer number (parsing_signalling_data json library root s)

  unfoldable pub on_recv_websocket_data :
      Bytes → Bytes → ℕ → SignallingServer → Option (SignallingServer × List Reply × Bool)
  on_recv_websocket_data number payload op_code s =
      if op_code == text_frame
      then on_json number s (json.parse (c_string payload))
      else some (s, [], true)
