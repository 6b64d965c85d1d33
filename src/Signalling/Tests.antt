-- ===== src/Signalling/Tests.antt =====
-- An offer with two media, read by a small library, and offers that arrive in frames.
use oven_web_rtctester.Prelude.{
  ℕ, zero, suc, ◌+◌, ◌*◌, ◌-◌, ◌≡◌, refl, Bool, true, false, Option, none, some, List, [], ◌∷◌,
  ◌++◌, if◌then◌else◌, length, replicate, take, drop, arith,
}
use oven_web_rtctester.Prelude.Bytes.{Bytes, ascii}
use oven_web_rtctester.Common.Text.Join.{join_with}
use oven_web_rtctester.Common.Text.Split.{NoZero}
use oven_web_rtctester.WebSocket.{text_frame, make_text_data, Socket}
use oven_web_rtctester.TcpObject.{TcpObject}
use oven_web_rtctester.TcpObject.Buffer.{receive_all}
use oven_web_rtctester.Wire.{socket_handler}
use oven_web_rtctester.Wire.Delivery.{Accepts, handed_over, receive_all-frames}
use oven_web_rtctester.Signalling.{
  SignallingServer, Reply, Library, JsonLibrary, equal_text, mline_pattern,
}
use oven_web_rtctester.Signalling.Offer.{getlines, drop_cr, on_recv_websocket_data}
use oven_web_rtctester.Signalling.Offer.Tracks.{media_lines}
use oven_web_rtctester.Signalling.Offer.Candidate.{Candidate, fields}
use oven_web_rtctester.Signalling.Offer.Answered.{IsOffer, Answers, on_recv_websocket_data-Answers}

data Tree : Type 0 where
  nothing : Tree
  string : Bytes → Tree
  array : Tree → Tree
  field : Bytes → Tree → Tree → Tree

abbrev member : Tree → Bytes → Tree
member nothing key = nothing
member (string text) key = nothing
member (array first) key = nothing
member (field name value rest) key = if equal_text name key then value else member rest key

abbrev first_of : Tree → Tree
first_of nothing = nothing
first_of (string text) = nothing
first_of (array first) = first
first_of (field name value rest) = nothing

abbrev is_nothing : Tree → Bool
is_nothing nothing = true
is_nothing (string text) = false
is_nothing (array first) = false
is_nothing (field name value rest) = false

abbrev is_list : Tree → Bool
is_list nothing = false
is_list (string text) = false
is_list (array first) = true
is_list (field name value rest) = false

abbrev is_fields : Tree → Bool
is_fields nothing = false
is_fields (string text) = false
is_fields (array first) = false
is_fields (field name value rest) = true

abbrev is_text : Tree → Bool
is_text nothing = false
is_text (string text) = true
is_text (array first) = false
is_text (field name value rest) = false

abbrev text_of : Tree → Bytes
text_of nothing = []
text_of (string text) = text
text_of (array first) = []
text_of (field name value rest) = []

abbrev line : Candidate
line = record {
  foundation = ascii "0";
  component = ascii "1";
  transport = ascii "UDP";
  priority = ascii "50";
  ip = ascii "10.0.0.2";
  port = ascii "10000";
  type = ascii "typ";
  more = ascii "host" ∷ [];
}

abbrev sdp : Bytes
sdp = ascii "v=0\r\nm=video 9\r\na=mid:x\r\nm=audio 9\r\n"

abbrev offered : Tree
unfolding join_with
offered =
    field (ascii "candidates")
      (array (field (ascii "candidate") (string (join_with b' ' (fields line))) nothing))
      (field (ascii "id") (string (ascii "7"))
        (field (ascii "sdp") (field (ascii "sdp") (string sdp) nothing) nothing))

abbrev json : JsonLibrary Tree
json = record {
  parse = λ text. some offered;
  member = member;
  first_element = first_of;
  is_null = is_nothing;
  is_array = is_list;
  is_object = is_fields;
  is_string = is_text;
  as_string = text_of;
}

abbrev decimal : ℕ → Bytes → ℕ
decimal n [] = n
decimal n (c ∷ text) = decimal (n * 10 + (c - 48)) text

abbrev library : Library
library = record {
  regex_search = λ pattern text.
      if equal_text pattern mline_pattern
      then some (text ∷ ascii "video" ∷ ascii "9" ∷ ascii "RTP" ∷ ascii "97" ∷ [])
      else none;
  inet_addr = length;
  strtol = decimal 0;
  strtoul = decimal 0;
}

abbrev fresh : SignallingServer
fresh = record {
  session_id = [];
  peer_ufrag = ascii "aB3x";
  mline_infos = [];
  current_mline_info = none;
  offer_ufrag = [];
  offer_pwd = [];
  offer_ice_option = [];
  candidate_ip_string = [];
  candidate_ip = 0;
  candidate_port = 0;
  candidate_offer_sdp = [];
}

abbrev is_offer : IsOffer json offered line sdp
unfolding join_with equal_text
is_offer = record {
  has_candidates = refl;
  candidates_are = refl;
  candidate_is = refl;
  has_id = refl;
  has_sdp = refl;
  sdp_is_object = refl;
  text_is_string = refl;
  text_is = refl;
}

on_recv_websocket_data-Answers_example :
    Answers library
      (ascii "42")
      line
      2
      (on_recv_websocket_data json library (ascii "42") (ascii "offer" ++ 0 ∷ []) text_frame fresh)
unfolding getlines drop_cr media_lines join_with equal_text
on_recv_websocket_data-Answers_example =
    on_recv_websocket_data-Answers json library (ascii "42") (ascii "offer") sdp offered line fresh
      (refl, (refl, (refl, (refl, (refl, tt))))) refl is_offer (ground arith)
      (omega arith, (omega arith, (omega arith, (omega arith, tt))))

-- What the object has heard, with what it has done about it.
abbrev Heard : Type 0
Heard = SignallingServer × List Reply

abbrev heard : List Reply → Option (SignallingServer × List Reply × Bool) → Heard → Heard × Bool
heard replies none before = (before, false)
heard replies (some (s, more, ok)) before = ((s, replies ++ more), ok)

-- `OnRecvWebsocketData` as the callback of the frames
abbrev signalled : Heard → Bytes → ℕ → Heard × Bool
signalled (s, replies) payload op_code =
    heard replies (on_recv_websocket_data json library (ascii "42") payload op_code s) (s, replies)

abbrev shakes : Heard → Bool → Heard × Bool
shakes h ok = (h, ok)

-- an offer is taken in whatever state
takes_offers :
    (h : Heard) (text : Bytes) → NoZero text → (signalled h (text ++ 0 ∷ []) text_frame).1 ≡ true
unfolding getlines drop_cr
takes_offers (s, replies) text no_zero =
    let answers =
      on_recv_websocket_data-Answers json library (ascii "42") text sdp offered line s no_zero refl
        is_offer (ground arith) (omega arith, (omega arith, (omega arith, (omega arith, tt)))) in
    rw answers.1 refl

letters : (n : ℕ) → NoZero (replicate n 65)
letters zero = tt
letters (suc n) = (refl, letters n)

abbrev connection : TcpObject
connection = record {
  is_closing = false;
  network_error = false;
  send_complete_close = false;
  max_send_data_size = 0;
  send_datas = [];
  rest_data = [];
}

abbrev socket : Socket Heard
socket = record { handshake_complete = true; app = (fresh, []) }

abbrev one : Bytes
one = replicate 126 65

abbrev two : Bytes
two = replicate 130 65

abbrev wire : Bytes
unfolding make_text_data
wire = make_text_data one [] ++ make_text_data two []

abbrev reads : List Bytes
unfolding make_text_data
reads = take 3 wire ∷ take 200 (drop 3 wire) ∷ drop 203 wire ∷ []

two_offers : Accepts signalled shakes (fresh, []) (one ∷ two ∷ [])
unfolding Accepts
two_offers =
    let h = (signalled (fresh, []) (one ++ 0 ∷ []) text_frame).0 in
    (takes_offers (fresh, []) one (letters 126), (takes_offers h two (letters 130), tt))

receive_all-frames_example :
    receive_all (socket_handler signalled shakes) reads (connection, socket) ≡ (
      connection,
      record {
        handshake_complete = true;
        app = handed_over signalled shakes (fresh, []) (one ∷ two ∷ []);
      },
    )
unfolding make_text_data
receive_all-frames_example =
    receive_all-frames signalled shakes reads connection socket (one ∷ two ∷ []) two_offers refl
      refl refl (omega arith, (omega arith, (omega arith, tt)))
      ((omega arith, omega arith), ((omega arith, omega arith), tt)) refl
