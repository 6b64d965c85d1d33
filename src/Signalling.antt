-- ===== src/Signalling.antt =====
-- srcs/signalling_server/signalling_server_object.cpp: the offer of the server and the answer to it.
-- jsoncpp, std::regex and the conversions of the C library are parameters. What the methods ask of
-- the connection and of the main object are values of `Reply`. The current media line is pushed as a
-- shared pointer and changed afterwards only once the list has been cleared, so copies do. `none` is
-- the exception that `substr` throws.
pub mod Offer
mod Tests
use oven_web_rtctester.Prelude.{
  ℕ, ◌+◌, Bool, true, false, not, ◌&&◌, ◌||◌, Option, none, some, List, [], ◌∷◌, ◌++◌, map, ltb,
  leb, ◌==◌, if◌then◌else◌, length, get_or, drop,
}
use oven_web_rtctester.Prelude.Bytes.{Bytes, ascii, find_sub}
use oven_web_rtctester.Common.Text.{tokenize2}
use oven_web_rtctester.StreamManager.{StreamTrackInfo, video, audio, unknown, vp8, h264, opus, aac}

pub record MlineInfo : Type 0 where
  pub mline : Bytes
  pub mid : Bytes
  pub rtpmap_line : Bytes
  pub track_info : StreamTrackInfo

pub record SignallingServer : Type 0 where
  pub session_id : Bytes
  pub peer_ufrag : Bytes
  pub mline_infos : List MlineInfo
  pub current_mline_info : Option MlineInfo
  pub offer_ufrag : Bytes
  pub offer_pwd : Bytes
  pub offer_ice_option : Bytes
  pub candidate_ip_string : Bytes
  pub candidate_ip : ℕ
  pub candidate_port : ℕ
  pub candidate_offer_sdp : Bytes

-- What the callback of a complete offer is told.
pub record CompleteInfo : Type 0 where
  pub ome_stream_ip : ℕ
  pub ome_stream_port : ℕ
  pub complete_peer_ufrag : Bytes
  pub complete_offer_ufrag : Bytes
  pub complete_offer_pwd : Bytes

pub data Reply : Type 0 where
  posts : Bytes → Reply
  json_data_fail : Reply
  handshake_complete : CompleteInfo → List StreamTrackInfo → Reply

-- The libraries: a search gives the whole match and the groups, and the conversions are `inet_addr`,
-- `strtol` and `strtoul`.
pub record Library : Type 0 where
  pub regex_search : Bytes → Bytes → Option (List Bytes)
  pub inet_addr : Bytes → ℕ
  pub strtol : Bytes → ℕ
  pub strtoul : Bytes → ℕ

-- What the code asks of jsoncpp; `first_element` is where `begin()` points.
pub record JsonLibrary (J : Type 0) : Type 0 where
  pub parse : Bytes → Option J
  pub member : J → Bytes → J
  pub first_element : J → J
  pub is_null : J → Bool
  pub is_array : J → Bool
  pub is_object : J → Bool
  pub is_string : J → Bool
  pub as_string : J → Bytes

abbrev group : List Bytes → ℕ → Bytes
group matches i = get_or matches i []

-- `std::make_shared<MlineInfo>()`: all zero
abbrev pub new_mline : MlineInfo
new_mline = record {
  mline = [];
  mid = [];
  rtpmap_line = [];
  track_info = record { type = video; track_id = 0; codec_type = vp8; timescale = 0 };
}

unfoldable pub equal_text : Bytes → Bytes → Bool
equal_text [] [] = true
equal_text [] (d ∷ ds) = false
equal_text (c ∷ cs) [] = false
equal_text (c ∷ cs) (d ∷ ds) = c == d && equal_text cs ds

abbrev is_empty : Bytes → Bool
is_empty [] = true
is_empty (c ∷ cs) = false

-- a search that succeeded with at least `size` matches
abbrev enough : ℕ → Option (List Bytes) → Option (List Bytes)
enough size none = none
enough size (some matches) = if leb size (length matches) then some matches else none

abbrev pub mline_pattern : Bytes
mline_pattern = ascii "^(\\S*) (\\S*) (\\S*) (\\d*)"

abbrev pub mid_pattern : Bytes
mid_pattern = ascii "^mid:(\\S*)"

abbrev pub rtpmap_pattern : Bytes
rtpmap_pattern = ascii "rtpmap:(\\d*) ([\\w\\-\\.]*)(?:\\s*\\/(\\d*)(?:\\s*\\/(\\S*))?)?"

abbrev pub ufrag_pattern : Bytes
ufrag_pattern = ascii "^ice-ufrag:(\\S*)"

abbrev pub pwd_pattern : Bytes
pwd_pattern = ascii "^ice-pwd:(\\S*)"

abbrev pub options_pattern : Bytes
options_pattern = ascii "^ice-options:(\\S*)"

-- the media line, whether it matches or not; the text of the match is set in both cases
abbrev with_type : Bytes → MlineInfo → MlineInfo
with_type kind info =
    let track = info.track_info in
    if equal_text kind (ascii "video")
    then record info { track_info = record track { type = video } }
    else if equal_text kind (ascii "audio")
    then record info { track_info = record track { type = audio } }
    else record info { track_info = record track { type = unknown } }

abbrev with_mline : Option (List Bytes) → MlineInfo → MlineInfo
with_mline none info = info
with_mline (some matches) info =
    let typed = if leb 5 (length matches) then with_type (group matches 1) info else info in
    record typed { mline = group matches 0 }

abbrev pub push_current : Option MlineInfo → List MlineInfo → List MlineInfo
push_current none infos = infos
push_current (some info) infos = infos ++ info ∷ []

unfoldable pub media_line : Library → Bytes → SignallingServer → SignallingServer
media_line library line s = record s {
  mline_infos = push_current s.current_mline_info s.mline_infos;
  current_mline_info = some (with_mline (library.regex_search mline_pattern line) new_mline);
}

abbrev with_codec : Bytes → StreamTrackInfo → StreamTrackInfo
with_codec name track =
    if equal_text name (ascii "VP8")
    then record track { codec_type = vp8 }
    else if equal_text name (ascii "H264")
    then record track { codec_type = h264 }
    else if equal_text name (ascii "OPUS")
    then record track { codec_type = opus }
    else if equal_text name (ascii "AAC")
    then record track { codec_type = aac }
    else track

abbrev with_rtpmap : Library → Bytes → List Bytes → MlineInfo → MlineInfo
with_rtpmap library line matches info =
    let track = record info.track_info { track_id = library.strtoul (group matches 1) } in
    record info {
      rtpmap_line = line;
      track_info = record (with_codec (group matches 2) track) {
        timescale = library.strtoul (group matches 3);
      };
    }

-- the lines of the ICE part, each of which is taken once
abbrev with_option : Option (List Bytes) → SignallingServer → SignallingServer
with_option none s = s
with_option (some matches) s =
    if is_empty s.offer_ice_option then record s { offer_ice_option = group matches 1 } else s

abbrev with_pwd : Library → Bytes → Option (List Bytes) → SignallingServer → SignallingServer
with_pwd library line none s = with_option (enough 2 (library.regex_search options_pattern line)) s
with_pwd library line (some matches) s =
    if is_empty s.offer_pwd
    then record s { offer_pwd = group matches 1 }
    else with_option (enough 2 (library.regex_search options_pattern line)) s

abbrev ice_line_pwd : Library → Bytes → SignallingServer → SignallingServer
ice_line_pwd library line s =
    with_pwd library line (enough 2 (library.regex_search pwd_pattern line)) s

abbrev with_ufrag : Library → Bytes → Option (List Bytes) → SignallingServer → SignallingServer
with_ufrag library line none s = ice_line_pwd library line s
with_ufrag library line (some matches) s =
    if is_empty s.offer_ufrag
    then record s { offer_ufrag = group matches 1 }
    else ice_line_pwd library line s

unfoldable pub ice_line : Library → Bytes → SignallingServer → SignallingServer
ice_line library line s =
    with_ufrag library line (enough 2 (library.regex_search ufrag_pattern line)) s

-- a line of the current media: the mid, and the first rtpmap
abbrev with_first_rtpmap :
    Library → Bytes → MlineInfo → Option (List Bytes) → SignallingServer → SignallingServer
with_first_rtpmap library line info none s = ice_line library line s
with_first_rtpmap library line info (some matches) s =
    if is_empty info.rtpmap_line
    then record s { current_mline_info = some (with_rtpmap library line matches info) }
    else ice_line library line s

abbrev with_mid :
    Library → Bytes → MlineInfo → Option (List Bytes) → SignallingServer → SignallingServer
with_mid library line info none s =
    with_first_rtpmap library line info (enough 4 (library.regex_search rtpmap_pattern line)) s
with_mid library line info (some matches) s = record s {
  current_mline_info = some (record info { mid = group matches 1 });
}

abbrev attribute_line : Library → Bytes → Option MlineInfo → SignallingServer → SignallingServer
attribute_line library line none s = ice_line library line s
attribute_line library line (some info) s =
    with_mid library line info (enough 2 (library.regex_search mid_pattern line)) s

unfoldable pub parsing_media_line : Library → ℕ → Bytes → SignallingServer → SignallingServer
parsing_media_line library type line s =
    if type == b'm'
    then media_line library line s
    else attribute_line library line s.current_mline_info s
