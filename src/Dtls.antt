-- ===== src/Dtls.antt =====
-- srcs/ome_stream/dtls_transport.h and srcs/ome_stream/dtls_transport.cpp: the state and the RTP
-- header; Dtls/Traffic has the counters and Dtls/Receive has `OnDataReceived`. Times are milliseconds, `now` is `time(nullptr)` in
-- seconds. The video and the audio fields of the class are two values of one record. A field
-- `next_sequence_number` is the source's last sequence number plus one, so its initial -1 is 0.
-- The counters are the patterns of their 32-bit integers. OpenSSL, which `_tls` calls, is a parameter
-- of `on_data_received`.
pub mod Traffic
pub mod Receive
pub mod Parsing
pub mod Loss
pub mod Collect
pub mod Demux
mod Tests
use oven_web_rtctester.Prelude.{
  ℕ, suc, ◌+◌, ◌-◌, ◌*◌, ◌/◌, ◌%◌, ◌^◌, Bool, true, false, not, ◌&&◌, Option, none, some, List, [],
  ◌∷◌, ◌++◌, ltb, leb, ◌==◌, if◌then◌else◌, length, get_or,
}
use oven_web_rtctester.Prelude.Int.{ℤ, to_int32}
use oven_web_rtctester.Prelude.Bytes.{Bytes}
use oven_web_rtctester.StreamManager.{StreamTrackType, StreamTrackInfo}

pub data RtpPacketType : Type 0 where
  video audio unknown : RtpPacketType

pub record RtpPacketInfo : Type 0 where
  pub data_size : ℕ
  pub packet_type : RtpPacketType
  pub sequence_number : ℕ
  pub timestamp : ℕ
  pub is_end_packet : Bool

pub record CollectData : Type 0 where
  pub duration : ℕ
  pub frame_count : ℕ
  pub packet_loss_count : ℕ
  pub latency : ℤ
  pub packet_count : ℕ

pub record Track : Type 0 where
  pub stream_started : Bool
  pub start_timestamp : ℕ
  pub start_time : ℕ
  pub collect_start_timestamp : ℕ
  pub collect_start_time : ℕ
  pub last_timestamp : ℕ
  pub last_time : ℕ
  pub next_sequence_number : ℕ
  pub collect_data : CollectData

pub data SslState : Type 0 where
  ssl_none ssl_wait ssl_connecting ssl_connected ssl_error ssl_closed : SslState

pub record Transport : Type 0 where
  pub video_track_info : StreamTrackInfo
  pub audio_track_info : StreamTrackInfo
  pub state : SslState
  pub packet_buffer : List Bytes
  pub start_time : ℕ
  pub stream_start_notify : Bool
  pub video_track : Track
  pub audio_track : Track
  pub timestamp_change_timestamp : ℕ
  pub timestamp_changed_time : ℕ

-- the track infos that the constructor's loop leaves, video first
unfoldable pub set_track_infos :
    List StreamTrackInfo → StreamTrackInfo × StreamTrackInfo → StreamTrackInfo × StreamTrackInfo
set_track_infos [] kept = kept
set_track_infos (info ∷ infos) (v, a) = elim (info.type) [
  | StreamTrackType.video ↦ set_track_infos infos (info, a)
  | StreamTrackType.audio ↦ set_track_infos infos (v, info)
  | StreamTrackType.application ↦ set_track_infos infos (v, a)
  | StreamTrackType.unknown ↦ set_track_infos infos (v, a)
]

abbrev pub byte : Bytes → ℕ → ℕ
byte bytes i = get_or bytes i 0

unfoldable pub is_dtls_packet : Bytes → Bool
is_dtls_packet bytes = leb 13 (length bytes) && (ltb 19 (byte bytes 0) && ltb (byte bytes 0) 64)

unfoldable pub is_rtp_packet : Bytes → Bool
is_rtp_packet bytes = leb 12 (length bytes) && byte bytes 0 / 64 == 2

abbrev pub packet_type_of : StreamTrackInfo → StreamTrackInfo → ℕ → RtpPacketType
packet_type_of v a payload_type =
    if payload_type == v.track_id
    then video
    else if payload_type == a.track_id
    then audio
    else unknown

-- `timestamp /= timescale / 1000`, of a track with a timescale of 1000 or more
abbrev pub to_ms : StreamTrackInfo → ℕ → ℕ
to_ms info timestamp =
    if leb 1000 (info.timescale) then timestamp / (info.timescale / 1000) else timestamp

abbrev pub finish_info :
    StreamTrackInfo → StreamTrackInfo → ℕ → RtpPacketInfo → RtpPacketType → RtpPacketInfo
finish_info v a marker p video = record p {
  timestamp = to_ms v (p.timestamp);
  is_end_packet = marker == 1;
}
finish_info v a marker p audio = record p {
  timestamp = to_ms a (p.timestamp);
  is_end_packet = true;
}
finish_info v a marker p unknown = p

-- It is called for a packet that `is_rtp_packet` accepts, so that every byte it reads is there.
unfoldable pub rtp_packet_parsing : StreamTrackInfo → StreamTrackInfo → Bytes → RtpPacketInfo
rtp_packet_parsing v a bytes =
    let kind = packet_type_of v a (byte bytes 1 % 128) in
    finish_info v a (byte bytes 1 / 128)
      (record {
        data_size = length bytes;
        packet_type = kind;
        sequence_number = (byte bytes 2 * 2 ^ 8 + byte bytes 3) % 2 ^ 16;
        timestamp =
            (byte bytes 4 * 2 ^ 24 + byte bytes 5 * 2 ^ 16 + byte bytes 6 * 2 ^ 8 + byte bytes 7)
            % 2 ^ 32;
        is_end_packet = false;
      })
      kind
