-- ===== src/OmeStream/Tests.antt =====
-- Tests and instances for the stream object.
use oven_web_rtctester.Prelude.{
  ℕ, ◌+◌, ◌≡◌, refl, Bool, true, false, Option, none, some, List, [], ◌∷◌, ◌++◌, replicate,
}
use oven_web_rtctester.Prelude.Int.{pos}
use oven_web_rtctester.Prelude.Bytes.{Bytes, ascii}
use oven_web_rtctester.StreamManager.{StreamTrackType, h264, opus}
use oven_web_rtctester.Dtls.{Track, Transport, ssl_none}
use oven_web_rtctester.OmeStream.{OmeStream, make_crc, make_binding_response_packet, stun_parsing}
use oven_web_rtctester.OmeStream.Binding.{request, first_post, stun_parsing-same_response}

-- the check value of CRC-32
crc_check : make_crc 0 (ascii "123456789") ≡ 3421780262
unfolding make_crc
crc_check = refl

abbrev fresh : OmeStream
fresh = record {
  offer_transaction_id = [];
  is_completed = false;
  bind_request_packet = none;
  bind_response_packet = none;
}

abbrev no_track : Track
no_track = record {
  stream_started = false;
  start_timestamp = 0;
  start_time = 0;
  collect_start_timestamp = 0;
  collect_start_time = 0;
  last_timestamp = 0;
  last_time = 0;
  next_sequence_number = 0;
  collect_data = record {
    duration = 0;
    frame_count = 0;
    packet_loss_count = 0;
    latency = pos 0;
    packet_count = 0;
  };
}

abbrev link : ℕ × Transport
link = (
  0,
  record {
    video_track_info = record {
      type = StreamTrackType.video;
      track_id = 96;
      codec_type = h264;
      timescale = 90000;
    };
    audio_track_info = record {
      type = StreamTrackType.audio;
      track_id = 111;
      codec_type = opus;
      timescale = 48000;
    };
    state = ssl_none;
    packet_buffer = [];
    start_time = 0;
    stream_start_notify = false;
    video_track = no_track;
    audio_track = no_track;
    timestamp_change_timestamp = 0;
    timestamp_changed_time = 0;
  },
)

-- a TLS whose state counts the calls and that is never connected
abbrev connect : ℕ → List Bytes → ℕ × List Bytes × Bool
connect n buffer = (n + 1, [], false)

abbrev read : ℕ → List Bytes → ℕ × List Bytes
read n buffer = (n + 1, [])

abbrev initialize : ℕ → Option ℕ
initialize n = some n

abbrev first_id : Bytes
first_id = ascii "abcdefghijkl"

abbrev second_id : Bytes
second_id = ascii "mnopqrstuvwx"

abbrev media_packet : Bytes
media_packet = 128 ∷ 96 ∷ replicate 20 1

stun_parsing-same_response_example :
    let parse = stun_parsing connect read initialize true true true in
    let (state, actions, accepted) = parse (request 0 0 (first_id ++ [])) (fresh, link) in
    let packet = make_binding_response_packet first_id in
    (first_post actions ≡ some packet)
    × (first_post (parse (request 0 0 (second_id ++ [])) state).1 ≡ some packet)
stun_parsing-same_response_example =
    stun_parsing-same_response connect read initialize true true true fresh link first_id second_id
      [] [] refl refl refl
