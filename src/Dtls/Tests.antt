-- ===== src/Dtls/Tests.antt =====
-- Tests and instances for the DTLS transport.
use oven_web_rtctester.Prelude.{
  ℕ, ◌+◌, ◌≡◌, refl, Bool, true, false, some, List, [], ◌∷◌, ◌==◌, arith, replicate,
}
use oven_web_rtctester.Prelude.Int.{pos}
use oven_web_rtctester.Prelude.Bytes.{Bytes}
use oven_web_rtctester.StreamManager.{StreamTrackType, h264, opus, StreamTrackInfo}
use oven_web_rtctester.Dtls.{
  CollectData, Track, Transport, ssl_connecting, ssl_connected, video, RtpPacketInfo, is_rtp_packet,
  is_dtls_packet,
}
use oven_web_rtctester.Dtls.Receive.{on_data_received, save_dtls_packet}
use oven_web_rtctester.Dtls.Traffic.{set_video_traffic, get_traffic_collect_data}
use oven_web_rtctester.Dtls.Parsing.{rtp_packet}
use oven_web_rtctester.Dtls.Loss.{Arrival, Counts, packets, receive_all, receive_all-Counts}
use oven_web_rtctester.Dtls.Collect.{
  Event, video_packet, collects, handle_all, reported, handle_all-packets,
}
use oven_web_rtctester.Dtls.Demux.{SameLink, on_data_received-media}

abbrev video_info : StreamTrackInfo
video_info = record {
  type = StreamTrackType.video;
  track_id = 96;
  codec_type = h264;
  timescale = 90000;
}

abbrev audio_info : StreamTrackInfo
audio_info = record {
  type = StreamTrackType.audio;
  track_id = 111;
  codec_type = opus;
  timescale = 48000;
}

abbrev no_data : CollectData
no_data = record {
  duration = 0;
  frame_count = 0;
  packet_loss_count = 0;
  latency = pos 0;
  packet_count = 0;
}

-- started at 10000 ms, with packet 65534
abbrev started_track : Track
started_track = record {
  stream_started = true;
  start_timestamp = 500;
  start_time = 10000;
  collect_start_timestamp = 500;
  collect_start_time = 10000;
  last_timestamp = 4500;
  last_time = 14000;
  next_sequence_number = 65535;
  collect_data = record no_data { packet_count = 7; packet_loss_count = 1 };
}

abbrev playing : Transport
playing = record {
  video_track_info = video_info;
  audio_track_info = audio_info;
  state = ssl_connected;
  packet_buffer = [];
  start_time = 6;
  stream_start_notify = false;
  video_track = started_track;
  audio_track = started_track;
  timestamp_change_timestamp = 4500;
  timestamp_changed_time = 14020;
}

abbrev video_info_at : ℕ → RtpPacketInfo
video_info_at timestamp = record {
  data_size = 1200;
  packet_type = video;
  sequence_number = 0;
  timestamp = timestamp;
  is_end_packet = false;
}

-- Packet 65535 is missing, then 65537 is missing at the wrap.
abbrev arrivals : List Arrival
arrivals =
    record { place = 65536; info = video_info_at 4500; time = 14030; now = 14 }
    ∷ record { place = 65538; info = video_info_at 4533; time = 14040; now = 14 }
    ∷ []

counted : packets (receive_all arrivals playing) ≡ 9
unfolding receive_all set_video_traffic
counted = refl

receive_all-Counts_example : Counts 65534 65538 2 playing (receive_all arrivals playing)
receive_all-Counts_example =
    receive_all-Counts 65534 4500 arrivals playing (refl, refl, refl)
      (omega arith, omega arith, omega arith, (omega arith, omega arith, omega arith, tt))
      (omega arith)

abbrev events : List Event
events = collects ∷ video_packet 14 (video_info_at 4600) 14050 ∷ collects ∷ []

handle_all-packets_example :
    packets (handle_all events playing).0 + reported (handle_all events playing).1 ≡ 8
handle_all-packets_example = handle_all-packets events playing refl (omega arith)

abbrev report : CollectData × CollectData
report = (
  record no_data { duration = 4020; packet_loss_count = 1; latency = pos 20; packet_count = 7 },
  record no_data { duration = 4000; packet_loss_count = 1; packet_count = 7 },
)

gives_report : (get_traffic_collect_data playing).1 ≡ some report
unfolding get_traffic_collect_data
gives_report = refl

-- a TLS that is connected after it has read two packets; its state is the number read
abbrev read_one : ℕ → List Bytes → ℕ × List Bytes
read_one n [] = (n, [])
read_one n (packet ∷ rest) = (n + 1, rest)

abbrev connect_two : ℕ → List Bytes → ℕ × List Bytes × Bool
connect_two n [] = (n, [], false)
connect_two n (packet ∷ rest) = (n + 1, rest, n == 1)

abbrev media_packet : Bytes
media_packet = rtp_packet 0 1 96 65535 420000 (0 ∷ 0 ∷ 0 ∷ 1 ∷ [])

abbrev handshake_packet : Bytes
handshake_packet = 22 ∷ replicate 20 0

abbrev connecting : Transport
connecting = record playing { state = ssl_connecting }

media_is_rtp : is_rtp_packet media_packet ≡ true
unfolding is_rtp_packet
media_is_rtp = refl

completes :
    (on_data_received connect_two read_one 14 handshake_packet 14050 (1, connecting)).0.1.state
    ≡ ssl_connected
unfolding on_data_received is_dtls_packet save_dtls_packet
completes = refl

on_data_received-media_example :
    let after = on_data_received connect_two read_one 14 media_packet 14050 (1, connecting) in
    (after.0.0 ≡ 1) × SameLink connecting (after.0.1)
on_data_received-media_example =
    on_data_received-media connect_two read_one 14 media_packet 14050 1 connecting media_is_rtp
