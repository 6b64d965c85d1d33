-- ===== src/Dtls/Traffic.antt =====
-- srcs/ome_stream/dtls_transport.cpp: the counters of the two tracks and the report.
use oven_web_rtctester.Prelude.{
  ℕ, suc, ◌+◌, ◌-◌, ◌%◌, ◌^◌, Bool, true, not, ◌&&◌, Option, none, some, ltb, ◌==◌, if◌then◌else◌,
}
use oven_web_rtctester.Prelude.Int.{to_int32}
use oven_web_rtctester.Dtls.{RtpPacketInfo, CollectData, Track, Transport}

-- the first packet with a later timestamp, once more than 3 seconds have passed
abbrev pub starts : ℕ → ℕ → Track → RtpPacketInfo → Bool
starts now start t p =
    not (t.stream_started)
    && not (t.last_timestamp == 0)
    && ltb (t.last_timestamp) (p.timestamp)
    && ltb 3 (now - start)

abbrev pub started : RtpPacketInfo → ℕ → Track → Track
started p time t = record t {
  stream_started = true;
  start_timestamp = p.timestamp;
  start_time = time;
  collect_start_timestamp = p.timestamp;
  collect_start_time = time;
  last_timestamp = p.timestamp;
  last_time = time;
  next_sequence_number = suc (p.sequence_number);
}

abbrev pub waiting : RtpPacketInfo → ℕ → Track → Track
waiting p time t = record t { last_timestamp = p.timestamp; last_time = time }

abbrev pub first_time : ℕ → ℕ → ℕ
first_time now start = if start == 0 then now else start

-- `current_sequence_number`: behind the largest number, 0xffff is added
abbrev pub current_sequence_number : Track → RtpPacketInfo → ℕ
current_sequence_number t p =
    if ltb 65281 (t.next_sequence_number) && ltb (p.sequence_number) 61440
    then p.sequence_number + 65535
    else p.sequence_number

abbrev pub count_packet : Track → Track
count_packet t = record t {
  collect_data = record (t.collect_data) {
    packet_count = (t.collect_data.packet_count + 1) % 2 ^ 32;
  };
}

abbrev pub count_frame : Track → Track
count_frame t = record t {
  collect_data = record (t.collect_data) {
    frame_count = (t.collect_data.frame_count + 1) % 2 ^ 32;
  };
}

-- the loss is the distance from the number expected, nothing when the packet is not beyond it
abbrev pub count_loss : RtpPacketInfo → ℕ → Track → Track
count_loss p time t = record t {
  collect_data = record (t.collect_data) {
    packet_loss_count =
        (t.collect_data.packet_loss_count + (current_sequence_number t p - t.next_sequence_number))
        % 2 ^ 32;
  };
  next_sequence_number = suc (p.sequence_number);
  last_timestamp = p.timestamp;
  last_time = time;
}

unfoldable pub set_video_traffic : ℕ → RtpPacketInfo → ℕ → Transport → Transport
set_video_traffic now p time d =
    let v = d.video_track in
    if starts now (d.start_time) v p
    then record d { video_track = started p time v }
    else if not (v.stream_started)
    then record d { video_track = waiting p time v; start_time = first_time now (d.start_time) }
    else if ltb (v.last_timestamp) (p.timestamp)
    then record d {
      video_track = count_loss p time (count_frame (count_packet v));
      timestamp_change_timestamp = p.timestamp;
      timestamp_changed_time = time;
    }
    else if v.last_timestamp == p.timestamp
    then record d { video_track = count_loss p time (count_packet v) }
    else record d { video_track = count_packet v }

-- The packet that starts the audio is counted too: there is no `return` behind the start.
unfoldable pub set_audio_traffic : ℕ → RtpPacketInfo → ℕ → Transport → Transport
set_audio_traffic now p time d =
    let a =
      if starts now (d.start_time) (d.audio_track) p
      then started p time (d.audio_track)
      else d.audio_track in
    if not (a.stream_started)
    then record d { audio_track = waiting p time a; start_time = first_time now (d.start_time) }
    else if ltb (a.last_timestamp) (p.timestamp)
    then record d { audio_track = count_loss p time (count_frame (count_packet a)) }
    else record d { audio_track = count_packet a }

-- the difference as a `uint32_t`
abbrev pub sub_uint32 : ℕ → ℕ → ℕ
sub_uint32 a b = (a % 2 ^ 32 + (2 ^ 32 - b % 2 ^ 32)) % 2 ^ 32

-- `CollectData::Clear`, which keeps the duration
abbrev pub clear : CollectData → CollectData
clear c = record c {
  frame_count = 0;
  packet_loss_count = 0;
  latency = to_int32 0;
  packet_count = 0;
}

-- `_collect_data` with the duration, which is written before the checks
abbrev pub with_duration : ℕ → Track → Track
with_duration end_time t = record t {
  collect_data = record (t.collect_data) { duration = sub_uint32 end_time (t.collect_start_time) };
}

abbrev pub with_latency : ℕ → ℕ → Track → CollectData
with_latency end_time end_timestamp t = record (t.collect_data) {
  latency = to_int32 (
      sub_uint32 (sub_uint32 end_time (t.start_time))
        (sub_uint32 end_timestamp (t.start_timestamp)));
}

abbrev pub next_period : ℕ → ℕ → Track → Track
next_period end_time end_timestamp t = record t {
  collect_start_timestamp = end_timestamp;
  collect_start_time = end_time;
  collect_data = clear (t.collect_data);
}

unfoldable pub get_traffic_collect_data : Transport → Transport × Option (CollectData × CollectData)
get_traffic_collect_data d =
    let v = with_duration (d.timestamp_changed_time) (d.video_track) in
    let a = with_duration (d.audio_track.last_time) (d.audio_track) in
    if not (d.video_track.stream_started && d.audio_track.stream_started)
    then (d, none)
    else if ltb (v.collect_data.duration) 3000
    then (record d { video_track = v; audio_track = a }, none)
    else if ltb (a.collect_data.duration) 3000
    then (record d { video_track = v; audio_track = a }, none)
    else (
      record d {
        video_track = next_period (d.timestamp_changed_time) (d.timestamp_change_timestamp) v;
        audio_track = next_period (a.last_time) (a.last_timestamp) a;
      },
      some (
        with_latency (d.timestamp_changed_time) (d.timestamp_change_timestamp) v,
        with_latency (a.last_time) (a.last_timestamp) a,
      ),
    )
