-- ===== src/MainObject/Collecting.antt =====
-- `DataCollectTimeProc` of srcs/main_object.cpp: the sums over the streams' reports, and what is kept
-- between two calls. The frame rate of a track is a double, of which `rate` gives the whole part that
-- is added; so is the bit rate of a stream, by its `kbps`. The average that is only logged is left
-- out, and a row is what the CSV file gets. Sums are of 32 bits.
use oven_web_rtctester.Prelude.{
  ℕ, ◌+◌, ◌*◌, ◌/◌, ◌%◌, ◌^◌, Bool, ◌&&◌, ◌||◌, List, [], ◌∷◌, ltb, ◌==◌, if◌then◌else◌, length,
}
use oven_web_rtctester.Prelude.Int.{ℤ, pos_part, neg_part, sub_ℕ}
use oven_web_rtctester.Dtls.{CollectData}

pub record TrafficCollectData : Type 0 where
  pub kbps : ℕ
  pub video_collect_data : CollectData
  pub audio_collect_data : CollectData

-- The sums of a call.
pub record Totals : Type 0 where
  pub total_network_bitrate : ℕ
  pub total_video_framerate : ℕ
  pub total_audio_framerate : ℕ
  pub total_video_latency_fail : ℕ
  pub total_audio_latency_fail : ℕ
  pub total_video_latency : ℕ
  pub total_audio_latency : ℕ
  pub total_packet_loss : ℕ
  pub total_video_packet_count : ℕ
  pub total_audio_packet_count : ℕ

abbrev pub no_totals : Totals
no_totals = record {
  total_network_bitrate = 0;
  total_video_framerate = 0;
  total_audio_framerate = 0;
  total_video_latency_fail = 0;
  total_audio_latency_fail = 0;
  total_video_latency = 0;
  total_audio_latency = 0;
  total_packet_loss = 0;
  total_video_packet_count = 0;
  total_audio_packet_count = 0;
}

-- What is kept: the start, and the static variables.
pub record Collecting : Type 0 where
  pub collect_start_time : ℕ
  pub max_loss : ℕ
  pub min_loss : ℕ
  pub total_loss : ℕ
  pub sample_count : ℕ

pub record Row : Type 0 where
  pub collect_time : ℤ
  pub stream_count : ℕ
  pub network_bitrate : ℕ
  pub video_framerate : ℕ
  pub audio_framerate : ℕ
  pub video_latency_fail : ℕ
  pub audio_latency_fail : ℕ
  pub video_latency : ℕ
  pub audio_latency : ℕ
  pub packet_loss_percent : ℕ
  pub packet_loss : ℕ

abbrev pub add_32 : ℕ → ℕ → ℕ
add_32 a b = (a + b) % 2 ^ 32

abbrev pub magnitude : ℤ → ℕ
magnitude latency = pos_part latency + neg_part latency

-- VIDEO_LATENCY_MARGEN and AUDIO_LATENCY_MARGEN
abbrev pub video_latency_margin : ℕ
video_latency_margin = 35

abbrev pub audio_latency_margin : ℕ
audio_latency_margin = 25

abbrev pub one_if_over : ℕ → CollectData → ℕ
one_if_over margin c = if ltb margin (magnitude c.latency) then 1 else 0

-- a loss is an `int32_t`
abbrev pub is_positive : ℕ → Bool
is_positive loss = ltb 0 loss && ltb loss (2 ^ 31)

abbrev pub loss_of : TrafficCollectData → ℕ
loss_of t =
    let video = t.video_collect_data.packet_loss_count in
    let audio = t.audio_collect_data.packet_loss_count in
    if is_positive video || is_positive audio then (video + audio) % 2 ^ 32 else 0

-- `max` and `min` of the standard library
abbrev pub max_of : ℕ → ℕ → ℕ
max_of a b = if ltb a b then b else a

abbrev pub min_of : ℕ → ℕ → ℕ
min_of a b = if ltb b a then b else a

abbrev pub percent_of : Totals → ℕ
percent_of s =
    let packets = add_32 s.total_video_packet_count s.total_audio_packet_count in
    if packets == 0 then 0 else s.total_packet_loss * 100 % 2 ^ 32 / packets

abbrev pub started_at : ℕ → Collecting → Collecting
started_at now c = if c.collect_start_time == 0 then record c { collect_start_time = now } else c

unfoldable pub row_of : ℕ → ℕ → Totals → Collecting → Collecting × Row
row_of now count s c =
    let percent = percent_of s in
    (
      record c {
        max_loss = max_of c.max_loss percent;
        min_loss = min_of c.min_loss percent;
        total_loss = add_32 c.total_loss s.total_packet_loss;
        sample_count = add_32 c.sample_count 1;
      },
      record {
        collect_time = sub_ℕ now c.collect_start_time;
        stream_count = count;
        network_bitrate = s.total_network_bitrate;
        video_framerate = s.total_video_framerate / count;
        audio_framerate = s.total_audio_framerate / count;
        video_latency_fail = s.total_video_latency_fail;
        audio_latency_fail = s.total_audio_latency_fail;
        video_latency = s.total_video_latency / count;
        audio_latency = s.total_audio_latency / count;
        packet_loss_percent = percent;
        packet_loss = s.total_packet_loss;
      },
    )

module _ (rate : ℕ → ℕ → ℕ) where
  abbrev pub frames_of : CollectData → ℕ
  frames_of c = if ltb 0 c.duration then rate c.frame_count c.duration else 0

  unfoldable pub add_traffic : TrafficCollectData → Totals → Totals
  add_traffic t s =
      let video = t.video_collect_data in
      let audio = t.audio_collect_data in
      record {
        total_network_bitrate = add_32 s.total_network_bitrate t.kbps;
        total_video_framerate = add_32 s.total_video_framerate (frames_of video);
        total_audio_framerate = add_32 s.total_audio_framerate (frames_of audio);
        total_video_latency_fail =
            add_32 s.total_video_latency_fail (one_if_over video_latency_margin video);
        total_audio_latency_fail =
            add_32 s.total_audio_latency_fail (one_if_over audio_latency_margin audio);
        total_video_latency = add_32 s.total_video_latency (magnitude video.latency);
        total_audio_latency = add_32 s.total_audio_latency (magnitude audio.latency);
        total_packet_loss = add_32 s.total_packet_loss (loss_of t);
        total_video_packet_count = add_32 s.total_video_packet_count video.packet_count;
        total_audio_packet_count = add_32 s.total_audio_packet_count audio.packet_count;
      }

  unfoldable pub add_traffics : List TrafficCollectData → Totals → Totals
  unfolding add_traffic
  add_traffics [] s = s
  add_traffics (t ∷ ts) s = add_traffics ts (add_traffic t s)

  unfoldable pub data_collect_time_proc :
      ℕ → List TrafficCollectData → Collecting → Collecting × List Row
  unfolding row_of
  data_collect_time_proc now [] c = (started_at now c, [])
  data_collect_time_proc now (t ∷ ts) c =
      let s = add_traffics (t ∷ ts) no_totals in
      let (c', row) = row_of now (length (t ∷ ts)) s (started_at now c) in (c', row ∷ [])
