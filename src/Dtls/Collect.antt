-- ===== src/Dtls/Collect.antt =====
-- `GetTrafficCollectData` between the packets: what the reports add up to, and what they say.
use oven_web_rtctester.Prelude.{
  ℕ, suc, ◌+◌, ◌-◌, ◌^◌, ◌≤◌, ◌<◌, ◌≡◌, true, Option, none, some, List, [], ◌∷◌, arith,
}
use oven_web_rtctester.Prelude.Int.{sub_ℕ}
use oven_web_rtctester.Dtls.{RtpPacketInfo, CollectData, Transport}
use oven_web_rtctester.Dtls.Traffic.{set_video_traffic, set_audio_traffic, get_traffic_collect_data}
use oven_web_rtctester.Dtls.Loss.{packets}

abbrev pub Report : Type 0
Report = CollectData × CollectData

-- What reaches the counters: a packet of a track with the clock and its time, or a collection.
pub data Event : Type 0 where
  video_packet audio_packet : ℕ → RtpPacketInfo → ℕ → Event
  collects : Event

pub handle : Event → Transport → Transport × Option Report
handle (video_packet now p time) d = (set_video_traffic now p time d, none)
handle (audio_packet now p time) d = (set_audio_traffic now p time d, none)
handle collects d = get_traffic_collect_data d

abbrev pub add_report : Option Report → List Report → List Report
add_report none reports = reports
add_report (some report) reports = report ∷ reports

pub handle_all : List Event → Transport → Transport × List Report
handle_all [] d = (d, [])
handle_all (e ∷ es) d =
    let (d', report) = handle e d in
    let (d'', reports) = handle_all es d' in (d'', add_report report reports)

abbrev pub video_packets : List Event → ℕ
video_packets [] = 0
video_packets (video_packet now p time ∷ es) = suc (video_packets es)
video_packets (audio_packet now p time ∷ es) = video_packets es
video_packets (collects ∷ es) = video_packets es

abbrev pub reported : List Report → ℕ
reported [] = 0
reported ((v, a) ∷ rest) = v.packet_count + reported rest

abbrev is_video : Event → ℕ
is_video (video_packet now p time) = 1
is_video _ = 0

handle_counts :
    (e : Event) (d : Transport)
    → d.video_track.stream_started ≡ true
    → packets d + is_video e < 2 ^ 32
    → ((handle e d).0.video_track.stream_started ≡ true)
      × (packets (handle e d).0 + reported (add_report (handle e d).1 []) ≡ packets d + is_video e)
unfolding handle set_video_traffic set_audio_traffic get_traffic_collect_data
handle_counts (video_packet now p time) d on small = ground (arith, on)
handle_counts (audio_packet now p time) d on small = ground (arith, on)
handle_counts collects d on small = ground (arith, on)

reported-add :
    (report : Option Report) (reports : List Report)
    → reported (add_report report reports) ≡ reported (add_report report []) + reported reports
reported-add none reports = omega arith
reported-add (some (v, a)) reports = omega arith

video_packets-cons :
    (e : Event) (es : List Event) → video_packets (e ∷ es) ≡ is_video e + video_packets es
video_packets-cons (video_packet now p time) es = omega arith
video_packets-cons (audio_packet now p time) es = omega arith
video_packets-cons collects es = omega arith

-- Once the video has started, and while the counter does not overflow, every video packet is in
-- exactly one report or still in the counter, in whatever order packets and collections come, as long
-- as none of these calls runs while another one does: the code has no lock that would see to it.
pub handle_all-packets :
    (es : List Event) (d : Transport)
    → d.video_track.stream_started ≡ true
    → packets d + video_packets es < 2 ^ 32
    → packets (handle_all es d).0 + reported (handle_all es d).1 ≡ packets d + video_packets es
unfolding handle_all
handle_all-packets [] d on small = omega arith
handle_all-packets (e ∷ es) d on small =
    let (d', report) = handle e d in
    let split = video_packets-cons e es in
    let (on', one) = handle_counts e d on (omega (arith, split)) in
    omega (
      arith,
      split,
      one,
      reported-add report (handle_all es d').1,
      handle_all-packets es d' on' (omega (arith, one, split)),
    )

-- After a report, the same state has none to give: a new one waits for 3 seconds of stream.
pub get_traffic_collect_data-twice :
    (d : Transport) (report : Report)
    → (get_traffic_collect_data d).1 ≡ some report
    → (3000 ≤ report.0.duration)
      × (3000 ≤ report.1.duration)
      × ((get_traffic_collect_data (get_traffic_collect_data d).0).1 ≡ none)
unfolding get_traffic_collect_data
get_traffic_collect_data-twice d report h = ground (arith, h)

-- The latency reported for the video is the time that passed since the start, less the time by the
-- timestamps, with its sign: when both are below 2^31 and the clock and the timestamps went forward.
pub get_traffic_collect_data-latency :
    (d : Transport) (report : Report)
    → (get_traffic_collect_data d).1 ≡ some report
    → d.video_track.start_time ≤ d.timestamp_changed_time
    → d.timestamp_changed_time < d.video_track.start_time + 2 ^ 31
    → d.video_track.start_timestamp ≤ d.timestamp_change_timestamp
    → d.timestamp_change_timestamp < d.video_track.start_timestamp + 2 ^ 31
    → report.0.latency
      ≡ sub_ℕ
          (d.timestamp_changed_time - d.video_track.start_time)
          (d.timestamp_change_timestamp - d.video_track.start_timestamp)
unfolding get_traffic_collect_data
get_traffic_collect_data-latency d report h clock near stamp close = ground (arith, h)
