-- ===== src/Dtls/Loss.antt =====
-- The loss counter of the video against the numbers of the packets that were sent.
use oven_web_rtctester.Prelude.{
  ℕ, ◌+◌, ◌-◌, ◌/◌, ◌%◌, ◌^◌, ◌≤◌, ◌<◌, ◌≡◌, true, ◌&&◌, List, [], ◌∷◌, ltb, if◌then◌else◌, length,
  arith,
}
use oven_web_rtctester.Dtls.{RtpPacketInfo, Transport}
use oven_web_rtctester.Dtls.Traffic.{set_video_traffic}

-- A video packet as it arrives: its place in the stream, which the header gives up to a multiple of
-- 2 ^ 16, and what else the counters read.
pub record Arrival : Type 0 where
  pub place : ℕ
  pub info : RtpPacketInfo
  pub time : ℕ
  pub now : ℕ

abbrev pub packet_of : Arrival → RtpPacketInfo
packet_of p = record (p.info) { sequence_number = p.place % 2 ^ 16 }

-- In order: each packet is behind the one before by at most 255 places, and is not older.
abbrev pub InOrder : ℕ → ℕ → List Arrival → Type 0
InOrder place timestamp [] = Unit
InOrder place timestamp (p ∷ ps) =
    (place < p.place)
    × (p.place ≤ place + 255)
    × (timestamp ≤ p.info.timestamp)
    × InOrder (p.place) (p.info.timestamp) ps

abbrev pub last_place : ℕ → List Arrival → ℕ
last_place place [] = place
last_place place (p ∷ ps) = last_place (p.place) ps

unfoldable pub receive_all : List Arrival → Transport → Transport
receive_all [] d = d
receive_all (p ∷ ps) d = receive_all ps (set_video_traffic (p.now) (packet_of p) (p.time) d)

-- The video has started, and the last packet counted stood at this place with this timestamp.
abbrev pub StandsAt : ℕ → ℕ → Transport → Type 0
StandsAt place timestamp d =
    (d.video_track.stream_started ≡ true)
    × (d.video_track.next_sequence_number ≡ place % 2 ^ 16 + 1)
    × (d.video_track.last_timestamp ≡ timestamp)

abbrev pub packets : Transport → ℕ
packets d = d.video_track.collect_data.packet_count

abbrev pub losses : Transport → ℕ
losses d = d.video_track.collect_data.packet_loss_count

-- the loss that one packet is charged with
gap : ℕ → ℕ → ℕ
gap place next =
    if ltb 65281 (place % 2 ^ 16 + 1) && ltb (next % 2 ^ 16) 61440
    then next % 2 ^ 16 + 65535 - (place % 2 ^ 16 + 1)
    else next % 2 ^ 16 - (place % 2 ^ 16 + 1)

gap_bounds :
    (place next : ℕ)
    → place < next
    → next ≤ place + 255
    → (gap place next + 1 ≤ next - place)
      × (next - place ≤ gap place next + 1 + (next / 2 ^ 16 - place / 2 ^ 16))
unfolding gap
gap_bounds place next after near = ground arith

-- One packet more: it is counted, and charged with its gap.
receive_one :
    (place timestamp : ℕ) (p : Arrival) (d : Transport)
    → StandsAt place timestamp d
    → timestamp ≤ p.info.timestamp
    → let d' = set_video_traffic (p.now) (packet_of p) (p.time) d in
      StandsAt (p.place) (p.info.timestamp) d'
      × (packets d' ≡ (packets d + 1) % 2 ^ 32)
      × (losses d' ≡ (losses d + gap place (p.place)) % 2 ^ 32)
unfolding set_video_traffic gap
receive_one place timestamp p d (on, at, is) old = ground (arith, on, at, is, old)

last_place_le :
    (place timestamp : ℕ) (ps : List Arrival)
    → InOrder place timestamp ps
    → place ≤ last_place place ps
last_place_le place timestamp [] ordered = omega arith
last_place_le place timestamp (p ∷ ps) (after, near, old, ordered) =
    omega (arith, last_place_le (p.place) (p.info.timestamp) ps ordered)

pub record Counts (place last : ℕ) (count : ℕ) (d d' : Transport) : Type 0 where
  pub each : packets d' ≡ packets d + count
  pub most : packets d' + losses d' ≤ packets d + losses d + (last - place)
  pub least :
      packets d + losses d + (last - place)
      ≤ packets d' + losses d' + (last / 2 ^ 16 - place / 2 ^ 16)

-- Once the video has started, while packets arrive in order with no more than 254 missing in a row,
-- and while the counters stay below 2^31, each is counted once, and the
-- packets counted and the losses together span the places passed: at most one loss is missed where
-- the numbers wrap, and none is counted that did not happen.
pub receive_all-Counts :
    (place timestamp : ℕ) (ps : List Arrival) (d : Transport)
    → StandsAt place timestamp d
    → InOrder place timestamp ps
    → packets d + losses d + (last_place place ps - place) < 2 ^ 31
    → Counts place (last_place place ps) (length ps) d (receive_all ps d)
unfolding receive_all
receive_all-Counts place timestamp [] d stands ordered small = record {
  each = omega arith;
  most = omega arith;
  least = omega arith;
}
receive_all-Counts place timestamp (p ∷ ps) d stands (after, near, old, ordered) small =
    let d' = set_video_traffic (p.now) (packet_of p) (p.time) d in
    let (stands', counted, lost) = receive_one place timestamp p d stands old in
    let (lo, hi) = gap_bounds place (p.place) after near in
    let le = last_place_le (p.place) (p.info.timestamp) ps ordered in
    let rest =
      receive_all-Counts (p.place) (p.info.timestamp) ps d' stands' ordered (omega arith) in
    record {
      each = omega (arith, rest.each);
      most = omega (arith, rest.most);
      least = omega (arith, rest.least);
    }
