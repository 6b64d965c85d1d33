-- ===== src/Dtls/Parsing.antt =====
-- The RTP header as RFC 3550 lays it out, and what `RtpPacketParsing` reads back from it.
use oven_web_rtctester.Prelude.{
  ℕ, ◌+◌, ◌*◌, ◌/◌, ◌%◌, ◌^◌, ◌<◌, ◌≡◌, ◌≢◌, refl, true, false, ◌∷◌, ◌==◌, length, arith,
}
use oven_web_rtctester.Prelude.Bytes.{Bytes}
use oven_web_rtctester.StreamManager.{StreamTrackInfo}
use oven_web_rtctester.Dtls.{video, audio, to_ms, packet_type_of, finish_info, rtp_packet_parsing}

-- Version 2, six bits of padding, extension and source count, the marker bit, the payload type,
-- both numbers in network order, and everything behind them.
abbrev pub rtp_packet : ℕ → ℕ → ℕ → ℕ → ℕ → Bytes → Bytes
rtp_packet flags marker payload_type number timestamp rest =
    (128 + flags)
    ∷ (marker * 128 + payload_type)
    ∷ (number / 256)
    ∷ (number % 256)
    ∷ (timestamp / 16777216)
    ∷ (timestamp / 65536 % 256)
    ∷ (timestamp / 256 % 256)
    ∷ (timestamp % 256)
    ∷ rest

word16 : (n : ℕ) → n < 2 ^ 16 → (n / 256 * 2 ^ 8 + n % 256) % 2 ^ 16 ≡ n
word16 n h = omega arith

word32 :
    (n : ℕ)
    → n < 2 ^ 32
    → (n / 16777216 * 2 ^ 24 + n / 65536 % 256 * 2 ^ 16 + n / 256 % 256 * 2 ^ 8 + n % 256) % 2 ^ 32
      ≡ n
word32 n h = omega arith

marker_bits : (m k : ℕ) → k < 128 → ((m * 128 + k) % 128 ≡ k) × ((m * 128 + k) / 128 ≡ m)
marker_bits m k h = (omega arith, omega arith)

parsing-rtp_packet :
    (v a : StreamTrackInfo) (flags marker kind number timestamp : ℕ) (rest : Bytes)
    → kind < 128
    → number < 2 ^ 16
    → timestamp < 2 ^ 32
    → rtp_packet_parsing v a (rtp_packet flags marker kind number timestamp rest)
      ≡ finish_info v a marker
          (record {
            data_size = length (rtp_packet flags marker kind number timestamp rest);
            packet_type = packet_type_of v a kind;
            sequence_number = number;
            timestamp = timestamp;
            is_end_packet = false;
          })
          (packet_type_of v a kind)
unfolding rtp_packet_parsing
parsing-rtp_packet v a flags marker kind number timestamp rest hk hn ht =
    let (low, high) = marker_bits marker kind hk in
    rw (word16 number hn, word32 timestamp ht, low, high) refl

-- With each number within its field, a packet of the video track, whatever its flags and the bytes behind its timestamp are, is read
-- back field by field: its number, its timestamp in the milliseconds of the track's timescale, and
-- the marker as the end of a frame.
pub rtp_packet_parsing-video :
    (v a : StreamTrackInfo) (flags marker kind number timestamp : ℕ) (rest : Bytes)
    → kind < 128
    → number < 2 ^ 16
    → timestamp < 2 ^ 32
    → kind ≡ v.track_id
    → rtp_packet_parsing v a (rtp_packet flags marker kind number timestamp rest) ≡ record {
      data_size = length (rtp_packet flags marker kind number timestamp rest);
      packet_type = video;
      sequence_number = number;
      timestamp = to_ms v timestamp;
      is_end_packet = marker == 1;
    }
rtp_packet_parsing-video v a flags marker kind number timestamp rest hk hn ht at =
    rw (parsing-rtp_packet v a flags marker kind number timestamp rest hk hn ht)
      (ground (arith, at))

-- With each number within its field, a packet of the audio track, when it is not also the video track, is read back field by field: its
-- number and its timestamp in the milliseconds of the track's timescale; each ends a frame.
pub rtp_packet_parsing-audio :
    (v a : StreamTrackInfo) (flags marker kind number timestamp : ℕ) (rest : Bytes)
    → kind < 128
    → number < 2 ^ 16
    → timestamp < 2 ^ 32
    → kind ≢ v.track_id
    → kind ≡ a.track_id
    → rtp_packet_parsing v a (rtp_packet flags marker kind number timestamp rest) ≡ record {
      data_size = length (rtp_packet flags marker kind number timestamp rest);
      packet_type = audio;
      sequence_number = number;
      timestamp = to_ms a timestamp;
      is_end_packet = true;
    }
rtp_packet_parsing-audio v a flags marker kind number timestamp rest hk hn ht ne at =
    rw (parsing-rtp_packet v a flags marker kind number timestamp rest hk hn ht)
      (ground (arith, ne, at))
