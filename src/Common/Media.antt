-- ===== src/Common/Media.antt =====
-- The start codes of AVC and the frame headers of ADTS. The data is the list of its `data_size`
-- bytes.
pub mod Avc
pub mod Headers
pub mod Adts
pub mod AdtsHeader
use oven_web_rtctester.Prelude.{
  ℕ, zero, suc, ◌+◌, ◌-◌, ◌*◌, ◌/◌, ◌%◌, Bool, true, false, not, ◌&&◌, ◌||◌, Option, none, some,
  List, [], ◌∷◌, ltb, leb, ◌==◌, if◌then◌else◌, length, get_or, take, drop,
}
use oven_web_rtctester.Prelude.Bytes.{Bytes}
use oven_web_rtctester.Prelude.Outcome.{Outcome, done, fault, no_fuel}

-- the tests for the long and the short start code
abbrev pub is_long : ℕ → ℕ → ℕ → ℕ → Bool
is_long a b c d = a == 0 && b == 0 && c == 0 && d == 1

abbrev pub is_short : ℕ → ℕ → ℕ → Bool
is_short a b c = a == 0 && b == 0 && c == 1

-- the loop with `count` more indices, over the data from `index` on: the index and the size
unfoldable pub pattern_loop : ℕ → ℕ → Bytes → Option (ℕ × ℕ)
pattern_loop zero index data_ = none
pattern_loop (suc count) index [] = none
pattern_loop (suc count) index (a ∷ []) = none
pattern_loop (suc count) index (a ∷ b ∷ []) = none
pattern_loop (suc count) index (a ∷ b ∷ c ∷ []) = none
pattern_loop (suc count) index (a ∷ b ∷ c ∷ d ∷ data_) =
    let on = pattern_loop count (suc index) (b ∷ c ∷ d ∷ data_) in
    if is_long a b c d then some (index, 4) else if is_short a b c then some (index, 3) else on

unfoldable pub avc_nal_header_pattern_check : Bytes → Option (ℕ × ℕ)
avc_nal_header_pattern_check data_ = pattern_loop 128 0 data_

-- The sizes that `AvcNalHeaderSizeCheck` sets; it sets the last two for a key frame only.
pub record HeaderSize : Type 0 where
  pub header_size : ℕ
  pub parameter_sizes : Option (ℕ × ℕ)

abbrev pub third_code : ℕ → ℕ → ℕ → Option (ℕ × ℕ) → Option HeaderSize
third_code size01 sps size02 none = none
third_code size01 sps size02 (some (pps, size03)) =
    some record {
      header_size = size01 + sps + size02 + pps + size03;
      parameter_sizes = some (sps, pps);
    }

abbrev pub second_code : ℕ → Bytes → Option (ℕ × ℕ) → Option HeaderSize
second_code size01 data_ none = none
second_code size01 data_ (some (sps, size02)) =
    third_code size01 sps size02 (avc_nal_header_pattern_check (drop (sps + size02) data_))

abbrev pub first_code : Bool → Bytes → Option (ℕ × ℕ) → Option HeaderSize
first_code key_frame data_ none = none
first_code key_frame data_ (some (zero, size01)) =
    if key_frame
    then second_code size01 (drop size01 data_) (avc_nal_header_pattern_check (drop size01 data_))
    else some record { header_size = size01; parameter_sizes = none }
first_code key_frame data_ (some (suc index, size01)) = none

unfoldable pub avc_nal_header_size_check : Bool → Bytes → Option HeaderSize
avc_nal_header_size_check key_frame data_ =
    first_code key_frame data_ (avc_nal_header_pattern_check data_)

-- AVC_SPS_MAX_SIZE and AVC_PPS_MAX_SIZE
abbrev pub parameter_max_size : ℕ
parameter_max_size = 512

abbrev pub parse_third : Bytes → Bytes → Option (ℕ × ℕ) → Option (Bytes × Bytes)
parse_third sps data_ none = none
parse_third sps data_ (some (pps_size, size03)) = some (sps, take pps_size data_)

abbrev pub parse_second : Bytes → Option (ℕ × ℕ) → Option (Bytes × Bytes)
parse_second data_ none = none
parse_second data_ (some (sps_size, size02)) =
    parse_third (take sps_size data_) (drop (sps_size + size02) data_)
      (avc_nal_header_pattern_check (drop (sps_size + size02) data_))

abbrev pub parse_first : Bytes → Option (ℕ × ℕ) → Option (Bytes × Bytes)
parse_first data_ none = none
parse_first data_ (some (zero, size01)) =
    parse_second (drop size01 data_) (avc_nal_header_pattern_check (drop size01 data_))
parse_first data_ (some (suc index, size01)) = none

-- `AvcHeaderParsing`: the bytes that it copies
unfoldable pub avc_header_parsing : Bytes → Option (Bytes × Bytes)
avc_header_parsing data_ = parse_first data_ (avc_nal_header_pattern_check data_)

abbrev byte_at : Bytes → ℕ → ℕ
byte_at data_ i = get_or data_ i 0

unfoldable pub is_syncword : Bytes → Bool
is_syncword data_ = byte_at data_ 0 == 255 && byte_at data_ 1 / 16 == 15

unfoldable pub adts_frame_size : Bytes → ℕ
adts_frame_size data_ = byte_at data_ 3 % 4 * 2048 + byte_at data_ 4 * 8 + byte_at data_ 5 / 32

abbrev pub put_size : Bool → ℕ → Outcome (List ℕ) → Outcome (List ℕ)
put_size fits size (done sizes) = done (if fits then size ∷ sizes else sizes)
put_size fits size fault = fault
put_size fits size no_fuel = no_fuel

-- the loop over the data from `nPosition` on; a frame header is read up to its sixth byte
unfoldable pub adts_data_size_parsing : ℕ → ℕ → Bytes → Outcome (List ℕ)
adts_data_size_parsing zero header_size data_ = no_fuel
adts_data_size_parsing (suc fuel) header_size data_ =
    let size = adts_frame_size data_ in
    let rest = adts_data_size_parsing fuel header_size (drop size data_) in
    if leb (length data_) header_size
    then done []
    else if ltb (length data_) 6
    then (if is_syncword data_ then fault else done [])
    else if is_syncword data_
    then put_size (leb size (length data_)) size rest
    else done []
