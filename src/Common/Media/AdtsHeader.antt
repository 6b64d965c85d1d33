-- ===== src/Common/Media/AdtsHeader.antt =====
-- The fields of an ADTS header and the table of the sampling frequencies.
use oven_web_rtctester.Prelude.{
  ℕ, suc, ◌+◌, ◌*◌, ◌/◌, ◌%◌, ◌<◌, ◌≡◌, refl, Bool, true, false, not, ◌||◌, Option, none, some,
  List, [], ◌∷◌, ltb, ◌==◌, ==_iff, if◌then◌else◌, length, get_or, arith,
}
use oven_web_rtctester.Prelude.Table.{tabulate, read_table}
use oven_web_rtctester.Prelude.Bytes.{Bytes}
use oven_web_rtctester.Common.Media.{is_syncword}

-- SampleRateTable and SamplingFrequencyTable, which are the same
abbrev pub sample_rate_table : List ℕ
sample_rate_table =
    96000 ∷ 88200 ∷ 64000 ∷ 48000 ∷ 44100 ∷ 32000 ∷ 24000 ∷ 22050 ∷ 16000 ∷ 12000 ∷ 11025 ∷ 8000 ∷ 0
    ∷ 0 ∷ 0 ∷ 0 ∷ []

-- the loop over the rest of the table
unfoldable pub sample_index_loop : ℕ → ℕ → List ℕ → ℕ
sample_index_loop samplerate index [] = 4
sample_index_loop samplerate index (rate ∷ rates) =
    let on = sample_index_loop samplerate (suc index) rates in
    if rate == samplerate then index else on

unfoldable pub get_audio_sample_index : ℕ → ℕ
get_audio_sample_index samplerate = sample_index_loop samplerate 0 sample_rate_table

pub record AdtsHeader : Type 0 where
  pub adts_header_size : ℕ
  pub sample_index : ℕ
  pub channel : ℕ
  pub frame_cnt : ℕ
  pub sampling_frequency : ℕ

abbrev pub byte_of : Bytes → ℕ → ℕ
byte_of data_ i = get_or data_ i 0

-- `AdtsHeaderParsing` with the number of frames and the sampling frequency; the other overload sets
-- the first three fields
unfoldable pub adts_header_parsing : Bytes → Option AdtsHeader
adts_header_parsing data_ =
    let index = byte_of data_ 2 / 4 % 16 in
    if ltb (length data_) 7 || not (is_syncword data_)
    then none
    else some record {
      adts_header_size = if byte_of data_ 1 % 2 == 1 then 7 else 9;
      sample_index = index;
      channel = byte_of data_ 3 / 64;
      frame_cnt = byte_of data_ 6 % 4;
      sampling_frequency = get_or sample_rate_table index 0;
    }

-- The header of the standard for a sampling index and a channel configuration, of three bits, with
-- the other fields of its bytes.
abbrev pub standard_header : ℕ → ℕ → ℕ → ℕ → ℕ → ℕ → ℕ → ℕ → Bytes → Bytes
standard_header absent profile index config low b4 b5 b6 rest =
    255
    ∷ (240 + absent)
    ∷ (profile * 64 + index * 4 + config / 4)
    ∷ (config % 4 * 64 + low)
    ∷ b4
    ∷ b5
    ∷ b6
    ∷ rest

unfoldable index_found : ℕ → Bool
index_found index = get_audio_sample_index (get_or sample_rate_table index 0) == index

table : tabulate index_found 12 ≡ true
unfolding tabulate index_found get_audio_sample_index sample_index_loop
table = refl

-- The header of a frame is read back, but for the channel configuration, of which the highest bit is
-- lost; the sampling frequency that it gives has the sampling index of the header.
pub adts_header_parsing-standard_header :
    (absent profile index config low b4 b5 b6 : ℕ) (rest : Bytes)
    → absent < 2
    → profile < 4
    → index < 12
    → config < 8
    → low < 64
    → (adts_header_parsing (standard_header absent profile index config low b4 b5 b6 rest)
        ≡ some record {
          adts_header_size = if absent == 1 then 7 else 9;
          sample_index = index;
          channel = config % 4;
          frame_cnt = b6 % 4;
          sampling_frequency = get_or sample_rate_table index 0;
        })
      × (get_audio_sample_index (get_or sample_rate_table index 0) ≡ index)
unfolding adts_header_parsing is_syncword index_found
adts_header_parsing-standard_header absent profile index config low b4 b5 b6 rest a p i c l =
    let sync : ((240 + absent) / 16 == 15) ≡ true = ground arith in
    let protection : ((240 + absent) % 2 == 1) ≡ (absent == 1) = ground arith in
    let index_is : (profile * 64 + index * 4 + config / 4) / 4 % 16 ≡ index = omega arith in
    let channel_is : (config % 4 * 64 + low) / 64 ≡ config % 4 = omega arith in
    let enough : ltb (length (standard_header absent profile index config low b4 b5 b6 rest)) 7
        ≡ false =
      ground arith in
    (
      rw (enough, sync, protection, index_is, channel_is) refl,
      (==_iff (get_audio_sample_index (get_or sample_rate_table index 0)) index).0
          (read_table index_found 12 index table i),
    )
