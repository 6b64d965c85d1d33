-- ===== src/Common/Media/Adts.antt =====
-- The sizes of the ADTS frames of a piece of audio data.
use oven_web_rtctester.Prelude.{
  ℕ, zero, suc, ◌≤◌, ◌<◌, ◌≡◌, refl, ap, ◌∙◌, true, false, List, [], ◌∷◌, ◌++◌, map, ltb, leb,
  length, length-append, drop_append, get_or-append, All, arith,
}
use oven_web_rtctester.Prelude.Bytes.{Bytes}
use oven_web_rtctester.Prelude.Outcome.{done, no_fuel}
use oven_web_rtctester.Common.Media.{is_syncword, adts_frame_size, put_size, adts_data_size_parsing}

-- A frame with its header, whose size field is its length.
abbrev pub IsFrame : ℕ → Bytes → Type 0
IsFrame header_size frame =
    (header_size < length frame)
    × (is_syncword frame ≡ true)
    × (adts_frame_size frame ≡ length frame)

abbrev pub joined : List Bytes → Bytes
joined [] = []
joined (frame ∷ frames) = frame ++ joined frames

is_syncword-append :
    (frame rest : Bytes) → 6 ≤ length frame → is_syncword (frame ++ rest) ≡ is_syncword frame
unfolding is_syncword
is_syncword-append frame rest long =
    rw (get_or-append frame rest 0 0 (omega arith), get_or-append frame rest 1 0 (omega arith)) refl

adts_frame_size-append :
    (frame rest : Bytes)
    → 6 ≤ length frame
    → adts_frame_size (frame ++ rest) ≡ adts_frame_size frame
unfolding adts_frame_size
adts_frame_size-append frame rest long =
    rw
      (
        get_or-append frame rest 3 0 (omega arith),
        get_or-append frame rest 4 0 (omega arith),
        get_or-append frame rest 5 0 (omega arith),
      )
      refl

-- One frame in front of other data.
parse_frame :
    (fuel header_size : ℕ) (frame rest : Bytes)
    → 7 ≤ header_size
    → IsFrame header_size frame
    → adts_data_size_parsing (suc fuel) header_size (frame ++ rest)
      ≡ put_size true (length frame) (adts_data_size_parsing fuel header_size rest)
unfolding adts_data_size_parsing
parse_frame fuel header_size frame rest header (long, sync, size) =
    let total = length-append frame rest in
    let sync' = is_syncword-append frame rest (omega arith) ∙ sync in
    let size' = adts_frame_size-append frame rest (omega arith) ∙ size in
    let enough : leb (length (frame ++ rest)) header_size ≡ false = ground (arith, total) in
    let six : ltb (length (frame ++ rest)) 6 ≡ false = ground (arith, total) in
    let fits : leb (length frame) (length (frame ++ rest)) ≡ true = ground (arith, total) in
    rw (sync', size', enough, six, fits, drop_append (length frame) frame rest refl) refl

-- The sizes of frames that stand behind each other are their lengths, and one round for each frame
-- and one more is enough.
pub adts_data_size_parsing-joined :
    (frames : List Bytes) (fuel header_size : ℕ)
    → 7 ≤ header_size
    → All (IsFrame header_size) frames
    → length frames < fuel
    → adts_data_size_parsing fuel header_size (joined frames) ≡ done (map length frames)
unfolding adts_data_size_parsing
adts_data_size_parsing-joined frames zero header_size header all enough = absurd (omega arith)
adts_data_size_parsing-joined [] (suc fuel) header_size header all enough = ground arith
adts_data_size_parsing-joined (frame ∷ frames) (suc fuel) header_size header (frame_ok, all)
      enough =
    parse_frame fuel header_size frame (joined frames) header frame_ok
    ∙ ap (put_size true (length frame))
        (adts_data_size_parsing-joined frames fuel header_size header all (omega arith))

-- A frame that declares the size 0 keeps the loop where it is, whatever the number of rounds.
pub adts_data_size_parsing_forever :
    (fuel header_size : ℕ) (data_ : Bytes)
    → 7 ≤ header_size
    → header_size < length data_
    → is_syncword data_ ≡ true
    → adts_frame_size data_ ≡ 0
    → adts_data_size_parsing fuel header_size data_ ≡ no_fuel
unfolding adts_data_size_parsing
adts_data_size_parsing_forever zero header_size data_ header long sync size = refl
adts_data_size_parsing_forever (suc fuel) header_size data_ header long sync size =
    let enough : leb (length data_) header_size ≡ false = ground arith in
    let six : ltb (length data_) 6 ≡ false = ground arith in
    let again = adts_data_size_parsing_forever fuel header_size data_ header long sync size in
    rw (sync, size, enough, six, again) refl
