-- ===== src/Common/Media/Headers.antt =====
-- The header of a key frame: what the two functions that read it give.
use oven_web_rtctester.Prelude.{
  ℕ, zero, suc, ◌+◌, ◌≤◌, ◌<◌, ◌≡◌, refl, true, Option, none, some, [], ◌∷◌, ◌++◌, if-cases, length,
  take, drop, length-take, take_append, drop_append, arith,
}
use oven_web_rtctester.Prelude.Bytes.{Bytes}
use oven_web_rtctester.Common.Media.{
  is_long, is_short, pattern_loop, avc_nal_header_pattern_check, avc_nal_header_size_check,
  parameter_max_size, parse_third, parse_second, parse_first, avc_header_parsing,
}
use oven_web_rtctester.Common.Media.Avc.{
  StartCode, code_bytes, IsUnit, joined_units, nonempty, check_here, check_unit, drop_unit,
}

-- A start code, a sequence and a picture parameter set with start codes behind them, and a byte of the
-- frame: the parser copies the two sets, and the header that the other function measures ends behind
-- the third start code.
pub avc_header_parsing-joined_units :
    (one two three : StartCode) (sps pps rest : Bytes) (r : ℕ)
    → IsUnit sps
    → IsUnit pps
    → length sps < 128
    → length pps < 128
    → (avc_header_parsing (joined_units one sps two pps three r rest) ≡ some (sps, pps))
      × (avc_nal_header_size_check true (joined_units one sps two pps three r rest)
          ≡ some record {
            header_size =
                length (code_bytes one)
                + length sps
                + length (code_bytes two)
                + length pps
                + length (code_bytes three);
            parameter_sizes = some (length sps, length pps);
          })
unfolding avc_header_parsing avc_nal_header_size_check
avc_header_parsing-joined_units one two three sps pps rest r sps_ok pps_ok sps_small pps_small =
    let tail3 = r ∷ rest in
    let tail2 = pps ++ (code_bytes three ++ tail3) in
    let tail1 = sps ++ (code_bytes two ++ tail2) in
    let check1 = check_here one tail1 (nonempty sps two tail2) in
    let drop1 = drop_append (length (code_bytes one)) (code_bytes one) tail1 refl in
    let check2 = check_unit sps two tail2 sps_ok sps_small (nonempty pps three tail3) in
    let drop2 = drop_unit sps two tail2 in
    let take2 = take_append (length sps) sps (code_bytes two ++ tail2) refl in
    let check3 = check_unit pps three tail3 pps_ok pps_small (r, rest, refl) in
    let take3 = take_append (length pps) pps (code_bytes three ++ tail3) refl in
    (
      rw (check1, drop1, check2, drop2, take2, check3, take3) refl,
      rw (check1, drop1, check2, drop2, check3) refl,
    )

-- The index that the search gives lies within its range.
abbrev Within : ℕ → Option (ℕ × ℕ) → Type 0
Within bound none = Unit
Within bound (some (index, size)) = index < bound

pattern_loop-Within :
    (count index : ℕ) (data_ : Bytes) (bound : ℕ)
    → index + count ≤ bound
    → Within bound (pattern_loop count index data_)
unfolding pattern_loop
pattern_loop-Within zero index data_ bound h = tt
pattern_loop-Within (suc count) index [] bound h = tt
pattern_loop-Within (suc count) index (a ∷ []) bound h = tt
pattern_loop-Within (suc count) index (a ∷ b ∷ []) bound h = tt
pattern_loop-Within (suc count) index (a ∷ b ∷ c ∷ []) bound h = tt
pattern_loop-Within (suc count) index (a ∷ b ∷ c ∷ d ∷ data_) bound h =
    if-cases (Within bound) (is_long a b c d) (λ at. omega arith)
      λ not_long.
        if-cases (Within bound) (is_short a b c) (λ at. omega arith)
          λ not_short. pattern_loop-Within count (suc index) (b ∷ c ∷ d ∷ data_) bound (omega arith)

check-Within : (data_ : Bytes) → Within 128 (avc_nal_header_pattern_check data_)
unfolding avc_nal_header_pattern_check
check-Within data_ = pattern_loop-Within 128 0 data_ 128 (omega arith)

-- The copies fit the arrays they are written to.
abbrev pub Fits : Option (Bytes × Bytes) → Type 0
Fits none = Unit
Fits (some (sps, pps)) = (length sps ≤ parameter_max_size) × (length pps ≤ parameter_max_size)

third-Fits :
    (sps data_ : Bytes) (found : Option (ℕ × ℕ))
    → length sps ≤ parameter_max_size
    → Within 128 found
    → Fits (parse_third sps data_ found)
third-Fits sps data_ none small within = tt
third-Fits sps data_ (some (size, code)) small within =
    (small, omega (arith, length-take size data_))

second-Fits :
    (data_ : Bytes) (found : Option (ℕ × ℕ)) → Within 128 found → Fits (parse_second data_ found)
second-Fits data_ none within = tt
second-Fits data_ (some (size, code)) within =
    third-Fits (take size data_) (drop (size + code) data_)
      (avc_nal_header_pattern_check (drop (size + code) data_))
      (omega (arith, length-take size data_)) (check-Within (drop (size + code) data_))

first-Fits : (data_ : Bytes) (found : Option (ℕ × ℕ)) → Fits (parse_first data_ found)
first-Fits data_ none = tt
first-Fits data_ (some (zero, code)) =
    second-Fits (drop code data_) (avc_nal_header_pattern_check (drop code data_))
      (check-Within (drop code data_))
first-Fits data_ (some (suc index, code)) = tt

-- Whatever the data, the two parameter sets that the parser copies fit their arrays of 512 bytes.
pub avc_header_parsing-Fits : (data_ : Bytes) → Fits (avc_header_parsing data_)
unfolding avc_header_parsing
avc_header_parsing-Fits data_ = first-Fits data_ (avc_nal_header_pattern_check data_)
