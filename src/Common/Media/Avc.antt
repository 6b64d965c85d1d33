-- ===== src/Common/Media/Avc.antt =====
-- The parameter sets in front of a key frame.
use oven_web_rtctester.Prelude.{
  ℕ, zero, suc, ◌+◌, ◌<◌, ◌≡◌, refl, sym, ap, ◌∙◌, false, ◌&&◌, Option, some, [], ◌∷◌, ◌++◌, leb,
  ◌==◌, length, drop, length-append, drop_append, arith,
}
use mathlib.Core.List.{append_assoc}
use oven_web_rtctester.Prelude.Bytes.{Bytes}
use oven_web_rtctester.Common.Media.{is_long, is_short, pattern_loop, avc_nal_header_pattern_check}

-- The two start codes.
pub data StartCode : Type 0 where
  long short : StartCode

abbrev pub code_bytes : StartCode → Bytes
code_bytes long = 0 ∷ 0 ∷ 0 ∷ 1 ∷ []
code_bytes short = 0 ∷ 0 ∷ 1 ∷ []

-- A unit as the standard wants it: no two zeros with a byte of at most 1 behind them, and no zero at
-- its end.
abbrev pub IsUnit : Bytes → Type 0
IsUnit [] = Unit
IsUnit (a ∷ []) = (a == 0) ≡ false
IsUnit (a ∷ b ∷ []) = (b == 0) ≡ false
IsUnit (a ∷ b ∷ c ∷ rest) = ((a == 0 && b == 0 && leb c 1) ≡ false) × IsUnit (b ∷ c ∷ rest)

no_code :
    (a b c d : ℕ)
    → (a == 0 && b == 0 && leb c 1) ≡ false
    → (is_long a b c d ≡ false) × (is_short a b c ≡ false)
no_code a b c d h = (ground arith, ground arith)

-- one index on, where no start code stands
pattern_step :
    (count index : ℕ) (a b c d : ℕ) (rest : Bytes)
    → (a == 0 && b == 0 && leb c 1) ≡ false
    → pattern_loop (suc count) index (a ∷ b ∷ c ∷ d ∷ rest)
      ≡ pattern_loop count (suc index) (b ∷ c ∷ d ∷ rest)
unfolding pattern_loop
pattern_step count index a b c d rest h =
    let (not_long, not_short) = no_code a b c d h in rw (not_long, not_short) refl

moved :
    (index n : ℕ) (code : StartCode)
    → ◌≡◌ {A = Option (ℕ × ℕ)}
        (some (suc index + n, length (code_bytes code)))
        (some (index + suc n, length (code_bytes code)))
moved index n code = ap (λ i. some (i, length (code_bytes code))) (omega arith)

pattern_here :
    (code : StartCode) (count index : ℕ) (r : ℕ) (rest : Bytes)
    → pattern_loop (suc count) index (code_bytes code ++ r ∷ rest)
      ≡ some (index, length (code_bytes code))
unfolding pattern_loop
pattern_here long count index r rest = refl
pattern_here short count index r rest = refl

-- Behind a unit the next start code is found, if the loop comes that far.
pattern_loop-unit :
    (nal : Bytes) (code : StartCode) (count index : ℕ) (r : ℕ) (rest : Bytes)
    → IsUnit nal
    → length nal < count
    → pattern_loop count index (nal ++ (code_bytes code ++ r ∷ rest))
      ≡ some (index + length nal, length (code_bytes code))
pattern_loop-unit nal code zero index r rest ok room = absurd (omega arith)
pattern_loop-unit [] code (suc count) index r rest ok room =
    pattern_here code count index r rest
    ∙ ap (λ i. some (i, length (code_bytes code))) (omega arith)
pattern_loop-unit (a ∷ []) long (suc count) index r rest ok room =
    pattern_step count index a 0 0 0 (1 ∷ r ∷ rest) (ground arith)
    ∙ pattern_loop-unit [] long count (suc index) r rest tt (omega arith)
    ∙ moved index 0 long
pattern_loop-unit (a ∷ []) short (suc count) index r rest ok room =
    pattern_step count index a 0 0 1 (r ∷ rest) (ground arith)
    ∙ pattern_loop-unit [] short count (suc index) r rest tt (omega arith)
    ∙ moved index 0 short
pattern_loop-unit (a ∷ b ∷ []) long (suc count) index r rest ok room =
    pattern_step count index a b 0 0 (0 ∷ 1 ∷ r ∷ rest) (ground arith)
    ∙ pattern_loop-unit (b ∷ []) long count (suc index) r rest ok (omega arith)
    ∙ moved index 1 long
pattern_loop-unit (a ∷ b ∷ []) short (suc count) index r rest ok room =
    pattern_step count index a b 0 0 (1 ∷ r ∷ rest) (ground arith)
    ∙ pattern_loop-unit (b ∷ []) short count (suc index) r rest ok (omega arith)
    ∙ moved index 1 short
pattern_loop-unit (a ∷ b ∷ c ∷ []) long (suc count) index r rest (here, ok) room =
    pattern_step count index a b c 0 (0 ∷ 0 ∷ 1 ∷ r ∷ rest) here
    ∙ pattern_loop-unit (b ∷ c ∷ []) long count (suc index) r rest ok (omega arith)
    ∙ moved index 2 long
pattern_loop-unit (a ∷ b ∷ c ∷ []) short (suc count) index r rest (here, ok) room =
    pattern_step count index a b c 0 (0 ∷ 1 ∷ r ∷ rest) here
    ∙ pattern_loop-unit (b ∷ c ∷ []) short count (suc index) r rest ok (omega arith)
    ∙ moved index 2 short
pattern_loop-unit (a ∷ b ∷ c ∷ d ∷ nal) code (suc count) index r rest (here, ok) room =
    pattern_step count index a b c d (nal ++ (code_bytes code ++ r ∷ rest)) here
    ∙ pattern_loop-unit (b ∷ c ∷ d ∷ nal) code count (suc index) r rest ok (omega arith)
    ∙ moved index (suc (suc (suc (length nal)))) code

abbrev pub joined_units : StartCode → Bytes → StartCode → Bytes → StartCode → ℕ → Bytes → Bytes
joined_units one sps two pps three r rest =
    code_bytes one ++ (sps ++ (code_bytes two ++ (pps ++ (code_bytes three ++ r ∷ rest))))

-- what stands behind the first byte of a start code or of a unit and a start code
pub nonempty :
    (unit : Bytes) (code : StartCode) (tail : Bytes)
    → (r : ℕ) × (rest : Bytes) × (unit ++ (code_bytes code ++ tail) ≡ r ∷ rest)
nonempty [] long tail = (0, 0 ∷ 0 ∷ 1 ∷ tail, refl)
nonempty [] short tail = (0, 0 ∷ 1 ∷ tail, refl)
nonempty (a ∷ unit) code tail = (a, unit ++ (code_bytes code ++ tail), refl)

pub check_here :
    (code : StartCode) (tail : Bytes)
    → (r : ℕ) × (rest : Bytes) × (tail ≡ r ∷ rest)
    → avc_nal_header_pattern_check (code_bytes code ++ tail) ≡ some (0, length (code_bytes code))
unfolding avc_nal_header_pattern_check
check_here code tail (r, rest, e) = rw e (pattern_here code 127 0 r rest)

pub check_unit :
    (unit : Bytes) (code : StartCode) (tail : Bytes)
    → IsUnit unit
    → length unit < 128
    → (r : ℕ) × (rest : Bytes) × (tail ≡ r ∷ rest)
    → avc_nal_header_pattern_check (unit ++ (code_bytes code ++ tail))
      ≡ some (length unit, length (code_bytes code))
unfolding avc_nal_header_pattern_check
check_unit unit code tail ok small (r, rest, e) = rw e (
    pattern_loop-unit unit code 128 0 r rest ok small
    ∙ ap (λ i. some (i, length (code_bytes code))) (omega arith))

pub drop_unit :
    (unit : Bytes) (code : StartCode) (tail : Bytes)
    → drop (length unit + length (code_bytes code)) (unit ++ (code_bytes code ++ tail)) ≡ tail
drop_unit unit code tail =
    ap (drop (length unit + length (code_bytes code)))
      (sym (append_assoc unit (code_bytes code) tail))
    ∙ drop_append (length unit + length (code_bytes code)) (unit ++ code_bytes code) tail
        (length-append unit (code_bytes code))
