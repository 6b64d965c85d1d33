-- ===== src/Http/Client/Decimal.antt =====
-- The number that `atoi` reads where `%d` has printed one, as
-- srcs/common/network/protocol_object/http_request_object.cpp does with the length of a content.
use mathlib.Core.List.{append_assoc}
use oven_web_rtctester.Prelude.{
  ℕ, zero, suc, ◌+◌, ◌*◌, ◌-◌, ◌/◌, ◌%◌, ◌^◌, ◌≤◌, ◌<◌, ◌≡◌, refl, ap, ◌∙◌, inl, inr, true, false,
  some, [], ◌∷◌, ◌++◌, ltb, Bool-cases, length, length-append, replicate, All, arith,
}
use oven_web_rtctester.Prelude.Int.{pos}
use oven_web_rtctester.Prelude.Bytes.{Bytes}
use oven_web_rtctester.Http.Answers.{decimal}
use oven_web_rtctester.Http.Client.{is_digit, decimal_digits, int_of, atoi, length_field}

abbrev pub IsDigit : ℕ → Type 0
IsDigit c = is_digit c ≡ true

-- what so many digits can print
abbrev bound : ℕ → ℕ
bound zero = 1
bound (suc fuel) = 10 * bound fuel

All-append_one : (x : Bytes) (c : ℕ) → All IsDigit x → IsDigit c → All IsDigit (x ++ c ∷ [])
All-append_one [] c all one = (one, tt)
All-append_one (d ∷ x) c (first, all) one = (first, All-append_one x c all one)

pub decimal-IsDigit : (fuel n : ℕ) → All IsDigit (decimal fuel n)
unfolding decimal
decimal-IsDigit zero n = tt
decimal-IsDigit (suc fuel) n = elim (Bool-cases (ltb n 10)) [
  | inl small ↦ rw small ((ground arith), tt)
  | inr large ↦ rw large (
      All-append_one (decimal fuel (n / 10)) (48 + n % 10) (decimal-IsDigit fuel (n / 10))
        (ground arith))
]

pub length-decimal : (fuel n : ℕ) → length (decimal fuel n) ≤ fuel
unfolding decimal
length-decimal zero n = omega arith
length-decimal (suc fuel) n = elim (Bool-cases (ltb n 10)) [
  | inl small ↦ rw small (omega arith)
  | inr large ↦ rw large (
      omega (
        arith,
        length-decimal fuel (n / 10),
        length-append (decimal fuel (n / 10)) ((48 + n % 10) ∷ []),
      ))
]

decimal_digits_step :
    (value d : ℕ) (rest : Bytes)
    → d < 10
    → decimal_digits value ((48 + d) ∷ rest) ≡ decimal_digits (value * 10 + d) rest
unfolding decimal_digits
decimal_digits_step value d rest small =
    let digit : is_digit (48 + d) ≡ true = ground arith in
    let same : value * 10 + (48 + d - 48) ≡ value * 10 + d = omega arith in rw digit (rw same refl)

decimal_digits-decimal :
    (fuel n : ℕ) (rest : Bytes)
    → n < bound fuel
    → decimal_digits 0 (decimal fuel n ++ rest) ≡ decimal_digits n rest
unfolding decimal
decimal_digits-decimal zero n rest small = ap (λ k. decimal_digits k rest) (omega (arith, small))
decimal_digits-decimal (suc fuel) n rest small = elim (Bool-cases (ltb n 10)) [
  | inl few ↦
      rw few (
        decimal_digits_step 0 n rest (ground arith) ∙ ap (λ k. decimal_digits k rest) (omega arith))
  | inr large ↦
      let front = decimal fuel (n / 10) in
      let digit = 48 + n % 10 in
      let whole : n / 10 * 10 + n % 10 ≡ n = omega arith in
      rw large (
        ap (decimal_digits 0) (append_assoc front (digit ∷ []) rest)
        ∙ decimal_digits-decimal fuel (n / 10) (digit ∷ rest) (omega (arith, small))
        ∙ decimal_digits_step (n / 10) (n % 10) rest (omega arith)
        ∙ ap (λ k. decimal_digits k rest) whole)
]

-- a text that begins with a digit
pub decimal_begins : (fuel n : ℕ) → (c : ℕ) × ((cs : Bytes) × (decimal (suc fuel) n ≡ c ∷ cs))
unfolding decimal
decimal_begins fuel n = elim (Bool-cases (ltb n 10)) [
  | inl small ↦ (48 + n, ([], rw small refl))
  | inr large ↦ rw large (begins (decimal fuel (n / 10)) (48 + n % 10))
]
  where
    begins : (x : Bytes) (d : ℕ) → (c : ℕ) × ((cs : Bytes) × ((x ++ d ∷ []) ≡ c ∷ cs))
    begins [] d = (d, ([], refl))
    begins (e ∷ x) d = (e, (x ++ d ∷ [], refl))

atoi_digit :
    (c : ℕ) (text : Bytes)
    → IsDigit c
    → atoi (c ∷ text) ≡ int_of false (decimal_digits 0 (c ∷ text))
unfolding atoi
atoi_digit c text digit = ground arith

atoi_digits :
    (x text : Bytes) (c : ℕ) (cs : Bytes)
    → x ≡ c ∷ cs
    → All IsDigit x
    → atoi (x ++ text) ≡ int_of false (decimal_digits 0 (x ++ text))
atoi_digits [] text c cs e all = absurd (cc)
atoi_digits (d ∷ x) text c cs e (digit, all) = atoi_digit d (x ++ text) digit

atoi_blank : (text : Bytes) → atoi (32 ∷ text) ≡ atoi text
unfolding atoi
atoi_blank text = refl

zeros_end : (n k : ℕ) → 0 < k → decimal_digits n (replicate k 0) ≡ some n
unfolding decimal_digits
zeros_end n zero h = absurd (omega arith)
zeros_end n (suc k) h = refl

-- A number below 2^31 that was printed behind a blank is read as itself.
pub atoi-decimal : (n : ℕ) → n < 2 ^ 31 → atoi (length_field (32 ∷ decimal 10 n)) ≡ some (pos n)
atoi-decimal n small =
    let digits = decimal 10 n in
    let zeros : Bytes = replicate (20 - length (32 ∷ digits)) 0 in
    let (c, (cs, begins)) = decimal_begins 9 n in
    let room = length-decimal 10 n in
    atoi_blank (digits ++ zeros)
    ∙ atoi_digits digits zeros c cs begins (decimal-IsDigit 10 n)
    ∙ ap (int_of false) (
        decimal_digits-decimal 10 n zeros (omega (arith, small))
        ∙ zeros_end n (20 - length (32 ∷ digits)) (omega (arith, room)))
    ∙ ground arith
