-- ===== src/Common/Url/RoundTrip.antt =====
-- What the URL coder writes, the decoder reads.
use oven_web_rtctester.Prelude.{
  ℕ, ◌+◌, ◌*◌, ◌/◌, ◌%◌, ◌<◌, ◌≡◌, refl, ap, ◌∙◌, true, false, Option, none, some, [], ◌∷◌, ◌++◌,
  ◌==◌, lt→ltb, if-cases, length, All, arith,
}
use oven_web_rtctester.Prelude.Bytes.{Bytes}
use oven_web_rtctester.Common.Url.{
  is_plain, hex_digit, put_plain, put_hex, url_encode, hex_value, put_letter, url_decode,
}

plain_no_percent : (c : ℕ) → is_plain c ≡ true → (c == b'%') ≡ false
unfolding is_plain
plain_no_percent c plain = ground arith

hex_value-hex_digit : (n : ℕ) → n < 16 → hex_value (hex_digit n) ≡ n
unfolding hex_value hex_digit
hex_value-hex_digit n small = ground arith

hex_byte :
    (c : ℕ)
    → c < 128
    → (16 * hex_value (hex_digit (c / 16)) + hex_value (hex_digit (c % 16))) % 256 ≡ c
hex_byte c small =
    let high = hex_value-hex_digit (c / 16) (omega arith) in
    let low = hex_value-hex_digit (c % 16) (omega arith) in rw (high, low) (omega arith)

decode_letter :
    (c : ℕ) (text : Bytes)
    → (c == b'%') ≡ false
    → url_decode (c ∷ text) ≡ put_letter c (url_decode text)
unfolding url_decode
decode_letter c [] other = rw other refl
decode_letter c (d ∷ []) other = rw other refl
decode_letter c (d ∷ e ∷ text) other = rw (other, url_decode) refl

-- What the coder gives is read back, and its size is the size that is returned.
abbrev pub Decodes : Bytes → Option (Bytes × ℕ) → Type 0
Decodes text none = ⊥
Decodes text (some (out, size)) = (url_decode out ≡ some text) × (size ≡ length out)

plain-Decodes :
    (c : ℕ) (text : Bytes) (r : Option (Bytes × ℕ))
    → is_plain c ≡ true
    → Decodes text r
    → Decodes (c ∷ text) (put_plain c r)
plain-Decodes c text none plain d = d
plain-Decodes c text (some (out, size)) plain (read, same) =
    (decode_letter c out (plain_no_percent c plain) ∙ ap (put_letter c) read, omega arith)

hex-Decodes :
    (c : ℕ) (text : Bytes) (r : Option (Bytes × ℕ))
    → c < 128
    → Decodes text r
    → Decodes (c ∷ text) (put_hex c r)
unfolding url_decode
hex-Decodes c text none small d = d
hex-Decodes c text (some (out, size)) small (read, same) =
    (rw (hex_byte c small, read) refl, omega arith)

abbrev pub Ascii : Bytes → Type 0
Ascii = All (λ c. c < 128)

-- Every ASCII text is coded, the decoder gives it back, and the returned size is that of the output.
pub url_decode-url_encode : (text : Bytes) → Ascii text → Decodes text (url_encode text)
unfolding url_encode url_decode
url_decode-url_encode [] small = (refl, refl)
url_decode-url_encode (c ∷ text) (small, rest) =
    let ih = url_decode-url_encode text rest in
    if-cases (Decodes (c ∷ text)) (is_plain c)
      (λ plain. plain-Decodes c text (url_encode text) plain ih)
      (λ coded. rw (lt→ltb c 128 small) (hex-Decodes c text (url_encode text) small ih))

decode_end : (tail : Bytes) → length tail < 2 → url_decode (b'%' ∷ tail) ≡ none
unfolding url_decode
decode_end [] short = refl
decode_end (d ∷ []) short = refl
decode_end (d ∷ e ∷ tail) short = absurd (omega arith)

-- A percent sign with fewer than two letters behind it makes the decoder read behind the end of the
-- text, whatever stands in front of it without a percent sign.
pub url_decode_overrun :
    (front tail : Bytes)
    → All (λ c. (c == b'%') ≡ false) front
    → length tail < 2
    → url_decode (front ++ b'%' ∷ tail) ≡ none
url_decode_overrun [] tail plain short = decode_end tail short
url_decode_overrun (c ∷ front) tail (other, plain) short =
    decode_letter c (front ++ b'%' ∷ tail) other
    ∙ ap (put_letter c) (url_decode_overrun front tail plain short)
