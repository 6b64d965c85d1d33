-- ===== src/Common/Url.antt =====
-- `UrlEncode` and `UrlDecode`. A text holds the letters in front of the terminating zero; `char` is
-- signed, so letters from 128 on are negative. The output buffer of the coder is cleared by its
-- caller, since `strncat` looks for its end. `none` is a write behind `hex` or a read behind the
-- terminating zero.
pub mod RoundTrip
use oven_web_rtctester.Prelude.{
  ℕ, ◌+◌, ◌-◌, ◌*◌, ◌/◌, ◌%◌, Bool, true, false, ◌&&◌, ◌||◌, Option, none, some, [], ◌∷◌, ltb, leb,
  ◌==◌, if◌then◌else◌,
}
use oven_web_rtctester.Prelude.Bytes.{Bytes}

-- the letters that stand for themselves
unfoldable pub is_plain : ℕ → Bool
is_plain c =
    (ltb 47 c && ltb c 57)
    || (ltb 64 c && ltb c 92)
    || (ltb 96 c && ltb c 123)
    || c == b'-'
    || c == b'.'
    || c == b'_'

-- a digit of `%02X`
unfoldable pub hex_digit : ℕ → ℕ
hex_digit n = if ltb n 10 then 48 + n else 55 + n

abbrev pub put_plain : ℕ → Option (Bytes × ℕ) → Option (Bytes × ℕ)
put_plain c none = none
put_plain c (some (out, size)) = some (c ∷ out, size + 1)

abbrev pub put_hex : ℕ → Option (Bytes × ℕ) → Option (Bytes × ℕ)
put_hex c none = none
put_hex c (some (out, size)) = some (b'%' ∷ hex_digit (c / 16) ∷ hex_digit (c % 16) ∷ out, size + 3)

-- the output and `nSize`; a negative letter has eight digits, which `hex` cannot hold
unfoldable pub url_encode : Bytes → Option (Bytes × ℕ)
url_encode [] = some ([], 0)
url_encode (c ∷ text) =
    let rest = url_encode text in
    if is_plain c then put_plain c rest else if ltb c 128 then put_hex c rest else none

-- `num`, modulo 256, for a letter behind a percent sign
unfoldable pub hex_value : ℕ → ℕ
hex_value c =
    if ltb c b':' || leb 128 c
    then (c + 208) % 256
    else if ltb b'@' c && ltb c b'['
    then c - 55
    else (c + 169) % 256

abbrev pub put_letter : ℕ → Option Bytes → Option Bytes
put_letter c none = none
put_letter c (some out) = some (c ∷ out)

unfoldable pub url_decode : Bytes → Option Bytes
url_decode [] = some []
url_decode (c ∷ []) = if c == b'%' then none else some (c ∷ [])
url_decode (c ∷ d ∷ []) = if c == b'%' then none else put_letter c (url_decode (d ∷ []))
url_decode (c ∷ d ∷ e ∷ text) = elim (c == b'%') [
  | true ↦ put_letter ((16 * hex_value d + hex_value e) % 256) (url_decode text)
  | false ↦ put_letter c (url_decode (d ∷ e ∷ text))
]
