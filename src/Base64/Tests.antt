-- ===== src/Base64/Tests.antt =====
-- Tests and instances for Base64.
use oven_web_rtctester.Prelude.{◌≡◌, refl, [], ◌∷◌, arith}
use oven_web_rtctester.Prelude.Bytes.{Bytes, ascii}
use oven_web_rtctester.Base64.{base64_encode, base64_decode}
use oven_web_rtctester.Base64.RoundTrip.{base64_decode-base64_encode}

encodes : base64_encode (ascii "any carnal pleas") ≡ ascii "YW55IGNhcm5hbCBwbGVhcw=="
unfolding base64_encode
encodes = refl

decodes : base64_decode (ascii "YW55IGNhcm5hbCBwbGVhc3U=") ≡ ascii "any carnal pleasu"
unfolding base64_decode
decodes = refl

abbrev some_bytes : Bytes
some_bytes = 0 ∷ 255 ∷ 128 ∷ 61 ∷ []

base64_decode-base64_encode_example : base64_decode (base64_encode some_bytes) ≡ some_bytes
base64_decode-base64_encode_example = base64_decode-base64_encode some_bytes (omega arith)
