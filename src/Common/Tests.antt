-- ===== src/Common/Tests.antt =====
-- Texts and media data of a few bytes.
use oven_web_rtctester.Prelude.{◌≡◌, refl, none, [], ◌∷◌, arith}
use oven_web_rtctester.Prelude.Bytes.{Bytes, ascii}
use oven_web_rtctester.Prelude.Outcome.{done, no_fuel}
use oven_web_rtctester.Common.Text.{tokenize, tokenize2, replace_string}
use oven_web_rtctester.Common.Text.Split.{split, tokenize-split, tokenize-tokenize2}
use oven_web_rtctester.Common.Text.Replace.{replace_string_forever}
use oven_web_rtctester.Common.Url.{url_decode}
use oven_web_rtctester.Common.Url.RoundTrip.{url_decode_overrun}

abbrev line : Bytes
line = ascii "a  bc "

tokenize-split_example :
    tokenize line (b' ' ∷ b';' ∷ []) ≡ done (ascii "a" ∷ [] ∷ ascii "bc" ∷ [] ∷ [])
unfolding split
tokenize-split_example = tokenize-split b'a' (ascii "  bc ") (b' ' ∷ b';' ∷ [])

tokenize-tokenize2_example : tokenize line (b' ' ∷ []) ≡ done (tokenize2 line [] b' ')
tokenize-tokenize2_example =
    tokenize-tokenize2 b'a' (ascii "  bc ") b' ' (refl, (refl, (refl, (refl, (refl, (refl, tt))))))

replace_string_forever_example : replace_string 1000 line [] (ascii "x") ≡ no_fuel
replace_string_forever_example = replace_string_forever 1000 line (ascii "x")

url_decode_overrun_example : url_decode (ascii "100%2") ≡ none
url_decode_overrun_example =
    url_decode_overrun (ascii "100") (ascii "2") (refl, (refl, (refl, tt))) (omega arith)
