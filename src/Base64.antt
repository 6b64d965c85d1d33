-- ===== src/Base64.antt =====
-- srcs/common/network/protocol_object/web_socket_request_object.cpp: `IsBase64`, `Base64_Encode` and
-- `Base64Decode`. Bytes are numbers below 256; a mask and a shift by k bits are `%` and `/` by 2 ^ k,
-- and an assignment to a `uint8_t` is `% 256`.
pub mod RoundTrip
mod Tests
use oven_web_rtctester.Prelude.{
  ℕ, zero, suc, ◌+◌, ◌-◌, ◌*◌, ◌/◌, ◌%◌, Bool, true, false, not, ◌&&◌, ◌||◌, Option, none, some,
  List, [], ◌∷◌, ◌++◌, leb, ◌==◌, if◌then◌else◌, get_or, replicate,
}
use oven_web_rtctester.Prelude.Bytes.{Bytes, ascii}

abbrev pub base64_chars : Bytes
base64_chars = ascii "ABCDEFGHIJKLMNOPQRSTUVWXYZabcdefghijklmnopqrstuvwxyz0123456789+/"

-- `base64_chars[i]`, for an index below 64
pub char_of : ℕ → ℕ
char_of i = get_or base64_chars i 0

find_char : ℕ → Bytes → ℕ → Option ℕ
find_char c [] i = none
find_char c (x ∷ xs) i = if x == c then some i else find_char c xs (i + 1)

-- `base64_chars.find(c)` stored in a `uint8_t`: `npos` becomes 255
abbrev to_uint8 : Option ℕ → ℕ
to_uint8 none = 255
to_uint8 (some i) = i % 256

pub index_of : ℕ → ℕ
unfolding find_char
index_of c = to_uint8 (find_char c base64_chars 0)

abbrev between : ℕ → ℕ → ℕ → Bool
between lo hi c = leb lo c && leb c hi

pub is_base64 : ℕ → Bool
is_base64 c =
    (between b'0' b'9' c || between b'A' b'Z' c || between b'a' b'z' c) || c == b'+' || c == b'/'

-- `char_array_4` from `char_array_3`
abbrev pub sextets : ℕ → ℕ → ℕ → Bytes
sextets a b c =
    (a / 4 % 64)
    ∷ ((a % 4 * 16 + b / 16 % 16) % 256)
    ∷ ((b % 16 * 4 + c / 64 % 4) % 256)
    ∷ (c % 64)
    ∷ []

abbrev pub take_chars : ℕ → Bytes → Bytes
take_chars zero cs = []
take_chars (suc n) [] = []
take_chars (suc n) (c ∷ cs) = char_of c ∷ take_chars n cs

-- The loop's state is `char_array_3[0 .. i)`, in `group`, and `ret`. Behind the loop the group is
-- filled with zeros; i + 1 characters are written, and an `=` for each byte that was missing.
abbrev finish_group : Bytes → Bytes → Bytes
finish_group [] ret = ret
finish_group (a ∷ []) ret = ret ++ (take_chars 2 (sextets a 0 0) ++ replicate 2 b'=')
finish_group (a ∷ b ∷ _) ret = ret ++ (take_chars 3 (sextets a b 0) ++ replicate 1 b'=')

-- one byte more: the third one of a group writes four characters
abbrev step_group : Bytes → ℕ → Bytes → Bytes × Bytes
step_group [] x ret = (x ∷ [], ret)
step_group (a ∷ []) x ret = (a ∷ x ∷ [], ret)
step_group (a ∷ b ∷ _) x ret = ([], ret ++ take_chars 4 (sextets a b x))

encode_loop : Bytes → Bytes → Bytes → Bytes
encode_loop group ret [] = finish_group group ret
encode_loop group ret (x ∷ xs) =
    let (group', ret') = step_group group x ret in encode_loop group' ret' xs

unfoldable pub base64_encode : Bytes → Bytes
unfolding encode_loop char_of
base64_encode bytes = encode_loop [] [] bytes

-- `char_array_3` from `char_array_4`
abbrev pub octets : ℕ → ℕ → ℕ → ℕ → Bytes
octets a b c d =
    ((a * 4 + b / 16 % 4) % 256)
    ∷ ((b % 16 * 16 + c / 4 % 16) % 256)
    ∷ ((c % 4 * 64 + d) % 256)
    ∷ []

abbrev pub take_octets : ℕ → Bytes → Bytes
take_octets zero xs = []
take_octets (suc n) [] = []
take_octets (suc n) (x ∷ xs) = x ∷ take_octets n xs

-- Behind the loop `char_array_4` is filled with zeros, each entry is looked up, and i - 1 bytes are
-- written.
abbrev finish_chars : Bytes → Bytes → Bytes
finish_chars [] ret = ret
finish_chars (a ∷ []) ret = ret
finish_chars (a ∷ b ∷ []) ret =
    ret ++ take_octets 1 (octets (index_of a) (index_of b) (index_of 0) (index_of 0))
finish_chars (a ∷ b ∷ c ∷ _) ret =
    ret ++ take_octets 2 (octets (index_of a) (index_of b) (index_of c) (index_of 0))

abbrev step_chars : Bytes → ℕ → Bytes → Bytes × Bytes
step_chars [] x ret = (x ∷ [], ret)
step_chars (a ∷ []) x ret = (a ∷ x ∷ [], ret)
step_chars (a ∷ b ∷ []) x ret = (a ∷ b ∷ x ∷ [], ret)
step_chars (a ∷ b ∷ c ∷ _) x ret =
    ([], ret ++ octets (index_of a) (index_of b) (index_of c) (index_of x))

-- the loop ends at the end of the text, at `=`, and at a character that is not of the alphabet
decode_loop : Bytes → Bytes → Bytes → Bytes
decode_loop group ret [] = finish_chars group ret
decode_loop group ret (x ∷ xs) =
    let (group', ret') = step_chars group x ret in
    let rest = decode_loop group' ret' xs in
    if not (x == b'=') && is_base64 x then rest else finish_chars group ret

unfoldable pub base64_decode : Bytes → Bytes
unfolding decode_loop index_of is_base64
base64_decode text = decode_loop [] [] text
