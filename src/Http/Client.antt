-- ===== src/Http/Client.antt =====
-- srcs/common/network/protocol_object/http_request_object.cpp: the HTTP object that asks, on the bytes
-- it has received. `RecvContent` is the derived class's; the content it is given is in the result.
-- A position in the data is what stands behind it. A fault is a read outside the data, an exception
-- or an overflow of an `int`; of `atoi` and `strtol` there is what the source uses.
pub mod Chunks
pub mod Decimal
pub mod Length
use oven_web_rtctester.Prelude.{
  ℕ, zero, suc, ◌+◌, ◌-◌, ◌*◌, ◌%◌, ◌^◌, Bool, true, false, not, ◌&&◌, ◌||◌, Option, none, some,
  List, [], ◌∷◌, ◌++◌, ltb, leb, ◌==◌, if◌then◌else◌, length, take, drop, replicate,
}
use oven_web_rtctester.Prelude.Int.{ℤ, pos, negsuc, minus_one, to_int32}
use oven_web_rtctester.Prelude.Bytes.{Bytes, ascii, starts_with, next_found, find_sub}
use oven_web_rtctester.Prelude.Outcome.{Outcome, done, no_fuel}
use oven_web_rtctester.WebSocket.{header_end}
use oven_web_rtctester.Http.{http_line_end, c_str}

-- the loop of `strnstr`, which looks at `count` positions
unfoldable pub strnstr_loop : ℕ → Bytes → Bytes → Option ℕ
unfolding starts_with
strnstr_loop zero needle text = none
strnstr_loop (suc count) needle [] = none
strnstr_loop (suc count) needle (c ∷ text) =
    if starts_with needle (c ∷ text) then some 0 else next_found (strnstr_loop count needle text)

-- for a needle that is not empty
unfoldable pub strnstr : Bytes → Bytes → ℕ → Option ℕ
unfolding c_str strnstr_loop
strnstr haystack needle len =
    let text = c_str (take len haystack) in strnstr_loop (length text - length needle) needle text

abbrev pub is_space : ℕ → Bool
is_space c = c == 32 || (leb 9 c && leb c 13)

abbrev pub is_digit : ℕ → Bool
is_digit c = leb 48 c && leb c 57

-- the digits of a text in memory; `none` is a read behind it
unfoldable pub decimal_digits : ℕ → Bytes → Option ℕ
decimal_digits value [] = none
decimal_digits value (c ∷ text) =
    let rest = decimal_digits (value * 10 + (c - 48)) text in
    if is_digit c then rest else some value

abbrev pub int_of : Bool → Option ℕ → Option ℤ
int_of negative none = none
int_of negative (some value) =
    if ltb value (2 ^ 31)
    then some (if negative && not (value == 0) then negsuc (value - 1) else pos value)
    else none

unfoldable pub atoi : Bytes → Option ℤ
unfolding decimal_digits
atoi [] = none
atoi (c ∷ text) =
    if is_space c
    then atoi text
    else if c == b'-'
    then int_of true (decimal_digits 0 text)
    else int_of false (decimal_digits 0 (if c == b'+' then text else c ∷ text))

-- the value of a letter as a digit of base 16
abbrev pub hex_of : ℕ → Option ℕ
hex_of c =
    if is_digit c
    then some (c - 48)
    else if leb 97 c && leb c 102
    then some (c - 87)
    else if leb 65 c && leb c 70
    then some (c - 55)
    else none

unfoldable pub hex_digits : ℕ → Bytes → ℕ
hex_digits value [] = value
hex_digits value (c ∷ text) = elim (hex_of c) [
  | none ↦ value
  | some digit ↦ hex_digits (value * 16 + digit) text
]

-- `strtol` with base 16, which stops at the largest and the smallest `long`, and its conversion to
-- `int`
abbrev pub from_long : Bool → ℕ → ℤ
from_long false value = to_int32 (if ltb value (2 ^ 63) then value else 2 ^ 63 - 1)
from_long true value = to_int32 (2 ^ 64 - (if ltb value (2 ^ 63) then value else 2 ^ 63))

abbrev pub has_hex : Bytes → Bool
has_hex [] = false
has_hex (d ∷ text) = elim (hex_of d) [ none ↦ false | some n ↦ true ]

abbrev pub unprefixed : Bytes → Bytes
unprefixed [] = []
unprefixed (z ∷ []) = z ∷ []
unprefixed (z ∷ x ∷ text) =
    if z == 48 && (x == 120 || x == 88) && has_hex text then text else z ∷ x ∷ text

unfoldable pub strtol_16 : Bytes → ℤ
unfolding hex_digits
strtol_16 [] = pos 0
strtol_16 (c ∷ text) =
    if is_space c
    then strtol_16 text
    else from_long (c == b'-')
        (hex_digits 0 (unprefixed (if c == b'-' || c == b'+' then text else c ∷ text)))

-- What a call makes of the data: the size to remove, with the content that was handed on.
abbrev pub Taking : Type 0
Taking = Outcome (ℤ × Option Bytes)

abbrev pub waits : Taking
waits = done (pos 0, none)

abbrev pub fails : Taking
fails = done (minus_one, none)

-- the content by its length, which `atoi` gave
abbrev pub take_content : Bytes → ℕ → Option ℤ → Taking
take_content text header_size none = Outcome.fault
take_content text header_size (some (negsuc n)) = Outcome.fault
take_content text header_size (some (pos n)) =
    if leb (2 ^ 31) (header_size + n)
    then Outcome.fault
    else if ltb (length text) (header_size + n)
    then waits
    else done (pos (header_size + n), some (take n (drop header_size text)))

-- `szContentSize`, of 20 bytes
abbrev pub length_field : Bytes → Bytes
length_field value = value ++ replicate (20 - length value) 0

abbrev pub with_separator : Bytes → ℕ → Bytes → ℕ → Option ℕ → Taking
with_separator text header_size field line_end none = waits
with_separator text header_size field line_end (some colon) =
    if leb line_end (suc colon) || ltb 20 (line_end - suc colon)
    then waits
    else take_content text header_size
        (atoi (length_field (take (line_end - suc colon) (drop (suc colon) field))))

abbrev pub with_line_end : Bytes → ℕ → Bytes → Option ℕ → Taking
with_line_end text header_size field none = waits
with_line_end text header_size field (some line_end) =
    with_separator text header_size field line_end (strnstr field (ascii ":") line_end)

-- one round of the loop over the chunks behind the size line; `rest` is the loop
abbrev pub put_chunk :
    (Bytes → Bytes → Outcome (Option Bytes)) → ℕ → Bytes → Bytes → ℤ → Outcome (Option Bytes)
put_chunk rest left content behind (negsuc n) = Outcome.fault
put_chunk rest left content behind (pos n) =
    if ltb left n
    then done none
    else if ltb (length behind) n
    then Outcome.fault
    else if n == 0
    then done (some content)
    else rest (content ++ take n behind) (drop n behind)

abbrev pub size_line :
    (Bytes → Bytes → Outcome (Option Bytes)) → ℕ → Bytes → Bytes → Option ℕ → Outcome (Option Bytes)
size_line rest left content text none = if ltb left 2 then done none else Outcome.fault
size_line rest left content text (some i) =
    put_chunk rest left content (drop (i + 2) text) (strtol_16 (take i text))

-- neither CR first nor LF second; the second letter is read only if the first is no CR
abbrev pub is_no_line_end : Bytes → Option Bool
is_no_line_end [] = none
is_no_line_end (c ∷ []) = if c == 13 then some false else none
is_no_line_end (c ∷ d ∷ text) = some (not (c == 13) && not (d == 10))

-- the content of the chunks, or none for -1
unfoldable pub chunk_loop : ℕ → Bytes → Bytes → Outcome (Option Bytes)
unfolding strtol_16
chunk_loop zero content text = no_fuel
chunk_loop (suc fuel) content [] = done (some content)
chunk_loop (suc fuel) content (c ∷ text) = elim (is_no_line_end (c ∷ text)) [
  | none ↦ Outcome.fault
  | some true ↦ done none
  | some false ↦
      let behind = drop 2 (c ∷ text) in
      size_line (chunk_loop fuel) (suc (length text)) content behind (find_sub http_line_end behind)
]

abbrev pub with_chunks : ℕ → Outcome (Option Bytes) → Taking
with_chunks size (done none) = fails
with_chunks size (done (some content)) = done (pos size, some content)
with_chunks size Outcome.fault = Outcome.fault
with_chunks size no_fuel = no_fuel

-- the end of the last chunk
abbrev pub last_chunk : Bytes
last_chunk = 13 ∷ 10 ∷ 48 ∷ 13 ∷ 10 ∷ 13 ∷ 10 ∷ []

abbrev pub take_chunks : Bytes → ℕ → Taking
take_chunks text header_size =
    if ltb (length text) 7
    then Outcome.fault
    else if starts_with last_chunk (drop (length text - 7) text)
    then with_chunks (length text) (chunk_loop (suc (length text)) [] (drop (header_size - 2) text))
    else waits

abbrev pub with_length : Bytes → ℕ → Option ℕ → Taking
with_length text header_size none = take_chunks text header_size
with_length text header_size (some start) =
    let field = drop start text in
    with_line_end text header_size field (find_sub http_line_end (c_str field))

abbrev pub with_header : Bytes → Option ℕ → Taking
with_header text none = waits
with_header text (some i) = with_length text (i + 4) (strnstr text (ascii "Content-Length") (i + 4))

-- `RecvHandler`; a content is handed on and `_is_complete` set exactly where the result has one
unfoldable pub recv_response : Bytes → Taking
unfolding strnstr atoi chunk_loop c_str starts_with
recv_response text =
    if length text == 0 then waits else with_header text (strnstr text header_end (length text))
