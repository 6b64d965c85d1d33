-- ===== src/Http/Client/Length.antt =====
-- A response with a length, and one that ends with its header.
use mathlib.Core.List.{append-nil}
use oven_web_rtctester.Prelude.{
  ℕ, zero, suc, ◌+◌, ◌-◌, ◌^◌, ◌≤◌, ◌<◌, ◌≡◌, refl, sym, ap, ◌∙◌, inl, inr, false, some, [], ◌∷◌,
  ◌++◌, ◌==◌, ltb, leb, if◌then◌else◌, Bool-cases, Option-cases, length, take, drop, length-append,
  drop_append, take_append, All, arith,
}
use oven_web_rtctester.Prelude.Int.{pos}
use oven_web_rtctester.Prelude.Bytes.{Bytes, ascii, find_sub, find_sub-append, starts_with}
use oven_web_rtctester.Prelude.Outcome.{done}
use oven_web_rtctester.WebSocket.{header_end}
use oven_web_rtctester.Http.{http_line_end, c_str}
use oven_web_rtctester.Http.Requests.{NoCr, find_sub-skip}
use oven_web_rtctester.Http.Client.{strnstr, strnstr_loop, atoi, waits, length_field, recv_response}
use oven_web_rtctester.Http.Answers.{decimal}
use oven_web_rtctester.Http.Client.Decimal.{IsDigit, decimal-IsDigit, length-decimal, atoi-decimal}
use oven_web_rtctester.Http.Client.Chunks.{recv_response-header}

-- What `strnstr` finds is the first occurrence, and it does not stand at the end of the text.
strnstr_loop-find_sub :
    (count : ℕ) (needle text : Bytes) (i : ℕ)
    → strnstr_loop count needle text ≡ some i
    → (find_sub needle text ≡ some i) × (i < count)
unfolding strnstr_loop find_sub
strnstr_loop-find_sub zero needle text i e = absurd (cc)
strnstr_loop-find_sub (suc count) needle [] i e = absurd (cc)
strnstr_loop-find_sub (suc count) needle (c ∷ text) i e =
    elim (Option-cases (strnstr_loop count needle text)) [
      | inl absent ↦ ground arith
      | inr (j, found) ↦ ground (arith, strnstr_loop-find_sub count needle text j found)
    ]

-- a text stands in front of what its zero cuts off
c_str-append : (text : Bytes) → (rest : Bytes) × (text ≡ c_str text ++ rest)
unfolding c_str
c_str-append [] = ([], refl)
c_str-append (c ∷ text) = elim (Bool-cases (c == 0)) [
  | inl ends ↦ (c ∷ text, rw ends refl)
  | inr on ↦ let (rest, e) = c_str-append text in (rest, rw on (ap (◌∷◌ c) e))
]

take_all : (text : Bytes) → take (length text) text ≡ text
take_all [] = refl
take_all (c ∷ text) = ap (◌∷◌ c) (take_all text)

not_at_end :
    (header : Bytes) (i : ℕ)
    → find_sub header_end (header ++ header_end) ≡ some (length header)
    → strnstr (header ++ header_end) header_end (length (header ++ header_end)) ≡ some i
    → ⊥
unfolding strnstr
not_at_end header i first found =
    let text = header ++ header_end in
    let (rest, e) = c_str-append text in
    let whole : strnstr_loop (length (c_str text) - 4) header_end (c_str text) ≡ some i =
      ap (λ x. strnstr_loop (length (c_str x) - 4) header_end (c_str x)) (sym (take_all text))
      ∙ found in
    let (inside, below) =
      strnstr_loop-find_sub (length (c_str text) - 4) header_end (c_str text) i whole in
    let seen : find_sub header_end text ≡ some i =
      ap (find_sub header_end) e ∙ find_sub-append header_end (c_str text) rest inside in
    let same : length header ≡ i =
      (let two : some (length header) ≡ some i = sym first ∙ seen in cc) in
    omega (
      arith,
      same,
      below,
      ap length e,
      length-append (c_str text) rest,
      length-append header header_end,
    )

-- A response that ends with its header is never taken, whatever the header: the handler waits for
-- more, though a response without content has no more.
pub recv_response_no_content :
    (header : Bytes)
    → find_sub header_end (header ++ header_end) ≡ some (length header)
    → recv_response (header ++ header_end) ≡ waits
recv_response_no_content header first =
    let text = header ++ header_end in
    recv_response-header text (omega (arith, length-append header header_end))
    ∙ elim (Option-cases (strnstr text header_end (length text))) [
      | inl absent ↦ rw absent refl
      | inr (i, found) ↦ elim (not_at_end header i first found) [ ]
    ]

-- A value: no CR, no zero.
abbrev pub IsValue : Bytes → Type 0
IsValue = All (λ b. ((b == 13) ≡ false) × ((b == 0) ≡ false))

IsValue-NoCr : (x : Bytes) → IsValue x → NoCr x
IsValue-NoCr [] w = tt
IsValue-NoCr (c ∷ x) ((cr, zero'), w) = (cr, IsValue-NoCr x w)

c_str-IsValue : (x y : Bytes) → IsValue x → c_str (x ++ y) ≡ x ++ c_str y
unfolding c_str
c_str-IsValue [] y w = refl
c_str-IsValue (c ∷ x) y ((cr, other), w) = rw (other, c_str-IsValue x y w) refl

-- a letter that is found behind a text without it, with more positions behind it
strnstr_loop-skip :
    (count k : ℕ) (x y : Bytes)
    → All (λ b. (b == 58) ≡ false) x
    → count ≡ length x + suc k
    → strnstr_loop count (58 ∷ []) (x ++ 58 ∷ y) ≡ some (length x)
unfolding strnstr_loop starts_with
strnstr_loop-skip zero k x y free e = absurd (omega arith)
strnstr_loop-skip (suc count) k [] y free e = refl
strnstr_loop-skip (suc count) k (c ∷ x) y (other, free) e =
    let apart : (58 == c) ≡ false = ground arith in
    rw (apart, strnstr_loop-skip count k x y free (omega (arith, e))) (ap some (omega arith))

abbrev pub field_name : Bytes
field_name = ascii "Content-Length"

abbrev pub length_line : Bytes → Bytes → Bytes
length_line value rest = field_name ++ 58 ∷ (value ++ 13 ∷ 10 ∷ rest)

c_str_line :
    (value rest : Bytes)
    → IsValue value
    → c_str (field_name ++ 58 ∷ (value ++ rest)) ≡ field_name ++ 58 ∷ (value ++ c_str rest)
unfolding c_str
c_str_line value rest good = ap (λ x. field_name ++ 58 ∷ x) (c_str-IsValue value rest good)

c_str_line_end : (rest : Bytes) → c_str (13 ∷ 10 ∷ rest) ≡ 13 ∷ 10 ∷ c_str rest
unfolding c_str
c_str_line_end rest = refl

find_line_end : (rest : Bytes) → find_sub http_line_end (13 ∷ 10 ∷ rest) ≡ some 0
unfolding find_sub starts_with
find_line_end rest = refl

name-NoCr : (value : Bytes) → NoCr value → NoCr (field_name ++ 58 ∷ value)
name-NoCr value free = ground arith

line_end_lem :
    (value rest : Bytes)
    → IsValue value
    → find_sub http_line_end (c_str (length_line value rest)) ≡ some (15 + length value)
line_end_lem value rest good =
    let tail = c_str rest in
    ap (find_sub http_line_end) (
      c_str_line value (13 ∷ 10 ∷ rest) good
      ∙ ap (λ x. field_name ++ 58 ∷ (value ++ x)) (c_str_line_end rest))
    ∙ find_sub-skip (10 ∷ []) (field_name ++ 58 ∷ value) (13 ∷ 10 ∷ tail) 0
        (name-NoCr value (IsValue-NoCr value good)) (find_line_end tail)
    ∙ ap some (omega arith)

c_str_empty : c_str [] ≡ []
unfolding c_str
c_str_empty = refl

colon_lem :
    (value rest : Bytes)
    → IsValue value
    → 0 < length value
    → strnstr (length_line value rest) (ascii ":") (15 + length value) ≡ some 14
unfolding strnstr
colon_lem value rest good some_value =
    let line = field_name ++ 58 ∷ value in
    let cut : take (15 + length value) (length_line value rest) ≡ line =
      take_append (15 + length value) line (13 ∷ 10 ∷ rest) (omega arith) in
    let shown : c_str line ≡ line =
      ap (λ x. c_str (field_name ++ 58 ∷ x)) (sym (append-nil value))
      ∙ c_str_line value [] good
      ∙ ap (λ x. field_name ++ 58 ∷ x) (ap (λ x. value ++ x) c_str_empty ∙ append-nil value) in
    ap (λ x. strnstr_loop (length (c_str x) - 1) (58 ∷ []) (c_str x)) cut
    ∙ ap (λ x. strnstr_loop (length x - 1) (58 ∷ []) x) shown
    ∙ strnstr_loop-skip (length line - 1) (length value - 1) field_name value (ground arith)
        (omega (arith, some_value))

-- for a value that `atoi` reads as the length
recv_response_field :
    (head value rest : Bytes) (h n : ℕ)
    → let text = head ++ length_line value rest in
      strnstr text header_end (length text) ≡ some h
      → strnstr text field_name (h + 4) ≡ some (length head)
      → IsValue value
      → 0 < length value
      → length value ≤ 20
      → atoi (length_field value) ≡ some (pos n)
      → h + 4 + n < 2 ^ 31
      → recv_response text ≡ (
          if ltb (length text) (h + 4 + n)
          then waits
          else done (pos (h + 4 + n), some (take n (drop (h + 4) text))))
recv_response_field head value rest h n ends starts good some_value short read small =
    let text = head ++ length_line value rest in
    let field : drop (length head) text ≡ length_line value rest =
      drop_append (length head) head (length_line value rest) refl in
    let behind : leb (15 + length value) 15 ≡ false = ground arith in
    let fits : ltb 20 (15 + length value - 15) ≡ false = ground arith in
    let cut : take (15 + length value - 15) (value ++ 13 ∷ 10 ∷ rest) ≡ value =
      take_append (15 + length value - 15) value (13 ∷ 10 ∷ rest) (omega arith) in
    let room : leb (2 ^ 31) (h + 4 + n) ≡ false = ground arith in
    recv_response-header text (omega (arith, length-append head (length_line value rest)))
    ∙ rw ends (
        rw starts (
          rw field (
            rw (line_end_lem value rest good) (
              rw (colon_lem value rest good some_value)
                (rw (behind, fits) (rw cut (rw read (rw room refl))))))))

digits-IsValue : (x : Bytes) → All IsDigit x → IsValue x
digits-IsValue [] all = tt
digits-IsValue (c ∷ x) (digit, all) = (ground arith, digits-IsValue x all)

-- A response whose length field holds a blank and the printed length `n` of its content is waited for
-- while it is shorter than its header and the content, and then both are removed and the content is
-- handed on, with what follows left alone: for the first length field of a header that `strnstr`
-- finds the end of, and a header and content below 2^31 together.
pub recv_response-length :
    (head rest : Bytes) (h n : ℕ)
    → let text = head ++ length_line (32 ∷ decimal 10 n) rest in
      strnstr text header_end (length text) ≡ some h
      → strnstr text field_name (h + 4) ≡ some (length head)
      → h + 4 + n < 2 ^ 31
      → recv_response text ≡ (
          if ltb (length text) (h + 4 + n)
          then waits
          else done (pos (h + 4 + n), some (take n (drop (h + 4) text))))
recv_response-length head rest h n ends starts small =
    let digits = decimal 10 n in
    recv_response_field head (32 ∷ digits) rest h n ends starts
      ((refl, refl), digits-IsValue digits (decimal-IsDigit 10 n)) (omega arith)
      (omega (arith, length-decimal 10 n)) (atoi-decimal n (omega (arith, small))) small
