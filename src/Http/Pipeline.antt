-- ===== src/Http/Pipeline.antt =====
-- Requests that stand behind each other in the received data.
use mathlib.Core.List.{append_assoc}
use oven_web_rtctester.Prelude.{
  ℕ, zero, suc, ◌+◌, ◌≤◌, ◌<◌, ◌≡◌, refl, ap, ◌∙◌, Bool, false, ◌||◌, none, List, [], ◌∷◌, ◌++◌,
  ◌==◌, le→ltb_false, length, take, drop, length-append, take-append_le, drop_append, All, arith,
}
use oven_web_rtctester.Prelude.Int.{pos}
use oven_web_rtctester.Prelude.Bytes.{Bytes, ascii, find_sub}
use oven_web_rtctester.Prelude.Outcome.{done}
use oven_web_rtctester.WebSocket.{header_end}
use oven_web_rtctester.Http.Requests.{
  Request, asks, IsRequest, request_line, request_text, blank_at, size_of, header_of,
  length-request_text, find_sub-request_text, tokens_lem, page_line_lem, request_line-NoCr,
}
use oven_web_rtctester.Http.{
  http_version_max_size, http_request_data_max_size, HttpResponse, HttpEvent, recv_request,
  is_found, up_to, page_line, agent_of, cors_of, take_line, take_request, takes, received,
  put_event, recv_requests, recv_handler,
}

-- What a request is answered with: the state that it leaves, the agent and whether it is of HTTP/1.0.
unfoldable pub asked : Request → HttpResponse → Bytes → HttpResponse × Bytes × Bytes × Bool
unfolding header_of
asked (asks c method page version fields) s agent =
    let header = header_of (asks c method page version fields) in
    let s' : HttpResponse = record s { http_version = version } in
    (
      cors_of header s',
      page,
      agent_of s' header agent,
      is_found (find_sub (ascii "HTTP/1.0") version),
    )

take_request-asked :
    (r : Request) (s : HttpResponse) (agent : Bytes)
    → IsRequest r
    → let (s', page, agent', is_1_0) = asked r s agent in
      take_request (header_of r) s agent ≡ takes s' page agent' is_1_0
unfolding take_request asked header_of request_text size_of
take_request-asked (asks c method page version fields) s agent (m, p, v, short, all) =
    let line = request_line c method page version in
    let header = header_of (asks c method page version fields) in
    let first : page_line header ≡ line =
      page_line_lem (length line + blank_at fields + 3) line fields refl
        (request_line-NoCr c method page version m p v) in
    rw (first, take_request)
      (rw (tokens_lem c method page version m p v)
        (rw (le→ltb_false http_version_max_size (length version) short) refl))

-- One request at the head of the data.
recv_requests-asked :
    (fuel : ℕ) (r : Request) (more : Bytes) (read : ℕ) (s : HttpResponse) (agent : Bytes)
    (closes : Bool)
    → IsRequest r
    → let (s', page, agent', is_1_0) = asked r s agent in
      recv_requests (suc fuel) (request_text r ++ more) read s agent closes
      ≡ put_event
          (recv_request page agent')
          (recv_requests fuel more (read + length (request_text r)) s' agent' (closes || is_1_0))
unfolding recv_requests take_request page_line header_of
recv_requests-asked fuel r more read s agent closes good =
    let text = request_text r in
    let size = length-request_text r in
    let cut : take (size_of r + 3) (text ++ more) ≡ take (size_of r + 3) text =
      take-append_le (size_of r + 3) text more (omega (arith, size)) in
    let left : drop (size_of r + 4) (text ++ more) ≡ more =
      drop_append (size_of r + 4) text more size in
    let (s', page, agent', is_1_0) = asked r s agent in
    let header = take (size_of r + 3) text in
    let seen : take_line header s agent (up_to header (find_sub (13 ∷ []) header))
        ≡ takes s' page agent' is_1_0 =
      take_request-asked r s agent good in
    rw (find_sub-request_text r more good, recv_requests) (rw (cut, left, size) (rw seen refl))

abbrev pub texts : List Request → Bytes
texts [] = []
texts (r ∷ rs) = request_text r ++ texts rs

-- The requests one after another: their calls, and the state and the flag behind the last one.
unfoldable pub asked_all :
    List Request → HttpResponse → Bytes → Bool → (HttpResponse × Bool) × List HttpEvent
unfolding asked
asked_all [] s agent closes = ((s, closes), [])
asked_all (r ∷ rs) s agent closes =
    let (s', page, agent', is_1_0) = asked r s agent in
    let (end, events) = asked_all rs s' agent' (closes || is_1_0) in
    (end, recv_request page agent' ∷ events)

recv_requests-texts :
    (rs : List Request) (fuel : ℕ) (tail : Bytes) (read : ℕ) (s : HttpResponse) (agent : Bytes)
    (closes : Bool)
    → length rs < fuel
    → All IsRequest rs
    → find_sub header_end tail ≡ none
    → let ((s', closes'), events) = asked_all rs s agent closes in
      recv_requests fuel (texts rs ++ tail) read s agent closes
      ≡ done (received (read + length (texts rs)) s' closes', events)
unfolding recv_requests asked_all
recv_requests-texts rs zero tail read s agent closes enough good ends = absurd (omega arith)
recv_requests-texts [] (suc fuel) tail read s agent closes enough good ends =
    let same : read + 0 ≡ read = omega arith in rw (ends, recv_requests) (rw same refl)
recv_requests-texts (r ∷ rs) (suc fuel) tail read s agent closes enough (one, good) ends =
    let (s', page, agent', is_1_0) = asked r s agent in
    let more = texts rs ++ tail in
    let count : read + length (request_text r) + length (texts rs)
        ≡ read + length (request_text r ++ texts rs) =
      omega (arith, length-append (request_text r) (texts rs)) in
    rw (append_assoc (request_text r) (texts rs) tail) (
      recv_requests-asked fuel r more read s agent closes one
      ∙ ap (put_event (recv_request page agent')) (
          recv_requests-texts rs fuel tail (read + length (request_text r)) s' agent'
            (closes || is_1_0) (omega (arith, enough)) good ends)
      ∙ rw count refl)

length-texts : (rs : List Request) → length rs ≤ length (texts rs)
length-texts [] = omega arith
length-texts (r ∷ rs) =
    omega (arith, length-append (request_text r) (texts rs), length-request_text r, length-texts rs)

-- Requests that stand behind each other in the data are handed on in their order, each with its page,
-- up to a request that is not complete; what `agent_of` and `cors_of` make of a header is taken as it
-- is, and the agent of one request goes into `agent_of` for the next. The result is the size of the
-- complete ones,
-- `_is_complete` says whether nothing is left, and the connection closes behind the answer if one
-- of them was of HTTP/1.0. For words without blanks and CRs, a version of 50 letters at most,
-- fields that are not empty and hold no CR, and data of 8192 bytes at most.
pub recv_handler-texts :
    (rs : List Request) (tail : Bytes) (s : HttpResponse)
    → All IsRequest rs
    → find_sub header_end (tail ++ 0 ∷ []) ≡ none
    → 0 < length (texts rs ++ tail)
    → length (texts rs ++ tail) ≤ http_request_data_max_size
    → let ((s', closes), events) = asked_all rs s [] false in
      recv_handler (texts rs ++ tail) s
      ≡ done (
        (
          record s' {
            is_complete = length (texts rs) == length (texts rs ++ tail);
            send_complete_close = closes;
          },
          events,
        ),
        pos (length (texts rs)),
      )
unfolding recv_handler
recv_handler-texts rs tail s good ends some_data fits =
    let text = texts rs ++ tail in
    let enough : length rs < suc (length text) =
      omega (arith, length-texts rs, length-append (texts rs) tail) in
    let run =
      recv_requests-texts rs (suc (length text)) (tail ++ 0 ∷ []) 0 s [] false enough good ends in
    let whole : (length text == 0) ≡ false = ground arith in
    let below = le→ltb_false http_request_data_max_size (length text) fits in
    let none_more : 0 + length (texts rs) ≡ length (texts rs) = omega arith in
    rw (append_assoc (texts rs) tail (0 ∷ [])) (rw (whole, below) (rw (run, none_more) refl))
