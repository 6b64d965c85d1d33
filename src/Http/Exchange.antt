-- ===== src/Http/Exchange.antt =====
-- A request that the one HTTP object sends, as the other one receives it.
use mathlib.Core.List.{append_assoc, append-nil}
use oven_web_rtctester.Prelude.{
  ℕ, ◌≤◌, ◌<◌, ◌≡◌, refl, sym, ap, ◌∙◌, true, false, none, ==_refl, List, [], ◌∷◌, ◌++◌, length,
  length-append, take, take_append, ◌+◌, if◌then◌else◌, arith,
}
use oven_web_rtctester.Prelude.Int.{ℤ, pos}
use oven_web_rtctester.Prelude.Bytes.{Bytes, ascii, find_sub, starts_with}
use oven_web_rtctester.Prelude.Outcome.{Outcome, done}
use oven_web_rtctester.WebSocket.{header_end}
use oven_web_rtctester.Http.{
  http_request_data_max_size, HttpResponse, HttpEvent, recv_request, agent_of, cors_of,
  recv_handler,
}
use oven_web_rtctester.Http.Requests.{
  NoCr, IsWord, IsRequest, Request, asks, fields_text, request_text, size_of, header_of,
  length-request_text,
}
use oven_web_rtctester.Http.Pipeline.{asked, asked_all, texts, recv_handler-texts}
use oven_web_rtctester.Http.Answers.{send_request}
use oven_web_rtctester.Http.Header.{
  Lacks, get_header, send_request-get_header, field_value_origin, agent_of_lem, cors_of_lem,
}

-- The fields and the request that `send_request` writes.
abbrev pub get_fields : Bytes → List (ℕ × Bytes)
get_fields host =
    (b'A', ascii "ccept: */*")
    ∷ (b'A', ascii "ccept-Language: ko")
    ∷ (b'U', ascii "ser-Agent: Mozilla/4.0")
    ∷ (b'A', ascii "ccept-Encoding: gzip, deflate")
    ∷ (b'H', ascii "ost: " ++ host)
    ∷ (b'A', ascii "ccept-Encoding: ")
    ∷ (b'C', ascii "onnection: Keep-Alive")
    ∷ []

abbrev pub get_request : Bytes → Bytes → Request
get_request request_url host =
    asks b'G' (ascii "ET") (b'/' ∷ request_url) (ascii "HTTP/1.1") (get_fields host)

pub send_request-request_text :
    (request_url host : Bytes)
    → send_request request_url host ≡ request_text (get_request request_url host)
unfolding send_request request_text fields_text
send_request-request_text request_url host =
    let fields = fields_text (get_fields host) in
    ap (λ x. 71 ∷ 69 ∷ 84 ∷ 32 ∷ 47 ∷ x)
      (sym (append_assoc request_url (32 ∷ ascii "HTTP/1.1") fields))

get_request-IsRequest :
    (request_url host : Bytes)
    → IsWord request_url
    → NoCr host
    → IsRequest (get_request request_url host)
get_request-IsRequest request_url host url free = ground arith

no_end : find_sub header_end ([] ++ 0 ∷ []) ≡ none
unfolding find_sub starts_with
no_end = refl

long : (request_url host : Bytes) → 0 < length (send_request request_url host)
unfolding send_request
long request_url host = omega arith

header_of-get_header :
    (request_url host : Bytes)
    → IsWord request_url
    → NoCr host
    → header_of (get_request request_url host) ≡ get_header request_url host
unfolding header_of
header_of-get_header request_url host url free =
    let r = get_request request_url host in
    let header = get_header request_url host in
    let text : request_text r ≡ header ++ 10 ∷ [] =
      sym (send_request-request_text request_url host) ∙ send_request-get_header request_url host in
    let size : length header ≡ size_of r + 3 =
      omega (arith, length-request_text r, ap length text, length-append header (10 ∷ [])) in
    ap (take (size_of r + 3)) text ∙ take_append (size_of r + 3) header (10 ∷ []) size

-- the answer, by the header that the fields are looked for in
abbrev answered :
    Bytes → Bytes → HttpResponse → Bytes → Outcome ((HttpResponse × List HttpEvent) × ℤ)
answered request_url host s header =
    let s' : HttpResponse = record s { http_version = ascii "HTTP/1.1" } in
    done (
      (
        record (cors_of header s') { is_complete = true; send_complete_close = false },
        recv_request (b'/' ∷ request_url) (agent_of s' header []) ∷ [],
      ),
      pos (length (send_request request_url host)),
    )

recv_handler_whole :
    (request_url host : Bytes) (s : HttpResponse)
    → IsWord request_url
    → NoCr host
    → length (send_request request_url host) ≤ http_request_data_max_size
    → recv_handler (send_request request_url host) s
      ≡ answered request_url host s (header_of (get_request request_url host))
unfolding asked_all asked find_sub starts_with
recv_handler_whole request_url host s url free fits =
    let r = get_request request_url host in
    let sent = send_request request_url host in
    let same : texts (r ∷ []) ≡ sent =
      append-nil (request_text r) ∙ sym (send_request-request_text request_url host) in
    let whole : texts (r ∷ []) ++ [] ≡ sent = append-nil (texts (r ∷ [])) ∙ same in
    let some_text : 0 < length (texts (r ∷ []) ++ []) =
      omega (arith, ap length whole, long request_url host) in
    let run =
      recv_handler-texts (r ∷ []) [] s (get_request-IsRequest request_url host url free, tt) no_end
        some_text (omega (arith, ap length whole, fits)) in
    ap (λ x. recv_handler x s) (sym whole)
    ∙ run
    ∙ rw (ap length whole, ap length same, ==_refl (length sent)) refl

-- What `send_request` sends for an address without blanks, CRs and the letters U and O and a host
-- without CRs and the letter O, as long as it is of 8192 bytes at most, the other object takes whole:
-- it hands on the address behind its slash, in one call, with the agent `Mozilla/4.0` if it looks for
-- agents and with none if not, is complete, does not close behind its answer, and allows no origin
-- that it did not allow before.
pub recv_handler-send_request :
    (request_url host : Bytes) (s : HttpResponse)
    → IsWord request_url
    → Lacks b'U' request_url
    → Lacks b'O' request_url
    → NoCr host
    → Lacks b'O' host
    → length (send_request request_url host) ≤ http_request_data_max_size
    → recv_handler (send_request request_url host) s
      ≡ done (
        (
          record s {
            http_version = ascii "HTTP/1.1";
            is_complete = true;
            send_complete_close = false;
          },
          recv_request (b'/' ∷ request_url) (if s.agent_parsing then ascii "Mozilla/4.0" else [])
              ∷ [],
        ),
        pos (length (send_request request_url host)),
      )
recv_handler-send_request request_url host s url no_agent no_origin free nowhere fits =
    let s' : HttpResponse = record s { http_version = ascii "HTTP/1.1" } in
    let header = get_header request_url host in
    let agent = agent_of_lem s' request_url host no_agent in
    let unchanged = cors_of_lem header s' (field_value_origin request_url host no_origin nowhere) in
    recv_handler_whole request_url host s url free fits
    ∙ ap (answered request_url host s) (header_of-get_header request_url host url free)
    ∙ rw (agent, unchanged) refl
