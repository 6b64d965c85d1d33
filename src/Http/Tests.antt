-- ===== src/Http/Tests.antt =====
-- Tests and instances for the two HTTP objects.
use oven_web_rtctester.Prelude.{
  ◌≤◌, ◌<◌, ◌≡◌, refl, true, false, Option, none, some, List, [], ◌∷◌, ◌++◌, ltb, if◌then◌else◌,
  length, take, drop, All, arith,
}
use oven_web_rtctester.Prelude.Int.{pos}
use oven_web_rtctester.Prelude.Bytes.{Bytes, ascii, find_sub, starts_with}
use oven_web_rtctester.Prelude.Outcome.{done}
use oven_web_rtctester.WebSocket.{header_end}
use oven_web_rtctester.Http.{HttpResponse, recv_request, recv_handler, c_str}
use oven_web_rtctester.Http.Requests.{Request, asks, request_text, fields_text}
use oven_web_rtctester.Http.Pipeline.{texts}
use oven_web_rtctester.Http.Pages.{any_1_0, last_version, recv_handler-handed_on}
use oven_web_rtctester.Http.Bounds.{IsCount, recv_handler-IsCount}
use oven_web_rtctester.Http.Exchange.{recv_handler-send_request}
use oven_web_rtctester.Http.Answers.{
  send_request, send_response, set_cookie, cors_lines, content_length_line, decimal,
}
use oven_web_rtctester.Http.Client.{
  strnstr, strnstr_loop, strtol_16, hex_digits, decimal_digits, atoi, waits, recv_response,
}
use oven_web_rtctester.Http.Client.Chunks.{IsChunk, chunks_text, recv_response-content_of}
use oven_web_rtctester.Http.Client.Length.{
  field_name, length_line, recv_response_no_content, recv_response-length,
}

abbrev fresh : HttpResponse
fresh = record {
  is_complete = false;
  http_version = ascii "HTTP/1.1";
  cors_use = false;
  cors_origin_url = [];
  cors_origin_full_url = [];
  agent_parsing = true;
  cors_origin_list = [];
  cookie = [];
  send_complete_close = false;
  is_support_ssl = false;
}

abbrev two : List Request
two =
    asks b'G' (ascii "ET") (ascii "/a") (ascii "HTTP/1.1") ((b'H', ascii "ost: h") ∷ [])
    ∷ asks b'G' (ascii "ET") (ascii "/b") (ascii "HTTP/1.0") []
    ∷ []

abbrev begun : Bytes
begun = ascii "GET /c"

nothing_ends : find_sub header_end (begun ++ 0 ∷ []) ≡ none
unfolding find_sub starts_with
nothing_ends = refl

some_text : 0 < length (texts two ++ begun)
unfolding request_text fields_text
some_text = omega arith

fitting : length (texts two ++ begun) ≤ 8192
unfolding request_text fields_text
fitting = omega arith

-- an object that looks for no agent, which is what the constructor makes
abbrev plain : HttpResponse
plain = record fresh { agent_parsing = false }

recv_handler-handed_on_example :
    recv_handler (texts two ++ begun) plain
    ≡ done (
      (
        record plain {
          http_version = ascii "HTTP/1.0";
          is_complete = false;
          send_complete_close = true;
        },
        recv_request (ascii "/a") [] ∷ recv_request (ascii "/b") [] ∷ [],
      ),
      pos (length (texts two)),
    )
unfolding any_1_0 last_version find_sub starts_with request_text fields_text
recv_handler-handed_on_example =
    recv_handler-handed_on two begun plain refl refl (ground arith) nothing_ends some_text fitting

recv_handler-IsCount_example : IsCount 6 (recv_handler begun fresh)
recv_handler-IsCount_example = recv_handler-IsCount begun fresh

abbrev host : Bytes
host = ascii "localhost"

fitting_request : length (send_request (ascii "live") host) ≤ 8192
unfolding send_request
fitting_request = omega arith

recv_handler-send_request_example :
    recv_handler (send_request (ascii "live") host) fresh
    ≡ done (
      (
        record fresh {
          http_version = ascii "HTTP/1.1";
          is_complete = true;
          send_complete_close = false;
        },
        recv_request (ascii "/live") (ascii "Mozilla/4.0") ∷ [],
      ),
      pos (length (send_request (ascii "live") host)),
    )
recv_handler-send_request_example =
    recv_handler-send_request (ascii "live") host fresh (ground arith) (ground arith) (ground arith)
      (ground arith) (ground arith) fitting_request

abbrev ok_line : Bytes
ok_line = ascii "HTTP/1.1 200 OK"

abbrev chunks : List (Bytes × Bytes)
chunks = (ascii "3", ascii "abc") ∷ (ascii "a", ascii "0123456789") ∷ []

abbrev chunked : Bytes
chunked = ok_line ++ 13 ∷ 10 ∷ chunks_text chunks

ok_line_ends : strnstr chunked header_end (length chunked) ≡ some 15
unfolding strnstr strnstr_loop c_str starts_with
ok_line_ends = refl

no_length : strnstr chunked (ascii "Content-Length") 19 ≡ none
unfolding strnstr strnstr_loop c_str starts_with
no_length = refl

chunks-IsChunk : All IsChunk chunks
unfolding strtol_16 hex_digits
chunks-IsChunk = ((ground arith, refl, omega arith), ((ground arith, refl, omega arith), tt))

recv_response-content_of_example :
    recv_response chunked ≡ done (pos (length chunked), some (ascii "abc0123456789"))
recv_response-content_of_example =
    recv_response-content_of ok_line chunks ok_line_ends no_length chunks-IsChunk

first_end : find_sub header_end (ok_line ++ header_end) ≡ some 15
unfolding find_sub starts_with
first_end = refl

recv_response_no_content_example : recv_response (ok_line ++ header_end) ≡ waits
recv_response_no_content_example = recv_response_no_content ok_line first_end

abbrev sized : Bytes
sized = length_line (ascii " 3") (13 ∷ 10 ∷ ascii "abc")

sized_ends : strnstr sized header_end (length sized) ≡ some 17
unfolding strnstr strnstr_loop c_str starts_with
sized_ends = refl

sized_starts : strnstr sized field_name 21 ≡ some 0
unfolding strnstr strnstr_loop c_str starts_with
sized_starts = refl

recv_response-length_example :
    recv_response sized
    ≡ (if ltb (length sized) 24 then waits else done (pos 24, some (take 3 (drop 21 sized))))
unfolding decimal
recv_response-length_example =
    recv_response-length [] (13 ∷ 10 ∷ ascii "abc") 17 3 sized_ends sized_starts (omega arith)

abbrev sent : Option Bytes → Bytes
sent none = []
sent (some text) = text

-- a response of the one object, as the other one takes it
answered :
    recv_response
      (sent (send_response (ascii "Thu") (ascii "text/html") (some (ascii "<p>")) fresh))
    ≡ done (pos 120, some (ascii "<p>"))
unfolding recv_response strnstr strnstr_loop c_str starts_with find_sub atoi decimal_digits
    send_response cors_lines content_length_line decimal
answered = refl

abbrev two_cookies : Bytes
two_cookies = ascii "Set-Cookie: a=b; Path=/" ++ 13 ∷ 10 ∷ ascii "Set-Cookie: c=d"

cookies :
    (set_cookie
      (ascii "c")
      (ascii "d")
      []
      []
      (set_cookie (ascii "a") (ascii "b") [] (ascii "/") fresh)).cookie
    ≡ two_cookies
unfolding set_cookie
cookies = refl
