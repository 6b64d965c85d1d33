-- ===== src/Http/Pages.antt =====
-- The pages of requests that stand behind each other, for an HTTP object of
-- srcs/common/network/protocol_object/http_response_object.cpp that looks for no agent and no origin.
use oven_web_rtctester.Prelude.{
  ◌≤◌, ◌<◌, ◌≡◌, refl, ap, ◌∙◌, Bool, false, ◌||◌, none, List, [], ◌∷◌, ◌++◌, ◌==◌, length, map,
  All, arith,
}
use oven_web_rtctester.Prelude.Int.{pos}
use oven_web_rtctester.Prelude.Bytes.{Bytes, ascii, find_sub}
use oven_web_rtctester.Prelude.Outcome.{done}
use oven_web_rtctester.WebSocket.{header_end}
use oven_web_rtctester.Http.Requests.{Request, asks, IsRequest, header_of}
use oven_web_rtctester.Http.Pipeline.{asked, asked_all, texts, recv_handler-texts}
use oven_web_rtctester.Http.{
  http_request_data_max_size, HttpResponse, HttpEvent, recv_request, is_found, field_value,
  with_origin, agent_of, cors_of, recv_handler,
}

abbrev pub page_of : Request → Bytes
page_of (asks c method page version fields) = page

abbrev pub version_of : Request → Bytes
version_of (asks c method page version fields) = version

abbrev pub is_1_0 : Request → Bool
is_1_0 r = is_found (find_sub (ascii "HTTP/1.0") (version_of r))

unfoldable pub any_1_0 : List Request → Bool
any_1_0 [] = false
any_1_0 (r ∷ rs) = is_1_0 r || any_1_0 rs

unfoldable pub last_version : Bytes → List Request → Bytes
last_version version [] = version
last_version version (r ∷ rs) = last_version (version_of r) rs

abbrev pub handed_on : Request → HttpEvent
handed_on r = recv_request (page_of r) []

agent_off :
    (s : HttpResponse) (header agent : Bytes)
    → s.agent_parsing ≡ false
    → agent_of s header agent ≡ agent
unfolding agent_of
agent_off s header agent off = rw off refl

cors_off : (header : Bytes) (s : HttpResponse) → s.cors_origin_list ≡ [] → cors_of header s ≡ s
unfolding cors_of
cors_off header s none_listed =
    let seen = with_origin s (field_value (ascii "Origin:") header) in
    ap (λ (origins : Bytes). elim origins [ [] ↦ s | c ∷ more ↦ seen ]) none_listed

asked_plain :
    (r : Request) (s : HttpResponse)
    → s.agent_parsing ≡ false
    → s.cors_origin_list ≡ []
    → asked r s [] ≡ (record s { http_version = version_of r }, page_of r, [], is_1_0 r)
unfolding asked
asked_plain (asks c method page version fields) s no_agent no_origins =
    let header = header_of (asks c method page version fields) in
    let s' : HttpResponse = record s { http_version = version } in
    rw (agent_off s' header [] no_agent, cors_off header s' no_origins) refl

or_assoc : (a b c : Bool) → ((a || b) || c) ≡ (a || (b || c))
or_assoc a b c = ground arith

asked_all_plain :
    (rs : List Request) (s : HttpResponse) (closes : Bool)
    → s.agent_parsing ≡ false
    → s.cors_origin_list ≡ []
    → asked_all rs s [] closes ≡ (
      (record s { http_version = last_version s.http_version rs }, closes || any_1_0 rs),
      map handed_on rs,
    )
unfolding asked_all any_1_0 last_version
asked_all_plain [] s closes no_agent no_origins = ground arith
asked_all_plain (r ∷ rs) s closes no_agent no_origins =
    let s' : HttpResponse = record s { http_version = version_of r } in
    let rest = asked_all_plain rs s' (closes || is_1_0 r) no_agent no_origins in
    rw (asked_plain r s no_agent no_origins)
      (rw (rest, or_assoc closes (is_1_0 r) (any_1_0 rs)) refl)

-- Requests that stand behind each other in the data of an object that looks for no agent and allows no
-- origins are handed on in their order, each with its page and without an agent, up to a request that
-- is not complete. The result is the size of the complete ones, `_is_complete` says whether nothing is
-- left, the version is that of the last of them, and the connection closes behind the answer if one of
-- them was of HTTP/1.0. For words without blanks and CRs, a version of 50 letters at most, fields that
-- are not empty and hold no CR, and data of 1 to 8192 bytes.
pub recv_handler-handed_on :
    (rs : List Request) (tail : Bytes) (s : HttpResponse)
    → s.agent_parsing ≡ false
    → s.cors_origin_list ≡ []
    → All IsRequest rs
    → find_sub header_end (tail ++ 0 ∷ []) ≡ none
    → 0 < length (texts rs ++ tail)
    → length (texts rs ++ tail) ≤ http_request_data_max_size
    → recv_handler (texts rs ++ tail) s
      ≡ done (
        (
          record s {
            http_version = last_version s.http_version rs;
            is_complete = length (texts rs) == length (texts rs ++ tail);
            send_complete_close = any_1_0 rs;
          },
          map handed_on rs,
        ),
        pos (length (texts rs)),
      )
recv_handler-handed_on rs tail s no_agent no_origins good ends some_data fits =
    recv_handler-texts rs tail s good ends some_data fits
    ∙ rw (asked_all_plain rs s false no_agent no_origins) refl
