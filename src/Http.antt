-- ===== src/Http.antt =====
-- srcs/common/network/protocol_object/http_response_object.cpp: the receiving side of the HTTP
-- object that answers. `RecvRequest` is the derived class's; each of its calls is a value of
-- `HttpEvent`, and it is taken to leave the fields of `HttpResponse` alone. A position in the text
-- is what stands behind it. The texts that are sent are in Http/Answers, the object that asks is in
-- Http/Client.
pub mod Answers
pub mod Requests
pub mod Pipeline
pub mod Bounds
pub mod Exchange
pub mod Header
pub mod Pages
pub mod Client
mod Tests
use oven_web_rtctester.Prelude.{
  ℕ, zero, suc, ◌+◌, ◌-◌, Bool, true, false, ◌||◌, Option, none, some, List, [], ◌∷◌, ◌++◌, ltb,
  ◌==◌, if◌then◌else◌, length, take, drop,
}
use oven_web_rtctester.Prelude.Int.{ℤ, pos, minus_one}
use oven_web_rtctester.Prelude.Bytes.{Bytes, ascii, find_sub}
use oven_web_rtctester.Prelude.Outcome.{Outcome, done, no_fuel}
use oven_web_rtctester.Common.Text.{tokenize, replace_string}
use oven_web_rtctester.WebSocket.{header_end}

-- HTTP_REQUEST_DATA_MAX_SIZE and HTTP_VERSION_MAX_SIZE
abbrev pub http_request_data_max_size : ℕ
http_request_data_max_size = 8192

abbrev pub http_version_max_size : ℕ
http_version_max_size = 50

-- HTTP_LINE_END
abbrev pub http_line_end : Bytes
http_line_end = 13 ∷ 10 ∷ []

pub record HttpResponse : Type 0 where
  pub is_complete : Bool
  pub http_version : Bytes
  pub cors_use : Bool
  pub cors_origin_url : Bytes
  pub cors_origin_full_url : Bytes
  pub agent_parsing : Bool
  pub cors_origin_list : Bytes
  pub cookie : Bytes
  pub send_complete_close : Bool
  pub is_support_ssl : Bool

pub data HttpEvent : Type 0 where
  recv_request : Bytes → Bytes → HttpEvent
  sends_error : Bytes → HttpEvent

-- the text that a `char *` to it stands for
unfoldable pub c_str : Bytes → Bytes
c_str [] = []
c_str (c ∷ text) = if c == 0 then [] else c ∷ c_str text

-- the result of a loop that on_done (Http/Pipeline), and of a split that does
abbrev pub text_of : Outcome Bytes → Bytes
text_of (done text) = text
text_of Outcome.fault = []
text_of no_fuel = []

abbrev pub tokens_of : Outcome (List Bytes) → List Bytes
tokens_of (done tokens) = tokens
tokens_of Outcome.fault = []
tokens_of no_fuel = []

-- `ReplaceString` with an empty replacement
abbrev pub strip : Bytes → Bytes → Bytes
strip word text = text_of (replace_string (suc (length text)) text word [])

-- the line up to the first CR
abbrev pub up_to : Bytes → Option ℕ → Bytes
up_to header none = []
up_to header (some i) = take i header

unfoldable pub page_line : Bytes → Bytes
page_line header = up_to header (find_sub (13 ∷ []) header)

-- the value of a field behind its name, up to the end of its line, if it is not empty
abbrev pub value_of : Bytes → Bytes → Option ℕ → Option Bytes
value_of name field none = none
value_of name field (some line_end) =
    if ltb (length name) line_end
    then some (take (line_end - length name) (drop (length name) field))
    else none

abbrev pub field_at : Bytes → Bytes → Option ℕ → Option Bytes
field_at name header none = none
field_at name header (some start) =
    let field = drop start header in value_of name field (find_sub http_line_end field)

unfoldable pub field_value : Bytes → Bytes → Option Bytes
field_value name header = field_at name header (find_sub name header)

abbrev pub or_old : Bytes → Option Bytes → Bytes
or_old old none = old
or_old old (some value) = value

-- an agent stays from one request of the data to the next
unfoldable pub agent_of : HttpResponse → Bytes → Bytes → Bytes
unfolding field_value
agent_of s header agent =
    if s.agent_parsing then or_old agent (field_value (ascii "User-Agent: ") header) else agent

abbrev pub is_found : Option ℕ → Bool
is_found none = false
is_found (some i) = true

-- `EnableCors`
abbrev pub enable_cors : Bytes → HttpResponse → HttpResponse
enable_cors url s = record s { cors_use = true; cors_origin_url = c_str url }

abbrev pub with_origin : HttpResponse → Option Bytes → HttpResponse
with_origin s none = s
with_origin s (some origin) =
    let full = strip (ascii " ") origin in
    let url = strip (ascii "https://") (strip (ascii "http://") full) in
    let s' = record s { cors_origin_full_url = full } in
    if is_found (find_sub (c_str (b'|' ∷ (url ++ b'|' ∷ []))) s.cors_origin_list)
    then enable_cors url s'
    else s'

unfoldable pub cors_of : Bytes → HttpResponse → HttpResponse
unfolding field_value c_str
cors_of header s = elim (s.cors_origin_list) [
  | [] ↦ s
  | c ∷ origins ↦ with_origin s (field_value (ascii "Origin:") header)
]

-- What a round makes of a header: the loop is left, `-1` is returned, or a request is handed on,
-- with its page, its agent and whether it is one of HTTP/1.0.
pub data Round : Type 0 where
  breaks : Round
  refuses : HttpResponse → Round
  takes : HttpResponse → Bytes → Bytes → Bool → Round

abbrev pub take_tokens : Bytes → HttpResponse → Bytes → List Bytes → Round
take_tokens header s agent [] = refuses s
take_tokens header s agent (method ∷ []) = refuses s
take_tokens header s agent (method ∷ page ∷ []) = refuses s
take_tokens header s agent (method ∷ page ∷ version ∷ tokens) =
    let s' = record s { http_version = version } in
    if ltb http_version_max_size (length version)
    then refuses s'
    else takes (cors_of header s') page (agent_of s' header agent)
        (is_found (find_sub (ascii "HTTP/1.0") version))

abbrev pub take_line : Bytes → HttpResponse → Bytes → Bytes → Round
take_line header s agent [] = breaks
take_line header s agent (c ∷ line) =
    take_tokens header s agent (tokens_of (tokenize (c ∷ line) (ascii " ")))

unfoldable pub take_request : Bytes → HttpResponse → Bytes → Round
unfolding page_line cors_of agent_of
take_request header s agent = take_line header s agent (page_line header)

-- The end of the loop, with what was read, or its return.
pub data Received : Type 0 where
  received : ℕ → HttpResponse → Bool → Received
  refused : HttpResponse → Received

abbrev pub put_event :
    HttpEvent → Outcome (Received × List HttpEvent) → Outcome (Received × List HttpEvent)
put_event e (done (r, events)) = done (r, e ∷ events)
put_event e Outcome.fault = Outcome.fault
put_event e no_fuel = no_fuel

-- `rest` is the loop behind the header, which takes the state, the agent and the flag
abbrev pub on_round :
    (HttpResponse → Bytes → Bool → Outcome (Received × List HttpEvent))
    → ℕ
    → HttpResponse
    → Bool
    → Round
    → Outcome (Received × List HttpEvent)
on_round rest read s closes breaks = done (received read s closes, [])
on_round rest read s closes (refuses s') = done (refused s', [])
on_round rest read s closes (takes s' page agent is_1_0) =
    put_event (recv_request page agent) (rest s' agent (closes || is_1_0))

unfoldable pub recv_requests :
    ℕ → Bytes → ℕ → HttpResponse → Bytes → Bool → Outcome (Received × List HttpEvent)
unfolding take_request
recv_requests zero text read s agent closes = no_fuel
recv_requests (suc fuel) text read s agent closes = elim (find_sub header_end text) [
  | none ↦ done (received read s closes, [])
  | some i ↦
      let read' = read + (i + 4) in
      on_round (recv_requests fuel (drop (i + 4) text) read') read' s closes
        (take_request (take (i + 3) text) s agent)
]

abbrev pub end_of : ℕ → Received × List HttpEvent → (HttpResponse × List HttpEvent) × ℤ
end_of size (received read s closes, events) =
    ((record s { is_complete = read == size; send_complete_close = closes }, events), pos read)
end_of size (refused s, events) = ((s, events), minus_one)

abbrev pub on_done {ℓ κ} : {A : Type ℓ} {B : Type κ} → (A → B) → Outcome A → Outcome B
on_done f (done a) = done (f a)
on_done f Outcome.fault = Outcome.fault
on_done f no_fuel = no_fuel

-- The pointer to the data is not null; each round removes four bytes, so the fuel is enough.
unfoldable pub recv_handler : Bytes → HttpResponse → Outcome ((HttpResponse × List HttpEvent) × ℤ)
unfolding recv_requests
recv_handler text s =
    if length text == 0 || ltb http_request_data_max_size (length text)
    then done ((s, sends_error (ascii "Bad Request") ∷ []), minus_one)
    else on_done (end_of (length text))
        (recv_requests (suc (length text)) (text ++ 0 ∷ []) 0 s [] false)
