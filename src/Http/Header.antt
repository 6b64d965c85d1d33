-- ===== src/Http/Header.antt =====
-- The fields that the parser of srcs/common/network/protocol_object/http_response_object.cpp finds in
-- the header of the request that `send_request` writes: the agent, and no origin.
use mathlib.Core.List.{append_assoc}
use oven_web_rtctester.Prelude.{
  ℕ, ◌≡◌, refl, sym, ap, ◌∙◌, false, none, some, [], ◌∷◌, ◌++◌, ◌==◌, if◌then◌else◌, length,
  drop_append, All, arith,
}
use oven_web_rtctester.Prelude.Bytes.{Bytes, ascii, find_sub, starts_with}
use oven_web_rtctester.Http.{
  http_line_end, HttpResponse, value_of, field_at, field_value, with_origin, agent_of, cors_of,
}
use oven_web_rtctester.Http.Answers.{send_request}

-- The byte does not stand in the text.
abbrev pub Lacks : ℕ → Bytes → Type 0
Lacks p = All (λ b. (b == p) ≡ false)

Lacks-append : (p : ℕ) (x y : Bytes) → Lacks p x → Lacks p y → Lacks p (x ++ y)
Lacks-append p [] y a b = b
Lacks-append p (c ∷ x) y (one, a) b = (one, Lacks-append p x y a b)

find_sub_past :
    (p : ℕ) (ps x rest : Bytes)
    → Lacks p x
    → find_sub (p ∷ ps) rest ≡ some 0
    → find_sub (p ∷ ps) (x ++ rest) ≡ some (length x)
unfolding find_sub starts_with
find_sub_past p ps [] rest free e = e
find_sub_past p ps (c ∷ x) rest (other, free) e = ground (arith, find_sub_past p ps x rest free e)

find_sub_absent : (p : ℕ) (ps x : Bytes) → Lacks p x → find_sub (p ∷ ps) x ≡ none
unfolding find_sub starts_with
find_sub_absent p ps [] free = refl
find_sub_absent p ps (c ∷ x) (other, free) = ground (arith, find_sub_absent p ps x free)

-- The header in two parts, in front of the agent and from it on.
abbrev lines_before : Bytes
lines_before = ascii " HTTP/1.1\r\nAccept: */*\r\nAccept-Language: ko\r\n"

abbrev before : Bytes → Bytes
before request_url = 71 ∷ 69 ∷ 84 ∷ 32 ∷ 47 ∷ (request_url ++ lines_before)

abbrev lines_behind : Bytes
lines_behind = ascii "\r\nAccept-Encoding: \r\nConnection: Keep-Alive\r\n\r"

abbrev behind : Bytes → Bytes
behind host =
    ascii "User-Agent: Mozilla/4.0\r\nAccept-Encoding: gzip, deflate\r\nHost: "
    ++ (host ++ lines_behind)

abbrev pub get_header : Bytes → Bytes → Bytes
get_header request_url host = before request_url ++ behind host

pub send_request-get_header :
    (request_url host : Bytes)
    → send_request request_url host ≡ get_header request_url host ++ 10 ∷ []
unfolding send_request
send_request-get_header request_url host =
    let ended = ascii "User-Agent: Mozilla/4.0\r\nAccept-Encoding: gzip, deflate\r\nHost: " in
    sym (
      append_assoc (before request_url) (behind host) (10 ∷ [])
      ∙ ap (λ x. 71 ∷ 69 ∷ 84 ∷ 32 ∷ 47 ∷ x)
          (append_assoc request_url lines_before (behind host ++ 10 ∷ []))
      ∙ ap (λ x. 71 ∷ 69 ∷ 84 ∷ 32 ∷ 47 ∷ (request_url ++ (lines_before ++ (ended ++ x))))
          (append_assoc host lines_behind (10 ∷ [])))

-- the value of the field that the header goes on with
agent_here :
    (host : Bytes)
    → field_at (ascii "User-Agent: ") (behind host) (some 0) ≡ some (ascii "Mozilla/4.0")
unfolding find_sub starts_with
agent_here host = refl

pub field_value_agent :
    (request_url host : Bytes)
    → Lacks b'U' request_url
    → field_value (ascii "User-Agent: ") (get_header request_url host) ≡ some (ascii "Mozilla/4.0")
unfolding field_value find_sub starts_with
field_value_agent request_url host free =
    let x = before request_url in
    let found =
      find_sub_past b'U' (ascii "ser-Agent: ") x (behind host)
        (
          refl,
          (
            refl,
            (refl, (refl, (refl, Lacks-append b'U' request_url lines_before free (ground arith)))),
          ),
        )
        refl in
    let left = drop_append (length x) x (behind host) refl in
    ap (field_at (ascii "User-Agent: ") (x ++ behind host)) found
    ∙ ap (λ field. value_of (ascii "User-Agent: ") field (find_sub http_line_end field)) left
    ∙ agent_here host

pub field_value_origin :
    (request_url host : Bytes)
    → Lacks b'O' request_url
    → Lacks b'O' host
    → field_value (ascii "Origin:") (get_header request_url host) ≡ none
unfolding field_value
field_value_origin request_url host url free =
    let rest : Lacks b'O' (behind host) =
      ground (arith, Lacks-append b'O' host lines_behind free (ground arith)) in
    let all =
      Lacks-append b'O' (before request_url) (behind host)
        (
          refl,
          (
            refl,
            (refl, (refl, (refl, Lacks-append b'O' request_url lines_before url (ground arith)))),
          ),
        )
        rest in
    ap (field_at (ascii "Origin:") (get_header request_url host))
      (find_sub_absent b'O' (ascii "rigin:") (get_header request_url host) all)

-- What the two fields do to the state and to the agent.
pub agent_of_lem :
    (s : HttpResponse) (request_url host : Bytes)
    → Lacks b'U' request_url
    → agent_of s (get_header request_url host) []
      ≡ (if s.agent_parsing then ascii "Mozilla/4.0" else [])
unfolding agent_of
agent_of_lem s request_url host free = rw (field_value_agent request_url host free) refl

pub cors_of_lem :
    (header : Bytes) (s : HttpResponse)
    → field_value (ascii "Origin:") header ≡ none
    → cors_of header s ≡ s
unfolding cors_of
cors_of_lem header s e =
    let seen = with_origin s (field_value (ascii "Origin:") header) in
    elim s.cors_origin_list as (λ origins. elim origins [ [] ↦ s | c ∷ more ↦ seen ] ≡ s) [
      | [] ↦ refl
      | c ∷ more ↦ ap (with_origin s) e
    ]
