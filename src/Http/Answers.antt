-- ===== src/Http/Answers.antt =====
-- The texts that the two HTTP objects send. The date is the one that `strftime` gave; `snprintf`
-- keeps the first 4095 letters, and a `%s` ends at a zero.
use oven_web_rtctester.Prelude.{
  ℕ, zero, suc, ◌+◌, ◌/◌, ◌%◌, ◌||◌, Option, none, some, [], ◌∷◌, ◌++◌, ltb, ◌==◌, if◌then◌else◌,
  length, take,
}
use oven_web_rtctester.Prelude.Int.{ℤ, pos, negsuc}
use oven_web_rtctester.Prelude.Bytes.{Bytes, ascii}
use oven_web_rtctester.WebSocket.{header_end}
use oven_web_rtctester.Http.{http_line_end, HttpResponse, c_str}

-- `%d`; an `int` has at most ten digits
unfoldable pub decimal : ℕ → ℕ → Bytes
decimal zero n = []
decimal (suc fuel) n =
    let front = decimal fuel (n / 10) in
    if ltb n 10 then (48 + n) ∷ [] else front ++ (48 + n % 10) ∷ []

abbrev pub print_int : ℤ → Bytes
print_int (pos n) = decimal 10 n
print_int (negsuc n) = b'-' ∷ decimal 10 (suc n)

abbrev pub line : Bytes → Bytes → Bytes
line text rest = text ++ 13 ∷ 10 ∷ rest

-- `snprintf` into 4096 bytes
abbrev pub printed : Bytes → Bytes
printed text = take 4095 text

abbrev pub newline : Bytes → Bytes → Bytes
newline text rest = text ++ 10 ∷ rest

unfoldable pub error_body : Bytes → Bytes
unfolding c_str
error_body error_string = printed (
    newline (ascii "<html>") (
      newline (ascii "<head>") (
        newline (ascii "<title>error</title>") (
          newline (ascii "</head>") (
            newline (ascii "<body>") (
              newline (ascii "<br>" ++ c_str error_string)
                (newline (ascii "</body>") (ascii "</html>"))))))))

-- `_cors_origin_url` as an address
abbrev pub origin_address : HttpResponse → Bytes
origin_address s =
    (if s.is_support_ssl then ascii "https" else ascii "http")
    ++ (ascii "://" ++ c_str s.cors_origin_url)

-- the lines that a response has when it is for another origin
unfoldable pub cors_lines : HttpResponse → Bytes → Bytes
unfolding c_str
cors_lines s rest =
    if s.cors_use
    then line (ascii "Access-Control-Allow-Credentials: true") (
        line (ascii "Access-Control-Allow-Headers: Content-Type, *")
          (line (ascii "Access-Control-Allow-Origin: " ++ origin_address s) rest))
    else rest

unfoldable pub content_length_line : ℤ → Bytes
unfolding decimal
content_length_line size = ascii "Content-Length: " ++ (print_int size ++ header_end)

abbrev pub cache_line : Option ℤ → Bytes → Bytes
cache_line none rest = rest
cache_line (some max_age) rest = line (ascii "Cache-Control: max-age=" ++ print_int max_age) rest

-- both `SendErrorResponse`: with a maximal age, and without
unfoldable pub error_response : Bytes → Option ℤ → Bytes → HttpResponse → Bytes
unfolding c_str error_body cors_lines content_length_line decimal
error_response date_time max_age error_string s =
    let body = error_body error_string in
    printed (
      line (c_str s.http_version ++ ascii " 400 Bad Request") (
        line (ascii "Date: " ++ c_str date_time) (
          line (ascii "Server: http server") (
            line (ascii "Content-Type: text/html") (
              line (ascii "Accept-Ranges: bytes") (
                cache_line max_age
                  (cors_lines s (content_length_line (pos (length body)) ++ body))))))))

-- `SendResponse` of a header and data, and of data with a type; `none` is the null pointer. The
-- caller's size is that of the data.
abbrev pub response_header : Bytes → Bytes → ℕ → HttpResponse → Bytes
response_header date_time content_type size s = printed (
    line (c_str s.http_version ++ ascii " 200 OK") (
      line (ascii "Date: " ++ c_str date_time) (
        line (ascii "Server: http server") (
          line (ascii "Content-Type: " ++ c_str content_type) (
            line (ascii "Accept-Ranges: bytes") (cors_lines s (content_length_line (pos size))))))))

unfoldable pub send_response : Bytes → Bytes → Option Bytes → HttpResponse → Option Bytes
unfolding c_str cors_lines content_length_line
send_response date_time content_type none s = none
send_response date_time content_type (some content) s =
    some (response_header date_time content_type (length content) s ++ content)

unfoldable pub send_redirect_response : Bytes → Bytes → Bytes → Bytes → HttpResponse → Bytes
unfolding c_str cors_lines content_length_line
send_redirect_response date_time content_type redirect_url content s =
    printed (
      line (c_str s.http_version ++ ascii " 302 Found") (
        line (ascii "Date: " ++ c_str date_time) (
          line (ascii "Server: http server") (
            line (ascii "Content-Type: " ++ c_str content_type) (
              line (ascii "Accept-Ranges: bytes") (
                line (ascii "Location: " ++ c_str redirect_url)
                  (cors_lines s (content_length_line (pos (length content))))))))))
    ++ content

unfoldable pub send_redirect : Bytes → HttpResponse → Bytes
unfolding c_str cors_lines content_length_line
send_redirect redirect_url s = printed (
    line (c_str s.http_version ++ ascii " 302 Found") (
      line (ascii "Location: " ++ c_str redirect_url) (cors_lines s (content_length_line (pos 0)))))

abbrev pub cookie_part : Bytes → Bytes → Bytes
cookie_part name [] = []
cookie_part name (c ∷ value) = name ++ c ∷ value

-- the cookies are kept, and no response sends them
unfoldable pub set_cookie : Bytes → Bytes → Bytes → Bytes → HttpResponse → HttpResponse
set_cookie name value domain path s =
    let old = if length s.cookie == 0 then [] else s.cookie ++ http_line_end in
    let text =
      ascii "Set-Cookie: "
      ++ (name
          ++ (b'='
              ∷ (value
                  ++ (cookie_part (ascii "; Domain=") domain
                      ++ cookie_part (ascii "; Path=") path)))) in
    if length name == 0 || length value == 0 then s else record s { cookie = old ++ text }

-- `SendRequest` of the object that asks
unfoldable pub send_request : Bytes → Bytes → Bytes
send_request request_url host =
    ascii "GET /"
    ++ (request_url
        ++ line (ascii " HTTP/1.1") (
            line (ascii "Accept: */*") (
              line (ascii "Accept-Language: ko") (
                line (ascii "User-Agent: Mozilla/4.0") (
                  line (ascii "Accept-Encoding: gzip, deflate") (
                    line (ascii "Host: " ++ host) (
                      line (ascii "Accept-Encoding: ")
                        (ascii "Connection: Keep-Alive" ++ header_end))))))))

-- `SendPostMethodRequest`
unfoldable pub send_post_method_request : Bytes → Bytes → Bytes → Bytes
unfolding decimal
send_post_method_request request_url content host =
    ascii "POST /"
    ++ (request_url
        ++ line (ascii " HTTP/1.1") (
            line (ascii "Content-Type: application/x-www-form-urlencoded") (
              line (ascii "Host: " ++ host) (
                ascii "Content-Length: "
                ++ (decimal 20 (length content) ++ (header_end ++ content))))))
