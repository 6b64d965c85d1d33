-- ===== src/Http/Client/Chunks.antt =====
-- A response whose content comes in chunks.
use mathlib.Core.List.{append_assoc, append-nil}
use oven_web_rtctester.Prelude.{
  ℕ, zero, suc, ◌+◌, ◌-◌, ◌≤◌, ◌<◌, ◌≡◌, refl, sym, ap, ◌∙◌, true, false, none, some, List, [], ◌∷◌,
  ◌++◌, ◌==◌, ==_refl, ltb, length, take, drop, length-append, drop_append, take_append, All, arith,
}
use oven_web_rtctester.Prelude.Int.{pos}
use oven_web_rtctester.Prelude.Bytes.{Bytes, ascii, find_sub, starts_with}
use oven_web_rtctester.Prelude.Outcome.{done}
use oven_web_rtctester.WebSocket.{header_end}
use oven_web_rtctester.Http.{http_line_end}
use oven_web_rtctester.Http.Requests.{NoCr, find_sub-skip}
use oven_web_rtctester.Http.Client.{
  strnstr, strtol_16, chunk_loop, last_chunk, take_chunks, with_header, recv_response,
}

-- A chunk is its size in letters and its bytes.
abbrev pub IsChunk : Bytes × Bytes → Type 0
IsChunk (digits, bytes) = NoCr digits × (strtol_16 digits ≡ pos (length bytes)) × (0 < length bytes)

abbrev pub chunks_text : List (Bytes × Bytes) → Bytes
chunks_text [] = last_chunk
chunks_text ((digits, bytes) ∷ chunks) =
    13 ∷ 10 ∷ (digits ++ 13 ∷ 10 ∷ (bytes ++ chunks_text chunks))

abbrev pub content_of : List (Bytes × Bytes) → Bytes
content_of [] = []
content_of ((digits, bytes) ∷ chunks) = bytes ++ content_of chunks

find_line_end : (rest : Bytes) → find_sub http_line_end (13 ∷ 10 ∷ rest) ≡ some 0
unfolding find_sub starts_with
find_line_end rest = refl

last_round :
    (fuel : ℕ) (content : Bytes)
    → chunk_loop (suc fuel) content last_chunk ≡ done (some (content ++ []))
unfolding chunk_loop find_sub starts_with strtol_16
last_round fuel content = rw (append-nil content) refl

chunk_round :
    (fuel : ℕ) (content digits bytes rest : Bytes)
    → IsChunk (digits, bytes)
    → chunk_loop (suc fuel) content (13 ∷ 10 ∷ (digits ++ 13 ∷ 10 ∷ (bytes ++ rest)))
      ≡ chunk_loop fuel (content ++ bytes) rest
unfolding chunk_loop
chunk_round fuel content digits bytes rest (free, size, some_bytes) =
    let behind = bytes ++ rest in
    let text = digits ++ 13 ∷ 10 ∷ behind in
    let found : find_sub http_line_end text ≡ some (length digits + 0) =
      find_sub-skip (10 ∷ []) digits (13 ∷ 10 ∷ behind) 0 free (find_line_end behind) in
    let size_text : take (length digits + 0) text ≡ digits =
      take_append (length digits + 0) digits (13 ∷ 10 ∷ behind) (omega arith) in
    let left : drop (length digits + 0 + 2) text ≡ behind =
      ap (λ x. drop (length digits + 0 + 2) x) (sym (append_assoc digits (13 ∷ 10 ∷ []) behind))
      ∙ drop_append (length digits + 0 + 2) (digits ++ 13 ∷ 10 ∷ []) behind
          (omega (arith, length-append digits (13 ∷ 10 ∷ []))) in
    let inside : ltb (suc (suc (length text))) (length bytes) ≡ false =
      ground (arith, length-append digits (13 ∷ 10 ∷ behind), length-append bytes rest) in
    let there : ltb (length behind) (length bytes) ≡ false =
      ground (arith, length-append bytes rest) in
    let more : (length bytes == 0) ≡ false = ground arith in
    rw found (
      rw (size_text, left)
        (rw size (
          rw (inside, there)
            (rw more (
              rw
                (
                  take_append (length bytes) bytes rest refl,
                  drop_append (length bytes) bytes rest refl,
                )
                refl)))))

-- The chunks in their order make the content, for as many rounds as there are chunks and one more.
chunk_loop-content_of :
    (chunks : List (Bytes × Bytes)) (fuel : ℕ) (content : Bytes)
    → length chunks < fuel
    → All IsChunk chunks
    → chunk_loop fuel content (chunks_text chunks) ≡ done (some (content ++ content_of chunks))
chunk_loop-content_of chunks zero content enough good = absurd (omega arith)
chunk_loop-content_of [] (suc fuel) content enough good = last_round fuel content
chunk_loop-content_of ((digits, bytes) ∷ chunks) (suc fuel) content enough (one, good) =
    chunk_round fuel content digits bytes (chunks_text chunks) one
    ∙ chunk_loop-content_of chunks fuel (content ++ bytes) (omega (arith, enough)) good
    ∙ ap (λ x. done (some x)) (append_assoc content bytes (content_of chunks))

-- what stands in front of the last chunk
abbrev front : List (Bytes × Bytes) → Bytes
front [] = []
front ((digits, bytes) ∷ chunks) = 13 ∷ 10 ∷ (digits ++ 13 ∷ 10 ∷ (bytes ++ front chunks))

front_last : (chunks : List (Bytes × Bytes)) → chunks_text chunks ≡ front chunks ++ last_chunk
front_last [] = refl
front_last ((digits, bytes) ∷ chunks) =
    let inner : bytes ++ chunks_text chunks ≡ (bytes ++ front chunks) ++ last_chunk =
      ap (λ x. bytes ++ x) (front_last chunks)
      ∙ sym (append_assoc bytes (front chunks) last_chunk) in
    ap (λ x. 13 ∷ 10 ∷ (digits ++ 13 ∷ 10 ∷ x)) inner
    ∙ ap (λ x. 13 ∷ 10 ∷ x)
        (sym (append_assoc digits (13 ∷ 10 ∷ (bytes ++ front chunks)) last_chunk))

length-chunks : (chunks : List (Bytes × Bytes)) → length chunks ≤ length (chunks_text chunks)
length-chunks [] = omega arith
length-chunks ((digits, bytes) ∷ chunks) = omega (
  arith,
  length-append digits (13 ∷ 10 ∷ (bytes ++ chunks_text chunks)),
  length-append bytes (chunks_text chunks),
  length-chunks chunks,
)

pub recv_response-header :
    (text : Bytes)
    → 0 < length text
    → recv_response text ≡ with_header text (strnstr text header_end (length text))
unfolding recv_response
recv_response-header text some_text =
    let whole : (length text == 0) ≡ false = ground arith in rw whole refl

starts_with_refl : (p : Bytes) → starts_with p p ≡ true
unfolding starts_with
starts_with_refl [] = refl
starts_with_refl (c ∷ p) = rw (==_refl c, starts_with_refl p) refl

ends_last :
    (x : Bytes)
    → starts_with last_chunk (drop (length (x ++ last_chunk) - 7) (x ++ last_chunk)) ≡ true
ends_last x =
    let front_size : length x ≡ length (x ++ last_chunk) - 7 =
      omega (arith, length-append x last_chunk) in
    rw (drop_append (length (x ++ last_chunk) - 7) x last_chunk front_size)
      (starts_with_refl last_chunk)

take_chunks-content_of :
    (header : Bytes) (chunks : List (Bytes × Bytes))
    → All IsChunk chunks
    → let text = header ++ 13 ∷ 10 ∷ chunks_text chunks in
      take_chunks text (length header + 4) ≡ done (pos (length text), some (content_of chunks))
take_chunks-content_of header chunks good =
    let text = header ++ 13 ∷ 10 ∷ chunks_text chunks in
    let rest = 13 ∷ 10 ∷ chunks_text chunks in
    let split : text ≡ (header ++ 13 ∷ 10 ∷ front chunks) ++ last_chunk =
      ap (λ x. header ++ 13 ∷ 10 ∷ x) (front_last chunks)
      ∙ sym (append_assoc header (13 ∷ 10 ∷ front chunks) last_chunk) in
    let last : starts_with last_chunk (drop (length text - 7) text) ≡ true =
      ap (λ x. starts_with last_chunk (drop (length x - 7) x)) split
      ∙ ends_last (header ++ 13 ∷ 10 ∷ front chunks) in
    let size = length-append header rest in
    let long : ltb (length text) 7 ≡ false =
      ground
        (arith, ap length split, length-append (header ++ 13 ∷ 10 ∷ front chunks) last_chunk) in
    let behind : drop (length header + 4 - 2) text ≡ chunks_text chunks =
      ap (λ x. drop (length header + 4 - 2) x)
        (sym (append_assoc header (13 ∷ 10 ∷ []) (chunks_text chunks)))
      ∙ drop_append (length header + 4 - 2) (header ++ 13 ∷ 10 ∷ []) (chunks_text chunks)
          (omega (arith, length-append header (13 ∷ 10 ∷ []))) in
    rw (long, last)
      (rw behind (
        rw
          (chunk_loop-content_of chunks (suc (length text)) []
            (omega (arith, size, length-chunks chunks)) good)
          refl))

-- A response without a length whose header, up to the blank line, is followed by chunks up to the
-- empty one is taken whole, and its content is the bytes of the chunks in their order: for sizes
-- that `strtol` reads as the sizes of the chunks, of which none is empty.
pub recv_response-content_of :
    (header : Bytes) (chunks : List (Bytes × Bytes))
    → let text = header ++ 13 ∷ 10 ∷ chunks_text chunks in
      strnstr text header_end (length text) ≡ some (length header)
      → strnstr text (ascii "Content-Length") (length header + 4) ≡ none
      → All IsChunk chunks
      → recv_response text ≡ done (pos (length text), some (content_of chunks))
recv_response-content_of header chunks ends no_length good =
    let text = header ++ 13 ∷ 10 ∷ chunks_text chunks in
    recv_response-header text (omega (arith, length-append header (13 ∷ 10 ∷ chunks_text chunks)))
    ∙ rw ends (rw no_length (take_chunks-content_of header chunks good))
