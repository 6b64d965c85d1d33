-- ===== src/WebSocket/Tests.antt =====
-- Tests and instances for the WebSocket object. The derived class of the instances keeps what it
-- receives, newest first.
use oven_web_rtctester.Prelude.{
  ℕ, ◌+◌, ◌^◌, ◌<◌, ◌≡◌, ◌≢◌, refl, Bool, true, false, none, some, List, [], ◌∷◌, ◌++◌, length,
  take, replicate, arith,
}
use oven_web_rtctester.Prelude.Int.{pos}
use oven_web_rtctester.Prelude.Bytes.{Bytes, ascii, find_sub}
use oven_web_rtctester.Prelude.Outcome.{done}
use oven_web_rtctester.WebSocket.{
  payload_size, answered, recv_data_proc, recv_loop, make_text_data, Socket, header_end,
  header_pattern, recv_handler,
}
use oven_web_rtctester.WebSocket.Frames.{
  recv_data_proc-make_text_data, recv_data_proc-make_text_data_small,
}
use oven_web_rtctester.WebSocket.Stream.{Ends, recv_loop-Ends}
use oven_web_rtctester.WebSocket.Delivery.{frames, stream}
use oven_web_rtctester.WebSocket.Handshake.{recv_handler-stream}
use oven_web_rtctester.WebSocket.Overrun.{recv_data_proc-ne-none, recv_data_proc_overrun}

abbrev Log : Type 0
Log = List Bytes

abbrev keep : Log → Bytes → ℕ → Log × Bool
keep log payload op_code = (payload ∷ log, true)

abbrev note : Log → Bool → Log × Bool
note log ok = (log, ok)

abbrev long_text : Bytes
long_text = replicate 130 b'a'

abbrev mixed_text : Bytes
mixed_text = replicate 200 b'b'

recv_data_proc-make_text_data_example :
    recv_data_proc keep [] (make_text_data long_text [] ++ 129 ∷ [])
    ≡ some (
        answered keep
          (pos (length (make_text_data long_text [])))
          ((long_text ++ 0 ∷ []) ∷ [], true))
recv_data_proc-make_text_data_example =
    recv_data_proc-make_text_data keep [] long_text (129 ∷ []) (omega arith) (omega arith)

-- The frame of "hello" is taken for its first five bytes.
recv_data_proc-make_text_data_small_example :
    (recv_data_proc keep [] (make_text_data (ascii "hello") [] ++ 1 ∷ [])
      ≡ some (answered keep (pos 5) ((129 ∷ 5 ∷ ascii "hel" ++ 0 ∷ []) ∷ [], true)))
    × (length (make_text_data (ascii "hello") []) ≡ 7)
recv_data_proc-make_text_data_small_example =
    recv_data_proc-make_text_data_small keep [] (ascii "hello") (1 ∷ []) (omega arith) (omega arith)

recv_loop-Ends_example : Ends keep 0 3 (recv_loop keep 4 [] 0 (129 ∷ 1 ∷ 65 ∷ []))
recv_loop-Ends_example = recv_loop-Ends keep 4 [] 0 (129 ∷ 1 ∷ 65 ∷ []) (omega arith)

cut_inside : 10 < length (make_text_data long_text [])
unfolding make_text_data
cut_inside = omega arith

abbrev stream_bytes : Bytes
stream_bytes = frames (long_text ∷ mixed_text ∷ []) ++ take 10 (make_text_data long_text [])

stream_room : length stream_bytes < 1000
unfolding make_text_data
stream_room = omega arith

stream_result :
    stream keep [] 0 (long_text ∷ mixed_text ∷ [])
    ≡ ((mixed_text ++ 0 ∷ []) ∷ (long_text ++ 0 ∷ []) ∷ [], pos 338)
unfolding stream make_text_data
stream_result = refl

abbrev upgrade : Bytes
upgrade = ascii "HTTP/1.1 101 Switching Protocols\r\nUpgrade: websocket"

abbrev fresh : Socket Log
fresh = record { handshake_complete = false; app = [] }

upgrade_ends : find_sub header_end (upgrade ++ header_end) ≡ some (length upgrade)
unfolding find_sub
upgrade_ends = refl

upgrade_marked : find_sub header_pattern upgrade ≡ some 0
unfolding find_sub
upgrade_marked = refl

recv_handler-stream_example :
    recv_handler keep note 1000 fresh ((upgrade ++ header_end) ++ stream_bytes)
    ≡ done (
      record {
        handshake_complete = true;
        app = (stream keep [] 56 (long_text ∷ mixed_text ∷ [])).0;
      },
      (stream keep [] 56 (long_text ∷ mixed_text ∷ [])).1,
    )
recv_handler-stream_example =
    recv_handler-stream keep note 1000 fresh upgrade (long_text ∷ mixed_text ∷ []) long_text 10 refl
      upgrade_ends upgrade_marked (omega arith) (omega arith) cut_inside stream_room

small_declared : payload_size (129 ∷ 126 ∷ 1 ∷ 0 ∷ []) 126 + 14 < 2 ^ 31
unfolding payload_size
small_declared = omega arith

recv_data_proc-ne-none_example : recv_data_proc keep [] (129 ∷ 126 ∷ 1 ∷ 0 ∷ []) ≢ none
recv_data_proc-ne-none_example =
    recv_data_proc-ne-none keep [] (129 ∷ 126 ∷ 1 ∷ 0 ∷ []) small_declared

-- ten bytes that declare 2^31 bytes of payload
abbrev huge : Bytes
huge = 129 ∷ 127 ∷ 0 ∷ 0 ∷ 0 ∷ 0 ∷ 128 ∷ 0 ∷ 0 ∷ 0 ∷ []

huge_declared : payload_size huge 127 ≡ 2 ^ 31
unfolding payload_size
huge_declared = refl

recv_data_proc_overrun_example : recv_data_proc keep [] huge ≡ none
recv_data_proc_overrun_example =
    recv_data_proc_overrun keep [] huge (omega arith) refl (λ e. omega arith)
      (omega (arith, huge_declared)) (omega (arith, huge_declared))
