-- ===== src/WebSocket.antt =====
-- srcs/common/network/protocol_object/web_socket_request_object.cpp: the frame parser, the frame
-- writer and the receive loop. The virtual methods `OnRecvWebsocketData` and `OnHandshakeComplete`
-- are the parameters `on_recv` and `on_handshake`, which change the state of the derived class.
pub mod Frames
pub mod Stream
pub mod Delivery
pub mod Handshake
pub mod Masking
pub mod Overrun
mod Tests
use Prim.Native.Nat.{bit_xor}
use oven_web_rtctester.Prelude.{
  ℕ, zero, suc, ◌+◌, ◌*◌, ◌/◌, ◌%◌, ◌^◌, Bool, true, false, ◌&&◌, ◌||◌, Option, none, some, [], ◌∷◌,
  ◌++◌, ltb, leb, ◌==◌, if◌then◌else◌, length, get_or, take, drop,
}
use oven_web_rtctester.Prelude.Int.{ℤ, pos, negsuc, minus_one, ltb_ℤ, to_int32}
use oven_web_rtctester.Prelude.Bytes.{Bytes, ascii, find_sub}
use oven_web_rtctester.Prelude.Outcome.{Outcome, done, fault, no_fuel}

-- WEBSOCKET_MIN_SIZE, WEBSOCKET_MASKING_SIZE and the opcode of a text frame
abbrev pub min_size : ℕ
min_size = 3

abbrev pub masking_size : ℕ
masking_size = 4

abbrev pub text_frame : ℕ
text_frame = 1

abbrev byte_at : Bytes → ℕ → ℕ
byte_at bytes i = get_or bytes i 0

-- What `ParsingData` returns: false, or true with the opcode and the payload.
pub data Parsed : Type 0 where
  refused : Parsed
  frame : ℕ → Bytes → Parsed

-- The bytes from `start` on, `size` of them; `none` where the range is not inside the buffer.
pub slice : Bytes → ℕ → ℤ → Option Bytes
slice bytes start (pos n) =
    if leb (start + n) (length bytes) then some (take n (drop start bytes)) else none
slice bytes start (negsuc n) = none

-- `payload->at(index) ^ masking_key[index % 4]` for every index from `index` on
pub unmask : Bytes → ℕ → Bytes → Bytes
unmask key index [] = []
unmask key index (b ∷ bs) = bit_xor b (get_or key (index % 4) 0) ∷ unmask key (index + 1) bs

-- A text payload gets a terminating zero.
abbrev pub terminated : ℕ → Bytes → Bytes
terminated op_code payload = if op_code == text_frame then payload ++ 0 ∷ [] else payload

abbrev finish_frame : ℕ → Option Bytes → Option Parsed
finish_frame op_code none = none
finish_frame op_code (some payload) = some (frame op_code (terminated op_code payload))

abbrev unmask_all : Bytes → Option Bytes → Option Bytes
unmask_all key none = none
unmask_all key (some payload) = some (unmask key 0 payload)

unfoldable pub parsing_data : Bytes → ℕ → ℤ → Bool → Option Parsed
unfolding slice
parsing_data bytes header_size payload_size is_mask =
    let fin = byte_at bytes 0 / 128 % 2 == 1 in
    let op_code = byte_at bytes 0 % 16 in
    if fin && op_code == 8
    then some refused
    else if is_mask
    then finish_frame op_code (
        unmask_all (drop header_size bytes) (slice bytes (header_size + masking_size) payload_size))
    else finish_frame op_code (slice bytes header_size payload_size)

-- `payload_header_size`, which starts at 0 and is set in the two extended cases only
unfoldable pub payload_header_size : ℕ → ℕ
payload_header_size len = if len == 126 then 4 else if len == 127 then 10 else 0

-- The eight bytes from index `i` on, most significant first.
pub be64 : Bytes → ℕ → ℕ
be64 bytes i =
    byte_at bytes i * 2 ^ 56
    + byte_at bytes (i + 1) * 2 ^ 48
    + byte_at bytes (i + 2) * 2 ^ 40
    + byte_at bytes (i + 3) * 2 ^ 32
    + byte_at bytes (i + 4) * 2 ^ 24
    + byte_at bytes (i + 5) * 2 ^ 16
    + byte_at bytes (i + 6) * 2 ^ 8
    + byte_at bytes (i + 7)

unfoldable pub payload_size : Bytes → ℕ → ℕ
unfolding be64
payload_size bytes len =
    if len == 126
    then byte_at bytes 2 * 256 + byte_at bytes 3
    else if len == 127
    then be64 bytes 2
    else len

-- How many bytes the header takes whose bytes are read, up to `data[3]`, `data[9]` or `data[1]`.
abbrev pub header_reads : ℕ → ℕ
header_reads len = if len == 126 then 4 else if len == 127 then 10 else 2

-- `read_size`: a 64-bit sum that is stored in an `int`
abbrev pub read_size_of : ℕ → Bool → ℕ → ℤ
read_size_of header_size is_mask size =
    to_int32 (header_size + (if is_mask then masking_size else 0) + size)

module _ {ℓ} {S : Type ℓ} (on_recv : S → Bytes → ℕ → S × Bool) where
  -- The end of `RecvDataProc`: -1 if the callback refuses the payload.
  abbrev pub answered : ℤ → S × Bool → S × ℤ
  answered read_size (s, ok) = (s, if ok then read_size else minus_one)

  abbrev pub deliver : S → ℤ → Option Parsed → Option (S × ℤ)
  deliver s read_size none = none
  deliver s read_size (some refused) = some (s, minus_one)
  deliver s read_size (some (frame op_code payload)) =
      some (answered read_size (on_recv s payload op_code))

  -- `none` is a read outside the data, of the header or of the payload
  unfoldable pub recv_data_proc : S → Bytes → Option (S × ℤ)
  recv_data_proc s bytes =
      let len = byte_at bytes 1 % 128 in
      let is_mask = byte_at bytes 1 / 128 % 2 == 1 in
      let header_size = payload_header_size len in
      let size = payload_size bytes len in
      let read_size = read_size_of header_size is_mask size in
      if ltb (length bytes) min_size
      then some (s, pos 0)
      else if len == 126 && ltb (length bytes) 4 || len == 127 && ltb (length bytes) 10
      then some (s, pos 0)
      else if ltb (length bytes) (header_reads len)
      then none
      else if ltb_ℤ (pos (length bytes)) read_size
      then some (s, pos 0)
      else deliver s read_size (parsing_data bytes header_size (to_int32 size) is_mask)

  -- The loop of `RecvHandler` over the bytes that are left. An int of -1 or less ends it with that
  -- result, 0 with what was processed.
  unfoldable pub recv_loop : ℕ → S → ℕ → Bytes → Outcome (S × ℤ)
  recv_loop zero s processed bytes = no_fuel
  recv_loop (suc fuel) s processed [] = done (s, pos processed)
  recv_loop (suc fuel) s processed (b ∷ bs) = elim (recv_data_proc s (b ∷ bs)) [
    | none ↦ fault
    | some (s', negsuc n) ↦ done (s', negsuc n)
    | some (s', pos zero) ↦ done (s', pos processed)
    | some (s', pos (suc n)) ↦ recv_loop fuel s' (processed + suc n) (drop n bs)
  ]

-- The part of the object's state that the receive path uses, and the derived class's state.
pub record Socket {ℓ} (S : Type ℓ) : Type ℓ where
  pub handshake_complete : Bool
  pub app : S

abbrev pub header_end : Bytes
header_end = b'\r' ∷ b'\n' ∷ b'\r' ∷ b'\n' ∷ []

abbrev pub header_pattern : Bytes
header_pattern = ascii "HTTP/1.1 101 Switching Protocols"

module _ {ℓ} {S : Type ℓ} (on_recv : S → Bytes → ℕ → S × Bool)
    (on_handshake : S → Bool → S × Bool) where
  -- the search for the pattern, once the header's end is found
  abbrev check_pattern : Socket S → ℕ → Option ℕ → Socket S × ℤ
  check_pattern w header_end_pos none = (record w { app = (on_handshake w.app false).0 }, minus_one)
  check_pattern w header_end_pos (some at_pos) = (
    record { handshake_complete = true; app = (on_handshake w.app true).0 },
    pos (header_end_pos + 4),
  )

  unfoldable pub recv_handshake_proc : Socket S → Bytes → Socket S × ℤ
  recv_handshake_proc w bytes = elim (find_sub header_end (bytes ++ 0 ∷ [])) [
    | none ↦ (w, pos 0)
    | some header_end_pos ↦
        check_pattern w header_end_pos (find_sub header_pattern (bytes ++ 0 ∷ []))
  ]

  abbrev with_app : Socket S → Outcome (S × ℤ) → Outcome (Socket S × ℤ)
  with_app w (done (s, r)) = done (record w { app = s }, r)
  with_app w fault = fault
  with_app w no_fuel = no_fuel

  -- after the handshake: -1 and 0 are returned, and so is the whole size; else the loop goes on
  abbrev after_handshake : ℕ → Bytes → Socket S × ℤ → Outcome (Socket S × ℤ)
  after_handshake fuel bytes (w, negsuc n) = done (w, negsuc n)
  after_handshake fuel bytes (w, pos zero) = done (w, pos zero)
  after_handshake fuel bytes (w, pos (suc n)) =
      if suc n == length bytes
      then done (w, pos (suc n))
      else with_app w (recv_loop on_recv fuel w.app (suc n) (drop (suc n) bytes))

  unfoldable pub recv_handler : ℕ → Socket S → Bytes → Outcome (Socket S × ℤ)
  recv_handler fuel w [] = done (w, minus_one)
  recv_handler fuel w (b ∷ bs) =
      if w.handshake_complete
      then with_app w (recv_loop on_recv fuel w.app 0 (b ∷ bs))
      else after_handshake fuel (b ∷ bs) (recv_handshake_proc w (b ∷ bs))

-- `MakeTextData`, which appends to `out_data`
pub length_bytes : ℕ → Bytes
length_bytes n =
    if ltb n 126
    then n ∷ []
    else if ltb n 65536
    then 126 ∷ (n / 2 ^ 8 % 256) ∷ (n % 256) ∷ []
    else 127
      ∷ (n / 2 ^ 56 % 256)
      ∷ (n / 2 ^ 48 % 256)
      ∷ (n / 2 ^ 40 % 256)
      ∷ (n / 2 ^ 32 % 256)
      ∷ (n / 2 ^ 24 % 256)
      ∷ (n / 2 ^ 16 % 256)
      ∷ (n / 2 ^ 8 % 256)
      ∷ (n % 256)
      ∷ []

unfoldable pub make_text_data : Bytes → Bytes → Bytes
unfolding length_bytes
make_text_data text out_data = out_data ++ (129 ∷ (length_bytes (length text) ++ text))
