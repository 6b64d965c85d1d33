-- ===== src/WebSocket/Overrun.antt =====
-- Frames whose declared size does not fit an `int`.
use oven_web_rtctester.Prelude.{
  ℕ, ◌+◌, ◌-◌, ◌/◌, ◌%◌, ◌^◌, ◌≤◌, ◌<◌, ◌≡◌, ◌≢◌, refl, Bool, true, false, Option, none, some,
  le→ltb_false, ◌==◌, if◌then◌else◌, length, arith,
}
use oven_web_rtctester.Prelude.Int.{ℤ, pos, negsuc, to_int32}
use oven_web_rtctester.Prelude.Bytes.{Bytes}
use oven_web_rtctester.WebSocket.Frames.{to_int32_small}
use oven_web_rtctester.WebSocket.{
  byte_at, slice, Parsed, refused, frame, parsing_data, payload_header_size, payload_size,
  read_size_of, deliver, recv_data_proc,
}

-- A declared size that fits an `int` keeps the parser inside the data; one that does not takes it out.
module _ {ℓ} {S : Type ℓ} (on_recv : S → Bytes → ℕ → S × Bool) where
  deliver-ne-none : (s : S) (r : ℤ) (p : Option Parsed) → p ≢ none → deliver on_recv s r p ≢ none
  deliver-ne-none s r none h e = h refl
  deliver-ne-none s r (some refused) h e = cc
  deliver-ne-none s r (some (frame op payload)) h e = cc

  parsing-ne-none :
      (bytes : Bytes) (header n : ℕ) (mask : Bool)
      → header + (if mask then 4 else 0) + n ≤ length bytes
      → parsing_data bytes header (pos n) mask ≢ none
  unfolding parsing_data slice
  parsing-ne-none bytes header n true h e = ground arith
  parsing-ne-none bytes header n false h e = ground arith

  -- No frame whose declared size stays below 2^31 - 14 makes the parser read outside the data.
  pub recv_data_proc-ne-none :
      (s : S) (bytes : Bytes)
      → payload_size bytes (byte_at bytes 1 % 128) + 14 < 2 ^ 31
      → recv_data_proc on_recv s bytes ≢ none
  unfolding recv_data_proc payload_header_size
  recv_data_proc-ne-none s bytes small =
      let len = byte_at bytes 1 % 128 in
      let mask = byte_at bytes 1 / 128 % 2 == 1 in
      let header = payload_header_size len in
      let size = payload_size bytes len in
      let read_size = read_size_of header mask size in
      λ e. ground (
        arith,
        e,
        to_int32_small size,
        to_int32_small (header + (if mask then 4 else 0) + size),
        parsing-ne-none bytes header size mask,
        deliver-ne-none s read_size (parsing_data bytes header (pos size) mask),
      )

  to_int32_negative : (n : ℕ) → 2 ^ 31 ≤ n → n < 2 ^ 32 → to_int32 n ≡ negsuc (2 ^ 32 - n - 1)
  to_int32_negative n lo hi = ground arith

  parsing_negative :
      (bytes : Bytes) (header n : ℕ)
      → byte_at bytes 0 % 16 ≢ 8
      → parsing_data bytes header (negsuc n) false ≡ none
  unfolding parsing_data slice
  parsing_negative bytes header n ne = ground arith

  -- An unmasked frame, other than a close, that declares from 2^31 to 2^32 - 11 payload bytes
  -- makes the parser read outside the data, however few bytes came.
  pub recv_data_proc_overrun :
      (s : S) (bytes : Bytes)
      → 10 ≤ length bytes
      → byte_at bytes 1 ≡ 127
      → byte_at bytes 0 % 16 ≢ 8
      → 2 ^ 31 ≤ payload_size bytes 127
      → payload_size bytes 127 + 10 < 2 ^ 32
      → recv_data_proc on_recv s bytes ≡ none
  unfolding recv_data_proc payload_header_size
  recv_data_proc_overrun s bytes size long ne lo hi =
      let n = payload_size bytes 127 in
      rw (long, le→ltb_false (length bytes) 3 (omega arith), le→ltb_false (length bytes) 10 size)
        (rw
          (
            to_int32_negative (10 + 0 + n) (omega arith) (omega arith),
            to_int32_negative n lo (omega arith),
          )
          (ground (arith, parsing_negative bytes 10 (2 ^ 32 - n - 1) ne)))
