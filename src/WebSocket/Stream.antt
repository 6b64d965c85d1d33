-- ===== src/WebSocket/Stream.antt =====
-- The receive loop: it ends, stays inside the buffer, and delivers a stream of frames in order.
use oven_web_rtctester.Prelude.{
  ℕ, zero, suc, ◌+◌, ◌/◌, ◌%◌, ◌≤◌, ◌<◌, ◌≡◌, refl, Bool, false, Option, none, some, [], ◌∷◌, ◌==◌,
  length, drop, length-drop, arith,
}
use oven_web_rtctester.Prelude.Int.{ℤ, pos, negsuc, ltb_ℤ, to_int32}
use oven_web_rtctester.Prelude.Bytes.{Bytes}
use oven_web_rtctester.Prelude.Outcome.{Outcome, done, fault, no_fuel}
use oven_web_rtctester.WebSocket.{
  byte_at, Parsed, refused, frame, parsing_data, payload_header_size, payload_size, read_size_of,
  deliver, recv_data_proc, recv_loop,
}

module _ {ℓ} {S : Type ℓ} (on_recv : S → Bytes → ℕ → S × Bool) where
  -- A positive result is at most the number of bytes given.
  deliver_bound :
      (s : S) (read_size : ℤ) (limit : ℕ) (p : Option Parsed) {s' : S} {r : ℕ}
      → ltb_ℤ (pos limit) read_size ≡ false
      → deliver on_recv s read_size p ≡ some (s', pos r)
      → r ≤ limit
  deliver_bound s read_size limit none h e = cc
  deliver_bound s read_size limit (some refused) h e = ground arith
  deliver_bound s read_size limit (some (frame op payload)) h e = ground arith

  pub recv_data_proc_bound :
      (s : S) (bytes : Bytes) {s' : S} {r : ℕ}
      → recv_data_proc on_recv s bytes ≡ some (s', pos r)
      → r ≤ length bytes
  unfolding recv_data_proc
  recv_data_proc_bound s bytes {s' = t} {r = r} e =
      let len = byte_at bytes 1 % 128 in
      let is_mask = byte_at bytes 1 / 128 % 2 == 1 in
      let header_size = payload_header_size len in
      let size = payload_size bytes len in
      ground (
        arith,
        deliver_bound s (read_size_of header_size is_mask size) (length bytes)
            (parsing_data bytes header_size (to_int32 size) is_mask) {s' = t} {r = r},
      )

  -- The loop has ended, with a number of processed bytes between two bounds if not with an error.
  abbrev pub Ends : ℕ → ℕ → Outcome (S × ℤ) → Type 0
  Ends low high (done (s, pos r)) = (low ≤ r) × (r ≤ high)
  Ends low high (done (s, negsuc r)) = Unit
  Ends low high fault = Unit
  Ends low high no_fuel = ⊥

  Ends-weaken :
      (low low' high high' : ℕ) (o : Outcome (S × ℤ))
      → low' ≤ low
      → high ≤ high'
      → Ends low high o
      → Ends low' high' o
  Ends-weaken low low' high high' (done (s, pos r)) h k e = omega arith
  Ends-weaken low low' high high' (done (s, negsuc r)) h k e = tt
  Ends-weaken low low' high high' fault h k e = tt
  Ends-weaken low low' high high' no_fuel h k e = e

  -- Fuel above the number of bytes left is enough, whatever the bytes are; and what the loop says
  -- it processed lies between what was processed before and the end of the data.
  pub recv_loop-Ends :
      (fuel : ℕ) (s : S) (processed : ℕ) (bytes : Bytes)
      → length bytes < fuel
      → Ends processed (processed + length bytes) (recv_loop on_recv fuel s processed bytes)
  unfolding recv_loop
  recv_loop-Ends zero s processed bytes h = absurd (omega arith)
  recv_loop-Ends (suc fuel) s processed [] h = omega arith
  recv_loop-Ends (suc fuel) s processed (b ∷ bs) h =
      go (recv_data_proc on_recv s (b ∷ bs)) refl λ s' n.
        recv_loop-Ends fuel s' (processed + suc n) (drop n bs) (omega (arith, length-drop n bs))
    where
      go :
          (o : Option (S × ℤ))
          → recv_data_proc on_recv s (b ∷ bs) ≡ o
          → ((s' : S) (n : ℕ)
              → Ends
                  (processed + suc n)
                  (processed + suc n + length (drop n bs))
                  (recv_loop on_recv fuel s' (processed + suc n) (drop n bs)))
          → Ends processed
              (processed + length (b ∷ bs))
              (recv_loop on_recv (suc fuel) s processed (b ∷ bs))
      go none q ih = rw (q, recv_loop) tt
      go (some (s', negsuc n)) q ih = rw (q, recv_loop) tt
      go (some (s', pos zero)) q ih = rw (q, recv_loop) (omega arith)
      go (some (s', pos (suc n))) q ih =
          rw (q, recv_loop)
            (Ends-weaken _ processed _ (processed + length (b ∷ bs)) _ (omega arith)
              (omega (arith, length-drop n bs, recv_data_proc_bound s (b ∷ bs) q)) (ih s' n))
