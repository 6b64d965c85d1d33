-- ===== src/WebSocket/Handshake.antt =====
-- The first bytes of a connection: the upgrade response and the frames that follow it.
use mathlib.Core.List.{append_assoc}
use oven_web_rtctester.Prelude.{
  ℕ, zero, suc, ◌+◌, ◌<◌, ◌≡◌, ◌≢◌, refl, ap, ◌∙◌, Bool, true, false, some, List, [], ◌∷◌, ◌++◌,
  ◌==◌, if◌then◌else◌, length, take, drop, length-append, drop_append, All, arith,
}
use oven_web_rtctester.Prelude.Int.{ℤ, pos}
use oven_web_rtctester.Prelude.Bytes.{Bytes, find_sub, find_sub-append}
use oven_web_rtctester.Prelude.Outcome.{done}
use oven_web_rtctester.WebSocket.{
  recv_loop, make_text_data, Socket, header_end, header_pattern, recv_handshake_proc, with_app,
  after_handshake, recv_handler,
}
use oven_web_rtctester.WebSocket.Delivery.{Fits, frames, stream, recv_loop-stream}

module _ {ℓ} {S : Type ℓ} (on_recv : S → Bytes → ℕ → S × Bool)
    (on_handshake : S → Bool → S × Bool) where
  upgraded :
      (w : Socket S) (h rest : Bytes) {j : ℕ}
      → find_sub header_end (h ++ header_end) ≡ some (length h)
      → find_sub header_pattern h ≡ some j
      → recv_handshake_proc on_recv on_handshake w ((h ++ header_end) ++ rest) ≡ (
        record { handshake_complete = true; app = (on_handshake w.app true).0 },
        pos (length h + 4),
      )
  unfolding recv_handshake_proc
  upgraded w h rest {j = j} ends marked =
      let text = (h ++ header_end) ++ rest in
      let found : find_sub header_end (text ++ 0 ∷ []) ≡ some (length h) =
        rw (append_assoc (h ++ header_end) rest (0 ∷ []))
          (find_sub-append header_end (h ++ header_end) (rest ++ 0 ∷ []) ends) in
      let seen : find_sub header_pattern (text ++ 0 ∷ []) ≡ some j =
        rw
          (append_assoc (h ++ header_end) rest (0 ∷ []), append_assoc h header_end (rest ++ 0 ∷ []))
          ((find_sub-append header_pattern h (header_end ++ (rest ++ 0 ∷ [])) marked)) in
      rw (found, recv_handshake_proc) (rw seen)

  after_header :
      (fuel : ℕ) (bytes : Bytes) (w : Socket S) (m : ℕ)
      → 0 < m
      → after_handshake on_recv on_handshake fuel bytes (w, pos m) ≡ (
          if m == length bytes
          then done (w, pos m)
          else with_app on_recv on_handshake w (recv_loop on_recv fuel w.app m (drop m bytes)))
  after_header fuel bytes w zero h = absurd (omega arith)
  after_header fuel bytes w (suc n) h = refl

  opened :
      (fuel : ℕ) (w : Socket S) (bytes : Bytes)
      → bytes ≢ []
      → w.handshake_complete ≡ false
      → recv_handler on_recv on_handshake fuel w bytes
        ≡ after_handshake on_recv on_handshake fuel bytes
            (recv_handshake_proc on_recv on_handshake w bytes)
  unfolding recv_handler
  opened fuel w [] ne e = absurd (ne refl)
  opened fuel w (b ∷ bs) ne e = rw e

  -- a loop that ends on no bytes has processed nothing
  loop_empty :
      (fuel : ℕ) (s : S) (m : ℕ) {r : S × ℤ}
      → recv_loop on_recv fuel s m [] ≡ done r
      → r ≡ (s, pos m)
  unfolding recv_loop
  loop_empty zero s m e = cc
  loop_empty (suc fuel) s m e = cc

  nonempty : (h rest : Bytes) → (h ++ header_end) ++ rest ≢ []
  nonempty [] rest e = cc
  nonempty (c ∷ h) rest e = cc

  -- the loop over what follows the header, which may be nothing
  resume :
      (fuel : ℕ) (w : Socket S) (h rest : Bytes) {r : S × ℤ}
      → recv_loop on_recv fuel w.app (length h + 4) rest ≡ done r
      → after_handshake on_recv on_handshake fuel
          ((h ++ header_end) ++ rest)
          (w, pos (length h + 4))
        ≡ done (record w { app = r.0 }, r.1)
  resume fuel w h [] e =
      let m = length h + 4 in
      let bytes = (h ++ header_end) ++ [] in
      let whole : (m == length bytes) ≡ true =
        ground (arith, length-append (h ++ header_end) [], length-append h header_end) in
      after_header fuel bytes w m (omega arith) ∙ rw whole (rw (loop_empty fuel w.app m e))
  resume fuel w h (b ∷ bs) e =
      let m = length h + 4 in
      let bytes = (h ++ header_end) ++ b ∷ bs in
      let size : length (h ++ header_end) ≡ m = omega (arith, length-append h header_end) in
      let more : (m == length bytes) ≡ false =
        ground (arith, length-append (h ++ header_end) (b ∷ bs), size) in
      let left : drop m bytes ≡ b ∷ bs = drop_append m (h ++ header_end) (b ∷ bs) size in
      after_header fuel bytes w m (omega arith) ∙ rw more (rw left (rw e))

  -- A response that carries the pattern in its header, in whatever bytes `h` up to the first blank
  -- line, opens a connection whose handshake is not complete: the derived class hears of it, and the
  -- frames behind it are handed over as `stream` says, up to an incomplete one. The result counts the
  -- header. For texts, the one of the incomplete frame too, of 126 bytes or more that fit an `int`
  -- with a header of ten bytes, and fuel above the number of bytes behind the response's header.
  pub recv_handler-stream :
      (fuel : ℕ) (w : Socket S) (h : Bytes) (texts : List Bytes) (next : Bytes) (k : ℕ) {j : ℕ}
      → w.handshake_complete ≡ false
      → find_sub header_end (h ++ header_end) ≡ some (length h)
      → find_sub header_pattern h ≡ some j
      → All Fits texts
      → Fits next
      → k < length (make_text_data next [])
      → length (frames texts ++ take k (make_text_data next [])) < fuel
      → let (s, r) = stream on_recv (on_handshake w.app true).0 (length h + 4) texts in
        recv_handler on_recv on_handshake fuel w
          ((h ++ header_end) ++ (frames texts ++ take k (make_text_data next [])))
        ≡ done (record { handshake_complete = true; app = s }, r)
  recv_handler-stream fuel w h texts next k closed ends marked fits fit' short room =
      let rest = frames texts ++ take k (make_text_data next []) in
      let s = (on_handshake w.app true).0 in
      let run = recv_loop-stream on_recv texts fuel s (length h + 4) next k fits fit' short room in
      opened fuel w _ (nonempty h rest) closed
      ∙ ap (after_handshake on_recv on_handshake fuel ((h ++ header_end) ++ rest))
          (upgraded w h rest ends marked)
      ∙ resume fuel (record { handshake_complete = true; app = s }) h rest run
