-- ===== src/Wire/Delivery.antt =====
-- Text frames that arrive in arbitrary reads, from the socket to the callback.
use mathlib.Core.Path.{subst}
use mathlib.Core.List.{append_assoc, append-nil}
use oven_web_rtctester.Prelude.{
  leb, ℕ, ◌+◌, ◌<◌, ◌≡◌, refl, sym, ap, ◌∙◌, Bool, true, false, List, [], ◌∷◌, ◌++◌, length, take,
  drop, length-append, drop_append, All, arith,
}
use oven_web_rtctester.Prelude.Int.{ℤ, pos}
use oven_web_rtctester.Prelude.Bytes.{Bytes}
use oven_web_rtctester.Prelude.Outcome.{done}
use oven_web_rtctester.WebSocket.{text_frame, make_text_data, recv_loop, Socket, recv_handler}
use oven_web_rtctester.WebSocket.Delivery.{Fits, frames, next_text, stream, recv_loop-stream}
use oven_web_rtctester.TcpObject.{TcpObject, on_receive}
use oven_web_rtctester.TcpObject.Buffer.{join, IsUp, receive_all}
use oven_web_rtctester.Wire.{socket_handler}
use oven_web_rtctester.Wire.Split.{Cut, Cut-frames}

abbrev pub Nonempty : Bytes → Type 0
Nonempty bytes = 0 < length bytes

no_bytes : (texts : List Bytes) → [] ≡ frames texts → texts ≡ []
unfolding make_text_data
no_bytes [] e = refl
no_bytes (text ∷ texts) e = absurd (omega (arith, ap length e))

module _ {ℓ} {S : Type ℓ} (on_recv : S → Bytes → ℕ → S × Bool)
    (on_handshake : S → Bool → S × Bool) where
  -- The callback's state after the texts, one call for each.
  unfoldable pub handed_over : S → List Bytes → S
  handed_over s [] = s
  handed_over s (text ∷ texts) = handed_over (on_recv s (text ++ 0 ∷ []) text_frame).0 texts

  -- The callback takes each text, in the state that those before it have left.
  unfoldable pub Accepts : S → List Bytes → Type 0
  Accepts s [] = Unit
  Accepts s (text ∷ texts) =
      let (s', ok) = on_recv s (text ++ 0 ∷ []) text_frame in (ok ≡ true) × Accepts s' texts

  Accepts-append :
      (xs ys : List Bytes) (s : S)
      → Accepts s (xs ++ ys)
      → Accepts s xs × Accepts (handed_over s xs) ys
  unfolding Accepts handed_over
  Accepts-append [] ys s all = (tt, all)
  Accepts-append (x ∷ xs) ys s (one, all) =
      let (left, right) = Accepts-append xs ys (on_recv s (x ++ 0 ∷ []) text_frame).0 all in
      ((one, left), right)

  -- those of a cut
  Accepts-Cut :
      (s : S) (received rest : Bytes) (texts : List Bytes) (cut : Cut texts received rest)
      → Accepts s texts
      → Accepts s cut.whole × Accepts (handed_over s cut.whole) cut.left
  Accepts-Cut s received rest texts cut all =
      Accepts-append cut.whole cut.left s (subst (Accepts s) cut.texts_are all)

  handed_over-append :
      (xs ys : List Bytes) (s : S) → handed_over s (xs ++ ys) ≡ handed_over (handed_over s xs) ys
  unfolding handed_over
  handed_over-append [] ys s = refl
  handed_over-append (x ∷ xs) ys s = handed_over-append xs ys (on_recv s (x ++ 0 ∷ []) text_frame).0

  next_step :
      (rest : S → S × ℤ) (answer : S × Bool)
      → answer.1 ≡ true
      → next_text on_recv rest answer ≡ rest answer.0
  next_step rest (s, true) e = refl
  next_step rest (s, false) e = absurd (cc)

  stream_all :
      (texts : List Bytes) (s : S) (processed : ℕ)
      → Accepts s texts
      → stream on_recv s processed texts
        ≡ (handed_over s texts, pos (processed + length (frames texts)))
  unfolding stream handed_over Accepts
  stream_all [] s processed all = ap (λ n. (s, pos n)) (omega arith)
  stream_all (text ∷ texts) s processed (one, all) =
      let f = make_text_data text [] in
      let answer = on_recv s (text ++ 0 ∷ []) text_frame in
      next_step (λ s'. stream on_recv s' (processed + length f) texts) answer one
      ∙ stream_all texts answer.0 (processed + length f) all
      ∙ ap (λ n. (handed_over answer.0 texts, pos n))
          (omega (arith, length-append f (frames texts)))

  loop_all :
      (s : S) (received rest : Bytes) (texts : List Bytes) (cut : Cut texts received rest)
      → Accepts s cut.whole
      → recv_loop on_recv (length received + 1) s 0 received
        ≡ done (handed_over s cut.whole, pos (length (frames cut.whole)))
  loop_all s received rest texts cut all =
      let begun = take cut.count (make_text_data cut.next []) in
      ap (λ r. recv_loop on_recv (length r + 1) s 0 r) cut.received_is
      ∙ recv_loop-stream on_recv cut.whole (length (frames cut.whole ++ begun) + 1) s 0 cut.next
          cut.count cut.fits_whole cut.fits_next cut.inside (omega arith)
      ∙ ap done (stream_all cut.whole s 0 all)
      ∙ ap (λ n. done (handed_over s cut.whole, pos n)) (omega arith)

  socket_step :
      (w : Socket S) (received rest : Bytes) (texts : List Bytes) (cut : Cut texts received rest)
      → Accepts w.app cut.whole
      → w.handshake_complete ≡ true
      → Nonempty received
      → socket_handler on_recv on_handshake w received
        ≡ (record w { app = handed_over w.app cut.whole }, pos (length (frames cut.whole)))
  unfolding socket_handler recv_handler
  socket_step w [] rest texts cut all ready some_bytes = absurd (omega arith)
  socket_step w (b ∷ bs) rest texts cut all ready some_bytes =
      rw (ready, loop_all w.app (b ∷ bs) rest texts cut all) refl

  receive_step :
      (t : TcpObject) (w : Socket S) (chunk rest : Bytes) (texts : List Bytes)
      (cut : Cut texts (t.rest_data ++ chunk) rest)
      → Accepts w.app cut.whole
      → IsUp t
      → w.handshake_complete ≡ true
      → Nonempty chunk
      → (on_receive (socket_handler on_recv on_handshake) true false chunk (t, w)).0 ≡ (
        record t { rest_data = take cut.count (make_text_data cut.next []) },
        record w { app = handed_over w.app cut.whole },
      )
  unfolding on_receive
  receive_step t w chunk rest texts cut all up ready some_bytes =
      let received = t.rest_data ++ chunk in
      let answer =
        socket_step w received rest texts cut all ready
          (omega (arith, length-append t.rest_data chunk)) in
      let room : leb (length (frames cut.whole)) (length received) ≡ true = rw cut.received_is (
        ground (
          arith,
          length-append (frames cut.whole) (take cut.count (make_text_data cut.next [])),
        )) in
      let left : drop (length (frames cut.whole)) received
          ≡ take cut.count (make_text_data cut.next []) =
        ap (drop (length (frames cut.whole))) cut.received_is
        ∙ drop_append (length (frames cut.whole)) (frames cut.whole)
            (take cut.count (make_text_data cut.next [])) refl in
      rw (up, answer, room, left) refl

  delivers_texts :
      (chunks : List Bytes) (t : TcpObject) (w : Socket S) (texts : List Bytes)
      → Accepts w.app texts
      → IsUp t
      → w.handshake_complete ≡ true
      → All Nonempty chunks
      → All Fits texts
      → (t.rest_data ≡ frames texts → texts ≡ [])
      → t.rest_data ++ join chunks ≡ frames texts
      → receive_all (socket_handler on_recv on_handshake) chunks (t, w)
        ≡ (record t { rest_data = [] }, record w { app = handed_over w.app texts })
  unfolding receive_all handed_over
  delivers_texts [] t w texts accepts up ready ne fits_next leaves_none e =
      let all : t.rest_data ≡ frames texts = sym (append-nil t.rest_data) ∙ e in
      let no_texts = leaves_none all in
      let no_bytes : t.rest_data ≡ [] = all ∙ ap frames no_texts in rw (no_texts, no_bytes) refl
  delivers_texts (chunk ∷ chunks) t w texts accepts up ready (ne, nes) fits_next leaves_none e =
      let cut =
        Cut-frames texts (t.rest_data ++ chunk) (join chunks) fits_next
          (append_assoc t.rest_data chunk (join chunks) ∙ e) in
      let begun = take cut.count (make_text_data cut.next []) in
      let (now, later) = Accepts-Cut w.app (t.rest_data ++ chunk) (join chunks) texts cut accepts in
      let t' : TcpObject = record t { rest_data = begun } in
      let w' : Socket S = record w { app = handed_over w.app cut.whole } in
      ap (receive_all (socket_handler on_recv on_handshake) chunks)
        (receive_step t w chunk (join chunks) texts cut now up ready ne)
      ∙ delivers_texts chunks t' w' cut.left later up ready nes cut.fits_left cut.leaves_none
          cut.rest_is
      ∙ ap (λ s. (record t { rest_data = [] }, record w { app = s }))
          (sym (handed_over-append cut.whole cut.left w.app)
            ∙ ap (handed_over w.app) (sym cut.texts_are))

  -- On a connection that is up, with nothing waiting and the handshake complete, whatever nonempty
  -- reads the frames of texts arrive in, the callback gets each text once and in order, the connection
  -- stays up and nothing is left waiting: for texts of 126 bytes or more that fit an `int` with a
  -- header of ten bytes, each of which the callback takes in the state that those before it have left.
  pub receive_all-frames :
      (chunks : List Bytes) (t : TcpObject) (w : Socket S) (texts : List Bytes)
      → Accepts w.app texts
      → IsUp t
      → t.rest_data ≡ []
      → w.handshake_complete ≡ true
      → All Nonempty chunks
      → All Fits texts
      → join chunks ≡ frames texts
      → receive_all (socket_handler on_recv on_handshake) chunks (t, w)
        ≡ (record t { rest_data = [] }, record w { app = handed_over w.app texts })
  receive_all-frames chunks t w texts accepts up idle ready nonempty fits_next e =
      delivers_texts chunks t w texts accepts up ready nonempty fits_next
        (λ all. no_bytes texts (sym idle ∙ all)) (rw idle e)
