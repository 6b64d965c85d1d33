-- ===== src/WebSocket/Delivery.antt =====
-- A stream of text frames with an incomplete frame at its end.
use mathlib.Core.List.{append_assoc}
use oven_web_rtctester.Prelude.{
  ℕ, zero, suc, ◌+◌, ◌^◌, ◌≤◌, ◌<◌, ◌≡◌, refl, ap, ◌∙◌, inl, inr, Bool, true, false, some, List, [],
  ◌∷◌, ◌++◌, ltb, ltb→lt, Bool-cases, length, take, length-append, length-take, drop_append, All,
  arith,
}
use oven_web_rtctester.Prelude.Int.{ℤ, pos, minus_one}
use oven_web_rtctester.Prelude.Bytes.{Bytes}
use oven_web_rtctester.Prelude.Outcome.{done}
use oven_web_rtctester.WebSocket.{
  text_frame, payload_header_size, payload_size, recv_data_proc, recv_loop, make_text_data,
}
use oven_web_rtctester.WebSocket.Frames.{
  medium_header, large_header, make_medium, make_large, Returns, recv_data_proc-make_text_data,
}

abbrev pub frames : List Bytes → Bytes
frames [] = []
frames (text ∷ texts) = make_text_data text [] ++ frames texts

-- The texts that both sides of the frame format handle.
abbrev pub Fits : Bytes → Type 0
Fits text = (126 ≤ length text) × (length text + 10 < 2 ^ 31)

module _ {ℓ} {S : Type ℓ} (on_recv : S → Bytes → ℕ → S × Bool) where
  -- A frame that is still incomplete, but for its first byte at least, is left for the next call.
  partial_medium :
      (s : S) (text : Bytes) (k : ℕ)
      → 126 ≤ length text
      → length text < 65536
      → k < length (medium_header (length text) ++ text)
      → recv_data_proc on_recv s (take k (medium_header (length text) ++ text)) ≡ some (s, pos 0)
  unfolding recv_data_proc payload_header_size payload_size
  partial_medium s text zero lo hi h = refl
  partial_medium s text (suc zero) lo hi h = refl
  partial_medium s text (suc (suc zero)) lo hi h = refl
  partial_medium s text (suc (suc (suc zero))) lo hi h = refl
  partial_medium s text (suc (suc (suc (suc k)))) lo hi h = ground (arith, length-take k text)

  partial_large :
      (s : S) (text : Bytes) (k : ℕ)
      → 65536 ≤ length text
      → length text + 10 < 2 ^ 31
      → k < length (large_header (length text) ++ text)
      → recv_data_proc on_recv s (take k (large_header (length text) ++ text)) ≡ some (s, pos 0)
  unfolding recv_data_proc payload_header_size payload_size
  partial_large s text zero lo hi h = refl
  partial_large s text (suc zero) lo hi h = refl
  partial_large s text (suc (suc zero)) lo hi h = refl
  partial_large s text (suc (suc (suc zero))) lo hi h = refl
  partial_large s text (suc (suc (suc (suc zero)))) lo hi h = refl
  partial_large s text (suc (suc (suc (suc (suc zero))))) lo hi h = refl
  partial_large s text (suc (suc (suc (suc (suc (suc zero)))))) lo hi h = refl
  partial_large s text (suc (suc (suc (suc (suc (suc (suc zero))))))) lo hi h = refl
  partial_large s text (suc (suc (suc (suc (suc (suc (suc (suc zero)))))))) lo hi h = refl
  partial_large s text (suc (suc (suc (suc (suc (suc (suc (suc (suc zero))))))))) lo hi h = refl
  partial_large s text (suc (suc (suc (suc (suc (suc (suc (suc (suc (suc k)))))))))) lo hi h =
      ground (arith, length-take k text)

  recv_partial :
      (s : S) (text : Bytes) (k : ℕ)
      → Fits text
      → k < length (make_text_data text [])
      → recv_data_proc on_recv s (take k (make_text_data text [])) ≡ some (s, pos 0)
  recv_partial s text k (lo, hi) h = elim (Bool-cases (ltb (length text) 65536)) [
    | inl short ↦
        let e = make_medium text lo (ltb→lt _ _ short) in
        rw e (partial_medium s text k lo (ltb→lt _ _ short) (rw e at h))
    | inr long ↦
        let e = make_large text (ground arith) in
        rw e (partial_large s text k (ground arith) hi (rw e at h))
  ]

  -- What a stream of texts should do: the callback gets each text in order, until it refuses one.
  abbrev pub next_text : (S → S × ℤ) → S × Bool → S × ℤ
  next_text rest (s, true) = rest s
  next_text rest (s, false) = (s, minus_one)

  unfoldable pub stream : S → ℕ → List Bytes → S × ℤ
  stream s processed [] = (s, pos processed)
  stream s processed (text ∷ texts) =
      next_text (λ s'. stream s' (processed + length (make_text_data text [])) texts)
        (on_recv s (text ++ 0 ∷ []) text_frame)

  loop_step :
      (fuel : ℕ) (s s' : S) (processed n : ℕ) (frame rest : Bytes)
      → length frame ≡ suc n
      → recv_data_proc on_recv s (frame ++ rest) ≡ some (s', pos (length frame))
      → recv_loop on_recv (suc fuel) s processed (frame ++ rest)
        ≡ recv_loop on_recv fuel s' (processed + length frame) rest
  unfolding recv_loop
  loop_step fuel s s' processed n [] rest e q = absurd (omega arith)
  loop_step fuel s s' processed n (b ∷ bs) rest e q =
      rw (q, recv_loop) (rw (drop_append (length bs) bs rest refl))

  loop_stop :
      (fuel : ℕ) (s : S) (processed : ℕ) (bytes : Bytes)
      → recv_data_proc on_recv s bytes ≡ some (s, pos 0)
      → recv_loop on_recv (suc fuel) s processed bytes ≡ done (s, pos processed)
  unfolding recv_loop
  loop_stop fuel s processed [] q = refl
  loop_stop fuel s processed (b ∷ bs) q = rw (q, recv_loop)

  loop_refuse :
      (fuel : ℕ) (s s' : S) (processed n : ℕ) (frame rest : Bytes)
      → length frame ≡ suc n
      → recv_data_proc on_recv s (frame ++ rest) ≡ some (s', minus_one)
      → recv_loop on_recv (suc fuel) s processed (frame ++ rest) ≡ done (s', minus_one)
  unfolding recv_loop
  loop_refuse fuel s s' processed n [] rest e q = absurd (omega arith)
  loop_refuse fuel s s' processed n (b ∷ bs) rest e q = rw (q, recv_loop)

  frame_nonempty : (text : Bytes) → (n : ℕ) × (length (make_text_data text []) ≡ suc n)
  unfolding make_text_data
  frame_nonempty text = (_, refl)

  -- One text of the stream: the loop hands it over, and goes on behind it if it is not refused.
  loop_text :
      (fuel : ℕ) (s : S) (processed : ℕ) (text rest : Bytes) (texts : List Bytes)
      → Fits text
      → ((s' : S)
          → recv_loop on_recv fuel s' (processed + length (make_text_data text [])) rest
            ≡ done (stream s' (processed + length (make_text_data text [])) texts))
      → recv_loop on_recv (suc fuel) s processed (make_text_data text [] ++ rest)
        ≡ done (stream s processed (text ∷ texts))
  unfolding stream
  loop_text fuel s processed text rest texts (lo, hi) ih =
      go (on_recv s (text ++ 0 ∷ []) text_frame) refl
        (recv_data_proc-make_text_data on_recv s text rest lo hi)
    where
      size : (n : ℕ) × (length (make_text_data text []) ≡ suc n)
      size = frame_nonempty text

      go :
          (answer : S × Bool)
          → on_recv s (text ++ 0 ∷ []) text_frame ≡ answer
          → Returns on_recv s text rest
          → recv_loop on_recv (suc fuel) s processed (make_text_data text [] ++ rest)
            ≡ done (stream s processed (text ∷ texts))
      go (s', true) e r =
          loop_step fuel s s' processed size.0 _ rest size.1 (rw e at r) ∙ ih s' ∙ rw (e, stream)
      go (s', false) e r =
          loop_refuse fuel s s' processed size.0 _ rest size.1 (rw e at r) ∙ rw (e, stream)

  -- Over the frames of any texts that fit, followed by any proper part of one more frame, the loop
  -- hands over each text in order until the callback refuses one: then the result is -1, and else
  -- the number of bytes before the incomplete frame. Fuel above the number of bytes is enough.
  pub recv_loop-stream :
      (texts : List Bytes) (fuel : ℕ) (s : S) (processed : ℕ) (next : Bytes) (k : ℕ)
      → All Fits texts
      → Fits next
      → k < length (make_text_data next [])
      → length (frames texts ++ take k (make_text_data next [])) < fuel
      → recv_loop on_recv fuel s processed (frames texts ++ take k (make_text_data next []))
        ≡ done (stream s processed texts)
  unfolding stream
  recv_loop-stream texts zero s processed next k fit fit' short h = absurd (omega arith)
  recv_loop-stream [] (suc fuel) s processed next k fit fit' short h =
      loop_stop fuel s processed (take k (make_text_data next []))
        (recv_partial s next k fit' short)
  recv_loop-stream (text ∷ texts) (suc fuel) s processed next k (fit, fits) fit' short h =
      let tail = take k (make_text_data next []) in
      let size = frame_nonempty text in
      let rest = frames texts ++ tail in
      let room : length rest < fuel = omega (
        arith,
        size.1,
        length-append (make_text_data text []) rest,
        ap length (append_assoc (make_text_data text []) (frames texts) tail),
      ) in
      rw append_assoc (
        loop_text fuel s processed text rest texts fit λ s'.
          recv_loop-stream texts fuel s' (processed + length (make_text_data text [])) next k fits
            fit' short room)
