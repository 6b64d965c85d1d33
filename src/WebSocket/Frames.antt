-- ===== src/WebSocket/Frames.antt =====
-- One frame: what `MakeTextData` writes and what `RecvDataProc` makes of it.
use oven_web_rtctester.Prelude.{
  ℕ, ◌+◌, ◌/◌, ◌%◌, ◌^◌, ◌≤◌, ◌<◌, ◌≡◌, refl, ap, ◌⊎◌, inl, inr, Bool, false, some, [], ◌∷◌, ◌++◌,
  ltb, Bool-cases, lt→ltb, le→ltb_false, take-append_le, length, take, length-append, take_append,
  drop_append, arith,
}
use oven_web_rtctester.Prelude.Int.{pos, to_int32}
use oven_web_rtctester.Prelude.Bytes.{Bytes}
use oven_web_rtctester.WebSocket.{
  byte_at, frame, slice, parsing_data, payload_header_size, payload_size, answered, recv_data_proc,
  make_text_data,
}

-- The bytes of a range that is inside the buffer.
pub slice_append :
    (h text rest : Bytes) → slice (h ++ (text ++ rest)) (length h) (pos (length text)) ≡ some text
unfolding slice
slice_append h text rest = ground (
  arith,
  length-append h (text ++ rest),
  length-append text rest,
  drop_append (length h) h (text ++ rest) refl,
  take_append (length text) text rest refl,
)

pub to_int32_small : (n : ℕ) → n < 2 ^ 31 → to_int32 n ≡ pos n
to_int32_small n h = ground arith

parsing_text :
    (bytes h text rest : Bytes)
    → bytes ≡ h ++ (text ++ rest)
    → byte_at bytes 0 ≡ 129
    → parsing_data bytes (length h) (pos (length text)) false ≡ some (frame 1 (text ++ 0 ∷ []))
unfolding parsing_data
parsing_text bytes h text rest e first = rw (first, e, slice_append h text rest)

abbrev pub medium_header : ℕ → Bytes
medium_header n = 129 ∷ 126 ∷ (n / 2 ^ 8 % 256) ∷ (n % 256) ∷ []

abbrev pub large_header : ℕ → Bytes
large_header n =
    129
    ∷ 127
    ∷ (n / 2 ^ 56 % 256)
    ∷ (n / 2 ^ 48 % 256)
    ∷ (n / 2 ^ 40 % 256)
    ∷ (n / 2 ^ 32 % 256)
    ∷ (n / 2 ^ 24 % 256)
    ∷ (n / 2 ^ 16 % 256)
    ∷ (n / 2 ^ 8 % 256)
    ∷ (n % 256)
    ∷ []

pub make_small :
    (text : Bytes) → length text < 126 → make_text_data text [] ≡ 129 ∷ length text ∷ text
unfolding make_text_data
make_small text h = rw (lt→ltb _ _ h)

pub make_medium :
    (text : Bytes)
    → 126 ≤ length text
    → length text < 65536
    → make_text_data text [] ≡ medium_header (length text) ++ text
unfolding make_text_data
make_medium text lo hi = rw (le→ltb_false (length text) 126 lo, lt→ltb _ _ hi)

pub make_large :
    (text : Bytes)
    → 65536 ≤ length text
    → make_text_data text [] ≡ large_header (length text) ++ text
unfolding make_text_data
make_large text lo =
    rw (le→ltb_false (length text) 126 (omega arith), le→ltb_false (length text) 65536 lo)

module _ {ℓ} {S : Type ℓ} (on_recv : S → Bytes → ℕ → S × Bool) where
  recv_unmasked :
      (s : S) (bytes h text rest : Bytes) (len : ℕ)
      → bytes ≡ h ++ (text ++ rest)
      → byte_at bytes 0 ≡ 129
      → byte_at bytes 1 ≡ len
      → (len ≡ 126) ⊎ (len ≡ 127)
      → length h ≡ payload_header_size len
      → payload_size bytes len ≡ length text
      → length text + 10 < 2 ^ 31
      → recv_data_proc on_recv s bytes
        ≡ some (answered on_recv (pos (length (h ++ text))) (on_recv s (text ++ 0 ∷ []) 1))
  unfolding recv_data_proc payload_header_size
  recv_unmasked s bytes h text rest len e first second long eh es small = ground (
    arith,
    parsing_text bytes h text rest e first,
    to_int32_small (length text),
    to_int32_small (length h + 0 + length text),
    ap length e,
    length-append h (text ++ rest),
    length-append h text,
    length-append text rest,
  )

  abbrev pub Returns : S → Bytes → Bytes → Type ℓ
  Returns s text rest =
      recv_data_proc on_recv s (make_text_data text [] ++ rest)
      ≡ some
          (answered on_recv (pos (length (make_text_data text []))) (on_recv s (text ++ 0 ∷ []) 1))

  recv_medium :
      (s : S) (text rest : Bytes) → 126 ≤ length text → length text < 65536 → Returns s text rest
  unfolding payload_header_size payload_size
  recv_medium s text rest lo hi =
      let h = medium_header (length text) in
      rw (make_medium text lo hi) (
        recv_unmasked s (h ++ (text ++ rest)) h text rest 126 refl refl refl (inl refl) refl
          (omega arith) (omega arith))

  recv_large :
      (s : S) (text rest : Bytes)
      → 65536 ≤ length text
      → length text + 10 < 2 ^ 31
      → Returns s text rest
  unfolding payload_header_size payload_size
  recv_large s text rest lo hi =
      let h = large_header (length text) in
      rw (make_large text lo) (
        recv_unmasked s (h ++ (text ++ rest)) h text rest 127 refl refl refl (inr refl) refl
          (omega arith) hi)

  -- A text of 126 bytes or more whose frame fits an int is read back whole from its frame,
  -- whatever bytes follow: the callback gets the text with a terminating zero and the text opcode,
  -- and the result is the size of the frame, or -1 if the callback refuses.
  pub recv_data_proc-make_text_data :
      (s : S) (text rest : Bytes)
      → 126 ≤ length text
      → length text + 10 < 2 ^ 31
      → Returns s text rest
  recv_data_proc-make_text_data s text rest lo hi = elim (Bool-cases (ltb (length text) 65536)) [
    | inl short ↦ recv_medium s text rest lo (ground arith)
    | inr long ↦ recv_large s text rest (ground arith) hi
  ]

  recv_small :
      (s : S) (text rest : Bytes)
      → 1 ≤ length text
      → length text < 126
      → recv_data_proc on_recv s (129 ∷ length text ∷ (text ++ rest))
        ≡ some (
            answered on_recv
              (pos (length text))
              (on_recv s (take (length text) (129 ∷ length text ∷ (text ++ rest)) ++ 0 ∷ []) 1))
  unfolding recv_data_proc payload_header_size payload_size parsing_data slice
  recv_small s text rest lo hi = ground (arith, length-append text rest)

  -- The frame of a text of 1 to 125 bytes is misread, whatever bytes follow: its two header bytes
  -- are taken for payload, so the callback gets the header and the text without its last two
  -- bytes, and the result is two less than the size of the frame.
  pub recv_data_proc-make_text_data_small :
      (s : S) (text rest : Bytes)
      → 1 ≤ length text
      → length text < 126
      → (recv_data_proc on_recv s (make_text_data text [] ++ rest)
          ≡ some (
              answered on_recv
                (pos (length text))
                (on_recv s (take (length text) (129 ∷ length text ∷ text) ++ 0 ∷ []) 1)))
        × (length (make_text_data text []) ≡ length text + 2)
  recv_data_proc-make_text_data_small s text rest lo hi =
      let cut = take-append_le (length text) (129 ∷ length text ∷ text) rest (omega arith) in
      (
        rw (make_small text hi) (rw cut at (recv_small s text rest lo hi)),
        rw (make_small text hi) (omega arith),
      )
