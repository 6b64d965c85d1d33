-- ===== src/TcpObject/Buffer.antt =====
-- The received bytes between the reads and the handler of the protocol.
use mathlib.Core.List.{append_assoc, append-nil}
use oven_web_rtctester.Prelude.{
  ℕ, zero, suc, ◌≡◌, refl, sym, ap, ◌∙◌, inl, inr, true, false, ◌||◌, List, [], ◌∷◌, ◌++◌, length,
  take, drop, Bool-cases, arith,
}
use oven_web_rtctester.Prelude.Int.{ℤ}
use oven_web_rtctester.Prelude.Bytes.{Bytes}
use oven_web_rtctester.TcpObject.{TcpObject, is_processed, size_of, on_receive}

take-drop : (n : ℕ) (xs : Bytes) → take n xs ++ drop n xs ≡ xs
take-drop zero xs = refl
take-drop (suc n) [] = refl
take-drop (suc n) (x ∷ xs) = ap (◌∷◌ x) (take-drop n xs)

abbrev pub join : List Bytes → Bytes
join [] = []
join (chunk ∷ chunks) = chunk ++ join chunks

abbrev pub IsUp : TcpObject → Type 0
IsUp t = (t.is_closing || t.network_error) ≡ false

module _ {ℓ} {S : Type ℓ} (recv_handler : S → Bytes → S × ℤ) where
  -- what the handler takes of the data that a read completes
  abbrev pub taken : Bytes → TcpObject → S → Bytes
  taken chunk t s =
      let recv_data = t.rest_data ++ chunk in take (size_of (recv_handler s recv_data).1) recv_data

  unfoldable pub receive_all : List Bytes → TcpObject × S → TcpObject × S
  receive_all [] state = state
  receive_all (chunk ∷ chunks) state =
      receive_all chunks (on_receive recv_handler true false chunk state).0

  unfoldable pub taken_all : List Bytes → TcpObject × S → Bytes
  taken_all [] state = []
  taken_all (chunk ∷ chunks) (t, s) =
      taken chunk t s ++ taken_all chunks (on_receive recv_handler true false chunk (t, s)).0

  ignores :
      (chunk : Bytes) (t : TcpObject) (s : S)
      → (t.is_closing || t.network_error) ≡ true
      → (on_receive recv_handler true false chunk (t, s)).0 ≡ (t, s)
  unfolding on_receive
  ignores chunk t s down = rw down refl

  stays_down :
      (chunks : List Bytes) (t : TcpObject) (s : S)
      → (t.is_closing || t.network_error) ≡ true
      → (receive_all chunks (t, s)).0 ≡ t
  unfolding receive_all
  stays_down [] t s down = refl
  stays_down (chunk ∷ chunks) t s down =
      ap (λ state. (receive_all chunks state).0) (ignores chunk t s down)
      ∙ stays_down chunks t s down

  down_for_good :
      (chunks : List Bytes) (t : TcpObject) (s : S)
      → (t.is_closing || t.network_error) ≡ true
      → IsUp (receive_all chunks (t, s)).0
      → ⊥
  down_for_good chunks t s down up =
      let end : true ≡ false =
        sym (
          ap (λ (x : TcpObject). x.is_closing || x.network_error) (stays_down chunks t s down)
          ∙ down)
        ∙ up in
      cc

  refused :
      (chunk : Bytes) (t : TcpObject) (s : S)
      → (t.is_closing || t.network_error) ≡ false
      → is_processed (recv_handler s (t.rest_data ++ chunk)).1 (length (t.rest_data ++ chunk))
        ≡ false
      → (on_receive recv_handler true false chunk (t, s)).0.0.is_closing ≡ true
  unfolding on_receive
  refused chunk t s live bad = elim (Bool-cases t.is_closing) [
    | inl closing ↦ rw (live, bad, closing) refl
    | inr open_still ↦ rw (live, bad, open_still) refl
  ]

  accepted :
      (chunk : Bytes) (t : TcpObject) (s : S)
      → (t.is_closing || t.network_error) ≡ false
      → is_processed (recv_handler s (t.rest_data ++ chunk)).1 (length (t.rest_data ++ chunk))
        ≡ true
      → taken chunk t s ++ (on_receive recv_handler true false chunk (t, s)).0.0.rest_data
        ≡ t.rest_data ++ chunk
  unfolding on_receive
  accepted chunk t s live ok =
      rw (live, ok)
        (take-drop (size_of (recv_handler s (t.rest_data ++ chunk)).1) (t.rest_data ++ chunk))

  one_chunk :
      (chunk : Bytes) (t : TcpObject) (s : S)
      → IsUp t
      → IsUp (on_receive recv_handler true false chunk (t, s)).0.0
      → taken chunk t s ++ (on_receive recv_handler true false chunk (t, s)).0.0.rest_data
        ≡ t.rest_data ++ chunk
  one_chunk chunk t s live up =
      elim (Bool-cases
        (is_processed (recv_handler s (t.rest_data ++ chunk)).1 (length (t.rest_data ++ chunk)))) [
          | inl ok ↦ accepted chunk t s live ok
          | inr bad ↦ let closed = refused chunk t s live bad in absurd (ground (arith, closed, up))
        ]

  -- While the connection stays up, every byte that arrives is taken by the handler once and in order,
  -- or still waits, in whatever pieces the bytes come.
  pub receive_all-join :
      (chunks : List Bytes) (t : TcpObject) (s : S)
      → IsUp (receive_all chunks (t, s)).0
      → taken_all chunks (t, s) ++ (receive_all chunks (t, s)).0.rest_data
        ≡ t.rest_data ++ join chunks
  unfolding receive_all taken_all
  receive_all-join [] t s up = sym (append-nil t.rest_data)
  receive_all-join (chunk ∷ chunks) t s up =
      let (t', s') = (on_receive recv_handler true false chunk (t, s)).0 in
      elim (Bool-cases (t.is_closing || t.network_error)) [
        | inl down ↦ absurd (down_for_good (chunk ∷ chunks) t s down up)
        | inr live ↦ elim (Bool-cases (t'.is_closing || t'.network_error)) [
          | inl down ↦ absurd (down_for_good chunks t' s' down up)
          | inr live' ↦
              append_assoc (taken chunk t s) (taken_all chunks (t', s'))
                (receive_all chunks (t', s')).0.rest_data
              ∙ ap (λ xs. taken chunk t s ++ xs) (receive_all-join chunks t' s' up)
              ∙ sym (append_assoc (taken chunk t s) t'.rest_data (join chunks))
              ∙ ap (λ xs. xs ++ join chunks) (one_chunk chunk t s live live')
              ∙ append_assoc t.rest_data chunk (join chunks)
        ]
      ]
