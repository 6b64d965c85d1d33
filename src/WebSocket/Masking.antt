-- ===== src/WebSocket/Masking.antt =====
-- Masked frames, and frames whose declared size does not fit an `int`.
use Prim.Native.Nat.{bit_xor}
use oven_web_rtctester.Prelude.{
  ℕ, zero, suc, ◌+◌, ◌/◌, ◌%◌, ◌≤◌, ◌<◌, ◌≡◌, refl, ap, Bool, true, some, [], ◌∷◌, ◌++◌, ◌==◌,
  ==_iff, length, get_or, length-append, arith,
}
use oven_web_rtctester.Prelude.Int.{pos}
use oven_web_rtctester.Prelude.Table.{tabulate, read_table}
use oven_web_rtctester.Prelude.Bytes.{Bytes, IsBytes}
use mathlib.Core.Path.{ap₂}
use oven_web_rtctester.WebSocket.Frames.{slice_append, to_int32_small}
use oven_web_rtctester.WebSocket.{
  unmask, slice, frame, parsing_data, payload_header_size, payload_size, answered, recv_data_proc,
}

-- over every pair of bytes
xor_table : tabulate (λ k. tabulate (λ b. bit_xor (bit_xor b k) k == b) 256) 256 ≡ true
unfolding tabulate
xor_table = refl

bit_xor_twice : (b k : ℕ) → b < 256 → k < 256 → bit_xor (bit_xor b k) k ≡ b
bit_xor_twice b k hb hk = (==_iff _ b).0 (
    read_table (λ x. bit_xor (bit_xor x k) k == x) 256 b
      (read_table (λ y. tabulate (λ x. bit_xor (bit_xor x y) y == x) 256) 256 k xor_table hk) hb)

get_or-IsBytes : (key : Bytes) (i : ℕ) → IsBytes key → get_or key i 0 < 256
get_or-IsBytes [] i h = omega arith
get_or-IsBytes (k ∷ key) zero h = h.0
get_or-IsBytes (k ∷ key) (suc i) h = get_or-IsBytes key i h.1

-- The same masking key, applied twice from the same index, gives the payload back.
pub unmask_twice :
    (key : Bytes) (index : ℕ) (payload : Bytes)
    → IsBytes key
    → IsBytes payload
    → unmask key index (unmask key index payload) ≡ payload
unfolding unmask
unmask_twice key index [] hk hp = refl
unmask_twice key index (b ∷ bs) hk hp =
    rw (bit_xor_twice b (get_or key (index % 4) 0) hp.0 (get_or-IsBytes key (index % 4) hk))
      (ap (◌∷◌ b) (unmask_twice key (index + 1) bs hk hp.1))

length-unmask :
    (key : Bytes) (index : ℕ) (payload : Bytes) → length (unmask key index payload) ≡ length payload
unfolding unmask
length-unmask key index [] = refl
length-unmask key index (b ∷ bs) = ap suc (length-unmask key (index + 1) bs)

-- The key is read from the bytes before the payload; only its four bytes matter.
unmask_key :
    (k0 k1 k2 k3 : ℕ) (more : Bytes) (index : ℕ) (payload : Bytes)
    → unmask (k0 ∷ k1 ∷ k2 ∷ k3 ∷ more) index payload
      ≡ unmask (k0 ∷ k1 ∷ k2 ∷ k3 ∷ []) index payload
unfolding unmask
unmask_key k0 k1 k2 k3 more index [] = refl
unmask_key k0 k1 k2 k3 more index (b ∷ bs) =
    ap₂ (λ x xs. bit_xor b x ∷ xs) (pick (index % 4) (omega arith))
      (unmask_key k0 k1 k2 k3 more (index + 1) bs)
  where
    pick :
        (i : ℕ)
        → i < 4
        → get_or (k0 ∷ k1 ∷ k2 ∷ k3 ∷ more) i 0 ≡ get_or (k0 ∷ k1 ∷ k2 ∷ k3 ∷ []) i 0
    pick zero h = refl
    pick (suc zero) h = refl
    pick (suc (suc zero)) h = refl
    pick (suc (suc (suc zero))) h = refl
    pick (suc (suc (suc (suc i)))) h = absurd (omega arith)

-- A masked text frame with a 16-bit length, as RFC 6455 lays it out.
abbrev pub masked_header : ℕ → ℕ → ℕ → ℕ → ℕ → Bytes
masked_header n k0 k1 k2 k3 = 129 ∷ 254 ∷ (n / 256) ∷ (n % 256) ∷ k0 ∷ k1 ∷ k2 ∷ k3 ∷ []

module _ {ℓ} {S : Type ℓ} (on_recv : S → Bytes → ℕ → S × Bool) where
  parsing_masked :
      (text rest : Bytes) (k0 k1 k2 k3 : ℕ)
      → IsBytes (k0 ∷ k1 ∷ k2 ∷ k3 ∷ [])
      → IsBytes text
      → parsing_data
          (masked_header (length text) k0 k1 k2 k3
            ++ (unmask (k0 ∷ k1 ∷ k2 ∷ k3 ∷ []) 0 text ++ rest))
          4
          (pos (length text))
          true
        ≡ some (frame 1 (text ++ 0 ∷ []))
  unfolding parsing_data
  parsing_masked text rest k0 k1 k2 k3 hk ht =
      let key : Bytes = k0 ∷ k1 ∷ k2 ∷ k3 ∷ [] in
      let h = masked_header (length text) k0 k1 k2 k3 in
      let masked = unmask key 0 text in
      let read : slice (h ++ (masked ++ rest)) 8 (pos (length text)) ≡ some masked =
        rw (length-unmask key 0 text) at (slice_append h masked rest) in
      rw read
        (rw (unmask_key k0 k1 k2 k3 (masked ++ rest) 0 masked) (rw (unmask_twice key 0 text hk ht)))

  -- A masked text frame with a 16-bit length is unmasked: the callback gets the text, and the
  -- result is the size of the frame, or -1 if the callback refuses.
  pub recv_data_proc_masked :
      (s : S) (text rest : Bytes) (k0 k1 k2 k3 : ℕ)
      → 126 ≤ length text
      → length text < 65536
      → IsBytes (k0 ∷ k1 ∷ k2 ∷ k3 ∷ [])
      → IsBytes text
      → recv_data_proc on_recv s (
          masked_header (length text) k0 k1 k2 k3
          ++ (unmask (k0 ∷ k1 ∷ k2 ∷ k3 ∷ []) 0 text ++ rest))
        ≡ some (answered on_recv (pos (length text + 8)) (on_recv s (text ++ 0 ∷ []) 1))
  unfolding recv_data_proc payload_header_size payload_size
  recv_data_proc_masked s text rest k0 k1 k2 k3 lo hi hk ht = ground (
    arith,
    parsing_masked text rest k0 k1 k2 k3 hk ht,
    to_int32_small (length text),
    to_int32_small (8 + length text),
    length-append (unmask (k0 ∷ k1 ∷ k2 ∷ k3 ∷ []) 0 text) rest,
    length-unmask (k0 ∷ k1 ∷ k2 ∷ k3 ∷ []) 0 text,
  )
