-- ===== src/Base64/RoundTrip.antt =====
-- `Base64Decode` reads back what `Base64_Encode` writes.
use mathlib.Core.Path.{ap₂}
use mathlib.Core.List.{append_assoc, append-nil}
use oven_web_rtctester.Prelude.{
  ℕ, ◌+◌, ◌*◌, ◌/◌, ◌%◌, ◌<◌, ◌≡◌, refl, sym, ap, ◌∙◌, true, not, ◌&&◌, [], ◌∷◌, ◌++◌, ◌==◌, length,
  arith,
}
use oven_web_rtctester.Prelude.Bytes.{Bytes, IsBytes}
use oven_web_rtctester.Prelude.Table.{tabulate, read_table}
use oven_web_rtctester.Base64.{
  char_of, index_of, is_base64, sextets, take_chars, encode_loop, base64_encode, octets,
  finish_chars, step_chars, decode_loop, base64_decode,
}

-- A character of the alphabet is accepted by the decoder's loop, and looked up to its index.
record IsAlphabet (i : ℕ) : Type 0 where
  accepted : (not (char_of i == b'=') && is_base64 (char_of i)) ≡ true
  found : index_of (char_of i) ≡ i

char_table :
    tabulate
      (λ i. (not (char_of i == b'=') && is_base64 (char_of i)) && index_of (char_of i) == i)
      64
    ≡ true
unfolding tabulate char_of index_of is_base64
char_table = refl

char_of-IsAlphabet : (i : ℕ) → i < 64 → IsAlphabet i
char_of-IsAlphabet i h = ground (
  arith,
  read_table (λ k. (not (char_of k == b'=') && is_base64 (char_of k)) && index_of (char_of k) == k)
      64 i char_table h,
)

encode_loop-append :
    (group ret xs : Bytes) → encode_loop group ret xs ≡ ret ++ encode_loop group [] xs
unfolding encode_loop
encode_loop-append [] ret [] = sym (append-nil ret)
encode_loop-append (a ∷ []) ret [] = refl
encode_loop-append (a ∷ b ∷ more) ret [] = refl
encode_loop-append [] ret (x ∷ xs) = encode_loop-append (x ∷ []) ret xs
encode_loop-append (a ∷ []) ret (x ∷ xs) = encode_loop-append (a ∷ x ∷ []) ret xs
encode_loop-append (a ∷ b ∷ more) ret (x ∷ xs) =
    encode_loop-append [] (ret ++ take_chars 4 (sextets a b x)) xs
    ∙ append_assoc ret (take_chars 4 (sextets a b x)) (encode_loop [] [] xs)
    ∙ ap (◌++◌ ret) (sym (encode_loop-append [] (take_chars 4 (sextets a b x)) xs))

decode_char :
    (group ret rest : Bytes) (i : ℕ)
    → i < 64
    → decode_loop group ret (char_of i ∷ rest)
      ≡ (let (group', ret') = step_chars group (char_of i) ret in decode_loop group' ret' rest)
unfolding decode_loop
decode_char group ret rest i h = rw ((char_of-IsAlphabet i h).accepted)

-- Four characters give three bytes.
decode_group :
    (ret rest : Bytes) (i j k l : ℕ)
    → i < 64
    → j < 64
    → k < 64
    → l < 64
    → decode_loop [] ret (char_of i ∷ char_of j ∷ char_of k ∷ char_of l ∷ rest)
      ≡ decode_loop [] (ret ++ octets i j k l) rest
decode_group ret rest i j k l hi hj hk hl =
    decode_char [] ret _ i hi
    ∙ decode_char (char_of i ∷ []) ret _ j hj
    ∙ decode_char (char_of i ∷ char_of j ∷ []) ret _ k hk
    ∙ decode_char (char_of i ∷ char_of j ∷ char_of k ∷ []) ret rest l hl
    ∙ rw (
      (char_of-IsAlphabet i hi).found,
      (char_of-IsAlphabet j hj).found,
      (char_of-IsAlphabet k hk).found,
      (char_of-IsAlphabet l hl).found,
    )

decode_pad : (group ret rest : Bytes) → decode_loop group ret (b'=' ∷ rest) ≡ finish_chars group ret
unfolding decode_loop
decode_pad group ret rest = refl

-- The arithmetic of one group.
octets-sextets :
    (a b c : ℕ)
    → a < 256
    → b < 256
    → c < 256
    → octets
        (a / 4 % 64)
        ((a % 4 * 16 + b / 16 % 16) % 256)
        ((b % 16 * 4 + c / 64 % 4) % 256)
        (c % 64)
      ≡ a ∷ b ∷ c ∷ []
octets-sextets a b c ha hb hc = ap₃ (omega arith) (omega arith) (omega arith)
  where
    ap₃ : {x y z x' y' z' : ℕ} → x ≡ x' → y ≡ y' → z ≡ z' → x ∷ y ∷ z ∷ [] ≡ x' ∷ y' ∷ z' ∷ []
    ap₃ p q r = cc

decode_one :
    (ret : Bytes) (a : ℕ)
    → a < 256
    → decode_loop [] ret (encode_loop [] [] (a ∷ [])) ≡ ret ++ a ∷ []
unfolding encode_loop
decode_one ret a h =
    let i = a / 4 % 64 in
    let j = (a % 4 * 16 + 0 / 16 % 16) % 256 in
    decode_char [] ret _ i (omega arith)
    ∙ decode_char (char_of i ∷ []) ret _ j (omega arith)
    ∙ decode_pad (char_of i ∷ char_of j ∷ []) ret _
    ∙ rw ((char_of-IsAlphabet i (omega arith)).found, (char_of-IsAlphabet j (omega arith)).found)
        (ap (λ x. ret ++ x ∷ []) (omega arith))

decode_two :
    (ret : Bytes) (a b : ℕ)
    → a < 256
    → b < 256
    → decode_loop [] ret (encode_loop [] [] (a ∷ b ∷ [])) ≡ ret ++ a ∷ b ∷ []
unfolding encode_loop
decode_two ret a b ha hb =
    let i = a / 4 % 64 in
    let j = (a % 4 * 16 + b / 16 % 16) % 256 in
    let k = (b % 16 * 4 + 0 / 64 % 4) % 256 in
    decode_char [] ret _ i (omega arith)
    ∙ decode_char (char_of i ∷ []) ret _ j (omega arith)
    ∙ decode_char (char_of i ∷ char_of j ∷ []) ret _ k (omega arith)
    ∙ decode_pad (char_of i ∷ char_of j ∷ char_of k ∷ []) ret _
    ∙ rw
        (
          (char_of-IsAlphabet i (omega arith)).found,
          (char_of-IsAlphabet j (omega arith)).found,
          (char_of-IsAlphabet k (omega arith)).found,
        )
        (ap₂ (λ x y. ret ++ x ∷ y ∷ []) (omega arith) (omega arith))

decode_all : (xs ret : Bytes) → IsBytes xs → decode_loop [] ret (encode_loop [] [] xs) ≡ ret ++ xs
unfolding encode_loop decode_loop
decode_all [] ret h = sym (append-nil ret)
decode_all (a ∷ []) ret h = decode_one ret a h.0
decode_all (a ∷ b ∷ []) ret h = decode_two ret a b h.0 h.1.0
decode_all (a ∷ b ∷ c ∷ xs) ret h =
    ap (decode_loop [] ret) (encode_loop-append [] (take_chars 4 (sextets a b c)) xs)
    ∙ decode_group ret (encode_loop [] [] xs) _ _ _ _ (omega arith) (omega arith) (omega arith)
        (omega arith)
    ∙ ap (λ group. decode_loop [] (ret ++ group) (encode_loop [] [] xs))
        (octets-sextets a b c h.0 h.1.0 h.1.1.0)
    ∙ decode_all xs (ret ++ a ∷ b ∷ c ∷ []) h.1.1.1
    ∙ append_assoc ret (a ∷ b ∷ c ∷ []) xs

-- Every byte sequence is read back from its encoding.
pub base64_decode-base64_encode :
    (bytes : Bytes) → IsBytes bytes → base64_decode (base64_encode bytes) ≡ bytes
unfolding base64_encode base64_decode
base64_decode-base64_encode bytes h = decode_all bytes [] h

encode_size : (xs : Bytes) → length (encode_loop [] [] xs) ≡ (length xs + 2) / 3 * 4
unfolding encode_loop
encode_size [] = refl
encode_size (a ∷ []) = refl
encode_size (a ∷ b ∷ []) = refl
encode_size (a ∷ b ∷ c ∷ xs) =
    omega
      (arith, ap length (encode_loop-append [] (take_chars 4 (sextets a b c)) xs), encode_size xs)

-- The encoding has four characters for each group of three bytes, the last one padded.
pub length-base64_encode :
    (bytes : Bytes) → length (base64_encode bytes) ≡ (length bytes + 2) / 3 * 4
unfolding base64_encode
length-base64_encode bytes = encode_size bytes
