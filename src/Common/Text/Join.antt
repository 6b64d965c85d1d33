-- ===== src/Common/Text/Join.antt =====
-- The tokens of `Tokenize2` and the text they come from.
use oven_web_rtctester.Prelude.{
  ==_refl, ℕ, ◌≡◌, refl, sym, ap, ◌∙◌, inl, inr, false, List, [], ◌∷◌, ◌++◌, ◌==◌, ==_iff,
  Bool-cases, length, All, arith,
}
use oven_web_rtctester.Prelude.Bytes.{Bytes}
use oven_web_rtctester.Common.Text.{tokenize2}
use oven_web_rtctester.Common.Text.Split.{
  push_front, split, prefix, prefix-split, NoZero, tokenize2_loop-split,
}

-- The tokens with the delimiter between them.
unfoldable pub join_with : ℕ → List Bytes → Bytes
join_with delimiter [] = []
join_with delimiter (token ∷ []) = token
join_with delimiter (token ∷ next ∷ tokens) =
    token ++ delimiter ∷ join_with delimiter (next ∷ tokens)

join_with-push_front :
    (delimiter c : ℕ) (fields : List Bytes)
    → join_with delimiter (push_front c fields) ≡ c ∷ join_with delimiter fields
unfolding join_with
join_with-push_front delimiter c [] = refl
join_with-push_front delimiter c (field ∷ []) = refl
join_with-push_front delimiter c (field ∷ next ∷ fields) = refl

join_with_empty :
    (delimiter : ℕ) (fields : List Bytes)
    → prefix [] fields ≡ fields
    → join_with delimiter ([] ∷ fields) ≡ delimiter ∷ join_with delimiter fields
unfolding join_with
join_with_empty delimiter [] e = absurd (omega (arith, ap length e))
join_with_empty delimiter (field ∷ fields) e = refl

join_with-split :
    (delimiter : ℕ) (text : Bytes) → join_with delimiter (split (delimiter ∷ []) text) ≡ text
unfolding split join_with
join_with-split delimiter [] = refl
join_with-split delimiter (c ∷ text) = elim (Bool-cases (c == delimiter)) [
  | inl is ↦ rw is (
      join_with_empty delimiter (split (delimiter ∷ []) text) (prefix-split (delimiter ∷ []) text)
      ∙ ap (λ d. d ∷ join_with delimiter (split (delimiter ∷ []) text))
          (sym ((==_iff c delimiter).0 is))
      ∙ ap (◌∷◌ c) (join_with-split delimiter text))
  | inr other ↦ rw other (
      join_with-push_front delimiter c (split (delimiter ∷ []) text)
      ∙ ap (◌∷◌ c) (join_with-split delimiter text))
]

-- No field holds a delimiter.
abbrev pub Free : ℕ → Bytes → Type 0
Free delimiter = All (λ c. (c == delimiter) ≡ false)

push_front-Free :
    (delimiter c : ℕ) (fields : List Bytes)
    → (c == delimiter) ≡ false
    → All (Free delimiter) fields
    → All (Free delimiter) (push_front c fields)
push_front-Free delimiter c [] other free = ((other, tt), tt)
push_front-Free delimiter c (field ∷ fields) other free = ((other, free.0), free.1)

split-Free : (delimiter : ℕ) (text : Bytes) → All (Free delimiter) (split (delimiter ∷ []) text)
unfolding split
split-Free delimiter [] = (tt, tt)
split-Free delimiter (c ∷ text) = elim (Bool-cases (c == delimiter)) [
  | inl is ↦ rw is (tt, split-Free delimiter text)
  | inr other ↦
      rw other (
        push_front-Free delimiter c (split (delimiter ∷ []) text) other (split-Free delimiter text))
]

-- The tokens of a text without a zero, with the delimiter between them, are the text again, and no
-- token holds the delimiter.
pub tokenize2-join_with :
    (text : Bytes) (delimiter : ℕ)
    → NoZero text
    → (join_with delimiter (tokenize2 text [] delimiter) ≡ text)
      × All (Free delimiter) (tokenize2 text [] delimiter)
unfolding tokenize2
tokenize2-join_with text delimiter no_zero =
    let fields =
      tokenize2_loop-split text [] delimiter no_zero ∙ prefix-split (delimiter ∷ []) text in
    rw fields (join_with-split delimiter text, split-Free delimiter text)

split-Free_field :
    (delimiter : ℕ) (field : Bytes)
    → Free delimiter field
    → split (delimiter ∷ []) field ≡ field ∷ []
unfolding split
split-Free_field delimiter [] free = refl
split-Free_field delimiter (c ∷ field) (other, free) =
    rw (other, split-Free_field delimiter field free) refl

split-append :
    (delimiter : ℕ) (field rest : Bytes)
    → Free delimiter field
    → split (delimiter ∷ []) (field ++ delimiter ∷ rest) ≡ field ∷ split (delimiter ∷ []) rest
unfolding split
split-append delimiter [] rest free = rw (==_refl delimiter) refl
split-append delimiter (c ∷ field) rest (other, free) =
    rw (other, split-append delimiter field rest free) refl

split-join_with :
    (delimiter : ℕ) (token : Bytes) (tokens : List Bytes)
    → All (Free delimiter) (token ∷ tokens)
    → split (delimiter ∷ []) (join_with delimiter (token ∷ tokens)) ≡ token ∷ tokens
unfolding join_with
split-join_with delimiter token [] (free, all) = split-Free_field delimiter token free
split-join_with delimiter token (next ∷ tokens) (free, all) =
    split-append delimiter token (join_with delimiter (next ∷ tokens)) free
    ∙ ap (◌∷◌ token) (split-join_with delimiter next tokens all)

append-NoZero : (xs ys : Bytes) → NoZero xs → NoZero ys → NoZero (xs ++ ys)
append-NoZero [] ys a b = b
append-NoZero (x ∷ xs) ys (letter, a) b = (letter, append-NoZero xs ys a b)

join_with-NoZero :
    (delimiter : ℕ) (tokens : List Bytes)
    → (delimiter == 0) ≡ false
    → All NoZero tokens
    → NoZero (join_with delimiter tokens)
unfolding join_with
join_with-NoZero delimiter [] d all = tt
join_with-NoZero delimiter (token ∷ []) d (a, all) = a
join_with-NoZero delimiter (token ∷ next ∷ tokens) d (a, all) =
    append-NoZero token (delimiter ∷ join_with delimiter (next ∷ tokens)) a
      (d, join_with-NoZero delimiter (next ∷ tokens) d all)

-- Tokens that hold neither the delimiter nor a zero come back from the text that joins them.
pub tokenize2_tokens :
    (delimiter : ℕ) (token : Bytes) (tokens : List Bytes)
    → (delimiter == 0) ≡ false
    → All (Free delimiter) (token ∷ tokens)
    → All NoZero (token ∷ tokens)
    → tokenize2 (join_with delimiter (token ∷ tokens)) [] delimiter ≡ token ∷ tokens
unfolding tokenize2
tokenize2_tokens delimiter token tokens d free no_zero =
    let text = join_with delimiter (token ∷ tokens) in
    tokenize2_loop-split text [] delimiter (join_with-NoZero delimiter (token ∷ tokens) d no_zero)
    ∙ prefix-split (delimiter ∷ []) text
    ∙ split-join_with delimiter token tokens free
