-- ===== src/Common/Text/Split.antt =====
-- The two tokenizers of `Text`, and one description of splitting.
use oven_web_rtctester.Prelude.{
  ℕ, zero, suc, ◌+◌, ◌≤◌, ◌<◌, ◌≡◌, refl, sym, ap, ◌∙◌, inl, inr, true, false, Option, none, some,
  List, [], ◌∷◌, ◌++◌, ltb, ◌==◌, if◌then◌else◌, Bool-cases, Option-cases, if-cases, length, take,
  drop, length-drop, All, arith,
}
use mathlib.Core.List.{append_assoc, append-nil}
use oven_web_rtctester.Prelude.Bytes.{Bytes, next_found}
use oven_web_rtctester.Prelude.Outcome.{done}
use oven_web_rtctester.Common.Text.{
  is_one_of, find_first_of, find_first_not_of, token_before, last_token, tokenize_loop, tokenize,
  tokenize2_loop, tokenize2,
}

-- A letter in front of the first field.
abbrev pub push_front : ℕ → List Bytes → List Bytes
push_front c [] = (c ∷ []) ∷ []
push_front c (field ∷ fields) = (c ∷ field) ∷ fields

-- The fields between the delimiters, the empty ones too.
unfoldable pub split : Bytes → Bytes → List Bytes
split delimiters [] = [] ∷ []
split delimiters (c ∷ text) =
    let fields = split delimiters text in
    if is_one_of delimiters c then [] ∷ fields else push_front c fields

-- What the search for a delimiter says of the fields.
abbrev pub Splits : Bytes → Bytes → Option ℕ → Type 0
Splits delimiters text none = split delimiters text ≡ text ∷ []
Splits delimiters text (some i) =
    (split delimiters text ≡ take i text ∷ split delimiters (drop (suc i) text)) × (i < length text)

next-Splits :
    (delimiters text : Bytes) (c : ℕ) (found : Option ℕ)
    → is_one_of delimiters c ≡ false
    → Splits delimiters text found
    → Splits delimiters (c ∷ text) (next_found found)
unfolding split
next-Splits delimiters text c none other s = rw (other, s) refl
next-Splits delimiters text c (some i) other (s, inside) =
    let next : i + 1 ≡ suc i = omega arith in rw next (rw (other, s) refl, omega arith)

find_first_of-Splits :
    (delimiters text : Bytes) → Splits delimiters text (find_first_of delimiters text)
unfolding split find_first_of
find_first_of-Splits delimiters [] = refl
find_first_of-Splits delimiters (c ∷ text) = elim (Bool-cases (is_one_of delimiters c)) [
  | inl is ↦ rw is (rw is refl, omega arith)
  | inr other ↦ rw other (
      next-Splits delimiters text c (find_first_of delimiters text) other
        (find_first_of-Splits delimiters text))
]

token_before-take :
    (delimiters text : Bytes) (i : ℕ)
    → find_first_of delimiters text ≡ some i
    → token_before text i (find_first_not_of delimiters text) ≡ take i text
unfolding find_first_of find_first_not_of
token_before-take delimiters [] i found = cc
token_before-take delimiters (c ∷ text) i found = elim (Bool-cases (is_one_of delimiters c)) [
  | inl is ↦
      let first : 0 ≡ i = (let e : some 0 ≡ some i = rw is at found in cc) in
      rw (is, ← first) (no_token (c ∷ text) (next_found (find_first_not_of delimiters text)))
  | inr other ↦ elim (Option-cases (find_first_of delimiters text)) [
    | inl e ↦ let absent : none ≡ some i = rw (other, e) at found in absurd (cc)
    | inr (j, e) ↦
        let behind : some (j + 1) ≡ some i = rw (other, e) at found in
        let next : j + 1 ≡ i = cc in
        let inside : ltb 0 i ≡ true = ground arith in rw (other, inside) refl
  ]
]
  where
    no_token : (text : Bytes) (token_pos : Option ℕ) → token_before text 0 token_pos ≡ []
    no_token text none = refl
    no_token text (some token_pos) = ground arith

last_token-all :
    (delimiters text : Bytes)
    → find_first_of delimiters text ≡ none
    → last_token text (find_first_not_of delimiters text) ≡ text
unfolding find_first_of find_first_not_of
last_token-all delimiters [] found = refl
last_token-all delimiters (c ∷ text) found = elim (Bool-cases (is_one_of delimiters c)) [
  | inl is ↦ let e : ◌≡◌ {A = Option ℕ} (some 0) none = rw is at found in absurd (cc)
  | inr other ↦ rw other refl
]

-- One round of the loop, when the rest of the text is split.
tokenize_round :
    (fuel : ℕ) (delimiters text : Bytes) (found : Option ℕ)
    → ((rest : Bytes)
        → length rest < fuel
        → tokenize_loop fuel delimiters rest ≡ done (split delimiters rest))
    → length text ≤ fuel
    → find_first_of delimiters text ≡ found
    → Splits delimiters text found
    → tokenize_loop (suc fuel) delimiters text ≡ done (split delimiters text)
unfolding tokenize_loop
tokenize_round fuel delimiters text none ih enough e s =
    rw (e, tokenize_loop) (rw (s, last_token-all delimiters text e) refl)
tokenize_round fuel delimiters text (some i) ih enough e (s, inside) =
    let rest = ih (drop (suc i) text) (omega (arith, length-drop (suc i) text)) in
    rw (e, tokenize_loop) (rw (s, rest, token_before-take delimiters text i e) refl)

tokenize_loop-split :
    (fuel : ℕ) (delimiters text : Bytes)
    → length text < fuel
    → tokenize_loop fuel delimiters text ≡ done (split delimiters text)
tokenize_loop-split zero delimiters text enough = absurd (omega arith)
tokenize_loop-split (suc fuel) delimiters text enough =
    tokenize_round fuel delimiters text (find_first_of delimiters text)
      (λ rest shorter. tokenize_loop-split fuel delimiters rest shorter) (omega arith) refl
      (find_first_of-Splits delimiters text)

-- The fuel that `tokenize` gives is enough, and on a text that is not empty the tokens are its fields
-- between the delimiters, the empty ones too.
pub tokenize-split :
    (c : ℕ) (text delimiters : Bytes)
    → tokenize (c ∷ text) delimiters ≡ done (split delimiters (c ∷ text))
unfolding tokenize
tokenize-split c text delimiters =
    tokenize_loop-split (suc (suc (length text))) delimiters (c ∷ text) (omega arith)

-- The letters that a token has already, in front of the first field.
abbrev pub prefix : Bytes → List Bytes → List Bytes
prefix token [] = token ∷ []
prefix token (field ∷ fields) = (token ++ field) ∷ fields

prefix-push_front :
    (token : Bytes) (c : ℕ) (fields : List Bytes)
    → prefix (token ++ c ∷ []) fields ≡ prefix token (push_front c fields)
prefix-push_front token c [] = refl
prefix-push_front token c (field ∷ fields) =
    ap (λ f. f ∷ fields) (append_assoc token (c ∷ []) field)

abbrev pub NoZero : Bytes → Type 0
NoZero = All (λ c. (c == 0) ≡ false)

prefix-push : (c : ℕ) (fields : List Bytes) → prefix [] (push_front c fields) ≡ push_front c fields
prefix-push c [] = refl
prefix-push c (field ∷ fields) = refl

pub prefix-split :
    (delimiters text : Bytes) → prefix [] (split delimiters text) ≡ split delimiters text
unfolding split
prefix-split delimiters [] = refl
prefix-split delimiters (c ∷ text) =
    if-cases (λ fields. prefix [] fields ≡ fields) (is_one_of delimiters c) (λ is. refl)
      (λ other. prefix-push c (split delimiters text))

pub tokenize2_loop-split :
    (text token : Bytes) (delimiter : ℕ)
    → NoZero text
    → tokenize2_loop delimiter token text ≡ prefix token (split (delimiter ∷ []) text)
unfolding tokenize2_loop split
tokenize2_loop-split [] token delimiter no_zero = ap (λ f. f ∷ []) (sym (append-nil token))
tokenize2_loop-split (c ∷ text) token delimiter (letter, no_zero) =
    rw letter (elim (Bool-cases (c == delimiter)) [
      | inl is ↦
          rw (is, append-nil token)
            (ap (◌∷◌ token)
              (tokenize2_loop-split text [] delimiter no_zero ∙ prefix-split (delimiter ∷ []) text))
      | inr other ↦ rw other (
          tokenize2_loop-split text (token ++ c ∷ []) delimiter no_zero
          ∙ prefix-push_front token c (split (delimiter ∷ []) text))
    ])

-- On a text that is not empty and has no zero the two tokenizers agree for one delimiter.
pub tokenize-tokenize2 :
    (c : ℕ) (text : Bytes) (delimiter : ℕ)
    → NoZero (c ∷ text)
    → tokenize (c ∷ text) (delimiter ∷ []) ≡ done (tokenize2 (c ∷ text) [] delimiter)
unfolding tokenize2
tokenize-tokenize2 c text delimiter no_zero =
    tokenize-split c text (delimiter ∷ [])
    ∙ ap done (
        sym (
          tokenize2_loop-split (c ∷ text) [] delimiter no_zero
          ∙ prefix-split (delimiter ∷ []) (c ∷ text)))
