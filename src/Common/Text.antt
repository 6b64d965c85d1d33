-- ===== src/Common/Text.antt =====
-- `Tokenize`, `Tokenize2` and `ReplaceString`. A position in the text is what stands behind it.
pub mod Split
pub mod Join
pub mod Replace
use oven_web_rtctester.Prelude.{
  ℕ, zero, suc, ◌+◌, Bool, true, false, not, ◌||◌, Option, none, some, List, [], ◌∷◌, ◌++◌, ltb,
  ◌==◌, if◌then◌else◌, length, take, drop,
}
use oven_web_rtctester.Prelude.Bytes.{Bytes, next_found, find_sub}
use oven_web_rtctester.Prelude.Outcome.{Outcome, done, no_fuel}

abbrev pub is_one_of : Bytes → ℕ → Bool
is_one_of [] c = false
is_one_of (d ∷ delimiters) c = c == d || is_one_of delimiters c

-- `find_first_of` and `find_first_not_of`
unfoldable pub find_first_of : Bytes → Bytes → Option ℕ
find_first_of delimiters [] = none
find_first_of delimiters (c ∷ text) =
    if is_one_of delimiters c then some 0 else next_found (find_first_of delimiters text)

unfoldable pub find_first_not_of : Bytes → Bytes → Option ℕ
find_first_not_of delimiters [] = none
find_first_not_of delimiters (c ∷ text) =
    if is_one_of delimiters c then next_found (find_first_not_of delimiters text) else some 0

-- the token in front of the delimiter at `delim_pos`, and the one behind the last delimiter
abbrev pub token_before : Bytes → ℕ → Option ℕ → Bytes
token_before text delim_pos none = []
token_before text delim_pos (some token_pos) =
    if ltb token_pos delim_pos then take delim_pos text else []

abbrev pub last_token : Bytes → Option ℕ → Bytes
last_token text none = []
last_token text (some token_pos) = text

abbrev pub put_first : Bytes → Outcome (List Bytes) → Outcome (List Bytes)
put_first token (done tokens) = done (token ∷ tokens)
put_first token Outcome.fault = Outcome.fault
put_first token no_fuel = no_fuel

-- the loop over what is left of the text
unfoldable pub tokenize_loop : ℕ → Bytes → Bytes → Outcome (List Bytes)
tokenize_loop zero delimiters text = no_fuel
tokenize_loop (suc fuel) delimiters text =
    let token_pos = find_first_not_of delimiters text in
    elim (find_first_of delimiters text) [
      | none ↦ done (last_token text token_pos ∷ [])
      | some delim_pos ↦
          put_first (token_before text delim_pos token_pos)
            (tokenize_loop fuel delimiters (drop (suc delim_pos) text))
    ]

unfoldable pub tokenize : Bytes → Bytes → Outcome (List Bytes)
tokenize [] delimiters = done []
tokenize (c ∷ text) delimiters = tokenize_loop (suc (suc (length text))) delimiters (c ∷ text)

-- the rest of a text that ends at its zero, with the token that has been begun
unfoldable pub tokenize2_loop : ℕ → Bytes → Bytes → List Bytes
tokenize2_loop delimiter token [] = token ∷ []
tokenize2_loop delimiter token (c ∷ text) =
    if c == 0
    then token ∷ []
    else if c == delimiter
    then token ∷ tokenize2_loop delimiter [] text
    else tokenize2_loop delimiter (token ++ c ∷ []) text

-- `Tokenize2` puts the tokens behind those that the list has.
unfoldable pub tokenize2 : Bytes → List Bytes → ℕ → List Bytes
tokenize2 text tokens delimiter = tokens ++ tokenize2_loop delimiter [] text

-- what the loop has passed, and what is left
unfoldable pub replace_loop : ℕ → Bytes → Bytes → Bytes → Bytes → Outcome Bytes
replace_loop zero before after passed text = no_fuel
replace_loop (suc fuel) before after passed text = elim (find_sub before text) [
  | none ↦ done (passed ++ text)
  | some at_pos ↦
      replace_loop fuel before after (passed ++ (take at_pos text ++ after))
        (drop (at_pos + length before) text)
]

unfoldable pub replace_string : ℕ → Bytes → Bytes → Bytes → Outcome Bytes
replace_string fuel text before after = replace_loop fuel before after [] text
