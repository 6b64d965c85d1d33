-- ===== src/Config/Lines.antt =====
-- Settings written as lines, and what loading and asking for them gives.
use oven_web_rtctester.Prelude.{
  ℕ, ◌==◌, ◌+◌, ◌≤◌, ◌<◌, ◌≡◌, ◌≢◌, refl, ◌∙◌, inl, inr, true, false, some, List, [], ◌∷◌, ◌++◌,
  map, lt→ltb, le→ltb_false, ==_refl, length, All, Bool-cases, arith,
}
use oven_web_rtctester.Prelude.Bytes.{Bytes}
use oven_web_rtctester.Prelude.Outcome.{done, fault}
use oven_web_rtctester.Config.{
  ConfigItem, is_skip_char, get_token_start, get_token_end, rest_of_token, split_and_parse_line,
  load_lines, load_file, same_text, query_value,
}

-- Blanks only.
abbrev pub IsBlank : Bytes → Type 0
IsBlank = All (λ c. is_skip_char c ≡ true)

-- No blanks and no zero, which ends a line.
abbrev pub IsLetter : ℕ → Type 0
IsLetter b = ((b == 0) ≡ false) × (is_skip_char b ≡ false)

-- Such letters, and one at least.
abbrev pub IsToken : Bytes → Type 0
IsToken [] = ⊥
IsToken (c ∷ cs) = All IsLetter (c ∷ cs)

-- The end of a line or a blank.
abbrev pub Stops : Bytes → Type 0
Stops [] = Unit
Stops (c ∷ cs) = is_skip_char c ≡ true

blank_is_not_zero : (c : ℕ) → is_skip_char c ≡ true → (c == 0) ≡ false
blank_is_not_zero c h = ground arith

skip_blanks :
    (lead text : Bytes) → IsBlank lead → get_token_start (lead ++ text) ≡ get_token_start text
unfolding get_token_start
skip_blanks [] text h = refl
skip_blanks (c ∷ lead) text (h, hs) = rw (blank_is_not_zero c h, h) (skip_blanks lead text hs)

start_of_token :
    (token rest : Bytes) → IsToken token → get_token_start (token ++ rest) ≡ some (token ++ rest)
unfolding get_token_start
start_of_token [] rest h = absurd h
start_of_token (c ∷ token) rest ((nonzero, h), hs) = rw (nonzero, h) refl

end_of_token :
    (token rest : Bytes)
    → All IsLetter token
    → Stops rest
    → get_token_end (token ++ rest) ≡ (token, rest)
unfolding get_token_end
end_of_token [] [] h stops = refl
end_of_token [] (c ∷ rest) h stops = rw (blank_is_not_zero c stops, stops) refl
end_of_token (c ∷ token) rest ((nonzero, h), hs) stops =
    rw (nonzero, h, end_of_token token rest hs stops) refl

whole_token :
    (token rest : Bytes)
    → IsToken token
    → Stops rest
    → rest_of_token (token ++ rest) ≡ (token, rest)
whole_token [] rest h stops = absurd h
whole_token (c ∷ token) rest (h, hs) stops = rw (end_of_token token rest hs stops) refl

-- A name, a blank, more blanks and a value, with blanks in front and a blank or nothing behind.
abbrev pub setting : Bytes → ℕ → Bytes → Bytes → ConfigItem → Bytes
setting lead blank gap tail item = lead ++ (item.name ++ (blank ∷ (gap ++ (item.value ++ tail))))

-- Such a line is read as its name and its value, whatever its letters are, a
-- semicolon included.
pub split_and_parse_line-setting :
    (lead gap tail : Bytes) (blank : ℕ) (item : ConfigItem)
    → IsBlank lead
    → IsBlank gap
    → is_skip_char blank ≡ true
    → Stops tail
    → IsToken item.name
    → IsToken item.value
    → split_and_parse_line (setting lead blank gap tail item) ≡ some item
unfolding split_and_parse_line
split_and_parse_line-setting lead gap tail blank item hl hg hb ht hn hv =
    rw
      (
        skip_blanks lead (item.name ++ (blank ∷ (gap ++ (item.value ++ tail)))) hl,
        start_of_token item.name (blank ∷ (gap ++ (item.value ++ tail))) hn,
        whole_token item.name (blank ∷ (gap ++ (item.value ++ tail))) hn hb,
        skip_blanks gap (item.value ++ tail) hg,
        start_of_token item.value tail hv,
        whole_token item.value tail hv ht,
      )
      refl

-- A line with a name of 512 bytes or more overruns the item, whatever stands on the other lines.
pub load_lines_overrun :
    (lead gap tail : Bytes) (blank : ℕ) (item : ConfigItem) (lines : List Bytes)
    → IsBlank lead
    → IsBlank gap
    → is_skip_char blank ≡ true
    → Stops tail
    → IsToken item.name
    → IsToken item.value
    → 512 ≤ length item.name
    → load_lines (setting lead blank gap tail item ∷ lines) ≡ fault
unfolding load_lines
load_lines_overrun lead gap tail blank item lines hl hg hb ht hn hv long =
    rw
      (
        split_and_parse_line-setting lead gap tail blank item hl hg hb ht hn hv,
        le→ltb_false (length item.name) 512 long,
      )
      refl

-- the plain form that a file is written in: name, space, value, line feed
abbrev pub print : ConfigItem → Bytes
print item = setting [] b' ' [] (10 ∷ []) item

-- `fgets` stores 1023 letters at most.
abbrev pub IsSetting : ConfigItem → Type 0
IsSetting item =
    (IsToken item.name × IsToken item.value)
    × ((length item.name < 512) × (length item.value < 512))
    × (length item.name + length item.value < 1022)

load-print :
    (items : List ConfigItem) → All IsSetting items → load_lines (map print items) ≡ done items
unfolding load_lines
load-print [] h = refl
load-print (item ∷ items) (((hn, hv), (fn, fv), room), hs) =
    rw
      (
        split_and_parse_line-setting [] [] (10 ∷ []) b' ' item tt tt refl refl hn hv,
        load-print items hs,
        lt→ltb (length item.name) 512 fn,
        lt→ltb (length item.value) 512 fv,
      )
      refl

same_text_refl : (x : Bytes) → same_text x x ≡ true
unfolding same_text
same_text_refl [] = refl
same_text_refl (c ∷ x) = rw (==_refl c) (same_text_refl x)

same_text_eq : (x y : Bytes) → same_text x y ≡ true → x ≡ y
unfolding same_text
same_text_eq [] [] h = refl
same_text_eq [] (c ∷ y) h = cc
same_text_eq (c ∷ x) [] h = cc
same_text_eq (c ∷ x) (d ∷ y) h = ground (arith, h, same_text_eq x y)

query_skips :
    (before rest : List ConfigItem) (name : Bytes)
    → All (λ i. i.name ≢ name) before
    → query_value name (before ++ rest) ≡ query_value name rest
unfolding query_value
query_skips [] rest name h = refl
query_skips (item ∷ before) rest name (ne, hs) = elim (Bool-cases (same_text item.name name)) [
  | inl same ↦ absurd (ne (same_text_eq item.name name same))
  | inr other ↦ rw other (query_skips before rest name hs)
]

-- A file of settings, written one per line, loads as those settings, and each name then has the
-- value of its first line: for names and values that are not empty, have no tab, CR, line feed, blank
-- or zero, are shorter than 512 letters and together fit the buffer of a line. A `;` is a letter like
-- the others, in a name too.
pub query-load_file :
    (c : ℕ) (path : Bytes) (old before after : List ConfigItem) (item : ConfigItem)
    → All IsSetting (before ++ item ∷ after)
    → All (λ i. i.name ≢ item.name) before
    → let items = before ++ item ∷ after in
      (load_file (c ∷ path) (some (map print items)) old ≡ done (items, true))
      × (query_value item.name items ≡ some item.value)
unfolding load_file query_value
query-load_file c path old before after item settings first = (
  rw (load-print (before ++ item ∷ after) settings) refl,
  query_skips before (item ∷ after) item.name first ∙ rw (same_text_refl item.name) refl,
)
