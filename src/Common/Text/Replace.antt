-- ===== src/Common/Text/Replace.antt =====
-- `ReplaceString` and a description of it that goes through the text once.
use mathlib.Core.List.{append_assoc}
use oven_web_rtctester.Prelude.{
  ℕ, zero, suc, ◌+◌, ◌-◌, ◌≤◌, ◌<◌, ◌≡◌, refl, sym, ap, ◌∙◌, true, false, Option, none, some, [],
  ◌∷◌, ◌++◌, if◌then◌else◌, if-cases, length, take, drop, length-drop, arith,
}
use oven_web_rtctester.Prelude.Bytes.{Bytes, starts_with, next_found, find_sub, find_sub_fits}
use oven_web_rtctester.Prelude.Outcome.{done, no_fuel}
use oven_web_rtctester.Common.Text.{replace_loop, replace_string}

-- Each occurrence that the scan from the left meets gives way to `after`, and its letters are
-- skipped; `skip` letters are left to skip.
unfoldable pub replaced : Bytes → Bytes → ℕ → Bytes → Bytes
replaced before after skip [] = []
replaced before after (suc skip) (c ∷ text) = replaced before after skip text
replaced before after zero (c ∷ text) =
    let rest = replaced before after 0 text in
    let behind = replaced before after (length before - 1) text in
    if starts_with before (c ∷ text) then after ++ behind else c ∷ rest

replaced_skip :
    (before after : Bytes) (skip : ℕ) (text : Bytes)
    → replaced before after skip text ≡ replaced before after 0 (drop skip text)
unfolding replaced
replaced_skip before after zero text = refl
replaced_skip before after (suc skip) [] = refl
replaced_skip before after (suc skip) (c ∷ text) = replaced_skip before after skip text

-- What the search for the first occurrence says of the replacement.
abbrev pub Replaces : Bytes → Bytes → Bytes → Option ℕ → Type 0
Replaces before after text none = replaced before after 0 text ≡ text
Replaces before after text (some i) =
    replaced before after 0 text
    ≡ take i text ++ (after ++ replaced before after 0 (drop (i + length before) text))

next-Replaces :
    (before after text : Bytes) (c : ℕ) (found : Option ℕ)
    → starts_with before (c ∷ text) ≡ false
    → Replaces before after text found
    → Replaces before after (c ∷ text) (next_found found)
unfolding replaced
next-Replaces before after text c none other r = rw (other, r) refl
next-Replaces before after text c (some i) other r =
    let next : i + 1 ≡ suc i = omega arith in
    let next' : suc i + length before ≡ suc (i + length before) = omega arith in
    rw next (rw next' (rw (other, r) refl))

found_here :
    (b : ℕ) (before after : Bytes) (c : ℕ) (text : Bytes)
    → starts_with (b ∷ before) (c ∷ text) ≡ true
    → Replaces (b ∷ before) after (c ∷ text) (some 0)
unfolding replaced
found_here b before after c text here =
    let size : length (b ∷ before) - 1 ≡ length before = omega arith in
    let start : 0 + length (b ∷ before) ≡ suc (length before) = omega arith in
    rw (here, start, size)
      (ap (λ r. after ++ r) (replaced_skip (b ∷ before) after (length before) text))

find_sub-Replaces :
    (b : ℕ) (before after text : Bytes)
    → Replaces (b ∷ before) after text (find_sub (b ∷ before) text)
unfolding find_sub replaced starts_with
find_sub-Replaces b before after [] = refl
find_sub-Replaces b before after (c ∷ text) =
    if-cases (Replaces (b ∷ before) after (c ∷ text)) (starts_with (b ∷ before) (c ∷ text))
      (λ here. found_here b before after c text here)
      (λ other.
        next-Replaces (b ∷ before) after text c (find_sub (b ∷ before) text) other
          (find_sub-Replaces b before after text))

replace_round :
    (fuel b : ℕ) (before after passed text : Bytes) (found : Option ℕ)
    → ((passed' rest : Bytes)
        → length rest < fuel
        → replace_loop fuel (b ∷ before) after passed' rest
          ≡ done (passed' ++ replaced (b ∷ before) after 0 rest))
    → length text ≤ fuel
    → find_sub (b ∷ before) text ≡ found
    → Replaces (b ∷ before) after text found
    → replace_loop (suc fuel) (b ∷ before) after passed text
      ≡ done (passed ++ replaced (b ∷ before) after 0 text)
unfolding replace_loop
replace_round fuel b before after passed text none ih enough e r = rw (e, replace_loop) (rw r refl)
replace_round fuel b before after passed text (some i) ih enough e r =
    let rest = drop (i + length (b ∷ before)) text in
    let front = take i text in
    let shorter : length rest < fuel =
      omega
        (arith, length-drop (i + length (b ∷ before)) text, find_sub_fits (b ∷ before) text e) in
    rw (e, replace_loop)
      (ih (passed ++ (front ++ after)) rest shorter
        ∙ ap done (
            append_assoc passed (front ++ after) (replaced (b ∷ before) after 0 rest)
            ∙ ap (λ t. passed ++ t)
                (append_assoc front after (replaced (b ∷ before) after 0 rest) ∙ sym r)))

replace_loop-replaced :
    (fuel b : ℕ) (before after passed text : Bytes)
    → length text < fuel
    → replace_loop fuel (b ∷ before) after passed text
      ≡ done (passed ++ replaced (b ∷ before) after 0 text)
replace_loop-replaced zero b before after passed text enough = absurd (omega arith)
replace_loop-replaced (suc fuel) b before after passed text enough =
    replace_round fuel b before after passed text (find_sub (b ∷ before) text)
      (λ passed' rest shorter. replace_loop-replaced fuel b before after passed' rest shorter)
      (omega arith) refl (find_sub-Replaces b before after text)

-- For a `before` that is not empty the loop ends, within one round more than the text has letters,
-- with each occurrence that a scan from the left meets replaced; what was put in is not scanned.
pub replace_string-replaced :
    (b : ℕ) (before after text : Bytes) (fuel : ℕ)
    → length text < fuel
    → replace_string fuel text (b ∷ before) after ≡ done (replaced (b ∷ before) after 0 text)
unfolding replace_string
replace_string-replaced b before after text fuel enough =
    replace_loop-replaced fuel b before after [] text enough

find_sub_empty : (text : Bytes) → find_sub [] text ≡ some 0
unfolding find_sub starts_with
find_sub_empty [] = refl
find_sub_empty (c ∷ text) = refl

replace_loop_forever :
    (fuel : ℕ) (after passed text : Bytes) → replace_loop fuel [] after passed text ≡ no_fuel
unfolding replace_loop
replace_loop_forever zero after passed text = refl
replace_loop_forever (suc fuel) after passed text =
    rw (find_sub_empty text, replace_loop)
      (replace_loop_forever fuel after (passed ++ after) (drop (0 + 0) text))

-- With an empty `before` no number of rounds is enough.
pub replace_string_forever :
    (fuel : ℕ) (text after : Bytes) → replace_string fuel text [] after ≡ no_fuel
unfolding replace_string
replace_string_forever fuel text after = replace_loop_forever fuel after [] text
