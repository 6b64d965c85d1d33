-- ===== src/Http/Requests.antt =====
-- The text of a request, and what the parser finds in it.
use mathlib.Core.List.{append_assoc}
use oven_web_rtctester.Prelude.{
  ℕ, zero, suc, ◌+◌, ◌≤◌, ◌≡◌, refl, ap, ◌∙◌, false, some, List, [], ◌∷◌, ◌++◌, ◌==◌, length, take,
  length-append, take_append, All, arith,
}
use oven_web_rtctester.Prelude.Bytes.{Bytes, find_sub, starts_with}
use oven_web_rtctester.Prelude.Outcome.{done}
use oven_web_rtctester.Common.Text.{tokenize}
use oven_web_rtctester.Common.Text.Split.{split, tokenize-split}
use oven_web_rtctester.WebSocket.{header_end}
use oven_web_rtctester.Http.{http_version_max_size, page_line}

abbrev pub NoCr : Bytes → Type 0
NoCr = All (λ b. (b == 13) ≡ false)

abbrev pub IsWord : Bytes → Type 0
IsWord = All (λ b. ((b == 13) ≡ false) × ((b == 32) ≡ false))

-- A request: the first letter and the rest of its method, the page, the version, and each field with
-- its first letter and its rest.
pub data Request : Type 0 where
  asks : ℕ → Bytes → Bytes → Bytes → List (ℕ × Bytes) → Request

abbrev pub IsField : ℕ × Bytes → Type 0
IsField (c, field) = ((c == 13) ≡ false) × NoCr field

abbrev pub IsRequest : Request → Type 0
IsRequest (asks c method page version fields) =
    IsWord (c ∷ method)
    × IsWord page
    × IsWord version
    × (length version ≤ http_version_max_size)
    × All IsField fields

abbrev pub request_line : ℕ → Bytes → Bytes → Bytes → Bytes
request_line c method page version = c ∷ (method ++ 32 ∷ (page ++ 32 ∷ version))

unfoldable pub fields_text : List (ℕ × Bytes) → Bytes
fields_text [] = header_end
fields_text ((c, field) ∷ fields) = 13 ∷ 10 ∷ c ∷ (field ++ fields_text fields)

unfoldable pub request_text : Request → Bytes
unfolding fields_text
request_text (asks c method page version fields) =
    request_line c method page version ++ fields_text fields

-- how far the blank line of the fields is
abbrev pub blank_at : List (ℕ × Bytes) → ℕ
blank_at [] = 0
blank_at ((c, field) ∷ fields) = 3 + (length field + blank_at fields)

pub length-fields_text :
    (fields : List (ℕ × Bytes)) → length (fields_text fields) ≡ blank_at fields + 4
unfolding fields_text
length-fields_text [] = refl
length-fields_text ((c, field) ∷ fields) =
    omega (arith, length-append field (fields_text fields), length-fields_text fields)

-- a CR is not found in front of the first one
pub find_sub-skip :
    (p x rest : Bytes) (j : ℕ)
    → NoCr x
    → find_sub (13 ∷ p) rest ≡ some j
    → find_sub (13 ∷ p) (x ++ rest) ≡ some (length x + j)
unfolding find_sub starts_with
find_sub-skip p [] rest j free e = rw e (ap some (omega arith))
find_sub-skip p (c ∷ x) rest j (other, free) e = ground (arith, find_sub-skip p x rest j free)

find_sub-fields_text :
    (fields : List (ℕ × Bytes)) (more : Bytes)
    → All IsField fields
    → find_sub header_end (fields_text fields ++ more) ≡ some (blank_at fields)
unfolding fields_text find_sub starts_with
find_sub-fields_text [] more free = refl
find_sub-fields_text ((c, field) ∷ fields) more ((first, free), all) =
    let rest =
      find_sub-skip (10 ∷ 13 ∷ 10 ∷ []) field (fields_text fields ++ more) (blank_at fields) free
        (find_sub-fields_text fields more all) in
    let apart : (13 == c) ≡ false = ground arith in
    rw (append_assoc field (fields_text fields) more) (rw (apart, rest) (ap some (omega arith)))

-- the words of a line
IsWord-NoCr : (x : Bytes) → IsWord x → NoCr x
IsWord-NoCr [] w = tt
IsWord-NoCr (c ∷ x) ((cr, blank), w) = (cr, IsWord-NoCr x w)

split_word : (x : Bytes) → IsWord x → split (32 ∷ []) x ≡ x ∷ []
unfolding split
split_word [] w = refl
split_word (c ∷ x) ((cr, blank), w) = rw (blank, split_word x w) refl

split-append :
    (x rest : Bytes) → IsWord x → split (32 ∷ []) (x ++ 32 ∷ rest) ≡ x ∷ split (32 ∷ []) rest
unfolding split
split-append [] rest w = refl
split-append (c ∷ x) rest ((cr, blank), w) = rw (blank, split-append x rest w) refl

pub tokens_lem :
    (c : ℕ) (method page version : Bytes)
    → IsWord (c ∷ method)
    → IsWord page
    → IsWord version
    → tokenize (request_line c method page version) (32 ∷ [])
      ≡ done ((c ∷ method) ∷ page ∷ version ∷ [])
tokens_lem c method page version m p v =
    tokenize-split c (method ++ 32 ∷ (page ++ 32 ∷ version)) (32 ∷ [])
    ∙ ap done (
        split-append (c ∷ method) (page ++ 32 ∷ version) m
        ∙ ap (λ r. (c ∷ method) ∷ r)
            (split-append page version p ∙ ap (λ r. page ∷ r) (split_word version v)))

NoCr-append : (x y : Bytes) → NoCr x → NoCr y → NoCr (x ++ y)
NoCr-append [] y a b = b
NoCr-append (c ∷ x) y (a, as') b = (a, NoCr-append x y as' b)

pub request_line-NoCr :
    (c : ℕ) (method page version : Bytes)
    → IsWord (c ∷ method)
    → IsWord page
    → IsWord version
    → NoCr (request_line c method page version)
request_line-NoCr c method page version m p v =
    NoCr-append (c ∷ method) (32 ∷ (page ++ 32 ∷ version)) (IsWord-NoCr (c ∷ method) m)
      (refl, NoCr-append page (32 ∷ version) (IsWord-NoCr page p) (refl, IsWord-NoCr version v))

-- the size of a request up to its blank line, and the header that the loop cuts out of the data
unfoldable pub size_of : Request → ℕ
size_of (asks c method page version fields) =
    length (request_line c method page version) + blank_at fields

unfoldable pub header_of : Request → Bytes
unfolding request_text size_of
header_of r = take (size_of r + 3) (request_text r)

take_past : (m n : ℕ) (x y : Bytes) → m ≡ length x + n → take m (x ++ y) ≡ x ++ take n y
take_past m n [] y e = ap (λ k. take k y) (omega (arith, e))
take_past zero n (c ∷ x) y e = absurd (omega arith)
take_past (suc m) n (c ∷ x) y e = ap (◌∷◌ c) (take_past m n x y (omega (arith, e)))

-- what the line stands in front of
behind_line :
    (n : ℕ) (fields : List (ℕ × Bytes))
    → (rest : Bytes) × (take (suc n) (fields_text fields) ≡ 13 ∷ rest)
unfolding fields_text
behind_line n [] = (take n (10 ∷ 13 ∷ 10 ∷ []), refl)
behind_line n ((c, field) ∷ fields) = (take n (10 ∷ c ∷ (field ++ fields_text fields)), refl)

find_cr : (rest : Bytes) → find_sub (13 ∷ []) (13 ∷ rest) ≡ some 0
unfolding find_sub starts_with
find_cr rest = refl

pub page_line_lem :
    (m : ℕ) (line : Bytes) (fields : List (ℕ × Bytes))
    → m ≡ length line + blank_at fields + 3
    → NoCr line
    → page_line (take m (line ++ fields_text fields)) ≡ line
unfolding page_line
page_line_lem m line fields e free =
    let (rest, head) = behind_line (blank_at fields + 2) fields in
    let cut : take m (line ++ fields_text fields) ≡ line ++ 13 ∷ rest =
      take_past m (suc (blank_at fields + 2)) line (fields_text fields) (omega (arith, e))
      ∙ ap (λ r. line ++ r) head in
    rw cut (
      rw (find_sub-skip [] line (13 ∷ rest) 0 free (find_cr rest))
        (take_append (length line + 0) line (13 ∷ rest) (omega arith)))

pub length-request_text : (r : Request) → length (request_text r) ≡ size_of r + 4
unfolding request_text size_of
length-request_text (asks c method page version fields) = omega (
  arith,
  length-append (request_line c method page version) (fields_text fields),
  length-fields_text fields,
)

pub find_sub-request_text :
    (r : Request) (more : Bytes)
    → IsRequest r
    → find_sub header_end (request_text r ++ more) ≡ some (size_of r)
unfolding request_text size_of
find_sub-request_text (asks c method page version fields) more (m, p, v, short, all) =
    let line = request_line c method page version in
    rw (append_assoc line (fields_text fields) more) (
      find_sub-skip (10 ∷ 13 ∷ 10 ∷ []) line (fields_text fields ++ more) (blank_at fields)
        (request_line-NoCr c method page version m p v) (find_sub-fields_text fields more all))
