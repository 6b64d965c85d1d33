-- ===== src/Config.antt =====
-- srcs/common/config_parser.cpp: the lines of the configuration file and the list of settings. A line
-- is what `fgets` stores before its final zero, and ends at a zero that it holds itself. Copying a token of 512 bytes or more overruns the
-- field of an item; that is the outcome `fault`.
pub mod Lines
mod Tests
use oven_web_rtctester.Prelude.{
  ℕ, Bool, true, false, not, ◌&&◌, ◌||◌, Option, none, some, List, [], ◌∷◌, ◌++◌, ltb, ◌==◌,
  if◌then◌else◌, length,
}
use oven_web_rtctester.Prelude.Bytes.{Bytes}
use oven_web_rtctester.Prelude.Outcome.{Outcome, done, fault, no_fuel}

pub record ConfigItem : Type 0 where
  pub name : Bytes
  pub value : Bytes

-- tab, carriage return, line feed and space
abbrev pub is_skip_char : ℕ → Bool
is_skip_char c = c == 9 || c == 13 || c == 10 || c == 32

-- the text from the first character of a token on
unfoldable pub get_token_start : Bytes → Option Bytes
get_token_start [] = none
get_token_start (c ∷ cs) =
    let rest = get_token_start cs in
    if c == 0 then none else if is_skip_char c then rest else some (c ∷ cs)

-- what stands before the end of the token, and the text from its end on
unfoldable pub get_token_end : Bytes → Bytes × Bytes
get_token_end [] = ([], [])
get_token_end (c ∷ cs) =
    let (token, rest) = get_token_end cs in
    if c == 0 then ([], []) else if is_skip_char c then ([], c ∷ cs) else (c ∷ token, rest)

-- The first character of a token is not looked at again.
abbrev pub rest_of_token : Bytes → Bytes × Bytes
rest_of_token [] = ([], [])
rest_of_token (c ∷ cs) = let (token, rest) = get_token_end cs in (c ∷ token, rest)

abbrev pub with_value : Bytes → Option Bytes → Option ConfigItem
with_value name none = none
with_value name (some start) = some (record { name = name; value = (rest_of_token start).0 })

-- A name that ends the line has no value.
abbrev pub with_name : Bytes × Bytes → Option ConfigItem
with_name (name, []) = none
with_name (name, c ∷ rest) = with_value name (get_token_start rest)

abbrev pub parse_tokens : Option Bytes → Option ConfigItem
parse_tokens none = none
parse_tokens (some start) = with_name (rest_of_token start)

-- The search for `;` changes nothing.
unfoldable pub split_and_parse_line : Bytes → Option ConfigItem
split_and_parse_line line = parse_tokens (get_token_start line)

abbrev pub fits : ConfigItem → Bool
fits item = ltb (length item.name) 512 && ltb (length item.value) 512

abbrev pub cons_item : ConfigItem → Outcome (List ConfigItem) → Outcome (List ConfigItem)
cons_item item fault = fault
cons_item item no_fuel = no_fuel
cons_item item (done items) = done (item ∷ items)

abbrev pub add_item : Option ConfigItem → Outcome (List ConfigItem) → Outcome (List ConfigItem)
add_item none rest = rest
add_item (some item) rest = if fits item then cons_item item rest else fault

-- the loop over the lines
unfoldable pub load_lines : List Bytes → Outcome (List ConfigItem)
load_lines [] = done []
load_lines (line ∷ lines) = add_item (split_and_parse_line line) (load_lines lines)

abbrev pub loaded : Outcome (List ConfigItem) → Outcome (List ConfigItem × Bool)
loaded fault = fault
loaded no_fuel = no_fuel
loaded (done items) = done (items, true)

-- `file` is what `fopen` and `fgets` give. The old list is gone when the file does not open.
unfoldable pub load_file :
    Bytes → Option (List Bytes) → List ConfigItem → Outcome (List ConfigItem × Bool)
load_file [] file items = done (items, false)
load_file (c ∷ path) none items = done ([], false)
load_file (c ∷ path) (some lines) items = loaded (load_lines lines)

-- `strcmp` gives 0
unfoldable pub same_text : Bytes → Bytes → Bool
same_text [] [] = true
same_text [] (y ∷ ys) = false
same_text (x ∷ xs) [] = false
same_text (x ∷ xs) (y ∷ ys) = x == y && same_text xs ys

-- the value of the first item of a name, `none` where the source returns false
unfoldable pub query_value : Bytes → List ConfigItem → Option Bytes
unfolding same_text
query_value name [] = none
query_value name (item ∷ items) =
    if same_text item.name name then some item.value else query_value name items
