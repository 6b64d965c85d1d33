-- ===== src/Prelude/Bytes.antt =====
-- Byte sequences, and what the sources use of `std::string`: code points of literals and `find`.
use Prim.Native.Char.{code}
use Prim.Native.String.{String}
use Prim.Native.Nat.{ℕ, ◌+◌, ◌≤◌, ◌<◌}
use mathlib.Core.Path.{◌≡◌, refl}
use mathlib.Core.Logic.{inl, inr}
use native.Mathlib.Omega.{arith}
use mathlib.Core.Bool.{Bool, true, false, ◌&&◌}
use mathlib.Core.Option.{Option, none, some}
use mathlib.Core.List.{List, [], ◌∷◌, ◌++◌}
use oven_web_rtctester.Prelude.Tests.{◌==◌, if◌then◌else◌, Option-cases}
use oven_web_rtctester.Prelude.Lists.{All, length}

abbrev pub Bytes : Type 0
Bytes = List ℕ

-- Every element fits a `uint8_t`.
abbrev pub IsBytes : Bytes → Type 0
IsBytes = All (λ b. b < 256)

-- An ASCII literal.
abbrev pub ascii : String → Bytes
ascii (String.◌∷◌ letter letters) = code letter ∷ ascii letters
ascii String.[] = []

unfoldable pub starts_with : Bytes → Bytes → Bool
starts_with [] text = true
starts_with (p ∷ ps) [] = false
starts_with (p ∷ ps) (c ∷ cs) = p == c && starts_with ps cs

abbrev pub next_found : Option ℕ → Option ℕ
next_found none = none
next_found (some i) = some (i + 1)

-- `text.find(needle)`: the least position at which the needle stands.
unfoldable pub find_sub : Bytes → Bytes → Option ℕ
unfolding starts_with
find_sub needle [] = if starts_with needle [] then some 0 else none
find_sub needle (c ∷ cs) =
    if starts_with needle (c ∷ cs) then some 0 else next_found (find_sub needle cs)

pub starts_with-append :
    (p x y : Bytes) → length p ≤ length x → starts_with p (x ++ y) ≡ starts_with p x
unfolding starts_with
starts_with-append [] x y h = refl
starts_with-append (a ∷ p) [] y h = absurd (omega arith)
starts_with-append (a ∷ p) (b ∷ x) y h = rw (starts_with-append p x y (omega arith))

starts_with_fits : (p x : Bytes) → starts_with p x ≡ true → length p ≤ length x
unfolding starts_with
starts_with_fits [] x h = omega arith
starts_with_fits (a ∷ p) [] h = cc
starts_with_fits (a ∷ p) (b ∷ x) h = ground (arith, starts_with_fits p x)

-- What is found lies inside the text.
pub find_sub_fits : (p x : Bytes) {i : ℕ} → find_sub p x ≡ some i → i + length p ≤ length x
unfolding find_sub
find_sub_fits p [] {i = i} h = ground (arith, starts_with_fits p [])
find_sub_fits p (c ∷ x) {i = i} h = elim (Option-cases (find_sub p x)) [
  | inl e ↦ ground (arith, starts_with_fits p (c ∷ x))
  | inr (j, e) ↦ ground (arith, find_sub_fits p x {i = j}, starts_with_fits p (c ∷ x))
]

-- Bytes behind the text do not move the first occurrence.
pub find_sub-append : (p x y : Bytes) {i : ℕ} → find_sub p x ≡ some i → find_sub p (x ++ y) ≡ some i
unfolding find_sub
find_sub-append [] [] [] h = h
find_sub-append [] [] (b ∷ y) h = h
find_sub-append (a ∷ p) [] y h = cc
find_sub-append p (c ∷ x) y {i = i} h = elim (Option-cases (find_sub p x)) [
  | inl e ↦ ground (arith, starts_with_fits p (c ∷ x), starts_with-append p (c ∷ x) y)
  | inr (j, e) ↦ ground (
    arith,
    find_sub_fits p x {i = j},
    find_sub-append p x y {i = j},
    starts_with-append p (c ∷ x) y,
  )
]
