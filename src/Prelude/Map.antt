-- ===== src/Prelude/Map.antt =====
-- `std::map<int, T>`: the entries in the order of their keys.
use mathlib.Core.Path.{◌≡◌, refl, subst}
use mathlib.Core.Logic.{inl, inr}
use mathlib.Core.Bool.{Bool, true, false}
use mathlib.Core.Option.{Option, none, some}
use mathlib.Core.List.{List, [], ◌∷◌}
use Prim.Native.Nat.{◌+◌}
use native.Mathlib.Omega.{arith}
use oven_web_rtctester.Prelude.Tests.{if◌then◌else◌, Bool-cases}
use oven_web_rtctester.Prelude.Lists.{length}
use oven_web_rtctester.Prelude.Int.{ℤ, ltb_ℤ, eqb_ℤ, eqb_ℤ_iff}

abbrev pub Map {ℓ} : Type ℓ → Type ℓ
Map V = List (ℤ × V)

ltb_trans : (a b c : ℤ) → ltb_ℤ a b ≡ true → ltb_ℤ b c ≡ true → ltb_ℤ a c ≡ true
ltb_trans a b c h k = ground arith

ltb_irrefl : (a b : ℤ) → ltb_ℤ a b ≡ true → eqb_ℤ b a ≡ false
ltb_irrefl a b h = ground arith

ltb_total : (a b : ℤ) → eqb_ℤ b a ≡ false → ltb_ℤ a b ≡ false → ltb_ℤ b a ≡ true
ltb_total a b h k = ground arith

module _ {ℓ} {V : Type ℓ} where
  -- `find(key)`, by the entry's value
  unfoldable pub lookup : ℤ → Map V → Option V
  lookup k [] = none
  lookup k ((j, v) ∷ m) = if eqb_ℤ j k then some v else lookup k m

  -- `map[key] = value`
  unfoldable pub insert : ℤ → V → Map V → Map V
  insert k v [] = (k, v) ∷ []
  insert k v ((j, w) ∷ m) =
      if eqb_ℤ j k
      then (k, v) ∷ m
      else if ltb_ℤ k j
      then (k, v) ∷ (j, w) ∷ m
      else (j, w) ∷ insert k v m

  -- `erase(key)`
  unfoldable pub erase : ℤ → Map V → Map V
  erase k [] = []
  erase k ((j, w) ∷ m) = if eqb_ℤ j k then m else (j, w) ∷ erase k m

  -- writes through the pointer that the entry of a key holds
  unfoldable pub update : ℤ → (V → V) → Map V → Map V
  update k f [] = []
  update k f ((j, w) ∷ m) = if eqb_ℤ j k then (j, f w) ∷ m else (j, w) ∷ update k f m

  -- The keys grow strictly, from a bound on.
  abbrev pub Above : ℤ → Map V → Type 0
  Above k [] = Unit
  Above k ((j, v) ∷ m) = (ltb_ℤ k j ≡ true) × Above j m

  abbrev pub IsMap : Map V → Type 0
  IsMap [] = Unit
  IsMap ((j, v) ∷ m) = Above j m

  abbrev pub is_some : Option V → Bool
  is_some none = false
  is_some (some v) = true

  abbrev pub on_some : (V → V) → Option V → Option V
  on_some f none = none
  on_some f (some v) = some (f v)

  pub lookup-insert :
      (k j : ℤ) (v : V) (m : Map V)
      → lookup j (insert k v m) ≡ (if eqb_ℤ k j then some v else lookup j m)
  unfolding lookup insert
  lookup-insert k j v [] = refl
  lookup-insert k j v ((i, w) ∷ m) =
      ground (arith, eqb_ℤ_iff i k, eqb_ℤ_iff k j, eqb_ℤ_iff i j, lookup-insert k j v m)

  pub lookup-update :
      (k j : ℤ) (f : V → V) (m : Map V)
      → lookup j (update k f m) ≡ (if eqb_ℤ k j then on_some f (lookup j m) else lookup j m)
  unfolding lookup update
  lookup-update k j f [] = ground arith
  lookup-update k j f ((i, w) ∷ m) =
      ground (arith, eqb_ℤ_iff i k, eqb_ℤ_iff k j, eqb_ℤ_iff i j, lookup-update k j f m)

  pub Above-weaken : (k j : ℤ) (m : Map V) → ltb_ℤ k j ≡ true → Above j m → Above k m
  Above-weaken k j [] h b = tt
  Above-weaken k j ((i, v) ∷ m) h b = (ltb_trans k j i h b.0, b.1)

  lookup-Above : (k j : ℤ) (m : Map V) → Above j m → ltb_ℤ k j ≡ true → lookup k m ≡ none
  unfolding lookup
  lookup-Above k j [] b h = refl
  lookup-Above k j ((i, v) ∷ m) b h =
      let below = ltb_trans k j i h b.0 in rw (ltb_irrefl k i below) (lookup-Above k i m b.1 below)

  pub lookup_head : (k : ℤ) (m : Map V) → Above k m → lookup k m ≡ none
  unfolding lookup
  lookup_head k [] a = refl
  lookup_head k ((i, v) ∷ m) a = rw (ltb_irrefl k i a.0) (lookup-Above k i m a.1 a.0)

  insert-Above :
      (b k : ℤ) (v : V) (m : Map V) → ltb_ℤ b k ≡ true → Above b m → Above b (insert k v m)
  unfolding insert
  insert-Above b k v [] h a = (h, tt)
  insert-Above b k v ((j, w) ∷ m) h a = elim (Bool-cases (eqb_ℤ j k)) [
    | inl same ↦ rw same (h, subst (λ i. Above i m) ((eqb_ℤ_iff j k).0 same) a.1)
    | inr other ↦ rw other (elim (Bool-cases (ltb_ℤ k j)) [
      | inl before ↦ rw before (h, (before, a.1))
      | inr behind ↦ rw behind (a.0, insert-Above j k v m (ltb_total k j other behind) a.1)
    ])
  ]

  pub insert-IsMap : (k : ℤ) (v : V) (m : Map V) → IsMap m → IsMap (insert k v m)
  unfolding insert
  insert-IsMap k v [] a = tt
  insert-IsMap k v ((j, w) ∷ m) a = elim (Bool-cases (eqb_ℤ j k)) [
    | inl same ↦ rw same (subst (λ i. Above i m) ((eqb_ℤ_iff j k).0 same) a)
    | inr other ↦ rw other (elim (Bool-cases (ltb_ℤ k j)) [
      | inl before ↦ rw before (before, a)
      | inr behind ↦ rw behind (insert-Above j k v m (ltb_total k j other behind) a)
    ])
  ]

  update-Above : (b k : ℤ) (f : V → V) (m : Map V) → Above b m → Above b (update k f m)
  unfolding update
  update-Above b k f [] a = tt
  update-Above b k f ((j, w) ∷ m) a = elim (Bool-cases (eqb_ℤ j k)) [
    | inl same ↦ rw same a
    | inr other ↦ rw other (a.0, update-Above j k f m a.1)
  ]

  pub update-IsMap : (k : ℤ) (f : V → V) (m : Map V) → IsMap m → IsMap (update k f m)
  unfolding update
  update-IsMap k f [] a = tt
  update-IsMap k f ((j, w) ∷ m) a = elim (Bool-cases (eqb_ℤ j k)) [
    | inl same ↦ rw same a
    | inr other ↦ rw other (update-Above j k f m a)
  ]

  erase-Above : (b k : ℤ) (m : Map V) → Above b m → Above b (erase k m)
  unfolding erase
  erase-Above b k [] a = tt
  erase-Above b k ((j, w) ∷ m) a = elim (Bool-cases (eqb_ℤ j k)) [
    | inl same ↦ rw same (Above-weaken b j m a.0 a.1)
    | inr other ↦ rw other (a.0, erase-Above j k m a.1)
  ]

  pub Above-IsMap : (b : ℤ) (m : Map V) → Above b m → IsMap m
  Above-IsMap b [] a = tt
  Above-IsMap b ((j, w) ∷ m) a = a.1

  pub erase-IsMap : (k : ℤ) (m : Map V) → IsMap m → IsMap (erase k m)
  unfolding erase
  erase-IsMap k [] a = tt
  erase-IsMap k ((j, w) ∷ m) a = elim (Bool-cases (eqb_ℤ j k)) [
    | inl same ↦ rw same (Above-IsMap j m a)
    | inr other ↦ rw other (erase-Above j k m a)
  ]

  pub lookup-erase :
      (k j : ℤ) (m : Map V)
      → IsMap m
      → lookup j (erase k m) ≡ (if eqb_ℤ k j then none else lookup j m)
  unfolding lookup erase
  lookup-erase k j [] a = ground arith
  lookup-erase k j ((i, w) ∷ m) a = ground (
    arith,
    eqb_ℤ_iff i k,
    eqb_ℤ_iff k j,
    eqb_ℤ_iff i j,
    lookup_head i m a,
    lookup-erase k j m (Above-IsMap i m a),
  )

  -- Keeping the entries that pass a test.
  unfoldable pub keep_if : (V → Bool) → Map V → Map V
  keep_if p [] = []
  keep_if p ((j, w) ∷ m) = if p w then (j, w) ∷ keep_if p m else keep_if p m

  abbrev pub kept : (V → Bool) → Option V → Option V
  kept p none = none
  kept p (some v) = if p v then some v else none

  pub lookup-keep_if :
      (p : V → Bool) (k : ℤ) (m : Map V) → IsMap m → lookup k (keep_if p m) ≡ kept p (lookup k m)
  unfolding lookup keep_if
  lookup-keep_if p k [] a = refl
  lookup-keep_if p k ((i, w) ∷ m) a =
      ground (arith, eqb_ℤ_iff i k, lookup_head i m a, lookup-keep_if p k m (Above-IsMap i m a))

  keep_if-Above : (b : ℤ) (p : V → Bool) (m : Map V) → Above b m → Above b (keep_if p m)
  unfolding keep_if
  keep_if-Above b p [] a = tt
  keep_if-Above b p ((j, w) ∷ m) a = elim (Bool-cases (p w)) [
    | inl stays ↦ rw stays (a.0, keep_if-Above j p m a.1)
    | inr goes ↦ rw goes (keep_if-Above b p m (Above-weaken b j m a.0 a.1))
  ]

  pub keep_if-IsMap : (p : V → Bool) (m : Map V) → IsMap m → IsMap (keep_if p m)
  unfolding keep_if
  keep_if-IsMap p [] a = tt
  keep_if-IsMap p ((j, w) ∷ m) a = elim (Bool-cases (p w)) [
    | inl stays ↦ rw stays (keep_if-Above j p m a)
    | inr goes ↦ rw goes (keep_if-IsMap p m (Above-IsMap j m a))
  ]

  pub length-insert :
      (k : ℤ) (v : V) (m : Map V) → lookup k m ≡ none → length (insert k v m) ≡ length m + 1
  unfolding lookup insert
  length-insert k v [] h = refl
  length-insert k v ((j, w) ∷ m) h = ground (arith, length-insert k v m)

  pub length-erase :
      (k : ℤ) (m : Map V) → length m ≡ length (erase k m) + (if is_some (lookup k m) then 1 else 0)
  unfolding lookup erase
  length-erase k [] = refl
  length-erase k ((j, w) ∷ m) = ground (arith, length-erase k m)
