-- ===== src/Prelude/Table.antt =====
-- A Boolean fact about all numbers under a small limit, found by running it at each of them.
use Prim.Native.Nat.{ℕ, zero, suc, ◌<◌}
use mathlib.Core.Path.{◌≡◌}
use mathlib.Core.Logic.{inl, inr}
use mathlib.Core.Bool.{Bool, true, false}
use native.Mathlib.Omega.{arith}
use oven_web_rtctester.Prelude.Tests.{Bool-cases}

unfoldable pub tabulate : (ℕ → Bool) → ℕ → Bool
tabulate fact zero = true
tabulate fact (suc limit) = elim (fact limit) [ true ↦ tabulate fact limit | false ↦ false ]

-- A table that came out true can be read at any entry.
pub read_table :
    (fact : ℕ → Bool) (limit entry : ℕ)
    → tabulate fact limit ≡ true
    → entry < limit
    → fact entry ≡ true
unfolding tabulate
read_table f zero entry full inside = elim inside [ ]
read_table f (suc limit) entry full inside = elim (Bool-cases (f limit)) [
  | inl last ↦ ground (arith, last, read_table f limit entry)
  | inr gap ↦ ground (arith, gap)
]
