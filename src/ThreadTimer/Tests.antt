-- ===== src/ThreadTimer/Tests.antt =====
-- A table of two timers.
use oven_web_rtctester.Prelude.{ℕ, suc, ◌≡◌, refl, Bool, [], ◌∷◌}
use oven_web_rtctester.Prelude.Int.{ℤ, pos, eqb_ℤ}
use oven_web_rtctester.Prelude.Map.{Map, lookup, IsMap}
use oven_web_rtctester.ThreadTimer.{TimerInfo, is_due, turn}
use oven_web_rtctester.ThreadTimer.Bells.{has_rung, Turned, turn-Turned}
use oven_web_rtctester.ThreadTimer.Spacing.{Spaced, bells, bells-SpacedFor}

-- a callback that counts, and kills the timer 2
abbrev counts : ℕ → ℤ → ℕ × Bool
counts s timer_id = (suc s, eqb_ℤ timer_id (pos 2))

abbrev timers : Map TimerInfo
timers =
    (pos 1, record { elapse = 10; recent_bell = 100 })
    ∷ (pos 2, record { elapse = 5; recent_bell = 100 })
    ∷ []

timers-IsMap : IsMap timers
timers-IsMap = (refl, tt)

turn-Turned_example :
    (s' : ℕ) × Turned
      (counts s' (pos 2)).1
      107
      (lookup (pos 2) timers)
      (has_rung (pos 2) (turn counts 107 0 timers).2)
      (lookup (pos 2) (turn counts 107 0 timers).1)
turn-Turned_example = turn-Turned counts timers (pos 2) 107 0 timers-IsMap

bells-SpacedFor_example : Spaced 10 100 (bells counts (pos 1) (107 ∷ 112 ∷ 119 ∷ 125 ∷ []) 0 timers)
unfolding lookup
bells-SpacedFor_example =
    bells-SpacedFor counts (pos 1) (107 ∷ 112 ∷ 119 ∷ 125 ∷ []) 0 timers timers-IsMap

rings_when_due : bells counts (pos 1) (107 ∷ 112 ∷ 119 ∷ 125 ∷ []) 0 timers ≡ 112 ∷ 125 ∷ []
unfolding bells turn is_due
rings_when_due = refl
