-- ===== src/ThreadTimer/Spacing.antt =====
-- The times at which one timer rings, over a history of rounds.
use oven_web_rtctester.Prelude.{
  ℕ, ◌+◌, ◌≤◌, ◌≡◌, refl, Bool, true, false, Option, none, some, List, [], ◌∷◌,
}
use oven_web_rtctester.Prelude.Int.{ℤ}
use oven_web_rtctester.Prelude.Map.{Map, lookup, IsMap}
use oven_web_rtctester.ThreadTimer.{TimerInfo, turn}
use oven_web_rtctester.ThreadTimer.Bells.{has_rung, Turned, turn-IsMap, turn-Turned}

abbrev pub ring_at : ℕ → Bool → List ℕ → List ℕ
ring_at now true times = now ∷ times
ring_at now false times = times

-- Each time lies at least `elapse` behind the one before it, the first behind `recent_bell`.
abbrev pub Spaced : ℕ → ℕ → List ℕ → Type 0
Spaced elapse recent_bell [] = Unit
Spaced elapse recent_bell (now ∷ times) = (recent_bell + elapse ≤ now) × Spaced elapse now times

abbrev pub SpacedFor : Option TimerInfo → List ℕ → Type 0
SpacedFor none times = times ≡ []
SpacedFor (some t) times = Spaced t.elapse t.recent_bell times

ring-SpacedFor :
    (killed : Bool) (now : ℕ) (o : Option TimerInfo) (rang : Bool) (left : Option TimerInfo)
    (times : List ℕ)
    → Turned killed now o rang left
    → SpacedFor left times
    → SpacedFor o (ring_at now rang times)
ring-SpacedFor killed now none rang left times (quiet, gone) spaced = rw (quiet) (rw gone at spaced)
ring-SpacedFor true now (some t) true left times (passed, elapsed, gone) spaced =
    let no_more : times ≡ [] = rw gone at spaced in rw no_more (elapsed, tt)
ring-SpacedFor false now (some t) true left times (passed, elapsed, noted) spaced =
    (elapsed, rw noted at spaced)
ring-SpacedFor killed now (some t) false left times (early, stays) spaced = rw stays at spaced

module _ {ℓ} {S : Type ℓ} (on_timer : S → ℤ → S × Bool) where
  -- the times of the rounds in which the timer rings
  unfoldable pub bells : ℤ → List ℕ → S → Map TimerInfo → List ℕ
  bells timer_id [] s m = []
  bells timer_id (now ∷ times) s m =
      let (s', m', rung) = turn on_timer now s m in
      ring_at now (has_rung timer_id rung) (bells timer_id times s' m')

  -- Whatever the clock does and whatever the callbacks kill, a timer rings at least `elapse`
  -- milliseconds behind its last bell, or behind the time it was set at; one that is not in the table
  -- does not ring.
  pub bells-SpacedFor :
      (timer_id : ℤ) (times : List ℕ) (s : S) (m : Map TimerInfo)
      → IsMap m
      → SpacedFor (lookup timer_id m) (bells timer_id times s m)
  unfolding bells
  bells-SpacedFor timer_id [] s m a = nothing (lookup timer_id m)
    where
      nothing : (o : Option TimerInfo) → SpacedFor o []
      nothing none = refl
      nothing (some t) = tt
  bells-SpacedFor timer_id (now ∷ times) s m a =
      let (s', m', rung) = turn on_timer now s m in
      let (at, turned) = turn-Turned on_timer m timer_id now s a in
      ring-SpacedFor (on_timer at timer_id).1 now (lookup timer_id m) (has_rung timer_id rung)
        (lookup timer_id m') (bells timer_id times s' m') turned
        (bells-SpacedFor timer_id times s' m' (turn-IsMap on_timer m now s a))
