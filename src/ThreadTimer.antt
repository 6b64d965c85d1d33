-- ===== src/ThreadTimer.antt =====
-- srcs/common/thread_timer.cpp: the table of timers and a round of its thread. `now` is the value of
-- `GetTickCount`, milliseconds in 32 bits. The callback `OnThreadTimer` is the parameter `on_timer`:
-- it changes a state of its own and answers whether the timer is to be killed; a callback that itself
-- changes the table is not modelled. The mutex is held for a whole round.
pub mod Bells
pub mod Spacing
mod Tests
use oven_web_rtctester.Prelude.{
  ℕ, ◌-◌, Bool, true, false, ◌&&◌, none, some, List, [], ◌∷◌, ltb, leb, if◌then◌else◌,
}
use oven_web_rtctester.Prelude.Int.{ℤ}
use oven_web_rtctester.Prelude.Map.{Map, lookup, insert, erase, update}

pub record TimerInfo : Type 0 where
  pub elapse : ℕ
  pub recent_bell : ℕ

unfoldable pub set_timer : ℕ → ℤ → ℕ → Map TimerInfo → Map TimerInfo
set_timer now timer_id elapse m = elim (lookup timer_id m) [
  | none ↦ insert timer_id (record { elapse = elapse; recent_bell = now }) m
  | some t ↦ update timer_id (λ t. record { elapse = elapse; recent_bell = now }) m
]

unfoldable pub kill_timer : ℤ → Map TimerInfo → Map TimerInfo
kill_timer timer_id m = elim (lookup timer_id m) [ none ↦ m | some t ↦ erase timer_id m ]

unfoldable pub is_due : ℕ → TimerInfo → Bool
is_due now t = ltb t.recent_bell now && leb t.elapse (now - t.recent_bell)

-- a timer that rings: the bell is noted before the callback, which may have the timer killed
abbrev pub after_callback : ℕ → ℤ → TimerInfo → Bool → Map TimerInfo → Map TimerInfo
after_callback now timer_id t true m = m
after_callback now timer_id t false m = (timer_id, record t { recent_bell = now }) ∷ m

module _ {ℓ} {S : Type ℓ} (on_timer : S → ℤ → S × Bool) where
  -- one round over the timers in the order of their ids: the ids that rang stand in the list
  unfoldable pub turn : ℕ → S → Map TimerInfo → S × Map TimerInfo × List ℤ
  turn now s [] = (s, [], [])
  turn now s ((timer_id, t) ∷ m) =
      let (s', delete_timer) = on_timer s timer_id in
      let (after, left, rung) = turn now s' m in
      let (silent, left', rung') = turn now s m in
      if is_due now t
      then (after, after_callback now timer_id t delete_timer left, timer_id ∷ rung)
      else (silent, (timer_id, t) ∷ left', rung')
