-- ===== src/ThreadTimer/Bells.antt =====
-- When the timers ring, over a history of rounds of the thread.
use oven_web_rtctester.Prelude.{
  ℕ, ◌+◌, ◌≤◌, ◌<◌, ◌≡◌, refl, sym, ap, inl, inr, Bool, true, false, ◌||◌, Option, none, some, List,
  [], ◌∷◌, if◌then◌else◌, if-cases, Bool-cases, arith,
}
use oven_web_rtctester.Prelude.Int.{ℤ, ltb_ℤ, eqb_ℤ, eqb_ℤ_iff}
use oven_web_rtctester.Prelude.Map.{
  Map, lookup, Above, IsMap, Above-weaken, Above-IsMap, lookup_head,
}
use oven_web_rtctester.ThreadTimer.{TimerInfo, is_due, after_callback, turn}

abbrev pub has_rung : ℤ → List ℤ → Bool
has_rung timer_id [] = false
has_rung timer_id (j ∷ rung) = eqb_ℤ j timer_id || has_rung timer_id rung

-- What a round makes of one timer, when the callback answers `killed` to it: it rings if and only if
-- its time has passed since its last bell, and then it is killed, if that was the answer, or its bell
-- is noted; else it stays.
abbrev pub Turned : Bool → ℕ → Option TimerInfo → Bool → Option TimerInfo → Type 0
Turned killed now none rang left = (rang ≡ false) × (left ≡ none)
Turned killed now (some t) true left =
    (t.recent_bell < now)
    × (t.recent_bell + t.elapse ≤ now)
    × (left ≡ (if killed then none else some (record t { recent_bell = now })))
Turned killed now (some t) false left =
    (t.recent_bell < now → now < t.recent_bell + t.elapse) × (left ≡ some t)

due_lem :
    (now : ℕ) (t : TimerInfo)
    → is_due now t ≡ true
    → (t.recent_bell < now) × (t.recent_bell + t.elapse ≤ now)
unfolding is_due
due_lem now t due = ground arith

early_lem :
    (now : ℕ) (t : TimerInfo)
    → is_due now t ≡ false
    → t.recent_bell < now
    → now < t.recent_bell + t.elapse
unfolding is_due
early_lem now t early passed = ground arith

after_callback-Above :
    (b : ℤ) (now : ℕ) (timer_id : ℤ) (t : TimerInfo) (killed : Bool) (m : Map TimerInfo)
    → ltb_ℤ b timer_id ≡ true
    → Above timer_id m
    → Above b (after_callback now timer_id t killed m)
after_callback-Above b now timer_id t true m below a = Above-weaken b timer_id m below a
after_callback-Above b now timer_id t false m below a = (below, a)

after_callback-IsMap :
    (now : ℕ) (timer_id : ℤ) (t : TimerInfo) (killed : Bool) (m : Map TimerInfo)
    → Above timer_id m
    → IsMap (after_callback now timer_id t killed m)
after_callback-IsMap now timer_id t true m a = Above-IsMap timer_id m a
after_callback-IsMap now timer_id t false m a = a

-- a timer that is not there does not ring
quiet :
    (killed : Bool) (now : ℕ) (o : Option TimerInfo) (rang : Bool) (left : Option TimerInfo)
    → o ≡ none
    → Turned killed now o rang left
    → rang ≡ false
quiet killed now none rang left e turned = turned.0
quiet killed now (some t) rang left e turned = absurd (cc)

-- the timer at the head of the table
head-Turned :
    (now : ℕ) (timer_id j : ℤ) (t : TimerInfo) (killed killed' : Bool) (m : Map TimerInfo)
    → killed ≡ killed'
    → eqb_ℤ j timer_id ≡ true
    → is_due now t ≡ true
    → lookup timer_id m ≡ none
    → Turned killed' now (some t) true (lookup timer_id (after_callback now j t killed m))
unfolding lookup
head-Turned now timer_id j t true killed' m answer same due absent =
    let (passed, elapsed) = due_lem now t due in (passed, elapsed, rw (sym answer) absent)
head-Turned now timer_id j t false killed' m answer same due absent =
    let (passed, elapsed) = due_lem now t due in (passed, elapsed, rw (sym answer) (rw same refl))

behind :
    (now : ℕ) (timer_id j : ℤ) (t : TimerInfo) (killed : Bool) (m : Map TimerInfo)
    → eqb_ℤ timer_id j ≡ false
    → lookup j (after_callback now timer_id t killed m) ≡ lookup j m
unfolding lookup
behind now timer_id j t true m other = refl
behind now timer_id j t false m other = rw other refl

module _ {ℓ} {S : Type ℓ} (on_timer : S → ℤ → S × Bool) where
  turn-Above :
      (m : Map TimerInfo) (b : ℤ) (now : ℕ) (s : S) → Above b m → Above b (turn on_timer now s m).1
  unfolding turn
  turn-Above [] b now s a = tt
  turn-Above ((timer_id, t) ∷ m) b now s a =
      if-cases (λ (r : S × Map TimerInfo × List ℤ). Above b r.1) (is_due now t)
        (λ due.
          after_callback-Above b now timer_id t (on_timer s timer_id).1
            (turn on_timer now (on_timer s timer_id).0 m).1 a.0
            (turn-Above m timer_id now (on_timer s timer_id).0 a.1))
        (λ early. (a.0, turn-Above m timer_id now s a.1))

  pub turn-IsMap : (m : Map TimerInfo) (now : ℕ) (s : S) → IsMap m → IsMap (turn on_timer now s m).1
  unfolding turn
  turn-IsMap [] now s a = tt
  turn-IsMap ((timer_id, t) ∷ m) now s a =
      if-cases (λ (r : S × Map TimerInfo × List ℤ). IsMap r.1) (is_due now t)
        (λ due.
          after_callback-IsMap now timer_id t (on_timer s timer_id).1
            (turn on_timer now (on_timer s timer_id).0 m).1
            (turn-Above m timer_id now (on_timer s timer_id).0 a))
        (λ early. turn-Above m timer_id now s a)

  -- a timer that the rest of the table does not have
  absent_behind :
      (m : Map TimerInfo) (timer_id j : ℤ) (now : ℕ) (s : S)
      → eqb_ℤ j timer_id ≡ true
      → Above j m
      → (lookup timer_id m ≡ none) × (lookup timer_id (turn on_timer now s m).1 ≡ none)
  absent_behind m timer_id j now s same a =
      let e = (eqb_ℤ_iff j timer_id).0 same in
      (
        rw (sym e) (lookup_head j m a),
        rw (sym e) (lookup_head j (turn on_timer now s m).1 (turn-Above m j now s a)),
      )

  -- A round of a table in order rings exactly the timers whose time has passed since their last bell,
  -- and one that rang is killed if the callback, which was called with it in some state, answered so,
  -- and else has its bell noted; the others stay as they are.
  pub turn-Turned :
      (m : Map TimerInfo) (timer_id : ℤ) (now : ℕ) (s : S)
      → IsMap m
      → (s' : S) × Turned
          (on_timer s' timer_id).1
          now
          (lookup timer_id m)
          (has_rung timer_id (turn on_timer now s m).2)
          (lookup timer_id (turn on_timer now s m).1)
  unfolding turn lookup
  turn-Turned [] timer_id now s a = (s, (refl, refl))
  turn-Turned ((j, t) ∷ m) timer_id now s a =
      let s' = (on_timer s j).0 in
      let killed = (on_timer s j).1 in
      let left = (turn on_timer now s' m).1 in
      let found = λ (r : S × Map TimerInfo × List ℤ).
        (s' : S) × Turned (on_timer s' timer_id).1 now (lookup timer_id ((j, t) ∷ m))
          (has_rung timer_id r.2) (lookup timer_id r.1) in
      if-cases found (is_due now t)
        (λ due. elim (Bool-cases (eqb_ℤ j timer_id)) [
          | inl same ↦
              let (gone, gone') = absent_behind m timer_id j now s' same a in
              let here = (eqb_ℤ_iff j timer_id).0 same in
              let answer = ap (λ i. (on_timer s i).1) here in
              let turned =
                head-Turned now timer_id j t killed (on_timer s timer_id).1 left answer same due
                  gone' in
              (s, rw same turned)
          | inr other ↦
              rw (other, behind now j timer_id t killed left other)
                (turn-Turned m timer_id now s' (Above-IsMap j m a))
        ])
        (λ early. elim (Bool-cases (eqb_ℤ j timer_id)) [
          | inl same ↦
              let (gone, gone') = absent_behind m timer_id j now s same a in
              let tail = turn-Turned m timer_id now s (Above-IsMap j m a) in
              let silent : has_rung timer_id (turn on_timer now s m).2 ≡ false =
                quiet (on_timer tail.0 timer_id).1 now (lookup timer_id m)
                  (has_rung timer_id (turn on_timer now s m).2)
                  (lookup timer_id (turn on_timer now s m).1) gone tail.1 in
              (s, rw (same, silent) (early_lem now t early, refl))
          | inr other ↦ rw other (turn-Turned m timer_id now s (Above-IsMap j m a))
        ])
