-- ===== src/MainObject/Keys.antt =====
-- The keys that the timers give to new streams, and the connections that they ask for.
use Prim.Native.Nat.{min, max}
use oven_web_rtctester.Prelude.{
  ℕ, zero, suc, ◌+◌, ◌-◌, ◌≤◌, ◌≡◌, refl, sym, ap, ◌∙◌, inl, inr, Bool, true, false, not, ◌&&◌,
  List, [], ◌∷◌, ◌++◌, if◌then◌else◌, Bool-cases, arith,
}
use oven_web_rtctester.Prelude.Int.{ℤ, pos, negsuc, pos_part, ltb_ℤ, eqb_ℤ}
use oven_web_rtctester.MainObject.{
  CreateParam, MainObject, Action, new_main, SignallingServerType, ome, wowza, connects, create_one,
  is_full, create_loop, start_loop, start_time_proc, stream_create_time_proc,
}

-- The next key after one round of creation: all of the round, but not beyond the largest count, when
-- there is one, and never back.
abbrev pub key_after : ℤ → ℕ → ℕ → ℕ
key_after limit count key =
    if eqb_ℤ limit (pos 0) then key + count else max key (min (key + count) (pos_part limit))

-- the connections for the keys from one on
abbrev pub connections : CreateParam → ℕ → ℕ → List Action
connections param zero key = []
connections param (suc n) key =
    connects (param.signalling_server_type) key ++ connections param n (suc key)

abbrev reached : ℤ → ℕ → Bool
reached limit key = not (eqb_ℤ limit (pos 0)) && not (ltb_ℤ (pos key) limit)

reached_stays :
    (limit : ℤ) (count key : ℕ) → reached limit key ≡ true → key_after limit count key ≡ key
reached_stays (pos n) count key full = ground (arith, full)
reached_stays (negsuc n) count key full = ground (arith, full)

reached_next :
    (limit : ℤ) (count key : ℕ)
    → reached limit key ≡ false
    → reached limit (suc key) ≡ true
    → key_after limit (suc count) key ≡ suc key
reached_next (pos n) count key room full = ground (arith, room, full)
reached_next (negsuc n) count key room full = ground (arith, room, full)

goes_on :
    (limit : ℤ) (count key : ℕ)
    → reached limit (suc key) ≡ false
    → key_after limit (suc count) key ≡ key_after limit count (suc key)
goes_on (pos n) count key room = ground (arith, room)
goes_on (negsuc n) count key room = ground (arith, room)

key_after_le : (limit : ℤ) (count key : ℕ) → key ≤ key_after limit count key
key_after_le (pos n) count key = ground arith
key_after_le (negsuc n) count key = ground arith

connections-suc :
    (param : CreateParam) (n m key : ℕ)
    → n ≡ suc m
    → connections param n key
      ≡ connects (param.signalling_server_type) key ++ connections param m (suc key)
connections-suc param zero m key e = absurd (omega arith)
connections-suc param (suc n) m key e = let same : n ≡ m = omega arith in rw same refl

abbrev pub Creates : CreateParam → ℕ → ℕ → MainObject × List Action → Type 0
Creates param from to (main, actions) =
    (main.stream_index_key ≡ to) × (actions ≡ connections param (to - from) from)

connections_none : (param : CreateParam) (n key : ℕ) → n ≡ 0 → connections param n key ≡ []
connections_none param zero key e = refl
connections_none param (suc n) key e = absurd (omega arith)

connects_alone :
    (type : SignallingServerType) (key : ℕ) → connects type key ++ [] ≡ connects type key
connects_alone ome key = refl
connects_alone wowza key = refl

connections_one :
    (param : CreateParam) (n key : ℕ)
    → n ≡ 1
    → connections param n key ≡ connects (param.signalling_server_type) key
connections_one param n key e = rw e (connects_alone (param.signalling_server_type) key)

key_after_zero : (limit : ℤ) (key : ℕ) → key_after limit 0 key ≡ key
key_after_zero (pos n) key = ground arith
key_after_zero (negsuc n) key = ground arith

create_loop-Creates :
    (param : CreateParam) (now count : ℕ) (main : MainObject)
    → is_full param main ≡ false
    → let key = main.stream_index_key in
      Creates param key
        (key_after param.streaming_max_count count key)
        (create_loop param now count main)
unfolding create_loop
create_loop-Creates param now zero main room =
    let same = key_after_zero param.streaming_max_count main.stream_index_key in
    (sym same, sym (connections_none param _ main.stream_index_key (omega (arith, same))))
create_loop-Creates param now (suc count) main room =
    let key = main.stream_index_key in
    let limit = param.streaming_max_count in
    let main' = (create_one param now main).0 in
    elim (Bool-cases (is_full param main')) [
      | inl full ↦
          let last = reached_next limit count key room full in
          rw full (sym last, sym (connections_one param _ key (omega (arith, last))))
      | inr more ↦
          let on = goes_on limit count key more in
          let (to, posted) = create_loop-Creates param now count main' more in
          rw more (
            to ∙ sym on,
            ap (connects (param.signalling_server_type) key ++◌) posted
                ∙ sym (
                    connections-suc param _ _ key
                      (omega (arith, on, key_after_le limit count (suc key)))),
          )
    ]

-- A tick of the creation timer makes the round that the configuration asks for, cut at the largest
-- stream count: the next key is `key_after`, and one connection is asked for per key, in order.
pub stream_create_time_proc-Creates :
    (param : CreateParam) (now : ℕ) (main : MainObject)
    → let key = main.stream_index_key in
      Creates param key
        (key_after param.streaming_max_count (pos_part param.streaming_create_count) key)
        (stream_create_time_proc param now main)
unfolding stream_create_time_proc
stream_create_time_proc-Creates param now main =
    let key = main.stream_index_key in
    let count = pos_part param.streaming_create_count in
    elim (Bool-cases (is_full param main)) [
      | inl full ↦
          let same = reached_stays param.streaming_max_count count key full in
          rw full (sym same, sym (connections_none param _ key (omega (arith, same))))
      | inr room ↦ rw room (create_loop-Creates param now count main room)
    ]

-- The first timer makes `streaming_start_count` streams, whatever the largest count is.
start_loop-key :
    (param : CreateParam) (now count : ℕ) (main : MainObject)
    → (start_loop param now count main).0.stream_index_key ≡ main.stream_index_key + count
unfolding start_loop
start_loop-key param now zero main = omega arith
start_loop-key param now (suc count) main =
    omega (arith, start_loop-key param now count (create_one param now main).0)

-- the key after the start and any number of ticks, at the times given
pub ticks : CreateParam → List ℕ → MainObject → MainObject
ticks param [] main = main
ticks param (now ∷ later) main = ticks param later (stream_create_time_proc param now main).0

key_after_bound :
    (count key n bound : ℕ)
    → suc n ≤ bound
    → key ≤ bound
    → key_after (pos (suc n)) count key ≤ bound
key_after_bound count key n bound le below = ground (arith, le, below)

ticks_key :
    (param : CreateParam) (n bound : ℕ) (times : List ℕ) (main : MainObject)
    → param.streaming_max_count ≡ pos (suc n)
    → suc n ≤ bound
    → main.stream_index_key ≤ bound
    → (ticks param times main).stream_index_key ≤ bound
unfolding ticks
ticks_key param n bound [] main is le below = below
ticks_key param n bound (now ∷ later) main is le below =
    let tick = stream_create_time_proc-Creates param now main in
    let cut =
      key_after_bound (pos_part param.streaming_create_count) main.stream_index_key n bound le
        below in
    ticks_key param n bound later (stream_create_time_proc param now main).0 is le
      (rw (tick.0, is) cut)

-- With a largest count that is not zero, the start and any number of ticks make at most as many
-- streams as the larger one of that count and the start count.
pub ticks-start_bound :
    (param : CreateParam) (n now : ℕ) (times : List ℕ)
    → param.streaming_max_count ≡ pos (suc n)
    → (ticks param times (start_time_proc param now new_main).0).stream_index_key
      ≤ max (pos_part param.streaming_start_count) (suc n)
unfolding start_time_proc
ticks-start_bound param n now times is =
    ticks_key param n _ times (start_time_proc param now new_main).0 is (omega arith)
      (omega (arith, start_loop-key param now (pos_part param.streaming_start_count) new_main))
