-- ===== src/MainObject/Lookup.antt =====
-- The stream of a key across the managers: new keys are fresh, a round makes every stream that it
-- announces, and the callbacks reach the stream that they are about.
use native.Mathlib.Nat.{mod-lt}
use oven_web_rtctester.Prelude.{
  ℕ, zero, suc, ◌%◌, ◌≤◌, ◌<◌, ◌≡◌, ◌≢◌, refl, ap, ◌∙◌, inl, inr, ◌&&◌, Option, none, some, List,
  [], ◌∷◌, ltb, leb, ==_iff, ==_refl, ◌==◌, if◌then◌else◌, Bool-cases, length, get_or, arith,
}
use oven_web_rtctester.Prelude.Int.{pos, pos_part, minus_one}
use oven_web_rtctester.Prelude.Map.{lookup, lookup-insert}
use oven_web_rtctester.StreamManager.{Streams, StreamInfo, new_stream, create_stream}
use oven_web_rtctester.MainObject.{
  CreateParam, MainObject, update_at, get_stream_manager, with_manager, create_one, is_full,
  create_loop, start_loop, start_time_proc, stream_create_time_proc,
}

module _ {ℓ} {A : Type ℓ} where
  pub length-update_at : (i : ℕ) (f : A → A) (xs : List A) → length (update_at i f xs) ≡ length xs
  length-update_at i f [] = refl
  length-update_at zero f (x ∷ xs) = refl
  length-update_at (suc i) f (x ∷ xs) = omega (arith, length-update_at i f xs)

  pub get-update_at :
      (i j : ℕ) (f : A → A) (xs : List A) (d : A)
      → i < length xs
      → get_or (update_at i f xs) j d ≡ (if i == j then f (get_or xs j d) else get_or xs j d)
  get-update_at i j f [] d h = absurd (omega arith)
  get-update_at zero zero f (x ∷ xs) d h = refl
  get-update_at zero (suc j) f (x ∷ xs) d h = ground arith
  get-update_at (suc i) zero f (x ∷ xs) d h = ground arith
  get-update_at (suc i) (suc j) f (x ∷ xs) d h = ground (arith, get-update_at i j f xs d)

-- `FindStream` of the manager that a key belongs to
abbrev pub stream_of : ℕ → MainObject → Option StreamInfo
stream_of key main = lookup (pos key) (get_stream_manager (pos key) main)

-- The managers are there.
abbrev pub HasManagers : MainObject → Type 0
HasManagers main = 0 < length main.stream_managers

-- No stream has a key that is not given out yet.
abbrev pub Fresh : MainObject → Type 0
Fresh main = (k : ℕ) → main.stream_index_key ≤ k → stream_of k main ≡ none

manager-with_manager :
    (k key : ℕ) (f : Streams → Streams) (main : MainObject)
    → HasManagers main
    → get_stream_manager (pos k) (with_manager (pos key) f main) ≡ (
        if key % length main.stream_managers == k % length main.stream_managers
        then f (get_stream_manager (pos k) main)
        else get_stream_manager (pos k) main)
manager-with_manager k key f main there =
    let ms = main.stream_managers in
    let size = length ms in
    rw (length-update_at (key % size) f ms)
      (get-update_at (key % size) (k % size) f ms [] (mod-lt key there))

-- A write to the manager of a key that leaves its other entries is a write to the stream of the key.
stream_of-with_manager :
    (k key : ℕ) (f : Streams → Streams) (main : MainObject)
    → HasManagers main
    → ((j : ℕ) (m : Streams) → j ≢ key → lookup (pos j) (f m) ≡ lookup (pos j) m)
    → stream_of k (with_manager (pos key) f main) ≡ (
        if key == k
        then lookup (pos key) (f (get_stream_manager (pos key) main))
        else stream_of k main)
stream_of-with_manager k key f main there local =
    let size = length main.stream_managers in
    ap (λ m. lookup (pos k) m) (manager-with_manager k key f main there)
    ∙ elim (Bool-cases (key == k)) [
      | inl same ↦
          let e : key ≡ k = (==_iff key k).0 same in rw (e, ==_refl (k % size), ==_refl k) refl
      | inr other ↦
          let ne : k ≢ key = ground (arith, other) in
          rw other (elim (Bool-cases (key % size == k % size)) [
            | inl near ↦ rw near (local k (get_stream_manager (pos k) main) ne)
            | inr far ↦ rw far refl
          ])
    ]

pub create-local :
    (key j now : ℕ) (m : Streams)
    → j ≢ key
    → lookup (pos j) (create_stream (pos key) minus_one now m).0 ≡ lookup (pos j) m
unfolding create_stream
create-local key j now m ne =
    ground (arith, ne, lookup-insert (pos key) (pos j) (new_stream minus_one now) m)

create_fresh :
    (key now : ℕ) (m : Streams)
    → lookup (pos key) m ≡ none
    → lookup (pos key) (create_stream (pos key) minus_one now m).0 ≡ some (new_stream minus_one now)
unfolding create_stream
create_fresh key now m free =
    ground (arith, free, lookup-insert (pos key) (pos key) (new_stream minus_one now) m)

stream_of-create_one :
    (param : CreateParam) (now k : ℕ) (main : MainObject)
    → HasManagers main
    → Fresh main
    → stream_of k (create_one param now main).0
      ≡ (if main.stream_index_key == k then some (new_stream minus_one now) else stream_of k main)
stream_of-create_one param now k main there fresh =
    let key = main.stream_index_key in
    let main' = record main { stream_index_key = suc key } in
    stream_of-with_manager k key (λ m. (create_stream (pos key) minus_one now m).0) main' there
      (λ j m ne. create-local key j now m ne)
    ∙ rw (create_fresh key now (get_stream_manager (pos key) main) (fresh key (omega arith))) refl

-- Every key that was given out meanwhile has a new stream, and the stream of any other is as before.
pub record Made (now : ℕ) (main main' : MainObject) : Type 0 where
  pub managers : HasManagers main'
  pub forward : main.stream_index_key ≤ main'.stream_index_key
  pub streams :
      (k : ℕ)
      → stream_of k main' ≡ (
          if leb main.stream_index_key k && ltb k main'.stream_index_key
          then some (new_stream minus_one now)
          else stream_of k main)

Made-Fresh : (now : ℕ) (main main' : MainObject) → Fresh main → Made now main main' → Fresh main'
Made-Fresh now main main' fresh made k le =
    ground (arith, le, made.forward, made.streams k, fresh k)

Made-none : (now : ℕ) (main : MainObject) → HasManagers main → Made now main main
Made-none now main there = record {
  managers = there;
  forward = omega arith;
  streams = λ k. ground arith;
}

create_one-Made :
    (param : CreateParam) (now : ℕ) (main : MainObject)
    → HasManagers main
    → Fresh main
    → Made now main (create_one param now main).0
create_one-Made param now main there fresh = record {
  managers = omega (
    arith,
    length-update_at (main.stream_index_key % length main.stream_managers)
        (λ m. (create_stream (pos main.stream_index_key) minus_one now m).0) main.stream_managers,
  );
  forward = omega arith;
  streams = λ k. ground (arith, stream_of-create_one param now k main there fresh);
}

Made-trans : (now : ℕ) (a b c : MainObject) → Made now a b → Made now b c → Made now a c
Made-trans now a b c first second = record {
  managers = second.managers;
  forward = omega (arith, first.forward, second.forward);
  streams = λ k. ground (arith, first.forward, second.forward, first.streams k, second.streams k);
}

create_loop-Made :
    (param : CreateParam) (now count : ℕ) (main : MainObject)
    → HasManagers main
    → Fresh main
    → Made now main (create_loop param now count main).0
unfolding create_loop
create_loop-Made param now zero main there fresh = Made-none now main there
create_loop-Made param now (suc count) main there fresh =
    let main' = (create_one param now main).0 in
    let one = create_one-Made param now main there fresh in
    elim (Bool-cases (is_full param main')) [
      | inl full ↦ rw full one
      | inr room ↦ rw room (
          Made-trans now main main' _ one (
            create_loop-Made param now count main' one.managers
              (Made-Fresh now main main' fresh one)))
    ]

start_loop-Made :
    (param : CreateParam) (now count : ℕ) (main : MainObject)
    → HasManagers main
    → Fresh main
    → Made now main (start_loop param now count main).0
unfolding start_loop
start_loop-Made param now zero main there fresh = Made-none now main there
start_loop-Made param now (suc count) main there fresh =
    let main' = (create_one param now main).0 in
    let one = create_one-Made param now main there fresh in
    Made-trans now main main' _ one
      (start_loop-Made param now count main' one.managers (Made-Fresh now main main' fresh one))

-- When no stream has a key that is not given out yet, a tick of the creation timer gives every key
-- that it hands out a new stream, changes no other stream, and leaves no stream with a later key.
pub stream_create_time_proc-Made :
    (param : CreateParam) (now : ℕ) (main : MainObject)
    → HasManagers main
    → Fresh main
    → Made now main (stream_create_time_proc param now main).0
      × Fresh (stream_create_time_proc param now main).0
unfolding stream_create_time_proc
stream_create_time_proc-Made param now main there fresh =
    let made : Made now main (stream_create_time_proc param now main).0 =
      elim (Bool-cases (is_full param main)) [
        | inl full ↦ rw full (Made-none now main there)
        | inr room ↦
            rw room
              (create_loop-Made param now (pos_part param.streaming_create_count) main there fresh)
      ] in
    (made, Made-Fresh now main _ fresh made)

-- The same holds for the first timer.
pub start_time_proc-Made :
    (param : CreateParam) (now : ℕ) (main : MainObject)
    → HasManagers main
    → Fresh main
    → Made now main (start_time_proc param now main).0 × Fresh (start_time_proc param now main).0
unfolding start_time_proc
start_time_proc-Made param now main there fresh =
    let made = start_loop-Made param now (pos_part param.streaming_start_count) main there fresh in
    (made, Made-Fresh now main _ fresh made)
