-- ===== src/MainObject/Invariant.antt =====
-- The invariant of the managers, and the methods that keep it.
use native.Mathlib.Nat.{mod-lt}
use oven_web_rtctester.Prelude.{
  ℕ, zero, suc, ◌-◌, ◌%◌, ◌^◌, ◌≤◌, ◌<◌, ◌≡◌, ◌∙◌, inl, inr, none, List, [], ◌==◌, if◌then◌else◌,
  Bool-cases, length, get_or, arith,
}
use oven_web_rtctester.Prelude.Int.{ℤ, pos, negsuc, pos_part, minus_one}
use oven_web_rtctester.Prelude.Map.{lookup, update, IsMap, lookup-update, update-IsMap}
use oven_web_rtctester.StreamManager.{
  Streams, StreamInfo, StreamTrackInfo, StreamStatus, StreamError, create_stream, set_error,
  set_status, set_ome_stream_info,
}
use oven_web_rtctester.StreamManager.Errors.{create-IsMap}
use oven_web_rtctester.MainObject.{
  CreateParam, MainObject, manager_index, with_manager, create_one, is_full, create_loop,
  start_loop, stream_create_time_proc, fail_stream, mark_stream,
}
use oven_web_rtctester.MainObject.Lookup.{
  create-local, length-update_at, get-update_at, HasManagers,
}

abbrev pub manager : ℕ → MainObject → Streams
manager i main = get_or main.stream_managers i []

-- Each manager holds a map, and none a key that is not given out yet.
pub record Good (main : MainObject) : Type 0 where
  pub managers : HasManagers main
  pub maps : (i : ℕ) → IsMap (manager i main)
  pub clean : (i k : ℕ) → main.stream_index_key ≤ k → lookup (pos k) (manager i main) ≡ none

pub manager_index-lt : (key : ℤ) (size : ℕ) → 0 < size → manager_index key size < size
manager_index-lt (pos key) size some_size = mod-lt key some_size
manager_index-lt (negsuc key) size some_size = mod-lt (2 ^ 64 - 1 - key) some_size

pub manager-with_manager :
    (i : ℕ) (key : ℤ) (f : Streams → Streams) (main : MainObject)
    → HasManagers main
    → manager i (with_manager key f main) ≡ (
        if manager_index key (length main.stream_managers) == i
        then f (manager i main)
        else manager i main)
manager-with_manager i key f main there =
    let size = length main.stream_managers in
    get-update_at (manager_index key size) i f main.stream_managers []
      (manager_index-lt key size there)

-- A call of a method that adds no key.
pub with_manager-Good :
    (key : ℤ) (f : Streams → Streams) (main : MainObject)
    → ((m : Streams) → IsMap m → IsMap (f m))
    → ((j : ℤ) (m : Streams) → lookup j m ≡ none → lookup j (f m) ≡ none)
    → Good main
    → Good (with_manager key f main)
with_manager-Good key f main keeps_map adds_none good =
    let size = length main.stream_managers in
    record {
      managers =
          omega (
            arith,
            good.managers,
            length-update_at (manager_index key size) f main.stream_managers,
          );
      maps = λ i.
          rw (manager-with_manager i key f main good.managers)
            (elim (Bool-cases (manager_index key size == i)) [
              | inl at ↦ rw at (keeps_map (manager i main) (good.maps i))
              | inr off ↦ rw off (good.maps i)
            ]);
      clean = λ i k le.
          rw (manager-with_manager i key f main good.managers)
            (elim (Bool-cases (manager_index key size == i)) [
              | inl at ↦ rw at (adds_none (pos k) (manager i main) (good.clean i k le))
              | inr off ↦ rw off (good.clean i k le)
            ]);
    }

update-none :
    (key j : ℤ) (f : StreamInfo → StreamInfo) (m : Streams)
    → lookup j m ≡ none
    → lookup j (update key f m) ≡ none
update-none key j f m free = ground (arith, free, lookup-update key j f m)

pub fail_stream-Good :
    (key : ℤ) (error : StreamError) (main : MainObject)
    → Good main
    → Good (fail_stream key error main)
unfolding set_error
fail_stream-Good key error main good =
    with_manager-Good key _ main (λ m h. update-IsMap key _ m h) (λ j m h. update-none key j _ m h)
      good

pub mark_stream-Good :
    (key : ℤ) (status : StreamStatus) (main : MainObject)
    → Good main
    → Good (mark_stream key status main)
unfolding set_status
mark_stream-Good key status main good =
    with_manager-Good key _ main (λ m h. update-IsMap key _ m h) (λ j m h. update-none key j _ m h)
      good

pub ome_info-Good :
    (key ome : ℤ) (tracks : List StreamTrackInfo) (main : MainObject)
    → Good main
    → Good (with_manager key (λ m. (set_ome_stream_info key ome tracks m).0) main)
unfolding set_ome_stream_info
ome_info-Good key ome tracks main good =
    with_manager-Good key _ main (λ m h. update-IsMap key _ m h) (λ j m h. update-none key j _ m h)
      good

create_one-Good :
    (param : CreateParam) (now : ℕ) (main : MainObject)
    → Good main
    → Good (create_one param now main).0
create_one-Good param now main good =
    let key = main.stream_index_key in
    let size = length main.stream_managers in
    let creates_key = λ (m : Streams). (create_stream (pos key) minus_one now m).0 in
    record {
      managers =
          omega
            (arith, good.managers, length-update_at (key % size) creates_key main.stream_managers);
      maps = λ i.
          rw (manager-with_manager i (pos key) creates_key main good.managers)
            (elim (Bool-cases (key % size == i)) [
              | inl at ↦ rw at (create-IsMap (pos key) minus_one now (manager i main) (good.maps i))
              | inr off ↦ rw off (good.maps i)
            ]);
      clean = λ i k le.
          rw (manager-with_manager i (pos key) creates_key main good.managers)
            (elim (Bool-cases (key % size == i)) [
              | inl at ↦ rw at (
                  create-local key k now (manager i main) (omega arith)
                  ∙ good.clean i k (omega arith))
              | inr off ↦ rw off (good.clean i k (omega arith))
            ]);
    }

pub create_loop-Good :
    (param : CreateParam) (now count : ℕ) (main : MainObject)
    → Good main
    → Good (create_loop param now count main).0
unfolding create_loop
create_loop-Good param now zero main good = good
create_loop-Good param now (suc count) main good =
    let main' = (create_one param now main).0 in
    let one = create_one-Good param now main good in
    elim (Bool-cases (is_full param main')) [
      | inl full ↦ rw full one
      | inr room ↦ rw room (create_loop-Good param now count main' one)
    ]

pub start_loop-Good :
    (param : CreateParam) (now count : ℕ) (main : MainObject)
    → Good main
    → Good (start_loop param now count main).0
unfolding start_loop
start_loop-Good param now zero main good = good
start_loop-Good param now (suc count) main good =
    start_loop-Good param now count (create_one param now main).0
      (create_one-Good param now main good)

pub create_time-Good :
    (param : CreateParam) (now : ℕ) (main : MainObject)
    → Good main
    → Good (stream_create_time_proc param now main).0
unfolding stream_create_time_proc
create_time-Good param now main good = elim (Bool-cases (is_full param main)) [
  | inl full ↦ rw full good
  | inr room ↦
      rw room (create_loop-Good param now (pos_part param.streaming_create_count) main good)
]
