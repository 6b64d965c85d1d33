-- ===== src/StreamManager/Garbage.antt =====
-- What `GarbageCheck` keeps, counts and closes.
use mathlib.Core.Path.{subst}
use oven_web_rtctester.Prelude.{
  ℕ, ◌+◌, ◌-◌, ◌^◌, ◌≤◌, ◌<◌, ◌≡◌, ◌↔◌, ◌⊎◌, inl, inr, refl, false, not, Option, none, some, List,
  [], ◌∷◌, ◌++◌, map, if◌then◌else◌, length, arith, Bool-cases,
}
use oven_web_rtctester.Prelude.Int.{ℤ, pos, eqb_ℤ_iff}
use oven_web_rtctester.Prelude.Map.{lookup, IsMap, keep_if, kept, lookup-erase, lookup-keep_if}
use oven_web_rtctester.StreamManager.{
  streaming, create_time_gap, no_error, StreamInfo, NetworkCall, remove_signalling_servers,
  remove_ome_streams, Streams, is_garbage, sweep, garbage_check, remove, call_unless_empty,
  get_stream_count,
}

-- No error, and streaming or at most 30 seconds old.
abbrev pub IsLive : ℕ → StreamInfo → Type 0
IsLive now info =
    (info.error ≡ no_error) × ((info.status ≡ streaming) ⊎ (now ≤ info.create_time + 30))

-- The clock has not gone back since the stream was made, and the `int` gap does not wrap.
abbrev pub InTime : ℕ → StreamInfo → Type 0
InTime now info = (info.create_time ≤ now) × (now < info.create_time + 2 ^ 31)

gap-InTime :
    (now : ℕ) (info : StreamInfo)
    → InTime now info
    → create_time_gap now info ≡ pos (now - info.create_time)
gap-InTime now info t = ground arith

is_garbage_iff :
    (now : ℕ) (info : StreamInfo)
    → InTime now info
    → (is_garbage now info ≡ false) ↔ IsLive now info
unfolding is_garbage
is_garbage_iff now info t =
    (λ h. ground (arith, gap-InTime now info t), λ h. ground (arith, gap-InTime now info t))

pub streams-sweep :
    (now : ℕ) (streams : Streams)
    → (sweep now streams).streams ≡ keep_if (λ info. not (is_garbage now info)) streams
unfolding sweep keep_if
streams-sweep now [] = refl
streams-sweep now ((key, info) ∷ streams) = ground (arith, streams-sweep now streams)

kept_iff :
    (now : ℕ) (info : StreamInfo)
    → InTime now info
    → (o : Option StreamInfo)
    → (kept (λ i. not (is_garbage now i)) o ≡ some info) ↔ ((o ≡ some info) × IsLive now info)
kept_iff now info t none = (λ h. cc, λ h. cc)
kept_iff now info t (some v) = elim (Bool-cases (is_garbage now v)) [
  | inl stale ↦ rw stale (λ h. cc, λ h. ground (arith, (is_garbage_iff now info t).1 h.1))
  | inr fresh ↦ rw fresh (
    λ h.
        let same : v ≡ info = cc in
        (h, (is_garbage_iff now info t).0 (subst (λ i. is_garbage now i ≡ false) same fresh)),
    λ h. h.0,
  )
]

-- On a well-formed map, and for a stream that was made less than 2^31 seconds ago and not in the
-- future, `GarbageCheck` keeps the stream exactly when it is live, and changes nothing else of the map: what
-- stays has its old value, and what was not there is not there.
pub lookup-garbage_check :
    (now : ℕ) (streams : Streams) (key : ℤ) (info : StreamInfo)
    → IsMap streams
    → InTime now info
    → (lookup key (garbage_check now streams).0 ≡ some info)
      ↔ ((lookup key streams ≡ some info) × IsLive now info)
unfolding garbage_check
lookup-garbage_check now streams key info m t =
    rw (streams-sweep, lookup-keep_if (λ i. not (is_garbage now i)) key streams m)
      (kept_iff now info t (lookup key streams))

length-sweep :
    (now : ℕ) (streams : Streams)
    → length (sweep now streams).streams + (sweep now streams).remove_count ≡ length streams
unfolding sweep
length-sweep now [] = refl
length-sweep now ((key, info) ∷ streams) = ground (arith, length-sweep now streams)

-- The entries that are not live, in the order of the map.
abbrev pub dead : ℕ → Streams → List StreamInfo
dead now [] = []
dead now ((key, info) ∷ streams) =
    if is_garbage now info then info ∷ dead now streams else dead now streams

sweep_keys :
    (now : ℕ) (streams : Streams)
    → ((sweep now streams).signalling_server_keys
        ≡ map (λ i. i.signalling_server_key) (dead now streams))
      × ((sweep now streams).ome_stream_keys ≡ map (λ i. i.ome_stream_key) (dead now streams))
      × ((sweep now streams).remove_count ≡ length (dead now streams))
unfolding sweep
sweep_keys now [] = (refl, refl, refl)
sweep_keys now ((key, info) ∷ streams) = ground (arith, sweep_keys now streams)

-- One request to each network manager, with the keys of all streams that go.
abbrev pub closing : List StreamInfo → List NetworkCall
closing [] = []
closing (i ∷ is) =
    remove_signalling_servers (map (λ i. i.signalling_server_key) (i ∷ is))
    ∷ remove_ome_streams (map (λ i. i.ome_stream_key) (i ∷ is))
    ∷ []

calls_closing :
    (is : List StreamInfo)
    → call_unless_empty remove_signalling_servers (map (λ i. i.signalling_server_key) is)
        ++ call_unless_empty remove_ome_streams (map (λ i. i.ome_stream_key) is)
      ≡ closing is
calls_closing [] = refl
calls_closing (i ∷ is) = refl

-- The streams that `GarbageCheck` erases are closed, in the order of their keys, by one request to
-- each network manager if there is one at all; the result is their number, and together with the
-- streams that stay they make up the map.
pub garbage_check_closes :
    (now : ℕ) (streams : Streams)
    → ((garbage_check now streams).1 ≡ closing (dead now streams))
      × ((garbage_check now streams).2 ≡ length (dead now streams))
      × (get_stream_count (garbage_check now streams).0 + (garbage_check now streams).2
          ≡ get_stream_count streams)
unfolding garbage_check
garbage_check_closes now streams =
    let (signalling, ome, count) = sweep_keys now streams in
    (rw (signalling, ome) (calls_closing (dead now streams)), count, length-sweep now streams)

-- `Remove` asks for no network object to be closed, whether the stream is there or not.
pub remove_closes_nothing :
    (key : ℤ) (streams : Streams)
    → ((remove key streams).1 ≡ []) × (IsMap streams → lookup key (remove key streams).0 ≡ none)
unfolding remove
remove_closes_nothing key streams =
    (ground arith, λ m. ground (arith, lookup-erase key key streams m, eqb_ℤ_iff key key))
