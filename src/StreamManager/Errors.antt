-- ===== src/StreamManager/Errors.antt =====
-- Histories of calls: the map stays well formed, and the first error of a stream stays.
use oven_web_rtctester.Prelude.{
  ℕ, ◌≡◌, ◌≢◌, inl, inr, refl, sym, ◌∙◌, true, not, none, some, List, [], ◌∷◌, arith, Bool-cases,
  Option-cases,
}
use oven_web_rtctester.Prelude.Int.{ℤ, eqb_ℤ, eqb_ℤ_iff}
use oven_web_rtctester.Prelude.Map.{
  lookup, update, IsMap, lookup-insert, lookup-update, insert-IsMap, update-IsMap, erase-IsMap,
  keep_if-IsMap, lookup-keep_if,
}
use oven_web_rtctester.StreamManager.{
  is_none, StreamTrackInfo, StreamStatus, StreamError, no_error, StreamInfo, Streams, new_stream,
  is_garbage, write_error, create_stream, remove, set_error, set_status, set_signalling_server_info,
  set_ome_stream_info, garbage_check,
}
use oven_web_rtctester.StreamManager.Garbage.{streams-sweep}

-- The calls of the public interface that change the map, with the time where it is read.
pub data Call : Type 0 where
  creates : ℤ → ℤ → ℕ → Call
  removes : ℤ → Call
  sets_error : ℤ → StreamError → Call
  sets_status : ℤ → StreamStatus → Call
  sets_signalling_server : ℤ → ℤ → Call
  sets_ome_stream : ℤ → ℤ → List StreamTrackInfo → Call
  checks_garbage : ℕ → Call

pub step : Call → Streams → Streams
step (creates key signalling now) m = (create_stream key signalling now m).0
step (removes key) m = (remove key m).0
step (sets_error key error) m = (set_error key error m).0
step (sets_status key status) m = (set_status key status m).0
step (sets_signalling_server key signalling) m = (set_signalling_server_info key signalling m).0
step (sets_ome_stream key ome tracks) m = (set_ome_stream_info key ome tracks m).0
step (checks_garbage now) m = (garbage_check now m).0

pub run : List Call → Streams → Streams
run [] m = m
run (c ∷ cs) m = run cs (step c m)

pub create-IsMap :
    (key signalling : ℤ) (now : ℕ) (m : Streams)
    → IsMap m
    → IsMap (create_stream key signalling now m).0
unfolding create_stream
create-IsMap key signalling now m h = elim (Option-cases (lookup key m)) [
  | inl e ↦ rw e (insert-IsMap key (new_stream signalling now) m h)
  | inr (v, e) ↦ rw e h
]

remove-IsMap : (key : ℤ) (m : Streams) → IsMap m → IsMap (remove key m).0
unfolding remove
remove-IsMap key m h = ground (arith, erase-IsMap key m h)

-- Every call keeps the keys distinct and in order.
step-IsMap : (c : Call) (m : Streams) → IsMap m → IsMap (step c m)
unfolding step set_error set_status set_signalling_server_info set_ome_stream_info garbage_check
step-IsMap (creates key signalling now) m h = create-IsMap key signalling now m h
step-IsMap (removes key) m h = remove-IsMap key m h
step-IsMap (sets_error key error) m h = update-IsMap key _ m h
step-IsMap (sets_status key status) m h = update-IsMap key _ m h
step-IsMap (sets_signalling_server key signalling) m h = update-IsMap key _ m h
step-IsMap (sets_ome_stream key ome tracks) m h = update-IsMap key _ m h
step-IsMap (checks_garbage now) m h =
    rw (streams-sweep now m) (keep_if-IsMap (λ i. not (is_garbage now i)) m h)

-- After any history the map is well formed.
pub run-IsMap : (cs : List Call) (m : Streams) → IsMap m → IsMap (run cs m)
unfolding run
run-IsMap [] m h = h
run-IsMap (c ∷ cs) m h = run-IsMap cs (step c m) (step-IsMap c m h)

-- The calls that erase nothing.
abbrev pub IsWrite : Call → Type 0
IsWrite (removes key) = ⊥
IsWrite (checks_garbage now) = ⊥
IsWrite _ = Unit

abbrev pub AllWrites : List Call → Type 0
AllWrites [] = Unit
AllWrites (c ∷ cs) = IsWrite c × AllWrites cs

-- The stream of a key is there, with an error.
abbrev pub Fails : ℤ → StreamError → Streams → Type 0
Fails key error m = (v : StreamInfo) × (lookup key m ≡ some v) × (v.error ≡ error)

update-Fails :
    (key k : ℤ) (error : StreamError) (f : StreamInfo → StreamInfo) (m : Streams)
    → ((v : StreamInfo) → v.error ≡ error → (f v).error ≡ error)
    → Fails key error m
    → Fails key error (update k f m)
update-Fails key k error f m keeps (v, at_key, is) = elim (Bool-cases (eqb_ℤ k key)) [
  | inl same ↦ (f v, rw (lookup-update k key f m, same, at_key), keeps v is)
  | inr other ↦ (v, rw (lookup-update k key f m, other) at_key, is)
]

write_error_keeps :
    (error e : StreamError) (v : StreamInfo)
    → error ≢ no_error
    → v.error ≡ error
    → (write_error e v).error ≡ error
unfolding is_none
write_error_keeps error e v ne is = ground arith

writes_first :
    (error : StreamError) (v : StreamInfo)
    → v.error ≡ no_error
    → (write_error error v).error ≡ error
unfolding is_none
writes_first error v clean = ground arith

create-Fails :
    (key k signalling : ℤ) (now : ℕ) (error : StreamError) (m : Streams)
    → Fails key error m
    → Fails key error (create_stream k signalling now m).0
unfolding create_stream
create-Fails key k signalling now error m (v, at_key, is) =
    (v, ground (arith, lookup-insert k key (new_stream signalling now) m, eqb_ℤ_iff k key), is)

step-Fails :
    (c : Call) (key : ℤ) (error : StreamError) (m : Streams)
    → error ≢ no_error
    → IsWrite c
    → Fails key error m
    → Fails key error (step c m)
unfolding step set_error set_status set_signalling_server_info set_ome_stream_info
step-Fails (creates k signalling now) key error m ne w f =
    create-Fails key k signalling now error m f
step-Fails (removes k) key error m ne w f = absurd w
step-Fails (sets_error k e) key error m ne w f =
    update-Fails key k error _ m (λ v is. write_error_keeps error e v ne is) f
step-Fails (sets_status k status) key error m ne w f = update-Fails key k error _ m (λ v is. is) f
step-Fails (sets_signalling_server k signalling) key error m ne w f =
    update-Fails key k error _ m (λ v is. is) f
step-Fails (sets_ome_stream k ome tracks) key error m ne w f =
    update-Fails key k error _ m (λ v is. is) f
step-Fails (checks_garbage now) key error m ne w f = absurd w

run-Fails :
    (cs : List Call) (key : ℤ) (error : StreamError) (m : Streams)
    → error ≢ no_error
    → AllWrites cs
    → Fails key error m
    → Fails key error (run cs m)
unfolding run
run-Fails [] key error m ne w f = f
run-Fails (c ∷ cs) key error m ne w f =
    run-Fails cs key error (step c m) ne w.1 (step-Fails c key error m ne w.0 f)

garbage_of_error : (now : ℕ) (v : StreamInfo) → v.error ≢ no_error → is_garbage now v ≡ true
unfolding is_garbage
garbage_of_error now v ne = ground arith

pub failed_is_garbage :
    (now : ℕ) (error : StreamError) (v : StreamInfo)
    → error ≢ no_error
    → is_garbage now (write_error error v) ≡ true
unfolding is_garbage is_none
failed_is_garbage now error v ne = ground (arith, ne)

pub erased :
    (key : ℤ) (error : StreamError) (m : Streams) (now : ℕ)
    → error ≢ no_error
    → IsMap m
    → Fails key error m
    → lookup key (garbage_check now m).0 ≡ none
unfolding garbage_check
erased key error m now ne mm (v, at_key, is) = rw (
  streams-sweep now m,
  lookup-keep_if (λ i. not (is_garbage now i)) key m mm,
  at_key,
  garbage_of_error now v (λ e. ne (sym is ∙ e)),
)

-- On a well-formed map, the first error that is set on a stream without one stays through any later calls that erase
-- nothing, other errors included; then the next garbage check erases the stream.
pub first_error_stays :
    (key : ℤ) (error : StreamError) (m : Streams) (v : StreamInfo) (cs : List Call) (now : ℕ)
    → IsMap m
    → lookup key m ≡ some v
    → v.error ≡ no_error
    → error ≢ no_error
    → AllWrites cs
    → Fails key error (run (sets_error key error ∷ cs) m)
      × (lookup key (garbage_check now (run (sets_error key error ∷ cs) m)).0 ≡ none)
unfolding run step set_error
first_error_stays key error m v cs now mm at_key clean ne w =
    let m' = (set_error key error m).0 in
    let set : Fails key error m' = (
      write_error error v,
      rw (lookup-update key key (write_error error) m, (eqb_ℤ_iff key key).1 refl, at_key),
      writes_first error v clean,
    ) in
    let still = run-Fails cs key error m' ne w set in
    (still, erased key error (run cs m') now ne (run-IsMap cs m' (update-IsMap key _ m mm)) still)
