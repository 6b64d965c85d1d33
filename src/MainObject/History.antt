-- ===== src/MainObject/History.antt =====
-- What holds of the streams after any history.
use native.Mathlib.Nat.{mod-lt}
use oven_web_rtctester.Prelude.{
  ℕ, ◌%◌, ◌≡◌, refl, not, Option, none, some, List, [], ==_refl, length,
}
use oven_web_rtctester.Prelude.Int.{ℤ, pos}
use oven_web_rtctester.Prelude.Map.{
  lookup, kept, on_some, keep_if, IsMap, lookup-update, lookup-keep_if, update-IsMap,
}
use oven_web_rtctester.StreamManager.{
  Streams, StreamInfo, write_error, is_garbage, set_error, signalling_connection_close,
}
use oven_web_rtctester.MainObject.{
  CreateParam, signalling_server_object, new_main, stream_create_time_proc, garbage_check_time_proc,
  on_network_close, update_at,
}
use oven_web_rtctester.MainObject.Lookup.{
  stream_of, length-update_at, get-update_at, Fresh, Made, stream_create_time_proc-Made,
}
use oven_web_rtctester.MainObject.Invariant.{manager}
use oven_web_rtctester.MainObject.Reach.{
  Call, checks, closes, handle, run, run-Good, new_main-Good, Good-Fresh, get-check_managers,
  length-check_managers,
}
use oven_web_rtctester.StreamManager.Errors.{failed_is_garbage}

-- After any history of timers and callbacks, no key that is still to be given out has a stream, and
-- the next tick of the creation timer gives every key that it hands out a new stream and changes no
-- other.
pub run-Made :
    (param : CreateParam) (cs : List Call) (now : ℕ)
    → let main = run param cs new_main in
      Fresh main × Made now main (stream_create_time_proc param now main).0
run-Made param cs now =
    let main = run param cs new_main in
    let good = run-Good param cs new_main new_main-Good in
    let fresh = Good-Fresh main good in
    (fresh, (stream_create_time_proc-Made param now main good.managers fresh).0)

kept_failed :
    (now : ℕ) (o : Option StreamInfo)
    → kept (λ info. not (is_garbage now info)) (on_some (write_error signalling_connection_close) o)
      ≡ none
kept_failed now none = refl
kept_failed now (some v) = rw (failed_is_garbage now signalling_connection_close v (λ e. cc)) refl

failed_erased :
    (k now : ℕ) (m : Streams)
    → IsMap m
    → lookup (pos k) (
        keep_if
          (λ info. not (is_garbage now info))
          (set_error (pos k) signalling_connection_close m).0)
      ≡ none
unfolding set_error
failed_erased k now m h =
    let f = write_error signalling_connection_close in
    rw
      (
        lookup-keep_if (λ info. not (is_garbage now info)) (pos k) _ (update-IsMap (pos k) f m h),
        lookup-update (pos k) (pos k) f m,
        ==_refl k,
      )
      (kept_failed now (lookup (pos k) m))

-- When the signalling connection of a stream closes, the next garbage check erases the stream, after
-- any history and whatever the state of the stream is.
pub close-erases :
    (param : CreateParam) (cs : List Call) (k now : ℕ) (index_key : ℤ)
    → stream_of k (
        handle param (checks now) (
          handle param (closes signalling_server_object index_key (pos k)) (run param cs new_main)))
      ≡ none
unfolding handle on_network_close garbage_check_time_proc
close-erases param cs k now index_key =
    let main = run param cs new_main in
    let good = run-Good param cs new_main new_main-Good in
    let size = length main.stream_managers in
    let i = k % size in
    let fails = λ (m : Streams). (set_error (pos k) signalling_connection_close m).0 in
    let live = λ (info : StreamInfo). not (is_garbage now info) in
    rw (
      length-check_managers now (update_at i fails main.stream_managers),
      length-update_at i fails main.stream_managers,
      get-check_managers now i (update_at i fails main.stream_managers),
      get-update_at i i fails main.stream_managers [] (mod-lt k good.managers),
      ==_refl i,
      failed_erased k now (manager i main) (good.maps i),
    )
