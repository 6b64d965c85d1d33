-- ===== src/MainObject/Reach.antt =====
-- Histories of timers and callbacks, from the empty managers on, and the invariant along them.
use oven_web_rtctester.Prelude.{
  ℕ, zero, suc, ◌≡◌, refl, inl, inr, Bool, true, false, not, Option, none, some, List, [], ◌∷◌,
  Bool-cases, length, get_or, arith,
}
use oven_web_rtctester.Prelude.Int.{ℤ, pos, pos_part, minus_one, eqb_ℤ}
use oven_web_rtctester.Prelude.Map.{lookup, keep_if, lookup-keep_if, keep_if-IsMap}
use oven_web_rtctester.StreamManager.{
  Streams, StreamInfo, StreamTrackInfo, is_garbage, set_ome_stream_info, garbage_check,
  signalling_connection_close, signalling_server, signalling_complete, signalling_json_data_fail,
  stun_complete, dtls_complete, streaming,
}
use oven_web_rtctester.StreamManager.Garbage.{streams-sweep}
use oven_web_rtctester.MainObject.{
  CreateParam, MainObject, NetworkObjectKey, signalling_server_object,
  wowza_signalling_server_object, ome_stream_object, test_udp_server_object, create_managers,
  new_main, get_stream_manager, with_manager, start_time_proc, stream_create_time_proc,
  check_managers, garbage_check_time_proc, on_network_close, signalling_server_connected_proc,
  on_json_data_fail, on_handshake_complete, on_stun_complete, on_dtls_complete, on_streaming_start,
}
use oven_web_rtctester.MainObject.Lookup.{Fresh}
use oven_web_rtctester.MainObject.Invariant.{
  manager, Good, fail_stream-Good, mark_stream-Good, ome_info-Good, start_loop-Good,
  create_time-Good,
}

-- What the timers and the connections call, with what the other parts answer.
pub data Call : Type 0 where
  starts creates checks : ℕ → Call
  closes : NetworkObjectKey → ℤ → ℤ → Call
  connects_server : Bool → Bool → Bool → ℤ → Call
  fails_json stuns completes_dtls streams : ℤ → Call
  shakes_hands : Option ℤ → ℤ → List StreamTrackInfo → Call

unfoldable pub handle : CreateParam → Call → MainObject → MainObject
handle param (starts now) main = (start_time_proc param now main).0
handle param (creates now) main = (stream_create_time_proc param now main).0
handle param (checks now) main = (garbage_check_time_proc now main).0
handle param (closes object_key index_key known_key) main =
    (on_network_close object_key index_key known_key main).0
handle param (connects_server connected added sent key) main =
    (signalling_server_connected_proc connected added sent key main).0
handle param (fails_json key) main = (on_json_data_fail key main).0
handle param (stuns key) main = (on_stun_complete key main).0
handle param (completes_dtls key) main = (on_dtls_complete key main).0
handle param (streams key) main = (on_streaming_start key main).0
handle param (shakes_hands added key tracks) main = (on_handshake_complete added key tracks main).0

unfoldable pub run : CreateParam → List Call → MainObject → MainObject
run param [] main = main
run param (c ∷ cs) main = run param cs (handle param c main)

pub length-check_managers :
    (now : ℕ) (ms : List Streams) → length (check_managers now ms).0 ≡ length ms
unfolding check_managers
length-check_managers now [] = refl
length-check_managers now (m ∷ ms) = omega (arith, length-check_managers now ms)

-- Each manager is checked by itself.
pub get-check_managers :
    (now i : ℕ) (ms : List Streams)
    → get_or (check_managers now ms).0 i []
      ≡ keep_if (λ info. not (is_garbage now info)) (get_or ms i [])
unfolding check_managers keep_if garbage_check
get-check_managers now i [] = refl
get-check_managers now zero (m ∷ ms) = streams-sweep now m
get-check_managers now (suc i) (m ∷ ms) = get-check_managers now i ms

check-Good : (now : ℕ) (main : MainObject) → Good main → Good (garbage_check_time_proc now main).0
unfolding garbage_check_time_proc
check-Good now main good =
    let live = λ (info : StreamInfo). not (is_garbage now info) in
    record {
      managers = omega (arith, good.managers, length-check_managers now main.stream_managers);
      maps = λ i.
          rw (get-check_managers now i main.stream_managers) (keep_if-IsMap live _ (good.maps i));
      clean = λ i k le. rw (
        get-check_managers now i main.stream_managers,
        lookup-keep_if live (pos k) (manager i main) (good.maps i),
        good.clean i k le,
      );
    }

close-Good :
    (object_key : NetworkObjectKey) (index_key known_key : ℤ) (main : MainObject)
    → Good main
    → Good (on_network_close object_key index_key known_key main).0
unfolding on_network_close
close-Good signalling_server_object index_key known_key main good =
    elim (Bool-cases (eqb_ℤ known_key minus_one)) [
      | inl unknown ↦ rw unknown good
      | inr known ↦ rw known (fail_stream-Good known_key signalling_connection_close main good)
    ]
close-Good wowza_signalling_server_object index_key known_key main good = good
close-Good ome_stream_object index_key known_key main good = good
close-Good test_udp_server_object index_key known_key main good = good

connect-Good :
    (connected added sent : Bool) (key : ℤ) (main : MainObject)
    → Good main
    → Good (signalling_server_connected_proc connected added sent key main).0
unfolding signalling_server_connected_proc
connect-Good true true true key main good = good
connect-Good true true false key main good = fail_stream-Good key signalling_server main good
connect-Good true false sent key main good = good
connect-Good false added sent key main good = good

handshake-Good :
    (added : Option ℤ) (key : ℤ) (tracks : List StreamTrackInfo) (main : MainObject)
    → Good main
    → Good (on_handshake_complete added key tracks main).0
unfolding on_handshake_complete
handshake-Good none key tracks main good = good
handshake-Good (some ome) key tracks main good =
    let main' = with_manager key (λ m. (set_ome_stream_info key ome tracks m).0) main in
    let good' = ome_info-Good key ome tracks main good in
    elim (Bool-cases (set_ome_stream_info key ome tracks (get_stream_manager key main)).1) [
      | inl there ↦ rw there (mark_stream-Good key signalling_complete main' good')
      | inr missing ↦ rw missing good'
    ]

handle-Good :
    (param : CreateParam) (c : Call) (main : MainObject) → Good main → Good (handle param c main)
unfolding handle start_time_proc on_json_data_fail on_stun_complete on_dtls_complete
    on_streaming_start
handle-Good param (starts now) main good =
    start_loop-Good param now (pos_part param.streaming_start_count) main good
handle-Good param (creates now) main good = create_time-Good param now main good
handle-Good param (checks now) main good = check-Good now main good
handle-Good param (closes object_key index_key known_key) main good =
    close-Good object_key index_key known_key main good
handle-Good param (connects_server connected added sent key) main good =
    connect-Good connected added sent key main good
handle-Good param (fails_json key) main good =
    fail_stream-Good key signalling_json_data_fail main good
handle-Good param (stuns key) main good = mark_stream-Good key stun_complete main good
handle-Good param (completes_dtls key) main good = mark_stream-Good key dtls_complete main good
handle-Good param (streams key) main good = mark_stream-Good key streaming main good
handle-Good param (shakes_hands added key tracks) main good =
    handshake-Good added key tracks main good

pub run-Good :
    (param : CreateParam) (cs : List Call) (main : MainObject)
    → Good main
    → Good (run param cs main)
unfolding run
run-Good param [] main good = good
run-Good param (c ∷ cs) main good =
    run-Good param cs (handle param c main) (handle-Good param c main good)

get-create_managers : (n i : ℕ) → get_or (create_managers n) i [] ≡ []
get-create_managers zero i = refl
get-create_managers (suc n) zero = refl
get-create_managers (suc n) (suc i) = get-create_managers n i

nothing : (k : ℕ) → lookup {V = StreamInfo} (pos k) [] ≡ none
unfolding lookup
nothing k = refl

pub new_main-Good : Good new_main
new_main-Good = record {
  managers = omega arith;
  maps = λ i. rw (get-create_managers 100 i) tt;
  clean = λ i k le. rw (get-create_managers 100 i) (nothing k);
}

pub Good-Fresh : (main : MainObject) → Good main → Fresh main
Good-Fresh main good k le = good.clean _ k le
