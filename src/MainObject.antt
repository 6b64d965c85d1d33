-- ===== src/MainObject.antt =====
-- srcs/main_object.h and srcs/main_object.cpp: the stream managers, the keys of new streams, the
-- timers and the callbacks. The signalling, stream and UDP connections are objects of the network
-- engine: a method's calls of them are values of `Action`, and what they answer is an argument.
-- `now` is `time(nullptr)`. `_stream_index_key` is taken to stay below 2 ^ 31.
pub mod Keys
pub mod Lookup
pub mod Invariant
pub mod Reach
pub mod History
pub mod Collecting
pub mod Losses
mod Tests
use oven_web_rtctester.Prelude.{
  ℕ, zero, suc, ◌+◌, ◌-◌, ◌%◌, ◌^◌, Bool, true, false, not, ◌&&◌, Option, none, some, List, [], ◌∷◌,
  ◌++◌, map, ltb, leb, ◌==◌, if◌then◌else◌, length, get_or,
}
use oven_web_rtctester.Prelude.Int.{ℤ, pos, negsuc, pos_part, minus_one, ltb_ℤ, eqb_ℤ}
use oven_web_rtctester.StreamManager.{
  Streams, StreamTrackInfo, StreamStatus, StreamError, NetworkCall, signalling_server,
  signalling_connection_close, signalling_json_data_fail, signalling_complete, dtls_complete,
  stun_complete, streaming, create_stream, set_error, set_status, set_ome_stream_info,
  garbage_check, get_stream_count,
}

pub data SignallingServerType : Type 0 where
  ome wowza : SignallingServerType

pub data NetworkObjectKey : Type 0 where
  signalling_server_object wowza_signalling_server_object ome_stream_object : NetworkObjectKey
  test_udp_server_object : NetworkObjectKey

pub data TimerId : Type 0 where
  start_timer print_info_timer data_collect_timer stream_create_timer garbage_check_timer : TimerId

pub record CreateParam : Type 0 where
  pub streaming_start_count : ℤ
  pub streaming_create_interval : ℤ
  pub streaming_create_count : ℤ
  pub streaming_max_count : ℤ
  pub traffic_test : Bool
  pub signalling_server_type : SignallingServerType

pub record MainObject : Type 0 where
  pub stream_managers : List Streams
  pub stream_index_key : ℕ

-- the calls that leave the modelled part; the interval of a timer is in seconds
pub data Action : Type 0 where
  posts_connect : ℕ → Action
  connects_udp : ℕ → Action
  sets_timer : TimerId → ℤ → Action
  removes_objects : NetworkCall → Action
  removes_object : NetworkObjectKey → ℤ → Action
  prints_count : ℕ → Action
  collects_data checks_traffic : Action

-- STREAM_MANAGER_OBJECT_COUNT managers, as `Create` pushes them
abbrev pub create_managers : ℕ → List Streams
create_managers zero = []
create_managers (suc n) = [] ∷ create_managers n

abbrev pub new_main : MainObject
new_main = record { stream_managers = create_managers 100; stream_index_key = 0 }

abbrev pub update_at {ℓ} : {A : Type ℓ} → ℕ → (A → A) → List A → List A
update_at i f [] = []
update_at zero f (x ∷ xs) = f x ∷ xs
update_at (suc i) f (x ∷ xs) = x ∷ update_at i f xs

-- `stream_key%_stream_managers.size()`, where the `int` is converted to a `size_t` of 64 bits
abbrev pub manager_index : ℤ → ℕ → ℕ
manager_index (pos key) size = key % size
manager_index (negsuc key) size = (2 ^ 64 - 1 - key) % size

abbrev pub get_stream_manager : ℤ → MainObject → Streams
get_stream_manager key main =
    get_or main.stream_managers (manager_index key (length main.stream_managers)) []

-- a call of a method of `GetStreamManager(stream_key)`
abbrev pub with_manager : ℤ → (Streams → Streams) → MainObject → MainObject
with_manager key f main = record main {
  stream_managers =
      update_at (manager_index key (length main.stream_managers)) f main.stream_managers;
}

-- the body of the loops of `StartTimeProc` and `StreamCreateTimeProc`
abbrev pub connects : SignallingServerType → ℕ → List Action
connects ome key = posts_connect key ∷ []
connects wowza key = []

abbrev pub create_one : CreateParam → ℕ → MainObject → MainObject × List Action
create_one param now main =
    let key = main.stream_index_key in
    (
      with_manager (pos key) (λ m. (create_stream (pos key) minus_one now m).0)
          (record main { stream_index_key = suc key }),
      connects (param.signalling_server_type) key,
    )

unfoldable pub start_loop : CreateParam → ℕ → ℕ → MainObject → MainObject × List Action
start_loop param now zero main = (main, [])
start_loop param now (suc count) main =
    let (main', actions) = create_one param now main in
    let (main'', more) = start_loop param now count main' in (main'', actions ++ more)

unfoldable pub start_time_proc : CreateParam → ℕ → MainObject → MainObject × List Action
start_time_proc param now main =
    let (main', actions) = start_loop param now (pos_part param.streaming_start_count) main in
    (
      main',
      actions
          ++ (if not (eqb_ℤ param.streaming_create_interval (pos 0))
                && not (eqb_ℤ param.streaming_create_count (pos 0))
              then sets_timer stream_create_timer param.streaming_create_interval ∷ []
              else []),
    )

-- `streaming_max_count != 0 && _stream_index_key >= streaming_max_count`
abbrev pub is_full : CreateParam → MainObject → Bool
is_full param main =
    not (eqb_ℤ param.streaming_max_count (pos 0))
    && not (ltb_ℤ (pos main.stream_index_key) param.streaming_max_count)

unfoldable pub create_loop : CreateParam → ℕ → ℕ → MainObject → MainObject × List Action
create_loop param now zero main = (main, [])
create_loop param now (suc count) main =
    let (main', actions) = create_one param now main in
    let (main'', more) = create_loop param now count main' in
    if is_full param main' then (main', actions) else (main'', actions ++ more)

unfoldable pub stream_create_time_proc : CreateParam → ℕ → MainObject → MainObject × List Action
stream_create_time_proc param now main =
    if is_full param main
    then (main, [])
    else create_loop param now (pos_part param.streaming_create_count) main

-- Every manager is checked, in order; the counts are added.
unfoldable pub check_managers : ℕ → List Streams → List Streams × List NetworkCall × ℕ
check_managers now [] = ([], [], 0)
check_managers now (m ∷ ms) =
    let (m', calls, count) = garbage_check now m in
    let (ms', more, counts) = check_managers now ms in (m' ∷ ms', calls ++ more, count + counts)

unfoldable pub garbage_check_time_proc : ℕ → MainObject → MainObject × List Action
garbage_check_time_proc now main =
    let (managers, calls, count) = check_managers now main.stream_managers in
    (record main { stream_managers = managers }, map removes_objects calls)

abbrev pub count_streams : List Streams → ℕ
count_streams [] = 0
count_streams (m ∷ ms) = get_stream_count m + count_streams ms

unfoldable pub print_info_time_proc : MainObject → MainObject × List Action
print_info_time_proc main = (main, prints_count (count_streams main.stream_managers) ∷ [])

-- `connect_add` says whether `_test_udp_servers.ConnectAdd` succeeds for a key; the key is used up
-- before that call.
unfoldable pub traffic_test_loop : (ℕ → Bool) → ℕ → MainObject → MainObject × List Action
traffic_test_loop connect_add zero main = (main, [])
traffic_test_loop connect_add (suc count) main =
    let key = main.stream_index_key in
    let main' = record main { stream_index_key = suc key } in
    let (main'', more) = traffic_test_loop connect_add count main' in
    if connect_add key then (main'', connects_udp key ∷ more) else (main', connects_udp key ∷ [])

-- what the timer does, and `delete_timer`
unfoldable pub on_thread_timer :
    CreateParam → (ℕ → Bool) → ℕ → TimerId → MainObject → (MainObject × List Action) × Bool
on_thread_timer param connect_add now start_timer main =
    if param.traffic_test
    then (traffic_test_loop connect_add (pos_part param.streaming_start_count) main, true)
    else (start_time_proc param now main, true)
on_thread_timer param connect_add now print_info_timer main = (print_info_time_proc main, false)
on_thread_timer param connect_add now data_collect_timer main =
    ((main, (if param.traffic_test then checks_traffic else collects_data) ∷ []), false)
on_thread_timer param connect_add now stream_create_timer main =
    (stream_create_time_proc param now main, false)
on_thread_timer param connect_add now garbage_check_timer main =
    (garbage_check_time_proc now main, false)

abbrev pub fail_stream : ℤ → StreamError → MainObject → MainObject
fail_stream stream_key error main =
    with_manager stream_key (λ m. (set_error stream_key error m).0) main

abbrev pub mark_stream : ℤ → StreamStatus → MainObject → MainObject
mark_stream stream_key status main =
    with_manager stream_key (λ m. (set_status stream_key status m).0) main

-- `known_key` is what `_signalling_servers.GetStreamKey` finds for the connection, -1 when nothing.
abbrev closed_stream : NetworkObjectKey → ℤ → ℤ
closed_stream signalling_server_object known_key = known_key
closed_stream _ known_key = minus_one

unfoldable pub on_network_close : NetworkObjectKey → ℤ → ℤ → MainObject → MainObject × List Action
on_network_close object_key index_key known_key main =
    let stream_key = closed_stream object_key known_key in
    (
      if eqb_ℤ stream_key minus_one
          then main
          else fail_stream stream_key signalling_connection_close main,
      removes_object object_key index_key ∷ [],
    )

-- `connected` says that the result is a success with a socket, `added` that `ConnectAdd` succeeds,
-- `sent` that `SendHandshake` does.
unfoldable pub signalling_server_connected_proc :
    Bool → Bool → Bool → ℤ → MainObject → MainObject × Bool
signalling_server_connected_proc connected added sent stream_key main =
    if not (connected && added)
    then (main, false)
    else if sent
    then (main, true)
    else (fail_stream stream_key signalling_server main, false)

unfoldable pub on_json_data_fail : ℤ → MainObject → MainObject × Bool
on_json_data_fail stream_key main = (fail_stream stream_key signalling_json_data_fail main, true)

-- The status changes only when `SetOmeStreamInfo` finds the stream.
abbrev after_ome_info : ℤ → Bool → MainObject → MainObject × Bool
after_ome_info stream_key true main = (mark_stream stream_key signalling_complete main, true)
after_ome_info stream_key false main = (main, false)

-- `added` is the key of the stream connection that `_ome_streams.ConnectAdd` gives.
unfoldable pub on_handshake_complete :
    Option ℤ → ℤ → List StreamTrackInfo → MainObject → MainObject × Bool
on_handshake_complete none stream_key tracks main = (main, false)
on_handshake_complete (some ome_stream_key) stream_key tracks main =
    after_ome_info stream_key
      (set_ome_stream_info stream_key ome_stream_key tracks (get_stream_manager stream_key main)).1
      (with_manager stream_key (λ m. (set_ome_stream_info stream_key ome_stream_key tracks m).0)
        main)

unfoldable pub on_stun_complete : ℤ → MainObject → MainObject × Bool
on_stun_complete stream_key main = (mark_stream stream_key stun_complete main, true)

unfoldable pub on_dtls_complete : ℤ → MainObject → MainObject × Bool
on_dtls_complete stream_key main = (mark_stream stream_key dtls_complete main, true)

unfoldable pub on_streaming_start : ℤ → MainObject → MainObject × Bool
on_streaming_start stream_key main = (mark_stream stream_key streaming main, true)
