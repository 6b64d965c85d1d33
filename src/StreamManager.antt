-- ===== src/StreamManager.antt =====
-- srcs/stream_manager.h and srcs/stream_manager.cpp. The map holds shared pointers: a write through
-- the pointer that `FindStream` returns is a write to the entry of the map. `now` is the value of
-- `time(nullptr)`, in seconds. The mutex of the map is held while the map is searched or changed, but
-- `SetError` and `SetStatus` write to the entry behind it: that no two calls overlap is assumed here.
-- What is only logged (the status and error texts, and the error that `GarbageCheck` writes to an
-- entry that it erases) is not modelled.
pub mod Garbage
pub mod Errors
mod Tests
use oven_web_rtctester.Prelude.{
  ℕ, ◌+◌, ◌-◌, ◌%◌, ◌^◌, Bool, true, false, not, ◌&&◌, ◌||◌, Option, none, some, List, [], ◌∷◌,
  ◌++◌, ◌==◌, if◌then◌else◌, length,
}
use oven_web_rtctester.Prelude.Int.{ℤ, pos, minus_one, ltb_ℤ, eqb_ℤ, to_int32}
use oven_web_rtctester.Prelude.Map.{Map, lookup, insert, erase, update}

pub data StreamTrackType : Type 0 where
  video audio application unknown : StreamTrackType

pub data StreamCodecType : Type 0 where
  vp8 h264 opus aac : StreamCodecType

pub record StreamTrackInfo : Type 0 where
  pub type : StreamTrackType
  pub track_id : ℕ
  pub codec_type : StreamCodecType
  pub timescale : ℕ

pub data StreamStatus : Type 0 where
  ready signalling_complete dtls_complete stun_complete streaming : StreamStatus

-- `no_error` is `StreamError::None`.
pub data StreamError : Type 0 where
  no_error signalling_server ome_stream stream_complete_timer_over : StreamError
  signalling_connection_fail signalling_connection_close : StreamError
  signalling_json_data_fail unknown_error : StreamError

pub record StreamInfo : Type 0 where
  pub create_time : ℕ
  pub status : StreamStatus
  pub error : StreamError
  pub signalling_server_key : ℤ
  pub ome_stream_key : ℤ
  pub track_infos : Option (List StreamTrackInfo)

-- The calls of `MainObject::RemoveNetwork` that a method makes, with the index keys given.
pub data NetworkCall : Type 0 where
  remove_signalling_servers : List ℤ → NetworkCall
  remove_ome_streams : List ℤ → NetworkCall

abbrev pub Streams : Type 0
Streams = Map StreamInfo

-- the constructor of `StreamInfo`
abbrev pub new_stream : ℤ → ℕ → StreamInfo
new_stream signalling_server_key now = record {
  create_time = now;
  status = ready;
  error = no_error;
  signalling_server_key = signalling_server_key;
  ome_stream_key = minus_one;
  track_infos = none;
}

abbrev found : Option StreamInfo → Bool
found none = false
found (some info) = true

unfoldable pub create_stream : ℤ → ℤ → ℕ → Streams → Streams × Bool
create_stream stream_key signalling_server_key now streams =
    if found (lookup stream_key streams)
    then (streams, false)
    else (insert stream_key (new_stream signalling_server_key now) streams, true)

-- `FindStream(stream_key, true)`, and the map that it leaves
abbrev find_erase : ℤ → Streams → Option StreamInfo × Streams
find_erase stream_key streams = elim (lookup stream_key streams) [
  | none ↦ (none, streams)
  | some info ↦ (some info, erase stream_key streams)
]

abbrev close_calls : ℤ → ℤ → List NetworkCall
close_calls signalling_server_key ome_stream_key =
    (if eqb_ℤ signalling_server_key minus_one
      then []
      else remove_signalling_servers (signalling_server_key ∷ []) ∷ [])
    ++ (if eqb_ℤ ome_stream_key minus_one
        then []
        else remove_ome_streams (ome_stream_key ∷ []) ∷ [])

-- A found stream is erased and the method returns; the calls stand behind that return.
abbrev removed : Option StreamInfo × Streams → Streams × List NetworkCall × Bool
removed (some info, rest) = (rest, [], true)
removed (none, rest) = (rest, close_calls minus_one minus_one, true)

unfoldable pub remove : ℤ → Streams → Streams × List NetworkCall × Bool
remove stream_key streams = removed (find_erase stream_key streams)

pub is_none : StreamError → Bool
is_none no_error = true
is_none _ = false

is_streaming : StreamStatus → Bool
is_streaming streaming = true
is_streaming _ = false

abbrev pub write_error : StreamError → StreamInfo → StreamInfo
write_error error info = if is_none info.error then record info { error = error } else info

unfoldable pub set_error : ℤ → StreamError → Streams → Streams × Bool
unfolding is_none
set_error stream_key error streams =
    (update stream_key (write_error error) streams, found (lookup stream_key streams))

unfoldable pub set_status : ℤ → StreamStatus → Streams → Streams × Bool
set_status stream_key status streams = (
  update stream_key (λ info. record info { status = status }) streams,
  found (lookup stream_key streams),
)

-- `none` where the source returns false and leaves its argument alone
unfoldable pub get_status : ℤ → Streams → Option StreamStatus
get_status stream_key streams = elim (lookup stream_key streams) [
  | none ↦ none
  | some info ↦ some info.status
]

unfoldable pub set_signalling_server_info : ℤ → ℤ → Streams → Streams × Bool
set_signalling_server_info stream_key key streams = (
  update stream_key (λ info. record info { signalling_server_key = key }) streams,
  found (lookup stream_key streams),
)

unfoldable pub set_ome_stream_info : ℤ → ℤ → List StreamTrackInfo → Streams → Streams × Bool
set_ome_stream_info stream_key key tracks streams = (
  update stream_key (λ info. record info { ome_stream_key = key; track_infos = some tracks })
      streams,
  found (lookup stream_key streams),
)

-- STREAMING_STATUS_MAX_WAIT_TIME, in seconds
abbrev pub max_wait_time : ℤ
max_wait_time = pos 30

-- `current_time - create_time`, stored in an `int`
abbrev pub create_time_gap : ℕ → StreamInfo → ℤ
create_time_gap now info = to_int32 (now + (2 ^ 32 - info.create_time % 2 ^ 32))

-- the two tests of the loop that set `remove`
unfoldable pub is_garbage : ℕ → StreamInfo → Bool
unfolding is_none is_streaming
is_garbage now info =
    not (is_none info.error)
    || not (is_streaming info.status) && ltb_ℤ max_wait_time (create_time_gap now info)

-- the loop: what stays in the map, the two vectors, and the count
pub record Sweep : Type 0 where
  pub streams : Streams
  pub signalling_server_keys : List ℤ
  pub ome_stream_keys : List ℤ
  pub remove_count : ℕ

abbrev drop_entry : StreamInfo → Sweep → Sweep
drop_entry info rest = record rest {
  signalling_server_keys = info.signalling_server_key ∷ rest.signalling_server_keys;
  ome_stream_keys = info.ome_stream_key ∷ rest.ome_stream_keys;
  remove_count = rest.remove_count + 1;
}

unfoldable pub sweep : ℕ → Streams → Sweep
sweep now [] = record {
  streams = [];
  signalling_server_keys = [];
  ome_stream_keys = [];
  remove_count = 0;
}
sweep now ((key, info) ∷ streams) =
    let rest = sweep now streams in
    if is_garbage now info
    then drop_entry info rest
    else record rest { streams = (key, info) ∷ rest.streams }

abbrev call_unless_empty : (List ℤ → NetworkCall) → List ℤ → List NetworkCall
call_unless_empty call [] = []
call_unless_empty call (k ∷ ks) = call (k ∷ ks) ∷ []

-- The argument `RemoveStreamKeys` is not written, so it is left out.
unfoldable pub garbage_check : ℕ → Streams → Streams × List NetworkCall × ℕ
garbage_check now streams =
    let swept = sweep now streams in
    (
      swept.streams,
      call_unless_empty remove_signalling_servers swept.signalling_server_keys
          ++ call_unless_empty remove_ome_streams swept.ome_stream_keys,
      swept.remove_count,
    )

abbrev pub get_stream_count : Streams → ℕ
get_stream_count streams = length streams
