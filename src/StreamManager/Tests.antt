-- ===== src/StreamManager/Tests.antt =====
-- Tests and instances for the stream manager.
use oven_web_rtctester.Prelude.{◌≡◌, ◌↔◌, refl, none, some, List, [], ◌∷◌, arith}
use oven_web_rtctester.Prelude.Int.{pos, minus_one}
use oven_web_rtctester.Prelude.Map.{lookup}
use oven_web_rtctester.StreamManager.{
  streaming, signalling_complete, stun_complete, signalling_connection_close,
  signalling_json_data_fail, StreamInfo, Streams, new_stream, remove_signalling_servers,
  remove_ome_streams, garbage_check, sweep, is_garbage,
}
use oven_web_rtctester.StreamManager.Garbage.{IsLive, lookup-garbage_check}
use oven_web_rtctester.StreamManager.Errors.{
  Call, creates, sets_error, sets_status, run, Fails, first_error_stays,
}

-- made at second 100, and streaming
abbrev playing : StreamInfo
playing = record (new_stream minus_one 100) { status = streaming; ome_stream_key = pos 4 }

abbrev waiting : StreamInfo
waiting = record (new_stream (pos 9) 100) { status = stun_complete }

abbrev two_streams : Streams
two_streams = (pos 0, playing) ∷ (pos 100, waiting) ∷ []

collected : garbage_check 131 two_streams ≡ (
  (pos 0, playing) ∷ [],
  remove_signalling_servers (pos 9 ∷ []) ∷ remove_ome_streams (minus_one ∷ []) ∷ [],
  1,
)
unfolding garbage_check sweep is_garbage
collected = refl

lookup-garbage_check_example :
    (lookup (pos 100) (garbage_check 130 two_streams).0 ≡ some waiting)
    ↔ ((lookup (pos 100) two_streams ≡ some waiting) × IsLive 130 waiting)
lookup-garbage_check_example =
    lookup-garbage_check 130 two_streams (pos 100) waiting (refl, tt) (omega arith)

abbrev later : List Call
later =
    sets_error (pos 0) signalling_json_data_fail
    ∷ sets_status (pos 0) signalling_complete
    ∷ creates (pos 0) minus_one 120
    ∷ []

first_found : lookup (pos 0) two_streams ≡ some playing
unfolding lookup
first_found = refl

first_error_stays_example :
    Fails
      (pos 0)
      signalling_connection_close
      (run (sets_error (pos 0) signalling_connection_close ∷ later) two_streams)
    × (lookup
          (pos 0)
          (garbage_check 120
            (run (sets_error (pos 0) signalling_connection_close ∷ later) two_streams)).0
        ≡ none)
first_error_stays_example =
    first_error_stays (pos 0) signalling_connection_close two_streams playing later 120 (refl, tt)
      first_found refl (λ e. cc) (omega arith)
