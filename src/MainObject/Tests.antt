-- ===== src/MainObject/Tests.antt =====
-- Tests and instances for the main object.
use oven_web_rtctester.Prelude.{
  ℕ, ◌*◌, ◌/◌, ◌≡◌, refl, false, none, List, [], ◌∷◌, true, All, arith,
}
use oven_web_rtctester.Prelude.Int.{pos}
use oven_web_rtctester.Dtls.{CollectData}
use oven_web_rtctester.MainObject.Collecting.{
  Collecting, add_traffic, add_traffics, row_of, data_collect_time_proc,
}
use oven_web_rtctester.MainObject.Losses.{
  Collection, Kept, IsSmall, Told, sum_of_losses, video_packets, audio_packets, sum_of_all,
  collect_all, collect_all-Kept,
}
use oven_web_rtctester.MainObject.{
  CreateParam, MainObject, new_main, ome, posts_connect, signalling_server_object, create_loop,
  stream_create_time_proc,
}
use oven_web_rtctester.MainObject.Lookup.{stream_of, Fresh, Made}
use oven_web_rtctester.MainObject.Reach.{
  Call, starts, creates, checks, closes, connects_server, stuns, handle, run,
}
use oven_web_rtctester.MainObject.History.{run-Made, close-erases}

-- 3 streams at once, then 2 every 5 seconds, up to 6
abbrev param : CreateParam
param = record {
  streaming_start_count = pos 3;
  streaming_create_interval = pos 5;
  streaming_create_count = pos 2;
  streaming_max_count = pos 6;
  traffic_test = false;
  signalling_server_type = ome;
}

abbrev history : List Call
history =
    starts 100
    ∷ stuns (pos 1)
    ∷ connects_server true true false (pos 2)
    ∷ creates 105
    ∷ checks 120
    ∷ []

abbrev five : MainObject
five = record new_main { stream_index_key = 5 }

-- the second round is cut after one stream
cut : (stream_create_time_proc param 110 five).1 ≡ posts_connect 5 ∷ []
unfolding stream_create_time_proc create_loop
cut = refl

run-Made_example :
    Fresh (run param history new_main)
    × Made 125
        (run param history new_main)
        (stream_create_time_proc param 125 (run param history new_main)).0
run-Made_example = run-Made param history 125

close-erases_example :
    stream_of 1 (
      handle param (checks 130) (
        handle param
          (closes signalling_server_object (pos 7) (pos 1))
          (run param history new_main)))
    ≡ none
close-erases_example = close-erases param history 1 130 (pos 7)

abbrev quiet : CollectData
quiet = record {
  duration = 1000;
  frame_count = 30;
  packet_loss_count = 0;
  latency = pos 3;
  packet_count = 100;
}

abbrev lossy : CollectData
lossy = record quiet { packet_loss_count = 5; latency = pos 40 }

abbrev per_second : ℕ → ℕ → ℕ
per_second frames duration = frames * 1000 / duration

abbrev collections : List Collection
collections =
    (100, record { kbps = 800; video_collect_data = quiet; audio_collect_data = quiet } ∷ [])
    ∷ (110, [])
    ∷ (120, record { kbps = 700; video_collect_data = lossy; audio_collect_data = quiet } ∷ [])
    ∷ []

abbrev not_started : Collecting
not_started = record {
  collect_start_time = 0;
  max_loss = 0;
  min_loss = 4294967295;
  total_loss = 0;
  sample_count = 0;
}

collected : (collect_all per_second collections not_started).0 ≡ record {
  collect_start_time = 100;
  max_loss = 2;
  min_loss = 0;
  total_loss = 5;
  sample_count = 2;
}
unfolding collect_all data_collect_time_proc add_traffics add_traffic row_of
collected = refl

collections-IsSmall : All IsSmall collections
unfolding sum_of_losses video_packets audio_packets
collections-IsSmall = ground arith

collect_all-Kept_example :
    Told collections (collect_all per_second collections not_started).1
    × Kept (sum_of_all collections) not_started (collect_all per_second collections not_started)
collect_all-Kept_example = collect_all-Kept per_second collections not_started collections-IsSmall
