-- ===== src/MainObject/Losses.antt =====
-- The losses over the calls of `DataCollectTimeProc`.
use oven_web_rtctester.Prelude.{
  ℕ, ◌+◌, ◌*◌, ◌/◌, ◌%◌, ◌^◌, ◌≤◌, ◌<◌, ◌≡◌, refl, ◌∙◌, List, [], ◌∷◌, ◌++◌, ◌==◌, if◌then◌else◌,
  length, length-append, All, arith,
}
use oven_web_rtctester.MainObject.Collecting.{
  TrafficCollectData, Totals, no_totals, Collecting, Row, add_32, loss_of, percent_of, started_at,
  row_of, add_traffic, add_traffics, data_collect_time_proc,
}

-- A call at a time, with the reports of the streams.
abbrev pub Collection : Type 0
Collection = ℕ × List TrafficCollectData

-- What the streams' reports say together: the lost and the received packets of both tracks.
unfoldable pub sum_of_losses : List TrafficCollectData → ℕ
sum_of_losses [] = 0
sum_of_losses (t ∷ ts) =
    t.video_collect_data.packet_loss_count
    + t.audio_collect_data.packet_loss_count
    + sum_of_losses ts

unfoldable pub video_packets : List TrafficCollectData → ℕ
video_packets [] = 0
video_packets (t ∷ ts) = t.video_collect_data.packet_count + video_packets ts

unfoldable pub audio_packets : List TrafficCollectData → ℕ
audio_packets [] = 0
audio_packets (t ∷ ts) = t.audio_collect_data.packet_count + audio_packets ts

-- The lost packets of a call, times 100, fit 32 bits, and so do the received ones; no loss is negative.
abbrev pub IsSmall : Collection → Type 0
IsSmall (now, ts) =
    (sum_of_losses ts * 100 < 2 ^ 32) × (video_packets ts + audio_packets ts < 2 ^ 32)

abbrev pub percent : ℕ → ℕ → ℕ
percent lost packets = if packets == 0 then 0 else lost * 100 / packets

-- The row of a call: its losses, and how many they are for a hundred received packets, rounded down.
abbrev pub Tells : List TrafficCollectData → Row → Type 0
Tells ts row =
    (row.packet_loss ≡ sum_of_losses ts)
    × (row.packet_loss_percent ≡ percent (sum_of_losses ts) (video_packets ts + audio_packets ts))

-- One row for each call with reports, in order.
unfoldable pub Told : List Collection → List Row → Type 0
Told [] [] = Unit
Told [] (row ∷ rows) = ⊥
Told ((now, []) ∷ calls) rows = Told calls rows
Told ((now, t ∷ ts) ∷ calls) [] = ⊥
Told ((now, t ∷ ts) ∷ calls) (row ∷ rows) = Tells (t ∷ ts) row × Told calls rows

unfoldable pub sum_of_all : List Collection → ℕ
sum_of_all [] = 0
sum_of_all ((now, ts) ∷ calls) = sum_of_losses ts + sum_of_all calls

abbrev pub InRange : ℕ → ℕ → List Row → Type 0
InRange low high = All (λ row. (low ≤ row.packet_loss_percent) × (row.packet_loss_percent ≤ high))

-- What a history leaves: the percents of its rows lie between the least and the largest, which only
-- widen; the losses and the samples are counted, from those before on.
abbrev pub Kept : ℕ → Collecting → Collecting × List Row → Type 0
Kept lost c (c', rows) =
    InRange c'.min_loss c'.max_loss rows
    × (c.max_loss ≤ c'.max_loss)
    × (c'.min_loss ≤ c.min_loss)
    × (c'.total_loss % 2 ^ 32 ≡ (c.total_loss + lost) % 2 ^ 32)
    × (c'.sample_count % 2 ^ 32 ≡ (c.sample_count + length rows) % 2 ^ 32)

InRange-widen :
    (low high low' high' : ℕ) (rows : List Row)
    → low' ≤ low
    → high ≤ high'
    → InRange low high rows
    → InRange low' high' rows
InRange-widen low high low' high' [] l h all = tt
InRange-widen low high low' high' (row ∷ rows) l h ((a, b), all) =
    ((omega (arith, a, l), omega (arith, b, h)), InRange-widen low high low' high' rows l h all)

InRange-append :
    (low high : ℕ) (xs ys : List Row)
    → InRange low high xs
    → InRange low high ys
    → InRange low high (xs ++ ys)
InRange-append low high [] ys a b = b
InRange-append low high (x ∷ xs) ys (one, a) b = (one, InRange-append low high xs ys a b)

row_of-Kept :
    (now count : ℕ) (s : Totals) (c : Collecting)
    → let (c', row) = row_of now count s c in Kept s.total_packet_loss c (c', row ∷ [])
unfolding row_of
row_of-Kept now count s c = let p = percent_of s in ground arith

loss_of_lem :
    (t : TrafficCollectData)
    → t.video_collect_data.packet_loss_count + t.audio_collect_data.packet_loss_count < 2 ^ 31
    → loss_of t ≡ t.video_collect_data.packet_loss_count + t.audio_collect_data.packet_loss_count
loss_of_lem t small = ground arith

module _ (rate : ℕ → ℕ → ℕ) where
  total_loss_lem :
      (ts : List TrafficCollectData) (s : Totals)
      → s.total_packet_loss + sum_of_losses ts < 2 ^ 31
      → (add_traffics rate ts s).total_packet_loss ≡ s.total_packet_loss + sum_of_losses ts
  unfolding add_traffics add_traffic sum_of_losses
  total_loss_lem [] s small = omega arith
  total_loss_lem (t ∷ ts) s small =
      let one = loss_of_lem t (omega (arith, small)) in
      let added : add_32 s.total_packet_loss (loss_of t) ≡ s.total_packet_loss + loss_of t =
        omega (arith, one, small) in
      total_loss_lem ts (add_traffic rate t s) (omega (arith, one, small, added))
      ∙ omega (arith, one, added)

  total_video_lem :
      (ts : List TrafficCollectData) (s : Totals)
      → s.total_video_packet_count + video_packets ts < 2 ^ 32
      → (add_traffics rate ts s).total_video_packet_count
        ≡ s.total_video_packet_count + video_packets ts
  unfolding add_traffics add_traffic video_packets
  total_video_lem [] s small = omega arith
  total_video_lem (t ∷ ts) s small =
      total_video_lem ts (add_traffic rate t s) (omega (arith, small)) ∙ omega (arith, small)

  total_audio_lem :
      (ts : List TrafficCollectData) (s : Totals)
      → s.total_audio_packet_count + audio_packets ts < 2 ^ 32
      → (add_traffics rate ts s).total_audio_packet_count
        ≡ s.total_audio_packet_count + audio_packets ts
  unfolding add_traffics add_traffic audio_packets
  total_audio_lem [] s small = omega arith
  total_audio_lem (t ∷ ts) s small =
      total_audio_lem ts (add_traffic rate t s) (omega (arith, small)) ∙ omega (arith, small)

  row_of-Tells :
      (now count : ℕ) (ts : List TrafficCollectData) (c : Collecting)
      → IsSmall (now, ts)
      → Tells ts (row_of now count (add_traffics rate ts no_totals) c).1
  unfolding row_of
  row_of-Tells now count ts c (few, fit) =
      let s = add_traffics rate ts no_totals in
      let lost : s.total_packet_loss ≡ sum_of_losses ts =
        total_loss_lem ts no_totals (omega (arith, few)) ∙ omega arith in
      let video : s.total_video_packet_count ≡ video_packets ts =
        total_video_lem ts no_totals (omega (arith, fit)) ∙ omega arith in
      let audio : s.total_audio_packet_count ≡ audio_packets ts =
        total_audio_lem ts no_totals (omega (arith, fit)) ∙ omega arith in
      let packets : (video_packets ts + audio_packets ts) % 2 ^ 32
          ≡ video_packets ts + audio_packets ts =
        omega (arith, fit) in
      let scaled : sum_of_losses ts * 100 % 2 ^ 32 ≡ sum_of_losses ts * 100 = omega (arith, few) in
      (lost, rw (lost, video, audio) (rw (packets, scaled) refl))

  unfoldable pub collect_all : List Collection → Collecting → Collecting × List Row
  unfolding data_collect_time_proc
  collect_all [] c = (c, [])
  collect_all ((now, ts) ∷ calls) c =
      let (c', rows) = data_collect_time_proc rate now ts c in
      let (c'', more) = collect_all calls c' in (c'', rows ++ more)

  started_at-Kept : (now : ℕ) (c : Collecting) → Kept 0 c (started_at now c, [])
  started_at-Kept now c = ground arith

  data_collect-Kept :
      (now : ℕ) (ts : List TrafficCollectData) (c : Collecting)
      → IsSmall (now, ts)
      → Kept (sum_of_losses ts) c (data_collect_time_proc rate now ts c)
  unfolding data_collect_time_proc sum_of_losses
  data_collect-Kept now [] c small = started_at-Kept now c
  data_collect-Kept now (t ∷ ts) c (few, fit) =
      let s = add_traffics rate (t ∷ ts) no_totals in
      let (inside, up, down, lost, count) =
        row_of-Kept now (length (t ∷ ts)) s (started_at now c) in
      let (none_yet, same_up, same_down, same_lost, same_count) = started_at-Kept now c in
      let sum = total_loss_lem (t ∷ ts) no_totals (omega (arith, few)) in
      (
        inside,
        omega (arith, up, same_up),
        omega (arith, down, same_down),
        omega (arith, lost, same_lost, sum),
        omega (arith, count, same_count),
      )

  data_collect-Told :
      (now : ℕ) (ts : List TrafficCollectData) (c : Collecting) (calls : List Collection)
      (more : List Row)
      → IsSmall (now, ts)
      → Told calls more
      → Told ((now, ts) ∷ calls) ((data_collect_time_proc rate now ts c).1 ++ more)
  unfolding data_collect_time_proc Told
  data_collect-Told now [] c calls more small told = told
  data_collect-Told now (t ∷ ts) c calls more small told =
      (row_of-Tells now (length (t ∷ ts)) (t ∷ ts) (started_at now c) small, told)

  collect_all-Told :
      (calls : List Collection) (c : Collecting)
      → All IsSmall calls
      → Told calls (collect_all calls c).1
  unfolding collect_all Told
  collect_all-Told [] c small = tt
  collect_all-Told ((now, ts) ∷ calls) c (one, small) =
      let (c', rows) = data_collect_time_proc rate now ts c in
      data_collect-Told now ts c calls (collect_all calls c').1 one
        (collect_all-Told calls c' small)

  collect_all_range :
      (calls : List Collection) (c : Collecting)
      → All IsSmall calls
      → Kept (sum_of_all calls) c (collect_all calls c)
  unfolding collect_all sum_of_all
  collect_all_range [] c small = (tt, omega arith, omega arith, omega arith, omega arith)
  collect_all_range ((now, ts) ∷ calls) c (one, small) =
      let (c', rows) = data_collect_time_proc rate now ts c in
      let (c'', more) = collect_all calls c' in
      let (inside, up, down, lost, count) = data_collect-Kept now ts c one in
      let (inside', up', down', lost', count') = collect_all_range calls c' small in
      (
        InRange-append c''.min_loss c''.max_loss rows more
            (InRange-widen c'.min_loss c'.max_loss c''.min_loss c''.max_loss rows down' up' inside)
            inside',
        omega (arith, up, up'),
        omega (arith, down, down'),
        omega (arith, lost, lost'),
        omega (arith, count, count', length-append rows more),
      )

  -- Whatever the calls and the streams' reports, as long as the losses of each call, times 100, and its
  -- packets fit 32 bits and no loss is negative: each call with reports writes one row, with the lost
  -- packets of both tracks of all streams, and with how many they are for a hundred received ones,
  -- rounded down, or 0 where none came. Each percent that was written lies between the least and the
  -- largest that are kept, which only widen from call to call; the total loss is what it was and the
  -- losses of all reports together, modulo 2^32, and the samples count the rows.
  pub collect_all-Kept :
      (calls : List Collection) (c : Collecting)
      → All IsSmall calls
      → Told calls (collect_all calls c).1 × Kept (sum_of_all calls) c (collect_all calls c)
  collect_all-Kept calls c small = (collect_all-Told calls c small, collect_all_range calls c small)
