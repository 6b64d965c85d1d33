-- ===== src/UdpObject/Rates.antt =====
-- The traffic of a UDP connection and its reports.
use native.Mathlib.Omega.{div_any}
use native.Mathlib.Nat.{mod-lt, div-le_self}
use oven_web_rtctester.Prelude.{
  Bool, true, false, ◌++◌, ℕ, ◌+◌, ◌-◌, ◌*◌, ◌/◌, ◌%◌, ◌^◌, ◌≤◌, ◌<◌, ◌≡◌, refl, Option, none, some,
  List, [], ◌∷◌, arith, ltb, if◌then◌else◌, if-cases, length,
}
use oven_web_rtctester.Prelude.Bytes.{Bytes}
use oven_web_rtctester.UdpObject.{
  keepalive_send, post_close_id, UdpObject, UdpEffect, receives, closes_network, closes_socket,
  sends, hands, waits, cancels, start_receive, post_close, post_close_timer_proc, set_network_timer,
  on_network_timer, set_keep_alive_send_timer, post_send, on_send, take_datagram, on_receive,
  get_traffic_rate,
}
use oven_web_rtctester.UdpObject.Endpoint.{
  UdpEvent, asks_close, posts, keeps_alive, sent, arrives, rings, handle,
}

-- A rate in bits per second, over a gap in milliseconds, from which it may lack less than 1000
-- bits for each millisecond.
abbrev pub IsRate : ℕ → ℕ → ℕ → Type 0
IsRate traffic gap rate = (rate * gap ≤ traffic * 1000) × (traffic * 1000 < rate * gap + gap * 1000)

rate_lem :
    (traffic gap : ℕ)
    → 0 < gap
    → traffic * 1000 < 2 ^ 64
    → IsRate traffic gap (traffic / gap * 1000 % 2 ^ 64)
rate_lem traffic gap some_time small =
    let whole = div_any traffic gap in
    let left = mod-lt traffic some_time in
    let q = traffic / gap in
    let bound : q ≤ traffic = div-le_self traffic gap in
    let same : q * 1000 % 2 ^ 64 ≡ q * 1000 = omega (arith, bound, small) in
    let product : q * 1000 * gap ≡ gap * q * 1000 = ground arith in
    rw same (omega (arith, whole, left, product), omega (arith, whole, left, product))

-- What a report gives: the rates of the bits that were counted since the last one, and counters that
-- start again; or nothing within the first second, and then nothing changes.
abbrev pub Reported : ℕ → UdpObject → UdpObject × Option (ℕ × ℕ) → Type 0
Reported now u (u', none) = (u' ≡ u) × (now - u.traffic_check_time < 1000)
Reported now u (u', some (send_bitrate, recv_bitrate)) =
    let gap = now - u.traffic_check_time in
    IsRate u.send_traffic gap send_bitrate
    × IsRate u.recv_traffic gap recv_bitrate
    × (1000 ≤ gap)
    × (u' ≡ record u { traffic_check_time = now; send_traffic = 0; recv_traffic = 0 })

-- The clock has not gone back, nor on by more than 32 bits, since the last report.
abbrev pub IsTimely : ℕ → UdpObject → Type 0
IsTimely now u =
    (u.traffic_check_time ≤ now) × (now < u.traffic_check_time + 2 ^ 32) × (now < 2 ^ 63)

pub get_traffic_rate-Reported :
    (now : ℕ) (u : UdpObject)
    → IsTimely now u
    → u.send_traffic * 1000 < 2 ^ 64
    → u.recv_traffic * 1000 < 2 ^ 64
    → Reported now u (get_traffic_rate now u)
unfolding get_traffic_rate
get_traffic_rate-Reported now u (low, high, top) small_send small_recv =
    let gap = now - u.traffic_check_time in
    let exact : (now + (2 ^ 64 - u.traffic_check_time)) % 2 ^ 32 ≡ gap =
      omega (arith, low, high, top) in
    rw exact (
      if-cases (Reported now u) (ltb gap 1000) (λ early. (refl, ground arith))
        (λ late.
          let second : 1000 ≤ gap = ground arith in
          let some_time : 0 < gap = omega (arith, second) in
          (
            rate_lem u.send_traffic gap some_time small_send,
            rate_lem u.recv_traffic gap some_time small_recv,
            second,
            refl,
          )))

-- The bits of the datagrams that are handed on.
unfoldable pub handed_bits : List UdpEffect → ℕ
handed_bits [] = 0
handed_bits (hands packet ∷ effects) = length packet * 8 + handed_bits effects
handed_bits (receives ∷ effects) = handed_bits effects
handed_bits (closes_network ∷ effects) = handed_bits effects
handed_bits (closes_socket ∷ effects) = handed_bits effects
handed_bits (sends packet ∷ effects) = handed_bits effects
handed_bits (waits id interval ∷ effects) = handed_bits effects
handed_bits (cancels id ∷ effects) = handed_bits effects

-- The events of a connection, and the reports that are asked of it.
pub data Meter : Type 0 where
  happens : UdpEvent → Meter
  reports : ℕ → Meter

-- the bits that a report stands for: its rate over its gap, in thousandths
abbrev pub paid_by : ℕ → Option (ℕ × ℕ) → ℕ
paid_by gap none = 0
paid_by gap (some (send_bitrate, recv_bitrate)) = recv_bitrate * gap

abbrev pub elapsed_by : ℕ → Option (ℕ × ℕ) → ℕ
elapsed_by gap none = 0
elapsed_by gap (some rates) = gap

-- The bits that were there and came, against those that were reported and are there.
abbrev pub Balances {ℓ} : {S : Type ℓ} → ℕ → (UdpObject × S) × ℕ × ℕ × ℕ → Type 0
Balances before ((u, s), bits, paid, elapsed) =
    (paid + u.recv_traffic * 1000 ≤ (before + bits) * 1000)
    × ((before + bits) * 1000 ≤ paid + u.recv_traffic * 1000 + elapsed * 1000)

module _ {ℓ} {S : Type ℓ} (recv_handler : S → Bytes → S × Bool) where
  -- one step, with the bits it hands on, those it reports and the time of the report
  unfoldable pub meter : Meter → UdpObject × S → (UdpObject × S) × ℕ × ℕ × ℕ
  unfolding handed_bits
  meter (happens e) state =
      let (state', effects) = handle recv_handler e state in (state', handed_bits effects, 0, 0)
  meter (reports now) (u, s) =
      let (u', rates) = get_traffic_rate now u in
      let gap = now - u.traffic_check_time in ((u', s), 0, paid_by gap rates, elapsed_by gap rates)

  unfoldable pub meter_all : List Meter → UdpObject × S → (UdpObject × S) × ℕ × ℕ × ℕ
  unfolding meter
  meter_all [] state = (state, 0, 0, 0)
  meter_all (e ∷ es) state =
      let (state', bits, paid, elapsed) = meter e state in
      let (state'', bits', paid', elapsed') = meter_all es state' in
      (state'', bits + bits', paid + paid', elapsed + elapsed')

  abbrev pub IsTimelyEvent : Meter → UdpObject → Type 0
  IsTimelyEvent (happens e) u = Unit
  IsTimelyEvent (reports now) u = IsTimely now u × (u.send_traffic * 1000 < 2 ^ 64)

  -- each report comes in time, by the state in which it comes
  abbrev pub AreTimely : List Meter → UdpObject × S → Type 0
  AreTimely [] state = Unit
  AreTimely (e ∷ es) state = IsTimelyEvent e state.0 × AreTimely es (meter e state).0

  receive_bits :
      (packet : Bytes) (u : UdpObject) (s : S)
      → let ((u', s'), effects) = take_datagram recv_handler packet u s in
        (u'.recv_traffic ≡ (u.recv_traffic + length packet * 8) % 2 ^ 64)
        × (handed_bits effects ≡ length packet * 8)
  unfolding take_datagram start_receive post_close handed_bits
  receive_bits packet u s = ground arith

  timer_bits :
      (a b : Bool)
      → handed_bits (
          (if a then cancels keepalive_send ∷ [] else [])
          ++ ((if b then cancels post_close_id ∷ [] else []) ++ closes_socket ∷ [])
          ++ [])
        ≡ 0
  unfolding handed_bits
  timer_bits true true = refl
  timer_bits true false = refl
  timer_bits false true = refl
  timer_bits false false = refl

  handle-bits :
      (e : UdpEvent) (u : UdpObject) (s : S)
      → let ((u', s'), effects) = handle recv_handler e (u, s) in
        u.recv_traffic + handed_bits effects < 2 ^ 64
        → u'.recv_traffic ≡ u.recv_traffic + handed_bits effects
  unfolding handle post_close post_send set_keep_alive_send_timer set_network_timer on_send
      on_receive on_network_timer post_close_timer_proc handed_bits
  handle-bits asks_close u s small = ground arith
  handle-bits (posts packet) u s small = ground arith
  handle-bits (keeps_alive interval) u s small = ground arith
  handle-bits (sent error size) u s small = ground arith
  handle-bits (arrives error packet) u s small = ground (arith, receive_bits packet u s)
  handle-bits (rings callback error keepalive_send interval) u s small = ground arith
  handle-bits (rings callback error post_close_id interval) u s small =
      ground (arith, timer_bits u.keep_alive_send_timer u.post_close_timer)

  report-Balances :
      (now : ℕ) (u : UdpObject) (s : S) (result : UdpObject × Option (ℕ × ℕ))
      → Reported now u result
      → let gap = now - u.traffic_check_time in
        Balances u.recv_traffic ((result.0, s), 0, paid_by gap result.1, elapsed_by gap result.1)
  report-Balances now u s (u', none) (same, early) = rw same (omega arith, omega arith)
  report-Balances now u s (u', some (send_bitrate, recv_bitrate)) (sent', (low, high), late, same) =
      rw same (omega (arith, low), omega (arith, high))

  meter-Balances :
      (e : Meter) (u : UdpObject) (s : S)
      → IsTimelyEvent e u
      → (u.recv_traffic + (meter e (u, s)).1) * 1000 < 2 ^ 64
      → Balances u.recv_traffic (meter e (u, s))
  unfolding meter
  meter-Balances (happens e) u s timely small =
      let same = handle-bits e u s (omega (arith, small)) in
      (omega (arith, same), omega (arith, same))
  meter-Balances (reports now) u s (timely, small_send) small =
      report-Balances now u s (get_traffic_rate now u)
        (get_traffic_rate-Reported now u timely small_send (omega (arith, small)))

  -- Along any events and reports: what the reports say was received, each rate times its gap, is
  -- never more than the bits that were handed to the handler, less those that still wait for a
  -- report, and never less by more than 1000 bits per second; if the clock does not go back between
  -- reports or on by 32 bits, and the counters stay a factor 1000 below their 64 bits.
  pub meter_all-Balances :
      (es : List Meter) (u : UdpObject) (s : S)
      → AreTimely es (u, s)
      → (u.recv_traffic + (meter_all es (u, s)).1) * 1000 < 2 ^ 64
      → Balances u.recv_traffic (meter_all es (u, s))
  unfolding meter_all
  meter_all-Balances [] u s timely small = (omega arith, omega arith)
  meter_all-Balances (e ∷ es) u s (timely, more) small =
      let ((u', s'), bits, paid, elapsed) = meter e (u, s) in
      let (low, high) = meter-Balances e u s timely (omega (arith, small)) in
      let (low', high') = meter_all-Balances es u' s' more (omega (arith, small, low)) in
      (omega (arith, low, low'), omega (arith, high, high'))
