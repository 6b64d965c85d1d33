-- ===== src/TrafficTest/Loss.antt =====
-- What the reports of the traffic test add up to.
use oven_web_rtctester.Prelude.{
  ℕ, ◌+◌, ◌^◌, ◌≤◌, ◌<◌, ◌≡◌, Bool, ◌&&◌, List, [], ◌∷◌, ltb, ◌==◌, if◌then◌else◌, All, arith,
}
use oven_web_rtctester.TrafficTest.{
  TrafficTestHeader, TrafficTest, traffic_test_data, traffic_test_data_proc, recv_datagram,
  get_packet_info,
}

-- A datagram arrives, or a report is taken.
pub data Event : Type 0 where
  arrives : ℕ → TrafficTestHeader → Event
  reports : Event

-- whether the datagram is data behind the last sequence number
abbrev pub advances : ℕ → TrafficTestHeader → TrafficTest → Bool
advances size header t =
    size == header.packet_size
    && header.command == traffic_test_data
    && ltb t.last_number header.traffic_number

-- The state behind the events, the loss that the reports gave, and the datagrams that advanced.
unfoldable pub run : List Event → TrafficTest → TrafficTest × ℕ × ℕ
run [] t = (t, 0, 0)
run (arrives size header ∷ events) t =
    let (t', reported, advanced) = run events (recv_datagram size header t) in
    (t', reported, (if advances size header t then 1 else 0) + advanced)
run (reports ∷ events) t =
    let (left, loss, count) = get_packet_info t in
    let (t', reported, advanced) = run events left in (t', loss + reported, advanced)

-- The sequence numbers fit 32 bits.
abbrev pub Small : Event → Type 0
Small (arrives size header) = header.traffic_number < 2 ^ 32
Small reports = Unit

-- The counter of the loss cannot be larger than the last sequence number, which is not 0.
abbrev pub Started : TrafficTest → Type 0
Started t = (0 < t.last_number) × (t.lost ≤ t.last_number)

-- One datagram: the sequence numbers it steps over are the loss that it adds.
recv_datagram_one :
    (size : ℕ) (header : TrafficTestHeader) (t : TrafficTest)
    → header.traffic_number < 2 ^ 32
    → Started t
    → Started (recv_datagram size header t)
      × ((recv_datagram size header t).lost
            + (if advances size header t then 1 else 0)
            + t.last_number
          ≡ (recv_datagram size header t).last_number + t.lost)
unfolding recv_datagram traffic_test_data_proc
recv_datagram_one size header t small (positive, bounded) = ground arith

-- From a state behind its first packet, whose loss is not above its last sequence number, over any
-- arrivals with sequence numbers below 2^32, in order or not, with datagrams of whatever size, and any
-- reports: the losses that the reports gave, the loss that is still to be reported and the
-- datagrams that advanced the sequence number are together what it advanced by, and the loss that
-- was pending at first.
pub run-lost :
    (events : List Event) (t : TrafficTest)
    → All Small events
    → Started t
    → (run events t).1 + (run events t).0.lost + (run events t).2 + t.last_number
      ≡ (run events t).0.last_number + t.lost
unfolding run get_packet_info
run-lost [] t small start = omega arith
run-lost (arrives size header ∷ events) t (small, rest) start =
    let (start', one) = recv_datagram_one size header t small start in
    let more = run-lost events (recv_datagram size header t) rest start' in omega (arith, one, more)
run-lost (reports ∷ events) t (small, rest) (positive, bounded) =
    let more = run-lost events (record t { lost = 0; counted = 0 }) rest (positive, omega arith) in
    omega (arith, more)
