-- ===== src/TrafficTest/Tests.antt =====
-- Datagrams with gaps, a late one and one of a wrong size.
use oven_web_rtctester.Prelude.{ℕ, ◌+◌, ◌≡◌, refl, List, [], ◌∷◌, arith}
use oven_web_rtctester.TrafficTest.{
  TrafficTestHeader, TrafficTest, recv_datagram, traffic_test_data_proc, get_packet_info,
}
use oven_web_rtctester.TrafficTest.Loss.{Event, arrives, reports, run, run-lost}

abbrev header : ℕ → TrafficTestHeader
header n = record { command = 1; traffic_number = n; packet_size = 1500 }

abbrev begun : TrafficTest
begun = record { last_number = 4; lost = 0; counted = 1 }

abbrev history : List Event
history =
    arrives 1500 (header 5)
    ∷ arrives 1500 (header 9)
    ∷ arrives 1500 (header 7)
    ∷ reports
    ∷ arrives 40 (header 10)
    ∷ arrives 1500 (header 12)
    ∷ []

run-lost_example :
    (run history begun).1 + (run history begun).0.lost + (run history begun).2 + 4
    ≡ (run history begun).0.last_number + 0
run-lost_example =
    run-lost history begun
      (omega arith, (omega arith, (omega arith, (tt, (omega arith, (omega arith, tt))))))
      (omega arith, omega arith)

loses_five : run history begun ≡ (record { last_number = 12; lost = 2; counted = 2 }, 3, 3)
unfolding run recv_datagram traffic_test_data_proc get_packet_info
loses_five = refl
