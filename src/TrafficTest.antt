-- ===== src/TrafficTest.antt =====
-- srcs/test_udp_server/test_udp_server_object.cpp: the counters of the traffic test. The header is
-- what stands at the front of the datagram, of `size` bytes. The counters of a report have 32 bits,
-- the sequence number has 64.
pub mod Loss
mod Tests
use oven_web_rtctester.Prelude.{ℕ, ◌+◌, ◌-◌, ◌%◌, ◌^◌, Bool, not, ◌&&◌, ltb, ◌==◌, if◌then◌else◌}

-- the fields of `TrafficTestHeader` that the receiver reads
pub record TrafficTestHeader : Type 0 where
  pub command : ℕ
  pub traffic_number : ℕ
  pub packet_size : ℕ

pub record TrafficTest : Type 0 where
  pub last_number : ℕ
  pub lost : ℕ
  pub counted : ℕ

-- TRAFFIC_TEST_DATA
abbrev pub traffic_test_data : ℕ
traffic_test_data = 1

unfoldable pub traffic_test_data_proc : TrafficTestHeader → TrafficTest → TrafficTest
traffic_test_data_proc header t =
    let gap = header.traffic_number - t.last_number - 1 in
    let is_gap = not (header.traffic_number == t.last_number + 1) && not (t.last_number == 0) in
    if ltb t.last_number header.traffic_number
    then record t {
      last_number = header.traffic_number;
      lost = if is_gap then (t.lost + gap) % 2 ^ 32 else t.lost;
    }
    else t

unfoldable pub recv_datagram : ℕ → TrafficTestHeader → TrafficTest → TrafficTest
recv_datagram size header t =
    let counting = record t { counted = (t.counted + 1) % 2 ^ 32 } in
    if not (size == header.packet_size)
    then counting
    else if header.command == traffic_test_data
    then traffic_test_data_proc header counting
    else counting

-- `GetPacketInfo`: the loss and the count, which start again at 0
unfoldable pub get_packet_info : TrafficTest → TrafficTest × ℕ × ℕ
get_packet_info t = (record t { lost = 0; counted = 0 }, t.lost, t.counted)
