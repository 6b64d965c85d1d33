-- ===== src/UdpObject/Tests.antt =====
-- Tests and instances for the UDP connection.
use oven_web_rtctester.Prelude.{
  ℕ, suc, ◌+◌, ◌*◌, ◌^◌, ◌<◌, ◌≡◌, refl, Bool, true, false, none, some, List, [], ◌∷◌, ◌++◌, arith,
}
use oven_web_rtctester.Prelude.Bytes.{Bytes}
use oven_web_rtctester.UdpManager.{new_udp_object}
use oven_web_rtctester.UdpObject.{
  UdpObject, receives, sends, hands, post_close_id, keepalive_send, create, get_traffic_rate,
  take_datagram, start_receive, post_close, post_send, set_keep_alive_send_timer, set_network_timer,
  on_send, on_receive, on_network_timer,
}
use oven_web_rtctester.UdpObject.Endpoint.{
  UdpEvent, asks_close, posts, keeps_alive, sent, arrives, rings, visible, Follows, handle,
  handle_all, endpoint_all, handle_all-endpoint,
}
use oven_web_rtctester.UdpObject.Closing.{IsDown, Rests, close_ends}
use oven_web_rtctester.UdpObject.Rates.{
  handed_bits, AreTimely, Meter, happens, reports, meter, meter_all, Balances, meter_all-Balances,
}

abbrev made : UdpObject
made = record (new_udp_object 0) {
  udp_remote_ip = 1;
  udp_remote_port = 2;
  is_create = true;
  socket_is_open = true;
}

-- counts the datagrams, and closes at an empty one
abbrev count : ℕ → Bytes → ℕ × Bool
count n [] = (n, true)
count n (b ∷ packet) = (suc n, false)

abbrev events : List UdpEvent
events =
    posts (7 ∷ [])
    ∷ keeps_alive 1000
    ∷ arrives false (1 ∷ 2 ∷ [])
    ∷ sent false 1
    ∷ rings (some true) false keepalive_send 1000
    ∷ arrives false []
    ∷ posts (8 ∷ [])
    ∷ arrives false (3 ∷ [])
    ∷ []

create_test : (create 1 2 true (new_udp_object 0)) ≡ (made, receives ∷ [], true)
unfolding create
create_test = refl

events_seen :
    visible (handle_all count events (made, 0)).1
    ≡ sends (7 ∷ []) ∷ hands (1 ∷ 2 ∷ []) ∷ receives ∷ hands [] ∷ []
unfolding visible handle_all handle post_close post_send set_keep_alive_send_timer set_network_timer
    on_send on_receive on_network_timer take_datagram start_receive
events_seen = refl

handle_all-endpoint_example :
    Follows (handle_all count events (made, 0)) (endpoint_all count events (true, 0))
handle_all-endpoint_example =
    handle_all-endpoint count events made 0 true refl (ground arith) (refl, λ h. refl)

close_ends_example : Rests IsDown 0 (
    handle_all count
      (asks_close
        ∷ ((posts (7 ∷ []) ∷ [])
            ++ rings none true post_close_id 1 ∷ (arrives false (1 ∷ []) ∷ [])))
      (made, 0))
close_ends_example =
    close_ends count (posts (7 ∷ []) ∷ []) (arrives false (1 ∷ []) ∷ []) none true 1 made 0

abbrev meters : List Meter
meters = happens (arrives false (1 ∷ 2 ∷ 3 ∷ [])) ∷ reports 500 ∷ reports 2000 ∷ []

timely : AreTimely count meters (made, 0)
unfolding meter get_traffic_rate handle on_receive take_datagram start_receive
timely = ground arith

small : (made.recv_traffic + (meter_all count meters (made, 0)).1) * 1000 < 2 ^ 64
unfolding meter_all meter get_traffic_rate handle on_receive take_datagram start_receive handed_bits
small = omega arith

meter_all-Balances_example : Balances 0 (meter_all count meters (made, 0))
meter_all-Balances_example = meter_all-Balances count meters made 0 timely small
