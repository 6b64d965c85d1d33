-- ===== src/UdpManager/Tests.antt =====
-- Tests and instances for the table of UDP connections.
use oven_web_rtctester.Prelude.{◌≡◌, refl, true, [], ◌∷◌}
use oven_web_rtctester.Prelude.Int.{pos}
use oven_web_rtctester.Prelude.Map.{lookup, insert}
use oven_web_rtctester.TcpManager.{wrapped_key, next_key}
use oven_web_rtctester.UdpObject.{
  set_keep_alive_send_timer, set_network_timer, create, start_receive, keepalive_send, receives,
  waits,
}
use oven_web_rtctester.UdpManager.{
  UdpManager, new_udp_object, put_object, insert_udp_object, connect_add, is_udp_connected,
  find_udp_index_key,
}

abbrev empty : UdpManager
empty = record { udp_index = 0; udp_max_createing_count = 0; udp_network_info_map = [] }

abbrev two : UdpManager
two = record {
  udp_index = 2;
  udp_max_createing_count = 2;
  udp_network_info_map = (pos 0, new_udp_object 0) ∷ (pos 1, new_udp_object 0) ∷ [];
}

added : (connect_add 5 10 20 empty).2 ≡ pos 0
unfolding connect_add create put_object insert_udp_object next_key wrapped_key lookup start_receive
added = refl

asked : (connect_add 5 10 20 empty).1 ≡ receives ∷ waits keepalive_send 1000 ∷ []
unfolding connect_add create start_receive set_keep_alive_send_timer set_network_timer
asked = refl

connected : is_udp_connected 10 20 (connect_add 5 10 20 empty).0 ≡ true
unfolding connect_add create put_object insert_udp_object next_key wrapped_key lookup insert
    set_keep_alive_send_timer is_udp_connected find_udp_index_key
connected = refl
