-- ===== src/UdpManager.antt =====
-- srcs/common/network/engine/udp_network_manager.cpp: the table of UDP connections, with the
-- connections themselves, and srcs/ome_stream/ome_stream_map.cpp, which makes a connection and puts it
-- in. A connection that is taken out is given back with what its `PostClose` asks for. Each method
-- holds the mutex of the map. A key is searched for as the TCP manager does it, word for word.
pub mod Removal
pub mod Traffic
pub mod Insertion
mod Tests
use oven_web_rtctester.Prelude.{
  ℕ, suc, ◌+◌, ◌%◌, ◌^◌, Bool, true, false, not, ◌&&◌, Option, none, some, List, [], ◌∷◌, ◌++◌, ltb,
  ◌==◌, if◌then◌else◌, length,
}
use oven_web_rtctester.Prelude.Int.{ℤ, pos, minus_one, eqb_ℤ}
use oven_web_rtctester.Prelude.Map.{Map, lookup, insert, erase}
use oven_web_rtctester.TcpManager.{wrapped_key, next_key}
use oven_web_rtctester.UdpObject.{
  UdpObject, UdpEffect, create, post_close, set_keep_alive_send_timer, get_traffic_rate,
}

pub record UdpManager : Type 0 where
  pub udp_index : ℕ
  pub udp_max_createing_count : ℕ
  pub udp_network_info_map : Map UdpObject

unfoldable pub put_object : UdpObject → ℕ → UdpManager → UdpManager
put_object u key m =
    let map = insert (pos key) (record u { udp_index_key = pos key }) m.udp_network_info_map in
    record {
      udp_index = suc key;
      udp_max_createing_count =
          if ltb m.udp_max_createing_count (length map)
          then length map
          else m.udp_max_createing_count;
      udp_network_info_map = map;
    }

abbrev pub put_if_free : UdpObject → ℕ → UdpManager → Option UdpObject → UdpManager × ℤ
put_if_free u key m none = (put_object u key m, pos key)
put_if_free u key m (some other) = (record m { udp_index = key }, minus_one)

unfoldable pub insert_udp_object : Option UdpObject → UdpManager → UdpManager × ℤ
insert_udp_object none m = (m, minus_one)
insert_udp_object (some u) m =
    let key = next_key (wrapped_key m.udp_index) m.udp_network_info_map in
    put_if_free u key m (lookup (pos key) m.udp_network_info_map)

-- `FindIndexKey`, with the key where its result is true
unfoldable pub find_udp_index_key : ℕ → ℕ → Map UdpObject → Option ℤ
find_udp_index_key ip port [] = none
find_udp_index_key ip port ((key, u) ∷ m) =
    if u.udp_remote_ip == ip && u.udp_remote_port == port
    then some u.udp_index_key
    else find_udp_index_key ip port m

abbrev pub is_key : Option ℤ → Bool
is_key none = false
is_key (some key) = not (eqb_ℤ key minus_one)

unfoldable pub is_udp_connected : ℕ → ℕ → UdpManager → Bool
unfolding find_udp_index_key
is_udp_connected ip port m = is_key (find_udp_index_key ip port m.udp_network_info_map)

-- `Find` that takes the entry out, and `PostClose` of what it found
abbrev pub close_taken : Option UdpObject → Option (UdpObject × List UdpEffect)
close_taken none = none
close_taken (some u) = some (post_close u)

unfoldable pub remove_udp_object : ℤ → UdpManager → UdpManager × Option (UdpObject × List UdpEffect)
remove_udp_object key m = (
  record m { udp_network_info_map = erase key m.udp_network_info_map },
  close_taken (lookup key m.udp_network_info_map),
)

abbrev pub add_closed {ℓ} : {A : Type ℓ} → Option A → List A → List A
add_closed none closed = closed
add_closed (some one) closed = one ∷ closed

-- `Remove` of a list of keys
unfoldable pub remove_udp_objects :
    List ℤ → UdpManager → UdpManager × List (UdpObject × List UdpEffect)
unfolding remove_udp_object
remove_udp_objects [] m = (m, [])
remove_udp_objects (key ∷ keys) m =
    let (m', closed) = remove_udp_object key m in
    let (m'', more) = remove_udp_objects keys m' in (m'', add_closed closed more)

-- No object is asked to close.
unfoldable pub remove_all_udp : UdpManager → UdpManager
remove_all_udp m = record m { udp_network_info_map = [] }

unfoldable pub get_udp_count : UdpManager → ℕ
get_udp_count m = length m.udp_network_info_map

abbrev pub add_rates : ℕ → Option (ℕ × ℕ) → ℕ
add_rates rate none = rate
add_rates rate (some (send_bitrate, recv_bitrate)) = (rate + (send_bitrate + recv_bitrate)) % 2 ^ 64

-- the loop of `GetTotalTrafficRate`, which starts from 0
unfoldable pub total_traffic_rate : ℕ → Map UdpObject → ℕ → Map UdpObject × ℕ
total_traffic_rate now [] rate = ([], rate)
total_traffic_rate now ((key, u) ∷ m) rate =
    let (u', rates) = get_traffic_rate now u in
    let (m', total) = total_traffic_rate now m (add_rates rate rates) in ((key, u') ∷ m', total)

-- an object as its constructor leaves it
abbrev pub new_udp_object : ℕ → UdpObject
new_udp_object now = record {
  udp_index_key = minus_one;
  udp_remote_ip = 0;
  udp_remote_port = 0;
  is_create = false;
  is_closeing = false;
  socket_is_open = false;
  keep_alive_send_timer = false;
  post_close_timer = false;
  traffic_check_time = now;
  send_traffic = 0;
  recv_traffic = 0;
}

-- `OmeStreamObject::Create`: the base's, then the timer of the binding requests
abbrev pub create_ome : ℕ → ℕ → UdpObject → UdpObject × List UdpEffect × Bool
create_ome remote_ip remote_port u =
    let (u', effects, created) = create remote_ip remote_port true u in
    let (u'', more) = set_keep_alive_send_timer 1000 u' in
    if created then (u'', effects ++ more, true) else (u', effects, false)

-- `ConnectAdd`, for a socket that boost::asio could make, with what `Create` asks for
unfoldable pub connect_add : ℕ → ℕ → ℕ → UdpManager → UdpManager × List UdpEffect × ℤ × Bool
unfolding insert_udp_object
connect_add now remote_ip remote_port m =
    let (u, effects, created) = create_ome remote_ip remote_port (new_udp_object now) in
    let (m', key) = insert_udp_object (some u) m in
    if created then (m', effects, key, not (eqb_ℤ key minus_one)) else (m, [], minus_one, false)
