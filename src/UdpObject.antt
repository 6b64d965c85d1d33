-- ===== src/UdpObject.antt =====
-- srcs/common/network/engine/udp_network_object.cpp: a UDP connection. boost::asio is outside: what
-- the methods ask of it are values of `UdpEffect`, and how an operation ended is an argument of its
-- completion. The handler of the protocol is a parameter that also says whether it called
-- `PostClose`. Traffic counts are of 64 bits, and a gap between reports of 32.
pub mod Endpoint
pub mod Closing
pub mod Rates
mod Tests
use oven_web_rtctester.Prelude.{
  ℕ, ◌+◌, ◌-◌, ◌*◌, ◌/◌, ◌%◌, ◌^◌, Bool, true, false, not, ◌&&◌, ◌||◌, Option, none, some, List, [],
  ◌∷◌, ◌++◌, ltb, if◌then◌else◌, length,
}
use oven_web_rtctester.Prelude.Int.{ℤ}
use oven_web_rtctester.Prelude.Bytes.{Bytes}

-- UDP_NETWORK_BUFFER_SIZE
abbrev pub udp_network_buffer_size : ℕ
udp_network_buffer_size = 8192

-- DEFAULT_NETWORK_POST_CLOSE_TIMER_INTERVAL
abbrev pub post_close_timer_interval : ℕ
post_close_timer_interval = 1

-- The members of `NetworkTimerId` that a UDP connection sets.
pub data NetworkTimerId : Type 0 where
  keepalive_send post_close_id : NetworkTimerId

pub record UdpObject : Type 0 where
  pub udp_index_key : ℤ
  pub udp_remote_ip : ℕ
  pub udp_remote_port : ℕ
  pub is_create : Bool
  pub is_closeing : Bool
  pub socket_is_open : Bool
  pub keep_alive_send_timer : Bool
  pub post_close_timer : Bool
  pub traffic_check_time : ℕ
  pub send_traffic : ℕ
  pub recv_traffic : ℕ

pub data UdpEffect : Type 0 where
  receives closes_network closes_socket : UdpEffect
  sends hands : Bytes → UdpEffect
  waits : NetworkTimerId → ℕ → UdpEffect
  cancels : NetworkTimerId → UdpEffect

unfoldable pub start_receive : UdpObject → List UdpEffect
start_receive u =
    if not u.is_create
    then []
    else if not u.is_closeing && u.socket_is_open
    then receives ∷ []
    else []

-- the key of an object that no manager holds yet stays as it is
unfoldable pub create : ℕ → ℕ → Bool → UdpObject → UdpObject × List UdpEffect × Bool
unfolding start_receive
create remote_ip remote_port is_open u =
    let u' = record u {
      udp_remote_ip = remote_ip;
      udp_remote_port = remote_port;
      socket_is_open = is_open;
      is_create = true;
    } in
    if u.is_create then (u, [], false) else (u', start_receive u', true)

unfoldable pub post_close : UdpObject → UdpObject × List UdpEffect
post_close u = (
  record u { is_closeing = true; post_close_timer = true },
  if u.post_close_timer then [] else waits post_close_id post_close_timer_interval ∷ [],
)

unfoldable pub post_close_timer_proc : UdpObject → UdpObject × List UdpEffect × Bool
post_close_timer_proc u = (
  record u { socket_is_open = false },
  (if u.keep_alive_send_timer then cancels keepalive_send ∷ [] else [])
      ++ ((if u.post_close_timer then cancels post_close_id ∷ [] else []) ++ closes_socket ∷ []),
  true,
)

unfoldable pub set_network_timer : NetworkTimerId → ℕ → UdpObject → List UdpEffect
set_network_timer id interval u = if u.is_closeing then [] else waits id interval ∷ []

-- the timer of a connection that is closing
abbrev pub closing_timer : NetworkTimerId → ℕ → UdpObject → UdpObject × List UdpEffect
closing_timer keepalive_send interval u = (u, [])
closing_timer post_close_id interval u =
    let (u', effects, closed) = post_close_timer_proc u in
    (u', effects ++ (if closed then [] else set_network_timer post_close_id interval u'))

-- the timer of an open connection; `callback` is what `_keepalive_send_callback` answers, if it is
-- set, and the packets it posts are posted by its own calls of `post_send`
abbrev pub open_timer : Option Bool → NetworkTimerId → ℕ → UdpObject → UdpObject × List UdpEffect
open_timer (some false) keepalive_send interval u = (u, [])
open_timer (some true) keepalive_send interval u = (u, set_network_timer keepalive_send interval u)
open_timer none keepalive_send interval u = (u, set_network_timer keepalive_send interval u)
open_timer callback post_close_id interval u = (u, [])

unfoldable pub on_network_timer :
    Option Bool → Bool → NetworkTimerId → ℕ → UdpObject → UdpObject × List UdpEffect
unfolding post_close_timer_proc set_network_timer
on_network_timer callback error id interval u =
    if u.is_closeing
    then closing_timer id interval u
    else if error
    then (u, [])
    else open_timer callback id interval u

unfoldable pub set_keep_alive_send_timer : ℕ → UdpObject → UdpObject × List UdpEffect
unfolding set_network_timer
set_keep_alive_send_timer interval u = (
  record u { keep_alive_send_timer = true },
  (if u.keep_alive_send_timer then cancels keepalive_send ∷ [] else [])
      ++ set_network_timer keepalive_send interval u,
)

unfoldable pub post_send : Bytes → UdpObject → List UdpEffect × Bool
post_send packet u =
    if u.is_closeing
    then ([], false)
    else if not u.is_closeing && u.socket_is_open
    then (sends packet ∷ [], true)
    else ([], true)

-- the first failure of a connection is reported
abbrev pub fail_once : UdpObject → UdpObject × List UdpEffect
fail_once u =
    if u.is_closeing then (u, []) else (record u { is_closeing = true }, closes_network ∷ [])

abbrev pub count_bits : ℕ → ℕ → ℕ
count_bits traffic size = (traffic + size * 8) % 2 ^ 64

unfoldable pub on_send : Bool → ℕ → UdpObject → UdpObject × List UdpEffect
on_send error size u =
    if error then fail_once u else (record u { send_traffic = count_bits u.send_traffic size }, [])

abbrev pub closed_by : Bool → UdpObject → UdpObject × List UdpEffect
closed_by false u = (u, [])
closed_by true u = post_close u

-- `GetTrafficRate`, with the two rates where its result is true; a rate is the double of an integer
unfoldable pub get_traffic_rate : ℕ → UdpObject → UdpObject × Option (ℕ × ℕ)
get_traffic_rate current_time u =
    let check_gap = (current_time + (2 ^ 64 - u.traffic_check_time)) % 2 ^ 32 in
    if ltb check_gap 1000 then (u, none) else (
      record u { traffic_check_time = current_time; send_traffic = 0; recv_traffic = 0 },
      some (u.send_traffic / check_gap * 1000 % 2 ^ 64, u.recv_traffic / check_gap * 1000 % 2 ^ 64),
    )

module _ {ℓ} {S : Type ℓ} (recv_handler : S → Bytes → S × Bool) where
  unfoldable pub take_datagram : Bytes → UdpObject → S → (UdpObject × S) × List UdpEffect
  unfolding post_close start_receive
  take_datagram packet u s =
      let (s', closes) = recv_handler s packet in
      let counted = record u { recv_traffic = count_bits u.recv_traffic (length packet) } in
      let (u', effects) = closed_by closes counted in
      ((u', s'), hands packet ∷ (effects ++ start_receive u'))

  unfoldable pub on_receive : Bool → Bytes → UdpObject × S → (UdpObject × S) × List UdpEffect
  unfolding take_datagram
  on_receive error packet (u, s) =
      let (failed, effects) = fail_once u in
      if error
      then ((failed, s), effects)
      else if u.is_closeing
      then ((u, s), [])
      else if ltb udp_network_buffer_size (length packet)
      then ((u, s), [])
      else take_datagram packet u s
