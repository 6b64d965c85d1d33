-- ===== src/TcpObject/Tests.antt =====
-- Tests and instances for the TCP connection.
use oven_web_rtctester.Prelude.{
  ℕ, ◌+◌, ◌≡◌, ◌≤◌, refl, true, false, ◌||◌, none, List, [], ◌∷◌, ◌++◌, drop, arith,
}
use oven_web_rtctester.Prelude.Int.{ℤ, pos}
use oven_web_rtctester.Prelude.Bytes.{Bytes}
use oven_web_rtctester.TcpObject.{
  reads, TcpObject, writes, closes_network, post_send, on_send, on_receive,
}
use oven_web_rtctester.TcpObject.Order.{Event, posts, ends, handle_all, handle_all-order}
use oven_web_rtctester.TcpObject.Buffer.{receive_all, taken_all, join, receive_all-join}
use oven_web_rtctester.TcpObject.Close.{flag, closes}
use oven_web_rtctester.TcpObject.Timers.{
  close_id, start, post_close_id, TcpLink, performs, waits, cancels, closes_socket, post_close,
  set_network_timer, set_close_timer, close_timer_proc, post_close_timer_proc, on_network_timer,
  perform, link_post_send, link_on_send,
}
use oven_web_rtctester.TcpObject.Shutdown
use oven_web_rtctester.TcpObject.Shutdown.{
  LinkEvent, starts, asks_close, posts as posts_packet, rings, performed, link_closes_once,
}
use oven_web_rtctester.TcpObject.Ending.{IsDown, Rests, post_close_ends}

abbrev new_object : TcpObject
new_object = record {
  is_closing = false;
  network_error = false;
  send_complete_close = false;
  max_send_data_size = 0;
  send_datas = [];
  rest_data = [];
}

abbrev events : List Event
events = posts (1 ∷ []) ∷ posts (2 ∷ []) ∷ posts [] ∷ ends false ∷ posts (3 ∷ []) ∷ []

-- takes pairs of bytes; the state counts the calls
abbrev pairs : ℕ → Bytes → ℕ × ℤ
pairs n [] = (n + 1, pos 0)
pairs n (x ∷ []) = (n + 1, pos 0)
pairs n (x ∷ y ∷ rest) = (n + 1, pos 2)

handle_all-order_example :
    drop 1 new_object.send_datas ++ (handle_all events new_object).1
    ≡ (handle_all events new_object).2 ++ drop 1 (handle_all events new_object).0.send_datas
handle_all-order_example = handle_all-order events new_object

stays_up :
    ((receive_all pairs ((7 ∷ []) ∷ (8 ∷ 9 ∷ []) ∷ []) (new_object, 0)).0.is_closing ≡ false)
    × ((receive_all pairs ((7 ∷ []) ∷ (8 ∷ 9 ∷ []) ∷ []) (new_object, 0)).0.network_error ≡ false)
unfolding receive_all on_receive
stays_up = (refl, refl)

up :
    ((receive_all pairs ((7 ∷ []) ∷ (8 ∷ 9 ∷ []) ∷ []) (new_object, 0)).0.is_closing
      || (receive_all pairs ((7 ∷ []) ∷ (8 ∷ 9 ∷ []) ∷ []) (new_object, 0)).0.network_error)
    ≡ false
up = rw (stays_up.0, stays_up.1) refl

receive_all-join_example :
    taken_all pairs ((7 ∷ []) ∷ (8 ∷ 9 ∷ []) ∷ []) (new_object, 0)
      ++ (receive_all pairs ((7 ∷ []) ∷ (8 ∷ 9 ∷ []) ∷ []) (new_object, 0)).0.rest_data
    ≡ [] ++ join ((7 ∷ []) ∷ (8 ∷ 9 ∷ []) ∷ [])
receive_all-join_example = receive_all-join pairs ((7 ∷ []) ∷ (8 ∷ 9 ∷ []) ∷ []) new_object 0 up

abbrev link : TcpLink
link = record {
  tcp = record new_object { send_complete_close = true };
  socket_is_open = true;
  keep_alive_send_timer = false;
  keepalive_check_timer = false;
  close_timer = false;
  post_close_timer = false;
  post_close_time_interval = 1;
}

-- a packet, its end, the close timer that it sets, and the end that the timer reports
abbrev farewell : List LinkEvent
farewell =
    starts
    ∷ posts_packet (5 ∷ [])
    ∷ Shutdown.ends false
    ∷ rings none false close_id 50
    ∷ asks_close
    ∷ rings none true post_close_id 1
    ∷ []

farewell_effects :
    (Shutdown.handle_all pairs farewell (link, 0)).1
    ≡ performs reads
      ∷ performs (writes (5 ∷ []))
      ∷ waits close_id 50
      ∷ performs closes_network
      ∷ waits post_close_id 1
      ∷ cancels close_id
      ∷ cancels post_close_id
      ∷ closes_socket
      ∷ []
unfolding Shutdown.handle_all Shutdown.handle start link_post_send link_on_send post_send on_send
    perform set_close_timer set_network_timer on_network_timer close_timer_proc post_close
    post_close_timer_proc
farewell_effects = refl

link_closes_once_example :
    flag false + closes (performed (Shutdown.handle_all pairs farewell (link, 0)).1) ≤ 1
link_closes_once_example = link_closes_once pairs farewell link 0

post_close_ends_example : Rests IsDown 0 (
    Shutdown.handle_all pairs
      (asks_close
        ∷ ((posts_packet (5 ∷ []) ∷ [])
            ++ rings none true post_close_id 1 ∷ (starts ∷ Shutdown.ends false ∷ [])))
      (link, 0))
post_close_ends_example =
    post_close_ends pairs (posts_packet (5 ∷ []) ∷ []) (starts ∷ Shutdown.ends false ∷ []) none true
      1 link 0 (ground arith)
