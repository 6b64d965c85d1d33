-- ===== src/TcpObject/Timers.antt =====
-- The timers of a TCP connection, its start and its end: the rest of tcp_network_object.cpp. The plain
-- and the encrypted socket are treated alike. What is asked of the timers and the socket are values
-- of `LinkEffect`, beside the effects of sending and receiving.
use oven_web_rtctester.Prelude.{
  ℕ, Bool, true, false, not, Option, none, some, List, [], ◌∷◌, ◌++◌, map, if◌then◌else◌,
}
use oven_web_rtctester.Prelude.Int.{ℤ}
use oven_web_rtctester.Prelude.Bytes.{Bytes}
use oven_web_rtctester.TcpObject.{
  TcpObject, Effect, writes, reads, closes_network, sets_close_timer, close_once, post_send,
  on_send, on_receive,
}

-- The members of `NetworkTimerId` that a TCP connection sets.
pub data TimerId : Type 0 where
  keepalive_send keepalive_check close_id post_close_id : TimerId

pub record TcpLink : Type 0 where
  pub tcp : TcpObject
  pub socket_is_open : Bool
  pub keep_alive_send_timer : Bool
  pub keepalive_check_timer : Bool
  pub close_timer : Bool
  pub post_close_timer : Bool
  pub post_close_time_interval : ℕ

pub data LinkEffect : Type 0 where
  performs : Effect → LinkEffect
  waits : TimerId → ℕ → LinkEffect
  cancels : TimerId → LinkEffect
  closes_socket : LinkEffect

-- DEFAULT_NETWORK_CLOSE_TIMER_INTERVAL
abbrev pub close_timer_interval : ℕ
close_timer_interval = 50

-- `Create`: whether a socket of the kind that is asked for is given, and whether the address of its
-- other end can be read
unfoldable pub create : Bool → Bool → TcpLink → Option TcpLink
create has_socket has_endpoint l =
    if not has_socket
    then none
    else if not has_endpoint
    then none
    else some (record l { socket_is_open = true })

unfoldable pub start : TcpLink → List LinkEffect × Bool
start l = if not l.socket_is_open then ([], false) else (performs reads ∷ [], true)

unfoldable pub post_close : TcpLink → TcpLink × List LinkEffect
post_close l = (
  record l { tcp = record (l.tcp) { is_closing = true }; post_close_timer = true },
  if l.post_close_timer then [] else waits post_close_id l.post_close_time_interval ∷ [],
)

unfoldable pub set_network_timer : TimerId → ℕ → TcpLink → List LinkEffect
set_network_timer id interval l = if l.tcp.is_closing then [] else waits id interval ∷ []

abbrev pub cancel_if : Bool → TimerId → List LinkEffect
cancel_if false id = []
cancel_if true id = cancels id ∷ []

unfoldable pub set_keep_alive_send_timer : ℕ → TcpLink → TcpLink × List LinkEffect
unfolding set_network_timer
set_keep_alive_send_timer interval l = (
  record l { keep_alive_send_timer = true },
  cancel_if l.keep_alive_send_timer keepalive_send ++ set_network_timer keepalive_send interval l,
)

unfoldable pub set_keep_alive_check_timer : ℕ → TcpLink → TcpLink × List LinkEffect
unfolding set_network_timer
set_keep_alive_check_timer interval l = (
  record l { keepalive_check_timer = true },
  cancel_if l.keepalive_check_timer keepalive_check ++ set_network_timer keepalive_check interval l,
)

unfoldable pub set_close_timer : TcpLink → TcpLink × List LinkEffect
unfolding set_network_timer
set_close_timer l = (
  record l { close_timer = true },
  cancel_if l.close_timer close_id ++ set_network_timer close_id close_timer_interval l,
)

unfoldable pub close_timer_proc : TcpLink → TcpLink × List LinkEffect
close_timer_proc l =
    let (t, effects) = close_once l.tcp in (record l { tcp = t }, map performs effects)

-- the answer is always true
unfoldable pub post_close_timer_proc : TcpLink → TcpLink × List LinkEffect × Bool
post_close_timer_proc l = (
  record l { socket_is_open = false },
  cancel_if l.keep_alive_send_timer keepalive_send
      ++ (cancel_if l.keepalive_check_timer keepalive_check
          ++ (cancel_if l.close_timer close_id
              ++ (cancel_if l.post_close_timer post_close_id ++ closes_socket ∷ []))),
  true,
)

abbrev pub closing_ring : TimerId → ℕ → TcpLink → TcpLink × List LinkEffect
closing_ring post_close_id interval l =
    let (l', effects, closed) = post_close_timer_proc l in
    (l', effects ++ (if closed then [] else set_network_timer post_close_id interval l'))
closing_ring keepalive_send interval l = (l, [])
closing_ring keepalive_check interval l = (l, [])
closing_ring close_id interval l = (l, [])

-- a timer that is set again unless its callback, if there is one, answers false
abbrev pub repeats : Option Bool → TimerId → ℕ → TcpLink → TcpLink × List LinkEffect
repeats (some false) id interval l = (l, [])
repeats (some true) id interval l = (l, set_network_timer id interval l)
repeats none id interval l = (l, set_network_timer id interval l)

abbrev pub open_ring : Option Bool → TimerId → ℕ → TcpLink → TcpLink × List LinkEffect
open_ring callback keepalive_send interval l = repeats callback keepalive_send interval l
open_ring callback keepalive_check interval l = repeats callback keepalive_check interval l
open_ring callback close_id interval l = close_timer_proc l
open_ring callback post_close_id interval l = (l, [])

unfoldable pub on_network_timer :
    Option Bool → Bool → TimerId → ℕ → TcpLink → TcpLink × List LinkEffect
unfolding post_close_timer_proc close_timer_proc set_network_timer
on_network_timer callback error id interval l =
    if l.tcp.is_closing
    then closing_ring id interval l
    else if error
    then (l, [])
    else open_ring callback id interval l

-- what sending and receiving ask for: the close timer is set by the connection itself
unfoldable pub perform : List Effect → TcpLink → TcpLink × List LinkEffect
unfolding set_close_timer
perform [] l = (l, [])
perform (sets_close_timer ∷ effects) l =
    let (l', first) = set_close_timer l in
    let (l'', rest) = perform effects l' in (l'', first ++ rest)
perform (writes packet ∷ effects) l =
    let (l', rest) = perform effects l in (l', performs (writes packet) ∷ rest)
perform (reads ∷ effects) l = let (l', rest) = perform effects l in (l', performs reads ∷ rest)
perform (closes_network ∷ effects) l =
    let (l', rest) = perform effects l in (l', performs closes_network ∷ rest)

unfoldable pub link_post_send : Bytes → TcpLink → TcpLink × List LinkEffect × Bool
unfolding perform post_send
link_post_send packet l =
    let (t, effects, accepted) = post_send l.socket_is_open packet l.tcp in
    let (l', asked) = perform effects (record l { tcp = t }) in (l', asked, accepted)

unfoldable pub link_on_send : Bool → TcpLink → TcpLink × List LinkEffect
unfolding perform on_send
link_on_send error l =
    let (t, effects) = on_send l.socket_is_open error l.tcp in
    perform effects (record l { tcp = t })

module _ {ℓ} {S : Type ℓ} (recv_handler : S → Bytes → S × ℤ) where
  unfoldable pub link_on_receive : Bool → Bytes → TcpLink × S → (TcpLink × S) × List LinkEffect
  unfolding perform on_receive
  link_on_receive error chunk (l, s) =
      let ((t, s'), effects) = on_receive recv_handler l.socket_is_open error chunk (l.tcp, s) in
      let (l', asked) = perform effects (record l { tcp = t }) in ((l', s'), asked)
