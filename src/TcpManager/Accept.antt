-- ===== src/TcpManager/Accept.antt =====
-- srcs/common/network/engine/tcp_network_manager.cpp: the sockets of the accepting and of the
-- connecting side. A socket is known by a number, the next one is `next_socket`. The field
-- `accept_socket` is `_accept_socket` or, with SSL, `_accept_socket_ssl`: the mode is fixed when the
-- manager is made. boost::asio calls a handler when the operation that is `pending` completes; the
-- error of the operation, the remote address and what the callback answers are arguments. `none` is
-- a call through a null pointer.
pub mod Count
pub mod Sockets
pub mod History
use oven_web_rtctester.Prelude.{
  ℕ, suc, Bool, true, false, Option, none, some, List, [], ◌∷◌, ◌++◌, if◌then◌else◌,
}

pub data Pending : Type 0 where
  idle accepting handshaking : Pending

pub record Acceptor : Type 0 where
  pub is_support_ssl : Bool
  pub is_closeing : Bool
  pub has_acceptor : Bool
  pub accept_socket : Option ℕ
  pub next_socket : ℕ
  pub pending : Pending

pub data Action : Type 0 where
  -- `async_accept` into a new socket
  posts_accept : ℕ → Action
  -- `async_handshake`
  posts_handshake : ℕ → Action
  -- `close` and `delete`
  drops : ℕ → Action
  -- the callback with the socket and its address, and whether it takes the socket
  offers : ℕ → ℕ → ℕ → Bool → Action
  -- the callback of a connection that failed
  reports_fail : Action

abbrev pub drop_socket : Option ℕ → List Action
drop_socket none = []
drop_socket (some s) = drops s ∷ []

-- `PostAccept`; `listens` says whether the port can be bound, when the acceptor is made
abbrev pub accept_next : Acceptor → Acceptor × List Action × Bool
accept_next a = (
  record a {
    has_acceptor = true;
    accept_socket = some a.next_socket;
    next_socket = suc a.next_socket;
    pending = accepting;
  },
  drop_socket a.accept_socket ++ posts_accept a.next_socket ∷ [],
  true,
)

unfoldable pub post_accept : Bool → Acceptor → Acceptor × List Action × Bool
post_accept listens a =
    if a.has_acceptor
    then accept_next a
    else if listens
    then accept_next a
    else (record a { has_acceptor = true }, [], false)

abbrev pub accept_again : Bool → Acceptor → List Action → Acceptor × List Action
accept_again listens a actions = let (a', more, ok) = post_accept listens a in (a', actions ++ more)

-- the socket is dropped and, unless the manager closes, the next one awaited
abbrev pub drop_and_accept : Bool → Acceptor → Acceptor × List Action
drop_and_accept listens a =
    if a.is_closeing
    then (record a { accept_socket = none }, drop_socket a.accept_socket)
    else accept_again listens (record a { accept_socket = none }) (drop_socket a.accept_socket)

-- What the world answers in a handler.
pub record World : Type 0 where
  pub error : Bool
  pub has_callback : Bool
  pub remote_endpoint : Option (ℕ × ℕ)
  pub takes : Bool
  pub listens : Bool

-- the callback, and the next accept behind it
abbrev pub offer : World → ℕ → ℕ × ℕ → Acceptor → Acceptor × List Action
offer w s (ip, port) a =
    accept_again w.listens (record a { accept_socket = none })
      (offers s ip port w.takes ∷ (if w.takes then [] else drops s ∷ []))

abbrev pub offer_socket : World → Acceptor → Option ℕ → Option (Acceptor × List Action)
offer_socket w a none = none
offer_socket w a (some s) = elim w.remote_endpoint [
  | none ↦ some (drop_and_accept w.listens a)
  | some address ↦ some (offer w s address a)
]

unfoldable pub on_accept : World → Acceptor → Option (Acceptor × List Action)
on_accept w a =
    if w.error
    then some (drop_and_accept w.listens a)
    else if a.is_closeing
    then some (a, [])
    else if w.has_callback
    then offer_socket w a a.accept_socket
    else some (record a { accept_socket = none }, drop_socket a.accept_socket)

abbrev pub shake_socket : Acceptor → Option ℕ → Option (Acceptor × List Action)
shake_socket a none = none
shake_socket a (some s) = some (record a { pending = handshaking }, posts_handshake s ∷ [])

unfoldable pub on_accept_ssl : World → Acceptor → Option (Acceptor × List Action)
on_accept_ssl w a =
    if w.error
    then some (drop_and_accept w.listens a)
    else if a.is_closeing
    then some (a, [])
    else shake_socket a a.accept_socket

-- `OnHandshakeSSL` of the accepting side, which does not look whether there is a callback
unfoldable pub on_handshake_ssl : World → Acceptor → Option (Acceptor × List Action)
on_handshake_ssl w a =
    if w.error
    then some (drop_and_accept w.listens a)
    else if a.is_closeing
    then some (a, [])
    else if w.has_callback
    then offer_socket w a a.accept_socket
    else none

-- The completion of what is pending, by the handler it was posted with.
abbrev pub complete_as : World → Acceptor → Pending → Option (Acceptor × List Action)
complete_as w a idle = some (a, [])
complete_as w a accepting = if a.is_support_ssl then on_accept_ssl w a else on_accept w a
complete_as w a handshaking = on_handshake_ssl w a

unfoldable pub complete : World → Acceptor → Option (Acceptor × List Action)
complete w a = complete_as w (record a { pending = idle }) a.pending

-- the flag of `PostRelease`
unfoldable pub post_release : Acceptor → Acceptor
post_release a = record a { is_closeing = true }

-- `OnConnected`, the client's `OnConnectedSSL` and its `OnHandshakeSSL`; the callback is told of a
-- failure, or gets the socket.
unfoldable pub on_connected : Bool → ℕ → ℕ → ℕ → Bool → List Action
on_connected error socket ip port takes =
    if error then drops socket ∷ reports_fail ∷ [] else offers socket ip port takes ∷ []

unfoldable pub on_connected_ssl : Bool → ℕ → Option (List Action)
on_connected_ssl error socket = if error then none else some (posts_handshake socket ∷ [])

unfoldable pub on_handshake_ssl_client : Bool → ℕ → ℕ → ℕ → Bool → List Action
on_handshake_ssl_client error socket ip port takes =
    if error then drops socket ∷ reports_fail ∷ [] else offers socket ip port takes ∷ []
