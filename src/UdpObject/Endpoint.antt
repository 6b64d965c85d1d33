-- ===== src/UdpObject/Endpoint.antt =====
-- What a UDP connection does for its owner, by one flag, and that the object does it.
use mathlib.Core.Path.{subst}
use oven_web_rtctester.Prelude.{
  ℕ, ◌≤◌, ◌≡◌, refl, ap, ◌∙◌, Bool, true, false, not, Option, none, some, List, [], ◌∷◌, ◌++◌,
  if◌then◌else◌, length, All, arith,
}
use oven_web_rtctester.Prelude.Bytes.{Bytes}
use oven_web_rtctester.UdpObject.{
  udp_network_buffer_size, NetworkTimerId, keepalive_send, post_close_id, UdpObject, UdpEffect,
  receives, closes_network, closes_socket, sends, hands, waits, cancels, start_receive, post_close,
  post_close_timer_proc, set_network_timer, on_network_timer, set_keep_alive_send_timer, post_send,
  on_send, take_datagram, on_receive,
}

-- The calls and the completions that a connection sees.
pub data UdpEvent : Type 0 where
  asks_close : UdpEvent
  posts : Bytes → UdpEvent
  keeps_alive : ℕ → UdpEvent
  sent : Bool → ℕ → UdpEvent
  arrives : Bool → Bytes → UdpEvent
  rings : Option Bool → Bool → NetworkTimerId → ℕ → UdpEvent

-- A completed receive has no more bytes than the buffer that boost::asio was given.
abbrev pub IsBuffered : UdpEvent → Type 0
IsBuffered (arrives error packet) = length packet ≤ udp_network_buffer_size
IsBuffered (asks_close) = Unit
IsBuffered (posts packet) = Unit
IsBuffered (keeps_alive interval) = Unit
IsBuffered (sent error size) = Unit
IsBuffered (rings callback error id interval) = Unit

-- The effects that are no matter of timers and of closing the socket.
unfoldable pub visible : List UdpEffect → List UdpEffect
visible [] = []
visible (waits id interval ∷ effects) = visible effects
visible (cancels id ∷ effects) = visible effects
visible (closes_socket ∷ effects) = visible effects
visible (receives ∷ effects) = receives ∷ visible effects
visible (closes_network ∷ effects) = closes_network ∷ visible effects
visible (sends packet ∷ effects) = sends packet ∷ visible effects
visible (hands packet ∷ effects) = hands packet ∷ visible effects

pub visible-append : (xs ys : List UdpEffect) → visible (xs ++ ys) ≡ visible xs ++ visible ys
unfolding visible
visible-append [] ys = refl
visible-append (waits id interval ∷ xs) ys = visible-append xs ys
visible-append (cancels id ∷ xs) ys = visible-append xs ys
visible-append (closes_socket ∷ xs) ys = visible-append xs ys
visible-append (receives ∷ xs) ys = ap (◌∷◌ receives) (visible-append xs ys)
visible-append (closes_network ∷ xs) ys = ap (◌∷◌ closes_network) (visible-append xs ys)
visible-append (sends packet ∷ xs) ys = ap (◌∷◌ (sends packet)) (visible-append xs ys)
visible-append (hands packet ∷ xs) ys = ap (◌∷◌ (hands packet)) (visible-append xs ys)

-- A connection that was created has an open socket until it is closing.
abbrev pub IsUp : UdpObject → Type 0
IsUp u = (u.is_create ≡ true) × (u.is_closeing ≡ false → u.socket_is_open ≡ true)

-- The object does what the endpoint does, and stays up.
abbrev pub Follows {ℓ} :
    {S : Type ℓ} → (UdpObject × S) × List UdpEffect → (Bool × S) × List UdpEffect → Type ℓ
Follows ((u, s), effects) ((open', s'), wanted) =
    IsUp u × (not u.is_closeing ≡ open') × (s ≡ s') × (visible effects ≡ wanted)

module _ {ℓ} {S : Type ℓ} (recv_handler : S → Bytes → S × Bool) where
  unfoldable pub handle : UdpEvent → UdpObject × S → (UdpObject × S) × List UdpEffect
  handle asks_close (u, s) = let (u', effects) = post_close u in ((u', s), effects)
  handle (posts packet) (u, s) = ((u, s), (post_send packet u).0)
  handle (keeps_alive interval) (u, s) =
      let (u', effects) = set_keep_alive_send_timer interval u in ((u', s), effects)
  handle (sent error size) (u, s) = let (u', effects) = on_send error size u in ((u', s), effects)
  handle (arrives error packet) state = on_receive recv_handler error packet state
  handle (rings callback error id interval) (u, s) =
      let (u', effects) = on_network_timer callback error id interval u in ((u', s), effects)

  unfoldable pub handle_all : List UdpEvent → UdpObject × S → (UdpObject × S) × List UdpEffect
  unfolding handle
  handle_all [] state = (state, [])
  handle_all (e ∷ es) state =
      let (state', effects) = handle e state in
      let (state'', more) = handle_all es state' in (state'', effects ++ more)

  -- The description: an endpoint is open or closed for good. Open, it sends what is posted and hands
  -- on what arrives, with the next receive behind it unless the handler closed; its first failure
  -- is reported. Closed, it does nothing.
  abbrev pub endpoint : UdpEvent → Bool × S → (Bool × S) × List UdpEffect
  endpoint e (false, s) = ((false, s), [])
  endpoint asks_close (true, s) = ((false, s), [])
  endpoint (posts packet) (true, s) = ((true, s), sends packet ∷ [])
  endpoint (keeps_alive interval) (true, s) = ((true, s), [])
  endpoint (sent true size) (true, s) = ((false, s), closes_network ∷ [])
  endpoint (sent false size) (true, s) = ((true, s), [])
  endpoint (arrives true packet) (true, s) = ((false, s), closes_network ∷ [])
  endpoint (arrives false packet) (true, s) =
      let (s', closes) = recv_handler s packet in
      ((not closes, s'), hands packet ∷ (if closes then [] else receives ∷ []))
  endpoint (rings callback error id interval) (true, s) = ((true, s), [])

  unfoldable pub endpoint_all : List UdpEvent → Bool × S → (Bool × S) × List UdpEffect
  endpoint_all [] state = (state, [])
  endpoint_all (e ∷ es) state =
      let (state', effects) = endpoint e state in
      let (state'', more) = endpoint_all es state' in (state'', effects ++ more)

  timer_visible :
      (a b : Bool)
      → visible (
          (if a then cancels keepalive_send ∷ [] else [])
          ++ ((if b then cancels post_close_id ∷ [] else []) ++ closes_socket ∷ [])
          ++ [])
        ≡ []
  unfolding visible
  timer_visible true true = refl
  timer_visible true false = refl
  timer_visible false true = refl
  timer_visible false false = refl

  -- an object that is closing does nothing that is visible
  closed-Follows :
      (e : UdpEvent) (u : UdpObject) (s : S)
      → u.is_create ≡ true
      → u.is_closeing ≡ true
      → Follows (handle e (u, s)) ((false, s), [])
  unfolding handle post_close post_send set_keep_alive_send_timer set_network_timer on_send
      on_receive on_network_timer post_close_timer_proc visible
  closed-Follows asks_close u s made closing = ground arith
  closed-Follows (posts packet) u s made closing = ground arith
  closed-Follows (keeps_alive interval) u s made closing = ground arith
  closed-Follows (sent error size) u s made closing = ground arith
  closed-Follows (arrives error packet) u s made closing = ground arith
  closed-Follows (rings callback error keepalive_send interval) u s made closing = ground arith
  closed-Follows (rings callback error post_close_id interval) u s made closing =
      ground (arith, timer_visible u.keep_alive_send_timer u.post_close_timer)

  datagram-Follows :
      (packet : Bytes) (u : UdpObject) (s : S)
      → u.is_create ≡ true
      → u.is_closeing ≡ false
      → u.socket_is_open ≡ true
      → Follows (take_datagram recv_handler packet u s) (endpoint (arrives false packet) (true, s))
  unfolding take_datagram start_receive post_close visible
  datagram-Follows packet u s made going up = ground arith

  open-Follows :
      (e : UdpEvent) (u : UdpObject) (s : S)
      → IsBuffered e
      → u.is_create ≡ true
      → u.is_closeing ≡ false
      → u.socket_is_open ≡ true
      → Follows (handle e (u, s)) (endpoint e (true, s))
  unfolding handle post_close post_send set_keep_alive_send_timer set_network_timer on_send
      on_receive on_network_timer visible
  open-Follows asks_close u s fits made going up = ground arith
  open-Follows (posts packet) u s fits made going up = ground arith
  open-Follows (keeps_alive interval) u s fits made going up = ground arith
  open-Follows (sent true size) u s fits made going up = ground arith
  open-Follows (sent false size) u s fits made going up = ground arith
  open-Follows (arrives true packet) u s fits made going up = ground arith
  open-Follows (arrives false packet) u s fits made going up =
      ground (arith, datagram-Follows packet u s)
  open-Follows (rings callback error post_close_id interval) u s fits made going up = ground arith
  open-Follows (rings none error keepalive_send interval) u s fits made going up = ground arith
  open-Follows (rings (some true) error keepalive_send interval) u s fits made going up =
      ground arith
  open-Follows (rings (some false) error keepalive_send interval) u s fits made going up =
      ground arith

  handle-Follows :
      (e : UdpEvent) (u : UdpObject) (s : S) (is_open : Bool)
      → not u.is_closeing ≡ is_open
      → IsBuffered e
      → IsUp u
      → Follows (handle e (u, s)) (endpoint e (is_open, s))
  handle-Follows e u s true same fits (made, up) =
      let going : u.is_closeing ≡ false = ground arith in
      open-Follows e u s fits made going (up going)
  handle-Follows e u s false same fits (made, up) = closed-Follows e u s made (ground arith)

  -- Whatever the calls and the completions, and however the handler answers, a connection that was
  -- created sends, receives, hands on and reports exactly what the endpoint of one flag does, in the
  -- same order, and its flag and the handler's state stay those of the endpoint, if each completed
  -- receive fits the buffer.
  pub handle_all-endpoint :
      (es : List UdpEvent) (u : UdpObject) (s : S) (is_open : Bool)
      → not u.is_closeing ≡ is_open
      → All IsBuffered es
      → IsUp u
      → Follows (handle_all es (u, s)) (endpoint_all es (is_open, s))
  unfolding handle_all endpoint_all visible
  handle_all-endpoint [] u s is_open same fits up = (up, same, refl, refl)
  handle_all-endpoint (e ∷ es) u s is_open same (fits, more) up =
      let (u', s') = (handle e (u, s)).0 in
      let effects = (handle e (u, s)).1 in
      let (open', s'') = (endpoint e (is_open, s)).0 in
      let (up', same', same_s, seen) = handle-Follows e u s is_open same fits up in
      let rest : Follows (handle_all es (u', s')) (endpoint_all es (open', s'')) =
        subst (λ x. Follows (handle_all es (u', s')) (endpoint_all es (open', x))) same_s
          (handle_all-endpoint es u' s' open' same' more up') in
      (
        rest.0,
        rest.1,
        rest.2,
        visible-append effects (handle_all es (u', s')).1 ∙ rw (seen, rest.3) refl,
      )
