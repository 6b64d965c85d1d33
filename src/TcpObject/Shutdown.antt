-- ===== src/TcpObject/Shutdown.antt =====
-- The end of a TCP connection with its timers.
use oven_web_rtctester.Prelude.{
  ℕ, suc, ◌+◌, ◌≤◌, ◌≡◌, refl, ap, ◌∙◌, Bool, true, false, Option, none, some, List, [], ◌∷◌, ◌++◌,
  arith,
}
use oven_web_rtctester.Prelude.Int.{ℤ}
use oven_web_rtctester.Prelude.Bytes.{Bytes}
use oven_web_rtctester.TcpObject.{
  TcpObject, Effect, writes, reads, closes_network, sets_close_timer, post_send, on_send,
  on_receive,
}
use oven_web_rtctester.TcpObject.Close.{
  closes, flag, Reports, post-Reports, send-Reports, receive-Reports,
}
use oven_web_rtctester.TcpObject.Timers.{
  TimerId, keepalive_send, keepalive_check, close_id, post_close_id, TcpLink, LinkEffect, performs,
  start, waits, cancels, closes_socket, post_close, set_network_timer, cancel_if,
  set_keep_alive_send_timer, set_keep_alive_check_timer, set_close_timer, close_timer_proc,
  post_close_timer_proc, on_network_timer, perform, link_post_send, link_on_send, link_on_receive,
}

-- The calls and the completions that a connection sees.
pub data LinkEvent : Type 0 where
  starts asks_close : LinkEvent
  posts : Bytes → LinkEvent
  keeps_sending keeps_checking : ℕ → LinkEvent
  ends : Bool → LinkEvent
  receives : Bool → Bytes → LinkEvent
  rings : Option Bool → Bool → TimerId → ℕ → LinkEvent

-- What is written, read and reported.
unfoldable pub performed : List LinkEffect → List Effect
performed [] = []
performed (performs effect ∷ effects) = effect ∷ performed effects
performed (waits id interval ∷ effects) = performed effects
performed (cancels id ∷ effects) = performed effects
performed (closes_socket ∷ effects) = performed effects

pub performed-append :
    (xs ys : List LinkEffect) → performed (xs ++ ys) ≡ performed xs ++ performed ys
unfolding performed
performed-append [] ys = refl
performed-append (performs effect ∷ xs) ys = ap (◌∷◌ effect) (performed-append xs ys)
performed-append (waits id interval ∷ xs) ys = performed-append xs ys
performed-append (cancels id ∷ xs) ys = performed-append xs ys
performed-append (closes_socket ∷ xs) ys = performed-append xs ys

closes-append : (xs ys : List Effect) → closes (xs ++ ys) ≡ closes xs + closes ys
closes-append [] ys = omega arith
closes-append (closes_network ∷ xs) ys = omega (arith, closes-append xs ys)
closes-append (writes packet ∷ xs) ys = closes-append xs ys
closes-append (reads ∷ xs) ys = closes-append xs ys
closes-append (sets_close_timer ∷ xs) ys = closes-append xs ys

performed-cancel_if :
    (b : Bool) (id : TimerId) (rest : List LinkEffect)
    → performed (cancel_if b id ++ rest) ≡ performed rest
unfolding performed
performed-cancel_if true id rest = refl
performed-cancel_if false id rest = refl

pub performed-set_network_timer :
    (id : TimerId) (interval : ℕ) (l : TcpLink) → performed (set_network_timer id interval l) ≡ []
unfolding performed set_network_timer
performed-set_network_timer id interval l = ground arith

performed-set_close_timer :
    (l : TcpLink) (rest : List LinkEffect)
    → performed ((set_close_timer l).1 ++ rest) ≡ performed rest
unfolding set_close_timer
performed-set_close_timer l rest =
    performed-append (cancel_if l.close_timer close_id ++ set_network_timer close_id 50 l) rest
    ∙ ap (λ x. x ++ performed rest)
        (performed-cancel_if l.close_timer close_id (set_network_timer close_id 50 l)
          ∙ performed-set_network_timer close_id 50 l)

-- Performing changes only the close timer, and reports what it is given.
perform-closes :
    (effects : List Effect) (l : TcpLink)
    → ((perform effects l).0.tcp ≡ l.tcp)
      × (closes (performed (perform effects l).1) ≡ closes effects)
unfolding perform performed set_close_timer
perform-closes [] l = (refl, refl)
perform-closes (sets_close_timer ∷ effects) l =
    let l' = (set_close_timer l).0 in
    let (same, count) = perform-closes effects l' in
    (same, ap closes (performed-set_close_timer l (perform effects l').1) ∙ count)
perform-closes (writes packet ∷ effects) l = perform-closes effects l
perform-closes (reads ∷ effects) l = perform-closes effects l
perform-closes (closes_network ∷ effects) l =
    let (same, count) = perform-closes effects l in (same, ap suc count)

-- The end is reported at most as the connection becomes closing.
abbrev pub LinkReports : TcpLink → TcpLink × List LinkEffect → Type 0
LinkReports l (l', effects) =
    flag l.tcp.is_closing + closes (performed effects) ≤ flag l'.tcp.is_closing

-- what is performed for a connection whose new state reports
perform-LinkReports :
    (l : TcpLink) (t : TcpObject) (effects : List Effect)
    → Reports l.tcp t effects
    → LinkReports l (perform effects (record l { tcp = t }))
perform-LinkReports l t effects h =
    let (same, count) = perform-closes effects (record l { tcp = t }) in
    omega (arith, h, count, ap (λ x. flag x.is_closing) same)

pub timer_performs :
    (b : Bool) (id : TimerId) (interval : ℕ) (l : TcpLink)
    → performed (cancel_if b id ++ set_network_timer id interval l) ≡ []
timer_performs b id interval l =
    performed-cancel_if b id (set_network_timer id interval l)
    ∙ performed-set_network_timer id interval l

start-LinkReports : (l : TcpLink) → LinkReports l (l, (start l).0)
unfolding start performed
start-LinkReports l = ground arith

post_close-LinkReports : (l : TcpLink) → LinkReports l (post_close l)
unfolding post_close performed
post_close-LinkReports l = ground arith

close_timer_proc-LinkReports : (l : TcpLink) → LinkReports l (close_timer_proc l)
unfolding close_timer_proc performed
close_timer_proc-LinkReports l = ground arith

-- the ring that closes the socket
pub socket_performs : (l : TcpLink) → performed ((post_close_timer_proc l).1 ++ []) ≡ []
unfolding post_close_timer_proc performed
socket_performs l =
    performed-append (post_close_timer_proc l).1 []
    ∙ rw
        (
          performed-cancel_if l.keep_alive_send_timer keepalive_send (
              cancel_if l.keepalive_check_timer keepalive_check
              ++ (cancel_if l.close_timer close_id
                  ++ (cancel_if l.post_close_timer post_close_id ++ closes_socket ∷ []))),
          performed-cancel_if l.keepalive_check_timer keepalive_check (
              cancel_if l.close_timer close_id
              ++ (cancel_if l.post_close_timer post_close_id ++ closes_socket ∷ [])),
          performed-cancel_if l.close_timer close_id
              (cancel_if l.post_close_timer post_close_id ++ closes_socket ∷ []),
          performed-cancel_if l.post_close_timer post_close_id (closes_socket ∷ []),
        )
        refl

rings-LinkReports :
    (callback : Option Bool) (error : Bool) (id : TimerId) (interval : ℕ) (l : TcpLink)
    → LinkReports l (on_network_timer callback error id interval l)
unfolding on_network_timer post_close_timer_proc performed
rings-LinkReports callback error post_close_id interval l =
    ground (arith, ap closes (socket_performs l))
rings-LinkReports callback error close_id interval l =
    ground (arith, close_timer_proc-LinkReports l)
rings-LinkReports none error keepalive_send interval l =
    ground (arith, ap closes (performed-set_network_timer keepalive_send interval l))
rings-LinkReports (some true) error keepalive_send interval l =
    ground (arith, ap closes (performed-set_network_timer keepalive_send interval l))
rings-LinkReports (some false) error keepalive_send interval l = ground arith
rings-LinkReports none error keepalive_check interval l =
    ground (arith, ap closes (performed-set_network_timer keepalive_check interval l))
rings-LinkReports (some true) error keepalive_check interval l =
    ground (arith, ap closes (performed-set_network_timer keepalive_check interval l))
rings-LinkReports (some false) error keepalive_check interval l = ground arith

module _ {ℓ} {S : Type ℓ} (recv_handler : S → Bytes → S × ℤ) where
  unfoldable pub handle : LinkEvent → TcpLink × S → (TcpLink × S) × List LinkEffect
  unfolding start post_close link_post_send set_keep_alive_send_timer set_keep_alive_check_timer
      link_on_send on_network_timer link_on_receive
  handle starts (l, s) = ((l, s), (start l).0)
  handle asks_close (l, s) = let (l', effects) = post_close l in ((l', s), effects)
  handle (posts packet) (l, s) =
      let (l', effects, accepted) = link_post_send packet l in ((l', s), effects)
  handle (keeps_sending interval) (l, s) =
      let (l', effects) = set_keep_alive_send_timer interval l in ((l', s), effects)
  handle (keeps_checking interval) (l, s) =
      let (l', effects) = set_keep_alive_check_timer interval l in ((l', s), effects)
  handle (ends error) (l, s) = let (l', effects) = link_on_send error l in ((l', s), effects)
  handle (receives error chunk) state = link_on_receive recv_handler error chunk state
  handle (rings callback error id interval) (l, s) =
      let (l', effects) = on_network_timer callback error id interval l in ((l', s), effects)

  unfoldable pub handle_all : List LinkEvent → TcpLink × S → (TcpLink × S) × List LinkEffect
  unfolding handle
  handle_all [] state = (state, [])
  handle_all (e ∷ es) state =
      let (state', effects) = handle e state in
      let (state'', more) = handle_all es state' in (state'', effects ++ more)

  handle-LinkReports :
      (e : LinkEvent) (l : TcpLink) (s : S)
      → LinkReports l ((handle e (l, s)).0.0, (handle e (l, s)).1)
  unfolding handle link_post_send link_on_send link_on_receive set_keep_alive_send_timer
      set_keep_alive_check_timer
  handle-LinkReports starts l s = start-LinkReports l
  handle-LinkReports asks_close l s = post_close-LinkReports l
  handle-LinkReports (posts packet) l s =
      perform-LinkReports l (post_send l.socket_is_open packet l.tcp).0
        (post_send l.socket_is_open packet l.tcp).1 (post-Reports l.socket_is_open packet l.tcp)
  handle-LinkReports (keeps_sending interval) l s =
      omega (arith, ap closes (timer_performs l.keep_alive_send_timer keepalive_send interval l))
  handle-LinkReports (keeps_checking interval) l s =
      omega (arith, ap closes (timer_performs l.keepalive_check_timer keepalive_check interval l))
  handle-LinkReports (ends error) l s =
      perform-LinkReports l (on_send l.socket_is_open error l.tcp).0
        (on_send l.socket_is_open error l.tcp).1 (send-Reports l.socket_is_open error l.tcp)
  handle-LinkReports (receives error chunk) l s =
      let ((t, s'), effects) = on_receive recv_handler l.socket_is_open error chunk (l.tcp, s) in
      perform-LinkReports l t effects
        (receive-Reports recv_handler l.socket_is_open error chunk l.tcp s)
  handle-LinkReports (rings callback error id interval) l s =
      rings-LinkReports callback error id interval l

  -- However starts, posts, completions, rings of the timers and a `PostClose` follow each other, and however
  -- they fail, the end of the connection is reported at most once, and not at all once it is closing.
  pub link_closes_once :
      (es : List LinkEvent) (l : TcpLink) (s : S)
      → flag l.tcp.is_closing + closes (performed (handle_all es (l, s)).1) ≤ 1
  unfolding handle_all performed
  link_closes_once [] l s = ground arith
  link_closes_once (e ∷ es) l s =
      let ((l', s'), effects) = handle e (l, s) in
      let more = (handle_all es (l', s')).1 in
      omega (
        arith,
        handle-LinkReports e l s,
        link_closes_once es l' s',
        ap closes (performed-append effects more),
        closes-append (performed effects) (performed more),
      )
