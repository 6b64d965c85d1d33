-- ===== src/UdpObject/Closing.antt =====
-- The end of a UDP connection: the timer of `PostClose` closes the socket, and it stays closed.
use oven_web_rtctester.Prelude.{
  ℕ, ◌≡◌, refl, ◌∙◌, Bool, true, false, Option, List, [], ◌∷◌, ◌++◌, arith, if◌then◌else◌,
}
use oven_web_rtctester.Prelude.Bytes.{Bytes}
use oven_web_rtctester.UdpObject.{
  keepalive_send, post_close_id, UdpObject, UdpEffect, cancels, closes_socket, post_close,
  post_close_timer_proc, set_network_timer, on_network_timer, set_keep_alive_send_timer, post_send,
  on_send, on_receive,
}
use oven_web_rtctester.UdpObject.Endpoint.{
  UdpEvent, asks_close, posts, keeps_alive, sent, arrives, rings, visible, visible-append, handle,
  handle_all,
}

-- Closing, and closing with the socket closed.
abbrev pub IsClosing : UdpObject → Type 0
IsClosing u = u.is_closeing ≡ true

abbrev pub IsDown : UdpObject → Type 0
IsDown u = IsClosing u × (u.socket_is_open ≡ false)

-- Nothing is sent, received, handed on or reported, and the handler is not called.
abbrev pub Rests {ℓ} :
    {S : Type ℓ} → (UdpObject → Type 0) → S → (UdpObject × S) × List UdpEffect → Type ℓ
Rests P s ((u', s'), effects) = P u' × (s' ≡ s) × (visible effects ≡ [])

module _ {ℓ} {S : Type ℓ} (recv_handler : S → Bytes → S × Bool) where
  timer_visible :
      (a b : Bool)
      → visible (
          (if a then cancels keepalive_send ∷ [] else [])
          ++ ((if b then cancels post_close_id ∷ [] else []) ++ closes_socket ∷ [])
          ++ [])
        ≡ []
  unfolding visible
  timer_visible true true = refl
  timer_visible true false = refl
  timer_visible false true = refl
  timer_visible false false = refl

  handle-IsDown :
      (e : UdpEvent) (u : UdpObject) (s : S)
      → IsDown u
      → Rests IsDown s (handle recv_handler e (u, s))
  unfolding handle post_close post_send set_keep_alive_send_timer set_network_timer on_send
      on_receive on_network_timer post_close_timer_proc visible
  handle-IsDown asks_close u s down = ground arith
  handle-IsDown (posts packet) u s down = ground arith
  handle-IsDown (keeps_alive interval) u s down = ground arith
  handle-IsDown (sent error size) u s down = ground arith
  handle-IsDown (arrives error packet) u s down = ground arith
  handle-IsDown (rings callback error keepalive_send interval) u s down = ground arith
  handle-IsDown (rings callback error post_close_id interval) u s down =
      ground (arith, timer_visible u.keep_alive_send_timer u.post_close_timer)

  handle-IsClosing :
      (e : UdpEvent) (u : UdpObject) (s : S)
      → IsClosing u
      → Rests IsClosing s (handle recv_handler e (u, s))
  unfolding handle post_close post_send set_keep_alive_send_timer set_network_timer on_send
      on_receive on_network_timer post_close_timer_proc visible
  handle-IsClosing asks_close u s closing = ground arith
  handle-IsClosing (posts packet) u s closing = ground arith
  handle-IsClosing (keeps_alive interval) u s closing = ground arith
  handle-IsClosing (sent error size) u s closing = ground arith
  handle-IsClosing (arrives error packet) u s closing = ground arith
  handle-IsClosing (rings callback error keepalive_send interval) u s closing = ground arith
  handle-IsClosing (rings callback error post_close_id interval) u s closing =
      ground (arith, timer_visible u.keep_alive_send_timer u.post_close_timer)

  -- behind effects that are not visible
  Rests-append :
      (P : UdpObject → Type 0) (s s' : S) (effects : List UdpEffect)
      (m : (UdpObject × S) × List UdpEffect)
      → s' ≡ s
      → visible effects ≡ []
      → Rests P s' m
      → Rests P s (m.0, effects ++ m.1)
  Rests-append P s s' effects m same quiet (p, same', quiet') =
      (p, same' ∙ same, visible-append effects m.1 ∙ rw (quiet, quiet') refl)

  handle_all-IsDown :
      (es : List UdpEvent) (u : UdpObject) (s : S)
      → IsDown u
      → Rests IsDown s (handle_all recv_handler es (u, s))
  unfolding handle_all visible
  handle_all-IsDown [] u s down = (down, refl, refl)
  handle_all-IsDown (e ∷ es) u s down =
      let ((u', s'), effects) = handle recv_handler e (u, s) in
      let (down', same, quiet) = handle-IsDown e u s down in
      Rests-append IsDown s s' effects (handle_all recv_handler es (u', s')) same quiet
        (handle_all-IsDown es u' s' down')

  -- the ring of the closing timer
  ring-IsDown :
      (callback : Option Bool) (error : Bool) (interval : ℕ) (u : UdpObject) (s : S)
      → IsClosing u
      → Rests IsDown s (handle recv_handler (rings callback error post_close_id interval) (u, s))
  unfolding handle on_network_timer post_close_timer_proc visible
  ring-IsDown callback error interval u s closing =
      ground (arith, timer_visible u.keep_alive_send_timer u.post_close_timer)

  from_closing :
      (callback : Option Bool) (error : Bool) (interval : ℕ) (between later : List UdpEvent)
      (u : UdpObject) (s : S)
      → IsClosing u
      → Rests IsDown s (
          handle_all recv_handler
            (between ++ rings callback error post_close_id interval ∷ later)
            (u, s))
  unfolding handle_all
  from_closing callback error interval [] later u s closing =
      let ((u', s'), effects) =
        handle recv_handler (rings callback error post_close_id interval) (u, s) in
      let (down, same, quiet) = ring-IsDown callback error interval u s closing in
      Rests-append IsDown s s' effects (handle_all recv_handler later (u', s')) same quiet
        (handle_all-IsDown later u' s' down)
  from_closing callback error interval (e ∷ es) later u s closing =
      let ((u', s'), effects) = handle recv_handler e (u, s) in
      let (closing', same, quiet) = handle-IsClosing e u s closing in
      Rests-append IsDown s s' effects
        (handle_all recv_handler (es ++ rings callback error post_close_id interval ∷ later)
          (u', s'))
        same quiet (from_closing callback error interval es later u' s' closing')

  close_quiet : (u : UdpObject) → visible (post_close u).1 ≡ []
  unfolding post_close visible
  close_quiet u = ground arith

  -- Once `PostClose` was called, whatever else is called or completes, with an error or without,
  -- before and behind the ring of its timer: nothing is sent, received, handed on or reported any
  -- more, and from that ring on, whether it comes with an error or not, the socket is closed for good.
  pub close_ends :
      (between later : List UdpEvent) (callback : Option Bool) (error : Bool) (interval : ℕ)
      (u : UdpObject) (s : S)
      → Rests IsDown s (
          handle_all recv_handler
            (asks_close ∷ (between ++ rings callback error post_close_id interval ∷ later))
            (u, s))
  unfolding handle_all handle post_close
  close_ends between later callback error interval u s =
      let (u', effects) = post_close u in
      Rests-append IsDown s s effects
        (handle_all recv_handler (between ++ rings callback error post_close_id interval ∷ later)
          (u', s))
        refl (close_quiet u) (from_closing callback error interval between later u' s refl)
