-- ===== src/TcpObject/Ending.antt =====
-- What is left of a TCP connection once `PostClose` was called.
use oven_web_rtctester.Prelude.{
  ℕ, ◌≡◌, refl, ◌∙◌, Bool, true, false, Option, List, [], ◌∷◌, ◌++◌, All, arith,
}
use oven_web_rtctester.Prelude.Int.{ℤ}
use oven_web_rtctester.Prelude.Bytes.{Bytes}
use oven_web_rtctester.TcpObject.{post_send, on_send, on_receive}
use oven_web_rtctester.TcpObject.Timers.{
  TimerId, keepalive_send, keepalive_check, close_id, post_close_id, TcpLink, LinkEffect, start,
  post_close, set_keep_alive_send_timer, set_keep_alive_check_timer, post_close_timer_proc,
  on_network_timer, perform, link_post_send, link_on_send, link_on_receive,
}
use oven_web_rtctester.TcpObject.Shutdown.{
  LinkEvent, starts, asks_close, posts, keeps_sending, keeps_checking, ends, receives, rings,
  performed, performed-append, timer_performs, socket_performs, handle, handle_all,
}

-- Closing, and closing with the socket closed.
abbrev pub IsClosing : TcpLink → Type 0
IsClosing l = l.tcp.is_closing ≡ true

abbrev pub IsDown : TcpLink → Type 0
IsDown l = IsClosing l × (l.socket_is_open ≡ false)

-- Nothing is written, read or reported, and the handler is not called.
abbrev pub Rests {ℓ} :
    {S : Type ℓ} → (TcpLink → Type 0) → S → (TcpLink × S) × List LinkEffect → Type ℓ
Rests P s ((l', s'), effects) = P l' × (s' ≡ s) × (performed effects ≡ [])

-- A call of `Start` is quiet on a closed socket alone.
abbrev pub IsQuiet : LinkEvent → TcpLink → Type 0
IsQuiet starts l = l.socket_is_open ≡ false
IsQuiet asks_close l = Unit
IsQuiet (posts packet) l = Unit
IsQuiet (keeps_sending interval) l = Unit
IsQuiet (keeps_checking interval) l = Unit
IsQuiet (ends error) l = Unit
IsQuiet (receives error chunk) l = Unit
IsQuiet (rings callback error id interval) l = Unit

abbrev pub NoStart : LinkEvent → Type 0
NoStart starts = ⊥
NoStart asks_close = Unit
NoStart (posts packet) = Unit
NoStart (keeps_sending interval) = Unit
NoStart (keeps_checking interval) = Unit
NoStart (ends error) = Unit
NoStart (receives error chunk) = Unit
NoStart (rings callback error id interval) = Unit

NoStart-IsQuiet : (e : LinkEvent) (l : TcpLink) → NoStart e → IsQuiet e l
NoStart-IsQuiet starts l never = absurd never
NoStart-IsQuiet asks_close l fine = tt
NoStart-IsQuiet (posts packet) l fine = tt
NoStart-IsQuiet (keeps_sending interval) l fine = tt
NoStart-IsQuiet (keeps_checking interval) l fine = tt
NoStart-IsQuiet (ends error) l fine = tt
NoStart-IsQuiet (receives error chunk) l fine = tt
NoStart-IsQuiet (rings callback error id interval) l fine = tt

down-IsQuiet : (e : LinkEvent) (l : TcpLink) → IsDown l → IsQuiet e l
down-IsQuiet starts l (closing, shut) = shut
down-IsQuiet asks_close l down = tt
down-IsQuiet (posts packet) l down = tt
down-IsQuiet (keeps_sending interval) l down = tt
down-IsQuiet (keeps_checking interval) l down = tt
down-IsQuiet (ends error) l down = tt
down-IsQuiet (receives error chunk) l down = tt
down-IsQuiet (rings callback error id interval) l down = tt

-- What a step of a closing connection leaves: the same socket, or a closed one.
abbrev pub Stays : TcpLink → TcpLink × List LinkEffect → Type 0
Stays l (l', effects) =
    IsClosing l' × (l.socket_is_open ≡ false → l'.socket_is_open ≡ false) × (performed effects ≡ [])

rings-Stays :
    (callback : Option Bool) (error : Bool) (id : TimerId) (interval : ℕ) (l : TcpLink)
    → IsClosing l
    → Stays l (on_network_timer callback error id interval l)
unfolding on_network_timer post_close_timer_proc performed
rings-Stays callback error keepalive_send interval l closing = ground arith
rings-Stays callback error keepalive_check interval l closing = ground arith
rings-Stays callback error close_id interval l closing = ground arith
rings-Stays callback error post_close_id interval l closing = ground (arith, socket_performs l)

socket_ring :
    (callback : Option Bool) (error : Bool) (interval : ℕ) (l : TcpLink)
    → IsClosing l
    → (on_network_timer callback error post_close_id interval l).0.socket_is_open ≡ false
unfolding on_network_timer post_close_timer_proc
socket_ring callback error interval l closing = ground arith

module _ {ℓ} {S : Type ℓ} (recv_handler : S → Bytes → S × ℤ) where
  handle-Stays :
      (e : LinkEvent) (l : TcpLink) (s : S)
      → IsClosing l
      → IsQuiet e l
      → Stays l ((handle recv_handler e (l, s)).0.0, (handle recv_handler e (l, s)).1)
        × ((handle recv_handler e (l, s)).0.1 ≡ s)
  unfolding handle post_close link_post_send link_on_send link_on_receive set_keep_alive_send_timer
      set_keep_alive_check_timer start post_send on_send on_receive perform performed
  handle-Stays starts l s closing quiet = ground arith
  handle-Stays asks_close l s closing quiet = ground arith
  handle-Stays (posts packet) l s closing quiet = ground arith
  handle-Stays (keeps_sending interval) l s closing quiet =
      ground (arith, timer_performs l.keep_alive_send_timer keepalive_send interval l)
  handle-Stays (keeps_checking interval) l s closing quiet =
      ground (arith, timer_performs l.keepalive_check_timer keepalive_check interval l)
  handle-Stays (ends error) l s closing quiet = ground arith
  handle-Stays (receives error chunk) l s closing quiet = ground arith
  handle-Stays (rings callback error id interval) l s closing quiet =
      (rings-Stays callback error id interval l closing, refl)

  -- behind effects that perform nothing
  Rests-append :
      (P : TcpLink → Type 0) (s s' : S) (effects : List LinkEffect)
      (m : (TcpLink × S) × List LinkEffect)
      → s' ≡ s
      → performed effects ≡ []
      → Rests P s' m
      → Rests P s (m.0, effects ++ m.1)
  Rests-append P s s' effects m same quiet (p, same', quiet') =
      (p, same' ∙ same, performed-append effects m.1 ∙ rw (quiet, quiet') refl)

  handle_all-IsDown :
      (es : List LinkEvent) (l : TcpLink) (s : S)
      → IsDown l
      → Rests IsDown s (handle_all recv_handler es (l, s))
  unfolding handle_all performed
  handle_all-IsDown [] l s down = (down, refl, refl)
  handle_all-IsDown (e ∷ es) l s (closing, shut) =
      let ((l', s'), effects) = handle recv_handler e (l, s) in
      let calm = down-IsQuiet e l (closing, shut) in
      let ((closing', stays, quiet), same) = handle-Stays e l s closing calm in
      Rests-append IsDown s s' effects (handle_all recv_handler es (l', s')) same quiet
        (handle_all-IsDown es l' s' (closing', stays shut))

  from_closing :
      (callback : Option Bool) (error : Bool) (interval : ℕ) (between later : List LinkEvent)
      (l : TcpLink) (s : S)
      → All NoStart between
      → IsClosing l
      → Rests IsDown s (
          handle_all recv_handler
            (between ++ rings callback error post_close_id interval ∷ later)
            (l, s))
  unfolding handle_all handle
  from_closing callback error interval [] later l s no_starts closing =
      let ring = rings callback error post_close_id interval in
      let ((l', s'), effects) = handle recv_handler ring (l, s) in
      let ((closing', stays, quiet), same) = handle-Stays ring l s closing tt in
      Rests-append IsDown s s' effects (handle_all recv_handler later (l', s')) same quiet
        (handle_all-IsDown later l' s' (closing', socket_ring callback error interval l closing))
  from_closing callback error interval (e ∷ es) later l s (no_start, no_starts) closing =
      let ((l', s'), effects) = handle recv_handler e (l, s) in
      let calm = NoStart-IsQuiet e l no_start in
      let ((closing', stays, quiet), same) = handle-Stays e l s closing calm in
      Rests-append IsDown s s' effects
        (handle_all recv_handler (es ++ rings callback error post_close_id interval ∷ later)
          (l', s'))
        same quiet (from_closing callback error interval es later l' s' no_starts closing')

  close_quiet : (l : TcpLink) → performed (post_close l).1 ≡ []
  unfolding post_close performed
  close_quiet l = ground arith

  -- Once `PostClose` was called on a TCP connection, nothing is written, read or reported any more and
  -- the handler is not called, whatever is called or completes before and behind the ring of its timer,
  -- as long as `Start`, which does not look whether the connection closes, is not called before that
  -- ring; and from that ring on, with an error or not, the socket is closed for good.
  pub post_close_ends :
      (between later : List LinkEvent) (callback : Option Bool) (error : Bool) (interval : ℕ)
      (l : TcpLink) (s : S)
      → All NoStart between
      → Rests IsDown s (
          handle_all recv_handler
            (asks_close ∷ (between ++ rings callback error post_close_id interval ∷ later))
            (l, s))
  unfolding handle_all handle post_close
  post_close_ends between later callback error interval l s no_starts =
      let (l', effects) = post_close l in
      Rests-append IsDown s s effects
        (handle_all recv_handler (between ++ rings callback error post_close_id interval ∷ later)
          (l', s))
        refl (close_quiet l)
        (from_closing callback error interval between later l' s no_starts refl)
