-- ===== src/TcpManager/Accept/History.antt =====
-- Histories of the accepting side.
use oven_web_rtctester.Prelude.{
  ℕ, Bool, if-cases, if◌then◌else◌, ◌≡◌, refl, true, false, Option, none, some, List, [], ◌∷◌, ◌++◌,
  All, arith,
}
use oven_web_rtctester.TcpManager.Accept.{
  Pending, idle, accepting, handshaking, Acceptor, Action, offers, drops, drop_socket, World,
  complete, complete_as, post_release, post_accept, accept_again, drop_and_accept, offer,
  offer_socket, shake_socket, on_accept, on_accept_ssl, on_handshake_ssl,
}
use oven_web_rtctester.TcpManager.Accept.Count.{drops_of, taken_of, Accounts, join-Accounts}
use oven_web_rtctester.TcpManager.Accept.Sockets.{Backed, Backed-any, Ends, complete_as-Ends}

-- What happens to the accepting side: a completion, or the flag of the release.
pub data Event : Type 0 where
  completes : World → Event
  releases : Event

abbrev after : List Action → Option (Acceptor × List Action) → Option (Acceptor × List Action)
after actions none = none
after actions (some (a, more)) = some (a, actions ++ more)

abbrev and_then :
    (Acceptor → Option (Acceptor × List Action))
    → Option (Acceptor × List Action)
    → Option (Acceptor × List Action)
and_then rest none = none
and_then rest (some (a, actions)) = after actions (rest a)

unfoldable pub step : Event → Acceptor → Option (Acceptor × List Action)
step (completes w) a = complete w a
step releases a = some (post_release a, [])

unfoldable pub run : List Event → Acceptor → Option (Acceptor × List Action)
run [] a = some (a, [])
run (event ∷ events) a = and_then (λ b. run events b) (step event a)

-- The callback is set when an operation completes.
abbrev pub IsCalled : Event → Type 0
IsCalled (completes w) = w.has_callback ≡ true
IsCalled releases = Unit

step-Ends :
    (event : Event) (a : Acceptor)
    → IsCalled event
    → Backed a.pending a.accept_socket
    → Ends a (step event a)
unfolding step complete post_release drops_of taken_of
step-Ends (completes w) a called backed =
    complete_as-Ends w (record a { pending = idle }) a.pending refl (λ handshakes. called) backed
step-Ends releases a called backed = (λ o. omega arith, backed)

after-Ends :
    (a b : Acceptor) (actions : List Action) (r : Option (Acceptor × List Action))
    → ((o : ℕ) → Accounts o a (b, actions))
    → Ends b r
    → Ends a (after actions r)
after-Ends a b actions none accounts ends = ends
after-Ends a b actions (some (c, more)) accounts (accounts', backed) =
    (λ o. join-Accounts o a b c actions more (accounts o) (accounts' o), backed)

and_then-Ends :
    (rest : Acceptor → Option (Acceptor × List Action)) (a : Acceptor)
    (r : Option (Acceptor × List Action))
    → Ends a r
    → ((b : Acceptor) → Backed b.pending b.accept_socket → Ends b (rest b))
    → Ends a (and_then rest r)
and_then-Ends rest a none ends next = ends
and_then-Ends rest a (some (b, actions)) (accounts, backed) next =
    after-Ends a b actions (rest b) accounts (next b backed)

-- From a state in which a pending operation has its socket, and with the callback set at each
-- completion, no history of completions and of the release, whatever else they answer, calls through
-- a null pointer; afterwards a pending operation has its socket again, and each socket that was made or waited before is, once, dropped, taken by the
-- callback or the one that waits.
pub run-Ends :
    (events : List Event) (a : Acceptor)
    → All IsCalled events
    → Backed a.pending a.accept_socket
    → Ends a (run events a)
unfolding run drops_of taken_of
run-Ends [] a called backed = (λ o. omega arith, backed)
run-Ends (event ∷ events) a (called, calls) backed =
    and_then-Ends (λ b. run events b) a (step event a) (step-Ends event a called backed)
      (λ b up. run-Ends events b calls up)

abbrev pub is_idle : Pending → Bool
is_idle idle = true
is_idle accepting = false
is_idle handshaking = false

-- Another operation of the accepting side is pending.
abbrev pub Busy : Option (Acceptor × List Action) → Type 0
Busy none = ⊥
Busy (some (a, actions)) = is_idle a.pending ≡ false

accept_again-Busy :
    (listens : Bool) (a : Acceptor) (actions : List Action)
    → a.has_acceptor ≡ true
    → Busy (some (accept_again listens a actions))
unfolding post_accept
accept_again-Busy listens a actions has = rw has refl

drop_and_accept-Busy :
    (listens : Bool) (a : Acceptor)
    → a.has_acceptor ≡ true
    → a.is_closeing ≡ false
    → Busy (some (drop_and_accept listens a))
drop_and_accept-Busy listens a has stays =
    if-cases (λ r. Busy (some r)) a.is_closeing (λ closes. absurd (cc))
      (λ stays'.
        accept_again-Busy listens (record a { accept_socket = none }) (drop_socket a.accept_socket)
          has)

offer_socket-Busy :
    (w : World) (a : Acceptor) (socket : Option ℕ)
    → a.has_acceptor ≡ true
    → a.is_closeing ≡ false
    → Backed accepting socket
    → Busy (offer_socket w a socket)
offer_socket-Busy w a none has stays backed = elim backed [ ]
offer_socket-Busy w a (some s) has stays backed =
    elim w.remote_endpoint
      as (λ endpoint. Busy (elim endpoint [
        | none ↦ some (drop_and_accept w.listens a)
        | some address ↦ some (offer w s address a)
      ])) [
        | none ↦ drop_and_accept-Busy w.listens a has stays
        | some (ip, port) ↦
            accept_again-Busy w.listens (record a { accept_socket = none })
              (offers s ip port w.takes ∷ (if w.takes then [] else drops s ∷ [])) has
      ]

shake_socket-Busy :
    (a : Acceptor) (socket : Option ℕ) → Backed accepting socket → Busy (shake_socket a socket)
shake_socket-Busy a none backed = elim backed [ ]
shake_socket-Busy a (some s) backed = refl

complete_as-Busy :
    (w : World) (a : Acceptor) (pending : Pending)
    → a.has_acceptor ≡ true
    → a.is_closeing ≡ false
    → w.has_callback ≡ true
    → is_idle pending ≡ false
    → Backed pending a.accept_socket
    → Busy (complete_as w a pending)
unfolding on_accept on_accept_ssl on_handshake_ssl
complete_as-Busy w a idle has stays callback busy backed = absurd (cc)
complete_as-Busy w a accepting has stays callback busy backed =
    if-cases Busy a.is_support_ssl
      (λ ssl.
        if-cases Busy w.error (λ bad. drop_and_accept-Busy w.listens a has stays)
          λ fine.
            if-cases Busy a.is_closeing (λ closes. absurd (cc))
              λ open_still. shake_socket-Busy a a.accept_socket backed)
      (λ plain.
        if-cases Busy w.error (λ bad. drop_and_accept-Busy w.listens a has stays)
          λ fine.
            if-cases Busy a.is_closeing (λ closes. absurd (cc))
              λ open_still.
                if-cases Busy w.has_callback
                  (λ calls. offer_socket-Busy w a a.accept_socket has stays backed)
                  (λ mute. absurd (cc)))
complete_as-Busy w a handshaking has stays callback busy backed =
    if-cases Busy w.error (λ bad. drop_and_accept-Busy w.listens a has stays)
      λ fine.
        if-cases Busy a.is_closeing (λ closes. absurd (cc))
          λ open_still.
            rw callback
              (offer_socket-Busy w a a.accept_socket has stays (Backed-any a.accept_socket backed))

-- A listening manager that is not closing and has its callback waits for the next connection again
-- after every completion of an accept or of a handshake, whether it failed, its socket had no
-- address or the callback refused it.
pub complete-Busy :
    (w : World) (a : Acceptor)
    → a.has_acceptor ≡ true
    → a.is_closeing ≡ false
    → w.has_callback ≡ true
    → is_idle a.pending ≡ false
    → Backed a.pending a.accept_socket
    → Busy (complete w a)
unfolding complete
complete-Busy w a has stays callback busy backed =
    complete_as-Busy w (record a { pending = idle }) a.pending has stays callback busy backed
