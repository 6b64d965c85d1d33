-- ===== src/TcpManager/Accept/Sockets.antt =====
-- What becomes of each socket that the accepting side makes, over any history of completions.
use oven_web_rtctester.Prelude.{
  ℕ, ◌≡◌, refl, inl, inr, Bool, true, false, Option, none, some, List, [], ◌∷◌, if◌then◌else◌,
  Bool-cases, if-cases, arith,
}
use oven_web_rtctester.TcpManager.Accept.{
  Pending, idle, accepting, handshaking, Acceptor, Action, posts_accept, drops, offers, drop_socket,
  accept_next, post_accept, accept_again, drop_and_accept, World, offer, offer_socket, on_accept,
  shake_socket, on_accept_ssl, on_handshake_ssl, complete_as,
}
use oven_web_rtctester.TcpManager.Accept.Count.{
  drops_of, taken_of, waits, Accounts, drops_of-append, taken_of-append, join-Accounts, made_next,
}

-- An operation that is pending has its socket.
abbrev pub Backed : Pending → Option ℕ → Type 0
Backed idle socket = Unit
Backed accepting none = ⊥
Backed accepting (some s) = Unit
Backed handshaking none = ⊥
Backed handshaking (some s) = Unit

abbrev pub Good : Acceptor → Acceptor × List Action → Type 0
Good a (a', actions) = ((o : ℕ) → Accounts o a (a', actions)) × Backed a'.pending a'.accept_socket

abbrev pub Ends : Acceptor → Option (Acceptor × List Action) → Type 0
Ends a none = ⊥
Ends a (some r) = Good a r

pub Backed-any : (socket : Option ℕ) → Backed handshaking socket → Backed accepting socket
Backed-any none b = b
Backed-any (some s) b = tt

drops_of-drop_socket :
    (o : ℕ) (socket : Option ℕ) → drops_of o (drop_socket socket) ≡ waits o socket
unfolding drops_of waits
drops_of-drop_socket o none = refl
drops_of-drop_socket o (some s) = omega arith

taken_of-drop_socket : (o : ℕ) (socket : Option ℕ) → taken_of o (drop_socket socket) ≡ 0
unfolding taken_of
taken_of-drop_socket o none = refl
taken_of-drop_socket o (some s) = refl

drop-Accounts :
    (o : ℕ) (a : Acceptor)
    → Accounts o a (record a { accept_socket = none }, drop_socket a.accept_socket)
unfolding waits
drop-Accounts o a =
    omega (arith, drops_of-drop_socket o a.accept_socket, taken_of-drop_socket o a.accept_socket)

accept_next-Accounts : (o : ℕ) (a : Acceptor) → Accounts o a ((accept_next a).0, (accept_next a).1)
unfolding drops_of taken_of waits
accept_next-Accounts o a =
    let posted = posts_accept a.next_socket ∷ [] in
    omega (
      arith,
      drops_of-drop_socket o a.accept_socket,
      taken_of-drop_socket o a.accept_socket,
      drops_of-append o (drop_socket a.accept_socket) posted,
      taken_of-append o (drop_socket a.accept_socket) posted,
      made_next o a.next_socket,
    )

post_accept-Accounts :
    (o : ℕ) (listens : Bool) (a : Acceptor)
    → Accounts o a ((post_accept listens a).0, (post_accept listens a).1)
unfolding post_accept drops_of taken_of
post_accept-Accounts o listens a = elim (Bool-cases a.has_acceptor) [
  | inl has ↦ rw has (accept_next-Accounts o a)
  | inr hasnt ↦ rw hasnt (elim (Bool-cases listens) [
    | inl binds ↦ rw binds (accept_next-Accounts o a)
    | inr fails ↦ rw fails (omega arith)
  ])
]

post_accept-Backed :
    (listens : Bool) (a : Acceptor)
    → a.pending ≡ idle
    → Backed (post_accept listens a).0.pending (post_accept listens a).0.accept_socket
unfolding post_accept
post_accept-Backed listens a rests = elim (Bool-cases a.has_acceptor) [
  | inl has ↦ rw has tt
  | inr hasnt ↦
      rw hasnt
        (elim (Bool-cases listens) [ inl binds ↦ rw binds tt | inr fails ↦ rw (fails, rests) tt ])
]

accept_again-Good :
    (listens : Bool) (a b : Acceptor) (actions : List Action)
    → b.pending ≡ idle
    → ((o : ℕ) → Accounts o a (b, actions))
    → Good a (accept_again listens b actions)
accept_again-Good listens a b actions rests accounts =
    let (c, more, ok) = post_accept listens b in
    (
      λ o. join-Accounts o a b c actions more (accounts o) (post_accept-Accounts o listens b),
      post_accept-Backed listens b rests,
    )

drop_and_accept-Good :
    (listens : Bool) (a : Acceptor) → a.pending ≡ idle → Good a (drop_and_accept listens a)
drop_and_accept-Good listens a rests =
    if-cases (Good a) a.is_closeing (λ closes. (λ o. drop-Accounts o a, rw rests tt))
      λ stays.
        accept_again-Good listens a (record a { accept_socket = none })
          (drop_socket a.accept_socket) rests (λ o. drop-Accounts o a)

offer-Accounts :
    (o : ℕ) (takes : Bool) (s ip port : ℕ) (a : Acceptor)
    → a.accept_socket ≡ some s
    → Accounts o a (
      record a { accept_socket = none },
      offers s ip port takes ∷ (if takes then [] else drops s ∷ []),
    )
unfolding drops_of taken_of waits
offer-Accounts o true s ip port a there = rw there (omega arith)
offer-Accounts o false s ip port a there = rw there (omega arith)

offer-Good :
    (w : World) (s : ℕ) (address : ℕ × ℕ) (a : Acceptor)
    → a.pending ≡ idle
    → a.accept_socket ≡ some s
    → Good a (offer w s address a)
offer-Good w s (ip, port) a rests there =
    accept_again-Good w.listens a (record a { accept_socket = none })
      (offers s ip port w.takes ∷ (if w.takes then [] else drops s ∷ [])) rests
      (λ o. offer-Accounts o w.takes s ip port a there)

offer_socket-Ends :
    (w : World) (a : Acceptor) (socket : Option ℕ)
    → a.pending ≡ idle
    → a.accept_socket ≡ socket
    → Backed accepting socket
    → Ends a (offer_socket w a socket)
offer_socket-Ends w a none rests there backed = elim backed [ ]
offer_socket-Ends w a (some s) rests there backed =
    elim w.remote_endpoint
      as (λ endpoint. Ends a (elim endpoint [
        | none ↦ some (drop_and_accept w.listens a)
        | some address ↦ some (offer w s address a)
      ])) [
        | none ↦ drop_and_accept-Good w.listens a rests
        | some address ↦ offer-Good w s address a rests there
      ]

shake_socket-Ends :
    (a : Acceptor) (socket : Option ℕ)
    → a.accept_socket ≡ socket
    → Backed accepting socket
    → Ends a (shake_socket a socket)
unfolding drops_of taken_of
shake_socket-Ends a none there backed = elim backed [ ]
shake_socket-Ends a (some s) there backed = (λ o. omega arith, rw there tt)

pub resting-Good : (a : Acceptor) → a.pending ≡ idle → Good a (a, [])
unfolding drops_of taken_of
resting-Good a rests = (λ o. omega arith, rw rests tt)

on_accept-Ends :
    (w : World) (a : Acceptor)
    → a.pending ≡ idle
    → Backed accepting a.accept_socket
    → Ends a (on_accept w a)
unfolding on_accept
on_accept-Ends w a rests backed =
    if-cases (Ends a) w.error (λ bad. drop_and_accept-Good w.listens a rests)
      λ fine.
        if-cases (Ends a) a.is_closeing (λ closes. resting-Good a rests)
          λ stays.
            if-cases (Ends a) w.has_callback
              (λ has. offer_socket-Ends w a a.accept_socket rests refl backed)
              (λ hasnt. (λ o. drop-Accounts o a, rw rests tt))

on_accept_ssl-Ends :
    (w : World) (a : Acceptor)
    → a.pending ≡ idle
    → Backed accepting a.accept_socket
    → Ends a (on_accept_ssl w a)
unfolding on_accept_ssl
on_accept_ssl-Ends w a rests backed =
    if-cases (Ends a) w.error (λ bad. drop_and_accept-Good w.listens a rests)
      λ fine.
        if-cases (Ends a) a.is_closeing (λ closes. resting-Good a rests)
          λ stays. shake_socket-Ends a a.accept_socket refl backed

on_handshake_ssl-Ends :
    (w : World) (a : Acceptor)
    → a.pending ≡ idle
    → w.has_callback ≡ true
    → Backed accepting a.accept_socket
    → Ends a (on_handshake_ssl w a)
unfolding on_handshake_ssl
on_handshake_ssl-Ends w a rests has backed =
    if-cases (Ends a) w.error (λ bad. drop_and_accept-Good w.listens a rests)
      λ fine.
        if-cases (Ends a) a.is_closeing (λ closes. resting-Good a rests)
          λ stays. rw has (offer_socket-Ends w a a.accept_socket rests refl backed)

pub complete_as-Ends :
    (w : World) (a : Acceptor) (pending : Pending)
    → a.pending ≡ idle
    → (pending ≡ handshaking → w.has_callback ≡ true)
    → Backed pending a.accept_socket
    → Ends a (complete_as w a pending)
complete_as-Ends w a idle rests calls backed = resting-Good a rests
complete_as-Ends w a accepting rests calls backed =
    if-cases (Ends a) a.is_support_ssl (λ ssl. on_accept_ssl-Ends w a rests backed)
      (λ plain. on_accept-Ends w a rests backed)
complete_as-Ends w a handshaking rests calls backed =
    on_handshake_ssl-Ends w a rests (calls refl) (Backed-any a.accept_socket backed)
