-- ===== src/TcpManager/Accept/Count.antt =====
-- What becomes of a socket: how often it is dropped, taken, waits and was made.
use oven_web_rtctester.Prelude.{
  ℕ, suc, ◌+◌, ◌≡◌, Option, none, some, List, [], ◌∷◌, ◌++◌, ltb, ◌==◌, if◌then◌else◌, arith,
}
use oven_web_rtctester.TcpManager.Accept.{
  Acceptor, Action, posts_accept, posts_handshake, drops, offers, reports_fail,
}

-- How often a socket is dropped, is taken by the callback, waits in the field, and was made.
abbrev pub is_one : ℕ → ℕ → ℕ
is_one a b = if a == b then 1 else 0

unfoldable pub drops_of : ℕ → List Action → ℕ
drops_of o [] = 0
drops_of o (drops s ∷ actions) = is_one s o + drops_of o actions
drops_of o (posts_accept s ∷ actions) = drops_of o actions
drops_of o (posts_handshake s ∷ actions) = drops_of o actions
drops_of o (offers s ip port takes ∷ actions) = drops_of o actions
drops_of o (reports_fail ∷ actions) = drops_of o actions

unfoldable pub taken_of : ℕ → List Action → ℕ
taken_of o [] = 0
taken_of o (drops s ∷ actions) = taken_of o actions
taken_of o (posts_accept s ∷ actions) = taken_of o actions
taken_of o (posts_handshake s ∷ actions) = taken_of o actions
taken_of o (offers s ip port takes ∷ actions) =
    (if takes then is_one s o else 0) + taken_of o actions
taken_of o (reports_fail ∷ actions) = taken_of o actions

unfoldable pub waits : ℕ → Option ℕ → ℕ
waits o none = 0
waits o (some s) = is_one s o

abbrev pub made : ℕ → ℕ → ℕ
made o next_socket = if ltb o next_socket then 1 else 0

abbrev pub Accounts : ℕ → Acceptor → Acceptor × List Action → Type 0
Accounts o a (a', actions) =
    drops_of o actions + taken_of o actions + waits o a'.accept_socket + made o a.next_socket
    ≡ made o a'.next_socket + waits o a.accept_socket

pub drops_of-append :
    (o : ℕ) (xs ys : List Action) → drops_of o (xs ++ ys) ≡ drops_of o xs + drops_of o ys
unfolding drops_of
drops_of-append o [] ys = omega arith
drops_of-append o (drops s ∷ xs) ys = omega (arith, drops_of-append o xs ys)
drops_of-append o (posts_accept s ∷ xs) ys = drops_of-append o xs ys
drops_of-append o (posts_handshake s ∷ xs) ys = drops_of-append o xs ys
drops_of-append o (offers s ip port takes ∷ xs) ys = drops_of-append o xs ys
drops_of-append o (reports_fail ∷ xs) ys = drops_of-append o xs ys

pub taken_of-append :
    (o : ℕ) (xs ys : List Action) → taken_of o (xs ++ ys) ≡ taken_of o xs + taken_of o ys
unfolding taken_of
taken_of-append o [] ys = omega arith
taken_of-append o (drops s ∷ xs) ys = taken_of-append o xs ys
taken_of-append o (posts_accept s ∷ xs) ys = taken_of-append o xs ys
taken_of-append o (posts_handshake s ∷ xs) ys = taken_of-append o xs ys
taken_of-append o (offers s ip port takes ∷ xs) ys = omega (arith, taken_of-append o xs ys)
taken_of-append o (reports_fail ∷ xs) ys = taken_of-append o xs ys

pub join-Accounts :
    (o : ℕ) (a b c : Acceptor) (xs ys : List Action)
    → Accounts o a (b, xs)
    → Accounts o b (c, ys)
    → Accounts o a (c, xs ++ ys)
join-Accounts o a b c xs ys p q =
    omega (arith, p, q, drops_of-append o xs ys, taken_of-append o xs ys)

pub made_next :
    (o next_socket : ℕ) → made o (suc next_socket) ≡ made o next_socket + is_one next_socket o
made_next o next_socket = ground arith
