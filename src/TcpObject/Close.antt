-- ===== src/TcpObject/Close.antt =====
-- The end of a connection is reported to the main object once.
use oven_web_rtctester.Prelude.{
  ℕ, suc, ◌+◌, ◌≤◌, ◌≡◌, refl, Bool, true, false, List, [], ◌∷◌, ◌++◌, arith,
}
use oven_web_rtctester.Prelude.Int.{ℤ}
use oven_web_rtctester.Prelude.Bytes.{Bytes}
use oven_web_rtctester.TcpObject.{
  TcpObject, Effect, writes, reads, closes_network, sets_close_timer, close_once, write_front,
  after_pop, post_send, on_send, on_receive,
}

abbrev pub closes : List Effect → ℕ
closes [] = 0
closes (closes_network ∷ effects) = suc (closes effects)
closes (writes packet ∷ effects) = closes effects
closes (reads ∷ effects) = closes effects
closes (sets_close_timer ∷ effects) = closes effects

abbrev pub flag : Bool → ℕ
flag true = 1
flag false = 0

pub close_once-closes :
    (t : TcpObject) → flag t.is_closing + closes (close_once t).1 ≡ flag (close_once t).0.is_closing
close_once-closes t = ground arith

front_closes : (is_open : Bool) (q : List Bytes) → closes (write_front is_open q) ≡ 0
front_closes is_open [] = refl
front_closes true (x ∷ q) = refl
front_closes false (x ∷ q) = refl

-- An operation that reports the end exactly when it closes the connection.
abbrev pub Reports : TcpObject → TcpObject → List Effect → Type 0
Reports t t' effects = flag t.is_closing + closes effects ≡ flag t'.is_closing

pub post-Reports :
    (is_open : Bool) (packet : Bytes) (t : TcpObject)
    → Reports t (post_send is_open packet t).0 (post_send is_open packet t).1
unfolding post_send
post-Reports is_open packet t = ground (arith, front_closes is_open (t.send_datas ++ packet ∷ []))

pop-Reports :
    (is_open : Bool) (t : TcpObject) (q : List Bytes)
    → Reports t (after_pop is_open t q).0 (after_pop is_open t q).1
pop-Reports is_open t [] = ground arith
pop-Reports is_open t (x ∷ []) = ground arith
pop-Reports is_open t (x ∷ y ∷ q) = ground (arith, front_closes is_open (y ∷ q))

pub send-Reports :
    (is_open error : Bool) (t : TcpObject)
    → Reports t (on_send is_open error t).0 (on_send is_open error t).1
unfolding on_send
send-Reports is_open true t = ground (arith, close_once-closes t)
send-Reports is_open false t = ground (arith, pop-Reports is_open t t.send_datas)

pub data Event : Type 0 where
  posts : Bool → Bytes → Event
  ends : Bool → Bool → Event
  receives : Bool → Bool → Bytes → Event

module _ {ℓ} {S : Type ℓ} (recv_handler : S → Bytes → S × ℤ) where
  pub receive-Reports :
      (is_open error : Bool) (chunk : Bytes) (t : TcpObject) (s : S)
      → let after = on_receive recv_handler is_open error chunk (t, s) in
        Reports t after.0.0 after.1
  unfolding on_receive
  receive-Reports is_open error chunk t s = ground (arith, close_once-closes t)

  pub handle : Event → TcpObject × S → (TcpObject × S) × List Effect
  handle (posts is_open packet) (t, s) =
      let (t', effects, accepted) = post_send is_open packet t in ((t', s), effects)
  handle (ends is_open error) (t, s) =
      let (t', effects) = on_send is_open error t in ((t', s), effects)
  handle (receives is_open error chunk) state = on_receive recv_handler is_open error chunk state

  handle-Reports :
      (e : Event) (t : TcpObject) (s : S) → Reports t (handle e (t, s)).0.0 (handle e (t, s)).1
  unfolding handle
  handle-Reports (posts is_open packet) t s = post-Reports is_open packet t
  handle-Reports (ends is_open error) t s = send-Reports is_open error t
  handle-Reports (receives is_open error chunk) t s = receive-Reports is_open error chunk t s

  -- the calls of `OnNetworkClose` along a sequence of events
  pub network_closes : List Event → TcpObject × S → ℕ
  network_closes [] state = 0
  network_closes (e ∷ es) state =
      let after = handle e state in closes (after.1) + network_closes es (after.0)

  -- However posts, ends of writes and reads follow each other, and however they fail, the end of the
  -- connection is reported at most once, and not at all once the connection is closing.
  pub network_closes_once :
      (es : List Event) (t : TcpObject) (s : S) → network_closes es (t, s) + flag t.is_closing ≤ 1
  unfolding network_closes
  network_closes_once [] t s = ground arith
  network_closes_once (e ∷ es) t s =
      let (t', s') = (handle e (t, s)).0 in
      omega (arith, handle-Reports e t s, network_closes_once es t' s')
