-- ===== src/TcpObject.antt =====
-- srcs/common/network/engine/tcp_network_object.cpp: the send queue and the receive buffer of a TCP
-- connection. boost::asio is outside: `is_open` says whether the socket is open, `error` whether the
-- operation failed, and what the methods ask of it are values of `Effect`. The handler of the
-- protocol is a parameter. `max_send_data_size` is 0 where the source's is not positive.
pub mod Order
pub mod Buffer
pub mod Close
pub mod Timers
pub mod Shutdown
pub mod Ending
mod Tests
use oven_web_rtctester.Prelude.{
  ℕ, ◌+◌, ◌-◌, Bool, true, false, not, ◌&&◌, ◌||◌, List, [], ◌∷◌, ◌++◌, ltb, leb, ◌==◌,
  if◌then◌else◌, length, take, drop,
}
use oven_web_rtctester.Prelude.Int.{ℤ, pos, negsuc}
use oven_web_rtctester.Prelude.Bytes.{Bytes}

pub record TcpObject : Type 0 where
  pub is_closing : Bool
  pub network_error : Bool
  pub send_complete_close : Bool
  pub max_send_data_size : ℕ
  pub send_datas : List Bytes
  pub rest_data : Bytes

pub data Effect : Type 0 where
  writes : Bytes → Effect
  reads closes_network sets_close_timer : Effect

-- `async_write` of the front of the queue
abbrev pub write_front : Bool → List Bytes → List Effect
write_front is_open [] = []
write_front is_open (front ∷ rest) = if is_open then writes front ∷ [] else []

abbrev pub over_limit : ℕ → Bytes → Bool
over_limit limit data_ = ltb 0 limit && ltb limit (length data_)

abbrev pub enqueue : Bool → Bytes → TcpObject → TcpObject × List Effect × Bool
enqueue is_open data_ t =
    let queue = t.send_datas ++ data_ ∷ [] in
    (
      record t { send_datas = queue },
      if length queue == 1 then write_front is_open queue else [],
      true,
    )

unfoldable pub post_send : Bool → Bytes → TcpObject → TcpObject × List Effect × Bool
post_send is_open data_ t =
    if length data_ == 0
    then (t, [], false)
    else if t.is_closing
    then (t, [], false)
    else if over_limit t.max_send_data_size data_
    then (t, [], false)
    else enqueue is_open data_ t

-- the end of a connection that failed: the callback is called by the first one that closes
abbrev pub close_once : TcpObject → TcpObject × List Effect
close_once t =
    if t.is_closing then (t, []) else (record t { is_closing = true }, closes_network ∷ [])

abbrev pub after_pop : Bool → TcpObject → List Bytes → TcpObject × List Effect
after_pop is_open t [] = (t, [])
after_pop is_open t (front ∷ []) =
    (record t { send_datas = [] }, if t.send_complete_close then sets_close_timer ∷ [] else [])
after_pop is_open t (front ∷ next ∷ rest) =
    (record t { send_datas = next ∷ rest }, write_front is_open (next ∷ rest))

unfoldable pub on_send : Bool → Bool → TcpObject → TcpObject × List Effect
on_send is_open error t =
    if error
    then close_once (record t { network_error = true })
    else if t.is_closing || t.network_error
    then (t, [])
    else after_pop is_open t t.send_datas

-- the size that the handler gives, between 0 and the size of the data
abbrev pub is_processed : ℤ → ℕ → Bool
is_processed (pos n) size = leb n size
is_processed (negsuc n) size = false

abbrev pub size_of : ℤ → ℕ
size_of (pos n) = n
size_of (negsuc n) = 0

module _ {ℓ} {S : Type ℓ} (recv_handler : S → Bytes → S × ℤ) where
  abbrev pub process : Bool → Bytes → TcpObject → S → (TcpObject × S) × List Effect
  process is_open recv_data t s =
      let (s', process_size) = recv_handler s recv_data in
      let (closed, effects) = close_once (record t { rest_data = [] }) in
      if is_processed process_size (length recv_data)
      then (
        (record t { rest_data = drop (size_of process_size) recv_data }, s'),
        if is_open then reads ∷ [] else [],
      )
      else ((closed, s'), effects)

  unfoldable pub on_receive : Bool → Bool → Bytes → TcpObject × S → (TcpObject × S) × List Effect
  on_receive is_open error chunk (t, s) =
      let (closed, effects) = close_once (record t { network_error = true }) in
      if error
      then ((closed, s), effects)
      else if t.is_closing || t.network_error
      then ((t, s), [])
      else process is_open (t.rest_data ++ chunk) t s
