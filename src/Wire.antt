-- ===== src/Wire.antt =====
-- srcs/common/network/engine/tcp_network_object.cpp with
-- srcs/common/network/protocol_object/web_socket_request_object.cpp as the handler of its data: the
-- virtual call of `RecvHandler` in `OnReceive`. The loop gets as much fuel as it can need.
pub mod Split
pub mod Delivery
use oven_web_rtctester.Prelude.{ℕ, ◌+◌, Bool, length}
use oven_web_rtctester.Prelude.Int.{ℤ, minus_one}
use oven_web_rtctester.Prelude.Bytes.{Bytes}
use oven_web_rtctester.Prelude.Outcome.{Outcome, done, fault, no_fuel}
use oven_web_rtctester.WebSocket.{Socket, recv_handler}

module _ {ℓ} {S : Type ℓ} (on_recv : S → Bytes → ℕ → S × Bool)
    (on_handshake : S → Bool → S × Bool) where
  -- A read outside the data has no result in the source; here it ends the connection.
  abbrev pub handler_result : Socket S → Outcome (Socket S × ℤ) → Socket S × ℤ
  handler_result w (done result) = result
  handler_result w fault = (w, minus_one)
  handler_result w no_fuel = (w, minus_one)

  unfoldable pub socket_handler : Socket S → Bytes → Socket S × ℤ
  socket_handler w bytes =
      handler_result w (recv_handler on_recv on_handshake (length bytes + 1) w bytes)
