-- ===== src/OmeStream.antt =====
-- srcs/ome_stream/ome_stream_object.cpp: STUN on the UDP connection of a stream, and what is handed
-- on to the DTLS transport. The packets that are posted and the callback of the main object are
-- values of `Action`; the socket, the callback, `rand` and OpenSSL answer by arguments.
pub mod Packets
pub mod Binding
mod Tests
use Prim.Native.Nat.{bit_xor}
use oven_web_rtctester.Prelude.{
  ℕ, zero, suc, ◌+◌, ◌-◌, ◌*◌, ◌/◌, ◌%◌, ◌^◌, Bool, true, false, not, ◌&&◌, ◌||◌, Option, none,
  some, List, [], ◌∷◌, ◌++◌, ltb, ◌==◌, if◌then◌else◌, length, get_or, take, drop, replicate,
}
use oven_web_rtctester.Prelude.Bytes.{Bytes, ascii}
use oven_web_rtctester.Dtls.{Transport}
use oven_web_rtctester.Dtls.Receive.{on_data_received, start_dtls}

pub record OmeStream : Type 0 where
  pub offer_transaction_id : Bytes
  pub is_completed : Bool
  pub bind_request_packet : Option Bytes
  pub bind_response_packet : Option Bytes

pub data Action : Type 0 where
  posts : Bytes → Action
  stun_complete : Action

-- one of the eight steps of `MakeCrcTable`
abbrev pub crc_step : ℕ → ℕ
crc_step c = if c % 2 == 1 then bit_xor 3988292384 (c / 2) else c / 2

-- `crc_table[n]`
pub crc_entry : ℕ → ℕ
crc_entry n =
    crc_step (crc_step (crc_step (crc_step (crc_step (crc_step (crc_step (crc_step n)))))))

crc_loop : ℕ → Bytes → ℕ
crc_loop c [] = c
crc_loop c (b ∷ bytes) = crc_loop (bit_xor (crc_entry (bit_xor c b % 256)) (c / 256)) bytes

unfoldable pub make_crc : ℕ → Bytes → ℕ
unfolding crc_loop crc_entry
make_crc initial bytes = bit_xor (crc_loop (bit_xor initial 4294967295) bytes) 4294967295

abbrev pub magic_cookie : Bytes
magic_cookie = 33 ∷ 18 ∷ 164 ∷ 66 ∷ []

abbrev pub two_bytes : ℕ → Bytes
two_bytes n = (n / 256 % 256) ∷ (n % 256) ∷ []

-- the fingerprint attribute of what stands before it
abbrev pub finger_print : Bytes → Bytes
finger_print packet =
    let crc = bit_xor (make_crc 0 packet) 1398035790 in
    128
    ∷ 40
    ∷ 0
    ∷ 4
    ∷ (crc / 2 ^ 24 % 256)
    ∷ (crc / 2 ^ 16 % 256)
    ∷ (crc / 2 ^ 8 % 256)
    ∷ (crc % 256)
    ∷ []

abbrev pub charset : Bytes
charset = ascii "0123456789ABCDEFGHIJKLMNOPQRSTUVWXYZabcdefghijklmnopqrstuvwxyz" ++ 0 ∷ []

-- The transaction id from the next numbers of `rand`. The array counts its final zero byte.
abbrev pub transaction_id : ℕ → (ℕ → ℕ) → Bytes
transaction_id zero rand = []
transaction_id (suc n) rand =
    get_or charset (rand 0 % 63 / 1) 0 ∷ transaction_id n (λ i. rand (suc i))

-- the USERNAME attribute; a name whose size is a multiple of 4 gets four bytes of padding
unfoldable pub user_name_attribute : Bytes → Bytes
user_name_attribute name =
    let padding = 4 - length name % 4 in
    (0 ∷ 6 ∷ []) ++ (two_bytes (length name + padding) ++ (name ++ replicate padding 0))

abbrev pub with_finger_print : Bytes → Bytes
with_finger_print packet = packet ++ finger_print packet

unfoldable pub make_binding_request_packet : Bytes → Bytes → (ℕ → ℕ) → Bytes
make_binding_request_packet offer_ufrag peer_ufrag rand =
    let attribute = user_name_attribute (offer_ufrag ++ b':' ∷ peer_ufrag) in
    with_finger_print (
      0
      ∷ 1
      ∷ (two_bytes ((length attribute + 8) % 2 ^ 16)
          ++ (magic_cookie ++ (transaction_id 12 rand ++ attribute))))

unfoldable pub make_binding_response_packet : Bytes → Bytes
make_binding_response_packet offer_transaction_id =
    with_finger_print (1 ∷ 1 ∷ (two_bytes 8 ++ (magic_cookie ++ offer_transaction_id)))

-- The packet is made once and posted each time.
unfoldable pub send_binding_request : Bytes → Bytes → (ℕ → ℕ) → OmeStream → OmeStream × List Action
send_binding_request offer_ufrag peer_ufrag rand o = elim (o.bind_request_packet) [
  | some packet ↦ (o, posts packet ∷ [])
  | none ↦
      let packet = make_binding_request_packet offer_ufrag peer_ufrag rand in
      (record o { bind_request_packet = some packet }, posts packet ∷ [])
]

unfoldable pub send_binding_response : OmeStream → OmeStream × List Action
send_binding_response o = elim (o.bind_response_packet) [
  | some packet ↦ (o, posts packet ∷ [])
  | none ↦
      let packet = make_binding_response_packet (o.offer_transaction_id) in
      (record o { bind_response_packet = some packet }, posts packet ∷ [])
]

abbrev pub byte : Bytes → ℕ → ℕ
byte bytes i = get_or bytes i 0

-- the tests of `StunParsing` before the transaction id is read
unfoldable pub is_stun : Bytes → Bool
is_stun bytes =
    if ltb (length bytes) 20
    then false
    else if not (byte bytes 0 == 0 && byte bytes 1 == 1)
        && not (byte bytes 0 == 1 && byte bytes 1 == 1)
    then false
    else if ltb (length bytes) (20 + (byte bytes 2 * 2 ^ 4 + byte bytes 3) % 2 ^ 16)
    then false
    else not (
        not (byte bytes 4 == 33) && byte bytes 5 == 18 && byte bytes 6 == 164 && byte bytes 7 == 66)

-- the stream object and its DTLS transport, with the state of TLS
abbrev pub State {ℓ} : Type ℓ → Type ℓ
State T = OmeStream × (T × Transport)

-- `post_ok`, `callback_ok` and
-- `generated` are the answers of `PostSend`, `OnStunComplete_OmeStream` and `Certificate::Generate`.
module _ {ℓ} {T : Type ℓ} (connect : T → List Bytes → T × List Bytes × Bool)
    (read : T → List Bytes → T × List Bytes) (initialize : T → Option T)
    (generated post_ok callback_ok : Bool) where
  abbrev pub after_start :
      OmeStream → List Action → (T × Transport) × Bool → State T × List Action × Bool
  after_start o sent (link, true) = ((o, link), sent ++ stun_complete ∷ [], callback_ok && post_ok)
  after_start o sent (link, false) = ((o, link), sent, false)

  unfoldable pub recv_binding_request : State T → State T × List Action × Bool
  recv_binding_request (o, link) =
      let (o', sent) = send_binding_response o in
      if o'.is_completed
      then ((o', link), sent, post_ok)
      else after_start (record o' { is_completed = true }) sent
          (start_dtls connect read generated initialize link)

  unfoldable pub stun_parsing : Bytes → State T → State T × List Action × Bool
  stun_parsing bytes (o, link) =
      let o' = record o { offer_transaction_id = take 12 (drop 8 bytes) } in
      if not (is_stun bytes)
      then ((o, link), [], false)
      else if byte bytes 0 == 1 && byte bytes 1 == 1
      then ((o', link), [], true)
      else recv_binding_request (o', link)

  -- What is not STUN, and STUN that fails, goes to the transport.
  abbrev pub after_stun :
      ℕ → ℕ → Bytes → State T × List Action × Bool → State T × List Action × Option ℕ
  after_stun now time bytes (state, actions, true) = (state, actions, none)
  after_stun now time bytes ((o, link), actions, false) =
      let (link', started, accepted) = on_data_received connect read now bytes time link in
      ((o, link'), actions, started)

  unfoldable pub recv_handler : ℕ → ℕ → Bytes → State T → State T × List Action × Option ℕ
  recv_handler now time bytes state = after_stun now time bytes (stun_parsing bytes state)
