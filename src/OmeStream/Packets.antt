-- ===== src/OmeStream/Packets.antt =====
-- The packets that the stream object builds, read by its own parser.
use oven_web_rtctester.Prelude.{
  ℕ, zero, suc, ◌+◌, ◌-◌, ◌*◌, ◌/◌, ◌%◌, ◌<◌, ◌≡◌, refl, ap, Bool, true, Option, List, [], ◌∷◌,
  ◌++◌, length, replicate, length-append, length-replicate, take_append, arith,
}
use oven_web_rtctester.Prelude.Bytes.{Bytes}
use oven_web_rtctester.Dtls.{Transport}
use oven_web_rtctester.OmeStream.{
  OmeStream, byte, finger_print, transaction_id, user_name_attribute, make_binding_request_packet,
  make_binding_response_packet, is_stun, stun_parsing,
}

length-transaction_id : (n : ℕ) (rand : ℕ → ℕ) → length (transaction_id n rand) ≡ n
length-transaction_id zero rand = refl
length-transaction_id (suc n) rand = ap suc (length-transaction_id n (λ i. rand (suc i)))

-- four bytes of header, the name, and what fills up to a multiple of four
length-user_name_attribute :
    (name : Bytes) → length (user_name_attribute name) ≡ 8 + 4 * (length name / 4)
unfolding user_name_attribute
length-user_name_attribute name =
    let pad = length-replicate {A = ℕ} (4 - length name % 4) 0 in
    omega (arith, pad, length-append name (replicate (4 - length name % 4) 0))

length-finger_print : (xs before : Bytes) → length (xs ++ finger_print before) ≡ length xs + 8
length-finger_print xs before = length-append xs (finger_print before)

response_is_stun : (id : Bytes) → length id ≡ 12 → is_stun (make_binding_response_packet id) ≡ true
unfolding is_stun make_binding_response_packet
response_is_stun id twelve =
    ground
      (arith, twelve, length-append id (finger_print (1 ∷ 1 ∷ 0 ∷ 8 ∷ 33 ∷ 18 ∷ 164 ∷ 66 ∷ id)))

module _ {ℓ} {T : Type ℓ} (connect : T → List Bytes → T × List Bytes × Bool)
    (read : T → List Bytes → T × List Bytes) (initialize : T → Option T)
    (generated post_ok callback_ok : Bool) where
  -- A binding response that is made for a 12-byte transaction id is accepted by the parser, which
  -- keeps that id, posts nothing and leaves the transport alone.
  pub stun_parsing-make_response :
      (id : Bytes) (o : OmeStream) (link : T × Transport)
      → length id ≡ 12
      → stun_parsing connect read initialize generated post_ok callback_ok
          (make_binding_response_packet id)
          (o, link)
        ≡ ((record o { offer_transaction_id = id }, link), [], true)
  unfolding stun_parsing make_binding_response_packet
  stun_parsing-make_response id o link twelve =
      rw (response_is_stun id twelve, take_append 12 id _ twelve) refl

abbrev pub declared : Bytes → ℕ
declared packet = byte packet 2 * 256 + byte packet 3

-- A binding request is as long as its header declares, a multiple of four, and the parser takes it
-- for STUN: when the names are short enough for the 16-bit length.
pub make_binding_request-length :
    (offer_ufrag peer_ufrag : Bytes) (rand : ℕ → ℕ)
    → length offer_ufrag + length peer_ufrag < 65000
    → let packet = make_binding_request_packet offer_ufrag peer_ufrag rand in
      (length packet ≡ 20 + declared packet) × (declared packet % 4 ≡ 0) × (is_stun packet ≡ true)
unfolding make_binding_request_packet is_stun
make_binding_request-length offer_ufrag peer_ufrag rand small =
    let name = offer_ufrag ++ b':' ∷ peer_ufrag in
    let attribute = user_name_attribute name in
    let size = length-user_name_attribute name in
    let name_size = length-append offer_ufrag (b':' ∷ peer_ufrag) in
    let total = length-finger_print attribute in
    rw (total _) (ground (arith, small, size, name_size))
