-- ===== src/TcpObject/Order.antt =====
-- What is posted is written in the order in which it was accepted, one write at a time.
use mathlib.Core.List.{append-nil, append_assoc}
use oven_web_rtctester.Prelude.{
  ◌≡◌, refl, sym, ap, ◌∙◌, inl, inr, Bool, true, false, ◌||◌, List, [], ◌∷◌, ◌++◌, ◌==◌,
  if◌then◌else◌, length, drop, length-append, Bool-cases, arith,
}
use oven_web_rtctester.Prelude.Bytes.{Bytes}
use oven_web_rtctester.TcpObject.{
  TcpObject, Effect, writes, reads, closes_network, sets_close_timer, over_limit, post_send,
  on_send,
}

-- A call of `PostSend`, or the end of a write, with its error.
pub data Event : Type 0 where
  posts : Bytes → Event
  ends : Bool → Event

-- the packets that a list of effects starts to write
abbrev pub written : List Effect → List Bytes
written [] = []
written (writes packet ∷ effects) = packet ∷ written effects
written (reads ∷ effects) = written effects
written (closes_network ∷ effects) = written effects
written (sets_close_timer ∷ effects) = written effects

-- the state behind, what is accepted for sending, and what is started to be written
abbrev pub handle : Event → TcpObject → TcpObject × List Bytes × List Bytes
handle (posts packet) t =
    let (t', effects, accepted) = post_send true packet t in
    (t', (if accepted then packet ∷ [] else []), written effects)
handle (ends error) t = let (t', effects) = on_send true error t in (t', [], written effects)

pub handle_all : List Event → TcpObject → TcpObject × List Bytes × List Bytes
handle_all [] t = (t, [], [])
handle_all (e ∷ es) t =
    let (t', accepted, started) = handle e t in
    let (t'', accepted', started') = handle_all es t' in
    (t'', accepted ++ accepted', started ++ started')

-- The front of the queue is being written; what is accepted joins what waits behind it.
abbrev Ordered : Event → TcpObject → Type 0
Ordered e t =
    let (t', accepted, started) = handle e t in
    drop 1 t.send_datas ++ accepted ≡ started ++ drop 1 t'.send_datas

not_one : (q : List Bytes) (x packet : Bytes) → (length (x ∷ (q ++ packet ∷ [])) == 1) ≡ false
not_one q x packet = ground (arith, length-append q (packet ∷ []))

posts-Ordered :
    (packet : Bytes) (t : TcpObject) (q : List Bytes) → t.send_datas ≡ q → Ordered (posts packet) t
unfolding post_send
posts-Ordered packet t [] is = ground (arith, is)
posts-Ordered packet t (x ∷ q) is = elim (Bool-cases (length packet == 0)) [
  | inl empty ↦ rw (empty, is) (append-nil q)
  | inr some_bytes ↦ rw some_bytes (elim (Bool-cases t.is_closing) [
    | inl closing ↦ rw (closing, is) (append-nil q)
    | inr live ↦ rw live (elim (Bool-cases (over_limit t.max_send_data_size packet)) [
      | inl large ↦ rw (large, is) (append-nil q)
      | inr fine ↦ rw (fine, is, not_one q x packet) refl
    ])
  ])
]

fails-Ordered : (t : TcpObject) → Ordered (ends true) t
unfolding on_send
fails-Ordered t = elim (Bool-cases t.is_closing) [
  | inl closing ↦ rw closing (append-nil (drop 1 t.send_datas))
  | inr live ↦ rw live (append-nil (drop 1 t.send_datas))
]

pops-Ordered :
    (t : TcpObject) (q : List Bytes)
    → (t.is_closing || t.network_error) ≡ false
    → t.send_datas ≡ q
    → Ordered (ends false) t
unfolding on_send
pops-Ordered t [] live is = rw (live, is) refl
pops-Ordered t (x ∷ []) live is = elim (Bool-cases t.send_complete_close) [
  | inl last ↦ rw (live, is, last) refl
  | inr more ↦ rw (live, is, more) refl
]
pops-Ordered t (x ∷ y ∷ q) live is = rw (live, is) (append-nil (y ∷ q))

ends-Ordered : (error : Bool) (t : TcpObject) → Ordered (ends error) t
unfolding on_send
ends-Ordered true t = fails-Ordered t
ends-Ordered false t = elim (Bool-cases (t.is_closing || t.network_error)) [
  | inl closing ↦ rw closing (append-nil (drop 1 t.send_datas))
  | inr live ↦ pops-Ordered t t.send_datas live refl
]

handle-Ordered : (e : Event) (t : TcpObject) → Ordered e t
handle-Ordered (posts packet) t = posts-Ordered packet t t.send_datas refl
handle-Ordered (ends error) t = ends-Ordered error t

-- Over any sequence of posts and ends of writes on an open socket: what waited, with what was
-- accepted, is what was started to be written, with what still waits behind the front of the queue.
-- So packets go out in the order in which they were accepted, none twice and none left out.
pub handle_all-order :
    (es : List Event) (t : TcpObject)
    → let (t', accepted, started) = handle_all es t in
      drop 1 t.send_datas ++ accepted ≡ started ++ drop 1 t'.send_datas
unfolding handle_all
handle_all-order [] t = append-nil (drop 1 t.send_datas)
handle_all-order (e ∷ es) t =
    let (t', accepted, started) = handle e t in
    let (t'', accepted', started') = handle_all es t' in
    sym (append_assoc (drop 1 t.send_datas) accepted accepted')
    ∙ ap (λ xs. xs ++ accepted') (handle-Ordered e t)
    ∙ append_assoc started (drop 1 t'.send_datas) accepted'
    ∙ ap (λ xs. started ++ xs) (handle_all-order es t')
    ∙ sym (append_assoc started started' (drop 1 t''.send_datas))
