-- ===== src/Wire/Split.antt =====
-- A part of a stream of frames, cut anywhere: whole frames and the beginning of one more.
use mathlib.Core.List.{append_assoc}
use oven_web_rtctester.Prelude.{
  ℕ, ◌≤◌, ◌<◌, ◌≡◌, refl, sym, ap, ◌∙◌, inl, inr, List, [], ◌∷◌, ◌++◌, ltb, ltb→lt, Bool-cases,
  length, take, drop, replicate, length-append, length-take, take_append, take-append_le, All,
  arith,
}
use oven_web_rtctester.Prelude.Bytes.{Bytes}
use oven_web_rtctester.WebSocket.{make_text_data}
use oven_web_rtctester.WebSocket.Delivery.{Fits, frames}

-- The cut stands behind the texts of `whole`, inside a frame of `next`; `left` are the texts whose
-- frames end behind it.
pub record Cut (texts : List Bytes) (received rest : Bytes) : Type 0 where
  pub whole : List Bytes
  pub left : List Bytes
  pub next : Bytes
  pub count : ℕ
  pub texts_are : texts ≡ whole ++ left
  pub received_is : received ≡ frames whole ++ take count (make_text_data next [])
  pub rest_is : take count (make_text_data next []) ++ rest ≡ frames left
  pub leaves_none : take count (make_text_data next []) ≡ frames left → left ≡ []
  pub inside : count < length (make_text_data next [])
  pub fits_next : Fits next
  pub fits_whole : All Fits whole
  pub fits_left : All Fits left

-- What is longer than a piece in front of it begins with that piece.
begins : (f b x y : Bytes) → length f ≤ length b → b ++ x ≡ f ++ y → b ≡ f ++ drop (length f) b
begins [] b x y le e = refl
begins (c ∷ f) [] x y le e = absurd (omega arith)
begins (c ∷ f) (d ∷ b) x y le e =
    let head : d ≡ c = cc in
    let tail : b ++ x ≡ f ++ y = cc in rw head (ap (◌∷◌ c) (begins f b x y (omega arith) tail))

cancel : (f x y : Bytes) → f ++ x ≡ f ++ y → x ≡ y
cancel [] x y e = e
cancel (c ∷ f) x y e = cancel f x y (cc)

-- a text that fits, for a cut between two frames
abbrev filler : Bytes
filler = replicate 126 0

filler-Fits : Fits filler
filler-Fits = omega arith

make_nonempty : (text : Bytes) → 0 < length (make_text_data text [])
unfolding make_text_data
make_nonempty text = omega arith

both_empty : (x y : Bytes) → x ++ y ≡ [] → (x ≡ []) × (y ≡ [])
both_empty [] y e = (refl, e)
both_empty (c ∷ x) y e = absurd (omega (arith, ap length e))

-- the cut inside the first frame
Cut-inside :
    (text : Bytes) (texts : List Bytes) (received rest : Bytes)
    → Fits text
    → All Fits texts
    → received ++ rest ≡ frames (text ∷ texts)
    → length received < length (make_text_data text [])
    → Cut (text ∷ texts) received rest
Cut-inside text texts received rest fit fits_next e short =
    let f = make_text_data text [] in
    let n = length received in
    let begun : received ≡ take n f =
      sym (take_append n received rest refl)
      ∙ ap (take n) e
      ∙ take-append_le n f (frames texts) (omega arith) in
    record {
      whole = [];
      left = text ∷ texts;
      next = text;
      count = n;
      texts_are = refl;
      received_is = begun;
      rest_is = ap (λ r. r ++ rest) (sym begun) ∙ e;
      leaves_none = λ all.
          absurd (omega (arith, ap length all, length-take n f, length-append f (frames texts)));
      inside = short;
      fits_next = fit;
      fits_whole = tt;
      fits_left = (fit, fits_next);
    }

-- the cut behind the first frame, which stands in front of those of `cut`
Cut-behind :
    (text : Bytes) (texts : List Bytes) (received received' rest : Bytes)
    → Fits text
    → received ≡ make_text_data text [] ++ received'
    → Cut texts received' rest
    → Cut (text ∷ texts) received rest
Cut-behind text texts received received' rest fit e cut =
    let f = make_text_data text [] in
    record {
      whole = text ∷ cut.whole;
      left = cut.left;
      next = cut.next;
      count = cut.count;
      texts_are = ap (◌∷◌ text) cut.texts_are;
      received_is =
          e
          ∙ ap (λ r. f ++ r) cut.received_is
          ∙ sym (append_assoc f (frames cut.whole) (take cut.count (make_text_data cut.next [])));
      rest_is = cut.rest_is;
      leaves_none = cut.leaves_none;
      inside = cut.inside;
      fits_next = cut.fits_next;
      fits_whole = (fit, cut.fits_whole);
      fits_left = cut.fits_left;
    }

pub Cut-frames :
    (texts : List Bytes) (received rest : Bytes)
    → All Fits texts
    → received ++ rest ≡ frames texts
    → Cut texts received rest
Cut-frames [] received rest fits_next e =
    let (none_received, none_left) = both_empty received rest e in
    record {
      whole = [];
      left = [];
      next = filler;
      count = 0;
      texts_are = refl;
      received_is = none_received;
      rest_is = none_left;
      leaves_none = λ all. refl;
      inside = make_nonempty filler;
      fits_next = filler-Fits;
      fits_whole = tt;
      fits_left = tt;
    }
Cut-frames (text ∷ texts) received rest (fit, fits_next) e =
    let f = make_text_data text [] in
    elim (Bool-cases (ltb (length received) (length f))) [
      | inl short ↦ Cut-inside text texts received rest fit fits_next e (ltb→lt _ _ short)
      | inr long ↦
          let front = begins f received rest (frames texts) (ground arith) e in
          let received' = drop (length f) received in
          let more : received' ++ rest ≡ frames texts =
            cancel f (received' ++ rest) (frames texts)
              (sym (append_assoc f received' rest) ∙ ap (λ r. r ++ rest) (sym front) ∙ e) in
          Cut-behind text texts received received' rest fit front
            (Cut-frames texts received' rest fits_next more)
    ]
