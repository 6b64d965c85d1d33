-- ===== src/Http/Bounds.antt =====
-- The loop over the requests ends, and what it says it has read was there.
use oven_web_rtctester.Prelude.{
  ℕ, zero, suc, ◌+◌, ◌-◌, ◌≤◌, ◌<◌, ◌≡◌, refl, inl, inr, Bool, true, false, ◌||◌, some, List, [],
  ◌∷◌, ◌++◌, ◌==◌, ltb, if-cases, Option-cases, length, take, drop, length-drop, arith,
}
use oven_web_rtctester.Prelude.Int.{ℤ, pos, negsuc}
use oven_web_rtctester.Prelude.Bytes.{Bytes, find_sub, starts_with}
use oven_web_rtctester.Prelude.Outcome.{Outcome, done, no_fuel}
use oven_web_rtctester.WebSocket.{header_end}
use oven_web_rtctester.Http.{
  http_request_data_max_size, HttpResponse, HttpEvent, recv_request, Round, takes, refuses, breaks,
  take_request, Received, received, refused, put_event, on_round, recv_requests, end_of, on_done,
  recv_handler,
}

-- The blank line does not reach into the zero behind the data.
starts_with_zero : (x : Bytes) → starts_with header_end (x ++ 0 ∷ []) ≡ true → 4 ≤ length x
unfolding starts_with
starts_with_zero [] h = cc
starts_with_zero (a ∷ []) h = ground arith
starts_with_zero (a ∷ b ∷ []) h = ground arith
starts_with_zero (a ∷ b ∷ c ∷ []) h = ground arith
starts_with_zero (a ∷ b ∷ c ∷ d ∷ x) h = omega arith

find_sub_zero : (x : Bytes) (i : ℕ) → find_sub header_end (x ++ 0 ∷ []) ≡ some i → i + 4 ≤ length x
unfolding find_sub
find_sub_zero [] i h = cc
find_sub_zero (c ∷ x) i h = elim (Option-cases (find_sub header_end (x ++ 0 ∷ []))) [
  | inl e ↦ ground (arith, starts_with_zero (c ∷ x))
  | inr (j, e) ↦ ground (arith, starts_with_zero (c ∷ x), find_sub_zero x j)
]

drop-append_le : (n : ℕ) (x y : Bytes) → n ≤ length x → drop n (x ++ y) ≡ drop n x ++ y
drop-append_le zero x y h = refl
drop-append_le (suc n) [] y h = absurd (omega arith)
drop-append_le (suc n) (c ∷ x) y h = drop-append_le n x y (omega arith)

-- An end that was reached, with no more read than there is.
abbrev pub Reads : ℕ → Outcome (Received × List HttpEvent) → Type 0
Reads size (done (received read s closes, events)) = read ≤ size
Reads size (done (refused s, events)) = Unit
Reads size Outcome.fault = ⊥
Reads size no_fuel = ⊥

put_event-Reads :
    (size : ℕ) (e : HttpEvent) (o : Outcome (Received × List HttpEvent))
    → Reads size o
    → Reads size (put_event e o)
put_event-Reads size e (done (received read s closes, events)) h = h
put_event-Reads size e (done (refused s, events)) h = tt
put_event-Reads size e Outcome.fault h = h
put_event-Reads size e no_fuel h = h

on_round-Reads :
    (rest : HttpResponse → Bytes → Bool → Outcome (Received × List HttpEvent)) (size read : ℕ)
    (s : HttpResponse) (closes : Bool) (r : Round)
    → read ≤ size
    → ((s' : HttpResponse) (agent : Bytes) (closes' : Bool) → Reads size (rest s' agent closes'))
    → Reads size (on_round rest read s closes r)
on_round-Reads rest size read s closes breaks inside more = inside
on_round-Reads rest size read s closes (refuses s') inside more = tt
on_round-Reads rest size read s closes (takes s' page agent is_1_0) inside more =
    put_event-Reads size (recv_request page agent) (rest s' agent (closes || is_1_0))
      (more s' agent (closes || is_1_0))

recv_requests-Reads :
    (fuel : ℕ) (x : Bytes) (read size : ℕ) (s : HttpResponse) (agent : Bytes) (closes : Bool)
    → length x < fuel
    → read + length x ≡ size
    → Reads size (recv_requests fuel (x ++ 0 ∷ []) read s agent closes)
unfolding recv_requests
recv_requests-Reads zero x read size s agent closes enough all = absurd (omega arith)
recv_requests-Reads (suc fuel) x read size s agent closes enough all =
    elim (Option-cases (find_sub header_end (x ++ 0 ∷ []))) [
      | inl e ↦ rw (e, recv_requests) (omega (arith, all))
      | inr (i, e) ↦
          let inside = find_sub_zero x i e in
          let rest = drop (i + 4) x in
          let shorter : length rest ≡ length x - (i + 4) = length-drop (i + 4) x in
          let behind : drop (i + 4) (x ++ 0 ∷ []) ≡ rest ++ 0 ∷ [] =
            drop-append_le (i + 4) x (0 ∷ []) inside in
          rw (e, recv_requests)
            (rw behind (
              on_round-Reads (recv_requests fuel (rest ++ 0 ∷ []) (read + (i + 4))) size
                (read + (i + 4)) s closes (take_request (take (i + 3) (x ++ 0 ∷ [])) s agent)
                (omega (arith, inside, all))
                (λ s' agent' closes'.
                  recv_requests-Reads fuel rest (read + (i + 4)) size s' agent' closes'
                    (omega (arith, shorter, inside, enough))
                    (omega (arith, shorter, inside, all)))))
    ]

-- The handler's result: -1, or no more than the size of the data.
abbrev pub IsCount : ℕ → Outcome ((HttpResponse × List HttpEvent) × ℤ) → Type 0
IsCount size (done (state, pos read)) = read ≤ size
IsCount size (done (state, negsuc n)) = n ≡ 0
IsCount size Outcome.fault = ⊥
IsCount size no_fuel = ⊥

end_of-IsCount :
    (size : ℕ) (o : Outcome (Received × List HttpEvent))
    → Reads size o
    → IsCount size (on_done (end_of size) o)
end_of-IsCount size (done (received read s closes, events)) h = h
end_of-IsCount size (done (refused s, events)) h = refl
end_of-IsCount size Outcome.fault h = h
end_of-IsCount size no_fuel h = h

-- Whatever was received, the loop over its requests ends within the rounds that it is given, and the
-- handler answers -1 or a size that is not larger than the data, as its caller wants it.
pub recv_handler-IsCount :
    (text : Bytes) (s : HttpResponse) → IsCount (length text) (recv_handler text s)
unfolding recv_handler
recv_handler-IsCount text s =
    if-cases (IsCount (length text))
      (length text == 0 || ltb http_request_data_max_size (length text)) (λ bad. refl)
      (λ good.
        end_of-IsCount (length text)
          (recv_requests (suc (length text)) (text ++ 0 ∷ []) 0 s [] false)
          (recv_requests-Reads (suc (length text)) text 0 (length text) s [] false (omega arith)
            (omega arith)))
