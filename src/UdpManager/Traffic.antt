-- ===== src/UdpManager/Traffic.antt =====
-- The traffic of all UDP connections of a table.
use oven_web_rtctester.Prelude.{
  ℕ, ◌+◌, ◌%◌, ◌^◌, ◌<◌, ◌≡◌, refl, Option, none, some, [], ◌∷◌, arith,
}
use oven_web_rtctester.Prelude.Int.{ℤ}
use oven_web_rtctester.Prelude.Map.{Map, lookup, on_some}
use oven_web_rtctester.UdpObject.{UdpObject, get_traffic_rate}
use oven_web_rtctester.UdpManager.{add_rates, total_traffic_rate}

abbrev pub rate_sum : Option (ℕ × ℕ) → ℕ
rate_sum none = 0
rate_sum (some (send_bitrate, recv_bitrate)) = send_bitrate + recv_bitrate

-- The rates of the connections that report one, summed up.
unfoldable pub sum_of_rates : ℕ → Map UdpObject → ℕ
sum_of_rates now [] = 0
sum_of_rates now ((key, u) ∷ m) = rate_sum (get_traffic_rate now u).1 + sum_of_rates now m

-- What the reports make of the table.
abbrev pub Totals : ℕ → Map UdpObject → ℕ → Map UdpObject × ℕ → Type 0
Totals now m rate (m', total) =
    (total ≡ (rate + sum_of_rates now m) % 2 ^ 64)
    × ((j : ℤ) → lookup j m' ≡ on_some (λ u. (get_traffic_rate now u).0) (lookup j m))

add_rates_lem :
    (rate : ℕ) (rates : Option (ℕ × ℕ))
    → rate < 2 ^ 64
    → add_rates rate rates ≡ (rate + rate_sum rates) % 2 ^ 64
add_rates_lem rate none small = omega (arith, small)
add_rates_lem rate (some (s, r)) small = refl

-- The total is the sum of the rates of the connections that report one, modulo 2^64, and each
-- connection is left as its own report leaves it, under the key it had.
pub total_traffic_rate-Totals :
    (now : ℕ) (m : Map UdpObject) (rate : ℕ)
    → rate < 2 ^ 64
    → Totals now m rate (total_traffic_rate now m rate)
unfolding total_traffic_rate sum_of_rates lookup
total_traffic_rate-Totals now [] rate small = (omega (arith, small), λ j. refl)
total_traffic_rate-Totals now ((key, u) ∷ m) rate small =
    let rates = (get_traffic_rate now u).1 in
    let first = add_rates_lem rate rates small in
    let (sum, stands) =
      total_traffic_rate-Totals now m (add_rates rate rates) (omega (arith, first)) in
    (omega (arith, sum, first), λ j. ground (arith, stands j))
