-- ===== src/UdpManager/Removal.antt =====
-- Removal of a list of keys from the table of UDP connections.
use oven_web_rtctester.Prelude.{
  ◌≡◌, Bool, true, false, ◌||◌, Option, none, some, List, [], ◌∷◌, if◌then◌else◌, map,
}
use oven_web_rtctester.Prelude.Int.{ℤ, eqb_ℤ}
use oven_web_rtctester.Prelude.Map.{Map, lookup}
use oven_web_rtctester.UdpObject.{UdpObject, UdpEffect, waits, post_close_id}
use oven_web_rtctester.UdpManager.{UdpManager}

abbrev pub is_listed : ℤ → List ℤ → Bool
is_listed j [] = false
is_listed j (key ∷ keys) = eqb_ℤ key j || is_listed j keys

-- The connections that the keys find, each at its first key.
abbrev pub add_found : Bool → Option UdpObject → List UdpObject → List UdpObject
add_found true o found = found
add_found false none found = found
add_found false (some u) found = u ∷ found

unfoldable pub found_by : List ℤ → (ℤ → Bool) → Map UdpObject → List UdpObject
found_by [] seen m = []
found_by (key ∷ keys) seen m =
    add_found (seen key) (lookup key m) (found_by keys (λ j. eqb_ℤ key j || seen j) m)

abbrev pub not_seen : ℤ → Bool
not_seen j = false

-- What a close makes of a connection: it is closing, and its timer of a second runs, which is set
-- unless it ran already.
abbrev pub closed_as : UdpObject → UdpObject × List UdpEffect
closed_as u = (
  record u { is_closeing = true; post_close_timer = true },
  if u.post_close_timer then [] else waits post_close_id 1 ∷ [],
)

-- What stands in the table behind the removal, and what became of those that have left it.
abbrev pub Removed :
    List ℤ → Map UdpObject → UdpManager × List (UdpObject × List UdpEffect) → Type 0
Removed keys m (m', closed) =
    ((j : ℤ) → lookup j m'.udp_network_info_map ≡ (if is_listed j keys then none else lookup j m))
    × (closed ≡ map closed_as (found_by keys not_seen m))
