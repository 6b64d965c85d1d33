-- ===== src/UdpManager/Insertion.antt =====
-- Insertion into the table of UDP connections.
use oven_web_rtctester.Prelude.{
  ℕ, ◌≤◌, ◌<◌, ◌≡◌, refl, ap, ◌∙◌, inl, inr, none, some, if◌then◌else◌, arith,
}
use oven_web_rtctester.Prelude.Int.{ℤ, pos, negsuc, eqb_ℤ}
use oven_web_rtctester.Prelude.Map.{lookup, lookup-insert}
use oven_web_rtctester.TcpManager.{index_key_max_size, wrapped_key, next_key}
use oven_web_rtctester.TcpManager.Keys.{Taken, Tried, next_key-Tried, wrapped_key_bound}
use oven_web_rtctester.UdpObject.{UdpObject}
use oven_web_rtctester.UdpManager.{UdpManager, put_object, put_if_free, insert_udp_object}

-- What an insertion does: the answered key was the least free one from the counter on and holds the
-- connection, which knows it, or there was none; every other entry stays.
abbrev pub Put : UdpObject → UdpManager → UdpManager × ℤ → Type 0
Put u m (m', pos key) =
    (wrapped_key m.udp_index ≤ key)
    × (key < index_key_max_size)
    × (lookup (pos key) m.udp_network_info_map ≡ none)
    × Taken (wrapped_key m.udp_index) key m.udp_network_info_map
    × ((j : ℤ)
        → lookup j m'.udp_network_info_map ≡ (
            if eqb_ℤ (pos key) j
            then some (record u { udp_index_key = pos key })
            else lookup j m.udp_network_info_map))
Put u m (m', negsuc n) =
    Taken (wrapped_key m.udp_index) index_key_max_size m.udp_network_info_map
    × (m'.udp_network_info_map ≡ m.udp_network_info_map)

put_if_free-Put :
    (u : UdpObject) (m : UdpManager) (key : ℕ)
    → Tried (wrapped_key m.udp_index) m.udp_network_info_map key
    → Put u m (put_if_free u key m (lookup (pos key) m.udp_network_info_map))
unfolding put_object
put_if_free-Put u m key (inl (low, high, free, below)) = rw free (
  low,
  high,
  free,
  below,
  λ j. lookup-insert (pos key) j (record u { udp_index_key = pos key }) m.udp_network_info_map,
)
put_if_free-Put u m key (inr (same, taken)) =
    let (other, used) =
      taken (wrapped_key m.udp_index) (omega arith) (wrapped_key_bound m.udp_index) in
    let stuck : lookup (pos key) m.udp_network_info_map ≡ some other =
      ap (λ i. lookup (pos i) m.udp_network_info_map) same ∙ used in
    rw stuck (taken, refl)

-- A UDP connection is put in under the least free key from the counter on, and fails only if every
-- key from there to the largest is in use; every other entry stays as it was.
pub insert_udp_object-Put :
    (u : UdpObject) (m : UdpManager) → Put u m (insert_udp_object (some u) m)
unfolding insert_udp_object
insert_udp_object-Put u m =
    put_if_free-Put u m (next_key (wrapped_key m.udp_index) m.udp_network_info_map) (
      next_key-Tried (wrapped_key m.udp_index) m.udp_network_info_map
        (wrapped_key_bound m.udp_index))
