-- ===== src/TcpManager.antt =====
-- srcs/common/network/engine/tcp_network_manager.cpp: the table of connections and the key of the
-- next one. A connection is known by a number that stands for the object; whether its start and its
-- socket succeed are arguments, and what the manager asks of it are values of `Request`. Each method
-- holds the mutex of the map. The casts of the map's size to `uint32_t` change nothing, as the keys
-- lie below `index_key_max_size`.
pub mod Keys
pub mod Account
pub mod Valid
pub mod Accept
mod Tests
use oven_web_rtctester.Prelude.{
  ℕ, zero, suc, ◌-◌, Bool, true, false, not, ◌&&◌, Option, none, some, List, [], ◌∷◌, ◌++◌, ltb,
  leb, ◌==◌, if◌then◌else◌, length,
}
use oven_web_rtctester.Prelude.Int.{ℤ, pos, minus_one, eqb_ℤ}
use oven_web_rtctester.Prelude.Map.{Map, lookup, insert, erase}

-- INDEX_KEY_MAX_SIZE
abbrev pub index_key_max_size : ℕ
index_key_max_size = 2000000000

-- What the manager uses of a `TcpNetworkObject`.
pub record Connection : Type 0 where
  pub object : ℕ
  pub own_key : ℤ
  pub remote_ip : ℕ
  pub remote_port : ℕ

pub data Request : Type 0 where
  starts posts_close : ℕ → Request
  starts_keepalive : ℕ → ℕ → Request

pub record TcpManager : Type 0 where
  pub index_key : ℕ
  pub max_createing_count : ℕ
  pub network_info_map : Map Connection

-- the loop over the keys from `index` on, `count` of them
unfoldable pub search {ℓ} : {V : Type ℓ} → ℕ → ℕ → Map V → Option ℕ
search zero index m = none
search (suc count) index m = elim (lookup (pos index) m) [
  | none ↦ some index
  | some c ↦ search count (suc index) m
]

abbrev pub or_key : ℕ → Option ℕ → ℕ
or_key key none = key
or_key key (some found) = found

-- `_index_key` behind its reset, and behind the search if it is in use
unfoldable pub wrapped_key : ℕ → ℕ
wrapped_key key = if leb index_key_max_size key then 0 else key

unfoldable pub next_key {ℓ} : {V : Type ℓ} → ℕ → Map V → ℕ
next_key key m = elim (lookup (pos key) m) [
  | none ↦ key
  | some c ↦ or_key key (search (index_key_max_size - key) key m)
]

-- How a connection that was put into the map fares, and the keepalive that was asked for.
pub record Start : Type 0 where
  pub start_succeeds : Bool
  pub is_opened : Bool
  pub keepalive_check : Bool
  pub keepalive_check_time : ℕ

abbrev pub keepalive : Start → ℕ → List Request
keepalive s object =
    if s.keepalive_check && not (s.keepalive_check_time == 0) && s.start_succeeds
    then starts_keepalive object s.keepalive_check_time ∷ []
    else []

unfoldable pub place_object : Start → Connection → ℕ → TcpManager → TcpManager × List Request × ℤ
place_object s c key m =
    let map = insert (pos key) (record c { own_key = pos key }) m.network_info_map in
    let count =
      if ltb m.max_createing_count (length map) then length map else m.max_createing_count in
    if s.start_succeeds && s.is_opened
    then (
      record { index_key = suc key; max_createing_count = count; network_info_map = map },
      starts c.object ∷ keepalive s c.object,
      pos key,
    )
    else (
      record {
        index_key = suc key;
        max_createing_count = count;
        network_info_map = erase (pos key) map;
      },
      starts c.object ∷ (keepalive s c.object ++ posts_close c.object ∷ []),
      minus_one,
    )

abbrev pub place_if_free :
    Start → Connection → ℕ → TcpManager → Option Connection → TcpManager × List Request × ℤ
place_if_free s c key m none = place_object s c key m
place_if_free s c key m (some other) = (record m { index_key = key }, [], minus_one)

unfoldable pub insert_object :
    Start → Option Connection → TcpManager → TcpManager × List Request × ℤ
insert_object s none m = (m, [], minus_one)
insert_object s (some c) m =
    let key = next_key (wrapped_key m.index_key) m.network_info_map in
    place_if_free s c key m (lookup (pos key) m.network_info_map)

-- `FindIndexKey`, with the key where its result is true
unfoldable pub find_index_key : ℕ → ℕ → Map Connection → Option ℤ
find_index_key ip port [] = none
find_index_key ip port ((key, c) ∷ m) =
    if c.remote_ip == ip && c.remote_port == port then some c.own_key else find_index_key ip port m

abbrev pub is_valid_key : Option ℤ → Bool
is_valid_key none = false
is_valid_key (some key) = not (eqb_ℤ key minus_one)

unfoldable pub is_connected : ℕ → ℕ → TcpManager → Bool
is_connected ip port m = is_valid_key (find_index_key ip port m.network_info_map)

-- `Find`, which takes the entry out if it is told to
abbrev pub erase_if : Bool → ℤ → TcpManager → TcpManager
erase_if false key m = m
erase_if true key m = record m { network_info_map = erase key m.network_info_map }

unfoldable pub find_object : ℤ → Bool → TcpManager → TcpManager × Option Connection
find_object key erases m = elim (lookup key m.network_info_map) [
  | none ↦ (m, none)
  | some c ↦ (erase_if erases key m, some c)
]

abbrev pub close_found : TcpManager × Option Connection → TcpManager × List Request × Bool
close_found (m, none) = (m, [], false)
close_found (m, some c) = (m, posts_close c.object ∷ [], true)

unfoldable pub remove_object : ℤ → TcpManager → TcpManager × List Request × Bool
remove_object key m = close_found (find_object key true m)

-- `Remove` of a list of keys
unfoldable pub remove_objects : List ℤ → TcpManager → TcpManager × List Request
remove_objects [] m = (m, [])
remove_objects (key ∷ keys) m =
    let (m', requests, found) = remove_object key m in
    let (m'', more) = remove_objects keys m' in (m'', requests ++ more)

abbrev pub close_each : Map Connection → List Request
close_each [] = []
close_each ((key, c) ∷ m) = posts_close c.object ∷ close_each m

unfoldable pub remove_all : TcpManager → TcpManager × List Request
remove_all m = (record m { network_info_map = [] }, close_each m.network_info_map)

unfoldable pub get_count : TcpManager → ℕ
get_count m = length m.network_info_map
