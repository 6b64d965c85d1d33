-- ===== src/ServicePool.antt =====
-- srcs/common/network/engine/network_service_pool.cpp: which service a connection gets. A service is
-- its position in the pool; the services and their threads are boost::asio's, of which the pool
-- keeps here whether each thread can be joined. The mutex of the indices makes a call one step.
pub mod Rotation
mod Tests
use oven_web_rtctester.Prelude.{
  ℕ, suc, ◌+◌, ◌/◌, Bool, true, false, not, Option, none, some, List, [], ◌∷◌, ◌++◌, ltb, leb, ◌==◌,
  if◌then◌else◌, length, take, drop, replicate,
}
use oven_web_rtctester.Prelude.Int.{ℤ, pos, negsuc}

pub record ServicePool : Type 0 where
  pub pool_count : ℕ
  pub is_run : Bool
  pub service_index : ℕ
  pub private_service_index : ℕ
  pub network_threads : List Bool

abbrev pub count_of : ℕ → ℤ → ℕ
count_of hardware_concurrency (pos n) = if n == 0 then hardware_concurrency else n
count_of hardware_concurrency (negsuc n) = hardware_concurrency

unfoldable pub new_pool : ℕ → ℤ → ServicePool
new_pool hardware_concurrency requested = record {
  pool_count = count_of hardware_concurrency requested;
  is_run = false;
  service_index = 0;
  private_service_index = 0;
  network_threads = [];
}

unfoldable pub run_pool : ServicePool → ServicePool
run_pool p = if p.is_run then p else record p {
  is_run = true;
  network_threads = p.network_threads ++ replicate p.pool_count true;
}

abbrev pub all_joinable : List Bool → Bool
all_joinable [] = true
all_joinable (joinable ∷ threads) = if joinable then all_joinable threads else false

-- `none` is the exception of a thread that is joined a second time
unfoldable pub stop_pool : ServicePool → Option ServicePool
stop_pool p =
    if not p.is_run
    then some p
    else if all_joinable (take p.pool_count p.network_threads)
    then some (record p {
      is_run = false;
      network_threads = replicate p.pool_count false ++ drop p.pool_count p.network_threads;
    })
    else none

-- the index behind one that was used
abbrev pub moved_on : ServicePool → ℕ
moved_on p =
    if leb p.pool_count (suc p.service_index) then p.private_service_index else suc p.service_index

unfoldable pub get_service : ServicePool → ServicePool × Option ℕ
get_service p =
    if not p.is_run
    then (p, none)
    else (record p { service_index = moved_on p }, some p.service_index)

unfoldable pub get_private_service : ServicePool → ServicePool × Option ℕ
get_private_service p =
    if not p.is_run
    then (p, none)
    else if ltb p.private_service_index (p.pool_count / 3)
    then (
      record p { private_service_index = suc p.private_service_index },
      some p.private_service_index,
    )
    else (record p { service_index = moved_on p }, some p.service_index)
