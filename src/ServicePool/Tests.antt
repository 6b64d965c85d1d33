-- ===== src/ServicePool/Tests.antt =====
-- Tests and instances for the pool of services.
use oven_web_rtctester.Prelude.{◌≤◌, ◌<◌, ◌≡◌, refl, true, List, [], ◌∷◌, All, length, some, arith}
use oven_web_rtctester.Prelude.Int.{pos}
use oven_web_rtctester.ServicePool.{
  ServicePool, new_pool, run_pool, get_service, get_private_service,
}
use oven_web_rtctester.ServicePool.Rotation.{
  Demand, shared, dedicated, IsGiven, serve, serve_all, serve_all-InPool,
}

abbrev four : ServicePool
four = record {
  pool_count = 4;
  is_run = true;
  service_index = 0;
  private_service_index = 0;
  network_threads = true ∷ true ∷ true ∷ true ∷ [];
}

abbrev demands : List Demand
demands = dedicated ∷ shared ∷ shared ∷ dedicated ∷ shared ∷ shared ∷ []

given : (serve_all demands four).1 ≡ some 0 ∷ some 0 ∷ some 1 ∷ some 2 ∷ some 3 ∷ some 1 ∷ []
unfolding serve_all serve get_service get_private_service
given = refl

serve_all-InPool_example :
    ((serve_all demands (run_pool (new_pool 8 (pos 4)))).0.service_index < 4)
    × ((serve_all demands (run_pool (new_pool 8 (pos 4)))).0.private_service_index ≤ 1)
    × All (IsGiven 4) (serve_all demands (run_pool (new_pool 8 (pos 4)))).1
    × (length (serve_all demands (run_pool (new_pool 8 (pos 4)))).1 ≡ length demands)
serve_all-InPool_example = serve_all-InPool 8 (pos 4) demands (omega arith)
