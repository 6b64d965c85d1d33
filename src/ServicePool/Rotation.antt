-- ===== src/ServicePool/Rotation.antt =====
-- The services that the pool gives out.
use mathlib.Core.Path.{subst}
use oven_web_rtctester.Prelude.{
  ℕ, zero, suc, ◌+◌, ◌/◌, ◌≤◌, ◌<◌, ◌≡◌, refl, ap, Bool, true, false, Option, none, some, List, [],
  ◌∷◌, length, All, arith,
}
use oven_web_rtctester.Prelude.Int.{ℤ, pos}
use oven_web_rtctester.ServicePool.{
  ServicePool, count_of, new_pool, run_pool, stop_pool, get_service, get_private_service,
}

-- The calls for a service.
pub data Demand : Type 0 where
  shared dedicated : Demand

unfoldable pub serve : Demand → ServicePool → ServicePool × Option ℕ
unfolding get_service get_private_service
serve shared p = get_service p
serve dedicated p = get_private_service p

unfoldable pub serve_all : List Demand → ServicePool → ServicePool × List (Option ℕ)
unfolding serve
serve_all [] p = (p, [])
serve_all (d ∷ ds) p =
    let (p', given) = serve d p in let (p'', more) = serve_all ds p' in (p'', given ∷ more)

-- The indices stand inside the pool, and a third of it at most is dedicated.
abbrev pub InPool : ServicePool → Type 0
InPool p = (p.service_index < p.pool_count) × (p.private_service_index ≤ p.pool_count / 3)

abbrev pub IsGiven : ℕ → Option ℕ → Type 0
IsGiven n none = ⊥
IsGiven n (some index) = index < n

serve-InPool :
    (d : Demand) (p : ServicePool)
    → p.is_run ≡ true
    → InPool p
    → let (p', given) = serve d p in
      (p'.is_run ≡ true) × (p'.pool_count ≡ p.pool_count) × InPool p' × IsGiven p.pool_count given
unfolding serve get_service get_private_service
serve-InPool shared p running inside = ground arith
serve-InPool dedicated p running inside = ground arith

serve_all_inside :
    (ds : List Demand) (p : ServicePool)
    → p.is_run ≡ true
    → InPool p
    → let (p', given) = serve_all ds p in
      (p'.service_index < p.pool_count)
      × (p'.private_service_index ≤ p.pool_count / 3)
      × All (IsGiven p.pool_count) given
      × (length given ≡ length ds)
unfolding serve_all
serve_all_inside [] p running inside = (inside.0, inside.1, tt, refl)
serve_all_inside (d ∷ ds) p running inside =
    let (p', given) = serve d p in
    let (running', same, inside', one) = serve-InPool d p running inside in
    let (low, third, more, count) = serve_all_inside ds p' running' inside' in
    (
      omega (arith, low, same),
      omega (arith, third, same),
      (one, subst (λ n. All (IsGiven n) (serve_all ds p').1) same more),
      ap suc count,
    )

-- Whatever services a pool of one or more is asked for once it runs, in whatever order, each call gives
-- one, with an index inside the pool, and never is more than a third of the pool dedicated. The count
-- is the one asked for, or that of the processors where it is 0 or less.
pub serve_all-InPool :
    (hardware : ℕ) (requested : ℤ) (ds : List Demand)
    → 0 < count_of hardware requested
    → let (p', given) = serve_all ds (run_pool (new_pool hardware requested)) in
      (p'.service_index < count_of hardware requested)
      × (p'.private_service_index ≤ count_of hardware requested / 3)
      × All (IsGiven (count_of hardware requested)) given
      × (length given ≡ length ds)
unfolding run_pool new_pool
serve_all-InPool hardware requested ds some_services =
    let p = run_pool (new_pool hardware requested) in
    serve_all_inside ds p refl (some_services, omega arith)

-- Where neither a count nor processors are known, the pool is empty, and a call gives its first service
-- all the same.
pub get_service_empty : (get_service (run_pool (new_pool 0 (pos 0)))).1 ≡ some 0
unfolding get_service run_pool new_pool
get_service_empty = refl

-- A pool of three services or more gives the first one as a dedicated service and then again as a
-- shared one.
pub dedicated_shared :
    (hardware : ℕ) (n : ℕ)
    → (serve_all (dedicated ∷ shared ∷ []) (run_pool (new_pool hardware (pos (n + 3))))).1
      ≡ some 0 ∷ some 0 ∷ []
unfolding serve_all serve get_service get_private_service run_pool new_pool
dedicated_shared hardware n = ground arith

-- A pool whose first thread was joined cannot be stopped after it was run again.
pub stop_again :
    (n : ℕ) (p : ServicePool) (threads : List Bool)
    → p.is_run ≡ false
    → p.pool_count ≡ suc n
    → p.network_threads ≡ false ∷ threads
    → stop_pool (run_pool p) ≡ none
unfolding stop_pool run_pool
stop_again n p threads stopped some_threads joined = ground arith

-- From the first service that is not dedicated, one round gives each such service once, in order,
-- and comes back to where it started.
unfoldable pub from_to : ℕ → ℕ → List (Option ℕ)
from_to zero first = []
from_to (suc count) first = some first ∷ from_to count (suc first)

unfoldable pub shared_calls : ℕ → List Demand
shared_calls zero = []
shared_calls (suc count) = shared ∷ shared_calls count

get_service_next :
    (p : ServicePool)
    → p.is_run ≡ true
    → suc p.service_index < p.pool_count
    → get_service p ≡ (record p { service_index = suc p.service_index }, some p.service_index)
unfolding get_service
get_service_next p running more = ground arith

pub serve_all_round :
    (count : ℕ) (p : ServicePool)
    → p.is_run ≡ true
    → p.service_index + suc count ≡ p.pool_count
    → serve_all (shared_calls (suc count)) p
      ≡ (record p { service_index = p.private_service_index }, from_to (suc count) p.service_index)
unfolding serve_all serve get_service shared_calls from_to
serve_all_round zero p running last = ground arith
serve_all_round (suc count) p running more =
    let p' : ServicePool = record p { service_index = suc p.service_index } in
    let first = get_service_next p running (omega (arith, more)) in
    let rest = serve_all_round count p' running (omega (arith, more)) in
    rw first (ap (λ r. (r.0, some p.service_index ∷ r.1)) rest)
