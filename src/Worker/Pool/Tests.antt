-- ===== src/Worker/Pool/Tests.antt =====
-- The pools of internal/worker/pool.go.
use qtest.Prelude.{◌≡◌, refl, none, some, [], ◌∷◌}
use qtest.Jobs.Types.{mutation}
use qtest.Worker.Pool.{PoolEnd, init_workers, run_pool}

one_worker : init_workers "mutation" ≡ some (mutation ∷ [])
unfolding init_workers
one_worker = refl

no_pool : init_workers "reporting" ≡ none
unfolding init_workers
no_pool = refl

first_error : run_pool (mutation ∷ []) (some "lost") ≡ PoolEnd.worker_failed "lost"
unfolding run_pool
first_error = refl
