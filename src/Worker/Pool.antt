-- ===== src/Worker/Pool.antt =====
-- internal/worker/pool.go: which workers a pool has, and how it ends.
mod Tests
use qtest.Prelude.{
  ◌≡◌, ◌≢◌, refl, ◌⊎◌, inl, inr, String, Bool, true, false, ◌||◌, Option, none, some, List, [], ◌∷◌,
  if◌then◌else◌, str_eq, arith,
}
use qtest.Jobs.Types.{
  JobType, ingestion, modeling, planning, generation, validation, mutation, integration, type_eq,
}
use qtest.Jobs.Subjects.{job_type_name, subject_for_job_type, is_constant, known}

-- `initWorkers`: the types of the workers that it adds, or `none` for an unknown type of worker.
unfoldable pub init_workers : String → Option (List JobType)
init_workers worker_type =
    if str_eq worker_type "all"
    then some
        (ingestion ∷ modeling ∷ planning ∷ generation ∷ validation ∷ mutation ∷ integration ∷ [])
    else if str_eq worker_type "ingestion"
    then some (ingestion ∷ [])
    else if str_eq worker_type "modeling"
    then some (modeling ∷ [])
    else if str_eq worker_type "planning"
    then some (planning ∷ [])
    else if str_eq worker_type "generation"
    then some (generation ∷ [])
    else if str_eq worker_type "validation"
    then some (validation ∷ [])
    else if str_eq worker_type "mutation"
    then some (mutation ∷ [])
    else if str_eq worker_type "integration"
    then some (integration ∷ [])
    else none

pub data PoolEnd : Type 0 where
  no_workers stopped : PoolEnd
  worker_failed : String → PoolEnd

-- `Run`, by the first error of a worker, if one comes before the context is done.
unfoldable pub run_pool : List JobType → Option String → PoolEnd
run_pool [] first = no_workers
run_pool (t ∷ ts) none = stopped
run_pool (t ∷ ts) (some e) = worker_failed e

unfoldable pub has_worker : JobType → List JobType → Bool
has_worker t [] = false
has_worker t (s ∷ ss) = type_eq s t || has_worker t ss

constant_worker :
    (j : JobType)
    → is_constant j ≡ true
    → ((ts : List JobType) × (init_workers "all" ≡ some ts) × (has_worker j ts ≡ true))
      × (init_workers (job_type_name j) ≡ some (j ∷ []))
unfolding init_workers has_worker
constant_worker ingestion h = ((_, refl, refl), refl)
constant_worker modeling h = ((_, refl, refl), refl)
constant_worker planning h = ((_, refl, refl), refl)
constant_worker generation h = ((_, refl, refl), refl)
constant_worker validation h = ((_, refl, refl), refl)
constant_worker mutation h = ((_, refl, refl), refl)
constant_worker integration h = ((_, refl, refl), refl)
constant_worker (JobType.other s) h = cc

-- Each type of job that is published to a subject has a worker in the pool of all types, and the
-- pool that is named after the type is that worker alone.
pub init_workers-has_worker :
    (t : String)
    → subject_for_job_type t ≢ ""
    → (j : JobType) × (t ≡ job_type_name j)
      × ((ts : List JobType) × (init_workers "all" ≡ some ts) × (has_worker j ts ≡ true))
      × (init_workers t ≡ some (j ∷ []))
init_workers-has_worker t h = elim (known t) [
  | inr (none', _) ↦ absurd (h none')
  | inl (j, c, e) ↦ let (all_types, alone) = constant_worker j c in (j, e, all_types, rw e alone)
]
