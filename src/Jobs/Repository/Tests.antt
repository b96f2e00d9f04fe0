-- ===== src/Jobs/Repository/Tests.antt =====
-- Runs of the methods of internal/jobs/repository.go.
use mathlib.Core.List.{Perm}
use qtest.Prelude.{
  take, ℕ, ◌<◌, ◌≤◌, ◌≢◌, ◌≡◌, refl, inr, Bool, false, none, some, List, [], ◌∷◌, arith, ◌⊎◌,
  select,
}
use qtest.Prelude.Int.{ℤ, ◌+ℤ◌}
use qtest.Jobs.Types.{
  Job, generation, mutation, pending, running, retrying, cancelled, completed, failed, JobStatus,
  status_eq,
}
use qtest.Jobs.Store.{Db, World, ok, err, find, first_match, touch, not_cancellable, not_retrying}
use qtest.Jobs.Repository
use qtest.Jobs.Repository.{
  claimable, claimed_row, completed_row, failed_row, cancelled_row, requeued_row, retryable,
  inserted_row, is_some,
}
use qtest.Jobs.Queries.{list_by_status}
use qtest.Jobs.Repository.Rows.{inserted_row-IsSound}
use qtest.Jobs.Repository.Steps.{Op}
use qtest.Jobs.Repository.Invariant.{
  Turn, world, run_turn, run_turns, IsValid, Follows, run_turns-IsValid, run_turn-Follows,
}
use qtest.Jobs.Repository.Held.{run_turns-Held}
use qtest.Jobs.Repository.Claims.{claim-claim}
use qtest.Jobs.Repository.Outcomes.{is_ok}
use qtest.Jobs.Repository.Commits.{
  Stores, claim_commits, complete_commits, fail_commits, cancel_commits, retry_commits,
}
use qtest.Jobs.Repository.Lists.{UrgentFirst, list_by_status-UrgentFirst}

-- A new job, and the tables that have it alone.
abbrev waiting_job : Job
waiting_job = record {
  id = 1;
  job_type = generation;
  status = pending;
  priority = ℤ.pos 2;
  repository_id = none;
  generation_run_id = none;
  parent_job_id = none;
  payload = "{}";
  result = none;
  error_message = none;
  error_details = none;
  retry_count = 0;
  max_retries = 3;
  created_at = ℤ.pos 10;
  updated_at = ℤ.pos 10;
  started_at = none;
  completed_at = none;
  locked_until = none;
  worker_id = none;
}

abbrev second_job : Job
second_job = record waiting_job { id = 2; job_type = mutation; parent_job_id = some 1 }

abbrev one_job : Db
one_job = record { jobs = waiting_job ∷ []; history = []; repositories = []; generation_runs = [] }

abbrev calm : ℕ → Bool
calm n = false

abbrev running_job : Job
running_job = record waiting_job {
  status = running;
  worker_id = some "w1";
  locked_until = some (ℤ.pos 100);
  started_at = some (ℤ.pos 20);
}

abbrev retrying_job : Job
retrying_job = record waiting_job { status = retrying; retry_count = 1 }

abbrev holding : Job → Db
holding job = record one_job { jobs = job ∷ [] }

abbrev in_world : Db → World
in_world db = world (record { clock = ℤ.pos 30; fault = calm; op = Op.cleanup (ℤ.pos 30) }) db

abbrev turn : ℤ → (ℕ → Bool) → Op → Turn
turn clock fault op = record { clock = clock; fault = fault; op = op }

one_job-IsValid : IsValid one_job
unfolding find first_match
one_job-IsValid = record {
  distinct = (refl, tt);
  sound = (inserted_row-IsSound waiting_job refl, tt);
  logged = tt;
}

-- A second job is stored, both are claimed, one fails and is put back, the other is completed.
abbrev busy_turns : List Turn
busy_turns =
    turn (ℤ.pos 20) calm (Op.create second_job)
    ∷ turn (ℤ.pos 21) calm (Op.claim 11 1 "w1" (ℤ.pos 50) (ℤ.pos 21))
    ∷ turn (ℤ.pos 22) calm (Op.claim 12 2 "w2" (ℤ.pos 50) (ℤ.pos 22))
    ∷ turn (ℤ.pos 23) calm (Op.fail 13 1 "boom" none (ℤ.pos 23))
    ∷ turn (ℤ.pos 24) calm (Op.retry 14 1 (ℤ.pos 24))
    ∷ turn (ℤ.pos 25) calm (Op.complete 15 2 (some "{}") (ℤ.pos 25))
    ∷ []

run_turns-IsValid_example : IsValid (run_turns busy_turns one_job)
run_turns-IsValid_example =
    run_turns-IsValid busy_turns one_job (refl, (tt, (tt, (tt, (tt, (tt, tt)))))) one_job-IsValid

run_turn-Follows_example :
    Follows waiting_job
      (run_turn (turn (ℤ.pos 21) calm (Op.claim 11 1 "w1" (ℤ.pos 50) (ℤ.pos 21))) one_job)
unfolding find first_match
run_turn-Follows_example =
    run_turn-Follows (turn (ℤ.pos 21) calm (Op.claim 11 1 "w1" (ℤ.pos 50) (ℤ.pos 21))) one_job
      waiting_job tt (refl, tt) refl

abbrev other_turns : List Turn
other_turns =
    turn (ℤ.pos 31) calm (Op.claim 11 1 "w2" (ℤ.pos 50) (ℤ.pos 31))
    ∷ turn (ℤ.pos 32) calm (Op.cancel 12 1 (ℤ.pos 32))
    ∷ turn (ℤ.pos 33) calm (Op.cleanup (ℤ.pos 33))
    ∷ []

run_turns-Held_example :
    find 1 (run_turns other_turns (holding running_job)).jobs ≡ some running_job
unfolding find first_match
run_turns-Held_example =
    run_turns-Held running_job "w1" (ℤ.pos 100)
      (record { status = refl; worker_id = refl; locked_until = refl }) other_turns
      (holding running_job) (inr (omega arith), (tt, (omega arith, tt))) refl

claim-claim_example :
    let w = in_world one_job in
    let w' = in_world (Repository.claim 11 1 "w1" (ℤ.pos 50) (ℤ.pos 30) w).1.committed in
    ((is_ok (Repository.claim 12 1 "w2" (ℤ.pos 5) (ℤ.pos 40) w').0 ≡ false)
      ⊎ ((Repository.claim 12 1 "w2" (ℤ.pos 5) (ℤ.pos 40) w').0 ≡ ok none))
    × ((Repository.claim 12 1 "w2" (ℤ.pos 5) (ℤ.pos 40) w').1.committed ≡ w'.committed)
unfolding Repository.claim find first_match ◌+ℤ◌
claim-claim_example =
    let w = in_world one_job in
    claim-claim 11 12 1 "w1" "w2" (ℤ.pos 50) (ℤ.pos 5) (ℤ.pos 30) (ℤ.pos 40) w
      (in_world (Repository.claim 11 1 "w1" (ℤ.pos 50) (ℤ.pos 30) w).1.committed)
      (touch (ℤ.pos 30) (claimed_row "w1" (ℤ.pos 80) (ℤ.pos 30) waiting_job)) (refl, tt) refl
      (omega arith) refl

claim_commits_example :
    let (answer, w') =
      Repository.claim 11 1 "w2" (ℤ.pos 50) (ℤ.pos 200) (in_world (holding running_job)) in
    let held : Job = record running_job {
      worker_id = some "w2";
      locked_until = some (ℤ.pos 250);
      started_at = some (ℤ.pos 200);
      updated_at = ℤ.pos 30;
    } in
    (answer ≡ ok (some held))
    × Stores (holding running_job) w'.committed 1 (held) (record {
      id = 11;
      job_id = 1;
      previous_status = pending;
      new_status = running;
      changed_by = "w2";
    })
unfolding find first_match ◌+ℤ◌
claim_commits_example =
    claim_commits 11 1 (ℤ.pos 200) (in_world (holding running_job)) (λ n. refl) running_job
      (refl, tt) refl "w2" (ℤ.pos 50) (inr (refl, ℤ.pos 100, refl, refl))

complete_commits_example :
    let (answer, w') =
      Repository.complete 11 1 (some "{}") (ℤ.pos 200) (in_world (holding running_job)) in
    (answer ≡ ok tt)
    × Stores
        (holding running_job)
        w'.committed
        1
        (record running_job {
          status = completed;
          result = some "{}";
          completed_at = some (ℤ.pos 200);
          locked_until = none;
          updated_at = ℤ.pos 30;
        })
        (record {
          id = 11;
          job_id = 1;
          previous_status = running;
          new_status = completed;
          changed_by = "w1";
        })
unfolding find first_match
complete_commits_example =
    complete_commits 11 1 (ℤ.pos 200) (in_world (holding running_job)) (λ n. refl) running_job
      (refl, tt) refl "{}"

fail_commits_example :
    let (answer, w') =
      Repository.fail 11 1 "boom" none (ℤ.pos 200) (in_world (holding running_job)) in
    (answer ≡ ok tt)
    × (new : JobStatus) × (((0 < 3) × (new ≡ retrying)) ⊎ ((3 ≤ 0) × (new ≡ failed)))
    × Stores
        (holding running_job)
        w'.committed
        1
        (record running_job {
          status = new;
          error_message = some "boom";
          error_details = none;
          retry_count = 1;
          locked_until = none;
          updated_at = ℤ.pos 30;
        })
        (record {
          id = 11;
          job_id = 1;
          previous_status = running;
          new_status = new;
          changed_by = "w1";
        })
unfolding find first_match
fail_commits_example =
    fail_commits 11 1 (ℤ.pos 200) (in_world (holding running_job)) (λ n. refl) running_job
      (refl, tt) refl "boom" none

cancel_commits_example :
    let (answer, w') = Repository.cancel 11 1 (ℤ.pos 200) (in_world (holding retrying_job)) in
    (((retrying ≡ pending) ⊎ (retrying ≡ retrying))
      × (answer ≡ ok tt)
      × Stores
          (holding retrying_job)
          w'.committed
          1
          (record retrying_job { status = cancelled; updated_at = ℤ.pos 30 })
          (record {
            id = 11;
            job_id = 1;
            previous_status = retrying;
            new_status = cancelled;
            changed_by = "api";
          }))
    ⊎ ((retrying ≢ pending)
        × (retrying ≢ retrying)
        × (answer ≡ err not_cancellable)
        × (w'.committed ≡ holding retrying_job))
unfolding find first_match
cancel_commits_example =
    cancel_commits 11 1 (ℤ.pos 200) (in_world (holding retrying_job)) (λ n. refl) retrying_job
      (refl, tt) refl

retry_commits_example :
    let (answer, w') = Repository.retry 11 1 (ℤ.pos 200) (in_world (holding retrying_job)) in
    ((retrying ≡ retrying)
      × (answer ≡ ok tt)
      × Stores
          (holding retrying_job)
          w'.committed
          1
          (record retrying_job {
            status = pending;
            worker_id = none;
            started_at = none;
            locked_until = none;
            updated_at = ℤ.pos 30;
          })
          (record {
            id = 11;
            job_id = 1;
            previous_status = retrying;
            new_status = pending;
            changed_by = "system";
          }))
    ⊎ ((retrying ≢ retrying) × (answer ≡ err not_retrying) × (w'.committed ≡ holding retrying_job))
unfolding find first_match
retry_commits_example =
    retry_commits 11 1 (ℤ.pos 200) (in_world (holding retrying_job)) (λ n. refl) retrying_job
      (refl, tt) refl

-- Two jobs of one priority and a more urgent one.
abbrev urgent_job : Job
urgent_job = record waiting_job { id = 3; priority = ℤ.pos 9; created_at = ℤ.pos 20 }

list_by_status-UrgentFirst_example :
    (sorted : List Job) × Perm sorted
      (select (λ r. status_eq r.status pending) (waiting_job ∷ second_job ∷ urgent_job ∷ []))
    × UrgentFirst sorted
    × (urgent_job ∷ waiting_job ∷ [] ≡ take 2 sorted)
unfolding list_by_status
list_by_status-UrgentFirst_example =
    list_by_status-UrgentFirst pending 2
      (in_world (record one_job { jobs = waiting_job ∷ second_job ∷ urgent_job ∷ [] })) refl
