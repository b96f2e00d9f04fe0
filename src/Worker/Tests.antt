-- ===== src/Worker/Tests.antt =====
-- Runs of the workers of internal/worker.
use qtest.Prelude.{ℕ, ◌+◌, ◌≡◌, refl, Bool, true, false, Option, none, some, List, [], ◌∷◌}
use qtest.Prelude.Int.{ℤ}
use qtest.Jobs.Types.{Job, JobMessage, generation, pending}
use qtest.Jobs.Store.{World, Db, ok, find, first_match}
use qtest.Jobs.Repository
use qtest.Jobs.Repository.Rows.{inserted_row-IsSound}
use qtest.Jobs.Repository.Invariant.{IsValid}
use qtest.Worker.Base.{
  BaseWorker, Handler, own, tick, Moment, Fetched, nak, new_base_worker, process_message,
  claim_and_process, take_claimed, run,
}
use qtest.Worker.Base.Valid.{run-IsValid}
use qtest.Workspace.Generate.{got}
use qtest.Worker.Ingestion.{Surroundings, walk}
use qtest.Worker.Handlers.{Site, ingestion_site, handler_of, run-handler_of-IsValid}
use qtest.Worker.Base.Acks.{process_message-nak}

abbrev waiting_job : Job
waiting_job = record {
  id = 1;
  job_type = generation;
  status = pending;
  priority = ℤ.pos 2;
  repository_id = none;
  generation_run_id = none;
  parent_job_id = none;
  payload = "{}";
  result = none;
  error_message = none;
  error_details = none;
  retry_count = 0;
  max_retries = 3;
  created_at = ℤ.pos 10;
  updated_at = ℤ.pos 10;
  started_at = none;
  completed_at = none;
  locked_until = none;
  worker_id = none;
}

abbrev one_job : Db
one_job = record { jobs = waiting_job ∷ []; history = []; repositories = []; generation_runs = [] }

one_job-IsValid : IsValid one_job
unfolding find first_match
one_job-IsValid = record {
  distinct = (refl, tt);
  sound = (inserted_row-IsSound waiting_job refl, tt);
  logged = tt;
}

abbrev in_world : (ℕ → Bool) → World
in_world fault = record {
  committed = one_job;
  working = one_job;
  fault = fault;
  calls = 0;
  clock = ℤ.pos 30;
  published = [];
}

abbrev calm : ℕ → Bool
calm n = false

abbrev stormy : ℕ → Bool
stormy n = true

abbrev worker : BaseWorker
worker = new_base_worker "w1" "made up" generation

-- It works a while, its lock is extended, and it fails.
abbrev failing : Handler
failing job w = record {
  activities = own (λ w'. (ok tt, w')) ∷ tick (ℤ.pos 40) (ℤ.pos 41) ∷ [];
  outcome = some "boom";
}

abbrev moments : ℕ → Moment
moments i = record { claim_id = 11 + i; claimed = ℤ.pos 30; fail_id = 50 + i; failed = ℤ.pos 42 }

abbrev message : JobMessage
message = record { job_id = 1; job_type = generation; priority = ℤ.pos 2 }

abbrev rounds : List ((ℕ → Moment) × Option Fetched)
rounds = (moments, none) ∷ (moments, some (Fetched.messages (some message ∷ none ∷ []) none)) ∷ []

run-IsValid_example : IsValid (run worker failing rounds (in_world calm)).committed
run-IsValid_example =
    run-IsValid worker failing (λ job w. ((λ w' v. v), (tt, tt))) rounds (in_world calm)
      one_job-IsValid

-- With no call of the database succeeding the message is given back.
given_back : (process_message worker failing (moments 0) (some message) (in_world stormy)).0 ≡ nak
unfolding process_message claim_and_process take_claimed Repository.claim
given_back = refl

process_message-nak_example :
    (process_message worker failing (moments 0) (some message) (in_world stormy)).1.committed
    ≡ one_job
process_message-nak_example =
    process_message-nak worker failing (moments 0) (some message) (in_world stormy) given_back

-- A repository that is new, with three files.
abbrev surroundings : Surroundings
surroundings = record {
  decode = λ json. got (record {
    repository_url = "https://github.com/a/b";
    branch = "";
    commit_hash = "";
    workspace_path = "";
    max_tests = ℤ.pos 5;
    llm_tier = ℤ.pos 1;
    run_mutation = false;
    create_pr = false;
  });
  store = some (got none, got 7);
  fresh = 8;
  workspace_path = "/tmp/qtest/1";
  make_dir = got tt;
  clone = λ args. got tt;
  extensions = ".py" ∷ ".md" ∷ ".go" ∷ ".ts" ∷ [];
  ticks = (ℤ.pos 40, ℤ.pos 41) ∷ [];
  marshal_result = λ result. some "{}";
  history_id = 21;
  now = ℤ.pos 45;
  has_pipeline = true;
  stamp = record { id = 2; created = ℤ.pos 46; updated = ℤ.pos 46 };
  error_text = λ e. "error";
}

three_files : walk (".py" ∷ ".md" ∷ ".go" ∷ ".ts" ∷ []) ("", 0) ≡ ("go", 3)
unfolding walk
three_files = refl

abbrev site : (S : Type 0) → Site S S S
site S = ingestion_site (λ job w. surroundings)

run-handler_of-IsValid_example :
    IsValid
      (run worker
        (handler_of (λ p. some "{}") (λ m. some "{}") true worker (site ℕ))
        rounds
        (in_world calm)).committed
run-handler_of-IsValid_example =
    run-handler_of-IsValid (λ p. some "{}") (λ m. some "{}") true worker (site ℕ) rounds
      (in_world calm) one_job-IsValid
