-- ===== src/Worker/Ancestry/Tests.antt =====
-- A walk from a chain of three jobs to the workspace path of the first.
use qtest.Prelude.{◌≡◌, refl, true, false, none, some, List, [], ◌∷◌, All}
use qtest.Prelude.Int.{ℤ}
use qtest.Jobs.Types.{Job, ingestion, modeling, generation, pending, Json}
use qtest.Jobs.Store.{World, Db, find, first_match}
use qtest.Jobs.Repository.{is_some}
use qtest.Jobs.Repository.Steps.{Op}
use qtest.Jobs.Repository.Refines.{Admissible}
use qtest.Jobs.Repository.Rows.{inserted_row-IsSound}
use qtest.Jobs.Repository.Invariant.{Turn, IsValid, run_turns}
use qtest.Workspace.Generate.{Answer, refused}
use qtest.Worker.Ingestion.{IngestionResult}
use qtest.Worker.Ancestry.{get_workspace_path}
use qtest.Worker.Ancestry.Ends.{IsRooted, HasOtherParent, get_workspace_path-ends}

-- An ingestion job, and a job behind it.
abbrev first_job : Job
first_job = record {
  id = 1;
  job_type = ingestion;
  status = pending;
  priority = ℤ.pos 2;
  repository_id = none;
  generation_run_id = none;
  parent_job_id = none;
  payload = "{}";
  result = none;
  error_message = none;
  error_details = none;
  retry_count = 0;
  max_retries = 3;
  created_at = ℤ.pos 10;
  updated_at = ℤ.pos 10;
  started_at = none;
  completed_at = none;
  locked_until = none;
  worker_id = none;
}

abbrev next_job : Job
next_job = record first_job { id = 2; job_type = modeling; parent_job_id = some 1 }

abbrev last_job : Job
last_job = record first_job { id = 3; job_type = generation; parent_job_id = some 2 }

abbrev one_job : Db
one_job = record { jobs = first_job ∷ []; history = []; repositories = []; generation_runs = [] }

one_job-IsValid : IsValid one_job
unfolding find first_match
one_job-IsValid = record {
  distinct = (refl, tt);
  sound = (inserted_row-IsSound first_job refl, tt);
  logged = tt;
}

abbrev in_world : Db → World
in_world db = record {
  committed = db;
  working = db;
  fault = λ n. false;
  calls = 0;
  clock = ℤ.pos 30;
  published = [];
}

abbrev turns : List Turn
turns =
    record { clock = ℤ.pos 11; fault = λ n. false; op = Op.create next_job }
    ∷ record { clock = ℤ.pos 12; fault = λ n. false; op = Op.cancel 30 1 (ℤ.pos 12) }
    ∷ []

abbrev decode : Json → Answer IngestionResult
decode bytes = refused "no result"

turns_fit : All (λ (t : Turn). Admissible t.op × HasOtherParent t.op) turns
turns_fit = ((refl, λ e. cc), ((tt, tt), tt))

one_job-IsRooted : IsRooted one_job.jobs
one_job-IsRooted = ((λ k e. cc), tt)

get_workspace_path-ends_example :
    is_some (get_workspace_path decode last_job (in_world (run_turns turns one_job))).0 ≡ true
get_workspace_path-ends_example =
    get_workspace_path-ends decode turns one_job last_job (in_world (run_turns turns one_job))
      turns_fit one_job-IsValid one_job-IsRooted refl
