-- ===== src/Worker/Ingestion.antt =====
-- internal/worker/workers.go: the handler of the ingestion worker. The other tables of the store, git
-- and the file system are parameters, with the answers they give to one run of the handler.
pub mod Valid
use Prim.Native.String.{◌++◌ as append_text}
use qtest.Prelude.{
  ℕ, suc, String, Bool, true, false, Option, none, some, List, [], ◌∷◌, ◌++◌, str_eq, ◌||◌,
  if◌then◌else◌,
}
use qtest.Jobs.Types.{Uuid, Time, Json, Job, JobMessage}
use qtest.Jobs.Payloads.{Payload, IngestionPayload, PipelineJobOptions}
use qtest.Jobs.Store.{World, M, Result, ok, err, Error, ◌>>=◌, ◌>>◌, pure}
use qtest.Jobs.Repository.{complete}
use qtest.Jobs.Pipeline.{Stamp, create_modeling_job, try}
use qtest.Workspace.Generate.{Answer, got, refused}
use qtest.Worker.Base.{BaseWorker, Activity, own, tick, Handling, Handler, run_activities}

-- `IngestionResult`
pub record IngestionResult : Type 0 where
  pub repository_id : Uuid
  pub workspace_path : String
  pub file_count : ℕ
  pub language : String

-- What one run of the handler takes from its surroundings. `store` is what the look-up of the
-- repository and its creation answer, or `none` without a store; `extensions` are those of the files
-- that the walk visits; `ticks` are those of the lock's extension before the job is completed.
pub record Surroundings : Type 0 where
  pub decode : Json → Answer IngestionPayload
  pub store : Option (Answer (Option Uuid) × Answer Uuid)
  pub fresh : Uuid
  pub workspace_path : String
  pub make_dir : Answer (Unit {0})
  pub clone : List String → Answer (Unit {0})
  pub extensions : List String
  pub ticks : List (Time × Time)
  pub marshal_result : IngestionResult → Option Json
  pub history_id : Uuid
  pub now : Time
  pub has_pipeline : Bool
  pub stamp : Stamp
  pub error_text : Error → String

-- The repository's id, and whether its row is created.
unfoldable pub repository_of : Option (Answer (Option Uuid) × Answer Uuid) → Uuid → Uuid × Bool
repository_of none fresh = (fresh, false)
repository_of (some (got (some k), created)) fresh = (k, false)
repository_of (some (_, got k)) fresh = (k, true)
repository_of (some (_, refused e)) fresh = (fresh, false)

unfoldable pub clone_args : IngestionPayload → String → List String
clone_args p path =
    ("clone" ∷ "--depth" ∷ "1" ∷ [])
    ++ (if str_eq p.branch "" then [] else "-b" ∷ p.branch ∷ [])
    ++ p.repository_url ∷ path ∷ []

-- One file of the walk: the language, and the number of source files.
abbrev pub visit : String → String × ℕ → String × ℕ
visit ext (language, n) =
    let others : String → String = λ found. if str_eq language "" then found else language in
    if str_eq ext ".go"
    then ("go", suc n)
    else if str_eq ext ".py"
    then (others "python", suc n)
    else if str_eq ext ".ts" || str_eq ext ".js"
    then (others "typescript", suc n)
    else (language, n)

unfoldable pub walk : List String → String × ℕ → String × ℕ
walk [] found = found
walk (ext ∷ exts) found = walk exts (visit ext found)

-- `CreateRepository`, on the table that jobs refer to.
unfoldable pub add_repository : Uuid → M (Unit {0})
add_repository k w = (
  ok tt,
  record w { committed = record w.committed { repositories = k ∷ w.committed.repositories } },
)

unfoldable pub ticks_of : List (Time × Time) → List Activity
ticks_of [] = []
ticks_of ((now, later) ∷ ts) = tick now later ∷ ticks_of ts

abbrev pub outcome_of : (Error → String) → Result (Unit {0}) → Option String
outcome_of text (ok _) = none
outcome_of text (err e) = some (append_text "failed to complete job: " (text e))

unfoldable pub result_of : Surroundings → Uuid → IngestionResult
unfolding walk
result_of s repo_id =
    let (language, count) = walk s.extensions ("", 0) in
    record {
      repository_id = repo_id;
      workspace_path = s.workspace_path;
      file_count = count;
      language = language;
    }

abbrev pub options_of : IngestionPayload → PipelineJobOptions
options_of p = record {
  max_tests = p.max_tests;
  llm_tier = p.llm_tier;
  run_mutation = p.run_mutation;
  create_pr = p.create_pr;
}

module _ (marshal : Payload → Option Json) (encode : JobMessage → Option Json) (nats : Bool) where
  -- The modeling job, whose failure is only logged.
  unfoldable pub chain : Surroundings → Uuid → Uuid → PipelineJobOptions → Bool → M (Unit {0})
  chain s job_id repo_id opts false = pure tt
  chain s job_id repo_id opts true =
      try (create_modeling_job marshal encode nats s.stamp job_id repo_id s.workspace_path opts)
      >>= λ _. pure tt

  -- The job is completed, and the modeling job is created.
  unfoldable pub finish : Surroundings → IngestionPayload → Uuid → Uuid → M (Unit {0})
  unfolding chain
  finish s p repo_id job_id =
      complete s.history_id job_id (s.marshal_result (result_of s repo_id)) s.now
      >> chain s job_id repo_id (options_of p) s.has_pipeline

  -- The parts of `handleJob` behind the row of the repository: `work` is what is done so far.
  unfoldable pub cloned :
      BaseWorker
      → Surroundings
      → IngestionPayload
      → Uuid
      → Job
      → World
      → List Activity
      → Answer (Unit {0})
      → Answer (Unit {0})
      → Handling
  unfolding finish
  cloned worker s p repo_id job w work (refused e) clone = record {
    activities = work;
    outcome = some (append_text "failed to create workspace: " e);
  }
  cloned worker s p repo_id job w work (got _) (refused e) = record {
    activities = work;
    outcome = some (append_text "git clone failed: " e);
  }
  cloned worker s p repo_id job w work (got _) (got _) =
      let last = finish s p repo_id job.id in
      record {
        activities = work ++ own last ∷ [];
        outcome = outcome_of s.error_text (last (run_activities worker job.id work w)).0;
      }

  unfoldable pub decoded :
      BaseWorker → Surroundings → Job → World → Answer IngestionPayload → Handling
  unfolding cloned repository_of clone_args ticks_of
  decoded worker s job w (refused e) = record {
    activities = [];
    outcome = some (append_text "failed to parse payload: " e);
  }
  decoded worker s job w (got p) =
      let (repo_id, is_new) = repository_of s.store s.fresh in
      let row : List Activity = if is_new then own (add_repository repo_id) ∷ [] else [] in
      cloned worker s p repo_id job w (row ++ ticks_of s.ticks) s.make_dir
        (s.clone (clone_args p s.workspace_path))

  -- `handleJob`
  unfoldable pub handle_job : BaseWorker → Surroundings → Handler
  unfolding decoded
  handle_job worker s job w = decoded worker s job w (s.decode job.payload)
