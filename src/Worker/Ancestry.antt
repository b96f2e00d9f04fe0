-- ===== src/Worker/Ancestry.antt =====
-- internal/worker/workers.go: `getWorkspacePath`, the same method of three workers, which walks from a
-- job up to the ingestion job that it comes from. The walk has as much fuel as there are jobs, and one more.
pub mod Ends
mod Tests
use qtest.Prelude.{ℕ, zero, suc, String, Bool, Option, none, some, if◌then◌else◌, length}
use qtest.Jobs.Types.{Uuid, Json, Job, ingestion, type_eq}
use qtest.Jobs.Store.{M, World, Result, ok, err}
use qtest.Jobs.Repository.{get_by_id}
use qtest.Workspace.Generate.{Answer, got, refused}
use qtest.Worker.Ingestion.{IngestionResult}

-- What a look-up of the parent leads to: the end, a path, or the next job.
pub data Looked : Type 0 where
  stop : Looked
  found : String → Looked
  up : Job → Looked

abbrev pub follow : Looked → World → (Job → World → Option String × World) → Option String × World
follow stop w next = (some "", w)
follow (found path) w next = (some path, w)
follow (up parent) w next = next parent w

module _ (decode_result : Json → Answer IngestionResult) where
  -- `GetResult` leaves the zero value for a job without a result.
  abbrev path_in : Option Json → Answer String
  path_in none = got ""
  path_in (some bytes) = elim (decode_result bytes) [
    | got result ↦ got result.workspace_path
    | refused e ↦ refused e
  ]

  abbrev path_or_up : Job → Answer String → Looked
  path_or_up parent (got path) = found path
  path_or_up parent (refused e) = up parent

  abbrev pub look : Result (Option Job) → Looked
  look (err e) = stop
  look (ok none) = stop
  look (ok (some parent)) =
      if type_eq parent.job_type ingestion
      then path_or_up parent (path_in parent.result)
      else up parent

  -- `none` is a walk that has not ended yet.
  unfoldable pub climb : ℕ → Job → World → Option String × World
  climb zero current w = elim current.parent_job_id [ none ↦ (some "", w) | some k ↦ (none, w) ]
  climb (suc n) current w = elim current.parent_job_id [
    | none ↦ (some "", w)
    | some k ↦ let r = get_by_id k w in follow (look r.0) r.1 (climb n)
  ]

  unfoldable pub get_workspace_path : Job → World → Option String × World
  unfolding climb
  get_workspace_path job w = climb (suc (length w.committed.jobs)) job w

  -- The walk as a part of a handler's own work; where it does not end there is no path either.
  unfoldable pub fetch_path : Job → M (Unit {0})
  unfolding get_workspace_path
  fetch_path job w = (ok tt, (get_workspace_path job w).1)

  unfoldable pub path_of : Job → World → String
  unfolding get_workspace_path
  path_of job w = elim (get_workspace_path job w).0 [ none ↦ "" | some path ↦ path ]
