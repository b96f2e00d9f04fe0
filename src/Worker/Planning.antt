-- ===== src/Worker/Planning.antt =====
-- internal/worker/workers.go: the handler of the planning worker, which plans with the planner of
-- pkg/model. The other tables of the store are parameters, with the answers they give to one run of
-- the handler, and so are the scores and the shares of a total, which are float64.
pub mod Valid
use Prim.Native.String.{◌++◌ as append_text}
use qtest.Prelude.{
  ℕ, String, Bool, true, false, Option, none, some, List, [], ◌∷◌, ◌++◌, if◌then◌else◌,
}
use qtest.Prelude.Int.{ℤ, ltb_ℤ, eqb_ℤ, pos_part}
use qtest.Jobs.Types.{Uuid, Time, Json, Job, JobMessage}
use qtest.Jobs.Payloads.{Payload, PlanningPayload, PipelineJobOptions}
use qtest.Jobs.Store.{World, M, Result, ok, err, Error, ◌>>=◌, ◌>>◌, pure}
use qtest.Jobs.Repository.{complete}
use qtest.Jobs.Pipeline.{Stamp, create_generation_job, try}
use qtest.Model.Types.{Function, SystemModel, TestPlan}
use qtest.Model.Planner.{Scores, PlannerConfig, plan}
use qtest.Workspace.Generate.{Answer, got, refused}
use qtest.Worker.Base.{BaseWorker, Activity, own, tick, Handling, Handler, run_activities}
use qtest.Worker.Ingestion.{ticks_of, outcome_of}

-- `PlanningResult`
pub record PlanningResult : Type 0 where
  pub plan_id : Uuid
  pub total_tests : ℤ
  pub unit_tests : ℤ
  pub api_tests : ℤ
  pub e2e_tests : ℤ

-- What one run of the handler takes from its surroundings. `stored` is the model that the store has,
-- if there is a store, it answers and its data decode; `run_stored` tells that there is a store and
-- that it takes the row of the run; `thresholds` is `DefaultPlannerConfig`, and `share` the truncated part of a total, in percent.
pub record Surroundings {ℓ} (S : Type ℓ) : Type ℓ where
  pub decode : Json → Answer PlanningPayload
  pub stored : Uuid → Option (SystemModel S)
  pub scores : Scores S
  pub thresholds : PlannerConfig S
  pub share : ℤ → ℕ → ℤ
  pub plan_id : Uuid
  pub ticks : List (Time × Time)
  pub marshal_result : PlanningResult → Option Json
  pub history_id : Uuid
  pub now : Time
  pub has_pipeline : Bool
  pub run_id : Uuid
  pub run_stored : Bool
  pub stamp : Stamp
  pub error_text : Error → String

-- `CreateGenerationRun`, on the table that jobs refer to.
unfoldable pub add_run : Bool → Uuid → M (Unit {0})
add_run false k w = (ok tt, w)
add_run true k w = (
  ok tt,
  record w { committed = record w.committed { generation_runs = k ∷ w.committed.generation_runs } },
)

abbrev pub options_of : PlanningPayload → PipelineJobOptions
options_of p = record {
  max_tests = p.max_tests;
  llm_tier = if eqb_ℤ p.llm_tier (ℤ.pos 0) then ℤ.pos 1 else p.llm_tier;
  run_mutation = p.run_mutation;
  create_pr = p.create_pr;
}

module _ {ℓ} {S : Type ℓ} (s : Surroundings S) where
  -- Without a plan the total is split by fixed shares.
  abbrev pub fallback : PlanningPayload → PlanningResult
  fallback p =
      let max_tests = if eqb_ℤ p.max_tests (ℤ.pos 0) then ℤ.pos 10 else p.max_tests in
      record {
        plan_id = s.plan_id;
        total_tests = max_tests;
        unit_tests = s.share max_tests 60;
        api_tests = s.share max_tests 30;
        e2e_tests = s.share max_tests 10;
      }

  abbrev pub config_of : PlanningPayload → PlannerConfig S
  config_of p = record s.thresholds {
    max_intents = if ltb_ℤ (ℤ.pos 0) p.max_tests then pos_part p.max_tests else 0;
  }

  abbrev pub planned : TestPlan → PlanningResult
  planned t = record {
    plan_id = s.plan_id;
    total_tests = ℤ.pos t.total_tests;
    unit_tests = ℤ.pos t.unit_tests;
    api_tests = ℤ.pos t.api_tests;
    e2e_tests = ℤ.pos t.e2e_tests;
  }

  abbrev pub has_functions : List Function → Bool
  has_functions [] = false
  has_functions (f ∷ fs) = true

  -- A model without functions is not planned for.
  unfoldable pub result_of : PlanningPayload → PlanningResult
  result_of p = elim (s.stored p.model_id) [
    | none ↦ fallback p
    | some model ↦
        let made = planned (plan s.scores (config_of p) model) in
        if has_functions model.functions then made else fallback p
  ]

  module _ (marshal : Payload → Option Json) (encode : JobMessage → Option Json) (nats : Bool) where
    -- The row of the run and the generation job, whose failures are only logged.
    unfoldable pub chain : Uuid → PlanningPayload → Bool → M (Unit {0})
    unfolding add_run
    chain job_id p false = pure tt
    chain job_id p true =
        add_run s.run_stored s.run_id
        >> (try (
              create_generation_job marshal encode nats s.stamp job_id p.repository_id s.run_id
                s.plan_id (options_of p))
            >>= λ _. pure tt)

    unfoldable pub finish : PlanningPayload → Uuid → M (Unit {0})
    unfolding result_of chain
    finish p job_id =
        complete s.history_id job_id (s.marshal_result (result_of p)) s.now
        >> chain job_id p s.has_pipeline

    unfoldable pub decoded : BaseWorker → Job → World → Answer PlanningPayload → Handling
    unfolding finish
    decoded worker job w (refused e) = record {
      activities = [];
      outcome = some (append_text "failed to parse payload: " e);
    }
    decoded worker job w (got p) =
        let work = ticks_of s.ticks in
        let last = finish p job.id in
        record {
          activities = work ++ own last ∷ [];
          outcome = outcome_of s.error_text (last (run_activities worker job.id work w)).0;
        }

    -- `handleJob`
    unfoldable pub handle_job : BaseWorker → Handler
    unfolding decoded
    handle_job worker job w = decoded worker job w (s.decode job.payload)
