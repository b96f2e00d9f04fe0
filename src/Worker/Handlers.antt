-- ===== src/Worker/Handlers.antt =====
-- The handlers of the seven workers of internal/worker/workers.go, in the loop of
-- internal/worker/base.go. What a run of a handler takes from its surroundings may depend on its job
-- and on the moment.
use qtest.Prelude.{ℕ, Bool, Option, List}
use qtest.Jobs.Types.{Json, Job, JobMessage}
use qtest.Jobs.Payloads.{Payload}
use qtest.Jobs.Store.{World}
use qtest.Jobs.Repository.Invariant.{IsValid}
use qtest.Worker.Base.{BaseWorker, Handler, Fetched, Moment, run}
use qtest.Worker.Base.Valid.{KeepsHandler, run-IsValid}
use qtest.Worker.Ingestion
use qtest.Worker.Ingestion.Valid as IngestionValid
use qtest.Worker.Planning
use qtest.Worker.Planning.Valid as PlanningValid
use qtest.Worker.Modeling.Handle as Modeling
use qtest.Worker.Modeling.Valid as ModelingValid
use qtest.Worker.Generation.Handle as Generation
use qtest.Worker.Generation.Valid as GenerationValid
use qtest.Worker.Validation.Handle as Validation
use qtest.Worker.Validation.Valid as ValidationValid
use qtest.Worker.Mutation
use qtest.Worker.Mutation.Valid as MutationValid
use qtest.Worker.Integration
use qtest.Worker.Integration.Valid as IntegrationValid

-- A worker with what its surroundings answer; `S` is the type of float64, `D` and `Q` are those of the
-- DSL and of the specifications of tests.
pub data Site {ℓ} (S D Q : Type ℓ) : Type ℓ where
  ingestion_site : (Job → World → Ingestion.Surroundings) → Site S D Q
  modeling_site : (Job → World → Modeling.Surroundings S) → Site S D Q
  planning_site : (Job → World → Planning.Surroundings S) → Site S D Q
  generation_site : (Job → World → Generation.Surroundings D Q) → Site S D Q
  validation_site : (Job → World → Validation.Surroundings) → Site S D Q
  mutation_site : (Job → World → Mutation.Surroundings S) → Site S D Q
  integration_site : (Job → World → Integration.Surroundings) → Site S D Q

module _ {ℓ} {S D Q : Type ℓ} (marshal : Payload → Option Json) (encode : JobMessage → Option Json)
    (nats : Bool) where
  unfoldable pub handler_of : BaseWorker → Site S D Q → Handler
  handler_of worker (ingestion_site s) job w =
      Ingestion.handle_job marshal encode nats worker (s job w) job w
  handler_of worker (modeling_site s) job w =
      Modeling.handle_job (s job w) marshal encode nats worker job w
  handler_of worker (generation_site s) job w =
      Generation.handle_job (s job w) marshal encode nats worker job w
  handler_of worker (validation_site s) job w =
      Validation.handle_job (s job w) marshal encode nats worker job w
  handler_of worker (mutation_site s) job w = Mutation.handle_job (s job w) worker job w
  handler_of worker (integration_site s) job w = Integration.handle_job (s job w) worker job w
  handler_of worker (planning_site s) job w =
      Planning.handle_job (s job w) marshal encode nats worker job w

  handler_of-KeepsHandler :
      (worker : BaseWorker) (site : Site S D Q) → KeepsHandler (handler_of worker site)
  unfolding handler_of
  handler_of-KeepsHandler worker (ingestion_site s) job w =
      IngestionValid.handle_job-KeepsHandler marshal encode nats worker (s job w) job w
  handler_of-KeepsHandler worker (modeling_site s) job w =
      ModelingValid.handle_job-KeepsHandler (s job w) marshal encode nats worker job w
  handler_of-KeepsHandler worker (generation_site s) job w =
      GenerationValid.handle_job-KeepsHandler (s job w) marshal encode nats worker job w
  handler_of-KeepsHandler worker (validation_site s) job w =
      ValidationValid.handle_job-KeepsHandler (s job w) marshal encode nats worker job w
  handler_of-KeepsHandler worker (mutation_site s) job w =
      MutationValid.handle_job-KeepsHandler (s job w) worker job w
  handler_of-KeepsHandler worker (integration_site s) job w =
      IntegrationValid.handle_job-KeepsHandler (s job w) worker job w
  handler_of-KeepsHandler worker (planning_site s) job w =
      PlanningValid.handle_job-KeepsHandler (s job w) marshal encode nats worker job w

  -- Every run of any of the seven workers leaves valid tables valid, whatever its payloads, git, the
  -- file system, the tools, the model and the database answer: in each round it may claim a job, store a
  -- repository or a generation run, complete the job and create the jobs that follow, or record the
  -- failure.
  pub run-handler_of-IsValid :
      (worker : BaseWorker) (site : Site S D Q) (rounds : List ((ℕ → Moment) × Option Fetched))
      (w : World)
      → IsValid w.committed
      → IsValid (run worker (handler_of worker site) rounds w).committed
  run-handler_of-IsValid worker site =
      run-IsValid worker (handler_of worker site) (handler_of-KeepsHandler worker site)
