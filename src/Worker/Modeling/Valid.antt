-- ===== src/Worker/Modeling/Valid.antt =====
-- The modeling worker of internal/worker/workers.go leaves the tables of jobs valid.
use qtest.Prelude.{Bool, Option, none, some, ◌⊎◌, inl, inr, String, All}
use qtest.Jobs.Types.{Uuid, Json, Job, JobMessage}
use qtest.Jobs.Payloads.{Payload, ModelingPayload}
use qtest.Jobs.Store.{World}
use qtest.Jobs.Pipeline.{create_planning_job}
use qtest.Jobs.Pipeline.Keeps.{KeepsTables, create_planning_job-KeepsTables}
use qtest.Model.Types.{SystemModel}
use qtest.Workspace.Generate.{Answer, got, refused}
use qtest.Worker.Base.{BaseWorker}
use qtest.Worker.Base.Valid.{KeepsActivity, KeepsHandler}
use qtest.Worker.Ingestion.{ticks_of}
use qtest.Worker.Ingestion.Valid.{ticks-keep}
use qtest.Worker.Closing.{
  logged, complete_then, logged-KeepsTables, complete_then-KeepsTables, closing-keeps,
  guarded-KeepsTables,
}
use qtest.Worker.Modeling.{ModelingResult}
use qtest.Worker.Modeling.Handle.{
  Surroundings, options_of, chain, finish, handle_job_legacy, modeled, decoded, handle_job,
}

module _ {ℓ} {S : Type ℓ} (s : Surroundings S) (marshal : Payload → Option Json)
    (encode : JobMessage → Option Json) (nats : Bool) where
  chain-KeepsTables :
      (k : Uuid) (p : ModelingPayload) → KeepsTables (chain s marshal encode nats k p)
  chain-KeepsTables k p =
      let next_job =
        create_planning_job marshal encode nats s.stamp k p.repository_id s.model_id
          (options_of p) in
      guarded-KeepsTables s.has_pipeline (logged next_job) (
        logged-KeepsTables next_job (
          create_planning_job-KeepsTables marshal encode nats s.stamp k p.repository_id s.model_id
            (options_of p)))

  finish-keeps :
      (worker : BaseWorker) (p : ModelingPayload) (job : Job) (w : World) (json : Option Json)
      (r : ModelingResult)
      → All KeepsActivity (finish s marshal encode nats worker p job w json r).activities
  unfolding finish
  finish-keeps worker p job w none r = tt
  finish-keeps worker p job w (some json) r =
      let bytes = s.marshal_result r in
      let next_job = chain s marshal encode nats job.id p in
      closing-keeps worker s.ending "failed to complete job: " job w (ticks_of s.ticks)
        (complete_then s.ending job.id bytes next_job) (ticks-keep s.ticks)
        (complete_then-KeepsTables s.ending job.id bytes next_job (chain-KeepsTables job.id p))

  modeled-keeps :
      (worker : BaseWorker) (p : ModelingPayload) (job : Job) (w : World)
      (m : String ⊎ SystemModel S)
      → All KeepsActivity (modeled s marshal encode nats worker p job w m).activities
  unfolding modeled handle_job_legacy
  modeled-keeps worker p job w (inl e) = finish-keeps worker p job w _ _
  modeled-keeps worker p job w (inr m) = finish-keeps worker p job w _ _

  decoded-keeps :
      (worker : BaseWorker) (job : Job) (w : World) (a : Answer ModelingPayload)
      → All KeepsActivity (decoded s marshal encode nats worker job w a).activities
  unfolding decoded
  decoded-keeps worker job w (refused e) = tt
  decoded-keeps worker job w (got p) = modeled-keeps worker p job w _

  pub handle_job-KeepsHandler :
      (worker : BaseWorker) → KeepsHandler (handle_job s marshal encode nats worker)
  unfolding handle_job
  handle_job-KeepsHandler worker job w = decoded-keeps worker job w (s.decode job.payload)
