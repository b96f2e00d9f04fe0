-- ===== src/Worker/Planning/Valid.antt =====
-- The planning worker of internal/worker/workers.go leaves the tables of jobs valid.
use qtest.Prelude.{Bool, true, false, Option, All, All-append}
use qtest.Jobs.Types.{Uuid, Json, Job, JobMessage}
use qtest.Jobs.Payloads.{Payload, PlanningPayload}
use qtest.Jobs.Store.{World, ◌>>=◌, pure}
use qtest.Jobs.Repository
use qtest.Jobs.Pipeline.{create_generation_job, try}
use qtest.Jobs.Pipeline.Keeps.{KeepsTables, bind-KeepsTables, create_generation_job-KeepsTables}
use qtest.Workspace.Generate.{Answer, got, refused}
use qtest.Worker.Base.{BaseWorker}
use qtest.Worker.Base.Valid.{KeepsActivity, KeepsHandler}
use qtest.Worker.Ingestion.{ticks_of}
use qtest.Worker.Ingestion.Valid.{ticks-keep, try-KeepsTables, complete-KeepsTables}
use qtest.Worker.Planning.{
  Surroundings, add_run, result_of, options_of, chain, finish, decoded, handle_job,
}

add_run-KeepsTables : (b : Bool) (k : Uuid) → KeepsTables (add_run b k)
unfolding add_run
add_run-KeepsTables false k w v = v
add_run-KeepsTables true k w v = record {
  distinct = v.distinct;
  sound = v.sound;
  logged = v.logged;
}

module _ {ℓ} {S : Type ℓ} (s : Surroundings S) (marshal : Payload → Option Json)
    (encode : JobMessage → Option Json) (nats : Bool) where
  chain-KeepsTables :
      (job_id : Uuid) (p : PlanningPayload) (b : Bool)
      → KeepsTables (chain s marshal encode nats job_id p b)
  unfolding chain
  chain-KeepsTables job_id p false = λ w v. v
  chain-KeepsTables job_id p true =
      let next_job =
        create_generation_job marshal encode nats s.stamp job_id p.repository_id s.run_id s.plan_id
          (options_of p) in
      bind-KeepsTables (add_run s.run_stored s.run_id) (λ _. try next_job >>= λ _. pure tt)
        (add_run-KeepsTables s.run_stored s.run_id)
        (λ _.
          bind-KeepsTables (try next_job) (λ _. pure tt)
            (try-KeepsTables next_job (
              create_generation_job-KeepsTables marshal encode nats s.stamp job_id p.repository_id
                s.run_id s.plan_id (options_of p)))
            (λ _ w v. v))

  finish-KeepsTables :
      (p : PlanningPayload) (job_id : Uuid) → KeepsTables (finish s marshal encode nats p job_id)
  unfolding finish
  finish-KeepsTables p job_id =
      let bytes = s.marshal_result (result_of s p) in
      bind-KeepsTables (Repository.complete s.history_id job_id bytes s.now)
        (λ _. chain s marshal encode nats job_id p s.has_pipeline)
        (complete-KeepsTables s.history_id job_id bytes s.now)
        (λ _. chain-KeepsTables job_id p s.has_pipeline)

  decoded-keeps :
      (worker : BaseWorker) (job : Job) (w : World) (a : Answer PlanningPayload)
      → All KeepsActivity (decoded s marshal encode nats worker job w a).activities
  unfolding decoded
  decoded-keeps worker job w (refused e) = tt
  decoded-keeps worker job w (got p) =
      All-append KeepsActivity (ticks_of s.ticks) _ (ticks-keep s.ticks)
        (finish-KeepsTables p job.id, tt)

  pub handle_job-KeepsHandler :
      (worker : BaseWorker) → KeepsHandler (handle_job s marshal encode nats worker)
  unfolding handle_job
  handle_job-KeepsHandler worker job w = decoded-keeps worker job w (s.decode job.payload)
