-- ===== src/Worker/Generation/Valid.antt =====
-- The generation worker of internal/worker/workers.go leaves the tables of jobs valid.
use qtest.Prelude.{
  Bool, Option, String, List, [], ◌∷◌, All, Bool-cases, inl, inr, str_eq, if◌then◌else◌,
}
use qtest.Jobs.Types.{Uuid, Json, Job, JobMessage}
use qtest.Jobs.Payloads.{Payload, GenerationPayload}
use qtest.Jobs.Store.{World, pure}
use qtest.Jobs.Pipeline.{create_validation_job, create_integration_job, try}
use qtest.Jobs.Pipeline.Keeps.{
  KeepsTables, bind-KeepsTables, create_validation_job-KeepsTables,
  create_integration_job-KeepsTables,
}
use qtest.Workspace.Generate.{Answer, got, refused}
use qtest.Worker.Base.{BaseWorker, own}
use qtest.Worker.Base.Valid.{KeepsActivity, KeepsHandler}
use qtest.Worker.Ingestion.{ticks_of}
use qtest.Worker.Ingestion.Valid.{ticks-keep, try-KeepsTables}
use qtest.Worker.Ancestry.{fetch_path, path_of}
use qtest.Worker.Ancestry.Ends.{fetch_path-KeepsTables}
use qtest.Worker.Closing.{
  logged, complete_then, logged-KeepsTables, complete_then-KeepsTables, closing-keeps,
  guarded-KeepsTables, either-KeepsTables,
}
use qtest.Worker.Generation.{Made}
use qtest.Worker.Generation.Handle.{
  Surroundings, validation_options, not_configured, made, result_of, chain, finish, in_workspace,
  decoded, handle_job,
}

module _ {ℓ} {D S : Type ℓ} (s : Surroundings D S) (marshal : Payload → Option Json)
    (encode : JobMessage → Option Json) (nats : Bool) where
  chain-KeepsTables :
      (k : Uuid) (p : GenerationPayload) (workspace : String) (v : Made) (paths : List String)
      → KeepsTables (chain s marshal encode nats k p workspace v paths)
  unfolding chain
  chain-KeepsTables k p workspace v [] = λ w h. h
  chain-KeepsTables k p workspace v (path ∷ more) =
      let all : List String = path ∷ more in
      let first =
        create_validation_job marshal encode nats s.stamp k p.repository_id p.generation_run_id
          v.ids all workspace v.language (validation_options p) in
      let second =
        create_integration_job marshal encode nats s.integration_stamp k p.repository_id
          p.generation_run_id all p.create_pr in
      bind-KeepsTables (try first) (λ created. if created then pure tt else logged second)
        (try-KeepsTables first (
          create_validation_job-KeepsTables marshal encode nats s.stamp k p.repository_id
            p.generation_run_id v.ids all workspace v.language (validation_options p)))
        (λ created.
          either-KeepsTables created (pure tt) (logged second) (λ w h. h)
            (logged-KeepsTables second (
              create_integration_job-KeepsTables marshal encode nats s.integration_stamp k
                p.repository_id p.generation_run_id all p.create_pr)))

  finish-KeepsTables :
      (p : GenerationPayload) (workspace : String) (v : Made) (k : Uuid)
      → KeepsTables (finish s marshal encode nats p workspace v k)
  unfolding finish
  finish-KeepsTables p workspace v k =
      let rest = chain s marshal encode nats k p workspace v v.paths in
      complete_then-KeepsTables s.ending k (s.marshal_result (result_of s v))
        (if s.has_pipeline then rest else pure tt)
        (guarded-KeepsTables s.has_pipeline rest (chain-KeepsTables k p workspace v v.paths))

  in_workspace-keeps :
      (worker : BaseWorker) (p : GenerationPayload) (job : Job) (w : World) (workspace : String)
      → All KeepsActivity (in_workspace s marshal encode nats worker p job w workspace).activities
  unfolding in_workspace
  in_workspace-keeps worker p job w workspace = elim (Bool-cases (str_eq workspace "")) [
    | inl unknown ↦ rw unknown (fetch_path-KeepsTables s.decode_result job, tt)
    | inr known ↦ rw known (
        closing-keeps worker s.ending "failed to complete job: " job w
          (own (fetch_path s.decode_result job) ∷ ticks_of s.ticks)
          (finish s marshal encode nats p workspace (made s p workspace) job.id)
          (fetch_path-KeepsTables s.decode_result job, ticks-keep s.ticks)
          (finish-KeepsTables p workspace (made s p workspace) job.id))
  ]

  decoded-keeps :
      (worker : BaseWorker) (job : Job) (w : World) (a : Answer GenerationPayload)
      → All KeepsActivity (decoded s marshal encode nats worker job w a).activities
  unfolding decoded
  decoded-keeps worker job w (refused e) = tt
  decoded-keeps worker job w (got p) = elim (Bool-cases s.has_generator) [
    | inl there ↦ rw there (in_workspace-keeps worker p job w (path_of s.decode_result job w))
    | inr missing ↦ rw missing (
        let bytes = s.marshal_result not_configured in
        closing-keeps worker s.ending "failed to complete job: " job w []
          (complete_then s.ending job.id bytes (pure tt)) tt
          (complete_then-KeepsTables s.ending job.id bytes (pure tt) (λ w' h. h)))
  ]

  pub handle_job-KeepsHandler :
      (worker : BaseWorker) → KeepsHandler (handle_job s marshal encode nats worker)
  unfolding handle_job
  handle_job-KeepsHandler worker job w = decoded-keeps worker job w (s.decode job.payload)
