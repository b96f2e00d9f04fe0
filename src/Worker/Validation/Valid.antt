-- ===== src/Worker/Validation/Valid.antt =====
-- The validation worker of internal/worker/workers.go leaves the tables of jobs valid.
use qtest.Prelude.{
  ℕ, suc, Bool, Option, none, some, String, List, [], ◌∷◌, All, str_eq, if◌then◌else◌,
}
use qtest.Jobs.Types.{Uuid, Json, Job, JobMessage}
use qtest.Jobs.Payloads.{Payload, ValidationPayload}
use qtest.Jobs.Store.{World, pure}
use qtest.Jobs.Pipeline.{create_mutation_job, create_integration_job}
use qtest.Jobs.Pipeline.Keeps.{
  KeepsTables, bind-KeepsTables, create_mutation_job-KeepsTables,
  create_integration_job-KeepsTables,
}
use qtest.Workspace.Generate.{Answer, got, refused}
use qtest.Worker.Base.{BaseWorker}
use qtest.Worker.Base.Valid.{KeepsActivity, KeepsHandler}
use qtest.Worker.Ingestion.{ticks_of}
use qtest.Worker.Ingestion.Valid.{ticks-keep}
use qtest.Worker.Closing.{
  logged, logged-KeepsTables, complete_then-KeepsTables, closing-keeps, guarded-KeepsTables,
  either-KeepsTables,
}
use qtest.Worker.Paths.{derive_source_path}
use qtest.Worker.Validation.{Tally, validated_paths, validate, empty_tally}
use qtest.Worker.Validation.Handle.{
  Surroundings, result_of, mutate, mutate_all, chain, finish, validated, decoded, handle_job,
}

module _ (s : Surroundings) (marshal : Payload → Option Json) (encode : JobMessage → Option Json)
    (nats : Bool) where
  mutate-KeepsTables :
      (i : ℕ) (k : Uuid) (p : ValidationPayload) (path : String)
      → KeepsTables (mutate s marshal encode nats i k p path)
  mutate-KeepsTables i k p path =
      let source = derive_source_path s.paths path in
      let next_job =
        create_mutation_job marshal encode nats (s.stamps i) k p.repository_id p.generation_run_id
          path source in
      either-KeepsTables (str_eq source "") (pure tt) (logged next_job) (λ w v. v)
        (logged-KeepsTables next_job (
          create_mutation_job-KeepsTables marshal encode nats (s.stamps i) k p.repository_id
            p.generation_run_id path source))

  mutate_all-KeepsTables :
      (i : ℕ) (k : Uuid) (p : ValidationPayload) (paths : List String)
      → KeepsTables (mutate_all s marshal encode nats i k p paths)
  unfolding mutate_all
  mutate_all-KeepsTables i k p [] = λ w v. v
  mutate_all-KeepsTables i k p (path ∷ more) =
      bind-KeepsTables (mutate s marshal encode nats i k p path)
        (λ _. mutate_all s marshal encode nats (suc i) k p more) (mutate-KeepsTables i k p path)
        (λ _. mutate_all-KeepsTables (suc i) k p more)

  chain-KeepsTables :
      (k : Uuid) (p : ValidationPayload) (paths : List String)
      → KeepsTables (chain s marshal encode nats k p paths)
  unfolding chain
  chain-KeepsTables k p [] = λ w v. v
  chain-KeepsTables k p (path ∷ more) =
      let all : List String = path ∷ more in
      let mutants = mutate_all s marshal encode nats 0 k p all in
      let last =
        create_integration_job marshal encode nats s.integration_stamp k p.repository_id
          p.generation_run_id all p.create_pr in
      bind-KeepsTables (if p.run_mutation then mutants else pure tt) (λ _. logged last)
        (guarded-KeepsTables p.run_mutation mutants (mutate_all-KeepsTables 0 k p all))
        (λ _. logged-KeepsTables last (
          create_integration_job-KeepsTables marshal encode nats s.integration_stamp k
            p.repository_id p.generation_run_id all p.create_pr))

  finish-KeepsTables :
      (p : ValidationPayload) (t : Tally) (k : Uuid)
      → KeepsTables (finish s marshal encode nats p t k)
  unfolding finish
  finish-KeepsTables p t k =
      let paths = validated_paths t.results in
      let rest = chain s marshal encode nats k p paths in
      complete_then-KeepsTables s.ending k (s.marshal_result (result_of s p t))
        (if s.has_pipeline then rest else pure tt)
        (guarded-KeepsTables s.has_pipeline rest (chain-KeepsTables k p paths))

  validated-keeps :
      (worker : BaseWorker) (p : ValidationPayload) (job : Job) (w : World) (o : Option Tally)
      → All KeepsActivity (validated s marshal encode nats worker p job w o).activities
  unfolding validated
  validated-keeps worker p job w none = ticks-keep s.ticks
  validated-keeps worker p job w (some t) =
      closing-keeps worker s.ending "failed to complete job: " job w (ticks_of s.ticks)
        (finish s marshal encode nats p t job.id) (ticks-keep s.ticks)
        (finish-KeepsTables p t job.id)

  decoded-keeps :
      (worker : BaseWorker) (job : Job) (w : World) (a : Answer ValidationPayload)
      → All KeepsActivity (decoded s marshal encode nats worker job w a).activities
  unfolding decoded
  decoded-keeps worker job w (refused e) = tt
  decoded-keeps worker job w (got p) =
      validated-keeps worker p job w
        (validate s.tools p.auto_fix p.test_ids p.test_file_paths empty_tally)

  pub handle_job-KeepsHandler :
      (worker : BaseWorker) → KeepsHandler (handle_job s marshal encode nats worker)
  unfolding handle_job
  handle_job-KeepsHandler worker job w = decoded-keeps worker job w (s.decode job.payload)
