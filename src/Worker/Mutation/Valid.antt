-- ===== src/Worker/Mutation/Valid.antt =====
-- The mutation worker of internal/worker/workers.go leaves the tables of jobs valid.
use qtest.Prelude.{All, Bool-cases, inl, inr}
use qtest.Jobs.Types.{Job}
use qtest.Jobs.Payloads.{MutationPayload}
use qtest.Jobs.Store.{World, pure}
use qtest.Workspace.Generate.{Answer, got, refused}
use qtest.Worker.Base.{BaseWorker}
use qtest.Worker.Base.Valid.{KeepsActivity, KeepsHandler}
use qtest.Worker.Ingestion.{ticks_of}
use qtest.Worker.Ingestion.Valid.{ticks-keep}
use qtest.Worker.Closing.{complete_then, complete_then-KeepsTables, closing-keeps}
use qtest.Worker.Mutation.{Surroundings, MutantRun, no_mutants, result_of, ran, decoded, handle_job}

module _ {ℓ} {F : Type ℓ} (s : Surroundings F) where
  ran-keeps :
      (worker : BaseWorker) (p : MutationPayload) (job : Job) (w : World) (a : Answer (MutantRun F))
      → All KeepsActivity (ran s worker p job w a).activities
  unfolding ran
  ran-keeps worker p job w (refused e) =
      let bytes = s.marshal_result (no_mutants s) in
      closing-keeps worker s.ending "" job w (ticks_of s.ticks)
        (complete_then s.ending job.id bytes (pure tt)) (ticks-keep s.ticks)
        (complete_then-KeepsTables s.ending job.id bytes (pure tt) (λ w' v. v))
  ran-keeps worker p job w (got r) =
      let bytes = s.marshal_result (result_of s p.source_file_path r) in
      closing-keeps worker s.ending "failed to complete job: " job w (ticks_of s.ticks)
        (complete_then s.ending job.id bytes (pure tt)) (ticks-keep s.ticks)
        (complete_then-KeepsTables s.ending job.id bytes (pure tt) (λ w' v. v))

  decoded-keeps :
      (worker : BaseWorker) (job : Job) (w : World) (a : Answer MutationPayload)
      → All KeepsActivity (decoded s worker job w a).activities
  unfolding decoded
  decoded-keeps worker job w (refused e) = tt
  decoded-keeps worker job w (got p) = elim (Bool-cases (s.exists p.source_file_path)) [
    | inr missing ↦ rw missing tt
    | inl there ↦ elim (Bool-cases (s.exists p.test_file_path)) [
      | inr missing ↦ rw (there, missing) tt
      | inl both ↦
          rw (there, both) (ran-keeps worker p job w (s.run p.source_file_path p.test_file_path))
    ]
  ]

  pub handle_job-KeepsHandler : (worker : BaseWorker) → KeepsHandler (handle_job s worker)
  unfolding handle_job
  handle_job-KeepsHandler worker job w = decoded-keeps worker job w (s.decode job.payload)
