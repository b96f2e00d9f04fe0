-- ===== src/Worker/Integration/Valid.antt =====
-- The integration worker of internal/worker/workers.go leaves the tables of jobs valid.
use qtest.Prelude.{String, List, [], ◌∷◌, All, Bool-cases, inl, inr, str_eq, select}
use qtest.Jobs.Types.{Job}
use qtest.Jobs.Payloads.{IntegrationPayload}
use qtest.Jobs.Store.{World, pure}
use qtest.Workspace.Generate.{Answer, got, refused}
use qtest.Worker.Base.{BaseWorker, Activity, own}
use qtest.Worker.Base.Valid.{KeepsActivity, KeepsHandler}
use qtest.Worker.Ingestion.{ticks_of}
use qtest.Worker.Ingestion.Valid.{ticks-keep}
use qtest.Worker.Ancestry.{fetch_path, path_of}
use qtest.Worker.Ancestry.Ends.{fetch_path-KeepsTables}
use qtest.Worker.Closing.{complete_then, complete_then-KeepsTables, closing-keeps}
use qtest.Worker.Integration.{Surroundings, result_of, integrated, decoded, handle_job}

module _ (s : Surroundings) where
  integrated-keeps :
      (worker : BaseWorker) (p : IntegrationPayload) (job : Job) (w : World) (work : List Activity)
      (files : List String)
      → All KeepsActivity work
      → All KeepsActivity (integrated s worker p job w work files).activities
  unfolding integrated
  integrated-keeps worker p job w work [] a =
      let bytes = s.marshal_result (record { files_integrated = 0; branch_name = "" }) in
      closing-keeps worker s.ending "" job w work (complete_then s.ending job.id bytes (pure tt)) a
        (complete_then-KeepsTables s.ending job.id bytes (pure tt) (λ w' v. v))
  integrated-keeps worker p job w work (file ∷ files) a =
      let bytes = s.marshal_result (result_of s p job.id (file ∷ files)) in
      closing-keeps worker s.ending "failed to complete job: " job w work
        (complete_then s.ending job.id bytes (pure tt)) a
        (complete_then-KeepsTables s.ending job.id bytes (pure tt) (λ w' v. v))

  decoded-keeps :
      (worker : BaseWorker) (job : Job) (w : World) (a : Answer IntegrationPayload)
      → All KeepsActivity (decoded s worker job w a).activities
  unfolding decoded
  decoded-keeps worker job w (refused e) = tt
  decoded-keeps worker job w (got p) =
      let walk = fetch_path-KeepsTables s.decode_result job in
      elim (Bool-cases (str_eq (path_of s.decode_result job w) "")) [
        | inl unknown ↦ rw unknown (walk, tt)
        | inr known ↦ rw known (
            integrated-keeps worker p job w
              (own (fetch_path s.decode_result job) ∷ ticks_of s.ticks)
              (select s.tools.exists p.test_file_paths) (walk, ticks-keep s.ticks))
      ]

  pub handle_job-KeepsHandler : (worker : BaseWorker) → KeepsHandler (handle_job s worker)
  unfolding handle_job
  handle_job-KeepsHandler worker job w = decoded-keeps worker job w (s.decode job.payload)
