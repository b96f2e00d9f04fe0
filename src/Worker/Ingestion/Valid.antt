-- ===== src/Worker/Ingestion/Valid.antt =====
-- The ingestion worker of internal/worker/workers.go leaves the tables of jobs valid.
use qtest.Prelude.{if◌then◌else◌, Bool, true, false, Option, List, [], ◌∷◌, ◌++◌, All, All-append}
use qtest.Jobs.Types.{Uuid, Time, Json, Job, JobMessage}
use qtest.Jobs.Payloads.{Payload, IngestionPayload, PipelineJobOptions}
use qtest.Jobs.Store.{World, M, Result, ok, err, pure}
use qtest.Jobs.Repository.Steps.{Op, run_op}
use qtest.Jobs.Repository
use qtest.Jobs.Repository.Invariant.{IsValid}
use qtest.Jobs.Pipeline.{create_modeling_job, try, caught}
use qtest.Jobs.Pipeline.Keeps.{
  KeepsTables, op-KeepsTables, bind-KeepsTables, create_modeling_job-KeepsTables,
}
use qtest.Workspace.Generate.{Answer, got, refused}
use qtest.Worker.Base.{BaseWorker, Activity, own}
use qtest.Worker.Base.Valid.{Keeps, KeepsActivity, KeepsHandler}
use qtest.Worker.Ingestion.{
  Surroundings, add_repository, ticks_of, result_of, options_of, chain, finish, cloned, decoded,
  handle_job, repository_of, clone_args,
}

add_repository-Keeps : (k : Uuid) → Keeps (add_repository k)
unfolding add_repository
add_repository-Keeps k w v = record { distinct = v.distinct; sound = v.sound; logged = v.logged }

pub ticks-keep : (ts : List (Time × Time)) → All KeepsActivity (ticks_of ts)
unfolding ticks_of
ticks-keep [] = tt
ticks-keep (t ∷ ts) = (tt, ticks-keep ts)

caught-IsValid {ℓ} :
    {A : Type ℓ} (r : Result A × World) → IsValid r.1.committed → IsValid (caught r).1.committed
caught-IsValid (ok a, w) v = v
caught-IsValid (err e, w) v = v

pub try-KeepsTables {ℓ} : {A : Type ℓ} (m : M A) → KeepsTables m → KeepsTables (try m)
try-KeepsTables m keeps w v = caught-IsValid (m w) (keeps w v)

pub complete-KeepsTables :
    (hid k : Uuid) (bytes : Option Json) (now : Time)
    → KeepsTables (Repository.complete hid k bytes now)
unfolding run_op
complete-KeepsTables hid k bytes now = op-KeepsTables (Op.complete hid k bytes now) tt

module _ (marshal : Payload → Option Json) (encode : JobMessage → Option Json) (nats : Bool) where
  chain-KeepsTables :
      (s : Surroundings) (job_id repo_id : Uuid) (opts : PipelineJobOptions) (b : Bool)
      → KeepsTables (chain marshal encode nats s job_id repo_id opts b)
  unfolding chain
  chain-KeepsTables s job_id repo_id opts false = λ w v. v
  chain-KeepsTables s job_id repo_id opts true =
      let next_job =
        create_modeling_job marshal encode nats s.stamp job_id repo_id s.workspace_path opts in
      bind-KeepsTables (try next_job) (λ _. pure tt)
        (try-KeepsTables next_job (
          create_modeling_job-KeepsTables marshal encode nats s.stamp job_id repo_id
            s.workspace_path opts))
        (λ _ w v. v)

  finish-KeepsTables :
      (s : Surroundings) (p : IngestionPayload) (repo_id job_id : Uuid)
      → KeepsTables (finish marshal encode nats s p repo_id job_id)
  unfolding finish
  finish-KeepsTables s p repo_id job_id =
      let bytes = s.marshal_result (result_of s repo_id) in
      bind-KeepsTables (Repository.complete s.history_id job_id bytes s.now)
        (λ _. chain marshal encode nats s job_id repo_id (options_of p) s.has_pipeline)
        (complete-KeepsTables s.history_id job_id bytes s.now)
        (λ _. chain-KeepsTables s job_id repo_id (options_of p) s.has_pipeline)

  cloned-keeps :
      (worker : BaseWorker) (s : Surroundings) (p : IngestionPayload) (repo_id : Uuid) (job : Job)
      (w : World) (work : List Activity) (dir clone : Answer (Unit {0}))
      → All KeepsActivity work
      → All KeepsActivity
          (cloned marshal encode nats worker s p repo_id job w work dir clone).activities
  unfolding cloned
  cloned-keeps worker s p repo_id job w work (refused e) clone keeps = keeps
  cloned-keeps worker s p repo_id job w work (got _) (refused e) keeps = keeps
  cloned-keeps worker s p repo_id job w work (got _) (got _) keeps =
      All-append KeepsActivity work _ keeps (finish-KeepsTables s p repo_id job.id, tt)

  row-keeps :
      (is_new : Bool) (k : Uuid)
      → All KeepsActivity (if is_new then own (add_repository k) ∷ [] else [])
  row-keeps true k = (add_repository-Keeps k, tt)
  row-keeps false k = tt

  decoded-keeps :
      (worker : BaseWorker) (s : Surroundings) (job : Job) (w : World) (a : Answer IngestionPayload)
      → All KeepsActivity (decoded marshal encode nats worker s job w a).activities
  unfolding decoded
  decoded-keeps worker s job w (refused e) = tt
  decoded-keeps worker s job w (got p) =
      let (repo_id, is_new) = repository_of s.store s.fresh in
      let row : List Activity = if is_new then own (add_repository repo_id) ∷ [] else [] in
      cloned-keeps worker s p repo_id job w (row ++ ticks_of s.ticks) s.make_dir
        (s.clone (clone_args p s.workspace_path))
        (All-append KeepsActivity row (ticks_of s.ticks) (row-keeps is_new repo_id)
          (ticks-keep s.ticks))

  pub handle_job-KeepsHandler :
      (worker : BaseWorker) (s : Surroundings)
      → KeepsHandler (handle_job marshal encode nats worker s)
  unfolding handle_job
  handle_job-KeepsHandler worker s job w = decoded-keeps worker s job w (s.decode job.payload)
