-- ===== src/Jobs/Pipeline/Keeps.antt =====
-- The calls of internal/jobs/pipeline.go that create jobs leave the tables valid.
use mathlib.Core.Path.{subst}
use qtest.Prelude.{◌≡◌, refl, sym, ◌∙◌, String, Bool, Option, none, some, arith, List}
use qtest.Jobs.Types.{Uuid, Json, Job, JobType, JobMessage, pending, new_job}
use qtest.Jobs.Payloads.{Payload, PipelineJobOptions, ValidationJobOptions}
use qtest.Jobs.Store.{World, M, Result, ok, err, ◌>>=◌, next, call}
use qtest.Jobs.Repository
use qtest.Jobs.Repository.Steps.{Op, run_op}
use qtest.Jobs.Repository.Refines.{Admissible, run_op-TableStep}
use qtest.Jobs.Repository.Invariant.{IsValid, TableStep-IsValid}
use qtest.Jobs.Pipeline.{
  Stamp, inherit, publish_job, store_and_publish, chain_new, chain_job, create_modeling_job,
  create_generation_job, create_planning_job, create_validation_job, create_integration_job,
  create_mutation_job,
}

-- An action that leaves valid tables valid.
abbrev pub KeepsTables {ℓ} : {A : Type ℓ} → M A → Type 0
KeepsTables m = (w : World) → IsValid w.committed → IsValid (m w).1.committed

pub op-KeepsTables : (op : Op) → Admissible op → KeepsTables (run_op op)
op-KeepsTables op a w v = TableStep-IsValid w.committed _ (run_op-TableStep op w a v.distinct) v

next-IsValid {ℓ κ} :
    {A : Type ℓ} {B : Type κ} (f : A → M B)
    → ((a : A) → KeepsTables (f a))
    → (r : Result A) (w : World) → IsValid w.committed
    → IsValid (next r w f).1.committed
next-IsValid f keeps (ok a) w v = keeps a w v
next-IsValid f keeps (err e) w v = v

pub bind-KeepsTables {ℓ κ} :
    {A : Type ℓ} {B : Type κ} (m : M A) (f : A → M B)
    → KeepsTables m
    → ((a : A) → KeepsTables (f a))
    → KeepsTables (m >>= f)
bind-KeepsTables m f m-keeps f-keeps w v = next-IsValid f f-keeps (m w).0 (m w).1 (m-keeps w v)

create-KeepsTables : (j : Job) → j.status ≡ pending → KeepsTables (Repository.create j)
unfolding run_op
create-KeepsTables j fresh = op-KeepsTables (Op.create j) fresh

pub get_by_id-KeepsTables : (k : Uuid) → KeepsTables (Repository.get_by_id k)
unfolding Repository.get_by_id
get_by_id-KeepsTables k w v = subst IsValid (sym same) v
  where
    same : (Repository.get_by_id k w).1.committed ≡ w.committed
    same = ground arith

module _ (marshal : Payload → Option Json) (encode : JobMessage → Option Json) (nats : Bool) where
  publish_job-committed :
      (job : Job) (w : World) → (publish_job marshal encode nats job w).1.committed ≡ w.committed
  unfolding publish_job call
  publish_job-committed job w = ground arith

  store_and_publish-KeepsTables :
      (job : Job) → job.status ≡ pending → KeepsTables (store_and_publish marshal encode nats job)
  unfolding store_and_publish
  store_and_publish-KeepsTables job fresh =
      bind-KeepsTables (Repository.create job) _ (create-KeepsTables job fresh)
        (λ _ w v. subst IsValid (sym (publish_job-committed job w)) v)

  inherit-status : (parent : Option Job) (job : Job) → (inherit parent job).status ≡ job.status
  inherit-status none job = refl
  inherit-status (some p) job = refl

  chain_new-KeepsTables :
      (k : Uuid) (job : Option Job)
      → ((j : Job) → job ≡ some j → j.status ≡ pending)
      → KeepsTables (chain_new marshal encode nats k job)
  unfolding chain_new
  chain_new-KeepsTables k none fresh = λ w v. v
  chain_new-KeepsTables k (some job) fresh =
      bind-KeepsTables (Repository.get_by_id k) _ (get_by_id-KeepsTables k)
        (λ parent. store_and_publish-KeepsTables _ (inherit-status parent _ ∙ fresh job refl))

  -- `ChainJob` leaves valid tables valid, whichever calls fail.
  pub chain_job-KeepsTables :
      (s : Stamp) (k : Uuid) (t : JobType) (payload : Payload)
      → KeepsTables (chain_job marshal encode nats s k t payload)
  unfolding chain_job new_job
  chain_job-KeepsTables s k t payload = chain_new-KeepsTables k _ (λ j h. ground (arith, h))

  pub create_modeling_job-KeepsTables :
      (s : Stamp) (k repo_id : Uuid) (path : String) (opts : PipelineJobOptions)
      → KeepsTables (create_modeling_job marshal encode nats s k repo_id path opts)
  unfolding create_modeling_job
  create_modeling_job-KeepsTables s k repo_id path opts =
      bind-KeepsTables _ _ (chain_job-KeepsTables s k _ _) (λ job w v. v)

  pub create_generation_job-KeepsTables :
      (s : Stamp) (k repo_id run_id plan_id : Uuid) (opts : PipelineJobOptions)
      → KeepsTables (create_generation_job marshal encode nats s k repo_id run_id plan_id opts)
  unfolding create_generation_job
  create_generation_job-KeepsTables s k repo_id run_id plan_id opts =
      bind-KeepsTables _ _ (chain_job-KeepsTables s k _ _) (λ job w v. v)

  pub create_planning_job-KeepsTables :
      (s : Stamp) (k repo_id model_id : Uuid) (opts : PipelineJobOptions)
      → KeepsTables (create_planning_job marshal encode nats s k repo_id model_id opts)
  unfolding create_planning_job
  create_planning_job-KeepsTables s k repo_id model_id opts = chain_job-KeepsTables s k _ _

  pub create_validation_job-KeepsTables :
      (s : Stamp) (k repo_id run_id : Uuid) (test_ids paths : List String)
      (workspace language : String) (opts : ValidationJobOptions)
      → KeepsTables (
          create_validation_job marshal encode nats s k repo_id run_id test_ids paths workspace
            language opts)
  unfolding create_validation_job
  create_validation_job-KeepsTables s k repo_id run_id test_ids paths workspace language opts =
      bind-KeepsTables _ _ (chain_job-KeepsTables s k _ _) (λ job w v. v)

  pub create_integration_job-KeepsTables :
      (s : Stamp) (k repo_id run_id : Uuid) (paths : List String) (create_pr : Bool)
      → KeepsTables (create_integration_job marshal encode nats s k repo_id run_id paths create_pr)
  unfolding create_integration_job
  create_integration_job-KeepsTables s k repo_id run_id paths create_pr =
      chain_job-KeepsTables s k _ _

  pub create_mutation_job-KeepsTables :
      (s : Stamp) (k repo_id run_id : Uuid) (test_path source_path : String)
      → KeepsTables
          (create_mutation_job marshal encode nats s k repo_id run_id test_path source_path)
  unfolding create_mutation_job
  create_mutation_job-KeepsTables s k repo_id run_id test_path source_path =
      bind-KeepsTables _ _ (chain_job-KeepsTables s k _ _) (λ job w v. v)
