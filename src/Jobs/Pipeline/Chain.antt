-- ===== src/Jobs/Pipeline/Chain.antt =====
-- What internal/jobs/pipeline.go stores, and what it returns, when it creates a job.
use mathlib.Core.Path.{subst}
use qtest.Prelude.{
  ◌≡◌, refl, ◌∙◌, sym, ap, Bool, true, Option, none, some, ◌∷◌, arith, Option-cases, inl, inr,
}
use qtest.Prelude.Int.{ℤ}
use qtest.Jobs.Types.{Uuid, Json, Job, JobType, JobMessage, pending, new_job}
use qtest.Jobs.Payloads.{Payload}
use qtest.Jobs.Store.{>>=-eq-ok, World, Db, Result, ok, find}
use qtest.Jobs.Repository.{create, get_by_id, insertable, inserted_row}
use qtest.Jobs.Pipeline.{Stamp, inherit, publish_job, store_and_publish, chain_new, chain_job}

-- The table with one more row, the others untouched.
abbrev pub Adds : Db → Db → Job → Type 0
Adds db db' j = (insertable j db ≡ true) × (db' ≡ record db { jobs = inserted_row j ∷ db.jobs })

-- A column of the parent's row, if the parent is stored.
abbrev pub of_parent : (Job → Option Uuid) → Option Job → Option Uuid
of_parent f none = none
of_parent f (some parent) = f parent

Adds-along :
    (old db new db' : Db) (j j' : Job)
    → old ≡ db
    → j' ≡ j
    → db' ≡ new
    → Adds old new j
    → Adds db db' j'
Adds-along old db new db' j j' p q r (able, stored) = (
  subst (λ d. insertable j' d ≡ true) p (subst (λ x. insertable x old ≡ true) (sym q) able),
  ground arith,
)

module _ (marshal : Payload → Option Json) (encode : JobMessage → Option Json) (nats : Bool) where
  pub publish_job-committed :
      (job : Job) (w : World) → (publish_job marshal encode nats job w).1.committed ≡ w.committed
  unfolding publish_job
  publish_job-committed job w = ground arith

  store_and_publish-Adds :
      (job : Job) (w : World) (stored : Job)
      → (store_and_publish marshal encode nats job w).0 ≡ ok stored
      → (stored ≡ job)
        × Adds w.committed (store_and_publish marshal encode nats job w).1.committed job
  unfolding store_and_publish create
  store_and_publish-Adds job w stored h = ground (arith, publish_job-committed job (create job w).1)

  get_by_id-find :
      (k : Uuid) (w : World) (found : Option Job)
      → (get_by_id k w).0 ≡ ok found
      → (found ≡ find k w.committed.jobs)
  unfolding get_by_id
  get_by_id-find k w found h = ground arith

  get_by_id-committed : (k : Uuid) (w : World) → (get_by_id k w).1.committed ≡ w.committed
  unfolding get_by_id
  get_by_id-committed k w = ground arith

  module _ (s : Stamp) (parent_id : Uuid) (w : World) where
    chain_new-Adds :
        (new job : Job)
        → (chain_new marshal encode nats parent_id (some new) w).0 ≡ ok job
        → (job
            ≡ inherit
                (find parent_id w.committed.jobs)
                (record new { parent_job_id = some parent_id }))
          × Adds w.committed (chain_new marshal encode nats parent_id (some new) w).1.committed job
    unfolding chain_new
    chain_new-Adds new job h =
        let (found, got, step) =
          >>=-eq-ok (get_by_id parent_id)
            (λ parent.
              store_and_publish marshal encode nats
                (inherit parent (record new { parent_job_id = some parent_id })))
            w job h in
        let same : found ≡ find parent_id w.committed.jobs = get_by_id-find parent_id w found got in
        let (as_given, adds) =
          store_and_publish-Adds (inherit found (record new { parent_job_id = some parent_id }))
            (get_by_id parent_id w).1 job (rw step at h) in
        (
          as_given ∙ ap (λ f. inherit f (record new { parent_job_id = some parent_id })) same,
          Adds-along _ _ _ _ _ _ (get_by_id-committed parent_id w) as_given
              (ap (λ (r : Result Job × World). r.1.committed) step) adds,
        )

    pub chain_job-Adds :
        (job_type : JobType) (payload : Payload) (job : Job)
        → (chain_job marshal encode nats s parent_id job_type payload w).0 ≡ ok job
        → (new : Job) × (new_job marshal s.id s.created s.updated job_type payload ≡ some new)
          × (job
              ≡ inherit
                  (find parent_id w.committed.jobs)
                  (record new { parent_job_id = some parent_id }))
          × Adds w.committed
              (chain_job marshal encode nats s parent_id job_type payload w).1.committed
              job
    unfolding chain_job
    chain_job-Adds job_type payload job h =
        go (new_job marshal s.id s.created s.updated job_type payload) refl h
      where
        go :
            (made : Option Job)
            → new_job marshal s.id s.created s.updated job_type payload ≡ made
            → (chain_new marshal encode nats parent_id made w).0 ≡ ok job
            → (new : Job) × (new_job marshal s.id s.created s.updated job_type payload ≡ some new)
              × (job
                  ≡ inherit
                      (find parent_id w.committed.jobs)
                      (record new { parent_job_id = some parent_id }))
              × Adds w.committed
                  (chain_new marshal encode nats parent_id
                    (new_job marshal s.id s.created s.updated job_type payload)
                    w).1.committed
                  job
        go none e g = absurd (unfold chain_new in cc)
        go (some new) e g = let (a, b) = chain_new-Adds new job g in (new, e, a, rw e b)

    -- `ChainJob` that succeeds returns a new pending job with the encoded payload, a child of the
    -- parent: its repository and its run are those of the parent's row, and none if the parent is not
    -- stored or has none. The table of jobs has exactly this job more.
    pub chain_job-child :
        (job_type : JobType) (payload : Payload) (job : Job)
        → (chain_job marshal encode nats s parent_id job_type payload w).0 ≡ ok job
        → (bytes : Json) × (marshal payload ≡ some bytes)
          × (job ≡ record {
            id = s.id;
            job_type = job_type;
            status = pending;
            priority = ℤ.pos 0;
            repository_id = of_parent (λ p. p.repository_id) (find parent_id w.committed.jobs);
            generation_run_id =
                of_parent (λ p. p.generation_run_id) (find parent_id w.committed.jobs);
            parent_job_id = some parent_id;
            payload = bytes;
            result = none;
            error_message = none;
            error_details = none;
            retry_count = 0;
            max_retries = 3;
            created_at = s.created;
            updated_at = s.updated;
            started_at = none;
            completed_at = none;
            locked_until = none;
            worker_id = none;
          })
          × ((chain_job marshal encode nats s parent_id job_type payload w).1.committed
              ≡ record w.committed { jobs = job ∷ w.committed.jobs })
    chain_job-child job_type payload job h =
        let (new, made, same, adds) = chain_job-Adds job_type payload job h in
        elim (Option-cases (marshal payload)) [
          | inl silent ↦ absurd (unfold new_job in ground arith)
          | inr (bytes, e) ↦
              (bytes, e, unfold new_job in ground arith, unfold new_job in ground arith)
        ]
