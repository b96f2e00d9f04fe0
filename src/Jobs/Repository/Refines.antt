-- ===== src/Jobs/Repository/Refines.antt =====
-- Each method of internal/jobs/repository.go refines the abstract table, whichever calls of the
-- database fail: it stores a fresh pending row, or moves rows and appends to the history.
use qtest.Prelude.{
  ◌≡◌, refl, inl, inr, ap, sym, String, Bool, true, false, Option, none, some, List, [], ◌∷◌, ◌&&◌,
  arith, All-map, All-every, &&-right, ◌==◌,
}
use qtest.Prelude.Int.{◌+ℤ◌}
use qtest.Jobs.Types.{Uuid, Time, Duration, Json, Job, pending}
use qtest.Jobs.Store.{
  Db, HistoryRow, World, M, Result, touch, update_where, first_match, has_id, find, count_where,
}
use qtest.Jobs.Repository
use qtest.Jobs.Repository.{
  is_some, insertable, inserted_row, claimable, claimed_row, completed_row, status_after_failure,
  failed_row, retryable, requeued_row, cancellable, cancelled_row, owned_by, extended_row, stale,
}
use qtest.Jobs.Repository.Outcomes.{
  Transacts, claim_found, claim_missed, complete_found, complete_missed, fail_found, fail_missed,
  retry_found, retry_missed, cancel_found, cancel_refused, cancel_missed,
}
use qtest.Jobs.Repository.Rows.{RowStep}
use qtest.Jobs.Repository.Steps.{
  Op, run_op, discard, Distinct, Moves, Moves-refl, update_where-Moves, found_is_unique,
  first_match-find,
}

-- At most one row of history, about a job of the table.
pub data Logged (db db' : Db) : Type 0 where
  silent : db'.history ≡ db.history → Logged db db'
  noted :
      (h : HistoryRow)
      → is_some (find h.job_id db.jobs) ≡ true
      → db'.history ≡ h ∷ db.history
      → Logged db db'

-- A step of the abstract table, for the jobs that `P` lets in.
pub data OpStep (P : Job → Type 0) (db db' : Db) : Type 0 where
  insert :
      (j : Job)
      → P j
      → insertable j db ≡ true
      → db' ≡ record db { jobs = inserted_row j ∷ db.jobs }
      → OpStep P db db'
  move : Moves db.jobs db'.jobs → Logged db db' → OpStep P db db'

-- `P` holds of the job that an operation stores, if it stores one.
abbrev pub Stores : (Job → Type 0) → Op → Type 0
Stores P (Op.create j) = P j
Stores P _ = Unit

-- The only jobs that are stored are pending, as `NewJob` makes them.
abbrev pub IsPending : Job → Type 0
IsPending j = j.status ≡ pending

abbrev pub TableStep : Db → Db → Type 0
TableStep = OpStep IsPending

abbrev pub Admissible : Op → Type 0
Admissible = Stores IsPending

count_where-find :
    (k : Uuid) (q : Job → Bool) (rs : List Job)
    → (count_where (λ r. has_id k r && q r) rs == 0) ≡ false
    → is_some (find k rs) ≡ true
unfolding find first_match count_where
count_where-find k q [] e = cc
count_where-find k q (r ∷ rs) e = ground (arith, count_where-find k q rs)

pub OpStep-refl : {P : Job → Type 0} (db db' : Db) → db' ≡ db → OpStep P db db'
OpStep-refl db db' e = move (rw e (Moves-refl db.jobs)) (silent (ap (λ (d : Db). d.history) e))

-- A transaction whose rows move is a step of the abstract table.
transacts-OpStep {ℓ} :
    {P : Job → Type 0} {A : Type ℓ} (r : Result A × World) (answer : Result A) (db : Db)
    (rows : List Job) (row : HistoryRow)
    → Moves db.jobs rows
    → is_some (find row.job_id db.jobs) ≡ true
    → Transacts r answer db rows row
    → OpStep P db r.1.committed
transacts-OpStep r answer db rows row m known (inl (_, e)) = OpStep-refl db r.1.committed e
transacts-OpStep r answer db rows row m known (inr (inl (_, e))) = rw e (move m (silent refl))
transacts-OpStep r answer db rows row m known (inr (inr (_, e))) =
    rw e (move m (noted row known refl))

module _ {P : Job → Type 0} (hid k : Uuid) (now : Time) (w : World)
    (d : Distinct w.committed.jobs) where
  claim-OpStep :
      (worker : String) (lock : Duration)
      → OpStep P w.committed (Repository.claim hid k worker lock now w).1.committed
  claim-OpStep worker lock =
      go (first_match (λ r. has_id k r && claimable now r) w.committed.jobs) refl
    where
      go :
          (found : Option Job)
          → first_match (λ r. has_id k r && claimable now r) w.committed.jobs ≡ found
          → OpStep P w.committed (Repository.claim hid k worker lock now w).1.committed
      go none e = OpStep-refl _ _ (claim_missed hid k now w worker lock e).1
      go (some job) e =
          let (same, _, known) = first_match-find k (claimable now) w.committed.jobs job e in
          transacts-OpStep (Repository.claim hid k worker lock now w) _ _ _ _
            (update_where-Moves w.clock _ _ w.committed.jobs (
              All-every
                (λ r g. RowStep.claim worker (now +ℤ lock) now w.clock (&&-right _ _ g) refl) _))
            (rw same known) (claim_found hid k now w worker lock job e)

  complete-OpStep :
      (bytes : Option Json)
      → OpStep P w.committed (Repository.complete hid k bytes now w).1.committed
  complete-OpStep none = OpStep-refl _ _ (unfold Repository.complete in refl)
  complete-OpStep (some bytes) = go (find k w.committed.jobs) refl
    where
      go :
          (found : Option Job)
          → find k w.committed.jobs ≡ found
          → OpStep P w.committed (Repository.complete hid k (some bytes) now w).1.committed
      go none e = OpStep-refl _ _ (complete_missed hid k now w (some bytes) e).1
      go (some job) e =
          transacts-OpStep (Repository.complete hid k (some bytes) now w) _ _ _ _
            (update_where-Moves w.clock _ _ w.committed.jobs
              (All-every (λ r g. RowStep.complete bytes now w.clock refl) _))
            (rw e) (complete_found hid k now w bytes job e)

  fail-OpStep :
      (message : String) (details : Option Json)
      → OpStep P w.committed (Repository.fail hid k message details now w).1.committed
  fail-OpStep message details = go (find k w.committed.jobs) refl
    where
      go :
          (found : Option Job)
          → find k w.committed.jobs ≡ found
          → OpStep P w.committed (Repository.fail hid k message details now w).1.committed
      go none e = OpStep-refl _ _ (fail_missed hid k now w message details e).1
      go (some job) e =
          transacts-OpStep (Repository.fail hid k message details now w) _ _ _ _
            (update_where-Moves w.clock _ _ w.committed.jobs (
              All-map
                (λ r.
                  has_id k r ≡ true
                  → RowStep r
                      (touch w.clock (failed_row (status_after_failure job) message details now r)))
                (λ r same g. RowStep.fail message details now w.clock (
                  ap
                    (λ (x : Job).
                      touch w.clock (failed_row (status_after_failure x) message details now r))
                    (sym (same g))))
                w.committed.jobs (found_is_unique k w.committed.jobs job d e)))
            (rw e) (fail_found hid k now w message details job e)

  pub retry-OpStep : OpStep P w.committed (Repository.retry hid k now w).1.committed
  retry-OpStep = go (count_where (λ r. has_id k r && retryable r) w.committed.jobs == 0) refl
    where
      go :
          (idle : Bool)
          → (count_where (λ r. has_id k r && retryable r) w.committed.jobs == 0) ≡ idle
          → OpStep P w.committed (Repository.retry hid k now w).1.committed
      go true e = OpStep-refl _ _ (retry_missed hid k now w e).1
      go false e =
          transacts-OpStep (Repository.retry hid k now w) _ _ _ _
            (update_where-Moves w.clock _ _ w.committed.jobs
              (All-every (λ r g. RowStep.retry now w.clock (&&-right _ _ g) refl) _))
            (count_where-find k retryable w.committed.jobs e) (retry_found hid k now w e)

  cancel-OpStep : OpStep P w.committed (Repository.cancel hid k now w).1.committed
  cancel-OpStep = go (find k w.committed.jobs) refl
    where
      allowed :
          (job : Job)
          → find k w.committed.jobs ≡ some job
          → (b : Bool) → cancellable job ≡ b
          → OpStep P w.committed (Repository.cancel hid k now w).1.committed
      allowed job e false c = OpStep-refl _ _ (cancel_refused hid k now w job e c).1
      allowed job e true c =
          transacts-OpStep (Repository.cancel hid k now w) _ _ _ _
            (update_where-Moves w.clock _ _ w.committed.jobs (
              All-map _ (λ r same g. RowStep.cancel now w.clock (rw (same g) c) refl)
                w.committed.jobs (found_is_unique k w.committed.jobs job d e)))
            (rw e) (cancel_found hid k now w job e c)

      go :
          (found : Option Job)
          → find k w.committed.jobs ≡ found
          → OpStep P w.committed (Repository.cancel hid k now w).1.committed
      go none e = OpStep-refl _ _ (cancel_missed hid k now w e).1
      go (some job) e = allowed job e (cancellable job) refl

pub extend_stores :
    (k : Uuid) (worker : String) (duration : Duration) (now later : Time) (w : World)
    → w.fault w.calls ≡ false
    → (Repository.extend_lock k worker duration now later w).1.committed ≡ record w.committed {
      jobs =
          update_where w.clock
            (λ r. has_id k r && owned_by worker r)
            (extended_row (now +ℤ duration) later)
            w.committed.jobs;
    }
unfolding Repository.extend_lock
extend_stores k worker duration now later w f = ground arith

pub cleanup_stores :
    (now : Time) (w : World)
    → w.fault w.calls ≡ false
    → (Repository.cleanup_stale now w).1.committed ≡ record w.committed {
      jobs = update_where w.clock (stale now) (requeued_row now) w.committed.jobs;
    }
unfolding Repository.cleanup_stale
cleanup_stores now w f = ground arith

pub discard-committed {ℓ} :
    {A : Type ℓ} (m : M A) (w : World) → (discard m w).1.committed ≡ (m w).1.committed
discard-committed m w = ground arith

create-OpStep :
    {P : Job → Type 0} (j : Job) (w : World)
    → P j
    → OpStep P w.committed (Repository.create j w).1.committed
create-OpStep {P = P} j w fresh = go (insertable j w.committed) refl (w.fault w.calls) refl
  where
    go :
        (b : Bool)
        → insertable j w.committed ≡ b
        → (f : Bool) → w.fault w.calls ≡ f
        → OpStep P w.committed (Repository.create j w).1.committed
    go b e true f = OpStep-refl _ _ (unfold Repository.create in ground arith)
    go false e false f = OpStep-refl _ _ (unfold Repository.create in ground arith)
    go true e false f = insert j fresh e (unfold Repository.create in ground arith)

extend-OpStep :
    {P : Job → Type 0} (k : Uuid) (worker : String) (duration : Duration) (now later : Time)
    (w : World)
    → OpStep P w.committed (Repository.extend_lock k worker duration now later w).1.committed
extend-OpStep {P = P} k worker duration now later w = go (w.fault w.calls) refl
  where
    go :
        (f : Bool)
        → w.fault w.calls ≡ f
        → OpStep P w.committed (Repository.extend_lock k worker duration now later w).1.committed
    go true f = OpStep-refl _ _ (unfold Repository.extend_lock in ground arith)
    go false f = rw (extend_stores k worker duration now later w f) (
        move
          (update_where-Moves w.clock _ _ w.committed.jobs (
            All-every
              (λ r g. RowStep.extend worker (now +ℤ duration) later w.clock (&&-right _ _ g) refl)
              _))
          (silent refl))

cleanup-OpStep :
    {P : Job → Type 0} (now : Time) (w : World)
    → OpStep P w.committed (Repository.cleanup_stale now w).1.committed
cleanup-OpStep {P = P} now w = go (w.fault w.calls) refl
  where
    go :
        (f : Bool)
        → w.fault w.calls ≡ f
        → OpStep P w.committed (Repository.cleanup_stale now w).1.committed
    go true f = OpStep-refl _ _ (unfold Repository.cleanup_stale in ground arith)
    go false f = rw (cleanup_stores now w f) (
        move
          (update_where-Moves w.clock _ _ w.committed.jobs
            (All-every (λ r g. RowStep.reset now w.clock g refl) _))
          (silent refl))

pub run_op-OpStep :
    {P : Job → Type 0} (op : Op) (w : World)
    → Stores P op
    → Distinct w.committed.jobs
    → OpStep P w.committed (run_op op w).1.committed
unfolding run_op
run_op-OpStep (Op.create j) w a d = create-OpStep j w a
run_op-OpStep (Op.claim hid k worker lock now) w a d =
    rw discard-committed (claim-OpStep hid k now w d worker lock)
run_op-OpStep (Op.complete hid k bytes now) w a d = complete-OpStep hid k now w d bytes
run_op-OpStep (Op.fail hid k message details now) w a d = fail-OpStep hid k now w d message details
run_op-OpStep (Op.retry hid k now) w a d = retry-OpStep hid k now w d
run_op-OpStep (Op.cancel hid k now) w a d = cancel-OpStep hid k now w d
run_op-OpStep (Op.extend k worker duration now later) w a d =
    extend-OpStep k worker duration now later w
run_op-OpStep (Op.cleanup now) w a d = rw discard-committed (cleanup-OpStep now w)

-- If no id stands twice in the table and a job that is stored is pending, then, whatever the
-- database answers, a method takes the tables by a step of the abstract table: one sound insertion,
-- or rows that move in place with one more row of history at most.
pub run_op-TableStep :
    (op : Op) (w : World)
    → Admissible op
    → Distinct w.committed.jobs
    → TableStep w.committed (run_op op w).1.committed
run_op-TableStep = run_op-OpStep
