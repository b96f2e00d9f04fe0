-- ===== src/Jobs/Repository/Held.antt =====
-- The lock of a running job (internal/jobs/repository.go): who else can touch the row, and when.

use mathlib.Core.Path.{subst}
use qtest.Prelude.{
  ◌≡◌, ◌≢◌, refl, ◌⊎◌, sym, String, Bool, true, false, Option, none, some, List, [], ◌∷◌, ◌&&◌,
  arith, All, ◌==◌, ==_iff, str_eq_iff,
}
use qtest.Prelude.Int.{◌≤ℤ◌}
use qtest.Jobs.Types.{Uuid, Time, Duration, Json, Job, running}
use qtest.Jobs.Store.{
  Db, HistoryRow, World, Result, find, first_match, has_id, update_where, count_where,
}
use qtest.Jobs.Repository
use qtest.Jobs.Repository.{
  is_some, insertable, claimable, claimed_row, completed_row, status_after_failure, failed_row,
  retryable, requeued_row, cancellable, cancelled_row, owned_by, extended_row, stale,
}
use qtest.Jobs.Repository.Outcomes.{
  Transacts, claim_found, claim_missed, complete_found, complete_missed, fail_found, fail_missed,
  retry_found, retry_missed, cancel_found, cancel_refused, cancel_missed,
}
use qtest.Jobs.Repository.Steps.{Op, run_op}
use qtest.Jobs.Repository.Refines.{extend_stores, cleanup_stores, discard-committed}
use qtest.Jobs.Repository.Invariant.{Turn, world, run_turn, run_turns, find-later}

find-id : (k : Uuid) (rs : List Job) (r : Job) → find k rs ≡ some r → r.id ≡ k
unfolding find first_match
find-id k [] r e = cc
find-id k (x ∷ rs) r e = ground (arith, find-id k rs r)

-- An update that spares the row that is found leaves it to be found.
find-update_where :
    (k : Uuid) (clock : Time) (p : Job → Bool) (f : Job → Job) (rs : List Job) (r : Job)
    → ((x : Job) → (f x).id ≡ x.id)
    → find k rs ≡ some r
    → p r ≡ false
    → find k (update_where clock p f rs) ≡ some r
unfolding find first_match update_where
find-update_where k clock p f [] r same e spared = cc
find-update_where k clock p f (x ∷ rs) r same e spared =
    ground (arith, same x, find-update_where k clock p f rs r same)

-- A job that a worker runs under a lock.
pub record Held (r : Job) (worker : String) (until : Time) : Type 0 where
  pub status : r.status ≡ running
  pub worker_id : r.worker_id ≡ some worker
  pub locked_until : r.locked_until ≡ some until

-- What others may do to the job without its being done by the worker: everything to other jobs,
-- and to this one claims and clean-ups that come no later than the lock ends, retries,
-- cancellations, and extensions under another worker's name.
abbrev pub Respects : Job → String → Time → Op → Type 0
Respects r worker until (Op.create j) = Unit
Respects r worker until (Op.claim hid k other lock now) = (k ≢ r.id) ⊎ (now ≤ℤ until)
Respects r worker until (Op.complete hid k bytes now) = k ≢ r.id
Respects r worker until (Op.fail hid k message details now) = k ≢ r.id
Respects r worker until (Op.retry hid k now) = Unit
Respects r worker until (Op.cancel hid k now) = Unit
Respects r worker until (Op.extend k other duration now later) = (k ≢ r.id) ⊎ (other ≢ worker)
Respects r worker until (Op.cleanup now) = now ≤ℤ until

kept_row {ℓ} :
    {A : Type ℓ} (r : Result A × World) (answer : Result A) (db : Db) (rows : List Job)
    (row : HistoryRow) (job : Job)
    → find job.id db.jobs ≡ some job
    → find job.id rows ≡ some job
    → Transacts r answer db rows row
    → find job.id r.1.committed.jobs ≡ some job
kept_row r answer db rows row job e f t = ground arith

module _ (r : Job) (worker : String) (until : Time) (held : Held r worker until) where
  not_claimable :
      (k : Uuid) (now : Time)
      → (k ≢ r.id) ⊎ (now ≤ℤ until)
      → (has_id k r && claimable now r) ≡ false
  not_claimable k now a = ground arith

  not_owned :
      (k : Uuid) (other : String)
      → (k ≢ r.id) ⊎ (other ≢ worker)
      → (has_id k r && owned_by other r) ≡ false
  not_owned k other a = ground (arith, str_eq_iff worker other)

  not_stale : (now : Time) → now ≤ℤ until → stale now r ≡ false
  not_stale now a = ground arith

  not_retryable : (k : Uuid) → (has_id k r && retryable r) ≡ false
  not_retryable k = ground arith

  not_cancellable : cancellable r ≡ false
  not_cancellable = ground arith

  not_same : (k : Uuid) → k ≢ r.id → has_id k r ≡ false
  not_same k a = ground arith

  module _ (w : World) (there : find r.id w.committed.jobs ≡ some r) where
    spared :
        (p : Job → Bool) (f : Job → Job)
        → ((x : Job) → (f x).id ≡ x.id)
        → p r ≡ false
        → find r.id (update_where w.clock p f w.committed.jobs) ≡ some r
    spared p f same out = find-update_where r.id w.clock p f w.committed.jobs r same there out

    unchanged : (db : Db) → db ≡ w.committed → find r.id db.jobs ≡ some r
    unchanged db e = rw e there

    claim_keeps :
        (hid k : Uuid) (other : String) (lock : Duration) (now : Time)
        → (k ≢ r.id) ⊎ (now ≤ℤ until)
        → find r.id (Repository.claim hid k other lock now w).1.committed.jobs ≡ some r
    claim_keeps hid k other lock now a =
        go (first_match (λ x. has_id k x && claimable now x) w.committed.jobs) refl
      where
        go :
            (found : Option Job)
            → first_match (λ x. has_id k x && claimable now x) w.committed.jobs ≡ found
            → find r.id (Repository.claim hid k other lock now w).1.committed.jobs ≡ some r
        go none e = unchanged _ (claim_missed hid k now w other lock e).1
        go (some job) e =
            kept_row (Repository.claim hid k other lock now w) _ _ _ _ r there
              (spared _ _ (λ x. refl) (not_claimable k now a))
              (claim_found hid k now w other lock job e)

    complete_keeps :
        (hid k : Uuid) (bytes : Option Json) (now : Time)
        → k ≢ r.id
        → find r.id (Repository.complete hid k bytes now w).1.committed.jobs ≡ some r
    complete_keeps hid k none now a = unfold Repository.complete in there
    complete_keeps hid k (some bytes) now a = go (find k w.committed.jobs) refl
      where
        go :
            (found : Option Job)
            → find k w.committed.jobs ≡ found
            → find r.id (Repository.complete hid k (some bytes) now w).1.committed.jobs ≡ some r
        go none e = unchanged _ (complete_missed hid k now w (some bytes) e).1
        go (some job) e =
            kept_row (Repository.complete hid k (some bytes) now w) _ _ _ _ r there
              (spared _ _ (λ x. refl) (not_same k a)) (complete_found hid k now w bytes job e)

    fail_keeps :
        (hid k : Uuid) (message : String) (details : Option Json) (now : Time)
        → k ≢ r.id
        → find r.id (Repository.fail hid k message details now w).1.committed.jobs ≡ some r
    fail_keeps hid k message details now a = go (find k w.committed.jobs) refl
      where
        go :
            (found : Option Job)
            → find k w.committed.jobs ≡ found
            → find r.id (Repository.fail hid k message details now w).1.committed.jobs ≡ some r
        go none e = unchanged _ (fail_missed hid k now w message details e).1
        go (some job) e =
            kept_row (Repository.fail hid k message details now w) _ _ _ _ r there
              (spared _ _ (λ x. refl) (not_same k a)) (fail_found hid k now w message details job e)

    retry_keeps :
        (hid k : Uuid) (now : Time)
        → find r.id (Repository.retry hid k now w).1.committed.jobs ≡ some r
    retry_keeps hid k now =
        go (count_where (λ x. has_id k x && retryable x) w.committed.jobs == 0) refl
      where
        go :
            (idle : Bool)
            → (count_where (λ x. has_id k x && retryable x) w.committed.jobs == 0) ≡ idle
            → find r.id (Repository.retry hid k now w).1.committed.jobs ≡ some r
        go true e = unchanged _ (retry_missed hid k now w e).1
        go false e =
            kept_row (Repository.retry hid k now w) _ _ _ _ r there
              (spared _ _ (λ x. refl) (not_retryable k)) (retry_found hid k now w e)

    cancel_keeps :
        (hid k : Uuid) (now : Time)
        → find r.id (Repository.cancel hid k now w).1.committed.jobs ≡ some r
    cancel_keeps hid k now = go (find k w.committed.jobs) refl
      where
        other :
            (job : Job)
            → find k w.committed.jobs ≡ some job
            → cancellable job ≡ true
            → (b : Bool) → (k == r.id) ≡ b
            → find r.id (Repository.cancel hid k now w).1.committed.jobs ≡ some r
        other job e c true same = absurd (
            ground (
              arith,
              not_cancellable,
              ==_iff k r.id,
              subst (λ n. find n w.committed.jobs ≡ some job) ((==_iff k r.id).0 same) e,
            ))
        other job e c false same =
            kept_row (Repository.cancel hid k now w) _ _ _ _ r there
              (spared _ _ (λ x. refl) (not_same k (λ q. ground (arith, ==_iff k r.id))))
              (cancel_found hid k now w job e c)

        decide :
            (job : Job)
            → find k w.committed.jobs ≡ some job
            → (b : Bool) → cancellable job ≡ b
            → find r.id (Repository.cancel hid k now w).1.committed.jobs ≡ some r
        decide job e false c = unchanged _ (cancel_refused hid k now w job e c).1
        decide job e true c = other job e c (k == r.id) refl

        go :
            (found : Option Job)
            → find k w.committed.jobs ≡ found
            → find r.id (Repository.cancel hid k now w).1.committed.jobs ≡ some r
        go none e = unchanged _ (cancel_missed hid k now w e).1
        go (some job) e = decide job e (cancellable job) refl

    extend_keeps :
        (k : Uuid) (other : String) (duration : Duration) (now later : Time)
        → (k ≢ r.id) ⊎ (other ≢ worker)
        → find r.id (Repository.extend_lock k other duration now later w).1.committed.jobs ≡ some r
    extend_keeps k other duration now later a = go (w.fault w.calls) refl
      where
        go :
            (f : Bool)
            → w.fault w.calls ≡ f
            → find r.id (Repository.extend_lock k other duration now later w).1.committed.jobs
              ≡ some r
        go true f =
            unchanged (Repository.extend_lock k other duration now later w).1.committed
              (unfold Repository.extend_lock in ground arith)
        go false f =
            rw (extend_stores k other duration now later w f)
              (spared _ _ (λ x. refl) (not_owned k other a))

    cleanup_keeps :
        (now : Time)
        → now ≤ℤ until
        → find r.id (Repository.cleanup_stale now w).1.committed.jobs ≡ some r
    cleanup_keeps now a = go (w.fault w.calls) refl
      where
        go :
            (f : Bool)
            → w.fault w.calls ≡ f
            → find r.id (Repository.cleanup_stale now w).1.committed.jobs ≡ some r
        go true f =
            unchanged (Repository.cleanup_stale now w).1.committed
              (unfold Repository.cleanup_stale in ground arith)
        go false f = rw (cleanup_stores now w f) (spared _ _ (λ x. refl) (not_stale now a))

    create_keeps : (j : Job) → find r.id (Repository.create j w).1.committed.jobs ≡ some r
    unfolding Repository.create
    create_keeps j = ground (arith, find-later j w.committed r)

    run_op_keeps :
        (op : Op) → Respects r worker until op → find r.id (run_op op w).1.committed.jobs ≡ some r
    unfolding run_op
    run_op_keeps (Op.create j) a = create_keeps j
    run_op_keeps (Op.claim hid k other lock now) a =
        subst (λ db. find r.id db.jobs ≡ some r)
          (sym (discard-committed (Repository.claim hid k other lock now) w))
          (claim_keeps hid k other lock now a)
    run_op_keeps (Op.complete hid k bytes now) a = complete_keeps hid k bytes now a
    run_op_keeps (Op.fail hid k message details now) a = fail_keeps hid k message details now a
    run_op_keeps (Op.retry hid k now) a = retry_keeps hid k now
    run_op_keeps (Op.cancel hid k now) a = cancel_keeps hid k now
    run_op_keeps (Op.extend k other duration now later) a =
        extend_keeps k other duration now later a
    run_op_keeps (Op.cleanup now) a =
        subst (λ db. find r.id db.jobs ≡ some r)
          (sym (discard-committed (Repository.cleanup_stale now) w)) (cleanup_keeps now a)

  -- A held job keeps its row, to the letter, through any sequence of other methods: claims and
  -- clean-ups up to the end of the lock, cancellations, retries, extensions by other workers, and
  -- anything done to other jobs, whichever calls of the database fail.
  pub run_turns-Held :
      (ts : List Turn) (db : Db)
      → All (λ (t : Turn). Respects r worker until t.op) ts
      → find r.id db.jobs ≡ some r
      → find r.id (run_turns ts db).jobs ≡ some r
  unfolding run_turns run_turn
  run_turns-Held [] db a e = e
  run_turns-Held (t ∷ ts) db a e = run_turns-Held ts _ a.1 (run_op_keeps (world t db) e t.op a.0)
