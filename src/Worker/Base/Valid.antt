-- ===== src/Worker/Base/Valid.antt =====
-- A worker of internal/worker/base.go leaves the tables of jobs valid, whatever fails on the way.
use mathlib.Core.Path.{subst}
use qtest.Prelude.{ℕ, suc, ◌≡◌, sym, String, Option, none, some, List, [], ◌∷◌, arith, All}
use qtest.Jobs.Types.{Uuid, Time, Job, JobType, JobMessage}
use qtest.Jobs.Store.{World, M, Result, ok, err}
use qtest.Jobs.Repository
use qtest.Jobs.Queries.{list_pending_by_type}
use qtest.Jobs.Repository.Steps.{Op, run_op}
use qtest.Jobs.Repository.Refines.{Admissible, run_op-TableStep, discard-committed}
use qtest.Jobs.Repository.Invariant.{IsValid, TableStep-IsValid}
use qtest.Worker.Base
use qtest.Worker.Base.{
  BaseWorker, Handler, Handling, Activity, own, tick, Moment, Taken, not_claimed, Fetched, Reply,
  act, run_activities, settle, process_job, take_claimed, claim_and_process, process_pending,
  process_from_db, process_message, process_messages, process_from_nats, process_next, run,
}

op-IsValid :
    (op : Op) (w : World) → Admissible op → IsValid w.committed → IsValid (run_op op w).1.committed
op-IsValid op w a v = TableStep-IsValid w.committed _ (run_op-TableStep op w a v.distinct) v

claim-IsValid :
    (hid k : Uuid) (who : String) (lock now : Time) (w : World)
    → IsValid w.committed
    → IsValid (Repository.claim hid k who lock now w).1.committed
unfolding run_op
claim-IsValid hid k who lock now w v =
    rw (← discard-committed (Repository.claim hid k who lock now) w)
      (op-IsValid (Op.claim hid k who lock now) w tt v)

-- An action that leaves valid tables valid.
abbrev pub Keeps : M (Unit {0}) → Type 0
Keeps m = (w : World) → IsValid w.committed → IsValid (m w).1.committed

abbrev pub KeepsActivity : Activity → Type 0
KeepsActivity (own m) = Keeps m
KeepsActivity (tick now later) = Unit

-- A handler whose own work leaves valid tables valid.
abbrev pub KeepsHandler : Handler → Type 0
KeepsHandler handler = (job : Job) (w : World) → All KeepsActivity (handler job w).activities

act-IsValid :
    (worker : BaseWorker) (k : Uuid) (a : Activity) (w : World)
    → KeepsActivity a
    → IsValid w.committed
    → IsValid (act worker k a w).committed
unfolding act run_op
act-IsValid worker k (own m) w keeps v = keeps w v
act-IsValid worker k (tick now later) w keeps v =
    op-IsValid (Op.extend k worker.worker_id worker.lock_time now later) w tt v

run_activities-IsValid :
    (worker : BaseWorker) (k : Uuid) (activities : List Activity) (w : World)
    → All KeepsActivity activities
    → IsValid w.committed
    → IsValid (run_activities worker k activities w).committed
unfolding run_activities
run_activities-IsValid worker k [] w keeps v = v
run_activities-IsValid worker k (a ∷ rest) w keeps v =
    run_activities-IsValid worker k rest _ keeps.1 (act-IsValid worker k a w keeps.0 v)

settle-IsValid :
    (job : Job) (m : Moment) (outcome : Option String) (w : World)
    → IsValid w.committed
    → IsValid (settle job m outcome w).committed
unfolding settle run_op
settle-IsValid job m none w v = v
settle-IsValid job m (some message) w v =
    op-IsValid (Op.fail m.fail_id job.id message none m.failed) w tt v

module _ (worker : BaseWorker) (handler : Handler) (keeps : KeepsHandler handler) where
  process_job-IsValid :
      (m : Moment) (job : Job) (w : World)
      → IsValid w.committed
      → IsValid (process_job worker handler m job w).1.committed
  unfolding process_job
  process_job-IsValid m job w v =
      settle-IsValid job m _ _ (run_activities-IsValid worker job.id _ w (keeps job w) v)

  take_claimed-IsValid :
      (m : Moment) (r : Result (Option Job) × World)
      → IsValid r.1.committed
      → IsValid (take_claimed worker handler m r).1.committed
  unfolding take_claimed
  take_claimed-IsValid m (err e, w) v = v
  take_claimed-IsValid m (ok none, w) v = v
  take_claimed-IsValid m (ok (some job), w) v = process_job-IsValid m job w v

  claim_and_process-IsValid :
      (m : Moment) (k : Uuid) (w : World)
      → IsValid w.committed
      → IsValid (claim_and_process worker handler m k w).1.committed
  unfolding claim_and_process
  claim_and_process-IsValid m k w v =
      take_claimed-IsValid m _
        (claim-IsValid m.claim_id k worker.worker_id worker.lock_time m.claimed w v)

  process_pending-IsValid :
      (ms : ℕ → Moment) (i : ℕ) (jobs : List Job) (w : World)
      → IsValid w.committed
      → IsValid (process_pending worker handler ms i jobs w).committed
  unfolding process_pending
  process_pending-IsValid ms i [] w v = v
  process_pending-IsValid ms i (job ∷ jobs) w v =
      process_pending-IsValid ms (suc i) jobs _ (claim_and_process-IsValid (ms i) job.id w v)

  after_list-IsValid :
      (ms : ℕ → Moment) (r : Result (List Job) × World)
      → IsValid r.1.committed
      → IsValid (Base.after_list worker handler ms r).1.committed
  unfolding Base.after_list
  after_list-IsValid ms (err e, w) v = v
  after_list-IsValid ms (ok jobs, w) v = process_pending-IsValid ms 0 jobs w v

  list-committed :
      (t : JobType) (n : ℕ) (w : World) → (list_pending_by_type t n w).1.committed ≡ w.committed
  unfolding list_pending_by_type
  list-committed t n w = ground arith

  process_from_db-IsValid :
      (ms : ℕ → Moment) (w : World)
      → IsValid w.committed
      → IsValid (process_from_db worker handler ms w).1.committed
  unfolding process_from_db
  process_from_db-IsValid ms w v =
      after_list-IsValid ms (list_pending_by_type worker.job_type 1 w)
        (subst IsValid (sym (list-committed worker.job_type 1 w)) v)

  process_message-IsValid :
      (m : Moment) (msg : Option JobMessage) (w : World)
      → IsValid w.committed
      → IsValid (process_message worker handler m msg w).1.committed
  unfolding process_message
  process_message-IsValid m none w v = v
  process_message-IsValid m (some message) w v = claim_and_process-IsValid m message.job_id w v

  process_messages-IsValid :
      (ms : ℕ → Moment) (i : ℕ) (msgs : List (Option JobMessage)) (w : World)
      → IsValid w.committed
      → IsValid (process_messages worker handler ms i msgs w).1.committed
  unfolding process_messages
  process_messages-IsValid ms i [] w v = v
  process_messages-IsValid ms i (msg ∷ msgs) w v =
      process_messages-IsValid ms (suc i) msgs _ (process_message-IsValid (ms i) msg w v)

  process_from_nats-IsValid :
      (ms : ℕ → Moment) (fetched : Fetched) (w : World)
      → IsValid w.committed
      → IsValid (process_from_nats worker handler ms fetched w).2.committed
  unfolding process_from_nats
  process_from_nats-IsValid ms Fetched.timed_out w v = v
  process_from_nats-IsValid ms (Fetched.fetch_failed e) w v = v
  process_from_nats-IsValid ms (Fetched.messages msgs ended) w v =
      process_messages-IsValid ms 0 msgs w v

  process_next-IsValid :
      (ms : ℕ → Moment) (fetched : Option Fetched) (w : World)
      → IsValid w.committed
      → IsValid (process_next worker handler ms fetched w).committed
  unfolding process_next
  process_next-IsValid ms none w v = process_from_db-IsValid ms w v
  process_next-IsValid ms (some fetched) w v = process_from_nats-IsValid ms fetched w v

  -- If a handler's own work leaves valid tables valid, then so does every run of its worker, which
  -- claims jobs, extends locks and records failures, by polling or by messages, whichever calls of
  -- the database fail and however the ticks of the lock fall between the parts of the work.
  pub run-IsValid :
      (rounds : List ((ℕ → Moment) × Option Fetched)) (w : World)
      → IsValid w.committed
      → IsValid (run worker handler rounds w).committed
  unfolding run
  run-IsValid [] w v = v
  run-IsValid ((ms, fetched) ∷ rounds) w v =
      run-IsValid rounds _ (process_next-IsValid ms fetched w v)
