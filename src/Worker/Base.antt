-- ===== src/Worker/Base.antt =====
-- internal/worker/base.go: how a worker takes a job and runs its handler on it. A handler is what it
-- does to the database, with the ticks of `extendLockPeriodically` in between, and the error that it
-- returns. Each `uuid.New` and `time.Now` is an argument.
pub mod Valid
pub mod Acks
use qtest.Prelude.{
  ℕ, suc, ◌+◌, String, Bool, true, false, Option, none, some, List, [], ◌∷◌, if◌then◌else◌, str_eq,
}
use qtest.Prelude.Int.{ℤ}
use qtest.Jobs.Types.{Uuid, Time, Duration, Job, JobType, JobMessage}
use qtest.Jobs.Store.{World, M, Result, ok, err, Error, attempt}
use qtest.Jobs.Repository.{claim, fail, extend_lock}
use qtest.Jobs.Queries.{list_pending_by_type}

pub record BaseWorker : Type 0 where
  pub worker_id : String
  pub job_type : JobType
  pub poll_period : Duration
  pub lock_time : Duration

-- `NewBaseWorker`; `made_up` is the id that it makes for an empty one.
unfoldable pub new_base_worker : String → String → JobType → BaseWorker
new_base_worker worker_id made_up job_type = record {
  worker_id = if str_eq worker_id "" then made_up else worker_id;
  job_type = job_type;
  poll_period = ℤ.pos 5000000000;
  lock_time = ℤ.pos 300000000000;
}

-- While a handler runs: a part of its own work, or a tick of the goroutine that extends the lock.
pub data Activity : Type 0 where
  own : M (Unit {0}) → Activity
  tick : Time → Time → Activity

pub record Handling : Type 0 where
  pub activities : List Activity
  pub outcome : Option String

abbrev pub Handler : Type 0
Handler = Job → World → Handling

-- The values that one round takes from its surroundings.
pub record Moment : Type 0 where
  pub claim_id : Uuid
  pub claimed : Time
  pub fail_id : Uuid
  pub failed : Time

unfoldable pub act : BaseWorker → Uuid → Activity → World → World
act worker k (own m) w = (m w).1
act worker k (tick now later) w =
    (attempt (extend_lock k worker.worker_id worker.lock_time now later) w).1

unfoldable pub run_activities : BaseWorker → Uuid → List Activity → World → World
unfolding act
run_activities worker k [] w = w
run_activities worker k (a ∷ as') w = run_activities worker k as' (act worker k a w)

unfoldable pub settle : Job → Moment → Option String → World → World
settle job m none w = w
settle job m (some message) w = (attempt (fail m.fail_id job.id message none m.failed) w).1

-- `processJob`: the handler, and `Fail` with its error if it returns one.
unfoldable pub process_job : BaseWorker → Handler → Moment → Job → World → Option String × World
unfolding run_activities settle
process_job worker handler m job w =
    let h = handler job w in
    (h.outcome, settle job m h.outcome (run_activities worker job.id h.activities w))

-- What a claim leads to: an error, a job that another has, or a job to process.
pub data Taken : Type 0 where
  not_claimed already_claimed processed : Taken

unfoldable pub take_claimed :
    BaseWorker → Handler → Moment → Result (Option Job) × World → Taken × World
unfolding process_job
take_claimed worker handler m (err e, w) = (not_claimed, w)
take_claimed worker handler m (ok none, w) = (already_claimed, w)
take_claimed worker handler m (ok (some job), w) =
    (processed, (process_job worker handler m job w).1)

-- The claim of one job, and what follows.
unfoldable pub claim_and_process : BaseWorker → Handler → Moment → Uuid → World → Taken × World
unfolding take_claimed
claim_and_process worker handler m k w =
    take_claimed worker handler m (claim m.claim_id k worker.worker_id worker.lock_time m.claimed w)

unfoldable pub process_pending : BaseWorker → Handler → (ℕ → Moment) → ℕ → List Job → World → World
process_pending worker handler ms i [] w = w
process_pending worker handler ms i (job ∷ jobs) w =
    process_pending worker handler ms (suc i) jobs
      (claim_and_process worker handler (ms i) job.id w).1

unfoldable pub after_list :
    BaseWorker → Handler → (ℕ → Moment) → Result (List Job) × World → Option Error × World
unfolding process_pending
after_list worker handler ms (err e, w) = (some e, w)
after_list worker handler ms (ok jobs, w) = (none, process_pending worker handler ms 0 jobs w)

-- `processFromDB`. With no job it waits, which changes nothing.
unfoldable pub process_from_db : BaseWorker → Handler → (ℕ → Moment) → World → Option Error × World
unfolding after_list
process_from_db worker handler ms w =
    after_list worker handler ms (list_pending_by_type worker.job_type 1 w)

pub data Reply : Type 0 where
  ack nak : Reply

abbrev pub reply_to : Taken → Reply
reply_to not_claimed = nak
reply_to already_claimed = ack
reply_to processed = ack

-- One message, which may not decode.
unfoldable pub process_message :
    BaseWorker → Handler → Moment → Option JobMessage → World → Reply × World
process_message worker handler m none w = (nak, w)
process_message worker handler m (some message) w =
    let (taken, w') = claim_and_process worker handler m message.job_id w in (reply_to taken, w')

-- The loop of `processFromNATS` over the messages, with the replies to them in order.
unfoldable pub process_messages :
    BaseWorker → Handler → (ℕ → Moment) → ℕ → List (Option JobMessage) → World → List Reply × World
process_messages worker handler ms i [] w = ([], w)
process_messages worker handler ms i (msg ∷ msgs) w =
    let (reply, w') = process_message worker handler (ms i) msg w in
    let (replies, w'') = process_messages worker handler ms (suc i) msgs w' in
    (reply ∷ replies, w'')

-- What a fetch brings: nothing in time, an error, or messages and how they ended.
pub data Fetched : Type 0 where
  timed_out : Fetched
  fetch_failed : String → Fetched
  messages : List (Option JobMessage) → Option String → Fetched

-- `processFromNATS`
unfoldable pub process_from_nats :
    BaseWorker → Handler → (ℕ → Moment) → Fetched → World → Option String × List Reply × World
unfolding process_messages process_message
process_from_nats worker handler ms timed_out w = (none, [], w)
process_from_nats worker handler ms (fetch_failed e) w = (some e, [], w)
process_from_nats worker handler ms (messages msgs ended) w =
    let (replies, w') = process_messages worker handler ms 0 msgs w in (ended, replies, w')

-- `processNext`: a worker with a consumer reads from the stream, one without polls the database.
unfoldable pub process_next : BaseWorker → Handler → (ℕ → Moment) → Option Fetched → World → World
process_next worker handler ms none w = (process_from_db worker handler ms w).1
process_next worker handler ms (some fetched) w = (process_from_nats worker handler ms fetched w).2

-- The loop of `Run`, for the rounds until the context is done.
unfoldable pub run : BaseWorker → Handler → List ((ℕ → Moment) × Option Fetched) → World → World
run worker handler [] w = w
run worker handler ((ms, fetched) ∷ rounds) w =
    run worker handler rounds (process_next worker handler ms fetched w)
