-- ===== src/Worker/Base/Acks.antt =====
-- What a worker of internal/worker/base.go replies to the messages that it takes.
use qtest.Prelude.{
  ℕ, suc, ◌≡◌, refl, String, false, ◌&&◌, Option, none, some, List, [], ◌∷◌, arith, length,
}
use qtest.Jobs.Types.{Uuid, Time, Job, JobMessage}
use qtest.Jobs.Store.{World, Result, ok, err, first_match, has_id}
use qtest.Jobs.Repository
use qtest.Jobs.Repository.{claimable}
use qtest.Jobs.Repository.Outcomes.{is_ok, claim_found, claim_missed}
use qtest.Worker.Base.{
  BaseWorker, Handler, Moment, nak, reply_to, take_claimed, claim_and_process, process_message,
  process_messages,
}

-- A claim that fails leaves the tables as they are.
claim-err-committed :
    (hid k : Uuid) (who : String) (lock now : Time) (w : World)
    → is_ok (Repository.claim hid k who lock now w).0 ≡ false
    → (Repository.claim hid k who lock now w).1.committed ≡ w.committed
claim-err-committed hid k who lock now w e =
    go (first_match (λ r. has_id k r && claimable now r) w.committed.jobs) refl
  where
    go :
        (found : Option Job)
        → first_match (λ r. has_id k r && claimable now r) w.committed.jobs ≡ found
        → (Repository.claim hid k who lock now w).1.committed ≡ w.committed
    go none f = (claim_missed hid k now w who lock f).1
    go (some job) f = ground (arith, claim_found hid k now w who lock job f)

-- The three ways of a claim, by its answer.
take_claimed-nak :
    (worker : BaseWorker) (handler : Handler) (m : Moment) (r : Result (Option Job) × World)
    → reply_to (take_claimed worker handler m r).0 ≡ nak
    → (is_ok r.0 ≡ false) × ((take_claimed worker handler m r).1 ≡ r.1)
unfolding take_claimed
take_claimed-nak worker handler m (err e, w) h = (refl, refl)
take_claimed-nak worker handler m (ok none, w) h = cc
take_claimed-nak worker handler m (ok (some job), w) h = cc

-- A message that the worker gives back, to be delivered again, has left the tables as they were.
pub process_message-nak :
    (worker : BaseWorker) (handler : Handler) (m : Moment) (msg : Option JobMessage) (w : World)
    → (process_message worker handler m msg w).0 ≡ nak
    → (process_message worker handler m msg w).1.committed ≡ w.committed
unfolding process_message claim_and_process
process_message-nak worker handler m none w h = refl
process_message-nak worker handler m (some message) w h =
    let (failed, same) =
      take_claimed-nak worker handler m
        (Repository.claim m.claim_id message.job_id worker.worker_id worker.lock_time m.claimed w)
        h in
    ground (
      arith,
      failed,
      same,
      claim-err-committed m.claim_id message.job_id worker.worker_id worker.lock_time m.claimed w,
    )

-- Each message has its reply.
pub process_messages-length :
    (worker : BaseWorker) (handler : Handler) (ms : ℕ → Moment) (i : ℕ)
    (msgs : List (Option JobMessage)) (w : World)
    → length (process_messages worker handler ms i msgs w).0 ≡ length msgs
unfolding process_messages
process_messages-length worker handler ms i [] w = refl
process_messages-length worker handler ms i (msg ∷ msgs) w = omega (
  arith,
  process_messages-length worker handler ms (suc i) msgs
      (process_message worker handler (ms i) msg w).1,
)
