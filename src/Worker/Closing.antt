-- ===== src/Worker/Closing.antt =====
-- internal/worker/workers.go: the end that the handlers have in common. The job is completed, and the
-- jobs that follow it are created, whose failures are only logged.
use Prim.Native.String.{◌++◌ as append_text}
use qtest.Prelude.{
  Bool, true, false, if◌then◌else◌, String, Option, none, some, List, [], ◌∷◌, ◌++◌, All,
  All-append,
}
use qtest.Jobs.Types.{Uuid, Time, Json, Job}
use qtest.Jobs.Store.{World, M, Result, ok, err, Error, ◌>>=◌, ◌>>◌, pure}
use qtest.Jobs.Repository
use qtest.Jobs.Pipeline.{try}
use qtest.Jobs.Pipeline.Keeps.{KeepsTables, bind-KeepsTables}
use qtest.Worker.Base.{BaseWorker, Activity, own, Handling, run_activities}
use qtest.Worker.Base.Valid.{KeepsActivity}
use qtest.Worker.Ingestion.Valid.{try-KeepsTables, complete-KeepsTables}

-- What a handler reads when it ends: the id of the row of history, the time, and the texts of errors.
pub record Ending : Type 0 where
  pub history_id : Uuid
  pub now : Time
  pub error_text : Error → String

abbrev pub logged {ℓ} : {A : Type ℓ} → M A → M (Unit {0})
logged m = try m >>= λ _. pure tt

abbrev pub complete_then : Ending → Uuid → Option Json → M (Unit {0}) → M (Unit {0})
complete_then e job_id bytes rest = Repository.complete e.history_id job_id bytes e.now >> rest

abbrev pub outcome_of : String → (Error → String) → Result (Unit {0}) → Option String
outcome_of prefix text (ok _) = none
outcome_of prefix text (err e) = some (append_text prefix (text e))

-- The last part of a handler behind the work it has done, with its error under a prefix.
unfoldable pub closing :
    BaseWorker → Ending → String → Job → World → List Activity → M (Unit {0}) → Handling
closing worker e prefix job w work last = record {
  activities = work ++ own last ∷ [];
  outcome = outcome_of prefix e.error_text (last (run_activities worker job.id work w)).0;
}

pub logged-KeepsTables {ℓ} : {A : Type ℓ} (m : M A) → KeepsTables m → KeepsTables (logged m)
logged-KeepsTables m keeps =
    bind-KeepsTables (try m) (λ _. pure tt) (try-KeepsTables m keeps) (λ _ w v. v)

pub either-KeepsTables :
    (b : Bool) (m n : M (Unit {0}))
    → KeepsTables m
    → KeepsTables n
    → KeepsTables (if b then m else n)
either-KeepsTables true m n first second = first
either-KeepsTables false m n first second = second

pub guarded-KeepsTables :
    (b : Bool) (m : M (Unit {0})) → KeepsTables m → KeepsTables (if b then m else pure tt)
guarded-KeepsTables b m keeps = either-KeepsTables b m (pure tt) keeps (λ w v. v)

pub complete_then-KeepsTables :
    (e : Ending) (k : Uuid) (bytes : Option Json) (rest : M (Unit {0}))
    → KeepsTables rest
    → KeepsTables (complete_then e k bytes rest)
complete_then-KeepsTables e k bytes rest keeps =
    bind-KeepsTables (Repository.complete e.history_id k bytes e.now) (λ _. rest)
      (complete-KeepsTables e.history_id k bytes e.now) (λ _. keeps)

pub closing-keeps :
    (worker : BaseWorker) (e : Ending) (prefix : String) (job : Job) (w : World)
    (work : List Activity) (last : M (Unit {0}))
    → All KeepsActivity work
    → KeepsTables last
    → All KeepsActivity (closing worker e prefix job w work last).activities
unfolding closing
closing-keeps worker e prefix job w work last a keeps =
    All-append KeepsActivity work (own last ∷ []) a (keeps, tt)
