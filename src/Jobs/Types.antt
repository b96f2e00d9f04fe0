-- ===== src/Jobs/Types.antt =====
-- internal/jobs/types.go: job types, statuses, the job record and its methods, and the payloads.
-- A UUID is the number of its 16 bytes, JSON text is a string, an instant is a count of nanoseconds
-- since the Unix epoch. `uuid.New`, `time.Now` and the JSON encoder are arguments.
use qtest.Prelude.{ℕ, String, Bool, true, false, Option, none, some, ltb, str_eq}
use qtest.Prelude.Int.{ℤ}

abbrev pub Uuid : Type 0
Uuid = ℕ

abbrev pub Time : Type 0
Time = ℤ

abbrev pub Duration : Type 0
Duration = ℤ

abbrev pub Json : Type 0
Json = String

-- `other` is any string that is none of the constants.
pub data JobType : Type 0 where
  ingestion modeling planning generation validation mutation integration : JobType
  other : String → JobType

pub data JobStatus : Type 0 where
  pending running completed failed retrying cancelled : JobStatus

abbrev pub status_eq : JobStatus → JobStatus → Bool
status_eq pending pending = true
status_eq running running = true
status_eq completed completed = true
status_eq failed failed = true
status_eq retrying retrying = true
status_eq cancelled cancelled = true
status_eq _ _ = false

abbrev pub type_eq : JobType → JobType → Bool
type_eq ingestion ingestion = true
type_eq modeling modeling = true
type_eq planning planning = true
type_eq generation generation = true
type_eq validation validation = true
type_eq mutation mutation = true
type_eq integration integration = true
type_eq (other s) (other t) = str_eq s t
type_eq _ _ = false

pub record Job : Type 0 where
  pub id : Uuid
  pub job_type : JobType
  pub status : JobStatus
  pub priority : ℤ
  pub repository_id : Option Uuid
  pub generation_run_id : Option Uuid
  pub parent_job_id : Option Uuid
  pub payload : Json
  pub result : Option Json
  pub error_message : Option String
  pub error_details : Option Json
  pub retry_count : ℕ
  pub max_retries : ℕ
  pub created_at : Time
  pub updated_at : Time
  pub started_at : Option Time
  pub completed_at : Option Time
  pub locked_until : Option Time
  pub worker_id : Option String

-- `NewJob`: the encoder's failure is its own; the two calls of `time.Now` may differ.
unfoldable pub new_job {ℓ} :
    {A : Type ℓ} (marshal : A → Option Json) (id : Uuid) (created updated : Time)
    → JobType
    → A
    → Option Job
new_job marshal id created updated job_type payload = elim (marshal payload) [
  | none ↦ none
  | some bytes ↦ some (record {
    id = id;
    job_type = job_type;
    status = pending;
    priority = ℤ.pos 0;
    repository_id = none;
    generation_run_id = none;
    parent_job_id = none;
    payload = bytes;
    result = none;
    error_message = none;
    error_details = none;
    retry_count = 0;
    max_retries = 3;
    created_at = created;
    updated_at = updated;
    started_at = none;
    completed_at = none;
    locked_until = none;
    worker_id = none;
  })
]

unfoldable pub can_retry : Job → Bool
can_retry j = ltb j.retry_count j.max_retries

pub record JobMessage : Type 0 where
  pub job_id : Uuid
  pub job_type : JobType
  pub priority : ℤ
