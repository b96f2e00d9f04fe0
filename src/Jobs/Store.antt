-- ===== src/Jobs/Store.antt =====
-- The database as the repository's code uses it (internal/jobs/repository.go with the tables of
-- migrations/002_jobs.sql): two tables, a transaction's working copy, and the outcome of each call.
-- The n-th call of the database fails if `fault n`: which calls fail is left open everywhere.
use qtest.Prelude.{
  ℕ, ◌+◌, ◌==◌, ◌≡◌, refl, String, Bool, true, false, Option, none, some, List, [], ◌∷◌,
  if◌then◌else◌,
}
use qtest.Jobs.Types.{Uuid, Time, JobStatus, Job, JobMessage}

-- A row of `job_history`; `changed_at` and `details` take the columns' defaults.
pub record HistoryRow : Type 0 where
  pub id : Uuid
  pub job_id : Uuid
  pub previous_status : JobStatus
  pub new_status : JobStatus
  pub changed_by : String

-- `repositories` and `generation_runs` are the ids of the tables that foreign keys refer to.
pub record Db : Type 0 where
  pub jobs : List Job
  pub history : List HistoryRow
  pub repositories : List Uuid
  pub generation_runs : List Uuid

-- The errors that the repository returns, one for each message.
pub data Error : Type 0 where
  create_failed get_failed begin_failed claim_failed commit_failed marshal_failed : Error
  complete_failed retry_info_failed fail_failed retry_failed not_retrying status_failed : Error
  not_cancellable cancel_failed query_failed lock_failed not_owner cleanup_failed : Error
  history_failed publish_failed unknown_type job_not_found : Error

pub data Result {ℓ} (A : Type ℓ) : Type ℓ where
  ok : A → Result A
  err : Error → Result A

-- `clock` is the database's CURRENT_TIMESTAMP; `published` are the messages sent to the job stream,
-- the latest first.
pub record World : Type 0 where
  pub committed : Db
  pub working : Db
  pub fault : ℕ → Bool
  pub calls : ℕ
  pub clock : Time
  pub published : List (String × JobMessage)

abbrev pub M {ℓ} : Type ℓ → Type ℓ
M A = World → Result A × World

abbrev pub next {ℓ κ} : {A : Type ℓ} {B : Type κ} → Result A → World → (A → M B) → Result B × World
next (ok a) w f = f a w
next (err e) w f = (err e, w)

infixl 5 ◌>>=◌ ◌>>◌
abbrev pub ◌>>=◌ {ℓ κ} : {A : Type ℓ} {B : Type κ} → M A → (A → M B) → M B
◌>>=◌ m f w = let r = m w in next r.0 r.1 f

abbrev pub ◌>>◌ {κ} : {B : Type κ} → M (Unit {0}) → M B → M B
m >> k = m >>= λ _. k

abbrev pub pure {ℓ} : {A : Type ℓ} → A → M A
pure a w = (ok a, w)

abbrev pub raise {ℓ} : {A : Type ℓ} → Error → M A
raise e w = (err e, w)

next-eq-ok {ℓ κ} :
    {A : Type ℓ} {B : Type κ} (x : Result A) (w : World) (f : A → M B) (b : B)
    → (next x w f).0 ≡ ok b
    → (a : A) × (x ≡ ok a) × (next x w f ≡ f a w)
next-eq-ok (ok a) w f b h = (a, refl, refl)
next-eq-ok (err e) w f b h = cc

-- An action that succeeds is one whose first part succeeds, and goes on from there.
pub >>=-eq-ok {ℓ κ} :
    {A : Type ℓ} {B : Type κ} (m : M A) (f : A → M B) (w : World) (b : B)
    → ((m >>= f) w).0 ≡ ok b
    → (a : A) × ((m w).0 ≡ ok a) × ((m >>= f) w ≡ f a (m w).1)
>>=-eq-ok m f w b h = next-eq-ok (m w).0 (m w).1 f b h

-- One call of the database, which may fail.
unfoldable pub call : Error → M (Unit {0})
call e w = (if w.fault w.calls then err e else ok tt, record w { calls = w.calls + 1 })

-- `BeginTx`. The deferred `Rollback` drops the working copy, as the next `begin` does.
unfoldable pub begin : Error → M (Unit {0})
unfolding call
begin e = do call e; λ w. (ok tt, record w { working = w.committed })

unfoldable pub commit : Error → M (Unit {0})
unfolding call
commit e = do call e; λ w. (ok tt, record w { committed = w.working })

-- A statement in a transaction, which answers with what it reads and leaves the working copy as
-- given; and one on its own, which is committed at once.
unfoldable pub in_tx {ℓ} : {A : Type ℓ} → Error → (Time → Db → A × Db) → M A
unfolding call
in_tx e f = do call e; λ w. let (a, db) = f w.clock w.working in (ok a, record w { working = db })

unfoldable pub auto_commit {ℓ} : {A : Type ℓ} → Error → (Time → Db → A × Db) → M A
unfolding call
auto_commit e f = do
  call e
  λ w. let (a, db) = f w.clock w.committed in (ok a, record w { committed = db })

-- `if err := …; err != nil { log.Warn() }`
abbrev pub swallow : Result (Unit {0}) × World → Result (Unit {0}) × World
swallow r = (ok tt, r.1)

abbrev pub attempt : M (Unit {0}) → M (Unit {0})
attempt m w = swallow (m w)

-- The trigger `jobs_updated_at`.
abbrev pub touch : Time → Job → Job
touch clock r = record r { updated_at = clock }

-- `UPDATE jobs SET … WHERE …`
unfoldable pub update_where : Time → (Job → Bool) → (Job → Job) → List Job → List Job
update_where clock p f [] = []
update_where clock p f (r ∷ rs) = (if p r then touch clock (f r) else r) ∷ update_where clock p f rs

unfoldable pub first_match : (Job → Bool) → List Job → Option Job
first_match p [] = none
first_match p (r ∷ rs) = if p r then some r else first_match p rs

-- `RowsAffected`
unfoldable pub count_where : (Job → Bool) → List Job → ℕ
count_where p [] = 0
count_where p (r ∷ rs) = (if p r then 1 else 0) + count_where p rs

abbrev pub has_id : Uuid → Job → Bool
has_id k r = r.id == k

unfoldable pub find : Uuid → List Job → Option Job
unfolding first_match
find k = first_match (has_id k)

unfoldable pub member : Uuid → List Uuid → Bool
member k [] = false
member k (x ∷ xs) = if x == k then true else member k xs
