-- ===== src/Jobs/Repository/Steps.antt =====
-- The methods of internal/jobs/repository.go that write, as one type of operations, and the
-- abstract table that they work on: rows move one by one, and nothing else changes.
use qtest.Prelude.{
  ◌≡◌, refl, ◌⊎◌, inl, inr, ap, String, Bool, true, false, Option, none, some, List, [], ◌∷◌, ◌&&◌,
  arith, All, All-map, Bool-cases, ==_iff,
}
use qtest.Jobs.Types.{Uuid, Time, Duration, Json, Job}
use qtest.Jobs.Store.{M, ◌>>=◌, pure, touch, update_where, first_match, has_id, find}
use qtest.Jobs.Repository
use qtest.Jobs.Repository.{is_some}
use qtest.Jobs.Repository.Rows.{RowStep, RowStep-SameJob, IsSound, RowStep-IsSound}

pub data Op : Type 0 where
  create : Job → Op
  claim : Uuid → Uuid → String → Duration → Time → Op
  complete : Uuid → Uuid → Option Json → Time → Op
  fail : Uuid → Uuid → String → Option Json → Time → Op
  retry : Uuid → Uuid → Time → Op
  cancel : Uuid → Uuid → Time → Op
  extend : Uuid → String → Duration → Time → Time → Op
  cleanup : Time → Op

abbrev pub discard {ℓ} : {A : Type ℓ} → M A → M (Unit {0})
discard m = do m >>= λ _. pure tt

unfoldable pub run_op : Op → M (Unit {0})
run_op (create j) = Repository.create j
run_op (claim hid k worker lock now) = discard (Repository.claim hid k worker lock now)
run_op (complete hid k bytes now) = Repository.complete hid k bytes now
run_op (fail hid k message details now) = Repository.fail hid k message details now
run_op (retry hid k now) = Repository.retry hid k now
run_op (cancel hid k now) = Repository.cancel hid k now
run_op (extend k worker duration now later) = Repository.extend_lock k worker duration now later
run_op (cleanup now) = discard (Repository.cleanup_stale now)

-- No id stands twice.
abbrev pub Distinct : List Job → Type 0
Distinct [] = Unit
Distinct (r ∷ rs) = (find r.id rs ≡ none) × Distinct rs

-- Row by row, in place.
pub data Moves : List Job → List Job → Type 0 where
  end : Moves [] []
  row :
      {r r' : Job} {rs rs' : List Job}
      → (r' ≡ r) ⊎ RowStep r r'
      → Moves rs rs'
      → Moves (r ∷ rs) (r' ∷ rs')

pub Moves-refl : (rs : List Job) → Moves rs rs
Moves-refl [] = end
Moves-refl (r ∷ rs) = row (inl refl) (Moves-refl rs)

pub update_where-Moves :
    (clock : Time) (p : Job → Bool) (f : Job → Job) (rs : List Job)
    → All (λ r. p r ≡ true → RowStep r (touch clock (f r))) rs
    → Moves rs (update_where clock p f rs)
unfolding update_where
update_where-Moves clock p f [] h = end
update_where-Moves clock p f (r ∷ rs) h = elim (Bool-cases (p r)) [
  | inl yes' ↦ rw yes' (row (inr (h.0 yes')) (update_where-Moves clock p f rs h.1))
  | inr no' ↦ rw no' (row (inl refl) (update_where-Moves clock p f rs h.1))
]

kept-id : {r r' : Job} → (r' ≡ r) ⊎ RowStep r r' → r'.id ≡ r.id
kept-id (inl e) = ap (λ (x : Job). x.id) e
kept-id (inr s) = (RowStep-SameJob s).id

pub find-Moves :
    {rs rs' : List Job} (k : Uuid) → Moves rs rs' → is_some (find k rs') ≡ is_some (find k rs)
unfolding find first_match
find-Moves k end = refl
find-Moves k (row s m) = ground (arith, kept-id s, find-Moves k m)

find-none-Moves :
    {rs rs' : List Job} (k : Uuid) → Moves rs rs' → find k rs ≡ none → find k rs' ≡ none
find-none-Moves k m h = ground (arith, find-Moves k m)

pub Distinct-Moves : {rs rs' : List Job} → Moves rs rs' → Distinct rs → Distinct rs'
Distinct-Moves end d = tt
Distinct-Moves (row s m) d = (rw (kept-id s) (find-none-Moves _ m d.0), Distinct-Moves m d.1)

IsSound-kept : {r r' : Job} → (r' ≡ r) ⊎ RowStep r r' → IsSound r → IsSound r'
IsSound-kept (inl e) h = rw e h
IsSound-kept (inr s) h = RowStep-IsSound s h

pub IsSound-Moves : {rs rs' : List Job} → Moves rs rs' → All IsSound rs → All IsSound rs'
IsSound-Moves end h = tt
IsSound-Moves (row s m) h = (IsSound-kept s h.0, IsSound-Moves m h.1)

absent : (k : Uuid) (rs : List Job) → find k rs ≡ none → All (λ r. has_id k r ≡ false) rs
unfolding find first_match
absent k [] e = tt
absent k (r ∷ rs) e = (ground arith, absent k rs (ground arith))

-- A row with the id that was looked up is the row that was found.
pub found_is_unique :
    (k : Uuid) (rs : List Job) (job : Job)
    → Distinct rs
    → find k rs ≡ some job
    → All (λ r. has_id k r ≡ true → r ≡ job) rs
unfolding find first_match
found_is_unique k [] job d e = tt
found_is_unique k (r ∷ rs) job d e = elim (Bool-cases (has_id k r)) [
  | inl same ↦ (
    λ _. ground arith,
    All-map (λ x. has_id k x ≡ true → x ≡ job) (λ x n h. cc) rs
        (absent k rs (rw (← (==_iff r.id k).0 same) d.0)),
  )
  | inr other ↦ (λ h. cc, found_is_unique k rs job d.1 (ground arith))
]

pub first_match-find :
    (k : Uuid) (q : Job → Bool) (rs : List Job) (job : Job)
    → first_match (λ r. has_id k r && q r) rs ≡ some job
    → (job.id ≡ k) × (q job ≡ true) × (is_some (find k rs) ≡ true)
unfolding find first_match
first_match-find k q [] job e = cc
first_match-find k q (r ∷ rs) job e = ground (arith, first_match-find k q rs job)
