-- ===== src/Jobs/Repository/Commits/Replaced.antt =====
-- The rows of `jobs` with another one at an id (internal/jobs/repository.go), by the statements on them.
use mathlib.Core.Path.{subst}
use qtest.Prelude.{
  ◌≡◌, refl, ◌==◌, ==_iff, Bool, true, false, none, some, List, [], ◌∷◌, arith, Bool-cases, inl,
  inr, if◌then◌else◌,
}
use qtest.Jobs.Types.{Uuid, Time, Job}
use qtest.Jobs.Store.{touch, update_where, first_match, count_where, has_id, find}
use qtest.Jobs.Repository.Steps.{Distinct}

unfoldable pub replaced : Uuid → Job → List Job → List Job
replaced k row [] = []
replaced k row (r ∷ rs) = if r.id == k then row ∷ rs else r ∷ replaced k row rs

pub found-id : (k : Uuid) (rs : List Job) (job : Job) → find k rs ≡ some job → job.id ≡ k
unfolding find first_match
found-id k [] job e = cc
found-id k (r ∷ rs) job e = elim (Bool-cases (r.id == k)) [
  | inl here ↦ ground (arith, (==_iff r.id k).0 here)
  | inr there ↦ found-id k rs job (rw there at e)
]

module _ (k : Uuid) (q : Job → Bool) (own : (r : Job) → has_id k r ≡ false → q r ≡ false) where
  update_where-absent :
      (clock : Time) (f : Job → Job) (rs : List Job)
      → find k rs ≡ none
      → update_where clock q f rs ≡ rs
  unfolding find first_match update_where
  update_where-absent clock f [] e = refl
  update_where-absent clock f (r ∷ rs) e = ground (arith, own r, update_where-absent clock f rs)

  count_where-absent : (rs : List Job) → find k rs ≡ none → count_where q rs ≡ 0
  unfolding find first_match count_where
  count_where-absent [] e = refl
  count_where-absent (r ∷ rs) e = ground (arith, own r, count_where-absent rs)

  pub update_where-replaced :
      (clock : Time) (f : Job → Job) (rs : List Job) (job : Job)
      → Distinct rs
      → find k rs ≡ some job
      → q job ≡ true
      → update_where clock q f rs ≡ replaced k (touch clock (f job)) rs
  unfolding find first_match update_where replaced
  update_where-replaced clock f [] job d e h = cc
  update_where-replaced clock f (r ∷ rs) job d e h = elim (Bool-cases (r.id == k)) [
    | inl here ↦
        let gone : find k rs ≡ none = subst (λ n. find n rs ≡ none) ((==_iff r.id k).0 here) d.0 in
        ground (arith, update_where-absent clock f rs gone)
    | inr there ↦ ground (arith, own r there, update_where-replaced clock f rs job d.1)
  ]

  pub first_match-found :
      (rs : List Job) (job : Job)
      → find k rs ≡ some job
      → q job ≡ true
      → first_match q rs ≡ some job
  unfolding find first_match
  first_match-found [] job e h = cc
  first_match-found (r ∷ rs) job e h = ground (arith, own r, first_match-found rs job)

  pub count_where-found :
      (rs : List Job) (job : Job)
      → Distinct rs
      → find k rs ≡ some job
      → count_where q rs ≡ (if q job then 1 else 0)
  unfolding find first_match count_where
  count_where-found [] job d e = cc
  count_where-found (r ∷ rs) job d e = elim (Bool-cases (r.id == k)) [
    | inl here ↦
        let gone : find k rs ≡ none = subst (λ n. find n rs ≡ none) ((==_iff r.id k).0 here) d.0 in
        ground (arith, count_where-absent rs gone)
    | inr there ↦ ground (arith, own r there, count_where-found rs job d.1)
  ]
