-- ===== src/Jobs/Repository/Claims.antt =====
-- Two claims of one job (internal/jobs/repository.go).

use mathlib.Core.Path.{subst}
use qtest.Prelude.{
  ◌≡◌, refl, ◌⊎◌, inl, inr, sym, String, Bool, false, Option, none, some, List, [], ◌∷◌, ◌&&◌,
  arith, Bool-cases, ◌==◌, ==_iff,
}
use qtest.Prelude.Int.{◌+ℤ◌, ◌≤ℤ◌}
use qtest.Jobs.Types.{Uuid, Time, Duration, Job}
use qtest.Jobs.Store.{World, ok, find, first_match, has_id, update_where}
use qtest.Jobs.Repository
use qtest.Jobs.Repository.{
  is_some, insertable, claimable, claimed_row, completed_row, status_after_failure, failed_row,
  retryable, requeued_row, cancellable, cancelled_row, owned_by, extended_row, stale,
}
use qtest.Jobs.Repository.Outcomes.{claim_found, claim_missed, is_ok}
use qtest.Jobs.Repository.Steps.{Distinct}

no_match :
    (k : Uuid) (q : Job → Bool) (rs : List Job)
    → find k rs ≡ none
    → first_match (λ x. has_id k x && q x) rs ≡ none
unfolding find first_match
no_match k q [] e = refl
no_match k q (x ∷ rs) e = ground (arith, no_match k q rs)

find-none-update_where :
    (k : Uuid) (clock : Time) (p : Job → Bool) (f : Job → Job) (rs : List Job)
    → ((x : Job) → (f x).id ≡ x.id)
    → find k rs ≡ none
    → find k (update_where clock p f rs) ≡ none
unfolding find first_match update_where
find-none-update_where k clock p f [] same e = refl
find-none-update_where k clock p f (x ∷ rs) same e =
    ground (arith, same x, find-none-update_where k clock p f rs same)

abbrev after : Uuid → String → Time → Time → Time → List Job → List Job
after k worker until now clock =
    update_where clock (λ r. has_id k r && claimable now r) (claimed_row worker until now)

module _ (k : Uuid) (worker : String) (until now now' clock : Time) (early : now' ≤ℤ until) where
  no_second_match :
      (rs : List Job) (job : Job)
      → Distinct rs
      → first_match (λ r. has_id k r && claimable now r) rs ≡ some job
      → first_match (λ r. has_id k r && claimable now' r) (after k worker until now clock rs) ≡ none
  unfolding first_match update_where
  no_second_match [] job d e = cc
  no_second_match (x ∷ rs) job d e = elim (Bool-cases (x.id == k)) [
    | inl here ↦
        let gone : find k rs ≡ none = subst (λ n. find n rs ≡ none) ((==_iff x.id k).0 here) d.0 in
        ground (
          arith,
          no_match k (claimable now) rs gone,
          no_match k (claimable now') (after k worker until now clock rs) (
              find-none-update_where k clock (λ r. has_id k r && claimable now r)
                (claimed_row worker until now) rs (λ y. refl) gone),
        )
    | inr there ↦ ground (arith, no_second_match rs job d.1)
  ]

-- After a claim that succeeds, in a table without an id twice, a second claim of the job by any
-- worker, that comes no later than the end of the first one's lock and finds the table as the first
-- one left it, gets no job and changes nothing.
pub claim-claim :
    (hid hid' k : Uuid) (worker other : String) (lock lock' : Duration) (now now' : Time)
    (w w' : World) (job : Job)
    → Distinct w.committed.jobs
    → (Repository.claim hid k worker lock now w).0 ≡ ok (some job)
    → now' ≤ℤ now +ℤ lock
    → w'.committed ≡ (Repository.claim hid k worker lock now w).1.committed
    → ((is_ok (Repository.claim hid' k other lock' now' w').0 ≡ false)
        ⊎ ((Repository.claim hid' k other lock' now' w').0 ≡ ok none))
      × ((Repository.claim hid' k other lock' now' w').1.committed ≡ w'.committed)
claim-claim hid hid' k worker other lock lock' now now' w w' job d got early e =
    go (first_match (λ r. has_id k r && claimable now r) w.committed.jobs) refl
  where
    go :
        (found : Option Job)
        → first_match (λ r. has_id k r && claimable now r) w.committed.jobs ≡ found
        → ((is_ok (Repository.claim hid' k other lock' now' w').0 ≡ false)
            ⊎ ((Repository.claim hid' k other lock' now' w').0 ≡ ok none))
          × ((Repository.claim hid' k other lock' now' w').1.committed ≡ w'.committed)
    go none f = absurd (ground (arith, claim_missed hid k now w worker lock f))
    go (some found) f =
        let stored : w'.committed.jobs ≡ after k worker (now +ℤ lock) now w.clock w.committed.jobs =
          ground (arith, claim_found hid k now w worker lock found f) in
        claim_missed hid' k now' w' other lock' (
          subst (λ rs. first_match (λ r. has_id k r && claimable now' r) rs ≡ none) (sym stored)
            (no_second_match k worker (now +ℤ lock) now now' w.clock early w.committed.jobs found d
              f))
