-- ===== src/Worker/Ancestry/Ends.antt =====
-- The walk of internal/worker/workers.go from a job up to its ingestion job ends, in every table that
-- the repository makes from jobs that are not their own parents.
use qtest.Prelude.{
  ℕ, zero, suc, ◌<◌, ◌≤◌, ◌≡◌, ◌≢◌, refl, sym, ap, ◌∙◌, ◌⊎◌, inl, inr, String, true, false, Option,
  none, some, List, [], ◌∷◌, arith, All, Bool-cases, Option-cases, if◌then◌else◌, length, ==_iff,
  ◌==◌,
}
use qtest.Jobs.Types.{Uuid, Json, Job}
use qtest.Jobs.Store.{
  Db, World, Result, ok, err, get_failed, find, first_match, has_id, auto_commit, call,
}
use qtest.Jobs.Repository.{get_by_id, is_some, insertable, inserted_row}
use qtest.Jobs.Repository.Rows.{RowStep, RowStep-SameJob}
use qtest.Jobs.Repository.Steps.{Op, Distinct, Moves, end, row, find-Moves}
use qtest.Jobs.Repository.Refines.{Admissible, Stores, OpStep, insert, move, run_op-OpStep}
use qtest.Jobs.Repository.Invariant.{Turn, world, run_turn, run_turns, IsValid, run_turn-IsValid}
use qtest.Workspace.Generate.{Answer}
use qtest.Worker.Ingestion.{IngestionResult}
use qtest.Worker.Ancestry.{
  look, follow, stop, found, up, Looked, climb, get_workspace_path, fetch_path,
}
use qtest.Jobs.Pipeline.Keeps.{KeepsTables}

-- Each job's parent, if it has one, is an older row; the table has the latest row first.
abbrev pub IsRooted : List Job → Type 0
IsRooted [] = Unit
IsRooted (r ∷ rs) =
    ((k : Uuid) → r.parent_job_id ≡ some k → is_some (find k rs) ≡ true) × IsRooted rs

-- How many rows are at least as old as the one with the id.
abbrev rank : Uuid → List Job → ℕ
rank k [] = 0
rank k (r ∷ rs) = if has_id k r then suc (length rs) else rank k rs

rank-le : (k : Uuid) (rs : List Job) → rank k rs ≤ length rs
rank-le k [] = omega arith
rank-le k (r ∷ rs) = ground (arith, rank-le k rs)

kept_parent : {r r' : Job} → (r' ≡ r) ⊎ RowStep r r' → r.parent_job_id ≡ r'.parent_job_id
kept_parent (inl e) = ap (λ (x : Job). x.parent_job_id) (sym e)
kept_parent (inr s) = sym (RowStep-SameJob s).parent_job_id

find-fresh :
    (k : Uuid) (r : Job) (rs : List Job)
    → find r.id rs ≡ none
    → is_some (find k rs) ≡ true
    → has_id k r ≡ false
find-fresh k r rs d h = ground (arith, ==_iff r.id k)

parent_older :
    (rs : List Job) (k k' : Uuid) (j : Job)
    → Distinct rs
    → IsRooted rs
    → find k rs ≡ some j
    → j.parent_job_id ≡ some k'
    → (is_some (find k' rs) ≡ true) × (rank k' rs < rank k rs)
unfolding find first_match
parent_older [] k k' j d g e p = cc
parent_older (r ∷ rs) k k' j d g e p = elim (Bool-cases (has_id k r)) [
  | inl same ↦
      let known : is_some (find k' rs) ≡ true = g.0 k' (ground (arith, same, e, p)) in
      let other = find-fresh k' r rs d.0 known in
      (rw other known, ground (arith, rank-le k' rs, other, same))
  | inr differs ↦
      let (known, less) = parent_older rs k k' j d.1 g.1 (ground (arith, differs, e)) p in
      let other = find-fresh k' r rs d.0 known in (rw other known, rw (other, differs) less)
]

get_by_id-answer :
    (k : Uuid) (w : World)
    → (((get_by_id k w).0 ≡ err get_failed) ⊎ ((get_by_id k w).0 ≡ ok (find k w.committed.jobs)))
      × ((get_by_id k w).1.committed ≡ w.committed)
unfolding get_by_id auto_commit call
get_by_id-answer k w = elim (Bool-cases (w.fault w.calls)) [
  | inl fails ↦ (inl (ground arith), ground arith)
  | inr works ↦ (inr (ground arith), ground arith)
]

follow-is_some :
    (l : Looked) (w : World) (next : Job → World → Option String × World)
    → ((parent : Job) → l ≡ up parent → is_some (next parent w).0 ≡ true)
    → is_some (follow l w next).0 ≡ true
follow-is_some stop w next h = refl
follow-is_some (found path) w next h = refl
follow-is_some (up parent) w next h = h parent refl

differ : (a b : ℕ) → a ≢ b → (a == b) ≡ false
differ a b n = elim (Bool-cases (a == b)) [
  | inl same ↦ absurd (n ((==_iff a b).0 same))
  | inr other ↦ other
]

module _ (decode_result : Json → Answer IngestionResult) where
  look-up : (r : Result (Option Job)) (j : Job) → look decode_result r ≡ up j → r ≡ ok (some j)
  look-up (err e) j h = cc
  look-up (ok none) j h = cc
  look-up (ok (some parent)) j h = ground arith

  found_parent :
      (k : Uuid) (w : World) (j : Job)
      → look decode_result (get_by_id k w).0 ≡ up j
      → find k w.committed.jobs ≡ some j
  found_parent k w j h = elim (get_by_id-answer k w).0 [
    | inl fails ↦ ground (arith, look-up (get_by_id k w).0 j h, fails)
    | inr read ↦ ground (arith, look-up (get_by_id k w).0 j h, read)
  ]

  climb-is_some :
      (n : ℕ) (current : Job) (w : World)
      → Distinct w.committed.jobs
      → IsRooted w.committed.jobs
      → ((k : Uuid) → current.parent_job_id ≡ some k → rank k w.committed.jobs < n)
      → is_some (climb decode_result n current w).0 ≡ true
  unfolding climb
  climb-is_some zero current w d g less = elim (Option-cases current.parent_job_id) [
    | inl root ↦ rw root refl
    | inr (k, e) ↦ absurd (omega (arith, less k e))
  ]
  climb-is_some (suc n) current w d g less = elim (Option-cases current.parent_job_id) [
    | inl root ↦ rw root refl
    | inr (k, e) ↦
        let rs = w.committed.jobs in
        let same = (get_by_id-answer k w).1 in
        rw e (
          follow-is_some (look decode_result (get_by_id k w).0) (get_by_id k w).1
            (climb decode_result n)
            (λ parent l. climb-is_some n parent (get_by_id k w).1 (rw same d) (rw same g) (λ k' p.
              rw same (
                omega (
                  arith,
                  less k e,
                  (parent_older rs k k' parent d g (found_parent k w parent l) p).1,
                )))))
  ]

follow-committed :
    (l : Looked) (w : World) (next : Job → World → Option String × World)
    → ((parent : Job) → (next parent w).1.committed ≡ w.committed)
    → (follow l w next).1.committed ≡ w.committed
follow-committed stop w next h = refl
follow-committed (found path) w next h = refl
follow-committed (up parent) w next h = h parent

module _ (decode_result : Json → Answer IngestionResult) where
  climb-committed :
      (n : ℕ) (current : Job) (w : World)
      → (climb decode_result n current w).1.committed ≡ w.committed
  unfolding climb
  climb-committed zero current w = elim (Option-cases current.parent_job_id) [
    | inl root ↦ rw root refl
    | inr (k, e) ↦ rw e refl
  ]
  climb-committed (suc n) current w = elim (Option-cases current.parent_job_id) [
    | inl root ↦ rw root refl
    | inr (k, e) ↦ rw e (
        follow-committed (look decode_result (get_by_id k w).0) (get_by_id k w).1
          (climb decode_result n) (λ parent. climb-committed n parent (get_by_id k w).1)
        ∙ (get_by_id-answer k w).1)
  ]

  -- The walk only reads.
  pub fetch_path-KeepsTables : (job : Job) → KeepsTables (fetch_path decode_result job)
  unfolding fetch_path get_workspace_path
  fetch_path-KeepsTables job w v = rw (climb-committed (suc (length w.committed.jobs)) job w) v

IsRooted-Moves : {rs rs' : List Job} → Moves rs rs' → IsRooted rs → IsRooted rs'
IsRooted-Moves end g = tt
IsRooted-Moves (row s m) g =
    ((λ k e. find-Moves k m ∙ g.0 k (kept_parent s ∙ e)), IsRooted-Moves m g.1)

-- No stored job is its own parent.
abbrev pub HasOtherParent : Op → Type 0
HasOtherParent = Stores (λ j. j.parent_job_id ≢ some j.id)

parent_known :
    (j : Job) (db : Db) (k : Uuid)
    → j.parent_job_id ≢ some j.id
    → insertable j db ≡ true
    → j.parent_job_id ≡ some k
    → is_some (find k db.jobs) ≡ true
parent_known j db k other able e =
    let differs : (k == j.id) ≡ false = differ k j.id (λ s. other (e ∙ ap some s)) in
    ground (arith, able, e, differs)

-- What holds in a table whose walks end.
record IsLineage (db : Db) : Type 0 where
  valid : IsValid db
  rooted : IsRooted db.jobs

insert-IsRooted :
    (j : Job) (db : Db)
    → j.parent_job_id ≢ some j.id
    → insertable j db ≡ true
    → IsRooted db.jobs
    → IsRooted (inserted_row j ∷ db.jobs)
insert-IsRooted j db other able g = ((λ k e. parent_known j db k other able e), g)

step-IsRooted :
    (db db' : Db)
    → OpStep (λ j. j.parent_job_id ≢ some j.id) db db'
    → IsRooted db.jobs
    → IsRooted db'.jobs
step-IsRooted db db' (insert j other able e) g = rw e (insert-IsRooted j db other able g)
step-IsRooted db db' (move m l) g = IsRooted-Moves m g

run_turn-IsLineage :
    (t : Turn) (db : Db)
    → Admissible t.op
    → HasOtherParent t.op
    → IsLineage db
    → IsLineage (run_turn t db)
unfolding run_turn
run_turn-IsLineage t db a o v = record {
  valid = run_turn-IsValid t db a v.valid;
  rooted = step-IsRooted db _ (run_op-OpStep t.op (world t db) o v.valid.distinct) v.rooted;
}

run_turns-IsLineage :
    (ts : List Turn) (db : Db)
    → All (λ (t : Turn). Admissible t.op × HasOtherParent t.op) ts
    → IsLineage db
    → IsLineage (run_turns ts db)
unfolding run_turns
run_turns-IsLineage [] db a v = v
run_turns-IsLineage (t ∷ ts) db a v =
    run_turns-IsLineage ts (run_turn t db) a.1 (run_turn-IsLineage t db a.0.0 a.0.1 v)

-- After any sequence of the repository's methods from valid tables whose rows have older rows as their
-- parents, if each stored job is pending and not its own parent, the walk from any job to its workspace
-- path ends, whatever the database answers.
pub get_workspace_path-ends :
    (decode_result : Json → Answer IngestionResult) (ts : List Turn) (db : Db) (job : Job)
    (w : World)
    → All (λ (t : Turn). Admissible t.op × HasOtherParent t.op) ts
    → IsValid db
    → IsRooted db.jobs
    → w.committed ≡ run_turns ts db
    → is_some (get_workspace_path decode_result job w).0 ≡ true
unfolding get_workspace_path
get_workspace_path-ends decode_result ts db job w a v g e =
    let l = run_turns-IsLineage ts db a (record { valid = v; rooted = g }) in
    climb-is_some decode_result (suc (length w.committed.jobs)) job w (rw e l.valid.distinct)
      (rw e l.rooted) (λ k p. omega (arith, rank-le k w.committed.jobs))
