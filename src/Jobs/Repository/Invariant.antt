-- ===== src/Jobs/Repository/Invariant.antt =====
-- Any sequence of methods of internal/jobs/repository.go, with any calls of the database failing.
use qtest.Prelude.{
  ℕ, ◌≡◌, refl, ◌⊎◌, inl, inr, ◌∙◌, Bool, true, none, some, List, [], ◌∷◌, arith, All, All-map,
  Bool-cases, ◌==◌, ==_iff,
}
use mathlib.Core.Path.{subst}
use qtest.Jobs.Types.{Uuid, Time, Job}
use qtest.Jobs.Store.{Db, HistoryRow, World, find, first_match}
use qtest.Jobs.Repository.{is_some, insertable, inserted_row}
use qtest.Jobs.Repository.Rows.{
  IsSound, inserted_row-IsSound, Edge, RowStep, RowStep-Edge, SameJob, RowStep-SameJob,
}
use qtest.Jobs.Repository.Steps.{
  Op, run_op, Distinct, Moves, end, row, find-Moves, Distinct-Moves, IsSound-Moves,
}
use qtest.Jobs.Repository.Refines.{
  Admissible, TableStep, insert, move, Logged, silent, noted, run_op-TableStep,
}

-- One run of a method: the database's clock, the calls that fail, and the method.
pub record Turn : Type 0 where
  pub clock : Time
  pub fault : ℕ → Bool
  pub op : Op

abbrev pub world : Turn → Db → World
world t db = record {
  committed = db;
  working = db;
  fault = t.fault;
  calls = 0;
  clock = t.clock;
  published = [];
}

unfoldable pub run_turn : Turn → Db → Db
unfolding run_op
run_turn t db = (run_op t.op (world t db)).1.committed

unfoldable pub run_turns : List Turn → Db → Db
unfolding run_turn
run_turns [] db = db
run_turns (t ∷ ts) db = run_turns ts (run_turn t db)

-- Ids are unique, each row is sound, and each row of history is about a job of the table.
pub record IsValid (db : Db) : Type 0 where
  pub distinct : Distinct db.jobs
  pub sound : All IsSound db.jobs
  pub logged : All (λ (h : HistoryRow). is_some (find h.job_id db.jobs) ≡ true) db.history

find-cons :
    (k : Uuid) (r : Job) (rs : List Job)
    → is_some (find k rs) ≡ true
    → is_some (find k (r ∷ rs)) ≡ true
unfolding find first_match
find-cons k r rs h = ground arith

fresh_id : (j : Job) (db : Db) → insertable j db ≡ true → find j.id db.jobs ≡ none
fresh_id j db h = ground arith

still_known :
    (db db' : Db)
    → Moves db.jobs db'.jobs
    → (hs : List HistoryRow) → All (λ (h : HistoryRow). is_some (find h.job_id db.jobs) ≡ true) hs
    → All (λ (h : HistoryRow). is_some (find h.job_id db'.jobs) ≡ true) hs
still_known db db' m hs = All-map _ (λ h s. find-Moves h.job_id m ∙ s) hs

history_known :
    (db db' : Db)
    → Moves db.jobs db'.jobs
    → Logged db db'
    → IsValid db
    → All (λ (h : HistoryRow). is_some (find h.job_id db'.jobs) ≡ true) db'.history
history_known db db' m (silent e) v = rw e (still_known db db' m db.history v.logged)
history_known db db' m (noted h known e) v =
    rw e (still_known db db' m (h ∷ db.history) (known, v.logged))

pub TableStep-Distinct : (db db' : Db) → TableStep db db' → Distinct db.jobs → Distinct db'.jobs
TableStep-Distinct db db' (insert j fresh able e) d = rw e (fresh_id j db able, d)
TableStep-Distinct db db' (move m l) d = Distinct-Moves m d

pub TableStep-IsValid : (db db' : Db) → TableStep db db' → IsValid db → IsValid db'
TableStep-IsValid db db' (insert j fresh able e) v = rw e (record {
  distinct = (fresh_id j db able, v.distinct);
  sound = (inserted_row-IsSound j fresh, v.sound);
  logged = All-map _ (λ h s. find-cons _ _ _ s) db.history v.logged;
})
TableStep-IsValid db db' (move m l) v = record {
  distinct = Distinct-Moves m v.distinct;
  sound = IsSound-Moves m v.sound;
  logged = history_known db db' m l v;
}

-- One method, in one world, with any of its calls failing, keeps the tables valid.
pub run_turn-IsValid : (t : Turn) (db : Db) → Admissible t.op → IsValid db → IsValid (run_turn t db)
unfolding run_turn
run_turn-IsValid t db a v =
    TableStep-IsValid db _ (run_op-TableStep t.op (world t db) a v.distinct) v

-- From valid tables any sequence of methods, with any calls of the database failing and at any
-- clocks, leads to valid tables, if every stored job is pending when it is stored.
pub run_turns-IsValid :
    (ts : List Turn) (db : Db)
    → All (λ (t : Turn). Admissible t.op) ts
    → IsValid db
    → IsValid (run_turns ts db)
unfolding run_turns
run_turns-IsValid [] db a v = v
run_turns-IsValid (t ∷ ts) db a v =
    run_turns-IsValid ts (run_turn t db) a.1 (run_turn-IsValid t db a.0 v)

-- What becomes of a row in one step: it is there, the same job, with the same status or one that
-- an edge of the diagram leads to.
abbrev pub Follows : Job → Db → Type 0
Follows r db =
    (r' : Job) × (find r.id db.jobs ≡ some r') × ((r' ≡ r) ⊎ Edge r.status r'.status) × SameJob r r'

pub find-later :
    (j : Job) (db : Db) (r : Job)
    → insertable j db ≡ true
    → find r.id db.jobs ≡ some r
    → find r.id (inserted_row j ∷ db.jobs) ≡ some r
unfolding find first_match
find-later j db r able e = elim (Bool-cases (j.id == r.id)) [
  | inl same ↦
      let fresh : find r.id db.jobs ≡ none =
        subst (λ n. find n db.jobs ≡ none) ((==_iff j.id r.id).0 same) (fresh_id j db able) in
      cc
  | inr other ↦ ground arith
]

SameJob-refl : (r : Job) → SameJob r r
SameJob-refl r = ground arith

follow-kept :
    (r r' : Job) → (r' ≡ r) ⊎ RowStep r r' → ((r' ≡ r) ⊎ Edge r.status r'.status) × SameJob r r'
follow-kept r r' (inl e) = (inl e, rw e (SameJob-refl r))
follow-kept r r' (inr s) = (inr (RowStep-Edge s), RowStep-SameJob s)

find-follow :
    {rs rs' : List Job} (k : Uuid) (r : Job)
    → Moves rs rs'
    → find k rs ≡ some r
    → (r' : Job) × (find k rs' ≡ some r') × ((r' ≡ r) ⊎ Edge r.status r'.status) × SameJob r r'
unfolding find first_match
find-follow k r end e = cc
find-follow k r (row {r = x} {r' = x'} s m) e = elim (Bool-cases (x.id == k)) [
  | inl here ↦
      let same : x ≡ r = ground arith in
      let (follows, job) = follow-kept r x' (rw (← same) s) in (x', ground arith, follows, job)
  | inr there ↦
      let (r', found, follows, job) = find-follow k r m (ground arith) in
      (r', ground (arith, (follow-kept x x' s).1), follows, job)
]

step-Follows :
    (db db' : Db) (r : Job) → TableStep db db' → find r.id db.jobs ≡ some r → Follows r db'
step-Follows db db' r (move m l) e = find-follow r.id r m e
step-Follows db db' r (insert j fresh able stored) e =
    (r, rw stored (find-later j db r able e), inl refl, SameJob-refl r)

-- If no id stands twice in the table and a job that is stored is pending, then, whatever the
-- database answers, a method keeps every stored job: its identity columns stay, its failures are
-- never counted down, and its status stays or follows an edge of the diagram.
pub run_turn-Follows :
    (t : Turn) (db : Db) (r : Job)
    → Admissible t.op
    → Distinct db.jobs
    → find r.id db.jobs ≡ some r
    → Follows r (run_turn t db)
unfolding run_turn
run_turn-Follows t db r a d e = step-Follows db _ r (run_op-TableStep t.op (world t db) a d) e
