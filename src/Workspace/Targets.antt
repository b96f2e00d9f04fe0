-- ===== src/Workspace/Targets.antt =====
-- internal/workspace/workspace.go: the targets of a workspace and what happens to them. A pointer to
-- a target is its key in the map. The counts are naturals, as they start at 0 and are counted up.
pub mod Maps
pub mod Added
use qtest.Prelude.{
  ℕ, zero, suc, ◌%◌, String, Bool, true, false, Option, none, some, List, [], ◌∷◌, length, select,
  str_eq, if◌then◌else◌,
}
use qtest.Prelude.Int.{ℤ}
use qtest.Prelude.Assoc.{Eq, lookup, insert}
use qtest.Llm.Cache.{string_eq}
use qtest.Jobs.Types.{Time}

pub data Phase : Type 0 where
  init cloning parsing planning generating paused completed failed : Phase

-- A status read from a file may be any text.
pub data TargetStatus : Type 0 where
  pending running completed failed skipped : TargetStatus
  other : String → TargetStatus

pub record TargetState : Type 0 where
  pub id : String
  pub file : String
  pub name : String
  pub type_name : String
  pub line : ℕ
  pub status : TargetStatus
  pub covered : Bool
  pub spec_id : String
  pub test_file : String
  pub commit_sha : String
  pub error : String
  pub generated_at : Option Time
  pub dsl : String

pub record WorkspaceState : Type 0 where
  pub phase : Phase
  pub total_targets : ℕ
  pub completed : ℕ
  pub failed : ℕ
  pub skipped : ℕ
  pub targets : List (String × TargetState)
  pub current_index : ℕ
  pub started_at : Option Time
  pub paused_at : Option Time

-- Of `parser.Function`, what `AddTargets` and `generateTest` read. Lines start at 1.
pub record ParsedFunction : Type 0 where
  pub id : String
  pub name : String
  pub start_line : ℕ
  pub end_line : ℕ
  pub exported : Bool

unfoldable pub new_state : WorkspaceState
new_state = record {
  phase = init;
  total_targets = 0;
  completed = 0;
  failed = 0;
  skipped = 0;
  targets = [];
  current_index = 0;
  started_at = none;
  paused_at = none;
}

abbrev pub set_phase : Phase → WorkspaceState → WorkspaceState
set_phase p s = record s { phase = p }

abbrev pub new_target : String → String → ParsedFunction → TargetState
new_target id file_path fn = record {
  id = id;
  file = file_path;
  name = fn.name;
  type_name = "function";
  line = fn.start_line;
  status = pending;
  covered = false;
  spec_id = "";
  test_file = "";
  commit_sha = "";
  error = "";
  generated_at = none;
  dsl = "";
}

-- `AddTargets`; `make_id` is the format `%s:%d:%s` of the path, the line and the name.
unfoldable pub add_targets :
    (String → ℕ → String → String) → List ParsedFunction → String → WorkspaceState → WorkspaceState
add_targets make_id [] file_path s = s
add_targets make_id (fn ∷ fns) file_path s =
    let id = if str_eq fn.id "" then make_id file_path fn.start_line fn.name else fn.id in
    let added = record s {
      targets = insert id (new_target id file_path fn) s.targets;
      total_targets = suc s.total_targets;
    } in
    add_targets make_id fns file_path (if fn.exported then added else s)

abbrev pub is_pending : String × TargetState → Bool
is_pending (k, t) = elim t.status [ pending ↦ true | _ ↦ false ]

unfoldable pub nth_of {ℓ} : {A : Type ℓ} → ℕ → List A → Option A
nth_of n [] = none
nth_of zero (x ∷ xs) = some x
nth_of (suc n) (x ∷ xs) = nth_of n xs

-- `GetNextTarget`: the first pending target in an order of iteration that Go draws at random;
-- `choice` says which of them that is.
unfoldable pub get_next_target : ℕ → WorkspaceState → Option (String × TargetState)
unfolding nth_of
get_next_target choice s =
    let candidates = select is_pending s.targets in nth_of (choice % length candidates) candidates

-- A write through the pointer to the target of a key.
unfoldable pub adjust :
    String → (TargetState → TargetState) → List (String × TargetState) → List (String × TargetState)
adjust k f [] = []
adjust k f ((j, t) ∷ m) = if str_eq j k then (j, f t) ∷ m else (j, t) ∷ adjust k f m

abbrev pub adjust_target : String → (TargetState → TargetState) → WorkspaceState → WorkspaceState
adjust_target k f s = record s { targets = adjust k f s.targets }

abbrev pub updated : TargetStatus → String → Option String → Time → TargetState → TargetState
updated status test_file failure now t = record t {
  status = status;
  test_file = test_file;
  generated_at = some now;
  error = elim failure [ none ↦ t.error | some e ↦ e ];
}

abbrev pub counted : TargetStatus → WorkspaceState → WorkspaceState
counted completed s = record s { completed = suc s.completed }
counted failed s = record s { failed = suc s.failed }
counted skipped s = record s { skipped = suc s.skipped }
counted _ s = s

-- `UpdateTarget`
unfoldable pub update_target :
    String → TargetStatus → String → Option String → Time → WorkspaceState → WorkspaceState
update_target id status test_file failure now s = elim (lookup id s.targets) [
  | none ↦ s
  | some t ↦ counted status (adjust_target id (updated status test_file failure now) s)
]

-- `UpdateTargetCovered`
unfoldable pub update_target_covered : String → String → Time → WorkspaceState → WorkspaceState
update_target_covered id spec_id now s = elim (lookup id s.targets) [
  | none ↦ s
  | some t ↦
      adjust_target id
        (λ t'. record t' {
          status = TargetStatus.completed;
          covered = true;
          spec_id = spec_id;
          generated_at = some now;
        })
        s
]
