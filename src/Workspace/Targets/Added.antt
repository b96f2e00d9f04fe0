-- ===== src/Workspace/Targets/Added.antt =====
-- The map of targets that `AddTargets` of internal/workspace/workspace.go leaves.
use qtest.Prelude.{◌≡◌, refl, inl, inr, String, ℕ, List, [], ◌∷◌, All, Bool-cases, str_eq}
use qtest.Prelude.Assoc.{erase, insert, insert-UniqueKeys}
use qtest.Llm.Cache.{string_eq}
use qtest.Workspace.Targets.{TargetState, WorkspaceState, ParsedFunction, add_targets}
use qtest.Workspace.Targets.Maps.{HasOwnKey, WellKeyed}

erase-HasOwnKey :
    (k : String) (m : List (String × TargetState)) → All HasOwnKey m → All HasOwnKey (erase k m)
unfolding erase
erase-HasOwnKey k [] own = tt
erase-HasOwnKey k ((j, t) ∷ m) own = elim (Bool-cases (str_eq j k)) [
  | inl same ↦ rw same (erase-HasOwnKey k m own.1)
  | inr other ↦ rw other (own.0, erase-HasOwnKey k m own.1)
]

insert-WellKeyed :
    (k : String) (t : TargetState) (m : List (String × TargetState))
    → k ≡ t.id
    → WellKeyed m
    → WellKeyed (insert k t m)
unfolding insert
insert-WellKeyed k t m own v = record {
  unique = insert-UniqueKeys k t m v.unique;
  own = (own, erase-HasOwnKey k m v.own);
}

-- Adding functions keeps each target at its own id.
pub add_targets-WellKeyed :
    (make_id : String → ℕ → String → String) (fns : List ParsedFunction) (path : String)
    (s : WorkspaceState)
    → WellKeyed s.targets
    → WellKeyed (add_targets make_id fns path s).targets
unfolding add_targets
add_targets-WellKeyed make_id [] path s v = v
add_targets-WellKeyed make_id (fn ∷ fns) path s v = elim (Bool-cases fn.exported) [
  | inl public ↦
      rw public (add_targets-WellKeyed make_id fns path _ (insert-WellKeyed _ _ s.targets refl v))
  | inr private ↦ rw private (add_targets-WellKeyed make_id fns path s v)
]
