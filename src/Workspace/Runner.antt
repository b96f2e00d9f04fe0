-- ===== src/Workspace/Runner.antt =====
-- internal/workspace/runner.go: the loops that generate the tests of a workspace. What a round of a
-- loop takes from its surroundings is a `Round`; a loop that does not end runs out of fuel.
pub mod Ends
pub mod Phases
mod Tests
use qtest.Prelude.{
  ℕ, zero, suc, ◌+◌, ◌&&◌, String, Bool, true, false, not, Option, none, some, List, [], ◌∷◌,
  str_eq, if◌then◌else◌,
}
use qtest.Prelude.Int.{ℤ, ltb_ℤ}
use qtest.Jobs.Types.{Time}
use qtest.Workspace.Targets.{
  Phase, TargetState, WorkspaceState, set_phase, get_next_target, update_target, adjust_target,
}
use qtest.Workspace.Targets
use qtest.Workspace.Generate.{Tools, Answer, got, refused, generate_test}

-- Of `RunConfig`, what the loops read.
pub record RunConfig : Type 0 where
  pub commit_each : Bool
  pub dry_run : Bool
  pub max_concurrent : ℤ

-- The context's state, the draw of a target, the tools, the clock, the answer of git and that of
-- `Save`, which is an error or none.
pub record Round : Type 0 where
  pub cancelled : Bool
  pub choice : ℕ
  pub tools : Tools
  pub marked : Time
  pub finished : Time
  pub commit : Answer String
  pub save_error : Option String

-- The workspace in memory and as it was last saved.
pub record Workspace : Type 0 where
  pub state : WorkspaceState
  pub disk : Option WorkspaceState

abbrev pub in_state : (WorkspaceState → WorkspaceState) → Workspace → Workspace
in_state f ws = record ws { state = f ws.state }

-- `Save`
abbrev pub save : Option String → Workspace → Option String × Workspace
save none ws = (none, record ws { disk = some ws.state })
save (some e) ws = (some e, ws)

abbrev pub with_dsl : Option String → TargetState → TargetState
with_dsl none t = t
with_dsl (some dsl) t = record t { dsl = dsl }

abbrev pub with_commit : Answer String → TargetState → TargetState
with_commit (refused e) t = t
with_commit (got sha) t = record t { commit_sha = sha }

abbrev pub is_refused {ℓ} : {A : Type ℓ} → Answer A → Bool
is_refused (got a) = false
is_refused (refused e) = true

-- The loop of `runParallel` that collects the pending targets.
unfoldable pub collect : ℕ → (ℕ → Round) → ℕ → WorkspaceState → Option (List (String × TargetState))
collect zero rounds i s = none
collect (suc fuel) rounds i s = elim (get_next_target (rounds i).choice s) [
  | none ↦ some []
  | some e ↦ elim (collect fuel rounds (suc i) s) [ none ↦ none | some es ↦ some (e ∷ es) ]
]

unfoldable pub after_loop :
    Option String → Option (Option String × Workspace) → Option (Option String × Workspace)
after_loop save_error none = none
after_loop save_error (some (some e, ws)) = some (some e, ws)
after_loop save_error (some (none, ws)) =
    some (save save_error (in_state (set_phase Phase.completed) ws))

module _ (cfg : RunConfig) where
  -- What follows the generation: the target is failed, or completed and its test is committed.
  unfoldable pub finish :
      Round → String → TargetState → Answer String → WorkspaceState → WorkspaceState
  finish r k t (refused e) s =
      update_target t.id Targets.TargetStatus.failed "" (some e) r.finished s
  finish r k t (got file) s =
      let done = update_target t.id Targets.TargetStatus.completed file none r.finished s in
      if cfg.commit_each && not (str_eq file "") && not cfg.dry_run
      then adjust_target k (with_commit r.commit) done
      else done

  -- One target, from the mark that it is running to the end of its test.
  unfoldable pub one_target : Round → String → TargetState → WorkspaceState → WorkspaceState
  unfolding finish
  one_target r k t s =
      let marked = update_target t.id Targets.TargetStatus.running "" none r.marked s in
      let (dsl, answer) = generate_test r.tools cfg.dry_run t in
      finish r k t answer (adjust_target k (with_dsl dsl) marked)

  -- A round of the sequential loop saves the workspace if the test was generated.
  unfoldable pub one_round : Round → String → TargetState → Workspace → Workspace
  unfolding one_target
  one_round r k t ws =
      let ws' = in_state (one_target r k t) ws in
      if is_refused (generate_test r.tools cfg.dry_run t).1 then ws' else (save r.save_error ws').1

  -- `runSequential`
  unfoldable pub run_sequential :
      ℕ → (ℕ → Round) → ℕ → Workspace → Option (Option String × Workspace)
  unfolding one_round
  run_sequential zero rounds i ws = none
  run_sequential (suc fuel) rounds i ws =
      let r = rounds i in
      elim r.cancelled [
        | true ↦ some (save r.save_error (in_state (set_phase Phase.paused) ws))
        | false ↦ elim (get_next_target r.choice ws.state) [
          | none ↦ some (none, ws)
          | some e ↦ run_sequential fuel rounds (suc i) (one_round r e.0 e.1 ws)
        ]
      ]

  -- The pool of workers, with the targets one after another. A worker that finds the context done
  -- drops its target.
  unfoldable pub work : (ℕ → Round) → ℕ → List (String × TargetState) → Workspace → Workspace
  unfolding one_target
  work rounds i [] ws = ws
  work rounds i (e ∷ es) ws =
      let ws' = if (rounds i).cancelled then ws else in_state (one_target (rounds i) e.0 e.1) ws in
      work rounds (suc i) es ws'

  unfoldable pub after_collect :
      (ℕ → Round)
      → Option String
      → Workspace
      → Option (List (String × TargetState))
      → Option (Option String × Workspace)
  unfolding work
  after_collect rounds save_error ws none = none
  after_collect rounds save_error ws (some []) = some (none, ws)
  after_collect rounds save_error ws (some (e ∷ es)) =
      some (save save_error (work rounds 0 (e ∷ es) ws))

  -- `runParallel`
  unfoldable pub run_parallel :
      ℕ → (ℕ → Round) → Option String → Workspace → Option (Option String × Workspace)
  unfolding collect after_collect
  run_parallel fuel rounds save_error ws =
      after_collect rounds save_error ws (collect fuel rounds 0 ws.state)

  -- `Run`, without the validation and the summary, whose errors are only logged.
  unfoldable pub run :
      ℕ → (ℕ → Round) → Option String → Time → Workspace → Option (Option String × Workspace)
  unfolding run_sequential run_parallel after_loop
  run fuel rounds save_error now ws =
      let started =
        in_state (λ s. record s { phase = Phase.generating; started_at = some now }) ws in
      let concurrency =
        if ltb_ℤ cfg.max_concurrent (ℤ.pos 1) then ℤ.pos 1 else cfg.max_concurrent in
      let parallel = run_parallel fuel rounds save_error started in
      let sequential = run_sequential fuel rounds 0 started in
      after_loop save_error (if ltb_ℤ (ℤ.pos 1) concurrency then parallel else sequential)

abbrev pub is_paused : Phase → Bool
is_paused Phase.paused = true
is_paused _ = false

-- `Resume`
unfoldable pub resume :
    RunConfig
    → ℕ
    → (ℕ → Round)
    → Option String
    → Time
    → Workspace
    → Option (Option String × Workspace)
unfolding run
resume cfg fuel rounds save_error now ws =
    if is_paused ws.state.phase
    then run cfg fuel rounds save_error now ws
    else some (some "workspace not paused", ws)
