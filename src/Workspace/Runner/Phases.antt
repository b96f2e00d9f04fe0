-- ===== src/Workspace/Runner/Phases.antt =====
-- How a run of internal/workspace/runner.go ends, by its configuration, and what resumes it.
use mathlib.Core.Option.{some-injective}
use qtest.Prelude.{
  ℕ, zero, suc, ◌<◌, ◌≡◌, refl, sym, ap, String, true, Option, none, some, arith, if◌then◌else◌,
}
use qtest.Prelude.Int.{ℤ, ltb_ℤ}
use qtest.Jobs.Types.{Time}
use qtest.Workspace.Targets.{Phase, WorkspaceState}
use qtest.Workspace.Targets.Maps.{pending_count, get_next_target-pending}
use qtest.Workspace.Runner.{
  RunConfig, Round, Workspace, in_state, collect, after_collect, run_parallel, after_loop, run,
  resume,
}

after_loop-phase :
    (save_error : Option String) (x : Option (Option String × Workspace)) (ws' : Workspace)
    → after_loop save_error x ≡ some (none, ws')
    → ws'.state.phase ≡ Phase.completed
unfolding after_loop
after_loop-phase save_error none ws' h = cc
after_loop-phase save_error (some (some e, ws)) ws' h = cc
after_loop-phase none (some (none, ws)) ws' h =
    sym (ap (λ r. r.1.state.phase) (some-injective _ _ h))
after_loop-phase (some e) (some (none, ws)) ws' h = cc

collect-pending :
    (fuel : ℕ) (rounds : ℕ → Round) (i : ℕ) (s : WorkspaceState)
    → 0 < pending_count s.targets
    → collect fuel rounds i s ≡ none
unfolding collect
collect-pending zero rounds i s h = refl
collect-pending (suc fuel) rounds i s h =
    let (e, found) = get_next_target-pending (rounds i).choice s h in
    rw (collect, found, collect-pending fuel rounds (suc i) s h) refl

module _ (cfg : RunConfig) where
  -- A run that returns no error cannot be resumed, also where the context stopped it with targets
  -- still pending.
  pub run-resume :
      (fuel : ℕ) (rounds : ℕ → Round) (save_error : Option String) (now : Time) (ws ws' : Workspace)
      → run cfg fuel rounds save_error now ws ≡ some (none, ws')
      → (fuel' : ℕ) (rounds' : ℕ → Round) (save_error' : Option String) (now' : Time)
      → resume cfg fuel' rounds' save_error' now' ws' ≡ some (some "workspace not paused", ws')
  unfolding run resume
  run-resume fuel rounds save_error now ws ws' h fuel' rounds' save_error' now' =
      rw (after_loop-phase save_error _ ws' h) refl

  -- With more than one worker a run on a workspace with a pending target never ends: its loop that
  -- collects the targets takes pending ones again and again.
  run-pending :
      (fuel : ℕ) (rounds : ℕ → Round) (save_error : Option String) (now : Time) (ws : Workspace)
      → ltb_ℤ (ℤ.pos 1) cfg.max_concurrent ≡ true
      → 0 < pending_count ws.state.targets
      → run cfg fuel rounds save_error now ws ≡ none
  unfolding run run_parallel after_collect after_loop
  run-pending fuel rounds save_error now ws many h =
      let parallel : ltb_ℤ (ℤ.pos 1)
            (if ltb_ℤ cfg.max_concurrent (ℤ.pos 1) then ℤ.pos 1 else cfg.max_concurrent)
          ≡ true =
        ground (arith, many) in
      rw
        (
          run,
          parallel,
          run_parallel,
          collect-pending fuel rounds 0
              (in_state (λ s. record s { phase = Phase.generating; started_at = some now })
                ws).state
              h,
        )
        refl
