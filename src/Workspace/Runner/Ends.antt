-- ===== src/Workspace/Runner/Ends.antt =====
-- The sequential loop of internal/workspace/runner.go ends, and what it leaves.
pub mod Rounds
use mathlib.Core.Path.{subst}
use qtest.Prelude.Assoc.{lookup}
use qtest.Llm.Cache.{string_eq}
use qtest.Prelude.{
  sym, ap, ◌∙◌, ℕ, zero, suc, ◌+◌, ◌<◌, ◌≡◌, refl, ◌⊎◌, inl, inr, String, Bool, true, false, Option,
  none, some, List, [], ◌∷◌, arith, Option-cases, Bool-cases,
}
use qtest.Workspace.Targets.{
  Phase, TargetState, WorkspaceState, set_phase, get_next_target, is_pending,
}
use qtest.Workspace.Targets.Maps.{
  WellKeyed, pending_count, adjust-WellKeyed, pending_count-adjust, get_next_target-some,
  get_next_target-none,
}
use qtest.Workspace.Generate.{Answer, generate_test}
use qtest.Workspace.Runner.{
  RunConfig, Round, Workspace, in_state, save, one_target, one_round, is_refused, run_sequential,
}
use qtest.Workspace.Runner.Ends.Rounds.{Writes, Leaves, one_target-Writes}

-- How the loop ends: without an error and with no pending target, each of them counted as completed or failed, or paused
-- by a context that is done.
pub data Ended (rounds : ℕ → Round) (e : Option String) (s s' : WorkspaceState) : Type 0 where
  all_done :
      e ≡ none
      → pending_count s'.targets ≡ 0
      → s'.completed + s'.failed ≡ pending_count s.targets + s.completed + s.failed
      → s'.skipped ≡ s.skipped
      → s'.phase ≡ s.phase
      → Ended rounds e s s'
  stopped : (j : ℕ) → (rounds j).cancelled ≡ true → s'.phase ≡ Phase.paused → Ended rounds e s s'

-- One round makes one pending target fewer and counts it.
pub record Settles (s s' : WorkspaceState) : Type 0 where
  pub keyed : WellKeyed s'.targets
  pub pending : suc (pending_count s'.targets) ≡ pending_count s.targets
  pub counts : s'.completed + s'.failed ≡ suc (s.completed + s.failed)
  pub skipped : s'.skipped ≡ s.skipped
  pub phase : s'.phase ≡ s.phase

save-state : (e : Option String) (ws : Workspace) → (save e ws).1.state ≡ ws.state
save-state none ws = refl
save-state (some e) ws = refl

module _ (cfg : RunConfig) where
  written :
      (r : Round) (k : String) (t : TargetState) (s : WorkspaceState)
      → k ≡ t.id
      → lookup k s.targets ≡ some t
      → (f : TargetState → TargetState) × Writes k 1 f s (one_target cfg r k t s) × Leaves k f
  written r k t s own =
      subst
        (λ i.
          lookup i s.targets ≡ some t
          → (f : TargetState → TargetState) × Writes i 1 f s (one_target cfg r i t s) × Leaves i f)
        (sym own) (one_target-Writes cfg r t s)

  one_target-Settles :
      (r : Round) (e : String × TargetState) (s : WorkspaceState)
      → WellKeyed s.targets
      → get_next_target r.choice s ≡ some e
      → Settles s (one_target cfg r e.0 e.1 s)
  one_target-Settles r e s v h =
      let (l, own, was) = get_next_target-some r.choice s e v h in
      let (f, w, now) = written r e.0 e.1 s own l in
      record {
        keyed = rw w.targets (adjust-WellKeyed e.0 f w.keeps_id s.targets v);
        pending = rw w.targets (pending_count-adjust e.0 f s.targets e.1 l was (now e.1));
        counts = omega (arith, w.counts);
        skipped = w.skipped;
        phase = w.phase;
      }

  one_round-state :
      (r : Round) (k : String) (t : TargetState) (ws : Workspace)
      → (one_round cfg r k t ws).state ≡ one_target cfg r k t ws.state
  unfolding one_round
  one_round-state r k t ws =
      elim (Bool-cases (is_refused (generate_test r.tools cfg.dry_run t).1)) [
        | inl bad ↦ rw bad refl
        | inr good ↦ rw good (save-state r.save_error (in_state (one_target cfg r k t) ws))
      ]

  save-phase : (e : Option String) (ws : Workspace) → (save e ws).1.state.phase ≡ ws.state.phase
  save-phase e ws = ap (λ s. s.phase) (save-state e ws)

  continue_with :
      (rounds : ℕ → Round) (e : Option String) (s m s' : WorkspaceState)
      → Settles s m
      → Ended rounds e m s'
      → Ended rounds e s s'
  continue_with rounds e s m s' st (all_done q p c k f) =
      all_done q p (omega (arith, c, st.counts, st.pending)) (k ∙ st.skipped) (f ∙ st.phase)
  continue_with rounds e s m s' st (stopped j c f) = stopped j c f

  run_sequential-round :
      (fuel : ℕ) (rounds : ℕ → Round) (i : ℕ) (ws : Workspace) (x : String × TargetState)
      → (rounds i).cancelled ≡ false
      → get_next_target (rounds i).choice ws.state ≡ some x
      → run_sequential cfg (suc fuel) rounds i ws
        ≡ run_sequential cfg fuel rounds (suc i) (one_round cfg (rounds i) x.0 x.1 ws)
  unfolding run_sequential
  run_sequential-round fuel rounds i ws x on found = rw (run_sequential, on, found) refl

  -- With more fuel than there are pending targets the sequential loop ends, whatever the tools, git
  -- and the saving answer and in whatever order the targets come: if each target stands at its own
  -- id, then either none is left pending and each that was is counted as completed or failed, and
  -- the loop returns no error, or the context is done and the workspace is paused.
  pub run_sequential-ends :
      (fuel : ℕ) (rounds : ℕ → Round) (i : ℕ) (ws : Workspace)
      → WellKeyed ws.state.targets
      → pending_count ws.state.targets < fuel
      → (e : Option String) × (ws' : Workspace) × (run_sequential cfg fuel rounds i ws
          ≡ some (e, ws'))
        × Ended rounds e ws.state ws'.state
  unfolding run_sequential
  run_sequential-ends zero rounds i ws v h = absurd (omega (arith, h))
  run_sequential-ends (suc fuel) rounds i ws v h = elim (Bool-cases (rounds i).cancelled) [
    | inl done ↦
        let (e, ws') = save (rounds i).save_error (in_state (set_phase Phase.paused) ws) in
        (
          e,
          ws',
          rw (run_sequential, done) refl,
          stopped i done (save-phase (rounds i).save_error _),
        )
    | inr on ↦ elim (Option-cases (get_next_target (rounds i).choice ws.state)) [
      | inl none' ↦
          let none_left = get_next_target-none (rounds i).choice ws.state none' in
          (
            none,
            ws,
            rw (run_sequential, on, none') refl,
            all_done refl none_left (omega (arith, none_left)) refl refl,
          )
      | inr (x, found) ↦
          let next = one_round cfg (rounds i) x.0 x.1 ws in
          let st : Settles ws.state next.state =
            rw (one_round-state (rounds i) x.0 x.1 ws)
              (one_target-Settles (rounds i) x ws.state v found) in
          let (e, ws', run, ended) =
            run_sequential-ends fuel rounds (suc i) next st.keyed (omega (arith, st.pending, h)) in
          (
            e,
            ws',
            run_sequential-round fuel rounds i ws x on found ∙ run,
            continue_with rounds e ws.state next.state ws'.state st ended,
          )
    ]
  ]
