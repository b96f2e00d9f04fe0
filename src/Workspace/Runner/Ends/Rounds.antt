-- ===== src/Workspace/Runner/Ends/Rounds.antt =====
-- What a round of internal/workspace/runner.go writes: one target, and one of the counters.
use qtest.Prelude.{
  ℕ, ◌+◌, ◌≡◌, refl, ◌∙◌, ap, inl, inr, String, Bool, true, false, not, ◌&&◌, Option, none, some,
  arith, Bool-cases, str_eq,
}
use qtest.Prelude.Assoc.{lookup}
use qtest.Llm.Cache.{string_eq}
use qtest.Jobs.Types.{Time}
use qtest.Workspace.Targets.{
  TargetState, TargetStatus, WorkspaceState, adjust, adjust_target, updated, counted, update_target,
  is_pending,
}
use qtest.Workspace.Targets.Maps.{lookup-adjust, adjust-adjust}
use qtest.Workspace.Generate.{Answer, got, refused, generate_test}
use qtest.Workspace.Runner.{RunConfig, Round, with_dsl, with_commit, finish, one_target}

-- One target is written by `f`, and `n` targets are counted.
pub record Writes (k : String) (n : ℕ) (f : TargetState → TargetState) (s s' : WorkspaceState)
    : Type 0 where
  pub keeps_id : (t : TargetState) → (f t).id ≡ t.id
  pub targets : s'.targets ≡ adjust k f s.targets
  pub counts : s'.completed + s'.failed ≡ n + (s.completed + s.failed)
  pub skipped : s'.skipped ≡ s.skipped
  pub phase : s'.phase ≡ s.phase

Writes-trans :
    (k : String) (n m : ℕ) (f g : TargetState → TargetState) (s s' s'' : WorkspaceState)
    → Writes k n f s s'
    → Writes k m g s' s''
    → Writes k (n + m) (λ t. g (f t)) s s''
Writes-trans k n m f g s s' s'' a b = record {
  keeps_id = λ t. b.keeps_id (f t) ∙ a.keeps_id t;
  targets = b.targets ∙ ap (adjust k g) a.targets ∙ adjust-adjust k f g s.targets;
  counts = omega (arith, a.counts, b.counts);
  skipped = b.skipped ∙ a.skipped;
  phase = b.phase ∙ a.phase;
}

adjust_target-Writes :
    (k : String) (f : TargetState → TargetState) (s : WorkspaceState)
    → ((t : TargetState) → (f t).id ≡ t.id)
    → Writes k 0 f s (adjust_target k f s)
adjust_target-Writes k f s same_id = record {
  keeps_id = same_id;
  targets = refl;
  counts = omega arith;
  skipped = refl;
  phase = refl;
}

-- How many targets a status counts as completed or failed.
abbrev pub settled : TargetStatus → ℕ
settled TargetStatus.completed = 1
settled TargetStatus.failed = 1
settled _ = 0

abbrev pub is_skipped : TargetStatus → Bool
is_skipped TargetStatus.skipped = true
is_skipped _ = false

counted-Writes :
    (k : String) (status : TargetStatus) (f : TargetState → TargetState) (s : WorkspaceState)
    → is_skipped status ≡ false
    → ((t : TargetState) → (f t).id ≡ t.id)
    → Writes k (settled status) f s (counted status (adjust_target k f s))
counted-Writes k TargetStatus.pending f s h same_id = adjust_target-Writes k f s same_id
counted-Writes k TargetStatus.running f s h same_id = adjust_target-Writes k f s same_id
counted-Writes k (TargetStatus.other x) f s h same_id = adjust_target-Writes k f s same_id
counted-Writes k TargetStatus.skipped f s h same_id = cc
counted-Writes k TargetStatus.completed f s h same_id = record {
  keeps_id = same_id;
  targets = refl;
  counts = omega arith;
  skipped = refl;
  phase = refl;
}
counted-Writes k TargetStatus.failed f s h same_id = record {
  keeps_id = same_id;
  targets = refl;
  counts = omega arith;
  skipped = refl;
  phase = refl;
}

update_target-Writes :
    (k : String) (status : TargetStatus) (file : String) (failure : Option String) (now : Time)
    (s : WorkspaceState) (t : TargetState)
    → is_skipped status ≡ false
    → lookup k s.targets ≡ some t
    → Writes k
        (settled status)
        (updated status file failure now)
        s
        (update_target k status file failure now s)
unfolding update_target
update_target-Writes k status file failure now s t h l =
    rw (update_target, l)
      (counted-Writes k status (updated status file failure now) s h (λ t'. refl))

with_dsl-id : (dsl : Option String) (t : TargetState) → (with_dsl dsl t).id ≡ t.id
with_dsl-id none t = refl
with_dsl-id (some d) t = refl

with_commit-id : (c : Answer String) (t : TargetState) → (with_commit c t).id ≡ t.id
with_commit-id (refused e) t = refl
with_commit-id (got sha) t = refl

with_commit-pending :
    (c : Answer String) (k : String) (t : TargetState)
    → is_pending (k, with_commit c t) ≡ is_pending (k, t)
with_commit-pending (refused e) k t = refl
with_commit-pending (got sha) k t = refl

-- A write after which a target is not pending.
abbrev pub Leaves : String → (TargetState → TargetState) → Type 0
Leaves k f = (t : TargetState) → is_pending (k, f t) ≡ false

module _ (cfg : RunConfig) where
  finish-Writes :
      (r : Round) (t u : TargetState) (answer : Answer String) (s : WorkspaceState)
      → lookup t.id s.targets ≡ some u
      → (f : TargetState → TargetState) × Writes t.id 1 f s (finish cfg r t.id t answer s)
        × Leaves t.id f
  unfolding finish
  finish-Writes r t u (refused e) s l = (
    _,
    update_target-Writes t.id TargetStatus.failed "" (some e) r.finished s u refl l,
    λ t'. refl,
  )
  finish-Writes r t u (got file) s l =
      let done = update_target-Writes t.id TargetStatus.completed file none r.finished s u refl l in
      elim (Bool-cases (cfg.commit_each && not (str_eq file "") && not cfg.dry_run)) [
        | inl commits ↦ rw commits (
          _,
          Writes-trans t.id 1 0 _ (with_commit r.commit) s _ _ done
              (adjust_target-Writes t.id (with_commit r.commit) _ (with_commit-id r.commit)),
          λ t'.
              with_commit-pending r.commit t.id
                (updated TargetStatus.completed file none r.finished t'),
        )
        | inr not_so ↦ rw not_so (_, done, λ t'. refl)
      ]

  -- A round on a target of the map writes that target, which is not pending afterwards, and counts it.
  pub one_target-Writes :
      (r : Round) (t : TargetState) (s : WorkspaceState)
      → lookup t.id s.targets ≡ some t
      → (f : TargetState → TargetState) × Writes t.id 1 f s (one_target cfg r t.id t s)
        × Leaves t.id f
  unfolding one_target
  one_target-Writes r t s l =
      let running = updated TargetStatus.running "" none r.marked in
      let answer = generate_test r.tools cfg.dry_run t in
      let marked = update_target t.id TargetStatus.running "" none r.marked s in
      let mark = update_target-Writes t.id TargetStatus.running "" none r.marked s t refl l in
      let keep = adjust_target-Writes t.id (with_dsl answer.0) marked (with_dsl-id answer.0) in
      let both = Writes-trans t.id 0 0 running (with_dsl answer.0) s marked _ mark keep in
      let now : lookup t.id (adjust_target t.id (with_dsl answer.0) marked).targets
          ≡ some (with_dsl answer.0 (running t)) =
        rw both.targets (lookup-adjust t.id (λ t'. with_dsl answer.0 (running t')) s.targets t l) in
      let (f, w, gone) =
        finish-Writes r t _ answer.1 (adjust_target t.id (with_dsl answer.0) marked) now in
      (_, Writes-trans t.id 0 1 _ f s _ _ both w, λ t'. gone _)
