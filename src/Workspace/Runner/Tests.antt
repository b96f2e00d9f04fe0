-- ===== src/Workspace/Runner/Tests.antt =====
-- Runs of internal/workspace/runner.go.
use Prim.Native.String.{◌++◌ as append_text}
use qtest.Prelude.{
  arith, ℕ, ◌+◌, ◌≡◌, refl, String, Bool, true, false, Option, none, some, List, [], ◌∷◌, str_eq,
  if◌then◌else◌,
}
use qtest.Prelude.Int.{ℤ}
use qtest.Prelude.Assoc.{insert, erase, lookup}
use qtest.Workspace.Targets.{
  Phase, WorkspaceState, ParsedFunction, new_state, add_targets, get_next_target, nth_of, adjust,
  update_target,
}
use qtest.Workspace.Targets.Maps.{WellKeyed, pending_count}
use qtest.Workspace.Targets.Added.{add_targets-WellKeyed}
use qtest.Workspace.Generate.{
  Tools, got, refused, ask, find_function, found, func_code, text_of, generate_test, write_test,
  generated, save_file,
}
use qtest.Workspace.Runner.{
  RunConfig, Round, Workspace, run_sequential, one_round, one_target, finish, after_loop, run,
  resume,
}
use qtest.Workspace.Runner.Ends.{Ended, run_sequential-ends}
use qtest.Workspace.Runner.Phases.{run-resume}

abbrev function : String → ℕ → ParsedFunction
function name line = record {
  id = "";
  name = name;
  start_line = line;
  end_line = line;
  exported = true;
}

-- Two functions of a file, the second of which the router refuses.
abbrev functions : List ParsedFunction
functions = function "Parse" 1 ∷ function "Print" 2 ∷ []

abbrev tools : Tools
tools = record {
  read_file = λ path. got "source";
  parse_content = λ path content. got functions;
  split_lines = λ text. "func Parse" ∷ "func Print" ∷ [];
  complete = λ code name path. if str_eq name "Print" then refused "no provider" else got code;
  parse_dsl_output = λ text. text;
  decode = λ yaml. got yaml;
  adapter = λ path. some (λ yaml. got (append_text "test of " yaml));
  test_path = λ path. append_text path "_test";
  dsl_path = λ path. append_text path ".yaml";
  make_dir = λ path. got tt;
  write_file = λ path content. got tt;
}

abbrev rounds : Bool → ℕ → Round
rounds cancelled i = record {
  cancelled = cancelled;
  choice = i;
  tools = tools;
  marked = ℤ.pos i;
  finished = ℤ.pos (i + 1);
  commit = got "c0ffee";
  save_error = none;
}

abbrev config : ℤ → RunConfig
config workers = record { commit_each = true; dry_run = false; max_concurrent = workers }

abbrev start : Workspace
start = record {
  state = add_targets (λ path line name. append_text path name) functions "a.go" new_state;
  disk = none;
}

start-WellKeyed : WellKeyed start.state.targets
unfolding new_state
start-WellKeyed =
    add_targets-WellKeyed (λ path line name. append_text path name) functions "a.go" new_state
      (record { unique = tt; own = tt })

abbrev counts : Option (Option String × Workspace) → Option (ℕ × ℕ × ℕ)
counts none = none
counts (some (e, ws)) = some (ws.state.completed, ws.state.failed, pending_count ws.state.targets)

-- Three rounds complete one target and fail the other.
start-ends : counts (run_sequential (config (ℤ.pos 1)) 3 (rounds false) 0 start) ≡ some (1, 1, 0)
unfolding run_sequential new_state add_targets get_next_target nth_of adjust one_round one_target
    finish update_target generate_test ask find_function found func_code text_of write_test
    generated save_file insert erase lookup
start-ends = refl

two_pending : pending_count start.state.targets ≡ 2
unfolding new_state add_targets insert erase
two_pending = refl

run_sequential-ends_example :
    (e : Option String) × (ws' : Workspace) × (run_sequential
        (config (ℤ.pos 1))
        3
        (rounds false)
        0
        start
      ≡ some (e, ws'))
    × Ended (rounds false) e start.state ws'.state
run_sequential-ends_example =
    run_sequential-ends (config (ℤ.pos 1)) 3 (rounds false) 0 start start-WellKeyed
      (omega (arith, two_pending))

-- What a run with a context that is done leaves.
abbrev stopped : Workspace
stopped = record { state = state; disk = some state }
  where
    state : WorkspaceState
    state = record start.state { phase = Phase.completed; started_at = some (ℤ.pos 5) }

run_stops : run (config (ℤ.pos 1)) 3 (rounds true) none (ℤ.pos 5) start ≡ some (none, stopped)
unfolding run run_sequential after_loop
run_stops = refl

run-resume_example :
    resume (config (ℤ.pos 1)) 3 (rounds false) none (ℤ.pos 9) stopped
    ≡ some (some "workspace not paused", stopped)
run-resume_example =
    run-resume (config (ℤ.pos 1)) 3 (rounds true) none (ℤ.pos 5) start stopped run_stops 3
      (rounds false) none (ℤ.pos 9)
