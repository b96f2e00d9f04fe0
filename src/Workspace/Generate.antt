-- ===== src/Workspace/Generate.antt =====
-- internal/workspace/runner.go: the test of one target. The file system, the parser, the prompt with
-- the router, the YAML codec, the adapters and the paths are parameters, with the answers they give.
use Prim.Native.String.{◌++◌ as append_text}
use qtest.Prelude.{
  ℕ, zero, suc, ◌-◌, ◌&&◌, String, Bool, Option, none, some, List, [], ◌∷◌, take, str_eq, ◌==◌,
  if◌then◌else◌,
}
use qtest.Workspace.Targets.{TargetState, ParsedFunction}

-- A result or the text of an error.
pub data Answer {ℓ} (A : Type ℓ) : Type ℓ where
  got : A → Answer A
  refused : String → Answer A

infixl 5 ◌>>=◌
abbrev pub ◌>>=◌ {ℓ κ} : {A : Type ℓ} {B : Type κ} → Answer A → (A → Answer B) → Answer B
got a >>= f = f a
refused e >>= f = refused e

-- `adapter` is the code generator for the language of a file, if there is one, and `decode` gives the
-- bytes that `target.DSL` is set to.
pub record Tools : Type 0 where
  pub read_file : String → Answer String
  pub parse_content : String → String → Answer (List ParsedFunction)
  pub split_lines : String → List String
  pub complete : String → String → String → Answer String
  pub parse_dsl_output : String → String
  pub decode : String → Answer String
  pub adapter : String → Option (String → Answer String)
  pub test_path : String → String
  pub dsl_path : String → String
  pub make_dir : String → Answer (Unit {0})
  pub write_file : String → String → Answer (Unit {0})

abbrev pub prefixed {ℓ} : {A : Type ℓ} → String → Answer A → Answer A
prefixed p (got a) = got a
prefixed p (refused e) = refused (append_text p e)

-- The first function with the name and the line of the target.
unfoldable pub find_function : String → ℕ → List ParsedFunction → Option ParsedFunction
find_function name line [] = none
find_function name line (fn ∷ fns) =
    if str_eq fn.name name && (fn.start_line == line) then some fn else find_function name line fns

abbrev pub drop {ℓ} : {A : Type ℓ} → ℕ → List A → List A
drop zero xs = xs
drop (suc n) [] = []
drop (suc n) (x ∷ xs) = drop n xs

unfoldable pub text_of : List String → String
text_of [] = ""
text_of (line ∷ lines) = append_text line (append_text "\n" (text_of lines))

-- The lines of a function, up to the end of the file at most.
unfoldable pub func_code : ParsedFunction → List String → String
func_code fn lines =
    text_of (take (fn.end_line - (fn.start_line - 1)) (drop (fn.start_line - 1) lines))

unfoldable pub found : String → Option ParsedFunction → Answer ParsedFunction
found name none = refused (append_text "function not found: " name)
found name (some fn) = got fn

module _ (tools : Tools) where
  -- The parts of `generateTest` up to the decoded test: the YAML and the bytes to keep.
  unfoldable pub ask : TargetState → Answer (String × String)
  ask target = do
    content ← prefixed "failed to read file: " (tools.read_file target.file)
    functions ← prefixed "failed to parse file: " (tools.parse_content target.file content)
    fn ← found target.name (find_function target.name target.line functions)
    response ←
        prefixed "LLM error: "
          (tools.complete (func_code fn (tools.split_lines content)) fn.name target.file)
    dsl ← prefixed "invalid DSL: " (tools.decode (tools.parse_dsl_output response))
    got (tools.parse_dsl_output response, dsl)

  unfoldable pub save_file : String → String → Answer String
  save_file path content = do _ ← tools.make_dir path; _ ← tools.write_file path content; got path

  -- `saveDSL`
  unfoldable pub save_dsl : TargetState → String → Answer String
  unfolding save_file
  save_dsl target yaml = save_file (tools.dsl_path target.file) yaml

  unfoldable pub generated : TargetState → String → Answer String → Answer String
  unfolding save_file save_dsl
  generated target yaml (refused e) = save_dsl target yaml
  generated target yaml (got code) = save_file (tools.test_path target.file) code

  unfoldable pub write_test : TargetState → String → Option (String → Answer String) → Answer String
  unfolding save_dsl generated
  write_test target yaml none = save_dsl target yaml
  write_test target yaml (some generate) = generated target yaml (generate yaml)

  -- `generateTest`: what it sets the target's DSL to, and the file that it wrote or its error.
  unfoldable pub generate_test : Bool → TargetState → Option String × Answer String
  unfolding ask write_test
  generate_test dry_run target = elim (ask target) [
    | refused e ↦ (none, refused e)
    | got answer ↦ (
      some answer.1,
      if dry_run then got "" else write_test target answer.0 (tools.adapter target.file),
    )
  ]
