-- ===== src/Worker/Paths.antt =====
-- internal/worker/workers.go: the names of the files of tests. The functions of path/filepath are
-- parameters.
pub mod RoundTrip
mod Tests
use Prim.Native.String.{◌++◌}
use text.Mathlib.Text.{starts_with}
use qtest.Prelude.{String, Bool, true, false, ◌&&◌, ◌||◌, if◌then◌else◌, str_eq}
use qtest.Prelude.Texts.{has_suffix, trim_suffix, trim_prefix}

pub record Paths : Type 0 where
  pub dir : String → String
  pub base : String → String
  pub ext : String → String
  pub join : String → String → String

-- The name of the file of tests for a file's name without extension, in `writeTestFile`.
unfoldable pub test_file_name : String → String → String
test_file_name ext name =
    if str_eq ext ".go"
    then name ++ "_test.go"
    else if str_eq ext ".py"
    then "test_" ++ (name ++ ".py")
    else if str_eq ext ".ts"
    then name ++ ".test.ts"
    else if str_eq ext ".js"
    then name ++ ".test.js"
    else name ++ ("_test" ++ ext)

abbrev pub test_path_in : Paths → String → String → String
test_path_in p dir base =
    let ext = p.ext base in p.join dir (test_file_name ext (trim_suffix base ext))

unfoldable pub test_path : Paths → String → String
unfolding test_file_name trim_suffix
test_path p source = test_path_in p (p.dir source) (p.base source)

-- The switch of `deriveSourcePath`, which gives the empty name where it knows no source.
unfoldable pub source_name : String → String
unfolding has_suffix trim_suffix trim_prefix
source_name base =
    if has_suffix base "_test.go"
    then trim_suffix base "_test.go" ++ ".go"
    else if starts_with base "test_" && has_suffix base ".py"
    then trim_prefix base "test_"
    else if has_suffix base ".test.ts"
    then trim_suffix base ".test.ts" ++ ".ts"
    else if has_suffix base ".test.js"
    then trim_suffix base ".test.js" ++ ".js"
    else if has_suffix base ".spec.ts"
    then trim_suffix base ".spec.ts" ++ ".ts"
    else if has_suffix base ".spec.js"
    then trim_suffix base ".spec.js" ++ ".js"
    else ""

-- `deriveSourcePath`
unfoldable pub derive_source_path : Paths → String → String
unfolding source_name
derive_source_path p test =
    let name = source_name (p.base test) in if str_eq name "" then "" else p.join (p.dir test) name

-- Which files the generation worker takes for tests.
unfoldable pub is_test_file : String → Bool
unfolding has_suffix
is_test_file path =
    has_suffix path "_test.go"
    || has_suffix path "_test.py"
    || has_suffix path ".test.ts"
    || has_suffix path ".test.js"
    || has_suffix path ".spec.ts"
    || has_suffix path ".spec.js"

unfoldable pub detect_framework : String → String
unfolding has_suffix
detect_framework path =
    if has_suffix path "_test.go"
    then "go"
    else if has_suffix path ".py"
    then "pytest"
    else if has_suffix path ".ts" || has_suffix path ".js"
    then "jest"
    else "unknown"
