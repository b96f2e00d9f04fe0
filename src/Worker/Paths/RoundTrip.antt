-- ===== src/Worker/Paths/RoundTrip.antt =====
-- internal/worker/workers.go: from a source to its file of tests and back.
use Prim.Native.String.{◌++◌, len}
use text.Mathlib.TextPositions.{len-append, slice-append_right, starts_with-append}
use text.Mathlib.TextLemmas.{append_assoc}
use qtest.Prelude.{
  ◌<◌, Bool, Bool-cases, ◌&&◌, ◌≡◌, refl, sym, ap, ◌∙◌, String, true, false, arith, inl, inr,
  str_eq, str_eq_iff,
}
use qtest.Prelude.Texts.{has_suffix, trim_suffix, stem-append, has_suffix-append, has_suffix-other}
use qtest.Worker.Paths.{
  Paths, test_file_name, test_path_in, test_path, source_name, derive_source_path,
}

-- The extensions that the generation worker writes tests for.
pub data SourceExt : String → Type 0 where
  go_ext : SourceExt ".go"
  py_ext : SourceExt ".py"
  ts_ext : SourceExt ".ts"
  js_ext : SourceExt ".js"

and_false : (b : Bool) → b && false ≡ false
and_false true = refl
and_false false = refl

source_name-go : (name : String) → source_name (name ++ "_test.go") ≡ name ++ ".go"
unfolding source_name
source_name-go name = rw (has_suffix-append, stem-append) refl

-- A name does not end on the test suffix of Go if it ends on an extension of another language.
no_go : (s t : String) → len t ≡ 3 → str_eq ".go" t ≡ false → has_suffix (s ++ t) "_test.go" ≡ false
no_go s t n other = has_suffix-other s t "_test" ".go" (sym n) other

source_name-py : (name : String) → source_name ("test_" ++ (name ++ ".py")) ≡ name ++ ".py"
unfolding source_name
source_name-py name =
    let split = append_assoc "test_" name ".py" in
    let not_go =
      ap (λ s. has_suffix s "_test.go") (sym split) ∙ no_go ("test_" ++ name) ".py" refl refl in
    let ends =
      ap (λ s. has_suffix s ".py") (sym split) ∙ has_suffix-append ("test_" ++ name) ".py" in
    rw (not_go, starts_with-append, ends, len-append) (slice-append_right "test_" (name ++ ".py"))

source_name-ts : (name : String) → source_name (name ++ ".test.ts") ≡ name ++ ".ts"
unfolding source_name
source_name-ts name =
    let split = append_assoc name ".test" ".ts" in
    let not_go =
      ap (λ s. has_suffix s "_test.go") (sym split) ∙ no_go (name ++ ".test") ".ts" refl refl in
    let not_py =
      ap (λ s. has_suffix s ".py") (sym split)
      ∙ has_suffix-other (name ++ ".test") ".ts" "" ".py" refl refl in
    rw (not_go, not_py, and_false, has_suffix-append, stem-append) refl

source_name-js : (name : String) → source_name (name ++ ".test.js") ≡ name ++ ".js"
unfolding source_name
source_name-js name =
    let split = append_assoc name ".test" ".js" in
    let not_go =
      ap (λ s. has_suffix s "_test.go") (sym split) ∙ no_go (name ++ ".test") ".js" refl refl in
    let not_py =
      ap (λ s. has_suffix s ".py") (sym split)
      ∙ has_suffix-other (name ++ ".test") ".js" "" ".py" refl refl in
    let not_ts =
      ap (λ s. has_suffix s ".test.ts") (sym split)
      ∙ has_suffix-other (name ++ ".test") ".js" ".test" ".ts" refl refl in
    rw (not_go, not_py, and_false, not_ts, has_suffix-append, stem-append) refl

source_name-test_file_name :
    {ext : String} (name : String)
    → SourceExt ext
    → source_name (test_file_name ext name) ≡ name ++ ext
unfolding test_file_name
source_name-test_file_name name go_ext = source_name-go name
source_name-test_file_name name py_ext = source_name-py name
source_name-test_file_name name ts_ext = source_name-ts name
source_name-test_file_name name js_ext = source_name-js name

ext-len : {ext : String} → SourceExt ext → len ext ≡ 3
ext-len go_ext = refl
ext-len py_ext = refl
ext-len ts_ext = refl
ext-len js_ext = refl

not_empty : (s t : String) → 0 < len t → str_eq (s ++ t) "" ≡ false
not_empty s t more = elim (Bool-cases (str_eq (s ++ t) "")) [
  | inr other ↦ other
  | inl same ↦
      absurd (omega (arith, more, len-append s t, ap len ((str_eq_iff (s ++ t) "").0 same)))
]

trim_suffix-append : (s t : String) → trim_suffix (s ++ t) t ≡ s
unfolding trim_suffix
trim_suffix-append s t = rw (has_suffix-append, stem-append) refl

test_path_lem :
    (p : Paths) (d name ext : String)
    → p.dir (p.join d (name ++ ext)) ≡ d
    → p.base (p.join d (name ++ ext)) ≡ name ++ ext
    → p.ext (name ++ ext) ≡ ext
    → test_path p (p.join d (name ++ ext)) ≡ p.join d (test_file_name ext name)
unfolding test_path
test_path_lem p d name ext in_dir named ends =
    let source = p.join d (name ++ ext) in
    ap (λ d'. test_path_in p d' (p.base source)) in_dir
    ∙ ap (test_path_in p d) named
    ∙ ap (λ e. p.join d (test_file_name e (trim_suffix (name ++ ext) e))) ends
    ∙ ap (λ n. p.join d (test_file_name ext n)) (trim_suffix-append name ext)

-- The source of the file of tests that is written for a source is that source, for the four extensions
-- that tests are written for, if the functions on paths take the two paths apart as they were joined.
pub derive_source_path-test_path :
    (p : Paths) (d name ext : String)
    → SourceExt ext
    → p.dir (p.join d (name ++ ext)) ≡ d
    → p.base (p.join d (name ++ ext)) ≡ name ++ ext
    → p.ext (name ++ ext) ≡ ext
    → p.dir (p.join d (test_file_name ext name)) ≡ d
    → p.base (p.join d (test_file_name ext name)) ≡ test_file_name ext name
    → derive_source_path p (test_path p (p.join d (name ++ ext))) ≡ p.join d (name ++ ext)
unfolding derive_source_path
derive_source_path-test_path p d name ext source in_dir named ends in_dir' named' =
    let back = source_name-test_file_name name source in
    let full = not_empty name ext (omega (arith, ext-len source)) in
    ap (derive_source_path p) (test_path_lem p d name ext in_dir named ends)
    ∙ rw (in_dir', named', back, full) refl
