-- ===== src/Worker/Validation/Counts.antt =====
-- internal/worker/workers.go: the counts of the validation worker, against its results.
use mathlib.Core.List.{append-nil, append_assoc}
use qtest.Prelude.{
  ℕ, suc, ◌+◌, ◌≡◌, refl, ap, ◌∙◌, String, Bool, true, false, Option, some, List, [], ◌∷◌, ◌++◌,
  map, arith, Bool-cases, Option-cases, inl, inr, length, length-append, if◌then◌else◌,
}
use qtest.Workspace.Generate.{Answer, got, refused}
use qtest.Validator.Fixer.{TestResult, FixResult}
use qtest.Worker.Validation.{
  TestStatus, validated, compile_error, test_failure, fixed, TestValidationRes, Tools, Tally,
  is_valid_status, validated_paths, result_for, passes, fails, repaired, failing, tested, id_at,
  ids_behind, go_on, validate, empty_tally,
}

abbrev pub file_of : TestValidationRes → String
file_of r = r.test_file

abbrev pub is_fixed : TestStatus → Bool
is_fixed fixed = true
is_fixed _ = false

abbrev pub count_fixed : List TestValidationRes → ℕ
count_fixed [] = 0
count_fixed (r ∷ rs) = (if is_fixed r.status then 1 else 0) + count_fixed rs

-- The results are those of the files in order; each is passed or failed, the passed ones are those that
-- are validated or fixed, and the fixed ones are counted.
pub record IsTallied (files : List String) (t : Tally) : Type 0 where
  pub files_in_order : map file_of t.results ≡ files
  pub all_counted : t.passed_tests + t.failed_tests ≡ length files
  pub passed_valid : length (validated_paths t.results) ≡ t.passed_tests
  pub fixed_counted : count_fixed t.results ≡ t.fixed_tests

map-append :
    (rs : List TestValidationRes) (r : TestValidationRes)
    → map file_of (rs ++ r ∷ []) ≡ map file_of rs ++ r.test_file ∷ []
map-append [] r = refl
map-append (x ∷ rs) r = ap (λ xs. x.test_file ∷ xs) (map-append rs r)

validated_paths-append :
    (rs : List TestValidationRes) (r : TestValidationRes)
    → length (validated_paths (rs ++ r ∷ []))
      ≡ length (validated_paths rs) + (if is_valid_status r.status then 1 else 0)
unfolding validated_paths
validated_paths-append [] r = ground arith
validated_paths-append (x ∷ rs) r = ground (arith, validated_paths-append rs r)

count_fixed-append :
    (rs : List TestValidationRes) (r : TestValidationRes)
    → count_fixed (rs ++ r ∷ []) ≡ count_fixed rs + (if is_fixed r.status then 1 else 0)
count_fixed-append [] r = ground arith
count_fixed-append (x ∷ rs) r = ground (arith, count_fixed-append rs r)

-- A tally that grows by one result whose counters go up with it.
IsTallied-append :
    (files : List String) (t : Tally) (r : TestValidationRes) (t' : Tally)
    → IsTallied files t
    → t'.results ≡ t.results ++ r ∷ []
    → t'.passed_tests ≡ t.passed_tests + (if is_valid_status r.status then 1 else 0)
    → t'.failed_tests ≡ t.failed_tests + (if is_valid_status r.status then 0 else 1)
    → t'.fixed_tests ≡ t.fixed_tests + (if is_fixed r.status then 1 else 0)
    → IsTallied (files ++ r.test_file ∷ []) t'
IsTallied-append files t r t' v e p f x = record {
  files_in_order =
      rw e (map-append t.results r ∙ ap (λ xs. xs ++ r.test_file ∷ []) v.files_in_order);
  all_counted = ground (arith, p, f, v.all_counted, length-append files (r.test_file ∷ []));
  passed_valid =
      rw (e, p)
        (validated_paths-append t.results r
          ∙ ap (λ n. n + (if is_valid_status r.status then 1 else 0)) v.passed_valid);
  fixed_counted =
      rw (e, x)
        (count_fixed-append t.results r
          ∙ ap (λ n. n + (if is_fixed r.status then 1 else 0)) v.fixed_counted);
}

-- The repair of a test, where there is one, has no error.
abbrev pub Repairs : Tools → Type 0
Repairs tools =
    (f : String → TestResult → Answer FixResult)
    → tools.fix ≡ some f
    → (file : String) (r : TestResult) → (x : FixResult) × (f file r ≡ got x)

abbrev Tallies : List String → Option Tally → Type 0
Tallies files o = (t : Tally) × (o ≡ some t) × IsTallied files t

go_on-Tallies :
    (done all : List String) (o : Option Tally) (next : Tally → Option Tally)
    → Tallies done o
    → ((t : Tally) → IsTallied done t → Tallies all (next t))
    → Tallies all (go_on o next)
go_on-Tallies done all o next (t, e, v) h = rw e (h t v)

module _ (tools : Tools) where
  passes-IsTallied :
      (files : List String) (t : Tally) (id file output message : String) (n : ℕ)
      → IsTallied files t
      → IsTallied (files ++ file ∷ []) (passes tools id file validated output message n t)
  passes-IsTallied files t id file output message n v =
      IsTallied-append files t (result_for tools id file validated output message n) _ v refl
        (omega arith) (omega arith) (omega arith)

  fails-IsTallied :
      (files : List String) (t : Tally) (id file : String) (status : TestStatus)
      (output message : String) (n : ℕ)
      → is_valid_status status ≡ false
      → IsTallied files t
      → IsTallied (files ++ file ∷ []) (fails tools id file status output message n t)
  fails-IsTallied files t id file status output message n bad v =
      IsTallied-append files t (result_for tools id file status output message n) _ v refl
        (rw bad (omega arith)) (rw bad (omega arith)) (ground (arith, bad))

  repaired-Tallies :
      (files : List String) (t : Tally) (id file output message : String) (r : FixResult)
      → IsTallied files t
      → Tallies (files ++ file ∷ []) (repaired tools id file output message (got r) t)
  unfolding repaired
  repaired-Tallies files t id file output message r v = elim (Bool-cases r.fixed) [
    | inl won ↦ (
      record (passes tools id file fixed r.explanation message r.attempts t) {
        fixed_tests = suc t.fixed_tests;
      },
      ap some (rw won refl),
      IsTallied-append files t (result_for tools id file fixed r.explanation message r.attempts) _ v
          refl (omega arith) (omega arith) (omega arith),
    )
    | inr lost ↦ (
      fails tools id file test_failure output message r.attempts t,
      ap some (rw lost refl),
      fails-IsTallied files t id file test_failure output message r.attempts refl v,
    )
  ]

  module _ (repairs : Repairs tools) where
    failing-Tallies :
        (files : List String) (t : Tally) (auto_fix : Bool) (id file : String) (r : TestResult)
        → IsTallied files t
        → Tallies (files ++ file ∷ []) (failing tools auto_fix id file r t)
    unfolding failing
    failing-Tallies files t false id file r v = (
      fails tools id file test_failure r.output (tools.format_errors r) 0 t,
      refl,
      fails-IsTallied files t id file test_failure r.output (tools.format_errors r) 0 refl v,
    )
    failing-Tallies files t true id file r v = elim (Option-cases tools.fix) [
      | inl absent ↦ rw absent (
        fails tools id file test_failure r.output (tools.format_errors r) 0 t,
        refl,
        fails-IsTallied files t id file test_failure r.output (tools.format_errors r) 0 refl v,
      )
      | inr (f, there) ↦
          let (x, e) = repairs f there file r in
          rw (there, e) (repaired-Tallies files t id file r.output (tools.format_errors r) x v)
    ]

    tested-Tallies :
        (files : List String) (t : Tally) (auto_fix : Bool) (id file : String)
        (a : Answer TestResult)
        → IsTallied files t
        → Tallies (files ++ file ∷ []) (tested tools auto_fix id file a t)
    unfolding tested
    tested-Tallies files t auto_fix id file (refused e) v = (
      fails tools id file compile_error "" e 0 t,
      refl,
      fails-IsTallied files t id file compile_error "" e 0 refl v,
    )
    tested-Tallies files t auto_fix id file (got r) v = elim (Bool-cases r.passed) [
      | inl won ↦ (
        passes tools id file validated r.output "" 0 t,
        rw won refl,
        passes-IsTallied files t id file r.output "" 0 v,
      )
      | inr lost ↦
          let (t', e, v') = failing-Tallies files t auto_fix id file r v in (t', simp lost e, v')
    ]

    validate-Tallies :
        (done files : List String) (t : Tally) (auto_fix : Bool) (ids : List String)
        → IsTallied done t
        → Tallies (done ++ files) (validate tools auto_fix ids files t)
    unfolding validate
    validate-Tallies done [] t auto_fix ids v = (t, refl, rw append-nil v)
    validate-Tallies done (file ∷ files) t auto_fix ids v =
        go_on-Tallies (done ++ file ∷ []) (done ++ (file ∷ files))
          (tested tools auto_fix (id_at ids) file (tools.run_tests file) t)
          (validate tools auto_fix (ids_behind ids) files)
          (tested-Tallies done t auto_fix (id_at ids) file (tools.run_tests file) v)
          (λ t' v'.
            rw (← append_assoc done (file ∷ []) files)
              (validate-Tallies (done ++ file ∷ []) files t' auto_fix (ids_behind ids) v'))

  -- If the repair of a test never has an error, the worker validates all files. It then has one result
  -- for each file, in the order of the files; as many tests passed as are validated or fixed, the
  -- others failed, and the fixed ones are counted.
  pub validate-IsTallied :
      (auto_fix : Bool) (ids files : List String)
      → Repairs tools
      → (t : Tally) × (validate tools auto_fix ids files empty_tally ≡ some t) × IsTallied files t
  validate-IsTallied auto_fix ids files repairs =
      validate-Tallies repairs [] files empty_tally auto_fix ids (record {
        files_in_order = refl;
        all_counted = refl;
        passed_valid = unfold validated_paths in refl;
        fixed_counted = refl;
      })
