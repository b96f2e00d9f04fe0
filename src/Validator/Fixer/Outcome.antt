-- ===== src/Validator/Fixer/Outcome.antt =====
-- internal/validator/fixer.go: what a repair leaves in the file.
use qtest.Prelude.{
  ℕ, zero, suc, ◌+◌, ◌≤◌, ◌≡◌, refl, String, true, false, arith, Bool-cases, inl, inr,
}
use qtest.Workspace.Generate.{Answer, got, refused}
use qtest.Validator.Fixer.{
  TestResult, FixResult, Effects, Attempted, write_failed, done, again, tried, written, attempt,
  restored, after, fix_loop, fix_test,
}

module _ (e : Effects) where
  -- A run of the code in some attempt that passed.
  abbrev pub HasPassed : String → Type 0
  HasPassed code = (a : ℕ) × (r : TestResult) × (e.run a code ≡ got r) × (r.passed ≡ true)

  -- After a repair of a file with the code: a fix is in the file and has passed, and without one the
  -- file is restored; no more than three attempts are made.
  abbrev pub Leaves : String → Answer FixResult × String → Type 0
  Leaves code (refused message, file) = Unit
  Leaves code (got r, file) =
      (r.attempts ≤ 3)
      × (r.fixed ≡ true → (file ≡ r.new_code) × HasPassed file)
      × (r.fixed ≡ false → e.restore ≡ got tt → file ≡ code)

  Good : Attempted → Type 0
  Good (done code explanation) = HasPassed code
  Good _ = Unit

  tried-Good :
      (a : ℕ) (code explanation current : String) (result : TestResult) (x : Answer TestResult)
      → e.run a code ≡ x
      → Good (tried e code explanation current result x)
  unfolding tried Good
  tried-Good a code explanation current result (refused m) h = tt
  tried-Good a code explanation current result (got r) h = elim (Bool-cases r.passed) [
    | inl ok ↦ rw ok (a, r, h, ok)
    | inr bad ↦ rw bad tt
  ]

  written-Good :
      (a : ℕ) (code explanation current : String) (result : TestResult) (x : Answer (Unit {0}))
      → Good (written e a code explanation current result x)
  unfolding written Good
  written-Good a code explanation current result (refused m) = tt
  written-Good a code explanation current result (got t) =
      tried-Good a code explanation current result (e.run a code) refl

  attempt-Good :
      (a : ℕ) (current : String) (result : TestResult) (file : String)
      (x : Answer (String × String))
      → Good (attempt e a current result file x)
  unfolding attempt Good
  attempt-Good a current result file (refused m) = tt
  attempt-Good a current result file (got (code, explanation)) =
      written-Good a code explanation current result (e.write a)

  restored-code :
      (code file : String) (x : Answer (Unit {0})) → x ≡ got tt → restored e code file x ≡ code
  restored-code code file (got t) h = refl
  restored-code code file (refused m) h = cc

  after-Leaves :
      (code : String) (a : ℕ) (x : Attempted)
      (next : String → TestResult → String → Answer FixResult × String)
      → a ≤ 3
      → Good x
      → ((c : String) (r : TestResult) (f : String) → Leaves code (next c r f))
      → Leaves code (after e a x next)
  unfolding Good
  after-Leaves code a (write_failed m) next less g h = tt
  after-Leaves code a (done c m) next less g h = (less, (λ f. (refl, g)), λ f. cc)
  after-Leaves code a (again c r f) next less g h = h c r f

  fix_loop-Leaves :
      (code : String) (n a : ℕ) (current : String) (result : TestResult) (file : String)
      → n + a ≡ 3
      → Leaves code (fix_loop e code n a current result file)
  unfolding fix_loop
  fix_loop-Leaves code zero a current result file s =
      (omega arith, (λ h. cc), λ h r. restored-code code file e.restore r)
  fix_loop-Leaves code (suc n) a current result file s =
      after-Leaves code (suc a)
        (attempt e (suc a) current result file (e.generate (suc a) current result))
        (fix_loop e code n (suc a)) (omega (arith, s))
        (attempt-Good (suc a) current result file (e.generate (suc a) current result))
        (λ c r f. fix_loop-Leaves code n (suc a) c r f (omega (arith, s)))

  -- A repair that has no error makes at most three attempts. If it says that the test is fixed, the
  -- file holds its new code, which passed a run; if not, and the file can be written, the file holds
  -- the code that it had at the start.
  pub fix_test-Leaves :
      (result : TestResult) (file : String)
      → e.read ≡ got file
      → Leaves file (fix_test e result file)
  unfolding fix_test
  fix_test-Leaves result file readable =
      rw readable (fix_loop-Leaves file 3 0 file result file refl)
