-- ===== src/Generator/Validator/Valid.antt =====
-- What internal/generator/irspec_validator.go accepts.
use qtest.Prelude.{
  ℕ, suc, ◌≡◌, refl, ◌∙◌, inl, inr, String, Bool, true, false, not, ◌&&◌, ◌||◌, Option, none, some,
  List, [], ◌∷◌, arith, str_eq, str_eq_iff, Bool-cases, if◌then◌else◌,
}
use Prim.Native.String.{◌++◌ as append_text}
use qtest.Generator.Spec.{Value, IrVariable, IrAction, IrAssertion, IrTestCase, IrTestSuite}
use qtest.Generator.Validator
use qtest.Generator.Validator.{
  ValidationResult, add_error, add_warning, error_if, warning_if, add_warning_at, member,
  valid_types, valid_assertions, comparisons, requires_expected, is_null, names, value_warning,
  validate_value_type, validate_variable, validate_given, validate_args, validate_references,
  validate_when, validate_assertion, validate_assertions, validate_then, validate_test_case,
  validate_test_cases, validate_tests, validate_function_name, validate,
}
use qtest.Generator.Validator.Texts.{has_whitespace, is_valid_identifier, references}

unfoldable pub every {ℓ} : {A : Type ℓ} → (A → Bool) → List A → Bool
every p [] = true
every p (x ∷ xs) = p x && every p xs

abbrev pub some_of {ℓ} : {A : Type ℓ} → List A → Bool
some_of [] = false
some_of (x ∷ xs) = true

unfoldable pub unrepeated : List String → Bool
unrepeated [] = true
unrepeated (x ∷ xs) = not (member x xs) && unrepeated xs

module _ {ℓ} {S : Type ℓ} where
  abbrev pub variable_ok : IrVariable S → Bool
  variable_ok v =
      not (str_eq v.name "") && (str_eq v.type_hint "" || member v.type_hint valid_types)

  abbrev pub assertion_ok : IrAssertion S → Bool
  assertion_ok x =
      member x.assertion_type valid_assertions
      && not (str_eq x.actual "")
      && not (member x.assertion_type comparisons && is_null x.expected)

  -- A test has a name, named variables with known hints and no name twice, a call whose arguments are
  -- variables, and assertions that are complete.
  unfoldable pub test_ok : IrTestCase S → Bool
  test_ok tc =
      not (str_eq tc.name "")
      && (every variable_ok tc.given && unrepeated (names tc.given))
      && (not (str_eq tc.action.call "")
          && every (λ arg. member arg (names tc.given)) tc.action.args)
      && (some_of tc.assertions && every assertion_ok tc.assertions)

  unfoldable pub suite_ok : IrTestSuite S → Bool
  suite_ok suite =
      (not (str_eq suite.function_name "") && not (has_whitespace suite.function_name))
      && (some_of suite.tests && every test_ok suite.tests)

valid-error_if :
    (b : Bool) (f m v : String) (r : ValidationResult)
    → (error_if b f m v r).valid ≡ r.valid && not b
valid-error_if b f m v r = ground arith

valid-warning_if :
    (b : Bool) (f m v : String) (r : ValidationResult) → (warning_if b f m v r).valid ≡ r.valid
valid-warning_if b f m v r = ground arith

ruleset issues = (valid-error_if, valid-warning_if)

add_warning_at-valid :
    (prefix : String) (o : Option (String × String × String)) (r : ValidationResult)
    → (add_warning_at prefix o r).valid ≡ r.valid
add_warning_at-valid prefix none r = refl
add_warning_at-valid prefix (some w) r = refl

-- The names that stand in no list of others.
abbrev apart : List String → List String → Bool
apart seen [] = true
apart seen (x ∷ xs) = not (member x seen) && apart seen xs

abbrev fresh : List String → List String → Bool
fresh seen [] = true
fresh seen (x ∷ xs) = not (member x seen) && fresh (x ∷ seen) xs

apart-cons :
    (x : String) (seen ys : List String) → apart (x ∷ seen) ys ≡ not (member x ys) && apart seen ys
unfolding member
apart-cons x seen [] = refl
apart-cons x seen (y ∷ ys) = ground (arith, apart-cons x seen ys, str_eq_iff x y, str_eq_iff y x)

fresh-apart : (seen xs : List String) → fresh seen xs ≡ apart seen xs && unrepeated xs
unfolding unrepeated
fresh-apart seen [] = refl
fresh-apart seen (x ∷ xs) = ground (arith, fresh-apart (x ∷ seen) xs, apart-cons x seen xs)

apart-nil : (xs : List String) → apart [] xs ≡ true
unfolding member
apart-nil [] = refl
apart-nil (x ∷ xs) = apart-nil xs

fresh-unrepeated : (xs : List String) → fresh [] xs ≡ unrepeated xs
fresh-unrepeated xs = ground (arith, fresh-apart [] xs, apart-nil xs)

module _ {ℓ} {S : Type ℓ} (is_whole : S → Bool) (index : ℕ → String) where
  validate_value_type-valid :
      (v : Value S) (hint prefix : String) (r : ValidationResult)
      → (validate_value_type is_whole index v hint prefix r).valid ≡ r.valid
  unfolding validate_value_type
  validate_value_type-valid v hint prefix r =
      add_warning_at-valid prefix (value_warning is_whole index v hint) r

  validate_variable-valid :
      (seen : List String) (v : IrVariable S) (prefix : String) (r : ValidationResult)
      → (validate_variable is_whole index seen v prefix r).valid
        ≡ r.valid
          && (not (member v.name seen) && (str_eq v.type_hint "" || member v.type_hint valid_types))
  unfolding validate_variable
  validate_variable-valid seen v prefix r =
      let field = append_text prefix ".name" in
      let r1 = error_if (member v.name seen) field "duplicate variable name" v.name r in
      let r2 =
        warning_if (not (is_valid_identifier v.name)) field
          "variable name may not be a valid identifier" v.name r1 in
      ground (
        arith,
        validate_value_type-valid v.value v.type_hint prefix (
            error_if (not (member v.type_hint valid_types)) (append_text prefix ".type")
              "invalid type hint" v.type_hint r2),
      )

  validate_given-valid :
      (seen : List String) (i : ℕ) (vs : List (IrVariable S)) (prefix : String)
      (r : ValidationResult)
      → (validate_given is_whole index seen i vs prefix r).valid
        ≡ r.valid && (every variable_ok vs && fresh seen (names vs))
  unfolding validate_given every names
  validate_given-valid seen i [] prefix r = ground arith
  validate_given-valid seen i (v ∷ vs) prefix r =
      validate_given-valid (if str_eq v.name "" then seen else v.name ∷ seen) (suc i) vs prefix _
      ∙ elim (Bool-cases (str_eq v.name "")) [
        | inl nameless ↦ rw nameless (ground arith)
        | inr named ↦ rw named (
            ground (
              arith,
              validate_variable-valid seen v (Validator.at is_whole index prefix ".given" i) r,
            ))
      ]

  validate_args-valid :
      (available : List String) (i : ℕ) (args : List String) (prefix : String)
      (r : ValidationResult)
      → (validate_args is_whole index available i args prefix r).valid
        ≡ r.valid && every (λ arg. member arg available) args
  unfolding validate_args every
  validate_args-valid available i [] prefix r = ground arith
  validate_args-valid available i (arg ∷ args) prefix r =
      validate_args-valid available (suc i) args prefix _ ∙ ground arith

  validate_references-valid :
      (available xs : List String) (prefix : String) (r : ValidationResult)
      → (validate_references is_whole index available xs prefix r).valid ≡ r.valid
  unfolding validate_references
  validate_references-valid available [] prefix r = refl
  validate_references-valid available (x ∷ xs) prefix r =
      validate_references-valid available xs prefix _ ∙ ground arith

  validate_when-valid :
      (action : IrAction) (prefix : String) (given : List (IrVariable S)) (r : ValidationResult)
      → (validate_when is_whole index action prefix given r).valid
        ≡ r.valid
          && (not (str_eq action.call "") && every (λ arg. member arg (names given)) action.args)
  unfolding validate_when
  validate_when-valid action prefix given r =
      validate_references-valid (names given) (references action.call) _ _
      ∙ validate_args-valid (names given) 0 action.args _ _
      ∙ ground arith

  -- The empty text is no assertion.
  untyped_invalid : (t : String) → str_eq t "" ≡ true → member t valid_assertions ≡ false
  unfolding member
  untyped_invalid t e = let empty : t ≡ "" = (str_eq_iff t "").0 e in rw empty refl

  validate_assertion-valid :
      (x : IrAssertion S) (p : String) (r : ValidationResult)
      → (validate_assertion is_whole index x p r).valid ≡ r.valid && assertion_ok x
  unfolding validate_assertion requires_expected
  validate_assertion-valid x p r = ground (arith, untyped_invalid x.assertion_type)

  validate_assertions-valid :
      (i : ℕ) (xs : List (IrAssertion S)) (prefix : String) (r : ValidationResult)
      → (validate_assertions is_whole index i xs prefix r).valid ≡ r.valid && every assertion_ok xs
  unfolding validate_assertions every
  validate_assertions-valid i [] prefix r = ground arith
  validate_assertions-valid i (x ∷ xs) prefix r =
      validate_assertions-valid (suc i) xs prefix _
      ∙ ground (arith, validate_assertion-valid x (Validator.at is_whole index prefix ".then" i) r)

  validate_then-valid :
      (xs : List (IrAssertion S)) (prefix : String) (r : ValidationResult)
      → (validate_then is_whole index xs prefix r).valid
        ≡ r.valid && (some_of xs && every assertion_ok xs)
  unfolding validate_then
  validate_then-valid [] prefix r = ground arith
  validate_then-valid (x ∷ xs) prefix r = validate_assertions-valid 0 (x ∷ xs) prefix r

  validate_test_case-valid :
      (seen : List String) (tc : IrTestCase S) (prefix : String) (r : ValidationResult)
      → (validate_test_case is_whole index seen tc prefix r).valid ≡ r.valid && test_ok tc
  unfolding validate_test_case test_ok
  validate_test_case-valid seen tc prefix r =
      let field = append_text prefix ".name" in
      let named =
        if str_eq tc.name ""
        then add_error field "test name is required" "" r
        else warning_if (member tc.name seen) field "duplicate test name" tc.name r in
      let given = validate_given is_whole index [] 0 tc.given prefix named in
      validate_then-valid tc.assertions prefix
        (validate_when is_whole index tc.action prefix tc.given given)
      ∙ ground (
        arith,
        validate_when-valid tc.action prefix tc.given given,
        validate_given-valid [] 0 tc.given prefix named,
        fresh-unrepeated (names tc.given),
      )

  validate_test_cases-valid :
      (seen : List String) (i : ℕ) (tcs : List (IrTestCase S)) (r : ValidationResult)
      → (validate_test_cases is_whole index seen i tcs r).valid ≡ r.valid && every test_ok tcs
  unfolding validate_test_cases every
  validate_test_cases-valid seen i [] r = ground arith
  validate_test_cases-valid seen i (tc ∷ tcs) r =
      validate_test_cases-valid (if str_eq tc.name "" then seen else tc.name ∷ seen) (suc i) tcs _
      ∙ ground
          (arith, validate_test_case-valid seen tc (Validator.at is_whole index "tests" "" i) r)

  validate_tests-valid :
      (tcs : List (IrTestCase S)) (r : ValidationResult)
      → (validate_tests is_whole index tcs r).valid ≡ r.valid && (some_of tcs && every test_ok tcs)
  unfolding validate_tests
  validate_tests-valid [] r = ground arith
  validate_tests-valid (tc ∷ tcs) r = validate_test_cases-valid [] 0 (tc ∷ tcs) r

  -- A suite is valid if and only if it has a name without white space and tests, each of them with a
  -- name, with named variables whose hints are known and whose names differ, with a call whose
  -- arguments are among them, and with complete assertions.
  pub validate-valid :
      (suite : IrTestSuite S) → (validate is_whole index (some suite)).valid ≡ suite_ok suite
  unfolding validate validate_function_name suite_ok
  validate-valid suite =
      validate_tests-valid suite.tests
        (validate_function_name suite (record { errors = []; warnings = []; valid = true }))
      ∙ ground arith
