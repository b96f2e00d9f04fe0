-- ===== src/Generator/Spec.antt =====
-- pkg/model/irspec.go: a test specification. Of a JSON value, its kind and its parts as text; a
-- number is a float64, whose type is a parameter.
use qtest.Prelude.{String, Bool, List}

pub data Value {ℓ} (S : Type ℓ) : Type ℓ where
  null : Value S
  number : S → Value S
  text : String → Value S
  boolean : Bool → Value S
  array object : String → Value S

pub record IrVariable {ℓ} (S : Type ℓ) : Type ℓ where
  pub name : String
  pub value : Value S
  pub type_hint : String

pub record IrAction : Type 0 where
  pub call : String
  pub args : List String

pub record IrAssertion {ℓ} (S : Type ℓ) : Type ℓ where
  pub assertion_type : String
  pub actual : String
  pub expected : Value S
  pub message : String

pub record IrTestCase {ℓ} (S : Type ℓ) : Type ℓ where
  pub name : String
  pub description : String
  pub given : List (IrVariable S)
  pub action : IrAction
  pub assertions : List (IrAssertion S)
  pub tags : List String

pub record IrTestSuite {ℓ} (S : Type ℓ) : Type ℓ where
  pub function_name : String
  pub description : String
  pub tests : List (IrTestCase S)
