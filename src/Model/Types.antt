-- ===== src/Model/Types.antt =====
-- pkg/model/model.go and pkg/model/intent.go: the model of a code base, and test plans. A risk score is a float64, whose type is a parameter.
use qtest.Prelude.{
  ℕ, String, Bool, Option, none, some, List, [], ◌∷◌, if◌then◌else◌, str_eq, length,
}
use qtest.Prelude.Int.{ℤ}

pub record Parameter : Type 0 where
  pub name : String
  pub type_name : String
  pub optional : Bool
  pub default : String

pub record Function : Type 0 where
  pub id : String
  pub name : String
  pub module_id : String
  pub file : String
  pub start_line : ℤ
  pub end_line : ℤ
  pub parameters : List Parameter
  pub returns : List Parameter
  pub class : String
  pub receiver : String
  pub decorators : List String
  pub exported : Bool
  pub async : Bool
  pub pure : Bool
  pub body : String
  pub doc_comment : String
  pub complexity : ℤ
  pub loc : ℤ

pub record Endpoint : Type 0 where
  pub id : String
  pub method : String
  pub path : String
  pub handler : String
  pub file : String
  pub line : ℤ
  pub path_params : List String
  pub query_params : List String
  pub request_body : String
  pub response_body : String
  pub framework : String
  pub middleware : List String

pub record Module : Type 0 where
  pub id : String
  pub name : String
  pub path : String
  pub language : String
  pub files : List String

pub record Field : Type 0 where
  pub name : String
  pub type_name : String
  pub exported : Bool
  pub tags : String

pub data TypeKind : Type 0 where
  struct_kind class_kind interface_kind enum_kind alias_kind : TypeKind

pub record TypeDef : Type 0 where
  pub id : String
  pub name : String
  pub kind : TypeKind
  pub module_id : String
  pub file : String
  pub line : ℤ
  pub fields : List Field
  pub methods : List String
  pub extends : String
  pub implements : List String
  pub exported : Bool

pub record Event : Type 0 where
  pub id : String
  pub name : String
  pub kind : String
  pub handler : String
  pub file : String
  pub line : ℤ

pub record CallEdge : Type 0 where
  pub caller : String
  pub callee : String
  pub file : String
  pub line : ℤ

pub data TargetKind : Type 0 where
  unit_target integration_target api_target e2e_target : TargetKind

pub record TestTarget {ℓ} (S : Type ℓ) : Type ℓ where
  pub id : String
  pub kind : TargetKind
  pub function_id : String
  pub endpoint_id : String
  pub priority : ℕ
  pub risk_score : S
  pub reason : String

-- `risk_scores` has the value `Score` of each `RiskScore`; its parts are read by no other code.
pub record SystemModel {ℓ} (S : Type ℓ) : Type ℓ where
  pub id : String
  pub repository : String
  pub branch : String
  pub commit_sha : String
  pub created_at : ℤ
  pub modules : List Module
  pub functions : List Function
  pub types : List TypeDef
  pub endpoints : List Endpoint
  pub events : List Event
  pub call_graph : List CallEdge
  pub risk_scores : List (String × S)
  pub test_targets : List (TestTarget S)
  pub languages : List String

pub data TestLevel : Type 0 where
  unit api e2e : TestLevel
  other : String → TestLevel

pub data Priority : Type 0 where
  critical high medium low unset : Priority

pub record TestIntent : Type 0 where
  pub id : String
  pub level : TestLevel
  pub target_kind : String
  pub target_id : String
  pub priority : Priority
  pub reason : String

pub record TestPlan : Type 0 where
  pub model_id : String
  pub repository : String
  pub total_tests : ℕ
  pub unit_tests : ℕ
  pub api_tests : ℕ
  pub e2e_tests : ℕ
  pub intents : List TestIntent

-- The counts of `Stats`, by their keys.
pub record Stats : Type 0 where
  pub modules : ℕ
  pub functions : ℕ
  pub types : ℕ
  pub endpoints : ℕ
  pub events : ℕ
  pub test_targets : ℕ

unfoldable pub stats {ℓ} : {S : Type ℓ} → SystemModel S → Stats
stats m = record {
  modules = length m.modules;
  functions = length m.functions;
  types = length m.types;
  endpoints = length m.endpoints;
  events = length m.events;
  test_targets = length m.test_targets;
}

-- `GetFunction`
unfoldable pub get_function : String → List Function → Option Function
get_function k [] = none
get_function k (f ∷ fs) = if str_eq f.id k then some f else get_function k fs

unfoldable pub get_exported_functions : List Function → List Function
get_exported_functions [] = []
get_exported_functions (f ∷ fs) =
    let rest = get_exported_functions fs in if f.exported then f ∷ rest else rest
