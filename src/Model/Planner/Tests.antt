-- ===== src/Model/Planner/Tests.antt =====
-- Plans of pkg/model/planner.go.
use mathlib.Core.List.{Perm}
use qtest.Prelude.Sort.{IsOrder}
use qtest.Prelude.{
  arith, select, ℕ, ◌≤◌, ◌≡◌, ◌⊎◌, String, true, false, List, [], ◌∷◌, ◌++◌, map, ltb, leb,
}
use qtest.Prelude.Int.{ℤ}
use qtest.Model.Types.{Function, Endpoint, SystemModel}
use qtest.Model.Planner.{Scores, PlannerConfig, api_intent, plan}
use qtest.Model.Planner.Counts.{IsCounted, plan-IsCounted}
use qtest.Model.Planner.Targets.{intent_for, is_wanted, RiskFirst, limited, plan-wanted}

-- Scores in percent.
abbrev percents : Scores ℕ
percents = record { zero = 0; greater = λ a b. ltb b a; at_least = λ a b. leb b a; text = λ s. "" }

abbrev config : PlannerConfig ℕ
config = record { high_risk_threshold = 70; medium_risk_threshold = 40; max_intents = 2 }

abbrev function : String → Function
function name = record {
  id = name;
  name = name;
  module_id = "";
  file = "a.go";
  start_line = ℤ.pos 1;
  end_line = ℤ.pos 9;
  parameters = [];
  returns = [];
  class = "";
  receiver = "";
  decorators = [];
  exported = true;
  async = false;
  pure = false;
  body = "";
  doc_comment = "";
  complexity = ℤ.pos 1;
  loc = ℤ.pos 9;
}

abbrev endpoint : Endpoint
endpoint = record {
  id = "e1";
  method = "GET";
  path = "/";
  handler = "Index";
  file = "a.go";
  line = ℤ.pos 20;
  path_params = [];
  query_params = [];
  request_body = "";
  response_body = "";
  framework = "gin";
  middleware = [];
}

-- A handler, two functions and one that is not exported.
abbrev small_model : SystemModel ℕ
small_model = record {
  id = "m1";
  repository = "r1";
  branch = "main";
  commit_sha = "";
  created_at = ℤ.pos 0;
  modules = [];
  types = [];
  events = [];
  call_graph = [];
  test_targets = [];
  languages = [];
  functions =
      function "Index"
      ∷ function "Parse"
      ∷ function "Print"
      ∷ record (function "helper") { exported = false }
      ∷ [];
  endpoints = endpoint ∷ [];
  risk_scores = ("Print", 80) ∷ [];
}

plan-IsCounted_example :
    IsCounted (plan percents config small_model)
    × ((config.max_intents ≡ 0) ⊎ ((plan percents config small_model).total_tests ≤ 2))
plan-IsCounted_example = plan-IsCounted percents config small_model

percents-IsOrder : IsOrder percents.greater
percents-IsOrder = record { asymmetric = λ a b h. ground arith; weak = λ a b c h k. ground arith }

plan-wanted_example :
    (units : List Function) × ((plan percents config small_model).intents
      ≡ limited 2 (
          map api_intent small_model.endpoints
          ++ map (intent_for percents config small_model) units))
    × Perm units (select (is_wanted small_model) small_model.functions)
    × RiskFirst percents config small_model units
plan-wanted_example = plan-wanted percents config small_model percents-IsOrder
