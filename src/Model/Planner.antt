-- ===== src/Model/Planner.antt =====
-- pkg/model/planner.go: which tests a plan has. The comparisons of risk scores, which are float64,
-- and their text are parameters, and so are the two products that `PlanWithPyramid` truncates.
pub mod Counts
pub mod Targets
mod Tests
use Prim.Native.String.{◌++◌ as append_text}
use qtest.Prelude.{
  ℕ, suc, ◌+◌, ◌-◌, String, Bool, true, false, not, ◌&&◌, ◌||◌, Option, none, some, List, [], ◌∷◌,
  ◌++◌, map, ◌==◌, if◌then◌else◌, str_eq, ltb, leb, length, take, str_eq_iff,
}
use qtest.Prelude.Assoc.{Eq, lookup}
use qtest.Prelude.Sort.{order_by}
use qtest.Llm.Cache.{string_eq}
use qtest.Model.Types.{
  Function, Endpoint, SystemModel, TestIntent, TestPlan, TestLevel, unit, api, e2e, other, Priority,
  high, medium, low,
}

-- What the planner does with a score; `text` is the format `%.2f`.
pub record Scores {ℓ} (S : Type ℓ) : Type ℓ where
  pub zero : S
  pub greater : S → S → Bool
  pub at_least : S → S → Bool
  pub text : S → String

-- `max_intents` is not negative; 0 stands for no limit.
pub record PlannerConfig {ℓ} (S : Type ℓ) : Type ℓ where
  pub high_risk_threshold : S
  pub medium_risk_threshold : S
  pub max_intents : ℕ

abbrev pub api_intent : Endpoint → TestIntent
api_intent ep = record {
  id = append_text "intent:api:" ep.id;
  level = api;
  target_kind = "endpoint";
  target_id = ep.id;
  priority = high;
  reason = append_text "API endpoint: " (append_text ep.method (append_text " " ep.path));
}

unfoldable pub is_handler : List Endpoint → Function → Bool
is_handler [] f = false
is_handler (ep ∷ eps) f = str_eq ep.handler f.name || is_handler eps f

unfoldable pub count_level : (TestLevel → Bool) → List TestIntent → ℕ
count_level p [] = 0
count_level p (i ∷ is) = (if p i.level then 1 else 0) + count_level p is

abbrev pub is_unit : TestLevel → Bool
is_unit unit = true
is_unit _ = false

abbrev pub is_api : TestLevel → Bool
is_api api = true
is_api _ = false

abbrev pub is_e2e : TestLevel → Bool
is_e2e e2e = true
is_e2e _ = false

module _ {ℓ} {S : Type ℓ} (scores : Scores S) (config : PlannerConfig S) where
  abbrev pub priority_of : S → Priority
  priority_of score =
      if scores.at_least score config.high_risk_threshold
      then high
      else if scores.at_least score config.medium_risk_threshold
      then medium
      else low

  abbrev pub score_of : SystemModel S → Function → S
  score_of model f = elim (lookup f.id model.risk_scores) [ none ↦ scores.zero | some s ↦ s ]

  abbrev pub reason_of : Function → S → String
  reason_of f score =
      let risk = append_text " (risk: " (append_text (scores.text score) ")") in
      if str_eq f.class ""
      then append_text "Exported function" risk
      else append_text "Method " (append_text f.class (append_text "." (append_text f.name risk)))

  abbrev pub unit_intent : Function → S → String → TestIntent
  unit_intent f score reason = record {
    id = append_text "intent:unit:" f.id;
    level = unit;
    target_kind = "function";
    target_id = f.id;
    priority = priority_of score;
    reason = reason;
  }

  -- The exported functions with their scores.
  unfoldable pub scored : SystemModel S → List Function → List (Function × S)
  scored model [] = []
  scored model (f ∷ fs) =
      let rest = scored model fs in if f.exported then (f, score_of model f) ∷ rest else rest

  -- `sort.Slice`, which may order equal scores in any way.
  abbrev pub by_risk : Function × S → Function × S → Bool
  by_risk a b = scores.greater a.1 b.1

  unfoldable pub unit_intents : List Endpoint → List (Function × S) → List TestIntent
  unit_intents eps [] = []
  unit_intents eps ((f, score) ∷ rest) =
      let more = unit_intents eps rest in
      if is_handler eps f then more else unit_intent f score (reason_of f score) ∷ more

  -- The intents before the limit is applied.
  unfoldable pub all_intents : SystemModel S → List TestIntent
  unfolding scored unit_intents
  all_intents model =
      map api_intent model.endpoints
      ++ unit_intents model.endpoints (order_by by_risk (scored model model.functions))

  abbrev pub counted : SystemModel S → List TestIntent → TestPlan
  counted model intents = record {
    model_id = model.id;
    repository = model.repository;
    total_tests = length intents;
    unit_tests = count_level is_unit intents;
    api_tests = count_level is_api intents;
    e2e_tests = count_level is_e2e intents;
    intents = intents;
  }

  -- `Plan`. Without a limit the counters are those of the two loops.
  unfoldable pub plan : SystemModel S → TestPlan
  unfolding all_intents
  plan model =
      let intents = all_intents model in
      if ltb 0 config.max_intents && ltb config.max_intents (length intents)
      then counted model (take config.max_intents intents)
      else record {
        model_id = model.id;
        repository = model.repository;
        total_tests = length intents;
        unit_tests =
            length (unit_intents model.endpoints (order_by by_risk (scored model model.functions)));
        api_tests = length model.endpoints;
        e2e_tests = 0;
        intents = intents;
      }

  abbrev pub plain_reason : S → String
  plain_reason score = append_text "Exported function (risk: " (append_text (scores.text score) ")")

  -- The loop of `PlanWithPyramid` over the functions, with the number of tests still wanted.
  unfoldable pub pyramid_units : SystemModel S → ℕ → List Function → List TestIntent
  pyramid_units model left [] = []
  pyramid_units model left (f ∷ fs) =
      let skipped = not f.exported || is_handler model.endpoints f in
      let rest = pyramid_units model (if skipped then left else left - 1) fs in
      if left == 0
      then []
      else if skipped
      then rest
      else unit_intent f (score_of model f) (plain_reason (score_of model f)) ∷ rest

  -- `PlanWithPyramid`, for a total and ratios that are not negative: `target_api` and `target_e2e` are
  -- the truncated products. Where they are more than the total, no unit test is wanted.
  unfoldable pub plan_with_pyramid : SystemModel S → (total target_api target_e2e : ℕ) → TestPlan
  unfolding pyramid_units
  plan_with_pyramid model total target_api target_e2e =
      let apis = map api_intent (take target_api model.endpoints) in
      let units = pyramid_units model (total - target_api - target_e2e) model.functions in
      record {
        model_id = model.id;
        repository = model.repository;
        total_tests = length (apis ++ units);
        unit_tests = length units;
        api_tests = length apis;
        e2e_tests = 0;
        intents = apis ++ units;
      }
