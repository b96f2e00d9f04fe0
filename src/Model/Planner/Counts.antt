-- ===== src/Model/Planner/Counts.antt =====
-- The counters of the plans of pkg/model/planner.go.
use qtest.Prelude.{
  ℕ, suc, ◌+◌, ◌-◌, ◌≤◌, ◌≡◌, refl, sym, ◌∙◌, ap, Bool, inl, inr, List, [], ◌∷◌, ◌++◌, map, arith,
  length, length-take, take, Bool-cases, if◌then◌else◌, ◌⊎◌, ltb, ◌&&◌,
}
use qtest.Prelude.Sort.{order_by}
use qtest.Model.Types.{Function, Endpoint, SystemModel, TestIntent, TestPlan, TestLevel, unit, api}
use qtest.Model.Planner.{
  Scores, PlannerConfig, api_intent, count_level, is_unit, is_api, is_e2e, scored, unit_intents,
  all_intents, plan, by_risk, pyramid_units, plan_with_pyramid,
}

-- The counters of a plan are the numbers of its intents, in all and of each level.
pub record IsCounted (p : TestPlan) : Type 0 where
  pub total : p.total_tests ≡ length p.intents
  pub units : p.unit_tests ≡ count_level is_unit p.intents
  pub apis : p.api_tests ≡ count_level is_api p.intents
  pub e2es : p.e2e_tests ≡ count_level is_e2e p.intents

count_level-append :
    (p : TestLevel → Bool) (xs ys : List TestIntent)
    → count_level p (xs ++ ys) ≡ count_level p xs + count_level p ys
unfolding count_level
count_level-append p [] ys = omega arith
count_level-append p (x ∷ xs) ys = omega (arith, count_level-append p xs ys)

count_level-map :
    (p : TestLevel → Bool) (eps : List Endpoint)
    → count_level p (map api_intent eps) ≡ (if p api then length eps else 0)
unfolding count_level
count_level-map p [] = ground arith
count_level-map p (ep ∷ eps) = ground (arith, count_level-map p eps)

split :
    (p : TestLevel → Bool) (eps : List Endpoint) (units : List TestIntent)
    → count_level p (map api_intent eps ++ units)
      ≡ (if p api then length eps else 0) + count_level p units
split p eps units =
    omega (arith, count_level-append p (map api_intent eps) units, count_level-map p eps)

length-map : (eps : List Endpoint) → length (map api_intent eps) ≡ length eps
length-map [] = refl
length-map (ep ∷ eps) = ap suc (length-map eps)

module _ {ℓ} {S : Type ℓ} (scores : Scores S) (config : PlannerConfig S) where
  count_level-unit_intents :
      (p : TestLevel → Bool) (eps : List Endpoint) (fs : List (Function × S))
      → count_level p (unit_intents scores config eps fs)
        ≡ (if p unit then length (unit_intents scores config eps fs) else 0)
  unfolding count_level unit_intents
  count_level-unit_intents p eps [] = ground arith
  count_level-unit_intents p eps ((f, score) ∷ rest) =
      ground (arith, count_level-unit_intents p eps rest)

  whole-IsCounted :
      (model : SystemModel S)
      → let units =
          unit_intents scores config model.endpoints
            (order_by (by_risk scores config) (scored scores config model model.functions)) in
        IsCounted (record {
          model_id = model.id;
          repository = model.repository;
          total_tests = length (all_intents scores config model);
          unit_tests = length units;
          api_tests = length model.endpoints;
          e2e_tests = 0;
          intents = all_intents scores config model;
        })
  unfolding all_intents
  whole-IsCounted model =
      let fs = order_by (by_risk scores config) (scored scores config model model.functions) in
      let units = unit_intents scores config model.endpoints fs in
      record {
        total = refl;
        units = sym (
            split is_unit model.endpoints units
            ∙ omega (arith, count_level-unit_intents is_unit model.endpoints fs));
        apis = sym (
            split is_api model.endpoints units
            ∙ omega (arith, count_level-unit_intents is_api model.endpoints fs));
        e2es = sym (
            split is_e2e model.endpoints units
            ∙ omega (arith, count_level-unit_intents is_e2e model.endpoints fs));
      }

  count_level-pyramid :
      (p : TestLevel → Bool) (model : SystemModel S) (left : ℕ) (fs : List Function)
      → count_level p (pyramid_units scores config model left fs)
        ≡ (if p unit then length (pyramid_units scores config model left fs) else 0)
  unfolding count_level pyramid_units
  count_level-pyramid p model left [] = ground arith
  count_level-pyramid p model left (f ∷ fs) =
      ground (arith, count_level-pyramid p model left fs, count_level-pyramid p model (left - 1) fs)

  length-pyramid :
      (model : SystemModel S) (left : ℕ) (fs : List Function)
      → length (pyramid_units scores config model left fs) ≤ left
  unfolding pyramid_units
  length-pyramid model left [] = omega arith
  length-pyramid model left (f ∷ fs) =
      ground (arith, length-pyramid model left fs, length-pyramid model (left - 1) fs)

  -- The counters of a plan are the numbers of its intents, in all and of each level, also where the
  -- limit cuts it; and a limit that is set is kept.
  pub plan-IsCounted :
      (model : SystemModel S)
      → IsCounted (plan scores config model)
        × (((config.max_intents ≡ 0))
            ⊎ ((plan scores config model).total_tests ≤ config.max_intents))
  unfolding plan
  plan-IsCounted model =
      let intents = all_intents scores config model in
      elim (Bool-cases (ltb 0 config.max_intents && ltb config.max_intents (length intents))) [
        | inl cut ↦ rw cut (
          record { total = refl; units = refl; apis = refl; e2es = refl },
          inr (omega (arith, length-take config.max_intents intents)),
        )
        | inr whole ↦ rw whole (whole-IsCounted model, ground arith)
      ]

  -- A plan by the pyramid is counted too, and has no more tests of a level than are wanted of it.
  pub plan_with_pyramid-IsCounted :
      (model : SystemModel S) (total target_api target_e2e : ℕ)
      → let p = plan_with_pyramid scores config model total target_api target_e2e in
        IsCounted p × (p.api_tests ≤ target_api) × (p.unit_tests ≤ total - target_api - target_e2e)
  unfolding plan_with_pyramid
  plan_with_pyramid-IsCounted model total target_api target_e2e =
      let some_eps = take target_api model.endpoints in
      let left = total - target_api - target_e2e in
      let units = pyramid_units scores config model left model.functions in
      (
        record {
          total = refl;
          units = sym (
              split is_unit some_eps units
              ∙ omega (arith, count_level-pyramid is_unit model left model.functions));
          apis =
              length-map some_eps
              ∙ sym (
                  split is_api some_eps units
                  ∙ omega (arith, count_level-pyramid is_api model left model.functions));
          e2es = sym (
              split is_e2e some_eps units
              ∙ omega (arith, count_level-pyramid is_e2e model left model.functions));
        },
        omega (arith, length-map some_eps, length-take target_api model.endpoints),
        length-pyramid model left model.functions,
      )
