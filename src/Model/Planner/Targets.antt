-- ===== src/Model/Planner/Targets.antt =====
-- What the plans of pkg/model/planner.go test.
use Prim.Native.String.{◌++◌ as append_text}
use mathlib.Core.List.{Perm}
use mathlib.Core.List.Perm
use mathlib.Core.Path.{subst}
use qtest.Prelude.{
  ℕ, zero, suc, take, length, ◌==◌, ◌≤◌, ap, ◌≡◌, refl, String, Bool, true, false, none, some,
  select, str_eq, All, not, ◌&&◌, inl, inr, List, [], ◌∷◌, ◌++◌, map, arith, Bool-cases,
  if◌then◌else◌,
}
use qtest.Prelude.Assoc.{lookup}
use qtest.Prelude.Sort.{place, order_by, Ordered, IsOrder, order_by-Ordered, All-place}
use qtest.Llm.Cache.{string_eq}
use qtest.Model.Types.{Function, Endpoint, SystemModel, TestIntent, unit, high, medium, low}
use qtest.Model.Planner.{
  Scores, PlannerConfig, api_intent, reason_of, is_handler, scored, unit_intents, all_intents, plan,
  by_risk,
}

-- The first `n` elements; all of them if `n` is 0.
unfoldable pub limited {ℓ} : {A : Type ℓ} → ℕ → List A → List A
limited n xs = if n == 0 then xs else take n xs

take-all {ℓ} : {A : Type ℓ} (n : ℕ) (xs : List A) → length xs ≤ n → take n xs ≡ xs
take-all zero [] h = refl
take-all (suc n) [] h = refl
take-all zero (x ∷ xs) h = ground (arith, h)
take-all (suc n) (x ∷ xs) h = ap (◌∷◌ x) (take-all n xs (omega (arith, h)))

-- Whether the name is among the names.
unfoldable pub names : List String → String → Bool
names [] name = false
names (n ∷ ns) name = if str_eq n name then true else names ns name

-- The function is exported, and no endpoint has its name for a handler.
abbrev pub is_wanted {ℓ} : {S : Type ℓ} → SystemModel S → Function → Bool
is_wanted model f = f.exported && not (names (map (λ ep. ep.handler) model.endpoints) f.name)

is_handler-names :
    (eps : List Endpoint) (f : Function)
    → is_handler eps f ≡ names (map (λ ep. ep.handler) eps) f.name
unfolding is_handler names
is_handler-names [] f = refl
is_handler-names (ep ∷ eps) f = ground (arith, is_handler-names eps f)

module _ {ℓ} {S : Type ℓ} where
  -- The functions that are not handlers.
  unfoldable kept : List Endpoint → List (Function × S) → List Function
  kept eps [] = []
  kept eps (x ∷ xs) = let rest = kept eps xs in if is_handler eps x.0 then rest else x.0 ∷ rest

  kept-swap :
      (eps : List Endpoint) (r x : Function × S) (xs : List (Function × S))
      → Perm (kept eps (x ∷ r ∷ xs)) (kept eps (r ∷ x ∷ xs))
  unfolding kept
  kept-swap eps r x xs = elim (Bool-cases (is_handler eps r.0)) [
    | inl a ↦ elim (Bool-cases (is_handler eps x.0)) [
      | inl b ↦ rw (a, b) (Perm.refl _)
      | inr b ↦ rw (a, b) (Perm.refl _)
    ]
    | inr a ↦ elim (Bool-cases (is_handler eps x.0)) [
      | inl b ↦ rw (a, b) (Perm.refl _)
      | inr b ↦ rw (a, b) (Perm.swap _ _ _)
    ]
  ]

  kept-cons :
      (eps : List Endpoint) (x : Function × S) (xs ys : List (Function × S))
      → Perm (kept eps xs) (kept eps ys)
      → Perm (kept eps (x ∷ xs)) (kept eps (x ∷ ys))
  unfolding kept
  kept-cons eps x xs ys p = elim (Bool-cases (is_handler eps x.0)) [
    | inl a ↦ rw a p
    | inr a ↦ rw a (Perm.cons _ p)
  ]

  kept-place :
      (eps : List Endpoint) (before : Function × S → Function × S → Bool) (r : Function × S)
      (xs : List (Function × S))
      → Perm (kept eps (place before r xs)) (kept eps (r ∷ xs))
  unfolding place
  kept-place eps before r [] = Perm.refl _
  kept-place eps before r (x ∷ xs) = elim (Bool-cases (before x r)) [
    | inl first ↦
        rw first
          (Perm.trans (kept-cons eps x _ _ (kept-place eps before r xs)) (kept-swap eps r x xs))
    | inr later ↦ rw later (Perm.refl _)
  ]

  kept-order_by :
      (eps : List Endpoint) (before : Function × S → Function × S → Bool) (xs : List (Function × S))
      → Perm (kept eps (order_by before xs)) (kept eps xs)
  unfolding order_by
  kept-order_by eps before [] = Perm.refl _
  kept-order_by eps before (x ∷ xs) =
      Perm.trans (kept-place eps before x (order_by before xs))
        (kept-cons eps x _ _ (kept-order_by eps before xs))

  All-order_by :
      (P : Function × S → Type ℓ) (before : Function × S → Function × S → Bool)
      (xs : List (Function × S))
      → All P xs
      → All P (order_by before xs)
  unfolding order_by
  All-order_by P before [] h = tt
  All-order_by P before (x ∷ xs) h =
      All-place P before x (order_by before xs) h.0 (All-order_by P before xs h.1)

module _ {ℓ} {S : Type ℓ} (scores : Scores S) (config : PlannerConfig S)
    (model : SystemModel S) where
  -- The model's score of a function, or zero.
  abbrev pub risk : Function → S
  risk f = elim (lookup f.id model.risk_scores) [ none ↦ scores.zero | some s ↦ s ]

  -- The unit test of a function, with a priority by the two thresholds.
  abbrev pub intent_for : Function → TestIntent
  intent_for f = record {
    id = append_text "intent:unit:" f.id;
    level = unit;
    target_kind = "function";
    target_id = f.id;
    priority =
        if scores.at_least (risk f) config.high_risk_threshold
        then high
        else if scores.at_least (risk f) config.medium_risk_threshold
        then medium
        else low;
    reason = reason_of scores config f (risk f);
  }

  -- No later function has a greater risk.
  abbrev pub RiskFirst : List Function → Type 0
  RiskFirst [] = Unit
  RiskFirst (f ∷ fs) = All (λ g. scores.greater (risk g) (risk f) ≡ false) fs × RiskFirst fs

  abbrev AtRisk : Function × S → Type ℓ
  AtRisk x = x.1 ≡ risk x.0

  scored-AtRisk : (fs : List Function) → All AtRisk (scored scores config model fs)
  unfolding scored
  scored-AtRisk [] = tt
  scored-AtRisk (f ∷ fs) = elim (Bool-cases f.exported) [
    | inl shown ↦ rw shown (refl, scored-AtRisk fs)
    | inr hidden ↦ rw hidden (scored-AtRisk fs)
  ]

  scored-wanted :
      (fs : List Function)
      → kept model.endpoints (scored scores config model fs) ≡ select (is_wanted model) fs
  unfolding kept scored
  scored-wanted [] = refl
  scored-wanted (f ∷ fs) = ground (arith, scored-wanted fs, is_handler-names model.endpoints f)

  unit_intents-kept :
      (eps : List Endpoint) (xs : List (Function × S))
      → All AtRisk xs
      → unit_intents scores config eps xs ≡ map intent_for (kept eps xs)
  unfolding unit_intents kept
  unit_intents-kept eps [] a = refl
  unit_intents-kept eps ((f, s) ∷ xs) a = elim (Bool-cases (is_handler eps f)) [
    | inl serves ↦ rw serves (unit_intents-kept eps xs a.1)
    | inr alone ↦ rw (alone, unit_intents-kept eps xs a.1, a.0) refl
  ]

  below-kept :
      (eps : List Endpoint) (f : Function) (s : S) (xs : List (Function × S))
      → s ≡ risk f
      → All AtRisk xs
      → All (λ x. by_risk scores config x (f, s) ≡ false) xs
      → All (λ g. scores.greater (risk g) (risk f) ≡ false) (kept eps xs)
  unfolding kept
  below-kept eps f s [] e a h = tt
  below-kept eps f s (x ∷ xs) e a h = elim (Bool-cases (is_handler eps x.0)) [
    | inl serves ↦ rw serves (below-kept eps f s xs e a.1 h.1)
    | inr alone ↦ rw alone (rw (← e, ← a.0) h.0, below-kept eps f s xs e a.1 h.1)
  ]

  kept-RiskFirst :
      (eps : List Endpoint) (xs : List (Function × S))
      → All AtRisk xs
      → Ordered (by_risk scores config) xs
      → RiskFirst (kept eps xs)
  unfolding kept
  kept-RiskFirst eps [] a o = tt
  kept-RiskFirst eps ((f, s) ∷ xs) a o = elim (Bool-cases (is_handler eps f)) [
    | inl serves ↦ rw serves (kept-RiskFirst eps xs a.1 o.1)
    | inr alone ↦ rw alone (below-kept eps f s xs a.0 a.1 o.0, kept-RiskFirst eps xs a.1 o.1)
  ]

  by_risk-IsOrder : IsOrder scores.greater → IsOrder (by_risk scores config)
  by_risk-IsOrder o = record {
    asymmetric = λ a b h. o.asymmetric a.1 b.1 h;
    weak = λ a b c h k. o.weak a.1 b.1 c.1 h k;
  }

  -- If scores are ordered, a plan has one test for each endpoint, in order, and then one for each
  -- exported function that handles no endpoint, those of a greater risk first, and no other tests;
  -- where there are more of them than a limit that is not 0, it has the first of them, as many as the
  -- limit.
  pub plan-wanted :
      IsOrder scores.greater
      → (units : List Function) × ((plan scores config model).intents
          ≡ limited config.max_intents (map api_intent model.endpoints ++ map intent_for units))
        × Perm units (select (is_wanted model) model.functions)
        × RiskFirst units
  unfolding plan all_intents limited
  plan-wanted o =
      let found = scored scores config model model.functions in
      let sorted = order_by (by_risk scores config) found in
      let units = kept model.endpoints sorted in
      let at_risk =
        All-order_by AtRisk (by_risk scores config) found (scored-AtRisk model.functions) in
      let same : unit_intents scores config model.endpoints sorted ≡ map intent_for units =
        unit_intents-kept model.endpoints sorted at_risk in
      (
        units,
        ground (
          arith,
          same,
          take-all config.max_intents (map api_intent model.endpoints ++ map intent_for units),
        ),
        subst (Perm units) (scored-wanted model.functions)
            (kept-order_by model.endpoints (by_risk scores config) found),
        kept-RiskFirst model.endpoints sorted at_risk
            (order_by-Ordered (by_risk scores config) (by_risk-IsOrder o) found),
      )
