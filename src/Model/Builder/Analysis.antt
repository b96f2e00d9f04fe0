-- ===== src/Model/Builder/Analysis.antt =====
-- pkg/model/builder.go: the analysis that `Build` ends with, the risk scores and the test targets. A
-- float64 is a parameter with the constants and the operations that the code uses.
use Prim.Native.String.{◌++◌ as append_text}
use qtest.Prelude.{
  ℕ, ◌+◌, String, Bool, true, false, none, some, List, [], ◌∷◌, ◌++◌, ◌⊎◌, inl, inr, ltb, not,
  if◌then◌else◌, str_eq,
}
use qtest.Prelude.Assoc.{lookup, insert}
use qtest.Prelude.Int.{ℤ, ltb_ℤ}
use qtest.Llm.Cache.{string_eq}
use qtest.Model.Types.{
  Function, Endpoint, Module, CallEdge, TestTarget, api_target, unit_target, SystemModel,
}

-- `weigh complexity centrality churn` is the weighted average, and `text` the format `%.2f`.
pub record Risks {ℓ} (S : Type ℓ) : Type ℓ where
  pub zero : S
  pub slight : S
  pub low : S
  pub medium : S
  pub high : S
  pub weigh : S → S → S → S
  pub above_half : S → Bool
  pub text : S → String

-- The calls of a function.
unfoldable pub call_count : String → List CallEdge → ℕ
call_count k [] = 0
call_count k (e ∷ es) = (if str_eq e.callee k then 1 else 0) + call_count k es

-- Whether a target of a function with the id is among the targets.
unfoldable pub already_added {ℓ} : {S : Type ℓ} → String → List (TestTarget S) → Bool
already_added k [] = false
already_added k (t ∷ ts) = if str_eq t.function_id k then true else already_added k ts

module _ {ℓ} {S : Type ℓ} (risks : Risks S) where
  abbrev pub complexity_of : ℤ → S
  complexity_of loc =
      if ltb_ℤ (ℤ.pos 50) loc
      then risks.high
      else if ltb_ℤ (ℤ.pos 20) loc
      then risks.medium
      else if ltb_ℤ (ℤ.pos 10) loc
      then risks.low
      else risks.slight

  abbrev pub centrality_of : ℕ → S
  centrality_of calls =
      if ltb 10 calls
      then risks.high
      else if ltb 5 calls
      then risks.medium
      else if ltb 0 calls
      then risks.low
      else risks.zero

  abbrev pub score : List CallEdge → Function → S
  score edges fn =
      risks.weigh (complexity_of fn.loc) (centrality_of (call_count fn.id edges)) risks.zero

  unfoldable pub scored : List CallEdge → List Function → List (String × S) → List (String × S)
  unfolding insert call_count
  scored edges [] found = found
  scored edges (fn ∷ fns) found = scored edges fns (insert fn.id (score edges fn) found)

  -- `computeRiskScores`
  unfoldable pub compute_risk_scores : SystemModel S → SystemModel S
  unfolding scored
  compute_risk_scores m = record m { risk_scores = scored m.call_graph m.functions m.risk_scores }

  abbrev pub score_at : SystemModel S → Function → S
  score_at m fn = elim (lookup fn.id m.risk_scores) [ none ↦ risks.zero | some s ↦ s ]

  abbrev pub endpoint_target : ℕ → Endpoint → TestTarget S
  endpoint_target priority ep = record {
    id = append_text "target:api:" ep.id;
    kind = api_target;
    function_id = "";
    endpoint_id = ep.id;
    priority = priority;
    risk_score = risks.zero;
    reason = append_text "API endpoint: " (append_text ep.method (append_text " " ep.path));
  }

  abbrev pub function_target : ℕ → Function → S → String → TestTarget S
  function_target priority fn risk reason = record {
    id = append_text "target:unit:" fn.id;
    kind = unit_target;
    function_id = fn.id;
    endpoint_id = "";
    priority = priority;
    risk_score = risk;
    reason = reason;
  }

  abbrev pub high_reason : S → String
  high_reason s = append_text "High-risk function (score: " (append_text (risks.text s) ")")

  -- The loops of `generateTestTargets`: the targets so far, and the next priority.
  unfoldable pub endpoint_targets :
      List Endpoint → List (TestTarget S) → ℕ → List (TestTarget S) × ℕ
  endpoint_targets [] ts n = (ts, n)
  endpoint_targets (ep ∷ eps) ts n = endpoint_targets eps (ts ++ endpoint_target n ep ∷ []) (n + 1)

  unfoldable pub add_high_risk :
      SystemModel S → Function → List (TestTarget S) → ℕ → List (TestTarget S) × ℕ
  unfolding lookup
  add_high_risk m fn ts n =
      let risk = score_at m fn in
      if not fn.exported
      then (ts, n)
      else if risks.above_half risk
      then (ts ++ function_target n fn risk (high_reason risk) ∷ [], n + 1)
      else (ts, n)

  unfoldable pub high_risk_targets :
      SystemModel S → List Function → List (TestTarget S) → ℕ → List (TestTarget S) × ℕ
  unfolding add_high_risk
  high_risk_targets m [] ts n = (ts, n)
  high_risk_targets m (fn ∷ fns) ts n =
      let (ts', n') = add_high_risk m fn ts n in high_risk_targets m fns ts' n'

  unfoldable pub add_remaining :
      SystemModel S → Function → List (TestTarget S) → ℕ → List (TestTarget S) × ℕ
  unfolding lookup already_added
  add_remaining m fn ts n =
      if not fn.exported
      then (ts, n)
      else if already_added fn.id ts
      then (ts, n)
      else (ts ++ function_target n fn (score_at m fn) "Exported function" ∷ [], n + 1)

  unfoldable pub remaining_targets :
      SystemModel S → List Function → List (TestTarget S) → ℕ → List (TestTarget S) × ℕ
  unfolding add_remaining
  remaining_targets m [] ts n = (ts, n)
  remaining_targets m (fn ∷ fns) ts n =
      let (ts', n') = add_remaining m fn ts n in remaining_targets m fns ts' n'

  -- `generateTestTargets`
  unfoldable pub generate_test_targets : SystemModel S → SystemModel S
  unfolding endpoint_targets high_risk_targets remaining_targets
  generate_test_targets m =
      let (ts, n) = endpoint_targets m.endpoints m.test_targets 1 in
      let (ts', n') = high_risk_targets m m.functions ts n in
      record m { test_targets = (remaining_targets m m.functions ts' n').0 }

-- A `Supplement`: `analyze` answers with the text of an error, or with the model it leaves.
pub record Supplement {ℓ} (S : Type ℓ) : Type ℓ where
  pub name : String
  pub detect : List String → Bool
  pub analyze : SystemModel S → String ⊎ SystemModel S

unfoldable pub all_files : List Module → List String
all_files [] = []
all_files (m ∷ ms) = m.files ++ all_files ms

module _ {ℓ} {S : Type ℓ} (risks : Risks S) where
  abbrev pub applied : Supplement S → List String → SystemModel S → String ⊎ SystemModel S
  applied supp files m = if supp.detect files then supp.analyze m else inr m

  abbrev pub after_supplement :
      String
      → String ⊎ SystemModel S
      → (SystemModel S → String ⊎ SystemModel S)
      → String ⊎ SystemModel S
  after_supplement name (inl e) next =
      inl (append_text "supplement " (append_text name (append_text " failed: " e)))
  after_supplement name (inr m) next = next m

  -- The supplements that apply to the files, one after another, up to the first that fails.
  unfoldable pub run_supplements :
      List (Supplement S) → List String → SystemModel S → String ⊎ SystemModel S
  run_supplements [] files m = inr m
  run_supplements (supp ∷ supps) files m =
      after_supplement supp.name (applied supp files m) (run_supplements supps files)

  abbrev pub analyzed : String ⊎ SystemModel S → String ⊎ SystemModel S
  analyzed (inl e) = inl e
  analyzed (inr m) = inr (generate_test_targets risks (compute_risk_scores risks m))

  -- `Build`
  unfoldable pub build : List (Supplement S) → SystemModel S → String ⊎ SystemModel S
  unfolding run_supplements all_files generate_test_targets compute_risk_scores
  build supps m = analyzed (run_supplements supps (all_files m.modules) m)
