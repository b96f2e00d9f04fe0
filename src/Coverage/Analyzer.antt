-- ===== src/Coverage/Analyzer.antt =====
-- internal/codecov/analyzer.go: the priorities of the gaps, the result of an analysis, and the tests
-- that it asks for.
mod Tests
use Prim.Native.String.{◌++◌ as append_text}
use qtest.Prelude.{
  ℕ, zero, suc, ◌+◌, ◌-◌, ◌*◌, String, Bool, true, false, ◌&&◌, ◌||◌, Option, none, some, List, [],
  ◌∷◌, ◌++◌, map, length, str_eq, ltb, leb, ◌==◌, if◌then◌else◌,
}
use qtest.Prelude.Int.{ℤ, ◌+ℤ◌, ltb_ℤ, sub_ℕ, pos_part, neg_part}
use qtest.Prelude.Assoc.{Eq, lookup, insert}
use qtest.Prelude.Sort.{order_by}
use qtest.Llm.Cache.{string_eq}
use qtest.Model.Types.{
  Function, Endpoint, SystemModel, Priority, critical, high, medium, low, unset, TestIntent,
  TestLevel,
}
use qtest.Coverage.Collector.{FileCoverage, CoverageReport}
use qtest.Coverage.Gaps.{
  GapType, function, endpoint, block, other, CoverageGap, minus, uncovered_by_file, function_gaps,
  endpoint_gaps, block_gaps,
}

abbrev pub at_least_high : Priority → Bool
at_least_high critical = true
at_least_high high = true
at_least_high _ = false

abbrev pub priority_value : Priority → ℕ
priority_value critical = 4
priority_value high = 3
priority_value medium = 2
priority_value low = 1
priority_value unset = 0

-- Whether a function with the id is exported.
unfoldable pub is_exported : String → List Function → Bool
is_exported id [] = false
is_exported id (fn ∷ fns) = (str_eq fn.id id && fn.exported) || is_exported id fns

abbrev pub raised : Priority → Priority
raised medium = high
raised p = p

unfoldable pub gap_priority : List Function → CoverageGap → GapType → Priority
gap_priority fns gap endpoint = critical
gap_priority fns gap function =
    let by_complexity =
      if ltb_ℤ (ℤ.pos 10) gap.complexity
      then critical
      else if ltb_ℤ (ℤ.pos 5) gap.complexity
      then high
      else medium in
    if is_exported gap.target_id fns then raised by_complexity else by_complexity
gap_priority fns gap block =
    let line_count = minus gap.end_line gap.start_line in
    if ltb_ℤ (ℤ.pos 20) line_count
    then high
    else if ltb_ℤ (ℤ.pos 10) line_count
    then medium
    else low
gap_priority fns gap (other t) = low

abbrev pub prioritized : List Function → CoverageGap → CoverageGap
prioritized fns gap = record gap { priority = gap_priority fns gap gap.gap_type }

abbrev pub higher : CoverageGap → CoverageGap → Bool
higher a b = ltb (priority_value b.priority) (priority_value a.priority)

abbrev pub estimate_effort : ℕ → String
estimate_effort n =
    if leb n 5
    then "small"
    else if leb n 15
    then "medium"
    else if leb n 30
    then "large"
    else "extensive"

unfoldable pub count_critical : List CoverageGap → ℕ
count_critical [] = 0
count_critical (gap ∷ gaps) = (if at_least_high gap.priority then 1 else 0) + count_critical gaps

pub record AnalysisResult {ℓ} (S : Type ℓ) : Type ℓ where
  pub total_coverage : S
  pub target_coverage : S
  pub gaps : List CoverageGap
  pub critical_gaps : ℕ
  pub suggested_tests : ℕ
  pub estimated_effort : String

module _ {ℓ} {S : Type ℓ} where
  abbrev pub functions_of : Option (SystemModel S) → List Function
  functions_of none = []
  functions_of (some model) = model.functions

  abbrev pub endpoints_of : Option (SystemModel S) → List Endpoint
  endpoints_of none = []
  endpoints_of (some model) = model.endpoints

  -- The gaps before they have priorities.
  unfoldable pub all_gaps : CoverageReport S → Option (SystemModel S) → List CoverageGap
  unfolding uncovered_by_file function_gaps endpoint_gaps block_gaps
  all_gaps report model =
      let m = uncovered_by_file report.files [] in
      function_gaps m (functions_of model)
      ++ endpoint_gaps m (endpoints_of model)
      ++ block_gaps report.files

  -- `Analyze`. `sort.Slice` may order gaps of one priority in any way.
  unfoldable pub analyze : CoverageReport S → Option (SystemModel S) → S → AnalysisResult S
  unfolding all_gaps
  analyze report model target =
      let gaps = order_by higher (map (prioritized (functions_of model)) (all_gaps report model)) in
      record {
        total_coverage = report.percentage;
        target_coverage = target;
        gaps = gaps;
        critical_gaps = count_critical gaps;
        suggested_tests = length gaps;
        estimated_effort = estimate_effort (length gaps);
      }

-- `GenerateTestIntents`; `character` is the text of one code point, which stands for the line.
unfoldable pub generate_test_intents : (ℤ → String) → List CoverageGap → List TestIntent
generate_test_intents character [] = []
generate_test_intents character (gap ∷ gaps) =
    intent gap.gap_type ∷ generate_test_intents character gaps
  where
    intent_for : TestLevel → String → String → TestIntent
    intent_for level kind target = record {
      id = append_text "cov:" gap.target_id;
      level = level;
      target_kind = kind;
      target_id = target;
      priority = gap.priority;
      reason = append_text gap.reason (append_text " (" (append_text gap.name ")"));
    }

    intent : GapType → TestIntent
    intent endpoint = intent_for TestLevel.api "endpoint" gap.target_id
    intent function = intent_for TestLevel.unit "function" gap.target_id
    intent _ =
        intent_for TestLevel.unit "block"
          (append_text gap.file (append_text ":" (character gap.start_line)))
