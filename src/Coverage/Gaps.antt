-- ===== src/Coverage/Gaps.antt =====
-- internal/codecov/analyzer.go: how the gaps in a report are found. Line numbers of a report are
-- naturals.
pub mod Lines
pub mod Groups
pub mod Blocks
use Prim.Native.String.{◌++◌ as append_text}
use qtest.Prelude.{
  ℕ, zero, suc, ◌+◌, ◌-◌, ◌*◌, String, Bool, true, false, ◌&&◌, ◌||◌, Option, none, some, List, [],
  ◌∷◌, ◌++◌, map, length, str_eq, ltb, leb, ◌==◌, if◌then◌else◌,
}
use qtest.Prelude.Int.{ℤ, ◌+ℤ◌, ltb_ℤ, sub_ℕ, pos_part, neg_part}
use qtest.Prelude.Assoc.{Eq, lookup, insert}
use qtest.Prelude.Sort.{order_by}
use qtest.Llm.Cache.{string_eq}
use qtest.Model.Types.{
  Function, Endpoint, SystemModel, Priority, critical, high, medium, low, unset, TestIntent,
  TestLevel,
}
use qtest.Coverage.Collector.{FileCoverage, CoverageReport}

pub data GapType : Type 0 where
  function endpoint block : GapType
  other : String → GapType

pub record CoverageGap : Type 0 where
  pub file : String
  pub start_line : ℤ
  pub end_line : ℤ
  pub gap_type : GapType
  pub name : String
  pub priority : Priority
  pub reason : String
  pub target_id : String
  pub complexity : ℤ

abbrev pub no_gap : CoverageGap
no_gap = record {
  file = "";
  start_line = ℤ.pos 0;
  end_line = ℤ.pos 0;
  gap_type = block;
  name = "";
  priority = unset;
  reason = "";
  target_id = "";
  complexity = ℤ.pos 0;
}

unfoldable pub has : ℕ → List ℕ → Bool
has n [] = false
has n (x ∷ xs) = (x == n) || has n xs

abbrev pub has_line : ℤ → List ℕ → Bool
has_line (ℤ.pos n) xs = has n xs
has_line (ℤ.negsuc n) xs = false

abbrev pub minus : ℤ → ℤ → ℤ
minus a b = sub_ℕ (pos_part a + neg_part b) (neg_part a + pos_part b)

-- How many of `n` lines from `l` on are uncovered.
unfoldable pub count_uncovered : ℕ → ℤ → List ℕ → ℕ
count_uncovered zero l xs = 0
count_uncovered (suc n) l xs =
    (if has_line l xs then 1 else 0) + count_uncovered n (l +ℤ ℤ.pos 1) xs

-- A function that is uncovered by more than 3 lines in 10. The quotient of the counts, as a float64,
-- is above 0.3 exactly then, as long as they stay far below 2^50.
unfoldable pub function_gap : List (String × List ℕ) → Function → List CoverageGap
unfolding count_uncovered
function_gap m fn = elim (if str_eq fn.file "" then none else lookup fn.file m) [
  | none ↦ []
  | some lines ↦
      let total = minus fn.end_line fn.start_line +ℤ ℤ.pos 1 in
      let uncovered = count_uncovered (pos_part total) fn.start_line lines in
      if ltb_ℤ (ℤ.pos 0) total && ltb (3 * pos_part total) (10 * uncovered)
      then record no_gap {
        file = fn.file;
        start_line = fn.start_line;
        end_line = fn.end_line;
        gap_type = function;
        name = fn.name;
        target_id = fn.id;
        complexity = fn.complexity;
        reason = "Function has low test coverage";
      }
        ∷ []
      else []
]

unfoldable pub function_gaps : List (String × List ℕ) → List Function → List CoverageGap
unfolding function_gap
function_gaps m [] = []
function_gaps m (fn ∷ fns) = function_gap m fn ++ function_gaps m fns

unfoldable pub endpoint_gap : List (String × List ℕ) → Endpoint → List CoverageGap
endpoint_gap m ep = elim (if str_eq ep.file "" then none else lookup ep.file m) [
  | none ↦ []
  | some lines ↦
      if has_line ep.line lines
      then record no_gap {
        file = ep.file;
        start_line = ep.line;
        end_line = ep.line;
        gap_type = endpoint;
        name = append_text ep.method (append_text " " ep.path);
        target_id = ep.id;
        reason = "API endpoint handler is not covered";
      }
        ∷ []
      else []
]

unfoldable pub endpoint_gaps : List (String × List ℕ) → List Endpoint → List CoverageGap
unfolding endpoint_gap
endpoint_gaps m [] = []
endpoint_gaps m (ep ∷ eps) = endpoint_gap m ep ++ endpoint_gaps m eps

-- The groups of consecutive lines that are long enough, from the open group on.
unfoldable pub group : (start end : ℕ) → List ℕ → List (ℕ × ℕ)
group start end [] = if leb 3 (end - start) then (start, end) ∷ [] else []
group start end (l ∷ ls) =
    let rest = group (if l == end + 1 then start else l) l ls in
    if l == end + 1 then rest else if leb 3 (end - start) then (start, end) ∷ rest else rest

unfoldable pub group_all : List ℕ → List (ℕ × ℕ)
unfolding group
group_all [] = []
group_all (l ∷ ls) = group l l ls

-- The groups of the uncovered lines of a file, which `sort.Ints` sorts.
unfoldable pub blocks : List ℕ → List (ℕ × ℕ)
unfolding group_all
blocks lines = group_all (order_by ltb lines)

abbrev pub block_gap : String → ℕ × ℕ → CoverageGap
block_gap path (start, end) = record no_gap {
  file = path;
  start_line = ℤ.pos start;
  end_line = ℤ.pos end;
  gap_type = block;
  reason = "Code block not covered by tests";
}

module _ {ℓ} {S : Type ℓ} where
  -- The uncovered lines of each path; of two files with one path, those of the later.
  unfoldable pub uncovered_by_file :
      List (FileCoverage S) → List (String × List ℕ) → List (String × List ℕ)
  uncovered_by_file [] m = m
  uncovered_by_file (f ∷ fs) m = uncovered_by_file fs (insert f.path f.uncovered_lines m)

  unfoldable pub block_gaps : List (FileCoverage S) → List CoverageGap
  unfolding blocks
  block_gaps [] = []
  block_gaps (f ∷ fs) = map (block_gap f.path) (blocks f.uncovered_lines) ++ block_gaps fs
