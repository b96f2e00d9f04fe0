-- ===== src/Coverage/Collector.antt =====
-- internal/codecov/collector.go: a coverage report, and the one that a Go profile gives. A percentage
-- is a float64, whose type is a parameter. Lines and counts are naturals.
use qtest.Prelude.{
  ℕ, zero, suc, ◌+◌, ◌-◌, String, Option, none, some, List, [], ◌∷◌, ◌++◌, ltb, if◌then◌else◌,
}
use qtest.Prelude.Assoc.{lookup, insert}
use qtest.Llm.Cache.{string_eq}

pub record FileCoverage {ℓ} (S : Type ℓ) : Type ℓ where
  pub path : String
  pub total_lines : ℕ
  pub covered_lines : ℕ
  pub percentage : S
  pub uncovered_lines : List ℕ

pub record UncoveredItem : Type 0 where
  pub file : String
  pub start_line : ℕ
  pub end_line : ℕ

pub record CoverageReport {ℓ} (S : Type ℓ) : Type ℓ where
  pub total_lines : ℕ
  pub covered_lines : ℕ
  pub percentage : S
  pub files : List (FileCoverage S)
  pub uncovered : List UncoveredItem

-- A line of a profile that its regular expression matches.
pub record ProfileLine : Type 0 where
  pub path : String
  pub start_line : ℕ
  pub end_line : ℕ
  pub statements : ℕ
  pub count : ℕ

-- `n` lines from `l` on.
unfoldable pub lines_from : ℕ → ℕ → List ℕ
lines_from zero l = []
lines_from (suc n) l = l ∷ lines_from n (suc l)

abbrev pub line_range : ProfileLine → List ℕ
line_range p = lines_from (suc p.end_line - p.start_line) p.start_line

-- `none_covered` is 0.0, and `percent` is the quotient of two counts, times 100.
module _ {ℓ} {S : Type ℓ} (none_covered : S) (percent : ℕ → ℕ → S) where
  abbrev pub new_file : String → FileCoverage S
  new_file path = record {
    path = path;
    total_lines = 0;
    covered_lines = 0;
    percentage = none_covered;
    uncovered_lines = [];
  }

  unfoldable pub with_line : ProfileLine → FileCoverage S → FileCoverage S
  with_line p fc =
      if ltb 0 p.count
      then record fc {
        total_lines = fc.total_lines + p.statements;
        covered_lines = fc.covered_lines + p.statements;
      }
      else record fc {
        total_lines = fc.total_lines + p.statements;
        uncovered_lines = fc.uncovered_lines ++ line_range p;
      }

  -- The files that the lines of a profile give, in a map by their paths, and the uncovered items; a
  -- line that does not match is `none`.
  unfoldable pub read_lines :
      List (Option ProfileLine)
      → List (String × FileCoverage S) × List UncoveredItem
      → List (String × FileCoverage S) × List UncoveredItem
  unfolding with_line
  read_lines [] acc = acc
  read_lines (none ∷ ps) acc = read_lines ps acc
  read_lines (some p ∷ ps) acc =
      let fc : FileCoverage S = elim (lookup p.path acc.0) [
        | none ↦ new_file p.path
        | some fc ↦ fc
      ] in
      let item : UncoveredItem = record {
        file = p.path;
        start_line = p.start_line;
        end_line = p.end_line;
      } in
      read_lines ps
        (insert p.path (with_line p fc) acc.0, if ltb 0 p.count then acc.1 else acc.1 ++ item ∷ [])

  unfoldable pub totals : List (String × FileCoverage S) → CoverageReport S → CoverageReport S
  totals [] report = report
  totals ((path, fc) ∷ m) report = totals m (record report {
    files =
        report.files
        ++ record fc {
          percentage =
              if ltb 0 fc.total_lines
              then percent fc.covered_lines fc.total_lines
              else fc.percentage;
        }
          ∷ [];
    total_lines = report.total_lines + fc.total_lines;
    covered_lines = report.covered_lines + fc.covered_lines;
  })

  -- `parseGoCoverage`, after the file is read and its first line is skipped.
  unfoldable pub parse_go_coverage : List (Option ProfileLine) → CoverageReport S
  unfolding read_lines totals
  parse_go_coverage ps =
      let (m, items) = read_lines ps ([], []) in
      let report = totals m (record {
        total_lines = 0;
        covered_lines = 0;
        percentage = none_covered;
        files = [];
        uncovered = items;
      }) in
      if ltb 0 report.total_lines
      then record report { percentage = percent report.covered_lines report.total_lines }
      else report
