-- ===== src/Coverage/Analyzer/Tests.antt =====
-- Runs of internal/codecov.
use qtest.Prelude.{ℕ, ◌≡◌, ◌↔◌, refl, true, Option, none, some, List, [], ◌∷◌}
use qtest.Prelude.Assoc.{lookup, insert, erase}
use qtest.Prelude.Sort.{order_by, place}
use qtest.Coverage.Collector.{
  FileCoverage, ProfileLine, parse_go_coverage, read_lines, with_line, lines_from, totals,
}
use qtest.Coverage.Gaps.{has, blocks, group_all, group}
use qtest.Coverage.Gaps.Lines.{Distinct, in_blocks, OneOfFour}
use qtest.Coverage.Gaps.Blocks.{blocks-OneOfFour}

-- Lines 3 to 7, and 20, in the order of a profile.
abbrev uncovered : List ℕ
uncovered = 5 ∷ 6 ∷ 7 ∷ 20 ∷ 3 ∷ 4 ∷ []

uncovered-Distinct : Distinct uncovered
unfolding has
uncovered-Distinct = (refl, (refl, (refl, (refl, (refl, (refl, tt))))))

one_block : blocks uncovered ≡ (3, 7) ∷ []
unfolding blocks group_all group order_by place
one_block = refl

blocks-OneOfFour_example :
    (in_blocks 6 (blocks uncovered) ≡ true) ↔ OneOfFour (λ m. has m uncovered) 6
blocks-OneOfFour_example = blocks-OneOfFour uncovered uncovered-Distinct 6

-- Two parts of a profile that share line 5, as the two sides of a brace do.
abbrev profile : List (Option ProfileLine)
profile =
    some (record { path = "a.go"; start_line = 3; end_line = 5; statements = 2; count = 0 })
    ∷ none
    ∷ some (record { path = "a.go"; start_line = 5; end_line = 7; statements = 1; count = 0 })
    ∷ []

abbrev uncovered_of : List (FileCoverage ℕ) → List ℕ
uncovered_of [] = []
uncovered_of (f ∷ fs) = f.uncovered_lines

-- The shared line is listed twice, and no block is reported for the five lines.
shared_line :
    uncovered_of (parse_go_coverage 0 (λ c t. c) profile).files ≡ 3 ∷ 4 ∷ 5 ∷ 5 ∷ 6 ∷ 7 ∷ []
unfolding parse_go_coverage read_lines with_line lines_from totals lookup insert erase
shared_line = refl

no_block : blocks (3 ∷ 4 ∷ 5 ∷ 5 ∷ 6 ∷ 7 ∷ []) ≡ []
unfolding blocks group_all group order_by place
no_block = refl
