-- ===== src/Coverage/Gaps/Blocks.antt =====
-- The blocks that internal/codecov/analyzer.go reports are the long runs of uncovered lines.
use qtest.Prelude.{
  ℕ, ◌+◌, ◌-◌, ◌≤◌, ◌<◌, ◌≡◌, ◌↔◌, sym, ap, ◌∙◌, inl, inr, Bool, true, false, List, [], ◌∷◌, arith,
  All, Bool-cases, ltb, leb, ◌==◌, if◌then◌else◌,
}
use qtest.Prelude.Sort.{order_by}
use qtest.Coverage.Gaps.{has, group, group_all, blocks}
use qtest.Coverage.Gaps.Groups.{group-OneOfFour, in_none, group-next, group-gap, alone}
use qtest.Coverage.Gaps.Lines.{
  in_blocks, Distinct, Increasing, FourFrom, OneOfFour, ahead, has-order_by, order_by-Increasing,
  has-above,
}

in_blocks-first :
    (n start end : ℕ) (bs : List (ℕ × ℕ))
    → 3 ≤ end - start
    → start ≤ n
    → n ≤ end
    → in_blocks n (if leb 3 (end - start) then (start, end) ∷ bs else bs) ≡ true
unfolding in_blocks
in_blocks-first n start end bs long lo hi = ground (arith, long, lo, hi)

in_blocks-rest :
    (n start end : ℕ) (bs : List (ℕ × ℕ))
    → in_blocks n bs ≡ true
    → in_blocks n (if leb 3 (end - start) then (start, end) ∷ bs else bs) ≡ true
unfolding in_blocks
in_blocks-rest n start end bs h = ground (arith, h)

-- A line ahead that is not past the open group is in it.
ahead-open :
    (start end : ℕ) (ls : List ℕ) (m : ℕ)
    → All (λ y. end < y) ls
    → ahead start end ls m ≡ true
    → m ≤ end
    → start ≤ m
ahead-open start end ls m above h hi = ground (arith, h, hi, has-above end m ls above)

-- Behind a gap four lines are in what follows.
FourFrom-gap :
    (start end l : ℕ) (ls : List ℕ) (a : ℕ)
    → All (λ y. end < y) (l ∷ ls)
    → All (λ y. l < y) ls
    → (l == end + 1) ≡ false
    → end < a + 3
    → FourFrom (ahead start end (l ∷ ls)) a
    → FourFrom (ahead l l ls) a
unfolding has
FourFrom-gap start end l ls a above inc gap over four m lo hi =
    elim (Bool-cases (leb a (end + 1))) [
      | inl early ↦
          let touched = four (end + 1) (ground (arith, early)) (omega (arith, over)) in
          absurd (ground (arith, touched, gap, above.0, has-above l (end + 1) ls inc))
      | inr late ↦ let there = four m lo hi in ground (arith, there, late, lo)
    ]

ahead-none : (start end m : ℕ) → ahead start end [] m ≡ true → m ≤ end
unfolding has
ahead-none start end m h = ground (arith, h)

ahead-next :
    (start end l : ℕ) (ls : List ℕ) (m : ℕ)
    → start ≤ end
    → l ≡ end + 1
    → ahead start end (l ∷ ls) m ≡ true
    → ahead start l ls m ≡ true
unfolding has
ahead-next start end l ls m ordered next h = ground (arith, ordered, next, h)

group_complete :
    (start end : ℕ) (ls : List ℕ) (a n : ℕ)
    → start ≤ end
    → All (λ y. end < y) ls
    → Increasing ls
    → FourFrom (ahead start end ls) a
    → a ≤ n
    → n ≤ a + 3
    → in_blocks n (group start end ls) ≡ true
unfolding group
group_complete start end [] a n ordered above inc four lo hi =
    let first = ahead-open start end [] a tt (four a (omega arith) (omega arith)) in
    let last : a + 3 ≤ end =
      ahead-none start end (a + 3) (four (a + 3) (omega arith) (omega arith)) in
    in_blocks-first n start end [] (omega (arith, first (omega (arith, last)), last))
      (omega (arith, first (omega (arith, last)), lo)) (omega (arith, last, hi))
group_complete start end (l ∷ ls) a n ordered above inc four lo hi =
    elim (Bool-cases (l == end + 1)) [
      | inl next ↦
          ap (in_blocks n) (group-next start end l ls next)
          ∙ group_complete start l ls a n (ground (arith, ordered, next)) inc.0 inc.1
              (λ m from to.
                ahead-next start end l ls m ordered (ground (arith, next)) (four m from to))
              lo hi
      | inr gap ↦
          ap (in_blocks n) (group-gap start end l ls gap) ∙ elim (Bool-cases (leb (a + 3) end)) [
            | inl inside ↦
                let last : a + 3 ≤ end = ground (arith, inside) in
                let first =
                  ahead-open start end (l ∷ ls) a above (four a (omega arith) (omega arith))
                    (omega (arith, last)) in
                in_blocks-first n start end _ (omega (arith, first, last))
                  (omega (arith, first, lo)) (omega (arith, last, hi))
            | inr over ↦ in_blocks-rest n start end _ (
                group_complete l l ls a n (omega arith) inc.0 inc.1
                  (FourFrom-gap start end l ls a above inc.0 gap (ground (arith, over)) four) lo hi)
          ]
    ]

has-All :
    (xs ys : List ℕ) → ((n : ℕ) → has n ys ≡ true → has n xs ≡ true) → All (λ l. has l xs ≡ true) ys
unfolding has
has-All xs [] h = tt
has-All xs (y ∷ ys) h = (h y (ground arith), has-All xs ys (λ n there. h n (ground (arith, there))))

group_all-OneOfFour :
    (p : ℕ → Bool) (xs : List ℕ)
    → All (λ l. p l ≡ true) xs
    → (n : ℕ) → in_blocks n (group_all xs) ≡ true
    → OneOfFour p n
unfolding group_all
group_all-OneOfFour p [] all n h = absurd (in_none n h)
group_all-OneOfFour p (l ∷ ls) all n h = group-OneOfFour p l l ls (alone p l all.0) all.1 n h

group_all_complete :
    (xs : List ℕ)
    → Increasing xs
    → (n : ℕ) → OneOfFour (λ m. has m xs) n
    → in_blocks n (group_all xs) ≡ true
unfolding group_all has in_blocks
group_all_complete [] inc n (a, lo, hi, four) = four a (omega arith) (omega arith)
group_all_complete (l ∷ ls) inc n (a, lo, hi, four) =
    group_complete l l ls a n (omega arith) inc.0 inc.1
      (λ m from to. ground (arith, four m from to)) lo hi

-- If no uncovered line of a file stands twice in the report, then a line is in one of the blocks
-- that are reported for the file if and only if it is one of four lines in a row that are uncovered.
pub blocks-OneOfFour :
    (lines : List ℕ)
    → Distinct lines
    → (n : ℕ) → (in_blocks n (blocks lines) ≡ true) ↔ OneOfFour (λ m. has m lines) n
unfolding blocks
blocks-OneOfFour lines d n = (
  λ h.
      group_all-OneOfFour (λ m. has m lines) (order_by ltb lines)
        (has-All lines (order_by ltb lines) (λ m there. sym (has-order_by m lines) ∙ there)) n h,
  λ (a, lo, hi, four).
      group_all_complete (order_by ltb lines) (order_by-Increasing lines d) n
        (a, lo, hi, λ m from to. has-order_by m lines ∙ four m from to),
)
