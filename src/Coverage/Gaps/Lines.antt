-- ===== src/Coverage/Gaps/Lines.antt =====
-- Lists of lines, sorted, and runs of them, for internal/codecov/analyzer.go.
use qtest.Prelude.{
  ℕ, ◌+◌, ◌≤◌, ◌<◌, ◌≡◌, refl, ◌∙◌, inl, inr, Bool, true, false, ◌&&◌, ◌||◌, List, [], ◌∷◌, arith,
  All, All-map, Bool-cases, ltb, leb,
}
use qtest.Prelude.Sort.{place, order_by, All-place}
use qtest.Coverage.Gaps.{has}

-- Whether a line is in one of the blocks.
unfoldable pub in_blocks : ℕ → List (ℕ × ℕ) → Bool
in_blocks n [] = false
in_blocks n (b ∷ bs) = (leb b.0 n && leb n b.1) || in_blocks n bs

-- No line stands twice.
abbrev pub Distinct : List ℕ → Type 0
Distinct [] = Unit
Distinct (x ∷ xs) = (has x xs ≡ false) × Distinct xs

abbrev pub Increasing : List ℕ → Type 0
Increasing [] = Unit
Increasing (x ∷ xs) = All (λ y. x < y) xs × Increasing xs

-- Four lines from `a` on satisfy a test.
abbrev pub FourFrom : (ℕ → Bool) → ℕ → Type 0
FourFrom p a = (n : ℕ) → a ≤ n → n ≤ a + 3 → p n ≡ true

-- The lines of the open group and of those still to come.
abbrev pub ahead : (start end : ℕ) → List ℕ → ℕ → Bool
ahead start end ls n = (leb start n && leb n end) || has n ls

has-place : (n r : ℕ) (xs : List ℕ) → has n (place ltb r xs) ≡ has n (r ∷ xs)
unfolding has place
has-place n r [] = refl
has-place n r (x ∷ xs) = ground (arith, has-place n r xs)

pub has-order_by : (n : ℕ) (xs : List ℕ) → has n (order_by ltb xs) ≡ has n xs
unfolding has order_by
has-order_by n [] = refl
has-order_by n (x ∷ xs) = ground (arith, has-order_by n xs, has-place n x (order_by ltb xs))

place-Increasing :
    (r : ℕ) (xs : List ℕ) → has r xs ≡ false → Increasing xs → Increasing (place ltb r xs)
unfolding has place
place-Increasing r [] h inc = (tt, tt)
place-Increasing r (x ∷ xs) h inc = elim (Bool-cases (ltb x r)) [
  | inl first ↦ rw first (
    All-place (λ y. x < y) ltb r xs (ground (arith, first)) inc.0,
    place-Increasing r xs (ground (arith, h)) inc.1,
  )
  | inr later ↦
      let below : r < x = ground (arith, h, later) in
      rw later
        ((below, All-map (λ y. r < y) (λ y above. omega (arith, below, above)) xs inc.0), inc)
]

pub order_by-Increasing : (xs : List ℕ) → Distinct xs → Increasing (order_by ltb xs)
unfolding order_by
order_by-Increasing [] d = tt
order_by-Increasing (x ∷ xs) d =
    place-Increasing x (order_by ltb xs) (has-order_by x xs ∙ d.0) (order_by-Increasing xs d.1)

pub has-above : (e n : ℕ) (ls : List ℕ) → All (λ y. e < y) ls → has n ls ≡ true → e < n
unfolding has
has-above e n [] above h = cc
has-above e n (l ∷ ls) above h = ground (arith, h, above.0, has-above e n ls above.1)

-- The line is one of four that follow each other and satisfy a test.
abbrev pub OneOfFour : (ℕ → Bool) → ℕ → Type 0
OneOfFour p n = (a : ℕ) × (a ≤ n) × (n ≤ a + 3) × FourFrom p a
