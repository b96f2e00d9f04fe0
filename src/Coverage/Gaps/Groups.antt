-- ===== src/Coverage/Gaps/Groups.antt =====
-- The groups of lines of internal/codecov/analyzer.go have four lines in a row around each of theirs.
use qtest.Prelude.{
  ℕ, ◌+◌, ◌-◌, ◌≤◌, ◌<◌, ◌≡◌, ◌⊎◌, refl, sym, ap, ◌∙◌, inl, inr, Bool, true, false, ◌&&◌, List, [],
  ◌∷◌, arith, All, Bool-cases, leb, ◌==◌, if◌then◌else◌,
}
use qtest.Coverage.Gaps.{group}
use qtest.Coverage.Gaps.Lines.{in_blocks, OneOfFour}

block-OneOfFour :
    (p : ℕ → Bool) (start end n : ℕ)
    → ((m : ℕ) → start ≤ m → m ≤ end → p m ≡ true)
    → 3 ≤ end - start
    → start ≤ n
    → n ≤ end
    → OneOfFour p n
block-OneOfFour p start end n inside long lo hi = elim (Bool-cases (leb (n + 3) end)) [
  | inl fits ↦
      let fits' : n + 3 ≤ end = ground (arith, fits) in
      (
        n,
        omega arith,
        omega arith,
        λ m l h. inside m (omega (arith, l, lo)) (omega (arith, h, fits')),
      )
  | inr over ↦
      let over' : end < n + 3 = ground (arith, over) in
      (
        end - 3,
        omega (arith, over', long),
        omega (arith, hi, long),
        λ m l h. inside m (omega (arith, l, long)) (omega (arith, h, long)),
      )
]

-- In an open group, and then in what follows.
in_blocks-cons :
    (n start end : ℕ) (bs : List (ℕ × ℕ))
    → in_blocks n (if leb 3 (end - start) then (start, end) ∷ bs else bs) ≡ true
    → ((3 ≤ end - start) × (start ≤ n) × (n ≤ end)) ⊎ (in_blocks n bs ≡ true)
unfolding in_blocks
in_blocks-cons n start end bs h =
    elim (Bool-cases (leb 3 (end - start) && leb start n && leb n end)) [
      | inl within ↦ inl (ground (arith, within), ground (arith, within), ground (arith, within))
      | inr without ↦ inr (ground (arith, h, without))
    ]

pub in_none : (n : ℕ) → ¬ (in_blocks n [] ≡ true)
unfolding in_blocks
in_none n e = cc

pub group-next :
    (start end l : ℕ) (ls : List ℕ)
    → (l == end + 1) ≡ true
    → group start end (l ∷ ls) ≡ group start l ls
unfolding group
group-next start end l ls next = rw next refl

pub group-gap :
    (start end l : ℕ) (ls : List ℕ)
    → (l == end + 1) ≡ false
    → group start end (l ∷ ls)
      ≡ (if leb 3 (end - start) then (start, end) ∷ group l l ls else group l l ls)
unfolding group
group-gap start end l ls gap = rw gap refl

grown :
    (p : ℕ → Bool) (start end l : ℕ)
    → ((m : ℕ) → start ≤ m → m ≤ end → p m ≡ true)
    → p l ≡ true
    → l ≡ end + 1
    → (m : ℕ) → start ≤ m
    → m ≤ l
    → p m ≡ true
grown p start end l inside at next m lo hi = elim (Bool-cases (m == l)) [
  | inl same ↦ let e : m ≡ l = ground (arith, same) in ap p e ∙ at
  | inr other ↦ inside m lo (ground (arith, hi, next, other))
]

pub alone : (p : ℕ → Bool) (l : ℕ) → p l ≡ true → (m : ℕ) → l ≤ m → m ≤ l → p m ≡ true
alone p l at m lo hi = let e : m ≡ l = omega (arith, lo, hi) in ap p e ∙ at

pub group-OneOfFour :
    (p : ℕ → Bool) (start end : ℕ) (ls : List ℕ)
    → ((m : ℕ) → start ≤ m → m ≤ end → p m ≡ true)
    → All (λ l. p l ≡ true) ls
    → (n : ℕ) → in_blocks n (group start end ls) ≡ true
    → OneOfFour p n
unfolding group
group-OneOfFour p start end [] inside ahead' n h = elim (in_blocks-cons n start end [] h) [
  | inl (long, lo, hi) ↦ block-OneOfFour p start end n inside long lo hi
  | inr nothing ↦ absurd (in_none n nothing)
]
group-OneOfFour p start end (l ∷ ls) inside ahead' n h = elim (Bool-cases (l == end + 1)) [
  | inl next ↦
      group-OneOfFour p start l ls (grown p start end l inside ahead'.0 (ground (arith, next)))
        ahead'.1 n (sym (ap (in_blocks n) (group-next start end l ls next)) ∙ h)
  | inr gap ↦
      elim (in_blocks-cons n start end (group l l ls)
        (sym (ap (in_blocks n) (group-gap start end l ls gap)) ∙ h)) [
          | inl (long, lo, hi) ↦ block-OneOfFour p start end n inside long lo hi
          | inr later ↦ group-OneOfFour p l l ls (alone p l ahead'.0) ahead'.1 n later
        ]
]
