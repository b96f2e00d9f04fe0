-- ===== src/Prelude/Sort.antt =====
-- Sorting by a Boolean order, with what it keeps and what it ensures.
use mathlib.Core.Path.{◌≡◌}
use mathlib.Core.Bool.{Bool, true, false}
use mathlib.Core.Logic.{inl, inr}
use mathlib.Core.List.{List, [], ◌∷◌, Perm}
use mathlib.Core.List.Perm
use qtest.Prelude.Tests.{if◌then◌else◌, Bool-cases}
use qtest.Prelude.Lists.{All, All-map}

module _ {ℓ} {A : Type ℓ} where
  -- A stable sort: `place` puts an element before the first that it does not come after.
  unfoldable pub place : (A → A → Bool) → A → List A → List A
  place before r [] = r ∷ []
  place before r (x ∷ xs) = if before x r then x ∷ place before r xs else r ∷ x ∷ xs

  unfoldable pub order_by : (A → A → Bool) → List A → List A
  unfolding place
  order_by before [] = []
  order_by before (r ∷ rs) = place before r (order_by before rs)

  -- No later element comes before an earlier one.
  abbrev pub Ordered : (A → A → Bool) → List A → Type 0
  Ordered before [] = Unit
  Ordered before (r ∷ rs) = All (λ x. before x r ≡ false) rs × Ordered before rs

  -- What a sort needs of an order.
  pub record IsOrder (before : A → A → Bool) : Type ℓ where
    pub asymmetric : (a b : A) → before a b ≡ true → before b a ≡ false
    pub weak : (a b c : A) → before b a ≡ false → before c b ≡ false → before c a ≡ false

  place-perm : (before : A → A → Bool) (r : A) (xs : List A) → Perm (place before r xs) (r ∷ xs)
  unfolding place
  place-perm before r [] = Perm.refl _
  place-perm before r (x ∷ xs) = elim (Bool-cases (before x r)) [
    | inl first ↦ rw first (Perm.trans (Perm.cons x (place-perm before r xs)) (Perm.swap r x xs))
    | inr later ↦ rw later (Perm.refl _)
  ]

  pub order_by-perm : (before : A → A → Bool) (xs : List A) → Perm (order_by before xs) xs
  unfolding order_by
  order_by-perm before [] = Perm.refl _
  order_by-perm before (x ∷ xs) =
      Perm.trans (place-perm before x (order_by before xs)) (Perm.cons x (order_by-perm before xs))

  pub All-place {κ} :
      (P : A → Type κ) (before : A → A → Bool) (r : A) (xs : List A)
      → P r
      → All P xs
      → All P (place before r xs)
  unfolding place
  All-place P before r [] p h = (p, tt)
  All-place P before r (x ∷ xs) p h = elim (Bool-cases (before x r)) [
    | inl first ↦ rw first (h.0, All-place P before r xs p h.1)
    | inr later ↦ rw later (p, h)
  ]

  place-Ordered :
      (before : A → A → Bool)
      → IsOrder before
      → (r : A) (xs : List A) → Ordered before xs
      → Ordered before (place before r xs)
  unfolding place
  place-Ordered before o r [] h = (tt, tt)
  place-Ordered before o r (x ∷ xs) h = elim (Bool-cases (before x r)) [
    | inl first ↦ rw first (
      All-place (λ y. before y x ≡ false) before r xs (o.asymmetric x r first) h.0,
      place-Ordered before o r xs h.1,
    )
    | inr later ↦ rw later ((later, All-map _ (λ y n. o.weak r x y later n) xs h.0), h)
  ]

  pub order_by-Ordered :
      (before : A → A → Bool) → IsOrder before → (xs : List A) → Ordered before (order_by before xs)
  unfolding order_by
  order_by-Ordered before o [] = tt
  order_by-Ordered before o (x ∷ xs) = place-Ordered before o x _ (order_by-Ordered before o xs)
