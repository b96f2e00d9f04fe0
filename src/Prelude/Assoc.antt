-- ===== src/Prelude/Assoc.antt =====
-- Go's maps, as association lists over a key type with a Boolean equality. The order of the entries
-- stands for one order of iteration.
use qtest.Prelude.Tests.{if◌then◌else◌, Bool-cases}
use mathlib.Core.Path.{◌≡◌, refl, sym, subst}
use mathlib.Core.Bool.{Bool, true}
use mathlib.Core.Option.{Option, none, some}
use mathlib.Core.List.{List, [], ◌∷◌}
use mathlib.Core.Logic.{◌↔◌, inl, inr}
use qtest.Prelude.Lists.{All, All-map}
use native.Mathlib.Omega.{arith}

pub record Eq {ℓ} (A : Type ℓ) : Type ℓ where
  pub beq : A → A → Bool
  pub beq_iff : (a b : A) → (beq a b ≡ true) ↔ (a ≡ b)

pub beq_refl {ℓ} : {K : Type ℓ} ⦃e : Eq K⦄ (k : K) → e.beq k k ≡ true
beq_refl ⦃e⦄ k = (e.beq_iff k k).1 refl

module _ {ℓ κ} {K : Type ℓ} {V : Type κ} ⦃e : Eq K⦄ where
  unfoldable pub lookup : K → List (K × V) → Option V
  lookup k [] = none
  lookup k ((j, v) ∷ m) = if e.beq j k then some v else lookup k m

  -- `delete(m, k)`
  unfoldable pub erase : K → List (K × V) → List (K × V)
  erase k [] = []
  erase k ((j, v) ∷ m) = let rest = erase k m in if e.beq j k then rest else (j, v) ∷ rest

  -- `m[k] = v`
  unfoldable pub insert : K → V → List (K × V) → List (K × V)
  insert k v m = (k, v) ∷ erase k m

  pub lookup-erase :
      (k j : K) (m : List (K × V)) → lookup j (erase k m) ≡ (if e.beq k j then none else lookup j m)
  unfolding lookup erase
  lookup-erase k j [] = ground arith
  lookup-erase k j ((i, v) ∷ m) =
      ground (arith, lookup-erase k j m, e.beq_iff i k, e.beq_iff i j, e.beq_iff k j)

  pub lookup-insert :
      (k j : K) (v : V) (m : List (K × V))
      → lookup j (insert k v m) ≡ (if e.beq k j then some v else lookup j m)
  unfolding lookup insert
  lookup-insert k j v m = ground (arith, lookup-erase k j m)

  pub lookup-insert_self : (k : K) (v : V) (m : List (K × V)) → lookup k (insert k v m) ≡ some v
  lookup-insert_self k v m = ground (arith, lookup-insert k k v m, beq_refl k)

  -- No key stands twice.
  abbrev pub UniqueKeys : List (K × V) → Type κ
  UniqueKeys [] = Unit
  UniqueKeys ((k, v) ∷ m) = (lookup k m ≡ none) × UniqueKeys m

  pub erase-UniqueKeys : (k : K) (m : List (K × V)) → UniqueKeys m → UniqueKeys (erase k m)
  unfolding erase
  erase-UniqueKeys k [] u = tt
  erase-UniqueKeys k ((j, v) ∷ m) u = elim (Bool-cases (e.beq j k)) [
    | inl same ↦ rw same (erase-UniqueKeys k m u.1)
    | inr other ↦ rw other (ground (arith, lookup-erase k j m), erase-UniqueKeys k m u.1)
  ]

  pub insert-UniqueKeys :
      (k : K) (v : V) (m : List (K × V)) → UniqueKeys m → UniqueKeys (insert k v m)
  unfolding insert
  insert-UniqueKeys k v m u =
      (ground (arith, lookup-erase k k m, beq_refl k), erase-UniqueKeys k m u)

  entry_behind :
      (k : K) (v : V) (m : List (K × V)) (x : K × V)
      → lookup k m ≡ none
      → lookup x.0 m ≡ some x.1
      → lookup x.0 ((k, v) ∷ m) ≡ some x.1
  unfolding lookup
  entry_behind k v m x gone h = elim (Bool-cases (e.beq k x.0)) [
    | inl same ↦
        let found : lookup k m ≡ some x.1 =
          subst (λ j. lookup j m ≡ some x.1) (sym ((e.beq_iff k x.0).0 same)) h in
        cc
    | inr other ↦ rw other h
  ]

  -- With unique keys each entry is the one that its key finds.
  pub entries-lookup :
      (m : List (K × V)) → UniqueKeys m → All (λ (x : K × V). lookup x.0 m ≡ some x.1) m
  unfolding lookup
  entries-lookup [] u = tt
  entries-lookup ((k, v) ∷ m) u = (
    ground (arith, beq_refl k),
    All-map (λ (x : K × V). lookup x.0 ((k, v) ∷ m) ≡ some x.1) (λ x h. entry_behind k v m x u.0 h)
        m (entries-lookup m u.1),
  )
