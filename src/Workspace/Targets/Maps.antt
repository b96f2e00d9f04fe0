-- ===== src/Workspace/Targets/Maps.antt =====
-- What a write to one target of internal/workspace/workspace.go does to the map of targets.
use mathlib.Core.Path.{subst}
use mathlib.Core.Option.{some-injective}
use native.Mathlib.Nat.{mod-lt}
use qtest.Prelude.{
  ℕ, zero, suc, ◌≡◌, ◌<◌, refl, ap, inl, inr, String, Bool, true, false, none, some, List, [], ◌∷◌,
  arith, All, length, select, str_eq, Bool-cases,
}
use qtest.Prelude.Assoc.{lookup, UniqueKeys, entries-lookup}
use qtest.Llm.Cache.{string_eq}
use qtest.Workspace.Targets.{
  TargetState, WorkspaceState, is_pending, adjust, nth_of, get_next_target,
}

-- Each target stands at its own id, and no id stands twice.
abbrev pub HasOwnKey : String × TargetState → Type 0
HasOwnKey e = e.0 ≡ e.1.id

pub record WellKeyed (m : List (String × TargetState)) : Type 0 where
  pub unique : UniqueKeys m
  pub own : All HasOwnKey m

abbrev pub pending_count : List (String × TargetState) → ℕ
pending_count m = length (select is_pending m)

pub lookup-adjust :
    (k : String) (f : TargetState → TargetState) (m : List (String × TargetState)) (t : TargetState)
    → lookup k m ≡ some t
    → lookup k (adjust k f m) ≡ some (f t)
unfolding lookup adjust
lookup-adjust k f [] t h = ground (arith, h)
lookup-adjust k f ((j, u) ∷ m) t h = ground (arith, h, lookup-adjust k f m t)

lookup-adjust-none :
    (k i : String) (f : TargetState → TargetState) (m : List (String × TargetState))
    → lookup i m ≡ none
    → lookup i (adjust k f m) ≡ none
unfolding lookup adjust
lookup-adjust-none k i f [] h = refl
lookup-adjust-none k i f ((j, u) ∷ m) h = ground (arith, h, lookup-adjust-none k i f m)

pub adjust-adjust :
    (k : String) (f g : TargetState → TargetState) (m : List (String × TargetState))
    → adjust k g (adjust k f m) ≡ adjust k (λ t. g (f t)) m
unfolding adjust
adjust-adjust k f g [] = refl
adjust-adjust k f g ((j, u) ∷ m) = elim (Bool-cases (str_eq j k)) [
  | inl same ↦ rw (same, same) refl
  | inr other ↦ rw (other, other) (ap (◌∷◌ (j, u)) (adjust-adjust k f g m))
]

adjust-UniqueKeys :
    (k : String) (f : TargetState → TargetState) (m : List (String × TargetState))
    → UniqueKeys m
    → UniqueKeys (adjust k f m)
unfolding adjust
adjust-UniqueKeys k f [] u = tt
adjust-UniqueKeys k f ((j, t) ∷ m) u = elim (Bool-cases (str_eq j k)) [
  | inl same ↦ rw same u
  | inr other ↦ rw other (lookup-adjust-none k j f m u.0, adjust-UniqueKeys k f m u.1)
]

adjust-HasOwnKey :
    (k : String) (f : TargetState → TargetState)
    → ((t : TargetState) → (f t).id ≡ t.id)
    → (m : List (String × TargetState)) → All HasOwnKey m
    → All HasOwnKey (adjust k f m)
unfolding adjust
adjust-HasOwnKey k f same_id [] own = tt
adjust-HasOwnKey k f same_id ((j, t) ∷ m) own = elim (Bool-cases (str_eq j k)) [
  | inl same ↦ rw same (ground (arith, own.0, same_id t), own.1)
  | inr other ↦ rw other (own.0, adjust-HasOwnKey k f same_id m own.1)
]

pub adjust-WellKeyed :
    (k : String) (f : TargetState → TargetState)
    → ((t : TargetState) → (f t).id ≡ t.id)
    → (m : List (String × TargetState)) → WellKeyed m
    → WellKeyed (adjust k f m)
adjust-WellKeyed k f same_id m v = record {
  unique = adjust-UniqueKeys k f m v.unique;
  own = adjust-HasOwnKey k f same_id m v.own;
}

-- A target that is no longer pending is one fewer.
pub pending_count-adjust :
    (k : String) (f : TargetState → TargetState) (m : List (String × TargetState)) (t : TargetState)
    → lookup k m ≡ some t
    → is_pending (k, t) ≡ true
    → is_pending (k, f t) ≡ false
    → suc (pending_count (adjust k f m)) ≡ pending_count m
unfolding lookup adjust
pending_count-adjust k f [] t h was now = ground (arith, h)
pending_count-adjust k f ((j, u) ∷ m) t h was now =
    ground (arith, h, was, now, pending_count-adjust k f m t)

nth_of-All {ℓ} :
    {A : Type ℓ} (P : A → Type 0) (n : ℕ) (xs : List A) (x : A)
    → nth_of n xs ≡ some x
    → All P xs
    → P x
unfolding nth_of
nth_of-All P n [] x h all = cc
nth_of-All P zero (y ∷ xs) x h all = subst P (some-injective y x h) all.0
nth_of-All P (suc n) (y ∷ xs) x h all = nth_of-All P n xs x h all.1

nth_of-some {ℓ} :
    {A : Type ℓ} (n : ℕ) (xs : List A) → n < length xs → (x : A) × (nth_of n xs ≡ some x)
unfolding nth_of
nth_of-some n [] h = absurd (omega (arith, h))
nth_of-some zero (x ∷ xs) h = (x, refl)
nth_of-some (suc n) (x ∷ xs) h = nth_of-some n xs (omega (arith, h))

select-All {ℓ} :
    {A : Type ℓ} (P : A → Type 0) (p : A → Bool) (xs : List A)
    → All P xs
    → All (λ x. P x × (p x ≡ true)) (select p xs)
select-All P p [] all = tt
select-All P p (x ∷ xs) all = elim (Bool-cases (p x)) [
  | inl passes ↦ rw passes ((all.0, passes), select-All P p xs all.1)
  | inr fails ↦ rw fails (select-All P p xs all.1)
]

-- The next target is one of the map, and pending.
pub get_next_target-some :
    (choice : ℕ) (s : WorkspaceState) (e : String × TargetState)
    → WellKeyed s.targets
    → get_next_target choice s ≡ some e
    → (lookup e.0 s.targets ≡ some e.1) × (e.0 ≡ e.1.id) × (is_pending e ≡ true)
unfolding get_next_target
get_next_target-some choice s e v h =
    let (l, p) =
      nth_of-All _ _ _ e h
        (select-All _ is_pending s.targets (entries-lookup s.targets v.unique)) in
    (l, (nth_of-All _ _ _ e h (select-All _ is_pending s.targets v.own)).0, p)

-- There is a next target as long as one is pending.
pub get_next_target-pending :
    (choice : ℕ) (s : WorkspaceState)
    → 0 < pending_count s.targets
    → (e : String × TargetState) × (get_next_target choice s ≡ some e)
unfolding get_next_target
get_next_target-pending choice s h = nth_of-some _ (select is_pending s.targets) (mod-lt choice h)

pub get_next_target-none :
    (choice : ℕ) (s : WorkspaceState)
    → get_next_target choice s ≡ none
    → pending_count s.targets ≡ 0
get_next_target-none choice s h = ground (arith, h, get_next_target-pending choice s)
