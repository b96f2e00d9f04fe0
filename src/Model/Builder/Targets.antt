-- ===== src/Model/Builder/Targets.antt =====
-- pkg/model/builder.go: the targets that `generateTestTargets` makes.
pub mod Described
use qtest.Prelude.{
  ℕ, ◌+◌, ◌≡◌, refl, ◌∙◌, String, Bool, true, false, ◌&&◌, ◌||◌, List, [], ◌∷◌, ◌++◌, arith, All,
  All-map, All-append, ap, not, select, ◌≤◌, Bool-cases, inl, inr, str_eq, if◌then◌else◌, length,
  length-append,
}
use qtest.Model.Types.{Function, Endpoint, TestTarget, TargetKind, unit_target, SystemModel}
use qtest.Model.Builder.Modules.{str_eq_refl}
use qtest.Model.Builder.Analysis.{
  Risks, endpoint_targets, endpoint_target, score_at, add_high_risk, high_risk_targets,
  already_added, add_remaining, remaining_targets, generate_test_targets,
}
use qtest.Model.Builder.Targets.Described.{
  endpoints_present, Extends, Extends-refl, Extends-snoc, Extends-trans, IsOk, IsOk-snoc,
  IsTargeted, Numbered, Numbered-snoc, added-targets_function, already_added-append,
  already_added_last, exported_present, has_endpoint, has_exported, is_warranted, targets_endpoint,
  targets_endpoint-append, targets_endpoint_last, targets_function,
}

module _ {ℓ} {S : Type ℓ} (risks : Risks S) (m : SystemModel S) where
  endpoint_targets-IsOk :
      (eps : List Endpoint) (ts : List (TestTarget S)) (n : ℕ)
      → All (λ (e : Endpoint). has_endpoint e.id m.endpoints ≡ true) eps
      → IsOk m ts n
      → IsOk m (endpoint_targets risks eps ts n).0 (endpoint_targets risks eps ts n).1
        × Extends ts (endpoint_targets risks eps ts n).0
        × All
            (λ (e : Endpoint). targets_endpoint e.id (endpoint_targets risks eps ts n).0 ≡ true)
            eps
  unfolding endpoint_targets
  endpoint_targets-IsOk [] ts n a o = (o, Extends-refl ts, tt)
  endpoint_targets-IsOk (e ∷ eps) ts n a o =
      let t = endpoint_target risks n e in
      let (o', x, all) =
        endpoint_targets-IsOk eps (ts ++ t ∷ []) (n + 1) a.1 (IsOk-snoc m ts n t o refl a.0) in
      (
        o',
        Extends-trans (Extends-snoc ts t) x,
        (x.endpoints e.id (targets_endpoint_last ts t), all),
      )

  -- One function of a loop: nothing is added, or a target of its own.
  data Step (fn : Function) (ts : List (TestTarget S)) (n : ℕ)
      : List (TestTarget S) × ℕ → Type ℓ where
    skipped : Step fn ts n (ts, n)
    taken :
        (t : TestTarget S)
        → t.priority ≡ n
        → t.kind ≡ unit_target
        → t.function_id ≡ fn.id
        → fn.exported ≡ true
        → Step fn ts n (ts ++ t ∷ [], n + 1)

  Step-IsOk :
      {fn : Function} {ts : List (TestTarget S)} {n : ℕ} {r : List (TestTarget S) × ℕ}
      → Step fn ts n r
      → (fn.exported ≡ true → has_exported fn.id m.functions ≡ true)
      → IsOk m ts n
      → IsOk m r.0 r.1 × Extends ts r.0
  Step-IsOk skipped e o = (o, Extends-refl _)
  Step-IsOk {fn} {ts} {n} (taken t p k f x) e o =
      (IsOk-snoc m ts n t o p (rw (k, f) (e x)), Extends-snoc ts t)

  Step-Extends :
      {fn : Function} {ts : List (TestTarget S)} {n : ℕ} {r : List (TestTarget S) × ℕ}
      → Step fn ts n r
      → Extends ts r.0
  Step-Extends skipped = Extends-refl _
  Step-Extends {fn} {ts} {n} (taken t p k f x) = Extends-snoc ts t

  add_high_risk-Step :
      (fn : Function) (ts : List (TestTarget S)) (n : ℕ)
      → Step fn ts n (add_high_risk risks m fn ts n)
  unfolding add_high_risk
  add_high_risk-Step fn ts n = elim (Bool-cases fn.exported) [
    | inr hidden ↦ rw hidden skipped
    | inl shown ↦ elim (Bool-cases (risks.above_half (score_at risks m fn))) [
      | inl risky ↦ rw (shown, risky) (taken _ refl refl refl refl)
      | inr calm ↦ rw (shown, calm) skipped
    ]
  ]

  add_remaining-Step :
      (fn : Function) (ts : List (TestTarget S)) (n : ℕ)
      → Step fn ts n (add_remaining risks m fn ts n)
  unfolding add_remaining
  add_remaining-Step fn ts n = elim (Bool-cases fn.exported) [
    | inr hidden ↦ rw hidden skipped
    | inl shown ↦ elim (Bool-cases (already_added fn.id ts)) [
      | inl there ↦ rw (shown, there) skipped
      | inr new ↦ rw (shown, new) (taken _ refl refl refl refl)
    ]
  ]

  add_remaining-adds :
      (fn : Function) (ts : List (TestTarget S)) (n : ℕ)
      → fn.exported ≡ true
      → already_added fn.id (add_remaining risks m fn ts n).0 ≡ true
  unfolding add_remaining
  add_remaining-adds fn ts n shown = elim (Bool-cases (already_added fn.id ts)) [
    | inl there ↦ rw (shown, there) there
    | inr new ↦ rw (shown, new) (already_added_last ts _)
  ]

  high_risk_targets-IsOk :
      (fns : List Function) (ts : List (TestTarget S)) (n : ℕ)
      → All (λ (f : Function). f.exported ≡ true → has_exported f.id m.functions ≡ true) fns
      → IsOk m ts n
      → IsOk m (high_risk_targets risks m fns ts n).0 (high_risk_targets risks m fns ts n).1
        × Extends ts (high_risk_targets risks m fns ts n).0
  unfolding high_risk_targets
  high_risk_targets-IsOk [] ts n a o = (o, Extends-refl ts)
  high_risk_targets-IsOk (f ∷ fns) ts n a o =
      let (o', x) = Step-IsOk (add_high_risk-Step f ts n) a.0 o in
      let (o'', y) = high_risk_targets-IsOk fns _ _ a.1 o' in (o'', Extends-trans x y)

  remaining_targets-IsOk :
      (fns : List Function) (ts : List (TestTarget S)) (n : ℕ)
      → All (λ (f : Function). f.exported ≡ true → has_exported f.id m.functions ≡ true) fns
      → IsOk m ts n
      → IsOk m (remaining_targets risks m fns ts n).0 (remaining_targets risks m fns ts n).1
        × Extends ts (remaining_targets risks m fns ts n).0
        × All
            (λ (f : Function).
              f.exported ≡ true → already_added f.id (remaining_targets risks m fns ts n).0 ≡ true)
            fns
  unfolding remaining_targets
  remaining_targets-IsOk [] ts n a o = (o, Extends-refl ts, tt)
  remaining_targets-IsOk (f ∷ fns) ts n a o =
      let (o', x) = Step-IsOk (add_remaining-Step f ts n) a.0 o in
      let (o'', y, all) = remaining_targets-IsOk fns _ _ a.1 o' in
      (o'', Extends-trans x y, ((λ e. y.functions f.id (add_remaining-adds f ts n e)), all))

  abbrev is_high : Function → Bool
  is_high f = f.exported && risks.above_half (score_at risks m f)

  abbrev is_low : Function → Bool
  is_low f = f.exported && not (risks.above_half (score_at risks m f))

  abbrev AddedIfHigh : List (TestTarget S) → Function → Type 0
  AddedIfHigh ts f = is_high f ≡ true → already_added f.id ts ≡ true

  endpoint_targets-length :
      (eps : List Endpoint) (ts : List (TestTarget S)) (n : ℕ)
      → length (endpoint_targets risks eps ts n).0 ≡ length ts + length eps
  unfolding endpoint_targets
  endpoint_targets-length [] ts n = omega arith
  endpoint_targets-length (e ∷ eps) ts n =
      let t = endpoint_target risks n e in
      omega (arith, endpoint_targets-length eps (ts ++ t ∷ []) (n + 1), length-append ts (t ∷ []))

  add_high_risk-length :
      (f : Function) (ts : List (TestTarget S)) (n : ℕ)
      → length (add_high_risk risks m f ts n).0 ≡ length ts + (if is_high f then 1 else 0)
  unfolding add_high_risk
  add_high_risk-length f ts n = elim (Bool-cases f.exported) [
    | inr hidden ↦ rw hidden (omega arith)
    | inl shown ↦ elim (Bool-cases (risks.above_half (score_at risks m f))) [
      | inl risky ↦ rw (shown, risky) (length-append ts _)
      | inr calm ↦ rw (shown, calm) (omega arith)
    ]
  ]

  add_high_risk-adds :
      (f : Function) (ts : List (TestTarget S)) (n : ℕ)
      → AddedIfHigh (add_high_risk risks m f ts n).0 f
  unfolding add_high_risk
  add_high_risk-adds f ts n h = elim (Bool-cases f.exported) [
    | inr hidden ↦ absurd (ground (arith, h))
    | inl shown ↦ elim (Bool-cases (risks.above_half (score_at risks m f))) [
      | inl risky ↦ rw (shown, risky) (already_added_last ts _)
      | inr calm ↦ absurd (ground (arith, h))
    ]
  ]

  high_risk_targets-length :
      (fns : List Function) (ts : List (TestTarget S)) (n : ℕ)
      → (length (high_risk_targets risks m fns ts n).0 ≡ length ts + length (select is_high fns))
        × Extends ts (high_risk_targets risks m fns ts n).0
        × All (AddedIfHigh (high_risk_targets risks m fns ts n).0) fns
  unfolding high_risk_targets
  high_risk_targets-length [] ts n = (omega arith, Extends-refl ts, tt)
  high_risk_targets-length (f ∷ fns) ts n =
      let r = add_high_risk risks m f ts n in
      let (few, x, all) = high_risk_targets-length fns r.0 r.1 in
      (
        ground (arith, few, add_high_risk-length f ts n),
        Extends-trans (Step-Extends (add_high_risk-Step f ts n)) x,
        ((λ h. x.functions f.id (add_high_risk-adds f ts n h)), all),
      )

  add_remaining-length :
      (f : Function) (ts : List (TestTarget S)) (n : ℕ)
      → AddedIfHigh ts f
      → length (add_remaining risks m f ts n).0 ≤ length ts + (if is_low f then 1 else 0)
  unfolding add_remaining
  add_remaining-length f ts n h = elim (Bool-cases f.exported) [
    | inr hidden ↦ rw hidden (omega arith)
    | inl shown ↦ elim (Bool-cases (already_added f.id ts)) [
      | inl there ↦ rw (shown, there) (omega arith)
      | inr new ↦ elim (Bool-cases (risks.above_half (score_at risks m f))) [
        | inl risky ↦ absurd (ground (arith, h))
        | inr calm ↦ rw (shown, new, calm) (omega (arith, length-append ts (_ ∷ [])))
      ]
    ]
  ]

  remaining_targets-length :
      (fns : List Function) (ts : List (TestTarget S)) (n : ℕ)
      → All (AddedIfHigh ts) fns
      → length (remaining_targets risks m fns ts n).0 ≤ length ts + length (select is_low fns)
  unfolding remaining_targets
  remaining_targets-length [] ts n a = omega arith
  remaining_targets-length (f ∷ fns) ts n a =
      let r = add_remaining risks m f ts n in
      let x = Step-Extends (add_remaining-Step f ts n) in
      let later =
        remaining_targets-length fns r.0 r.1
          (All-map _ (λ g k h. x.functions g.id (k h)) fns a.1) in
      ground (arith, later, add_remaining-length f ts n a.0)

  high_and_low :
      (fns : List Function)
      → length (select is_high fns) + length (select is_low fns)
        ≡ length (select (λ f. f.exported) fns)
  high_and_low [] = refl
  high_and_low (f ∷ fns) = ground (arith, high_and_low fns)

  -- From a model without targets: each endpoint and each exported function gets a target, no target
  -- is for anything else, there are no more targets than
  -- endpoints and exported functions, and the priorities count 1, 2, 3 and so on in the order of the targets.
  pub generate_test_targets-IsTargeted :
      m.test_targets ≡ [] → IsTargeted (generate_test_targets risks m)
  unfolding generate_test_targets
  generate_test_targets-IsTargeted none_yet =
      let start : IsOk m m.test_targets 1 = record {
        numbered = rw none_yet tt;
        next = rw none_yet refl;
        warranted = rw none_yet tt;
      } in
      let (o, x, eps) =
        endpoint_targets-IsOk m.endpoints m.test_targets 1 (endpoints_present m.endpoints) start in
      let present = exported_present m.functions in
      let (o', y) = high_risk_targets-IsOk m.functions _ _ present o in
      let (o'', z, fns) = remaining_targets-IsOk m.functions _ _ present o' in
      let later = Extends-trans y z in
      let first = endpoint_targets risks m.endpoints m.test_targets 1 in
      let (more, _, added) = high_risk_targets-length m.functions first.0 first.1 in
      let second = high_risk_targets risks m m.functions first.0 first.1 in
      record {
        few = omega (
          arith,
          endpoint_targets-length m.endpoints m.test_targets 1,
          ap length none_yet,
          more,
          remaining_targets-length m.functions second.0 second.1 added,
          high_and_low m.functions,
        );
        numbered = o''.numbered;
        warranted = o''.warranted;
        endpoints = All-map _ (λ e h. later.endpoints e.id h) m.endpoints eps;
        functions = All-map _ (λ f h e. added-targets_function f.id _ (h e)) m.functions fns;
      }
