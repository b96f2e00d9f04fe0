-- ===== src/Model/Builder/Targets/Described.antt =====
-- pkg/model/builder.go: what the lists of test targets are like that `generateTestTargets` makes, and
-- how they grow by a target.
use qtest.Prelude.{
  ℕ, ◌+◌, ◌≡◌, ◌∙◌, String, Bool, true, false, ◌&&◌, ◌||◌, List, [], ◌∷◌, ◌++◌, arith, All, All-map,
  All-append, select, ◌≤◌, str_eq, if◌then◌else◌, length, length-append,
}
use qtest.Model.Types.{Function, Endpoint, TestTarget, TargetKind, SystemModel}
use qtest.Model.Builder.Modules.{str_eq_refl}
use qtest.Model.Builder.Analysis.{already_added}

abbrev pub has_endpoint : String → List Endpoint → Bool
has_endpoint k [] = false
has_endpoint k (e ∷ es) = if str_eq e.id k then true else has_endpoint k es

abbrev pub has_exported : String → List Function → Bool
has_exported k [] = false
has_exported k (f ∷ fs) = if f.exported && str_eq f.id k then true else has_exported k fs

module _ {ℓ} {S : Type ℓ} where
  -- The priorities count from the first.
  abbrev pub Numbered : ℕ → List (TestTarget S) → Type 0
  Numbered n [] = Unit
  Numbered n (t ∷ ts) = (t.priority ≡ n) × Numbered (n + 1) ts

  abbrev pub targets_endpoint : String → List (TestTarget S) → Bool
  targets_endpoint k [] = false
  targets_endpoint k (t ∷ ts) = if str_eq t.endpoint_id k then true else targets_endpoint k ts

  abbrev pub targets_function : String → List (TestTarget S) → Bool
  targets_function k [] = false
  targets_function k (t ∷ ts) = str_eq t.function_id k || targets_function k ts

  -- A target is for an endpoint of the model or for an exported function of it.
  abbrev pub is_warranted : SystemModel S → TestTarget S → Bool
  is_warranted m t = elim t.kind [
    | TargetKind.api_target ↦ has_endpoint t.endpoint_id m.endpoints
    | TargetKind.unit_target ↦ has_exported t.function_id m.functions
    | _ ↦ false
  ]

  -- Numbered targets, warranted ones only, with one for each endpoint and each exported function.
  pub record IsTargeted (m : SystemModel S) : Type ℓ where
    pub numbered : Numbered 1 m.test_targets
    pub warranted : All (λ (t : TestTarget S). is_warranted m t ≡ true) m.test_targets
    pub endpoints : All (λ (e : Endpoint). targets_endpoint e.id m.test_targets ≡ true) m.endpoints
    pub functions :
        All
          (λ (f : Function). f.exported ≡ true → targets_function f.id m.test_targets ≡ true)
          m.functions
    pub few :
        length m.test_targets ≤ length m.endpoints + length (select (λ f. f.exported) m.functions)

  pub added-targets_function :
      (k : String) (ts : List (TestTarget S))
      → already_added k ts ≡ true
      → targets_function k ts ≡ true
  unfolding already_added
  added-targets_function k [] h = h
  added-targets_function k (t ∷ ts) h = ground (arith, added-targets_function k ts)

  pub Numbered-snoc :
      (n : ℕ) (ts : List (TestTarget S)) (t : TestTarget S)
      → Numbered n ts
      → t.priority ≡ n + length ts
      → Numbered n (ts ++ t ∷ [])
  Numbered-snoc n [] t h e = (ground arith, tt)
  Numbered-snoc n (x ∷ ts) t h e = (h.0, Numbered-snoc (n + 1) ts t h.1 (ground arith))

  pub already_added-append :
      (k : String) (ts us : List (TestTarget S))
      → already_added k ts ≡ true
      → already_added k (ts ++ us) ≡ true
  unfolding already_added
  already_added-append k [] us h = cc
  already_added-append k (t ∷ ts) us h = ground (arith, already_added-append k ts us)

  pub already_added_last :
      (ts : List (TestTarget S)) (t : TestTarget S)
      → already_added t.function_id (ts ++ t ∷ []) ≡ true
  unfolding already_added
  already_added_last [] t = ground (arith, str_eq_refl t.function_id)
  already_added_last (x ∷ ts) t = ground (arith, already_added_last ts t)

  pub targets_endpoint-append :
      (k : String) (ts us : List (TestTarget S))
      → targets_endpoint k ts ≡ true
      → targets_endpoint k (ts ++ us) ≡ true
  targets_endpoint-append k [] us h = cc
  targets_endpoint-append k (t ∷ ts) us h = ground (arith, targets_endpoint-append k ts us)

  pub targets_endpoint_last :
      (ts : List (TestTarget S)) (t : TestTarget S)
      → targets_endpoint t.endpoint_id (ts ++ t ∷ []) ≡ true
  targets_endpoint_last [] t = ground (arith, str_eq_refl t.endpoint_id)
  targets_endpoint_last (x ∷ ts) t = ground (arith, targets_endpoint_last ts t)

  -- The targets so far with the next priority, in a loop over a model.
  pub record IsOk (m : SystemModel S) (ts : List (TestTarget S)) (n : ℕ) : Type ℓ where
    pub numbered : Numbered 1 ts
    pub next : n ≡ 1 + length ts
    pub warranted : All (λ (t : TestTarget S). is_warranted m t ≡ true) ts

  pub record Extends (ts ts' : List (TestTarget S)) : Type 0 where
    pub functions : (k : String) → already_added k ts ≡ true → already_added k ts' ≡ true
    pub endpoints : (k : String) → targets_endpoint k ts ≡ true → targets_endpoint k ts' ≡ true

  pub Extends-refl : (ts : List (TestTarget S)) → Extends ts ts
  Extends-refl ts = record { functions = λ k h. h; endpoints = λ k h. h }

  pub Extends-trans :
      {ts us vs : List (TestTarget S)} → Extends ts us → Extends us vs → Extends ts vs
  Extends-trans a b = record {
    functions = λ k h. b.functions k (a.functions k h);
    endpoints = λ k h. b.endpoints k (a.endpoints k h);
  }

  pub Extends-snoc : (ts : List (TestTarget S)) (t : TestTarget S) → Extends ts (ts ++ t ∷ [])
  Extends-snoc ts t = record {
    functions = λ k h. already_added-append k ts (t ∷ []) h;
    endpoints = λ k h. targets_endpoint-append k ts (t ∷ []) h;
  }

  pub IsOk-snoc :
      (m : SystemModel S) (ts : List (TestTarget S)) (n : ℕ) (t : TestTarget S)
      → IsOk m ts n
      → t.priority ≡ n
      → is_warranted m t ≡ true
      → IsOk m (ts ++ t ∷ []) (n + 1)
  IsOk-snoc m ts n t o p w = record {
    numbered = Numbered-snoc 1 ts t o.numbered (p ∙ o.next);
    next = omega (arith, o.next, length-append ts (t ∷ []));
    warranted = All-append _ ts (t ∷ []) o.warranted (w, tt);
  }

pub endpoints_present :
    (es : List Endpoint) → All (λ (e : Endpoint). has_endpoint e.id es ≡ true) es
endpoints_present [] = tt
endpoints_present (e ∷ es) =
    (rw str_eq_refl, All-map _ (λ x h. ground arith) es (endpoints_present es))

pub exported_present :
    (fs : List Function)
    → All (λ (f : Function). f.exported ≡ true → has_exported f.id fs ≡ true) fs
exported_present [] = tt
exported_present (f ∷ fs) =
    ((λ e. rw (e, str_eq_refl)), All-map _ (λ x h e. ground (arith, h e)) fs (exported_present fs))
