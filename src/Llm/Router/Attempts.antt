-- ===== src/Llm/Router/Attempts.antt =====
-- How often internal/llm/router.go calls a client, and what its answers are.
use mathlib.Core.Path.{subst}
use qtest.Prelude.{
  str_eq, str_eq_iff, ℕ, zero, suc, ◌+◌, ◌*◌, ◌≤◌, ◌<◌, ◌≡◌, refl, String, Bool, true, false, ◌&&◌,
  Option, some, List, [], ◌∷◌, arith, length, Bool-cases, inl, inr, ◌⊎◌,
}
use qtest.Prelude.Int.{ℤ}
use qtest.Jobs.Types.{Duration}
use qtest.Llm.Router
use qtest.Llm.Router.{
  Reply, response, failure, Failure, Result, ok, err, Effects, RouterError, is_retryable_error,
  attempt, complete_with_retry, route, next_backoff, has,
}

str_eq_refl : (p : String) → str_eq p p ≡ true
str_eq_refl p = (str_eq_iff p p).1 refl

module _ {ℓ} {R : Type ℓ} (reply : String → ℕ → Reply R) (done : ℕ → Bool) where
  last_call-calls :
      (r : Reply R) (s : Effects) → (Router.last_call reply done r s).1.calls ≡ s.calls
  last_call-calls (response x) s = refl
  last_call-calls (failure e) s = refl

  early_call-calls :
      (r : Reply R) (over : Bool) (s : Effects) (rest : Result R × Effects)
      → s.calls ≤ rest.1.calls
      → (s.calls ≤ (Router.early_call reply done r over s rest).1.calls)
        × ((Router.early_call reply done r over s rest).1.calls ≤ rest.1.calls)
  early_call-calls (response x) over s rest h = (omega arith, h)
  early_call-calls (failure e) over s rest h = ground arith

  attempt-calls :
      (p : String) (n : ℕ) (b : Duration) (s : Effects)
      → (s.calls + 1 ≤ (attempt reply done p n b s).1.calls)
        × ((attempt reply done p n b s).1.calls ≤ s.calls + n + 1)
  unfolding attempt
  attempt-calls p zero b s =
      let e = last_call-calls (reply p s.calls) (Router.called reply done s) in
      (omega (arith, e), omega (arith, e))
  attempt-calls p (suc n) b s =
      let s' = Router.called reply done s in
      let rest = attempt reply done p n (next_backoff b) (Router.waited reply done b s') in
      let (more, few) = attempt-calls p n (next_backoff b) (Router.waited reply done b s') in
      let (low, high) =
        early_call-calls (reply p s.calls) (done s.calls) s' rest (omega (arith, more)) in
      (omega (arith, low), omega (arith, high, few))

  answered-calls :
      (r : Result R × Effects) (next : RouterError → Effects → Result R × Effects) (bound : ℕ)
      → r.1.calls ≤ bound
      → ((e : RouterError) → (next e r.1).1.calls ≤ bound)
      → (Router.answered reply done r next).1.calls ≤ bound
  answered-calls (ok x, s) next bound h k = h
  answered-calls (err e, s) next bound h k = k e

  -- The router calls the clients no more than four times for each provider of its list.
  pub route-calls :
      (known available : String → Bool) (ps : List String) (last : Option RouterError) (s : Effects)
      → (route reply done known available ps last s).1.calls ≤ s.calls + 4 * length ps
  unfolding route
  route-calls known available [] last s = omega arith
  route-calls known available (p ∷ ps) last s = elim (Bool-cases (known p && available p)) [
    | inr skipped ↦ rw skipped (omega (arith, route-calls known available ps last s))
    | inl tried ↦
        let (more, few) = attempt-calls p 3 (ℤ.pos 2000000000) s in
        let r = complete_with_retry reply done p s in
        rw tried (
          answered-calls r (λ e s'. route reply done known available ps (some e) s')
            (s.calls + 4 * length (p ∷ ps)) (unfold complete_with_retry in omega (arith, few))
            (λ e.
              unfold complete_with_retry in
              omega (arith, few, route-calls known available ps (some e) r.1)))
  ]

  -- A client that fails a few times, no more often than there are retries left and each time with some
  -- error that is retried, and then responds, gets its response through, if the context is not done.
  pub attempt-recovers :
      (p : String) (n k : ℕ) (b : Duration) (s : Effects) (x : R)
      → k ≤ n
      → ((i : ℕ)
          → i < k
          → (e : Failure) × (reply p (s.calls + i) ≡ failure e) × (is_retryable_error e ≡ true))
      → reply p (s.calls + k) ≡ response x
      → ((i : ℕ) → done i ≡ false)
      → (attempt reply done p n b s).0 ≡ ok x
  unfolding attempt
  attempt-recovers p zero zero b s x le fails works running =
      let now : reply p s.calls ≡ response x =
        subst (λ i. reply p i ≡ response x) (omega arith) works in
      rw now refl
  attempt-recovers p zero (suc k) b s x le fails works running = absurd (omega (arith, le))
  attempt-recovers p (suc n) zero b s x le fails works running =
      let now : reply p s.calls ≡ response x =
        subst (λ i. reply p i ≡ response x) (omega arith) works in
      rw now refl
  attempt-recovers p (suc n) (suc k) b s x le fails works running =
      let (e, said, again) = fails 0 (omega arith) in
      let now : reply p s.calls ≡ failure e =
        subst (λ i. reply p i ≡ failure e) (omega arith) said in
      let later =
        attempt-recovers p n k (next_backoff b)
          (Router.waited reply done b (Router.called reply done s)) x (omega (arith, le))
          (λ i h.
            subst (λ j. (f : Failure) × (reply p j ≡ failure f) × (is_retryable_error f ≡ true))
              (omega arith) (fails (suc i) (omega (arith, h))))
          (subst (λ j. reply p j ≡ response x) (omega arith) works) running in
      rw (now, again, running s.calls) later

  last_call-response :
      (p : String) (i : ℕ) (r : Reply R) (s : Effects) (x : R)
      → reply p i ≡ r
      → (Router.last_call reply done r s).0 ≡ ok x
      → (n : ℕ) × (reply p n ≡ response x)
  last_call-response p i (response y) s x h e = (i, cc)
  last_call-response p i (failure f) s x h e = absurd (ground arith)

  early_call-response :
      (p : String) (i : ℕ) (r : Reply R) (over : Bool) (s : Effects) (rest : Result R × Effects)
      (x : R)
      → reply p i ≡ r
      → (rest.0 ≡ ok x → (n : ℕ) × (reply p n ≡ response x))
      → (Router.early_call reply done r over s rest).0 ≡ ok x
      → (n : ℕ) × (reply p n ≡ response x)
  early_call-response p i (response y) over s rest x h k e = (i, cc)
  early_call-response p i (failure f) over s rest x h k e = k (ground arith)

  attempt-response :
      (p : String) (n : ℕ) (b : Duration) (s : Effects) (x : R)
      → (attempt reply done p n b s).0 ≡ ok x
      → (i : ℕ) × (reply p i ≡ response x)
  unfolding attempt
  attempt-response p zero b s x h =
      last_call-response p s.calls (reply p s.calls) (Router.called reply done s) x refl h
  attempt-response p (suc n) b s x h =
      let s' = Router.called reply done s in
      early_call-response p s.calls (reply p s.calls) (done s.calls) s'
        (attempt reply done p n (next_backoff b) (Router.waited reply done b s')) x refl
        (attempt-response p n (next_backoff b) (Router.waited reply done b s') x) h

  answered-response :
      (r : Result R × Effects) (next : RouterError → Effects → Result R × Effects) (x : R)
      → (Router.answered reply done r next).0 ≡ ok x
      → (r.0 ≡ ok x) ⊎ ((e : RouterError) × ((next e r.1).0 ≡ ok x))
  answered-response (ok y, s) next x h = inl h
  answered-response (err e, s) next x h = inr (e, h)

  -- A response of the router is one that the client of a provider of the list gave to a call, and
  -- that provider is known and available.
  route-response :
      (known available : String → Bool) (ps : List String) (last : Option RouterError) (s : Effects)
      (x : R)
      → (route reply done known available ps last s).0 ≡ ok x
      → (p : String) × (n : ℕ) × (has p ps ≡ true)
        × ((known p && available p) ≡ true)
        × (reply p n ≡ response x)
  unfolding route has
  route-response known available [] last s x h = absurd (ground arith)
  route-response known available (q ∷ ps) last s x h = elim (Bool-cases (known q && available q)) [
    | inr skipped ↦
        let (p, n, in', able, said) =
          route-response known available ps last s x (rw skipped at h) in
        (p, n, ground arith, able, said)
    | inl tried ↦
        elim (answered-response (complete_with_retry reply done q s)
          (λ e s'. route reply done known available ps (some e) s') x (rw tried at h)) [
            | inl mine ↦
                let (n, said) =
                  attempt-response q 3 (ℤ.pos 2000000000) s x
                    (unfold complete_with_retry in mine) in
                (q, n, ground (arith, str_eq_refl q), tried, said)
            | inr (e, theirs) ↦
                let (p, n, in', able, said) =
                  route-response known available ps (some e) (complete_with_retry reply done q s).1
                    x theirs in
                (p, n, ground arith, able, said)
          ]
  ]
