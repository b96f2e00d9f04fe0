-- ===== src/Llm/Router/Tests.antt =====
-- Runs of the router of internal/llm/router.go.
use qtest.Prelude.{
  ℕ, zero, suc, ◌<◌, ◌≡◌, ◌≤◌, ◌+◌, ◌*◌, refl, String, Bool, true, false, none, some, [], ◌∷◌,
  arith,
}
use qtest.Prelude.Int.{ℤ}
use qtest.Llm.Router.{
  Reply, response, failure, Failure, Effects, ok, is_retryable_error, contains_any, contains, has,
  attempt, route, get_providers_for_tier, add_fallbacks, others,
}
use qtest.Llm.Router.Attempts.{route-calls, attempt-recovers}

-- A server error, then a response.
abbrev unavailable : Failure
unavailable = record { network = false; text = "status 503" }

abbrev reply : String → ℕ → Reply ℕ
reply p zero = failure unavailable
reply p (suc n) = response 7

abbrev running : ℕ → Bool
running n = false

abbrev every : String → Bool
every p = true

abbrev start : Effects
start = record { calls = 0; waits = [] }

abbrev bad_request : Failure
bad_request = record { network = false; text = "status 400: at most 500 tokens" }

-- A client error whose text has the digits of a server error is retried.
bad_request_retried : is_retryable_error bad_request ≡ true
unfolding is_retryable_error contains_any contains
bad_request_retried = refl

order_of_providers :
    get_providers_for_tier every "anthropic" (some ("ollama" ∷ "anthropic" ∷ []))
    ≡ "anthropic" ∷ "ollama" ∷ "openai" ∷ []
unfolding get_providers_for_tier add_fallbacks others has
order_of_providers = refl

unavailable_retried : is_retryable_error unavailable ≡ true
unfolding is_retryable_error contains_any contains
unavailable_retried = refl

attempt-recovers_example : (attempt reply running "ollama" 3 (ℤ.pos 2000000000) start).0 ≡ ok 7
attempt-recovers_example =
    attempt-recovers reply running "ollama" 3 1 (ℤ.pos 2000000000) start 7 (omega arith) first refl
      (λ i. refl)
  where
    first :
        (i : ℕ)
        → i < 1
        → (e : Failure) × (reply "ollama" (0 + i) ≡ failure e) × (is_retryable_error e ≡ true)
    first zero h = (unavailable, refl, unavailable_retried)
    first (suc i) h = absurd (omega (arith, h))

route-calls_example :
    (route reply running every every ("ollama" ∷ "anthropic" ∷ []) none start).1.calls ≤ 0 + 4 * 2
route-calls_example = route-calls reply running every every ("ollama" ∷ "anthropic" ∷ []) none start
