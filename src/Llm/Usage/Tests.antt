-- ===== src/Llm/Usage/Tests.antt =====
-- Runs of the usage tracker of internal/llm/usage.go, with whole numbers for float64.
use qtest.Prelude.{
  ℕ, ◌+◌, leb, ltb, ap, ◌==◌, ◌≡◌, ◌⊎◌, refl, true, false, none, some, [], ◌∷◌, arith,
}
use qtest.Prelude.Int.{ℤ, ◌+ℤ◌}
use qtest.Llm.Usage.{
  Float64, UsageTracker, no_record, recent_records, record_usage, stamped, check_budget,
  budget_exceeded, rate_limited,
}
use qtest.Llm.Usage.Ring.{IsRing, record_usage-recent}
use qtest.Llm.Usage.Budget.{HasRoom, IsSpent, Affordable, Exceeds, overspent, check_budget-answer}

abbrev whole : Float64 ℕ
whole = record {
  nought = 0;
  plus = ◌+◌;
  price_of = λ n p. p;
  at_least = λ a b. leb b a;
  is_positive = λ a. ltb 0 a;
}

abbrev tracker : UsageTracker ℕ
tracker = record {
  budget = record {
    hourly_token_limit = ℤ.pos 100;
    daily_token_limit = ℤ.pos 0;
    monthly_budget_usd = 0;
    requests_per_minute = ℤ.pos 2;
  };
  hourly_tokens = ℤ.pos 90;
  daily_tokens = ℤ.pos 90;
  monthly_tokens = ℤ.pos 90;
  monthly_cost = 0;
  requests_this_minute = ℤ.pos 1;
  last_minute_reset = ℤ.pos 0;
  records = no_record whole ∷ no_record whole ∷ [];
  max_records = 2;
  record_index = 1;
  cost_per_1k = [];
}

tracker-IsRing : IsRing whole tracker
tracker-IsRing = record { whole = refl; inside = omega arith }

record_usage-recent_example :
    recent_records whole 2 (record_usage whole 7 (ℤ.pos 5) (no_record whole) tracker)
    ≡ stamped whole tracker 7 (ℤ.pos 5) (no_record whole) ∷ recent_records whole 1 tracker
record_usage-recent_example =
    record_usage-recent whole 7 (ℤ.pos 5) (no_record whole) tracker 1 tracker-IsRing
      (λ e. let f : 7 == 0 ≡ (0 == 0) = ap (λ n. n == 0) e in cc) (omega arith)

check_budget-answer_example :
    let answer = (check_budget whole (ℤ.pos 20) (ℤ.pos 5) tracker).0 in
    ((answer ≡ none)
      × Affordable (ℤ.pos 100) (ℤ.pos 90) (ℤ.pos 20)
      × Affordable (ℤ.pos 0) (ℤ.pos 90) (ℤ.pos 20)
      × (overspent whole tracker ≡ false)
      × HasRoom whole (ℤ.pos 5) tracker)
    ⊎ ((answer ≡ some budget_exceeded)
        × (Exceeds (ℤ.pos 100) (ℤ.pos 90) (ℤ.pos 20)
            ⊎ Exceeds (ℤ.pos 0) (ℤ.pos 90) (ℤ.pos 20)
            ⊎ (overspent whole tracker ≡ true)))
    ⊎ ((answer ≡ some rate_limited)
        × Affordable (ℤ.pos 100) (ℤ.pos 90) (ℤ.pos 20)
        × Affordable (ℤ.pos 0) (ℤ.pos 90) (ℤ.pos 20)
        × (overspent whole tracker ≡ false)
        × IsSpent whole (ℤ.pos 5) tracker)
unfolding ◌+ℤ◌
check_budget-answer_example =
    check_budget-answer whole (ℤ.pos 20) (ℤ.pos 5) tracker (omega arith, omega arith)
      (omega arith, omega arith)
