-- ===== src/Llm/Usage/Budget.antt =====
-- When internal/llm/usage.go lets a request through.
use qtest.Prelude.{◌≡◌, refl, ◌⊎◌, inl, inr, Bool, true, false, Bool-cases, ◌&&◌, none, some, arith}
use qtest.Prelude.Int.{ℤ, ◌+ℤ◌, ◌≤ℤ◌, ltb_ℤ}
use qtest.Jobs.Types.{Time}
use qtest.Llm.Usage.{
  Float64, UsageTracker, rate_check, check_budget, update_rate_limit, over_limit, budget_exceeded,
  rate_limited,
}

-- Two numbers of tokens whose sum an int64 holds.
abbrev pub Fits : ℤ → ℤ → Type 0
Fits a b = (ℤ.negsuc 9223372036854775807 ≤ℤ a +ℤ b) × (a +ℤ b ≤ℤ ℤ.pos 9223372036854775807)

-- There is no limit, or what has been used and what is asked for stay within it.
abbrev pub Affordable : ℤ → ℤ → ℤ → Type 0
Affordable limit used estimated = (limit ≤ℤ ℤ.pos 0) ⊎ (used +ℤ estimated ≤ℤ limit)

-- A limit is set, and what has been used and what is asked for are more.
abbrev pub Exceeds : ℤ → ℤ → ℤ → Type 0
Exceeds limit used estimated = (ℤ.pos 1 ≤ℤ limit) × (ltb_ℤ limit (used +ℤ estimated) ≡ true)

over_limit_lem :
    (limit used estimated : ℤ)
    → Fits used estimated
    → ((over_limit limit used estimated ≡ false) × Affordable limit used estimated)
      ⊎ ((over_limit limit used estimated ≡ true) × Exceeds limit used estimated)
over_limit_lem limit used estimated f = ground arith

module _ {ℓ} {F : Type ℓ} (float : Float64 F) where
  abbrev pub overspent : UsageTracker F → Bool
  overspent t =
      float.is_positive t.budget.monthly_budget_usd
      && float.at_least t.monthly_cost t.budget.monthly_budget_usd

  -- No limit is set, or the last reset is a minute ago, or fewer requests than the limit have been
  -- let through since.
  abbrev pub HasRoom : Time → UsageTracker F → Type 0
  HasRoom now t =
      (t.budget.requests_per_minute ≤ℤ ℤ.pos 0)
      ⊎ (t.last_minute_reset +ℤ ℤ.pos 60000000000 ≤ℤ now)
      ⊎ (ltb_ℤ t.requests_this_minute t.budget.requests_per_minute ≡ true)

  -- A limit is set and used up, and the last reset is less than a minute ago.
  abbrev pub IsSpent : Time → UsageTracker F → Type 0
  IsSpent now t =
      (ℤ.pos 1 ≤ℤ t.budget.requests_per_minute)
      × (ltb_ℤ now (t.last_minute_reset +ℤ ℤ.pos 60000000000) ≡ true)
      × (t.budget.requests_per_minute ≤ℤ t.requests_this_minute)

  rate_check-answer :
      (now : Time) (t : UsageTracker F)
      → (((rate_check float now t).0 ≡ none) × HasRoom now t)
        ⊎ (((rate_check float now t).0 ≡ some rate_limited) × IsSpent now t)
  unfolding rate_check update_rate_limit
  rate_check-answer now t = ground arith

  -- While the sums fit an int64, a request is let through exactly when both token limits afford it,
  -- the month's budget is not spent, and there is no limit on requests, or it is not used up, or the
  -- last reset is a minute ago; it is refused for the budget if one of the first three fails, and
  -- otherwise for the rate, with a limit that is used up and a reset less than a minute ago.
  pub check_budget-answer :
      (estimated : ℤ) (now : Time) (t : UsageTracker F)
      → Fits t.hourly_tokens estimated
      → Fits t.daily_tokens estimated
      → let answer = (check_budget float estimated now t).0 in
        ((answer ≡ none)
          × Affordable t.budget.hourly_token_limit t.hourly_tokens estimated
          × Affordable t.budget.daily_token_limit t.daily_tokens estimated
          × (overspent t ≡ false)
          × HasRoom now t)
        ⊎ ((answer ≡ some budget_exceeded)
            × (Exceeds t.budget.hourly_token_limit t.hourly_tokens estimated
                ⊎ Exceeds t.budget.daily_token_limit t.daily_tokens estimated
                ⊎ (overspent t ≡ true)))
        ⊎ ((answer ≡ some rate_limited)
            × Affordable t.budget.hourly_token_limit t.hourly_tokens estimated
            × Affordable t.budget.daily_token_limit t.daily_tokens estimated
            × (overspent t ≡ false)
            × IsSpent now t)
  unfolding check_budget
  check_budget-answer estimated now t f g =
      elim (over_limit_lem t.budget.hourly_token_limit t.hourly_tokens estimated f) [
        | inr (over, h) ↦ rw over (inr (inl (refl, inl h)))
        | inl (under, h) ↦
            elim (over_limit_lem t.budget.daily_token_limit t.daily_tokens estimated g) [
              | inr (over, d) ↦ rw (under, over) (inr (inl (refl, inr (inl d))))
              | inl (under', d) ↦ elim (Bool-cases (overspent t)) [
                | inl spent ↦ rw (under, under', spent) (inr (inl (refl, inr (inr refl))))
                | inr left ↦
                    rw (under, under', left)
                      (elim (rate_check-answer now t) [
                        | inl (a, r) ↦ inl (a, h, d, refl, r)
                        | inr (a, r) ↦ inr (inr (a, h, d, refl, r))
                      ])
              ]
            ]
      ]
