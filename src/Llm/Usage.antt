-- ===== src/Llm/Usage.antt =====
-- internal/llm/usage.go: the usage tracker. The arithmetic of float64 and the table of prices are
-- parameters; `uuid.New` and `time.Now` are arguments, and so is what the wrapped router returns.
-- An index into the ring of records never leaves it, so that the panic of Go is not met.
pub mod Ring
pub mod Budget
mod Tests
use qtest.Prelude.{
  ℕ, zero, suc, ◌+◌, ◌-◌, ◌/◌, ◌%◌, ◌==◌, String, Bool, true, false, not, ◌&&◌, Option, none, some,
  List, [], ◌∷◌, if◌then◌else◌, ltb, str_eq, str_eq_iff,
}
use qtest.Prelude.Assoc.{Eq, lookup}
use qtest.Prelude.Int.{ℤ, ◌+ℤ◌, ltb_ℤ, leb_ℤ, eqb_ℤ}
use qtest.Jobs.Types.{Uuid, Time}
use qtest.Llm.Cache.{string_eq}

-- What the tracker uses of float64: `price_of n p` is `float64(n) / 1000.0 * p`.
pub record Float64 {ℓ} (F : Type ℓ) : Type ℓ where
  pub nought : F
  pub plus : F → F → F
  pub price_of : ℤ → F → F
  pub at_least : F → F → Bool
  pub is_positive : F → Bool

-- A sum of two int64, which wraps.
abbrev pub add64 : ℤ → ℤ → ℤ
add64 a b =
    let s = a +ℤ b in
    if ltb_ℤ (ℤ.pos 9223372036854775807) s
    then s +ℤ ℤ.negsuc 18446744073709551615
    else if ltb_ℤ s (ℤ.negsuc 9223372036854775807)
    then s +ℤ ℤ.pos 18446744073709551616
    else s

-- `atomic.AddInt32(&x, 1)`, which wraps.
abbrev pub incr32 : ℤ → ℤ
incr32 x = if eqb_ℤ x (ℤ.pos 2147483647) then ℤ.negsuc 2147483647 else x +ℤ ℤ.pos 1

pub data UsageError : Type 0 where
  budget_exceeded rate_limited router_failed : UsageError

pub record BudgetConfig {ℓ} (F : Type ℓ) : Type ℓ where
  pub hourly_token_limit : ℤ
  pub daily_token_limit : ℤ
  pub monthly_budget_usd : F
  pub requests_per_minute : ℤ

pub record UsageRecord {ℓ} (F : Type ℓ) : Type ℓ where
  pub id : Uuid
  pub timestamp : Time
  pub provider : String
  pub model : String
  pub tier : ℤ
  pub input_tokens : ℤ
  pub output_tokens : ℤ
  pub total_tokens : ℤ
  pub cost : F
  pub user_id : Option Uuid
  pub request_id : String
  pub duration : F

pub record UsageTracker {ℓ} (F : Type ℓ) : Type ℓ where
  pub budget : BudgetConfig F
  pub hourly_tokens : ℤ
  pub daily_tokens : ℤ
  pub monthly_tokens : ℤ
  pub monthly_cost : F
  pub requests_this_minute : ℤ
  pub last_minute_reset : Time
  pub records : List (UsageRecord F)
  pub max_records : ℕ
  pub record_index : ℕ
  pub cost_per_1k : List (String × List (String × F))

-- `records[i] = r` and `records[i]`.
unfoldable pub set_at {ℓ} : {A : Type ℓ} → ℕ → A → List A → List A
set_at i a [] = []
set_at zero a (x ∷ xs) = a ∷ xs
set_at (suc i) a (x ∷ xs) = x ∷ set_at i a xs

unfoldable pub get_elem? {ℓ} : {A : Type ℓ} → List A → ℕ → Option A
get_elem? [] i = none
get_elem? (x ∷ xs) zero = some x
get_elem? (x ∷ xs) (suc i) = get_elem? xs i

unfoldable pub replicate {ℓ} : {A : Type ℓ} → ℕ → A → List A
replicate zero a = []
replicate (suc n) a = a ∷ replicate n a

-- A minute in nanoseconds.
abbrev pub minute : ℤ
minute = ℤ.pos 60000000000

pub record Request : Type 0 where
  pub content_lengths : List ℕ
  pub system_length : ℕ
  pub tier : ℤ

pub record Response : Type 0 where
  pub provider : String
  pub model : String
  pub input_tokens : ℤ
  pub output_tokens : ℤ

sum : List ℕ → ℕ
sum [] = 0
sum (n ∷ ns) = n + sum ns

-- A token for every four bytes of the request.
unfoldable pub estimated_tokens : Request → ℤ
unfolding sum
estimated_tokens req = ℤ.pos ((sum req.content_lengths + req.system_length) / 4)

abbrev pub rounds : ℕ → ℕ → ℕ
rounds max limit = if ltb max limit then max else limit

-- The test of one token limit.
abbrev pub over_limit : ℤ → ℤ → ℤ → Bool
over_limit limit used estimated = ltb_ℤ (ℤ.pos 0) limit && ltb_ℤ limit (add64 used estimated)

-- `(i - 1 + max) % max`
abbrev pub previous : ℕ → ℕ → ℕ
previous max i = (i + max - 1) % max

module _ {ℓ} {F : Type ℓ} (float : Float64 F) where
  -- The zero value, whose id is `uuid.Nil`.
  abbrev pub no_record : UsageRecord F
  no_record = record {
    id = 0;
    timestamp = ℤ.pos 0;
    provider = "";
    model = "";
    tier = ℤ.pos 0;
    input_tokens = ℤ.pos 0;
    output_tokens = ℤ.pos 0;
    total_tokens = ℤ.pos 0;
    cost = float.nought;
    user_id = none;
    request_id = "";
    duration = float.nought;
  }

  -- `NewUsageTracker`, for a size that is not negative: `make` panics on the others.
  unfoldable pub new_usage_tracker :
      List (String × List (String × F)) → BudgetConfig F → ℕ → Time → UsageTracker F
  unfolding replicate
  new_usage_tracker prices budget size now =
      let max_records = if size == 0 then 1000 else size in
      record {
        budget = budget;
        hourly_tokens = ℤ.pos 0;
        daily_tokens = ℤ.pos 0;
        monthly_tokens = ℤ.pos 0;
        monthly_cost = float.nought;
        requests_this_minute = ℤ.pos 0;
        last_minute_reset = now;
        records = replicate max_records no_record;
        max_records = max_records;
        record_index = 0;
        cost_per_1k = prices;
      }

  price_in : String → List (String × F) → F
  price_in model costs = elim (lookup model costs) [
    | some p ↦ p
    | none ↦ elim (lookup "default" costs) [ some p ↦ p | none ↦ float.nought ]
  ]

  unfoldable pub estimate_cost : UsageTracker F → UsageRecord F → F
  unfolding price_in
  estimate_cost t r = elim (lookup r.provider t.cost_per_1k) [
    | none ↦ float.nought
    | some costs ↦ float.price_of r.total_tokens (price_in r.model costs)
  ]

  abbrev pub stamped : UsageTracker F → Uuid → Time → UsageRecord F → UsageRecord F
  stamped t id now r =
      let counted : UsageRecord F = record r {
        id = id;
        timestamp = now;
        total_tokens = add64 r.input_tokens r.output_tokens;
      } in
      record counted { cost = estimate_cost t counted }

  -- `Record`
  unfoldable pub record_usage : Uuid → Time → UsageRecord F → UsageTracker F → UsageTracker F
  unfolding set_at
  record_usage id now r t =
      let r' = stamped t id now r in
      record t {
        hourly_tokens = add64 t.hourly_tokens r'.total_tokens;
        daily_tokens = add64 t.daily_tokens r'.total_tokens;
        monthly_tokens = add64 t.monthly_tokens r'.total_tokens;
        monthly_cost = float.plus t.monthly_cost r'.cost;
        records = set_at t.record_index r' t.records;
        record_index = (t.record_index + 1) % t.max_records;
      }

  -- `now.Sub(last) >= time.Minute`, for times that are less than 292 years apart.
  unfoldable pub update_rate_limit : Time → UsageTracker F → UsageTracker F
  update_rate_limit now t =
      if leb_ℤ (t.last_minute_reset +ℤ minute) now
      then record t { requests_this_minute = ℤ.pos 0; last_minute_reset = now }
      else t

  unfoldable pub rate_check : Time → UsageTracker F → Option UsageError × UsageTracker F
  unfolding update_rate_limit
  rate_check now t =
      if ltb_ℤ (ℤ.pos 0) t.budget.requests_per_minute
      then (let t' = update_rate_limit now t in
          (
            if leb_ℤ t'.budget.requests_per_minute t'.requests_this_minute
                then some rate_limited
                else none,
            t',
          ))
      else (none, t)

  unfoldable pub check_budget : ℤ → Time → UsageTracker F → Option UsageError × UsageTracker F
  unfolding rate_check
  check_budget estimated now t =
      if over_limit t.budget.hourly_token_limit t.hourly_tokens estimated
      then (some budget_exceeded, t)
      else if over_limit t.budget.daily_token_limit t.daily_tokens estimated
      then (some budget_exceeded, t)
      else if float.is_positive t.budget.monthly_budget_usd
          && float.at_least t.monthly_cost t.budget.monthly_budget_usd
      then (some budget_exceeded, t)
      else rate_check now t

  unfoldable pub increment_requests : UsageTracker F → UsageTracker F
  increment_requests t = record t { requests_this_minute = incr32 t.requests_this_minute }

  -- One round of `RecentRecords`: a record that was never written is passed over.
  abbrev pub keep : Option (UsageRecord F) → List (UsageRecord F) → List (UsageRecord F)
  keep none rest = rest
  keep (some r) rest = if not (r.id == 0) then r ∷ rest else rest

  -- Its loop, for as many rounds as are left.
  unfoldable pub recent_from : ℕ → List (UsageRecord F) → ℕ → ℕ → List (UsageRecord F)
  recent_from max records zero i = []
  recent_from max records (suc n) i =
      keep (get_elem? records i) (recent_from max records n (previous max i))

  -- `RecentRecords`, for a limit that is not negative: `make` panics on the others.
  unfoldable pub recent_records : ℕ → UsageTracker F → List (UsageRecord F)
  recent_records limit t =
      recent_from t.max_records t.records (rounds t.max_records limit)
        (previous t.max_records t.record_index)

  -- The tickers of `periodicReset`.
  abbrev pub reset_hour : UsageTracker F → UsageTracker F
  reset_hour t = record t { hourly_tokens = ℤ.pos 0 }

  abbrev pub reset_day : UsageTracker F → UsageTracker F
  reset_day t = record t { daily_tokens = ℤ.pos 0 }

  abbrev pub usage_of : Request → Response → F → UsageRecord F
  usage_of req resp duration = record no_record {
    provider = resp.provider;
    model = resp.model;
    tier = req.tier;
    input_tokens = resp.input_tokens;
    output_tokens = resp.output_tokens;
    duration = duration;
  }

  unfoldable pub finish :
      Uuid → Time → Request → F → Option Response → UsageTracker F → UsageTracker F
  unfolding record_usage
  finish id now req duration none t = t
  finish id now req duration (some resp) t = record_usage id now (usage_of req resp duration) t

  answer_of : Option Response → Option UsageError
  answer_of none = some router_failed
  answer_of (some resp) = none

  unfoldable complete_rest :
      (UsageTracker F → UsageTracker F)
      → (UsageTracker F → UsageTracker F)
      → Uuid
      → Time
      → Request
      → F
      → Option Response
      → Option UsageError × UsageTracker F
      → Option UsageError × UsageTracker F
  unfolding finish answer_of increment_requests
  complete_rest between during id now req duration answer (some e, t) = (some e, t)
  complete_rest between during id now req duration answer (none, t) = (
    answer_of answer,
    finish id now req duration answer (during (increment_requests (between t))),
  )

  -- `TrackedRouter.Complete`, with what the wrapped router answers: a response, or an error. No lock
  -- spans its steps: `between` is what other calls do to the tracker after the check, and `during`
  -- what they do after the count, up to the record.
  unfoldable pub complete :
      (UsageTracker F → UsageTracker F)
      → (UsageTracker F → UsageTracker F)
      → Uuid
      → Time
      → Time
      → Request
      → F
      → Option Response
      → UsageTracker F
      → Option UsageError × UsageTracker F
  unfolding complete_rest check_budget
  complete between during id now later req duration answer t =
      complete_rest between during id later req duration answer
        (check_budget (estimated_tokens req) now t)
