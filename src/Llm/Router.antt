-- ===== src/Llm/Router.antt =====
-- internal/llm/router.go: the order of the providers, the retries and the fall back. What a client
-- replies to the n-th call of all, whether a client is available, and whether the context is done
-- before a wait is over are parameters. A backoff is doubled as a float64, which is exact below 2^53.
pub mod Attempts
mod Tests
use Prim.Native.String.{len, slice}
use text.Mathlib.Text.{starts_with}
use qtest.Prelude.{
  ℕ, zero, suc, ◌+◌, String, Bool, true, false, not, ◌&&◌, ◌||◌, Option, none, some, List, [], ◌∷◌,
  ◌++◌, if◌then◌else◌, str_eq,
}
use qtest.Prelude.Assoc.{lookup}
use qtest.Prelude.Int.{ℤ, ◌+ℤ◌, ltb_ℤ}
use qtest.Jobs.Types.{Duration}
use qtest.Llm.Cache.{string_eq}

-- An error of a client: whether it is a `net.Error`, and its text.
pub record Failure : Type 0 where
  pub network : Bool
  pub text : String

pub data Reply {ℓ} (R : Type ℓ) : Type ℓ where
  response : R → Reply R
  failure : Failure → Reply R

pub data RouterError : Type 0 where
  no_providers none_available cancelled : RouterError
  not_retryable retries_exceeded : Failure → RouterError
  all_failed : RouterError → RouterError

pub data Result {ℓ} (A : Type ℓ) : Type ℓ where
  ok : A → Result A
  err : RouterError → Result A

-- The calls made so far, and the waits, the latest first.
pub record Effects : Type 0 where
  pub calls : ℕ
  pub waits : List Duration

contains_from : ℕ → String → String → ℕ → Bool
contains_from zero s t i = starts_with (slice s i (len s)) t
contains_from (suc n) s t i = starts_with (slice s i (len s)) t || contains_from n s t (i + 1)

-- `strings.Contains(s, t)`
unfoldable pub contains : String → String → Bool
unfolding contains_from
contains s t = contains_from (len s) s t 0

unfoldable pub contains_any : String → List String → Bool
contains_any s [] = false
contains_any s (t ∷ ts) = contains s t || contains_any s ts

unfoldable pub is_retryable_error : Failure → Bool
is_retryable_error e =
    if e.network
    then true
    else if contains_any e.text
        ("timeout" ∷ "deadline exceeded" ∷ "connection refused" ∷ "connection reset" ∷ "EOF" ∷ [])
    then true
    else if contains_any e.text
        ("500" ∷ "502" ∷ "503" ∷ "504" ∷ "server error" ∷ "internal error" ∷ [])
    then true
    else if contains_any e.text ("429" ∷ "rate limit" ∷ "too many requests" ∷ [])
    then true
    else if contains_any e.text ("400" ∷ "401" ∷ "403" ∷ "404" ∷ [])
    then false
    else true

-- In nanoseconds.
abbrev pub initial_backoff : Duration
initial_backoff = ℤ.pos 2000000000

abbrev pub max_backoff : Duration
max_backoff = ℤ.pos 30000000000

abbrev pub next_backoff : Duration → Duration
next_backoff b = let doubled = b +ℤ b in if ltb_ℤ max_backoff doubled then max_backoff else doubled

abbrev pub default_max_retries : ℕ
default_max_retries = 3

unfoldable pub has : String → List String → Bool
has p [] = false
has p (q ∷ qs) = str_eq q p || has p qs

-- The fall-backs that are not in the list yet and have a client.
unfoldable pub add_fallbacks : (String → Bool) → List String → List String → List String
add_fallbacks known [] providers = providers
add_fallbacks known (f ∷ fs) providers =
    add_fallbacks known fs
      (if not (has f providers) && known f then providers ++ (f ∷ []) else providers)

unfoldable pub others : String → List String → List String
others default [] = []
others default (p ∷ ps) =
    let rest = others default ps in if str_eq p default then rest else p ∷ rest

abbrev pub tier_providers : String → Option (List String) → List String
tier_providers default none = []
tier_providers default (some ps) =
    (if has default ps then default ∷ [] else []) ++ others default ps

abbrev pub fallbacks : List String
fallbacks = "ollama" ∷ "anthropic" ∷ "openai" ∷ []

-- `models` are the keys of `TierModels[tier]` in one order of iteration, if the tier has an entry.
unfoldable pub get_providers_for_tier :
    (String → Bool) → String → Option (List String) → List String
get_providers_for_tier known default models =
    add_fallbacks known fallbacks (tier_providers default models)

module _ {ℓ} {R : Type ℓ} (reply : String → ℕ → Reply R) (done : ℕ → Bool) where
  abbrev called : Effects → Effects
  called s = record s { calls = s.calls + 1 }

  abbrev waited : Duration → Effects → Effects
  waited b s = record s { waits = b ∷ s.waits }

  abbrev last_call : Reply R → Effects → Result R × Effects
  last_call (response r) s = (ok r, s)
  last_call (failure e) s =
      (if not (is_retryable_error e) then err (not_retryable e) else err (retries_exceeded e), s)

  -- A call that another may follow: `over` is whether the context is done before the wait is over.
  abbrev early_call : Reply R → Bool → Effects → Result R × Effects → Result R × Effects
  early_call (response r) over s rest = (ok r, s)
  early_call (failure e) over s rest =
      if not (is_retryable_error e)
      then (err (not_retryable e), s)
      else if over
      then (err cancelled, s)
      else rest

  -- The loop of `completeWithRetry`, with as many retries as are left.
  unfoldable pub attempt : String → ℕ → Duration → Effects → Result R × Effects
  attempt p zero b s = last_call (reply p s.calls) (called s)
  attempt p (suc n) b s =
      let rest = attempt p n (next_backoff b) (waited b (called s)) in
      early_call (reply p s.calls) (done s.calls) (called s) rest

  unfoldable pub complete_with_retry : String → Effects → Result R × Effects
  unfolding attempt
  complete_with_retry p s = attempt p default_max_retries initial_backoff s

  abbrev give_up : Option RouterError → RouterError
  give_up none = none_available
  give_up (some e) = all_failed e

  abbrev answered :
      Result R × Effects → (RouterError → Effects → Result R × Effects) → Result R × Effects
  answered (ok r, s) next = (ok r, s)
  answered (err e, s) next = next e s

  module _ (known available : String → Bool) where
    -- The loop of `Complete` over the providers, with the error of the last that failed.
    unfoldable pub route : List String → Option RouterError → Effects → Result R × Effects
    unfolding complete_with_retry
    route [] last s = (err (give_up last), s)
    route (p ∷ ps) last s =
        if known p && available p
        then answered (complete_with_retry p s) (λ e s'. route ps (some e) s')
        else route ps last s

    -- `Complete`
    unfoldable pub complete : String → Option (List String) → Effects → Result R × Effects
    unfolding route
    complete default models s = elim (get_providers_for_tier known default models) [
      | [] ↦ (err no_providers, s)
      | (p ∷ ps) ↦ route (p ∷ ps) none s
    ]
