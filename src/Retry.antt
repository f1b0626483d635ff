-- ===== src/Retry.antt =====
-- The retry strategies: crates/antigravity-core/src/proxy/retry.
pub mod Delays
pub mod RetryDelay
mod Examples
use antigravity_server.Prelude.Text.{Text, contains, text}
use antigravity_server.Prelude.{
  Bool, List, Option, [], false, from_millis, if◌then◌else◌, min, none, not, sat_u64, some, ℕ, ◌&&◌,
  ◌*◌, ◌+◌, ◌==◌, ◌^◌, ◌||◌, ◌∷◌,
}

-- `contains` on a slice of numbers.
unfoldable pub any_of : List ℕ → ℕ → Bool
any_of [] n = false
any_of (c ∷ cs) n = let rest = any_of cs n in (c == n) || rest

abbrev pub max_retry_attempts : ℕ
max_retry_attempts = 64

abbrev pub rotatable_status_codes : List ℕ
rotatable_status_codes = 429 ∷ 401 ∷ 403 ∷ 404 ∷ 500 ∷ 503 ∷ 529 ∷ []

abbrev pub rate_limit_codes : List ℕ
rate_limit_codes = 429 ∷ 529 ∷ 503 ∷ 500 ∷ []

pub record RetryProfile : Type 0 where
  pub backoff_429_base_ms : ℕ
  pub backoff_429_max_ms : ℕ
  pub backoff_503_base_ms : ℕ
  pub backoff_503_max_ms : ℕ
  pub backoff_500_base_ms : ℕ
  pub fixed_401_403_delay_ms : ℕ
  pub signature_patterns : List Text

unfoldable pub openai : RetryProfile
openai = record {
  backoff_429_base_ms = 1000;
  backoff_429_max_ms = 30_000;
  backoff_503_base_ms = 10_000;
  backoff_503_max_ms = 60_000;
  backoff_500_base_ms = 3000;
  fixed_401_403_delay_ms = 200;
  signature_patterns =
      text "Invalid `signature`"
      ∷ text "thinking.signature"
      ∷ text "thinking.thinking"
      ∷ text "Corrupted thought signature"
      ∷ [];
}

unfoldable pub claude : RetryProfile
claude = record {
  backoff_429_base_ms = 1000;
  backoff_429_max_ms = 10_000;
  backoff_503_base_ms = 1000;
  backoff_503_max_ms = 8000;
  backoff_500_base_ms = 500;
  fixed_401_403_delay_ms = 100;
  signature_patterns =
      text "Invalid `signature`"
      ∷ text "Invalid signature"
      ∷ text "thinking.signature"
      ∷ text "thinking.thinking"
      ∷ text "thinking.signature: Field required"
      ∷ text "thinking.thinking: Field required"
      ∷ text "Corrupted thought signature"
      ∷ text "failed to deserialise"
      ∷ text "thinking block"
      ∷ text "Found `text`"
      ∷ text "Found 'text'"
      ∷ text "must be `thinking`"
      ∷ text "must be 'thinking'"
      ∷ text "tool_use` ids were found without `tool_result"
      ∷ text "without `tool_result` blocks"
      ∷ [];
}

-- `fixed_delay` has a `Duration`, the others milliseconds.
pub data RetryStrategy : Type 0 where
  no_retry : RetryStrategy
  fixed_delay : (duration : ℕ) → RetryStrategy
  linear_backoff : (base_ms : ℕ) → RetryStrategy
  exponential_backoff : (base_ms max_ms : ℕ) → RetryStrategy

unfoldable pub contains_any : List Text → Text → Bool
unfolding contains
contains_any [] s = false
contains_any (p ∷ ps) s = let rest = contains_any ps s in contains s p || rest

unfoldable pub is_signature_error : Text → RetryProfile → Bool
unfolding contains_any
is_signature_error error_text profile = contains_any profile.signature_patterns error_text

on_rate_limit : RetryProfile → Option ℕ → RetryStrategy
on_rate_limit profile none = linear_backoff profile.backoff_429_base_ms
on_rate_limit profile (some delay_ms) =
    fixed_delay (from_millis (min (sat_u64 (delay_ms + 200)) profile.backoff_429_max_ms))

-- `parse_retry_delay` reads the delay that the body of a 429 asks for.
unfoldable pub determine_retry_strategy :
    (parse_retry_delay : Text → Option ℕ) → ℕ → Text → Bool → RetryProfile → RetryStrategy
unfolding is_signature_error on_rate_limit
determine_retry_strategy parse_retry_delay status_code error_text retried_without_thinking profile =
    if (status_code == 400) && not retried_without_thinking && is_signature_error error_text profile
    then fixed_delay (from_millis profile.fixed_401_403_delay_ms)
    else if status_code == 429
    then on_rate_limit profile (parse_retry_delay error_text)
    else if (status_code == 503) || (status_code == 529)
    then exponential_backoff profile.backoff_503_base_ms profile.backoff_503_max_ms
    else if status_code == 500
    then linear_backoff profile.backoff_500_base_ms
    else if (status_code == 401) || (status_code == 403)
    then fixed_delay (from_millis profile.fixed_401_403_delay_ms)
    else if status_code == 404
    then fixed_delay (from_millis 100)
    else no_retry

-- The sleep before the next attempt, or `none` for no retry. `attempt` counts from 0; it is below
-- 2^32 - 1, since the callers stop at `max_retry_attempts`.
unfoldable pub apply_retry_strategy : RetryStrategy → ℕ → Option ℕ
apply_retry_strategy no_retry attempt = none
apply_retry_strategy (fixed_delay duration) attempt = some duration
apply_retry_strategy (linear_backoff base_ms) attempt =
    some (from_millis (sat_u64 (base_ms * (attempt + 1))))
apply_retry_strategy (exponential_backoff base_ms max_ms) attempt =
    some (from_millis (min (sat_u64 (base_ms * sat_u64 (2 ^ attempt))) max_ms))

unfoldable pub should_rotate_account : ℕ → Bool
unfolding any_of
should_rotate_account status_code = any_of rotatable_status_codes status_code

unfoldable pub is_rate_limit_code : ℕ → Bool
unfolding any_of
is_rate_limit_code status_code = any_of rate_limit_codes status_code
