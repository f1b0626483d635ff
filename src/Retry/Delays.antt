-- ===== src/Retry/Delays.antt =====
-- Which answers are retried, and how long the delays are.
use antigravity_server.Prelude.Text.{Text}
use antigravity_server.Retry.{
  RetryProfile, any_of, apply_retry_strategy, determine_retry_strategy, is_signature_error,
  should_rotate_account,
}
use antigravity_server.Prelude.{
  Bool, Option, arith, false, from_millis, if◌then◌else◌, is_some, max, sat_u64, some, true,
  u64_max, ℕ, ◌*◌, ◌+◌, ◌==◌, ◌||◌, ◌↔◌, ◌≡◌, ◌≤◌, ◌⊎◌,
}

sat_u64-le : (n : ℕ) → sat_u64 n ≤ n
sat_u64-le n = ground arith

sat_u64-max : (n : ℕ) → sat_u64 n ≤ u64_max
sat_u64-max n = ground arith

-- The longest sleep that a profile asks for at an attempt, in nanoseconds: by status code.
unfoldable pub delay_bound : RetryProfile → ℕ → ℕ → ℕ
delay_bound profile status_code attempt =
    if status_code == 429
    then from_millis (max profile.backoff_429_max_ms (profile.backoff_429_base_ms * (attempt + 1)))
    else if (status_code == 503) || (status_code == 529)
    then from_millis profile.backoff_503_max_ms
    else if status_code == 500
    then from_millis (profile.backoff_500_base_ms * (attempt + 1))
    else from_millis (max 100 profile.fixed_401_403_delay_ms)

-- Whatever the body says, an answer is retried if its status code rotates accounts or is a 400
-- with a signature error seen for the first time, and in no other case.
pub retried_iff :
    (parse_retry_delay : Text → Option ℕ) (status_code : ℕ) (error_text : Text) (retried : Bool)
    (profile : RetryProfile) (attempt : ℕ)
    → (is_some (
          apply_retry_strategy
            (determine_retry_strategy parse_retry_delay status_code error_text retried profile)
            attempt)
        ≡ true)
      ↔ ((should_rotate_account status_code ≡ true)
          ⊎ ((status_code ≡ 400)
              × (retried ≡ false)
              × (is_signature_error error_text profile ≡ true)))
unfolding apply_retry_strategy determine_retry_strategy should_rotate_account any_of
retried_iff parse_retry_delay status_code error_text retried profile attempt = ground arith

-- No delay is longer than the profile's bound for the status code and the attempt.
pub delay_bounded :
    (parse_retry_delay : Text → Option ℕ) (status_code : ℕ) (error_text : Text) (retried : Bool)
    (profile : RetryProfile) (attempt delay : ℕ)
    → apply_retry_strategy
        (determine_retry_strategy parse_retry_delay status_code error_text retried profile)
        attempt
      ≡ some delay
    → delay ≤ delay_bound profile status_code attempt
unfolding apply_retry_strategy determine_retry_strategy delay_bound
delay_bounded parse_retry_delay status_code error_text retried profile attempt delay h =
    ground arith
