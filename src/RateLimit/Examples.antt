-- ===== src/RateLimit/Examples.antt =====
-- The theorems on rate limits at concrete trackers and responses.
use antigravity_server.RateLimit.{
  RateLimitInfo, RateLimitKey-discrete, RateLimitTracker, account, from_optional_model,
  get_remaining_wait_for_model, is_rate_limited_for_model, model, new, rate_limit_exceeded,
  rate_limit_key,
}
use antigravity_server.RateLimit.Queries.{remaining_wait_for_model_least}
use antigravity_server.RateLimit.Adaptive.{lockouts, lockouts-schedule, lock_for}
use antigravity_server.RateLimit.ErrorParsing.{Clock, Externals, parse_from_error, parse_reason}
use antigravity_server.RateLimit.Errors.{Gives, IsIgnored, Recorded, parse_from_error_records}
use antigravity_server.Prelude.Map.{IsUnique, lookup, text_key}
use antigravity_server.Prelude.Text.{Text, Text-discrete, text}
use antigravity_server.Prelude.{
  Option, [], arith, false, from_secs, none, refl, some, ℕ, ◌+◌, ◌↔◌, ◌∷◌, ◌≡◌, ◌≤◌,
}

abbrev acct : Text
acct = text "a@example.com"

abbrev opus : Text
opus = text "claude-opus"

abbrev limit : ℕ → RateLimitInfo
limit at = record {
  reset_time = at;
  retry_after_sec = 5;
  detected_at = 0;
  reason = rate_limit_exceeded;
  for_model = none;
}

abbrev tracker : RateLimitTracker
tracker = record {
  limits = (account acct, limit 3_500_000_000) ∷ (model acct opus, limit 900) ∷ [];
  failure_counts = [];
}

remaining_wait_for_model_least_example :
    ((get_remaining_wait_for_model tracker acct opus 1000 ≡ 0)
      ↔ (is_rate_limited_for_model tracker acct opus 1000 ≡ false))
    × ((is_rate_limited_for_model tracker acct opus (1000 + from_secs 3) ≡ false)
        ↔ (get_remaining_wait_for_model tracker acct opus 1000 ≤ 3))
remaining_wait_for_model_least_example = remaining_wait_for_model_least tracker acct opus 1000 3

tracker-IsUnique : IsUnique tracker.limits
unfolding lookup RateLimitKey-discrete Text-discrete
tracker-IsUnique = (refl, (refl, tt))

lockouts-schedule_example :
    lockouts new acct opus (10 ∷ 20 ∷ 30 ∷ 40 ∷ 50 ∷ [])
    ≡ lock_for 5 10 ∷ lock_for 15 20 ∷ lock_for 30 30 ∷ lock_for 60 40 ∷ lock_for 60 50 ∷ []
unfolding lookup new
lockouts-schedule_example =
    lockouts-schedule new acct opus 10 (20 ∷ 30 ∷ 40 ∷ 50 ∷ []) refl (omega arith)
      (omega arith, (omega arith, (omega arith, (omega arith, tt))))

-- No pattern matches, no body is JSON, and lower case is the text itself.
abbrev externals : Externals
externals = record {
  patterns = record {
    duration = λ s. none;
    retry_m_s = λ s. none;
    retry_s = λ s. none;
    quota_reset = λ s. none;
    retry_after = λ s. none;
    wait_paren = λ s. none;
    ceil_seconds = λ s. none;
    ceil_milliseconds = λ s. none;
  };
  from_str = λ s. none;
  to_lowercase = λ s. s;
}

abbrev body : Text
body = text "too many requests"

abbrev clock : Clock
clock = record { counted = 100; reset_from = 101; detected = 102 }

parse_from_error_records_example :
    let out = parse_from_error externals new acct 429 none body (some opus) clock in
    (IsIgnored externals 429 body → out ≡ some (new, none))
    × (¬ IsIgnored externals 429 body
        → (retry : Option ℕ) × Gives externals none body retry
          × Recorded new
              (from_optional_model acct (some opus))
              (parse_reason externals 429 body)
              clock
              retry
              out)
parse_from_error_records_example =
    parse_from_error_records externals new acct 429 none body (some opus) clock
