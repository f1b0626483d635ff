-- ===== src/TokenManager/RateLimitExamples.antt =====
-- The theorems on error answers at a concrete answer.
use antigravity_server.TokenManager.RateLimiting.{Answers, precise_lockout, standard_model}
use antigravity_server.TokenManager.ResetTimes.{stored_reset_time_misses}
use antigravity_server.RateLimit.ErrorParsing.{Externals}
use antigravity_server.RateLimit.{RateLimitTracker, model, quota_exhausted, rate_limit_key}
use antigravity_server.Prelude.Map.{lookup}
use antigravity_server.Prelude.Int.{pos}
use antigravity_server.Prelude.Text.{Text, text}
use antigravity_server.Prelude.{option_map, from_secs, [], arith, refl, none, some, ◌≡◌, ◌≢◌}

abbrev acct : Text
acct = text "a@example.com"

abbrev opus : Text
opus = text "opus"

abbrev tracker : RateLimitTracker
tracker = record { limits = []; failure_counts = [] }

-- Every name stands for one model, no quota can be fetched, and the stored reset time is at 600 s.
abbrev answers : Answers
answers = record {
  normalize_to_standard_id = λ s. some (text "claude-opus-4-5-thinking");
  parse_from_rfc3339 = λ s. some (pos 600);
  fetched_reset_time = none;
  stored_reset_time = some (text "1970-01-01T00:10:00Z");
  first = 100;
  parsed = record { counted = 101; reset_from = 102; detected = 103 };
  last = 104;
}

-- No pattern matches, no body is JSON, and lower case is the text itself.
abbrev externals : Externals
externals = record {
  patterns = record {
    duration = λ s. none;
    retry_m_s = λ s. none;
    retry_s = λ s. none;
    quota_reset = λ s. none;
    retry_after = λ s. none;
    wait_paren = λ s. none;
    ceil_seconds = λ s. none;
    ceil_milliseconds = λ s. none;
  };
  from_str = λ s. none;
  to_lowercase = λ s. s;
}

abbrev body : Text
body = text "quota exhausted"

opus_other : standard_model answers (some opus) ≢ opus
unfolding standard_model
opus_other e = ground arith

stored_reset_time_misses_example :
    let t' = precise_lockout answers tracker acct quota_exhausted (some opus) in
    (option_map (λ i. i.reset_time) (lookup (model acct opus) t'.limits) ≡ some (from_secs 600))
    × (lookup (model acct (standard_model answers (some opus))) t'.limits
        ≡ lookup (model acct (standard_model answers (some opus))) tracker.limits)
stored_reset_time_misses_example =
    stored_reset_time_misses answers tracker acct opus (text "1970-01-01T00:10:00Z") 600
      quota_exhausted refl refl refl opus_other
