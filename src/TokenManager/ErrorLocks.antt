-- ===== src/TokenManager/ErrorLocks.antt =====
-- How long an error answer locks a model of an account: mark_rate_limited_async of
-- crates/antigravity-core/src/proxy/token_manager/rate_limiter.rs.
use antigravity_server.TokenManager.RateLimiting.{Answers, standard_model}
use antigravity_server.RateLimit.{
  RateLimitInfo, RateLimitKey, RateLimitReason, RateLimitTracker, model, model_capacity_exhausted,
  quota_exhausted, rate_limit_key,
}
use antigravity_server.RateLimit.Errors.{Delays, Gives}
use antigravity_server.RateLimit.Lockout.{next_failure, set_model_lockout}
use antigravity_server.RateLimit.ErrorParsing.{
  Externals, is_limit_status, parse_rate_limit_reason, parse_reason,
}
use antigravity_server.Prelude.Map.{lookup}
use antigravity_server.Prelude.Int.{pos}
use antigravity_server.Prelude.Text.{Text, contains, text}
use antigravity_server.Prelude.{
  ℕ, Bool, Option, none, some, option_map, true, false, is_some, from_secs, as_secs, ◌+◌, ◌^◌, ◌||◌,
  ◌≡◌, ◌≢◌, ◌≤◌, ◌<◌,
}

-- The limit under a key ends at a time.
abbrev pub LockedUntil : RateLimitTracker → RateLimitKey → ℕ → Type 0
LockedUntil t key at =
    option_map (λ (i : RateLimitInfo). i.reset_time) (lookup key t.limits) ≡ some at

-- The seconds of the n-th failure in a row.
abbrev pub Tier : ℕ → ℕ → Type 0
Tier n secs = (n ≡ 1 → secs ≡ 5) × (n ≡ 2 → secs ≡ 15) × (n ≡ 3 → secs ≡ 30) × (3 < n → secs ≡ 60)

-- The lock where no time is known: 10 minutes for a quota, else by the count of failures.
abbrev pub Fallback :
    RateLimitReason → RateLimitTracker → RateLimitKey → ℕ → RateLimitTracker → Type 0
Fallback quota_exhausted t key now t' = LockedUntil t' key (now + from_secs 600)
Fallback reason t key now t' =
    (secs : ℕ) × Tier (next_failure now (lookup key t.failure_counts)) secs
    × LockedUntil t' key (now + from_secs secs)

-- The lock where the answer says that it has a retry time.
abbrev pub Hinted :
    RateLimitTracker
    → RateLimitKey
    → RateLimitReason
    → Answers
    → Option ℕ
    → Option RateLimitTracker
    → Type 0
Hinted t key reason a retry none =
    (u : RateLimitTracker) × (secs : ℕ) × Delays t u key reason a.parsed.counted retry secs
    × (2 ^ 63 ≤ as_secs a.parsed.reset_from + secs)
Hinted t key reason a retry (some t') =
    (u : RateLimitTracker) × (secs : ℕ) × Delays t u key reason a.parsed.counted retry secs
    × LockedUntil t' key (a.parsed.reset_from + from_secs secs)

abbrev pub is_hinted : Option Text → Text → Bool
is_hinted header body = is_some header || contains body (text "quotaResetDelay")

-- What an error answer does to the limit of the model.
pub record Locks (x : Externals) (a : Answers) (t : RateLimitTracker) (id : Text) (status : ℕ)
    (header : Option Text) (body raw : Text) (out : Option RateLimitTracker) : Type 0 where
  pub exhausted : parse_rate_limit_reason x body ≡ model_capacity_exhausted → out ≡ some t
  pub brief :
      parse_rate_limit_reason x body ≢ model_capacity_exhausted
      → is_hinted header body ≡ true
      → is_limit_status status ≡ false
      → (t' : RateLimitTracker) × (out ≡ some t')
        × LockedUntil t' (model id (standard_model a (some raw))) (a.first + from_secs 15)
  pub hinted :
      parse_rate_limit_reason x body ≢ model_capacity_exhausted
      → is_hinted header body ≡ true
      → is_limit_status status ≡ true
      → (retry : Option ℕ) × Gives x header body retry
        × Hinted t (model id (standard_model a (some raw))) (parse_reason x status body) a retry out
  pub fetched :
      parse_rate_limit_reason x body ≢ model_capacity_exhausted
      → is_hinted header body ≡ false
      → (str : Text) (ts : ℕ) → a.fetched_reset_time ≡ some str
      → a.parse_from_rfc3339 str ≡ some (pos ts)
      → (t' : RateLimitTracker) × (out ≡ some t')
        × LockedUntil t' (model id (standard_model a (some raw))) (from_secs ts)
  pub fallback :
      parse_rate_limit_reason x body ≢ model_capacity_exhausted
      → is_hinted header body ≡ false
      → a.fetched_reset_time ≡ none
      → a.stored_reset_time ≡ none
      → (t' : RateLimitTracker) × (out ≡ some t')
        × Fallback
            (parse_rate_limit_reason x body)
            t
            (model id (standard_model a (some raw)))
            a.last
            t'

module _ (x : Externals) (a : Answers) (t : RateLimitTracker) (id : Text) (status : ℕ)
    (header : Option Text) (body raw : Text) where
  abbrev locked : RateLimitTracker
  locked =
      set_model_lockout t id (standard_model a (some raw)) (a.first + from_secs 15)
        (parse_rate_limit_reason x body) a.first
