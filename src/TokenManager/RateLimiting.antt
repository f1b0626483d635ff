-- ===== src/TokenManager/RateLimiting.antt =====
-- What an error answer does to the rate limits: mark_rate_limited_async of
-- crates/antigravity-core/src/proxy/token_manager/rate_limiter.rs.
use antigravity_server.RateLimit.{RateLimitReason, RateLimitTracker, RateLimitInfo, quota_exhausted}
use antigravity_server.RateLimit.Lockout.{
  Rfc3339, set_adaptive_model_lockout, set_lockout_until_iso, set_model_lockout,
}
use antigravity_server.RateLimit.ErrorParsing.{
  Clock, Externals, parse_from_error, parse_rate_limit_reason, is_capacity,
}
use antigravity_server.Prelude.Text.{Text, contains, text}
use antigravity_server.Prelude.{
  ℕ, Bool, Option, none, some, option_map, false, if◌then◌else◌, is_some, unwrap_or, from_secs,
  ◌||◌, ◌+◌,
}

-- What the method asks of others: the standard name of a model, a date, and the earliest reset time
-- of the account's quota, as fetched now and as stored; and its readings of the clock.
pub record Answers : Type 0 where
  pub normalize_to_standard_id : Text → Option Text
  pub parse_from_rfc3339 : Rfc3339
  pub fetched_reset_time : Option Text
  pub stored_reset_time : Option Text
  pub first : ℕ
  pub parsed : Clock
  pub last : ℕ

unfoldable pub standard_model : Answers → Option Text → Text
standard_model a m =
    let raw_model = unwrap_or m (text "unknown") in
    unwrap_or (a.normalize_to_standard_id raw_model) raw_model

-- The part with an explicit retry time.
unfoldable pub with_retry_time :
    Text → Text → RateLimitReason → ℕ → RateLimitTracker × Option RateLimitInfo → RateLimitTracker
unfolding set_model_lockout
with_retry_time id model_str reason now (t', none) = t'
with_retry_time id model_str reason now (t', some info) =
    set_model_lockout t' id model_str info.reset_time reason now

-- The lockout for a reason, where no time is known.
unfoldable pub fallback_lockout :
    RateLimitTracker → Text → Text → RateLimitReason → ℕ → RateLimitTracker
unfolding set_model_lockout set_adaptive_model_lockout
fallback_lockout t id model_str quota_exhausted now =
    set_model_lockout t id model_str (now + from_secs 600) quota_exhausted now
fallback_lockout t id model_str reason now = (set_adaptive_model_lockout t id model_str now).0

-- `fetch_and_lock_with_realtime_quota` and `set_precise_lockout`, once the reset time is at hand.
unfoldable pub lock_until :
    Answers
    → RateLimitTracker
    → Text
    → RateLimitReason
    → Option Text
    → Option Text
    → RateLimitTracker × Bool
unfolding set_lockout_until_iso
lock_until a t id reason m none = (t, false)
lock_until a t id reason m (some reset_time_str) =
    set_lockout_until_iso a.parse_from_rfc3339 t id reset_time_str reason m a.last

unfoldable pub precise_lockout :
    Answers → RateLimitTracker → Text → RateLimitReason → Option Text → RateLimitTracker
unfolding lock_until standard_model
precise_lockout a t id reason m =
    let (fetched, done) =
      lock_until a t id reason (some (standard_model a m)) a.fetched_reset_time in
    if done then fetched else (lock_until a fetched id reason m a.stored_reset_time).0

-- `none` where the reset time overflows and the program panics.
unfoldable pub mark_rate_limited_async :
    Externals
    → Answers
    → RateLimitTracker
    → Text
    → ℕ
    → Option Text
    → Text
    → Option Text
    → Option RateLimitTracker
unfolding parse_rate_limit_reason standard_model set_model_lockout with_retry_time parse_from_error
    fallback_lockout precise_lockout contains
mark_rate_limited_async x a t id status header error_body m =
    let reason = parse_rate_limit_reason x error_body in
    let model_str = standard_model a m in
    if is_capacity reason
    then some t
    else let locked = set_model_lockout t id model_str (a.first + from_secs 15) reason a.first in
      if is_some header || contains error_body (text "quotaResetDelay")
      then option_map (with_retry_time id model_str reason a.last)
          (parse_from_error x locked id status header error_body (some model_str) a.parsed)
      else some (precise_lockout a (fallback_lockout locked id model_str reason a.last) id reason m)
