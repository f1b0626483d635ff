-- ===== src/RateLimit/ErrorParsing.antt =====
-- Limits from error responses: crates/antigravity-core/src/proxy/rate_limit/error_parsing.rs.
use antigravity_server.Prelude.Map.{insert, text_key}
use antigravity_server.Prelude.Text.{
  Text, Text-discrete, contains, parse_u64, starts_with, text, trim,
}
use antigravity_server.Prelude.{
  Bool, Option, as_secs, option_map, ◌^◌, false, from_secs, if◌then◌else◌, ite, ltb, none, not,
  some, true, unwrap_or, ℕ, ◌+◌, ◌==◌, ◌||◌,
}
use antigravity_server.Json.{FromStr, Json, as_array, as_str, ◌>>=◌}
use antigravity_server.Json.{get as get_json, first as first_item}
use antigravity_server.RateLimit.{
  RateLimitInfo, RateLimitKey, RateLimitReason, RateLimitTracker, from_optional_model,
  model_capacity_exhausted, quota_exhausted, rate_limit_exceeded, rate_limit_key, server_error,
  unknown,
}
use antigravity_server.RateLimit.Lockout.{bump_failure}
use antigravity_server.RateLimit.Parser.{Patterns, parse_retry_time_from_body, ◌or_else◌}

-- What the parsing takes from crates and from Unicode: JSON, patterns and lower case.
pub record Externals : Type 0 where
  pub patterns : Patterns
  pub from_str : FromStr
  pub to_lowercase : Text → Text

reason_of_code : Text → RateLimitReason
unfolding Text-discrete
reason_of_code s = ite (Text-discrete s (text "QUOTA_EXHAUSTED")) quota_exhausted (
    ite (Text-discrete s (text "RATE_LIMIT_EXCEEDED")) rate_limit_exceeded
      (ite (Text-discrete s (text "MODEL_CAPACITY_EXHAUSTED")) model_capacity_exhausted unknown))

-- The reason that the JSON itself gives: its code, or a message about a rate.
reason_in_json : Externals → Json → Option RateLimitReason
unfolding reason_of_code contains
reason_in_json x json =
    (do
      e ← get_json (text "error") json
      d ← get_json (text "details") e
      a ← as_array d
      o ← first_item a
      v ← get_json (text "reason") o
      s ← as_str v
      some (reason_of_code s))
    or_else (do
      e ← get_json (text "error") json
      v ← get_json (text "message") e
      msg ← as_str v
      (let msg_lower = x.to_lowercase msg in
          if contains msg_lower (text "per minute") || contains msg_lower (text "rate limit")
          then some rate_limit_exceeded
          else none))

reason_of_words : Text → RateLimitReason
unfolding contains
reason_of_words body_lower =
    if contains body_lower (text "per minute")
      || contains body_lower (text "rate limit")
      || contains body_lower (text "too many requests")
    then rate_limit_exceeded
    else if contains body_lower (text "exhausted") || contains body_lower (text "quota")
    then quota_exhausted
    else unknown

unfoldable pub parse_rate_limit_reason : Externals → Text → RateLimitReason
unfolding reason_in_json reason_of_words trim starts_with
parse_rate_limit_reason x body =
    let trimmed = trim body in
    unwrap_or
      (if starts_with trimmed (text "{") || starts_with trimmed (text "[")
        then x.from_str trimmed >>= reason_in_json x
        else none)
      (reason_of_words (x.to_lowercase body))

abbrev pub is_limit_status : ℕ → Bool
is_limit_status status = status == 429 || status == 500 || status == 503 || status == 529

unfoldable pub quota_tier : ℕ → ℕ
quota_tier n = if n == 1 then 60 else if n == 2 then 300 else if n == 3 then 1800 else 7200

-- The delay of a failure without a retry time, by its reason.
unfoldable pub default_delay : RateLimitReason → ℕ → ℕ
unfolding quota_tier
default_delay quota_exhausted n = quota_tier n
default_delay rate_limit_exceeded n = 5
default_delay model_capacity_exhausted n = 5
default_delay server_error n = 20
default_delay unknown n = 60

-- The retry time that the response gives: its header, else its body.
unfoldable pub explicit_retry : Externals → Option Text → Text → Option ℕ
unfolding parse_u64 parse_retry_time_from_body
explicit_retry x header body =
    (header >>= parse_u64) or_else parse_retry_time_from_body x.patterns x.from_str body

-- The tracker with the failure counted where no time is given, and the delay in seconds.
unfoldable pub retry_delay :
    RateLimitTracker → RateLimitKey → RateLimitReason → ℕ → Option ℕ → RateLimitTracker × ℕ
unfolding bump_failure default_delay
retry_delay t key reason now (some s) = (t, if ltb s 2 then 2 else s)
retry_delay t key reason now none =
    let (t', n) = bump_failure t key now in (t', default_delay reason n)

-- The clock is read three times: for the failure count, the reset time and the detection time.
pub record Clock : Type 0 where
  pub counted : ℕ
  pub reset_from : ℕ
  pub detected : ℕ

-- `SystemTime + Duration::from_secs`, which panics where the seconds do not fit an `i64`: `none`.
unfoldable pub add_secs : ℕ → ℕ → Option ℕ
add_secs at secs = if ltb (as_secs at + secs) (2 ^ 63) then some (at + from_secs secs) else none

-- The info for a key, with the time the panic leaves open.
unfoldable pub record_limit :
    RateLimitTracker
    → RateLimitKey
    → Option Text
    → RateLimitReason
    → ℕ
    → ℕ
    → Option ℕ
    → Option (RateLimitTracker × RateLimitInfo)
record_limit t key m reason detected secs none = none
record_limit t key m reason detected secs (some reset_time) =
    let info : RateLimitInfo = record {
      reset_time = reset_time;
      retry_after_sec = secs;
      detected_at = detected;
      reason = reason;
      for_model = m;
    } in
    some (record t { limits = insert key info t.limits }, info)

-- `none` where the program panics, and so ends.
unfoldable pub limit_with :
    RateLimitTracker
    → Text
    → Option Text
    → RateLimitReason
    → Clock
    → Option ℕ
    → Option (RateLimitTracker × RateLimitInfo)
unfolding retry_delay add_secs record_limit
limit_with t id m reason clock retry =
    let key = from_optional_model id m in
    let (t', secs) = retry_delay t key reason clock.counted retry in
    record_limit t' key m reason clock.detected secs (add_secs clock.reset_from secs)

unfoldable pub parse_reason : Externals → ℕ → Text → RateLimitReason
unfolding parse_rate_limit_reason
parse_reason x status body = if status == 429 then parse_rate_limit_reason x body else server_error

abbrev pub is_capacity : RateLimitReason → Bool
is_capacity model_capacity_exhausted = true
is_capacity _ = false

unfoldable pub parse_from_error :
    Externals
    → RateLimitTracker
    → Text
    → ℕ
    → Option Text
    → Text
    → Option Text
    → Clock
    → Option (RateLimitTracker × Option RateLimitInfo)
parse_from_error x t id status header body m clock =
    if not (is_limit_status status)
    then some (t, none)
    else let reason = parse_reason x status body in
      if is_capacity reason
      then some (t, none)
      else option_map (λ limited. (limited.0, some limited.1))
          (limit_with t id m reason clock (explicit_retry x header body))
