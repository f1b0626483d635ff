-- ===== src/RateLimit/Lockout.antt =====
-- Lockouts: crates/antigravity-core/src/proxy/rate_limit/lockout.rs.
use antigravity_server.Prelude.Int.{negsuc, pos, ℤ}
use antigravity_server.Prelude.Map.{insert, lookup, text_key}
use antigravity_server.Prelude.Text.{Text}
use antigravity_server.Prelude.{
  Bool, Option, as_secs, duration_since, false, from_secs, if◌then◌else◌, ltb, none, option_map,
  some, true, u32, unwrap_or, ℕ, ◌+◌, ◌==◌,
}
use antigravity_server.RateLimit.{
  RateLimitInfo, RateLimitKey, RateLimitReason, RateLimitTracker, account,
  failure_count_expiry_seconds, from_optional_model, model, model_name, rate_limit_exceeded,
  rate_limit_key, unknown,
}

-- The failure entry of a key after one more failure at `now`: a count that has not changed for over
-- an hour starts again.
unfoldable pub next_failure : ℕ → Option (ℕ × ℕ) → ℕ
next_failure now none = u32 (0 + 1)
next_failure now (some (n, since)) =
    if ltb failure_count_expiry_seconds (as_secs (unwrap_or (duration_since now since) 0))
    then u32 (0 + 1)
    else u32 (n + 1)

-- The block on `failure_counts.entry(key)`: the tracker after it and the new count.
unfoldable pub bump_failure : RateLimitTracker → RateLimitKey → ℕ → RateLimitTracker × ℕ
bump_failure t key now =
    let n = next_failure now (lookup key t.failure_counts) in
    (record t { failure_counts = insert key (n, now) t.failure_counts }, n)

-- 5 s, 15 s, 30 s, then 60 s.
unfoldable pub lockout_tier : ℕ → ℕ
lockout_tier n = if n == 1 then 5 else if n == 2 then 15 else if n == 3 then 30 else 60

abbrev put_limit : RateLimitTracker → RateLimitKey → RateLimitInfo → RateLimitTracker
put_limit t key info = record t { limits = insert key info t.limits }

-- The part that the two adaptive lockouts share.
unfoldable pub adaptive_lockout :
    RateLimitTracker → RateLimitKey → RateLimitReason → ℕ → RateLimitTracker × ℕ
unfolding bump_failure lockout_tier
adaptive_lockout t key reason now =
    let (t', n) = bump_failure t key now in
    let secs = lockout_tier n in
    (
      put_limit t' key (record {
        reset_time = now + from_secs secs;
        retry_after_sec = secs;
        detected_at = now;
        reason = reason;
        for_model = model_name key;
      }),
      secs,
    )

unfoldable pub set_adaptive_temporary_lockout : RateLimitTracker → Text → ℕ → RateLimitTracker × ℕ
unfolding adaptive_lockout
set_adaptive_temporary_lockout t id now = adaptive_lockout t (account id) unknown now

unfoldable pub set_adaptive_model_lockout :
    RateLimitTracker → Text → Text → ℕ → RateLimitTracker × ℕ
unfolding adaptive_lockout
set_adaptive_model_lockout t id m now = adaptive_lockout t (model id m) rate_limit_exceeded now

-- `reset_time.duration_since(now).map(|d| d.as_secs()).unwrap_or(60)`
abbrev retry_sec_until : ℕ → ℕ → ℕ
retry_sec_until reset_time now = unwrap_or (option_map as_secs (duration_since reset_time now)) 60

unfoldable pub set_lockout_until :
    RateLimitTracker → Text → ℕ → RateLimitReason → Option Text → ℕ → RateLimitTracker
set_lockout_until t id reset_time reason m now = put_limit t (from_optional_model id m) (record {
  reset_time = reset_time;
  retry_after_sec = retry_sec_until reset_time now;
  detected_at = now;
  reason = reason;
  for_model = m;
})

unfoldable pub set_model_lockout :
    RateLimitTracker → Text → Text → ℕ → RateLimitReason → ℕ → RateLimitTracker
set_model_lockout t id m reset_time reason now = put_limit t (model id m) (record {
  reset_time = reset_time;
  retry_after_sec = retry_sec_until reset_time now;
  detected_at = now;
  reason = reason;
  for_model = some m;
})

-- The outcome of `chrono::DateTime::parse_from_rfc3339`, as a Unix time in seconds.
abbrev pub Rfc3339 : Type 0
Rfc3339 = Text → Option ℤ

unfoldable pub iso_lockout :
    RateLimitTracker → Text → Option ℤ → RateLimitReason → Option Text → ℕ → RateLimitTracker × Bool
unfolding set_lockout_until
iso_lockout t id none reason m now = (t, false)
iso_lockout t id (some (negsuc n)) reason m now = (t, false)
iso_lockout t id (some (pos ts)) reason m now =
    (set_lockout_until t id (from_secs ts) reason m now, true)

unfoldable pub set_lockout_until_iso :
    Rfc3339
    → RateLimitTracker
    → Text
    → Text
    → RateLimitReason
    → Option Text
    → ℕ
    → RateLimitTracker × Bool
unfolding iso_lockout
set_lockout_until_iso parse t id reset_time_str reason m now =
    iso_lockout t id (parse reset_time_str) reason m now
