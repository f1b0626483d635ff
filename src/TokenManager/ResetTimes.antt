-- ===== src/TokenManager/ResetTimes.antt =====
-- Which key a stored reset time is noted under: set_precise_lockout of
-- crates/antigravity-core/src/proxy/token_manager/rate_limiter.rs.
use antigravity_server.TokenManager.Touches.{lock_until-Touches}
use antigravity_server.TokenManager.RateLimiting.{
  Answers, lock_until, precise_lockout, standard_model,
}
use antigravity_server.RateLimit.{RateLimitReason, RateLimitTracker, model, rate_limit_key}
use antigravity_server.Prelude.Map.{lookup, lookup-insert_self}
use antigravity_server.RateLimit.{RateLimitInfo}
use antigravity_server.RateLimit.Lockout.{iso_lockout, set_lockout_until, set_lockout_until_iso}
use antigravity_server.Prelude.Int.{pos}
use antigravity_server.Prelude.Text.{Text}
use antigravity_server.Prelude.{ℕ, none, some, option_map, from_secs, ◌≡◌, ◌≢◌, ◌∙◌, refl, sym, ap}

precise_lockout-unfetched :
    (a : Answers) (t : RateLimitTracker) (id raw : Text) (reason : RateLimitReason)
    → a.fetched_reset_time ≡ none
    → precise_lockout a t id reason (some raw)
      ≡ (lock_until a t id reason (some raw) a.stored_reset_time).0
unfolding precise_lockout lock_until
precise_lockout-unfetched a t id raw reason e = rw e refl

lock_until-noted :
    (a : Answers) (t : RateLimitTracker) (id raw str : Text) (ts : ℕ) (reason : RateLimitReason)
    → a.parse_from_rfc3339 str ≡ some (pos ts)
    → option_map
        (λ i. i.reset_time)
        (lookup (model id raw) (lock_until a t id reason (some raw) (some str)).0.limits)
      ≡ some (from_secs ts)
unfolding lock_until set_lockout_until_iso iso_lockout set_lockout_until
lock_until-noted a t id raw str ts reason e = rw e (
    ap (option_map (λ (i : RateLimitInfo). i.reset_time))
      (lookup-insert_self (model id raw) _ t.limits))

-- Where no reset time is fetched, a stored one that is a date after 1970 is noted, as the end of a
-- limit under the model as the request names it. If that is not its standard name, the limit under
-- the standard name, which the pool looks up, stays as it was.
pub stored_reset_time_misses :
    (a : Answers) (t : RateLimitTracker) (id raw str : Text) (ts : ℕ) (reason : RateLimitReason)
    → a.fetched_reset_time ≡ none
    → a.stored_reset_time ≡ some str
    → a.parse_from_rfc3339 str ≡ some (pos ts)
    → standard_model a (some raw) ≢ raw
    → let t' = precise_lockout a t id reason (some raw) in
      (option_map (λ i. i.reset_time) (lookup (model id raw) t'.limits) ≡ some (from_secs ts))
      × (lookup (model id (standard_model a (some raw))) t'.limits
          ≡ lookup (model id (standard_model a (some raw))) t.limits)
stored_reset_time_misses a t id raw str ts reason e stored date n =
    let touched =
      lock_until-Touches (λ j. model id raw ≡ j) a t id raw reason a.stored_reset_time refl in
    let same = precise_lockout-unfetched a t id raw reason e in
    (
      ap (λ t'. option_map (λ (i : RateLimitInfo). i.reset_time) (lookup (model id raw) t'.limits))
            (same ∙ ap (λ o. (lock_until a t id reason (some raw) o).0) stored)
          ∙ lock_until-noted a t id raw str ts reason date,
      ap (λ t'. lookup (model id (standard_model a (some raw))) t'.limits) same
          ∙ (touched (model id (standard_model a (some raw)))).0 (λ p. n (let q = sym p in cc)),
    )
