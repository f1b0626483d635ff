-- ===== src/RateLimit/Queries.antt =====
-- What the queries of a tracker promise, and that cleaning up changes no answer.
use antigravity_server.Prelude.Map.{
  IsUnique, Map, keep_if, lookup, lookup-retain, retain, retain-IsUnique, text_key,
}
use antigravity_server.Prelude.Text.{Text}
use antigravity_server.Prelude.{
  Option, [], ap, arith, as_secs, false, from_secs, length, none, refl, some, sym, true, ℕ, ◌+◌,
  ◌-◌, ◌<◌, ◌↔◌, ◌∙◌, ◌∷◌, ◌≡◌, ◌≤◌,
}
use antigravity_server.RateLimit.{
  RateLimitInfo, RateLimitKey, RateLimitTracker, account, cleanup_expired, count_expired, get,
  get_for_model, get_remaining_wait, get_remaining_wait_for_model, get_reset_seconds, is_active,
  is_kept, is_rate_limited, is_rate_limited_for_model, model, rate_limit_key, reset_seconds_of,
  wait_of,
}

wait_of-zero :
    (now : ℕ) (o : Option RateLimitInfo) → (wait_of now o ≡ 0) ↔ (is_active now o ≡ false)
unfolding wait_of
wait_of-zero now none = ground arith
wait_of-zero now (some info) = ground arith

-- The wait is the least number of whole seconds after which the limit is over.
wait_of-least :
    (now : ℕ) (o : Option RateLimitInfo) (secs : ℕ)
    → (is_active (now + from_secs secs) o ≡ false) ↔ (wait_of now o ≤ secs)
unfolding wait_of
wait_of-least now none secs = ground arith
wait_of-least now (some info) secs = ground arith

-- An account waits no more for a model exactly as long as it is not limited for it, and the wait
-- that is reported is the least number of whole seconds after which it is not.
pub remaining_wait_for_model_least :
    (t : RateLimitTracker) (id m : Text) (now secs : ℕ)
    → ((get_remaining_wait_for_model t id m now ≡ 0)
        ↔ (is_rate_limited_for_model t id m now ≡ false))
      × ((is_rate_limited_for_model t id m (now + from_secs secs) ≡ false)
          ↔ (get_remaining_wait_for_model t id m now ≤ secs))
unfolding get_remaining_wait_for_model is_rate_limited_for_model
remaining_wait_for_model_least t id m now secs =
    let a = get t id in
    let b = get_for_model t id m in
    (
      ground (arith, wait_of-zero now a, wait_of-zero now b),
      ground (arith, wait_of-least now a secs, wait_of-least now b secs),
    )

reset_seconds_of-wait :
    (now : ℕ) (o : Option RateLimitInfo)
    → is_active now o ≡ true
    → (s : ℕ) × (reset_seconds_of now o ≡ some s) × (s ≤ wait_of now o) × (wait_of now o ≤ s + 1)
unfolding wait_of
reset_seconds_of-wait now none h = cc
reset_seconds_of-wait now (some info) h =
    (as_secs (info.reset_time - now), ground arith, ground arith, ground arith)

-- The same of the account alone, and `get_reset_seconds` is that wait rounded down.
pub remaining_wait_least :
    (t : RateLimitTracker) (id : Text) (now secs : ℕ)
    → ((is_rate_limited t id (now + from_secs secs) ≡ false) ↔ (get_remaining_wait t id now ≤ secs))
      × (is_rate_limited t id now ≡ true
          → (s : ℕ) × (get_reset_seconds t id now ≡ some s)
            × (s ≤ get_remaining_wait t id now)
            × (get_remaining_wait t id now ≤ s + 1))
unfolding get_remaining_wait is_rate_limited get_reset_seconds
remaining_wait_least t id now secs =
    (wait_of-least now (get t id) secs, reset_seconds_of-wait now (get t id))

-- The answer for one key, now or later.
keep_if-is_active :
    (now later : ℕ) (key : RateLimitKey) (o : Option RateLimitInfo)
    → now ≤ later
    → is_active later (keep_if (is_kept now) key o) ≡ is_active later o
keep_if-is_active now later key none h = refl
keep_if-is_active now later key (some info) h = ground arith

keep_if-some :
    (now : ℕ) (key : RateLimitKey) (o : Option RateLimitInfo) (info : RateLimitInfo)
    → keep_if (is_kept now) key o ≡ some info
    → now < info.reset_time
keep_if-some now key none info e = cc
keep_if-some now key (some i) info e = ground arith

length-retain :
    (now : ℕ) (m : Map RateLimitKey RateLimitInfo)
    → count_expired now m + length (retain (is_kept now) m) ≡ length m
unfolding count_expired retain
length-retain now [] = omega arith
length-retain now ((key, info) ∷ m) = ground (arith, length-retain now m)

-- Cleaning up drops as many limits as it reports, and changes no later answer about an account, a
-- model or a wait; each limit that is left is still active.
pub cleanup_expired_keeps :
    (t : RateLimitTracker) (now later : ℕ) (id m : Text)
    → IsUnique t.limits
    → now ≤ later
    → let (t', n) = cleanup_expired t now in
      (n + length t'.limits ≡ length t.limits)
      × IsUnique t'.limits
      × (is_rate_limited t' id later ≡ is_rate_limited t id later)
      × (is_rate_limited_for_model t' id m later ≡ is_rate_limited_for_model t id m later)
      × ((key : RateLimitKey) (info : RateLimitInfo)
          → lookup key t'.limits ≡ some info
          → now < info.reset_time)
unfolding cleanup_expired is_rate_limited is_rate_limited_for_model
cleanup_expired_keeps t now later id m u h =
    let kept = λ (key : RateLimitKey).
      ap (is_active later) (lookup-retain (is_kept now) key t.limits u)
      ∙ keep_if-is_active now later key (lookup key t.limits) h in
    (
      length-retain now t.limits,
      retain-IsUnique (is_kept now) t.limits u,
      kept (account id),
      ground (arith, kept (account id), kept (model id m)),
      λ key info e.
          keep_if-some now key (lookup key t.limits) info
            (sym (lookup-retain (is_kept now) key t.limits u) ∙ e),
    )
