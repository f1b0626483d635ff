-- ===== src/RateLimit.antt =====
-- Rate limits of accounts and of models: crates/antigravity-core/src/proxy/rate_limit
-- (mod.rs, rate_limit_info.rs, tracker.rs). Both tables are `DashMap`s; `now` is the reading of
-- `SystemTime::now()` in a method. Logging is left out.
pub mod Lockout
pub mod Queries
pub mod Parser
pub mod ErrorParsing
pub mod Errors
pub mod Adaptive
mod Examples
use antigravity_server.Prelude.Map.{Key, Map, lookup, remove, retain, text_key}
use antigravity_server.Prelude.Text.{Text, text}
use antigravity_server.Prelude.{
  Bool, Option, [], as_secs, duration_since, false, if◌then◌else◌, is_some, leb, ltb, max, none,
  option_map, some, subsec_nanos, suc, true, ℕ, ℕ_discrete, ◌++◌, ◌+◌, ◌-◌, ◌∷◌,
}

-- `model_capacity_exhausted` and `server_error` are as in the source.
pub data RateLimitReason : Type 0 where
  quota_exhausted rate_limit_exceeded model_capacity_exhausted server_error unknown :
      RateLimitReason

pub data RateLimitKey : Type 0 where
  account : Text → RateLimitKey
  model : Text → Text → RateLimitKey

unfoldable pub RateLimitKey-discrete : Discrete RateLimitKey
unfolding ℕ_discrete
RateLimitKey-discrete = hlevel ℕ_discrete

instance abbrev pub rate_limit_key : Key RateLimitKey
rate_limit_key = record { dec = RateLimitKey-discrete }

abbrev pub from_optional_model : Text → Option Text → RateLimitKey
from_optional_model id none = account id
from_optional_model id (some m) = model id m

abbrev pub account_id : RateLimitKey → Text
account_id (account id) = id
account_id (model id m) = id

abbrev pub model_name : RateLimitKey → Option Text
model_name (account id) = none
model_name (model id m) = some m

-- `Display`: the account, and the model behind a colon.
pub to_text : RateLimitKey → Text
to_text (account id) = id
to_text (model id m) = id ++ text ":" ++ m

pub record RateLimitInfo : Type 0 where
  pub reset_time : ℕ
  pub retry_after_sec : ℕ
  pub detected_at : ℕ
  pub reason : RateLimitReason
  pub for_model : Option Text

pub record RateLimitTracker : Type 0 where
  pub limits : Map RateLimitKey RateLimitInfo
  pub failure_counts : Map RateLimitKey (ℕ × ℕ)

unfoldable pub new : RateLimitTracker
new = record { limits = []; failure_counts = [] }

abbrev pub failure_count_expiry_seconds : ℕ
failure_count_expiry_seconds = 3600

unfoldable pub duration_to_secs_ceil : ℕ → ℕ
duration_to_secs_ceil d = if ltb 0 (subsec_nanos d) then as_secs d + 1 else as_secs d

-- Whether a binding still limits at `now`.
abbrev pub is_active : ℕ → Option RateLimitInfo → Bool
is_active now none = false
is_active now (some info) = ltb now info.reset_time

-- The seconds that a binding still limits, 0 if it does not.
unfoldable pub wait_of : ℕ → Option RateLimitInfo → ℕ
unfolding duration_to_secs_ceil
wait_of now none = 0
wait_of now (some info) =
    if ltb now info.reset_time then duration_to_secs_ceil (info.reset_time - now) else 0

unfoldable pub get_remaining_wait : RateLimitTracker → Text → ℕ → ℕ
get_remaining_wait t id now = wait_of now (lookup (account id) t.limits)

-- Remove the failure count and the limit of one key.
forget : RateLimitTracker → RateLimitKey → RateLimitTracker
forget t key = record { limits = remove key t.limits; failure_counts = remove key t.failure_counts }

unfoldable pub mark_success : RateLimitTracker → Text → RateLimitTracker
unfolding forget
mark_success t id = forget t (account id)

unfoldable pub mark_model_success : RateLimitTracker → Text → Text → RateLimitTracker
unfolding forget
mark_model_success t id m = forget t (model id m)

abbrev pub get : RateLimitTracker → Text → Option RateLimitInfo
get t id = lookup (account id) t.limits

abbrev pub get_for_model : RateLimitTracker → Text → Text → Option RateLimitInfo
get_for_model t id m = lookup (model id m) t.limits

unfoldable pub is_rate_limited : RateLimitTracker → Text → ℕ → Bool
is_rate_limited t id now = is_active now (get t id)

unfoldable pub is_rate_limited_for_model : RateLimitTracker → Text → Text → ℕ → Bool
is_rate_limited_for_model t id m now =
    if is_active now (get t id)
    then true
    else if is_active now (get_for_model t id m)
    then true
    else false

unfoldable pub get_remaining_wait_for_model : RateLimitTracker → Text → Text → ℕ → ℕ
get_remaining_wait_for_model t id m now =
    max (max 0 (wait_of now (get t id))) (wait_of now (get_for_model t id m))

abbrev reset_seconds_of : ℕ → Option RateLimitInfo → Option ℕ
reset_seconds_of now none = none
reset_seconds_of now (some info) = option_map as_secs (duration_since info.reset_time now)

unfoldable pub get_reset_seconds : RateLimitTracker → Text → ℕ → Option ℕ
get_reset_seconds t id now = reset_seconds_of now (get t id)

abbrev pub is_kept : ℕ → RateLimitKey → RateLimitInfo → Bool
is_kept now key info = ltb now info.reset_time

count_expired : ℕ → Map RateLimitKey RateLimitInfo → ℕ
count_expired now [] = 0
count_expired now ((key, info) ∷ m) =
    let rest = count_expired now m in if leb info.reset_time now then suc rest else rest

-- The tracker afterwards, and how many limits were dropped.
unfoldable pub cleanup_expired : RateLimitTracker → ℕ → RateLimitTracker × ℕ
unfolding count_expired
cleanup_expired t now =
    (record t { limits = retain (is_kept now) t.limits }, count_expired now t.limits)

unfoldable pub clear : RateLimitTracker → Text → RateLimitTracker × Bool
clear t id = (record t { limits = remove (account id) t.limits }, is_some (get t id))

unfoldable pub clear_all : RateLimitTracker → RateLimitTracker
clear_all t = record t { limits = [] }
