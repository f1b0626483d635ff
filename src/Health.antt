-- ===== src/Health.antt =====
-- The health of each account: crates/antigravity-core/src/proxy/health (types.rs, monitor.rs,
-- response.rs). Each method is one step; `now` is the reading of `Instant::now()` in it. The scores
-- and rates, which are floating point, and the background task that calls `check_and_recover` are
-- left out.
pub mod Monitoring
pub mod Threshold
mod Examples
use antigravity_server.Prelude.Map.{Map, insert, lookup, map_values, remove, text_key}
use antigravity_server.Prelude.Text.{Text}
use antigravity_server.Prelude.{
  Bool, Option, [], as_secs, count, elapsed, false, from_secs, if◌then◌else◌, is_some, leb, length,
  ltb, none, not, option_map, some, take, true, u32, ℕ, ◌&&◌, ◌++◌, ◌+◌, ◌-◌, ◌==◌, ◌∷◌,
}

pub data HealthStatus : Type 0 where
  healthy degraded disabled recovering : HealthStatus

pub data ErrorType : Type 0 where
  forbidden rate_limited server_error unauthorized : ErrorType

unfoldable pub from_status_code : ℕ → Option ErrorType
from_status_code code =
    if code == 401
    then some unauthorized
    else if code == 403
    then some forbidden
    else if code == 429
    then some rate_limited
    else if leb 500 code && leb code 599
    then some server_error
    else none

pub record HealthConfig : Type 0 where
  pub error_threshold : ℕ
  pub cooldown_seconds : ℕ
  pub track_rate_limits : Bool
  pub recovery_check_interval_seconds : ℕ

unfoldable pub default_config : HealthConfig
default_config = record {
  error_threshold = 5;
  cooldown_seconds = 300;
  track_rate_limits = false;
  recovery_check_interval_seconds = 30;
}

pub record AccountHealth : Type 0 where
  pub account_id : Text
  pub email : Text
  pub consecutive_errors : ℕ
  pub is_disabled : Bool
  pub disabled_at : Option ℕ
  pub last_error_type : Option ErrorType
  pub last_error_message : Option Text
  pub total_successes : ℕ
  pub total_errors : ℕ

unfoldable pub fresh_health : Text → Text → AccountHealth
fresh_health account_id email = record {
  account_id = account_id;
  email = email;
  consecutive_errors = 0;
  is_disabled = false;
  disabled_at = none;
  last_error_type = none;
  last_error_message = none;
  total_successes = 0;
  total_errors = 0;
}

pub record HealthMonitor : Type 0 where
  pub config : HealthConfig
  pub accounts : Map Text AccountHealth

unfoldable pub new : HealthConfig → HealthMonitor
new config = record { config = config; accounts = [] }

enabled_again : AccountHealth → AccountHealth
enabled_again h = record h { is_disabled = false; consecutive_errors = 0; disabled_at = none }

cooled_down : ℕ → ℕ → Option ℕ → Bool
cooled_down cooldown now none = false
cooled_down cooldown now (some disabled_time) = leb cooldown (elapsed now disabled_time)

-- The body of the loop of `check_and_recover`.
unfoldable pub recover_account : HealthConfig → ℕ → AccountHealth → AccountHealth
unfolding enabled_again cooled_down
recover_account config now h =
    if h.is_disabled && cooled_down (from_secs config.cooldown_seconds) now h.disabled_at
    then enabled_again h
    else h

unfoldable pub check_and_recover : HealthMonitor → ℕ → HealthMonitor
unfolding map_values
check_and_recover m now = record m {
  accounts = map_values (recover_account m.config now) m.accounts;
}

unfoldable pub register_account : HealthMonitor → Text → Text → HealthMonitor
register_account m account_id email =
    if is_some (lookup account_id m.accounts)
    then m
    else record m { accounts = insert account_id (fresh_health account_id email) m.accounts }

unfoldable pub unregister_account : HealthMonitor → Text → HealthMonitor
unregister_account m account_id = record m { accounts = remove account_id m.accounts }

unfoldable pub success_in : AccountHealth → AccountHealth
success_in h = record h { consecutive_errors = 0; total_successes = u32 (h.total_successes + 1) }

unfoldable pub success_at : HealthMonitor → Text → Option AccountHealth → HealthMonitor
unfolding success_in
success_at m account_id none = m
success_at m account_id (some h) = record m {
  accounts = insert account_id (success_in h) m.accounts;
}

unfoldable pub record_success : HealthMonitor → Text → HealthMonitor
unfolding success_at
record_success m account_id = success_at m account_id (lookup account_id m.accounts)

-- `truncate_string`: at most `max_len` characters, and an ellipsis where some are cut.
unfoldable pub truncate_string : Text → ℕ → Text
truncate_string s max_len = if leb (length s) max_len then s else (take max_len s ++ 8230 ∷ [])

-- An error that counts, and whether it disables the account.
unfoldable pub error_in : HealthConfig → ErrorType → Text → ℕ → AccountHealth → AccountHealth × Bool
unfolding truncate_string
error_in config error_type error_message now h =
    let errors = u32 (h.consecutive_errors + 1) in
    let noted = record h {
      consecutive_errors = errors;
      total_errors = u32 (h.total_errors + 1);
      last_error_type = some error_type;
      last_error_message = some (truncate_string error_message 500);
    } in
    if leb config.error_threshold errors && not h.is_disabled
    then (record noted { is_disabled = true; disabled_at = some now }, true)
    else (noted, false)

-- The type under which an answer counts, if it does.
unfoldable pub counted_error : HealthConfig → ℕ → Option ErrorType
unfolding from_status_code
counted_error config status_code = elim (from_status_code status_code) [
  | none ↦ none
  | some rate_limited ↦ if config.track_rate_limits then some rate_limited else none
  | some t ↦ some t
]

record_counted :
    HealthMonitor → Text → Option ErrorType → Text → ℕ → Option AccountHealth → HealthMonitor × Bool
record_counted m account_id (some t) error_message now (some h) =
    let (h', now_disabled) = error_in m.config t error_message now h in
    (record m { accounts = insert account_id h' m.accounts }, now_disabled)
record_counted m account_id _ error_message now _ = (m, false)

unfoldable pub record_error : HealthMonitor → Text → ℕ → Text → ℕ → HealthMonitor × Bool
unfolding counted_error record_counted error_in
record_error m account_id status_code error_message now =
    record_counted m account_id (counted_error m.config status_code) error_message now
      (lookup account_id m.accounts)

enabled_at : HealthMonitor → Text → Option AccountHealth → HealthMonitor × Bool
unfolding enabled_again
enabled_at m account_id none = (m, false)
enabled_at m account_id (some h) =
    if h.is_disabled
    then (record m { accounts = insert account_id (enabled_again h) m.accounts }, true)
    else (m, false)

unfoldable pub force_enable : HealthMonitor → Text → HealthMonitor × Bool
unfolding enabled_at
force_enable m account_id = enabled_at m account_id (lookup account_id m.accounts)

-- `build_health_response`: the status, and the seconds of cooldown that remain.
unfoldable pub status_of : AccountHealth → HealthStatus
status_of h =
    if h.is_disabled
    then (if is_some h.disabled_at then recovering else disabled)
    else if ltb 0 h.consecutive_errors
    then degraded
    else healthy

unfoldable pub cooldown_remaining_seconds : ℕ → ℕ → Option ℕ → Option ℕ
cooldown_remaining_seconds cooldown_secs now none = none
cooldown_remaining_seconds cooldown_secs now (some instant) =
    some (cooldown_secs - as_secs (elapsed now instant))

unfoldable pub get_health :
    HealthMonitor → Text → ℕ → Option (HealthStatus × Option ℕ × AccountHealth)
unfolding status_of cooldown_remaining_seconds
get_health m account_id now =
    option_map
      (λ h.
        (status_of h, cooldown_remaining_seconds m.config.cooldown_seconds now h.disabled_at, h))
      (lookup account_id m.accounts)

available : Option AccountHealth → Bool
available none = true
available (some h) = not h.is_disabled

unfoldable pub is_available : HealthMonitor → Text → Bool
unfolding available
is_available m account_id = available (lookup account_id m.accounts)

unfoldable pub update_config : HealthMonitor → HealthConfig → HealthMonitor
update_config m config = record m { config = config }

unfoldable pub clear : HealthMonitor → HealthMonitor
clear m = record m { accounts = [] }

unfoldable pub disabled_count : HealthMonitor → ℕ
disabled_count m = count (λ e. e.1.is_disabled) m.accounts

unfoldable pub healthy_count : HealthMonitor → ℕ
healthy_count m = count (λ e. not e.1.is_disabled) m.accounts
