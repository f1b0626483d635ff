-- ===== src/Health/Examples.antt =====
-- The theorems on health at concrete monitors.
use antigravity_server.Health.{
  AccountHealth, HealthMonitor, check_and_recover, counted_error, default_config, disabled,
  error_in, fresh_health, from_status_code, get_health, healthy, is_available, new, record_counted,
  record_error, record_success, recover_account, recovering, register_account, server_error,
  status_of, success_in, truncate_string,
}
use antigravity_server.Health.Monitoring.{
  Call, errs, get_health-status, recovers, registers, run, step, succeeds,
}
use antigravity_server.Health.Threshold.{errors, errors-is_available}
use antigravity_server.Prelude.Map.{insert, lookup, map_values, text_key}
use antigravity_server.Prelude.Text.{Text, Text-discrete, text}
use antigravity_server.Prelude.{
  List, [], arith, false, length, none, refl, some, true, ℕ, ◌↔◌, ◌∷◌, ◌≡◌, ◌≤◌,
}

abbrev acct : Text
acct = text "a1"

abbrev history : List Call
history =
    registers acct (text "a@example.com")
    ∷ errs acct 500 (text "oops") 10
    ∷ succeeds acct
    ∷ recovers 30
    ∷ []

-- The account after the history.
abbrev served : AccountHealth
served = record {
  account_id = acct;
  email = text "a@example.com";
  consecutive_errors = 0;
  is_disabled = false;
  disabled_at = none;
  last_error_type = some server_error;
  last_error_message = some (text "oops");
  total_successes = 1;
  total_errors = 1;
}

get_health-status_example :
    (¬ (healthy ≡ disabled))
    × ((healthy ≡ recovering) ↔ (is_available (run (new default_config) history) acct ≡ false))
unfolding get_health lookup run step new default_config register_account record_error record_success
    check_and_recover recover_account insert Text-discrete fresh_health error_in success_in
    map_values counted_error truncate_string status_of record_counted
get_health-status_example =
    get_health-status default_config history acct 40 healthy none served refl

abbrev monitor : AccountHealth → HealthMonitor
monitor h = record { config = default_config; accounts = (acct, h) ∷ [] }

abbrev five_errors : List (ℕ × Text × ℕ)
five_errors =
    (503, text "e", 1)
    ∷ (401, text "e", 2)
    ∷ (403, text "e", 3)
    ∷ (503, text "e", 4)
    ∷ (500, text "e", 5)
    ∷ []

errors-is_available_example :
    (is_available (run (monitor served) (errors acct five_errors)) acct ≡ false)
    ↔ (default_config.error_threshold ≤ length five_errors)
unfolding lookup Text-discrete default_config counted_error from_status_code
errors-is_available_example =
    errors-is_available (monitor served) acct served five_errors refl refl refl (omega arith)
      (refl, (refl, (refl, (refl, (refl, tt))))) (omega arith)

abbrev resting : AccountHealth
resting = record served { is_disabled = true; disabled_at = some 50 }
