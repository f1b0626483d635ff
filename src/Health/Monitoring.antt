-- ===== src/Health/Monitoring.antt =====
-- What holds of every account's health between two calls.
use antigravity_server.Health.{
  AccountHealth, ErrorType, HealthConfig, HealthMonitor, HealthStatus, available, check_and_recover,
  clear, counted_error, disabled, enabled_again, enabled_at, error_in, force_enable, fresh_health,
  get_health, is_available, new, record_counted, record_error, record_success, recover_account,
  recovering, register_account, status_of, success_at, success_in, unregister_account,
  update_config,
}
use antigravity_server.Prelude.Map.{
  AllValues, AllValues-lookup, Map, insert-AllValues, lookup, map_values, remove-AllValues,
  text_key,
}
use antigravity_server.Prelude.Text.{Text}
use antigravity_server.Prelude.{
  Bool-cases, List, Option, Option-cases, [], arith, false, inl, inr, is_some, none, not, refl,
  some, true, ℕ, ◌↔◌, ◌∷◌, ◌≡◌,
}

-- The calls that change a monitor.
pub data Call : Type 0 where
  registers : Text → Text → Call
  unregisters : Text → Call
  succeeds : Text → Call
  errs : Text → ℕ → Text → ℕ → Call
  enables : Text → Call
  recovers : ℕ → Call
  configures : HealthConfig → Call
  clears : Call

unfoldable pub step : HealthMonitor → Call → HealthMonitor
step m (registers account_id email) = register_account m account_id email
step m (unregisters account_id) = unregister_account m account_id
step m (succeeds account_id) = record_success m account_id
step m (errs account_id status_code message now) =
    (record_error m account_id status_code message now).0
step m (enables account_id) = (force_enable m account_id).0
step m (recovers now) = check_and_recover m now
step m (configures config) = update_config m config
step m clears = clear m

unfoldable pub run : HealthMonitor → List Call → HealthMonitor
unfolding step
run m [] = m
run m (c ∷ cs) = run (step m c) cs

-- An account is disabled exactly where it has a time at which it was.
abbrev pub IsHealth : AccountHealth → Type 0
IsHealth h = h.is_disabled ≡ is_some h.disabled_at

abbrev pub IsMonitor : HealthMonitor → Type 0
IsMonitor m = AllValues IsHealth m.accounts

recover_account-IsHealth :
    (config : HealthConfig) (now : ℕ) (h : AccountHealth)
    → IsHealth h
    → IsHealth (recover_account config now h)
unfolding recover_account
recover_account-IsHealth config now h v = ground arith

success_in-IsHealth : (h : AccountHealth) → IsHealth h → IsHealth (success_in h)
unfolding success_in
success_in-IsHealth h v = v

error_in-IsHealth :
    (config : HealthConfig) (t : ErrorType) (message : Text) (now : ℕ) (h : AccountHealth)
    → IsHealth h
    → IsHealth (error_in config t message now h).0
unfolding error_in
error_in-IsHealth config t message now h v = ground arith

map_values-IsHealth :
    (config : HealthConfig) (now : ℕ) (m : Map Text AccountHealth)
    → AllValues IsHealth m
    → AllValues IsHealth (map_values (recover_account config now) m)
unfolding map_values
map_values-IsHealth config now [] v = tt
map_values-IsHealth config now ((k, h) ∷ m) v =
    (recover_account-IsHealth config now h v.0, map_values-IsHealth config now m v.1)

success_at-IsMonitor :
    (m : HealthMonitor) (id : Text) (o : Option AccountHealth)
    → lookup id m.accounts ≡ o
    → IsMonitor m
    → IsMonitor (success_at m id o)
unfolding success_at
success_at-IsMonitor m id none e v = v
success_at-IsMonitor m id (some h) e v =
    insert-AllValues IsHealth id (success_in h) m.accounts
      (success_in-IsHealth h (AllValues-lookup IsHealth id h m.accounts v e)) v

record_counted-IsMonitor :
    (m : HealthMonitor) (id : Text) (t : Option ErrorType) (message : Text) (now : ℕ)
    (o : Option AccountHealth)
    → lookup id m.accounts ≡ o
    → IsMonitor m
    → IsMonitor (record_counted m id t message now o).0
unfolding record_counted
record_counted-IsMonitor m id none message now o e v = v
record_counted-IsMonitor m id (some t) message now none e v = v
record_counted-IsMonitor m id (some t) message now (some h) e v =
    insert-AllValues IsHealth id (error_in m.config t message now h).0 m.accounts
      (error_in-IsHealth m.config t message now h (AllValues-lookup IsHealth id h m.accounts v e)) v

enabled_at-IsMonitor :
    (m : HealthMonitor) (id : Text) (o : Option AccountHealth)
    → IsMonitor m
    → IsMonitor (enabled_at m id o).0
unfolding enabled_at
enabled_at-IsMonitor m id none v = v
enabled_at-IsMonitor m id (some h) v = elim (Bool-cases h.is_disabled) [
  | inl e ↦ rw e (insert-AllValues IsHealth id (enabled_again h) m.accounts refl v)
  | inr e ↦ rw e v
]

pub step-IsMonitor : (m : HealthMonitor) (c : Call) → IsMonitor m → IsMonitor (step m c)
unfolding step register_account unregister_account record_success record_error force_enable
    check_and_recover update_config clear fresh_health
step-IsMonitor m (registers id email) v = elim (Bool-cases (is_some (lookup id m.accounts))) [
  | inl e ↦ rw e v
  | inr e ↦ rw e (insert-AllValues IsHealth id (fresh_health id email) m.accounts refl v)
]
step-IsMonitor m (unregisters id) v = remove-AllValues IsHealth id m.accounts v
step-IsMonitor m (succeeds id) v = success_at-IsMonitor m id (lookup id m.accounts) refl v
step-IsMonitor m (errs id status_code message now) v =
    record_counted-IsMonitor m id (counted_error m.config status_code) message now
      (lookup id m.accounts) refl v
step-IsMonitor m (enables id) v = enabled_at-IsMonitor m id (lookup id m.accounts) v
step-IsMonitor m (recovers now) v = map_values-IsHealth m.config now m.accounts v
step-IsMonitor m (configures config) v = v
step-IsMonitor m clears v = tt

run-IsMonitor : (m : HealthMonitor) (cs : List Call) → IsMonitor m → IsMonitor (run m cs)
unfolding run
run-IsMonitor m [] v = v
run-IsMonitor m (c ∷ cs) v = run-IsMonitor (step m c) cs (step-IsMonitor m c v)

pub run-new : (config : HealthConfig) (cs : List Call) → IsMonitor (run (new config) cs)
unfolding new
run-new config cs = run-IsMonitor (new config) cs tt

status_of-IsHealth :
    (h : AccountHealth)
    → IsHealth h
    → ¬ (status_of h ≡ disabled) × ((status_of h ≡ recovering) ↔ (h.is_disabled ≡ true))
unfolding status_of
status_of-IsHealth h v = ground arith

get_health_lem :
    (m : HealthMonitor) (id : Text) (now : ℕ) (status : HealthStatus) (remaining : Option ℕ)
    (h : AccountHealth)
    → get_health m id now ≡ some (status, remaining, h)
    → (lookup id m.accounts ≡ some h)
      × (status ≡ status_of h)
      × (is_available m id ≡ not h.is_disabled)
unfolding get_health is_available available
get_health_lem m id now status remaining h e = elim (Option-cases (lookup id m.accounts)) [
  | inl a ↦ ground arith
  | inr (g, a) ↦ ground arith
]

-- After any history of calls on a new monitor, the status of an account is never `disabled`, and
-- it is `recovering` exactly where the account is not available.
pub get_health-status :
    (config : HealthConfig) (cs : List Call) (id : Text) (now : ℕ) (status : HealthStatus)
    (remaining : Option ℕ) (h : AccountHealth)
    → get_health (run (new config) cs) id now ≡ some (status, remaining, h)
    → (¬ (status ≡ disabled))
      × ((status ≡ recovering) ↔ (is_available (run (new config) cs) id ≡ false))
get_health-status config cs id now status remaining h e =
    let m = run (new config) cs in
    let k = get_health_lem m id now status remaining h e in
    let v =
      status_of-IsHealth h (AllValues-lookup IsHealth id h m.accounts (run-new config cs) k.0) in
    let found = k.1 in let available = k.2 in ground arith
