-- ===== src/Health/Threshold.antt =====
-- When an account is disabled and when it is available again.
use antigravity_server.Health.{
  AccountHealth, ErrorType, HealthConfig, HealthMonitor, available, check_and_recover,
  counted_error, error_in, is_available, record_counted, record_error, recover_account,
}
use antigravity_server.Health.Monitoring.{Call, IsHealth, errs, run, step}
use antigravity_server.Prelude.Map.{lookup, lookup-insert_self, lookup-map_values, text_key}
use antigravity_server.Prelude.Text.{Text}
use antigravity_server.Prelude.{
  Bool, is_some, List, Option, Option-cases, [], arith, false, from_secs, inl, inr, leb, length,
  none, refl, some, subst, suc, sym, true, ℕ, ◌+◌, ◌-◌, ◌<◌, ◌^◌, ◌||◌, ◌↔◌, ◌∙◌, ◌∷◌, ◌≡◌, ◌≤◌,
  ◌⊎◌,
}

-- Errors of one account, with the status codes, messages and times given.
abbrev pub errors : Text → List (ℕ × Text × ℕ) → List Call
errors id [] = []
errors id ((code, message, now) ∷ rs) = errs id code message now ∷ errors id rs

-- The status codes of the errors are ones that count, of whatever types.
abbrev pub AllCounted : HealthConfig → List (ℕ × Text × ℕ) → Type 0
AllCounted config [] = Unit
AllCounted config ((code, message, now) ∷ rs) =
    (is_some (counted_error config code) ≡ true) × AllCounted config rs

-- What is known of an account after n errors in a row.
abbrev pub Erring : ℕ → ℕ → Option AccountHealth → Type 0
Erring threshold n none = ⊥
Erring threshold n (some h) =
    (h.consecutive_errors ≡ n)
    × ((n < threshold) × (h.is_disabled ≡ false) ⊎ (threshold ≤ n) × (h.is_disabled ≡ true))

error_in-count :
    (config : HealthConfig) (t : ErrorType) (message : Text) (now n : ℕ) (h : AccountHealth)
    → n + 1 < 2 ^ 32
    → h.consecutive_errors ≡ n
    → (error_in config t message now h).0.consecutive_errors ≡ n + 1
unfolding error_in
error_in-count config t message now n h small e = ground arith

error_in-disables :
    (config : HealthConfig) (t : ErrorType) (message : Text) (now n : ℕ) (h : AccountHealth)
    → n + 1 < 2 ^ 32
    → h.consecutive_errors ≡ n
    → (error_in config t message now h).0.is_disabled
      ≡ (leb config.error_threshold (n + 1) || h.is_disabled)
unfolding error_in
error_in-disables config t message now n h small e = ground arith

disables_at :
    (threshold n : ℕ) (off : Bool)
    → ((n < threshold) × (off ≡ false)) ⊎ ((threshold ≤ n) × (off ≡ true))
    → ((n + 1 < threshold) × ((leb threshold (n + 1) || off) ≡ false))
      ⊎ ((threshold ≤ n + 1) × ((leb threshold (n + 1) || off) ≡ true))
disables_at threshold n off (inl (lt, e)) = ground arith
disables_at threshold n off (inr (le, e)) = inr (omega arith, ground arith)

error_in-Erring :
    (config : HealthConfig) (t : ErrorType) (message : Text) (now n : ℕ) (h : AccountHealth)
    → n + 1 < 2 ^ 32
    → Erring config.error_threshold n (some h)
    → Erring config.error_threshold (n + 1) (some (error_in config t message now h).0)
error_in-Erring config t message now n h small e = (
  error_in-count config t message now n h small e.0,
  rw (error_in-disables config t message now n h small e.0)
      (disables_at config.error_threshold n h.is_disabled e.1),
)

Erring-step :
    (m : HealthMonitor) (id : Text) (t : ErrorType) (code n : ℕ) (message : Text) (now : ℕ)
    → counted_error m.config code ≡ some t
    → n + 1 < 2 ^ 32
    → Erring m.config.error_threshold n (lookup id m.accounts)
    → let m' = step m (errs id code message now) in
      (m'.config ≡ m.config) × Erring m.config.error_threshold (n + 1) (lookup id m'.accounts)
unfolding step record_error record_counted
Erring-step m id t code n message now counted small e = elim (Option-cases (lookup id m.accounts)) [
  | inl a ↦ elim (subst (Erring m.config.error_threshold n) a e) [ ]
  | inr (h, a) ↦
      rw (step, counted, a)
        (
          refl,
          subst (Erring m.config.error_threshold (n + 1))
              (sym (lookup-insert_self id (error_in m.config t message now h).0 m.accounts))
              (error_in-Erring m.config t message now n h small
                (subst (Erring m.config.error_threshold n) a e)),
        )
]

counted_type : (o : Option ErrorType) → is_some o ≡ true → (t : ErrorType) × (o ≡ some t)
counted_type none h = cc
counted_type (some t) h = (t, refl)

Erring-run :
    (m : HealthMonitor) (config : HealthConfig) (id : Text) (n : ℕ) (rs : List (ℕ × Text × ℕ))
    → m.config ≡ config
    → AllCounted config rs
    → n + length rs < 2 ^ 32
    → Erring config.error_threshold n (lookup id m.accounts)
    → Erring config.error_threshold (n + length rs) (lookup id (run m (errors id rs)).accounts)
unfolding run
Erring-run m config id n [] same counted small e = let z : n + 0 ≡ n = omega arith in rw z e
Erring-run m config id n ((code, message, now) ∷ rs) same counted small e =
    let (t, c) = counted_type (counted_error config code) counted.0 in
    let z : n + suc (length rs) ≡ n + 1 + length rs = omega arith in
    let k = Erring-step m id t code n message now (rw same c) (omega arith) (rw same e) in
    rw z (
      Erring-run (step m (errs id code message now)) config id (n + 1) rs (k.0 ∙ same) counted.1
        (omega arith)
        (subst
          (λ c.
            Erring c.error_threshold (n + 1)
              (lookup id (step m (errs id code message now)).accounts))
          same k.1))

Erring-available :
    (threshold n : ℕ) (m : HealthMonitor) (id : Text)
    → Erring threshold n (lookup id m.accounts)
    → (is_available m id ≡ false) ↔ (threshold ≤ n)
unfolding is_available available
Erring-available threshold n m id e = elim (Option-cases (lookup id m.accounts)) [
  | inl a ↦ elim (subst (Erring threshold n) a e) [ ]
  | inr (h, a) ↦ let k = subst (Erring threshold n) a e in rw a (ground arith)
]

-- A known account that is enabled and has no error since its latest success becomes unavailable
-- by counted errors in a row, of the same or of different types, exactly when there are at least
-- `error_threshold` of them.
pub errors-is_available :
    (m : HealthMonitor) (id : Text) (h : AccountHealth) (rs : List (ℕ × Text × ℕ))
    → lookup id m.accounts ≡ some h
    → h.is_disabled ≡ false
    → h.consecutive_errors ≡ 0
    → 0 < m.config.error_threshold
    → AllCounted m.config rs
    → length rs < 2 ^ 32
    → (is_available (run m (errors id rs)) id ≡ false) ↔ (m.config.error_threshold ≤ length rs)
errors-is_available m id h rs known enabled none_yet positive counted small =
    let z : 0 + length rs ≡ length rs = omega arith in
    Erring-available m.config.error_threshold (length rs) (run m (errors id rs)) id (
      subst (λ n. Erring m.config.error_threshold n (lookup id (run m (errors id rs)).accounts)) z
        (Erring-run m m.config id 0 rs refl counted (omega arith) (
          subst (Erring m.config.error_threshold 0) (sym known)
            (none_yet, inl (positive, enabled)))))

recover_account_lem :
    (config : HealthConfig) (now t : ℕ) (h : AccountHealth)
    → h.is_disabled ≡ true
    → h.disabled_at ≡ some t
    → ((recover_account config now h).is_disabled ≡ false)
      ↔ (from_secs config.cooldown_seconds ≤ now - t)
unfolding recover_account
recover_account_lem config now t h off at = ground arith

-- A check for recovery makes an account that was disabled at t available again exactly where the
-- cooldown has passed since; a check changes no account that is available.
pub check_and_recover-is_available :
    (m : HealthMonitor) (id : Text) (h : AccountHealth) (now : ℕ)
    → lookup id m.accounts ≡ some h
    → IsHealth h
    → ((t : ℕ)
        → h.disabled_at ≡ some t
        → (is_available (check_and_recover m now) id ≡ true)
          ↔ (from_secs m.config.cooldown_seconds ≤ now - t))
      × (h.is_disabled ≡ false → lookup id (check_and_recover m now).accounts ≡ some h)
unfolding is_available check_and_recover recover_account available
check_and_recover-is_available m id h now known v =
    rw (lookup-map_values (recover_account m.config now) id m.accounts, known)
      ((λ t at. ground arith), (λ on. ground arith))
