-- ===== src/RateLimit/Adaptive.antt =====
-- The schedule of the adaptive lockouts, and which answers a lockout changes.
use antigravity_server.Prelude.Map.{
  insert, lookup, lookup-insert, lookup-insert_ne, lookup-insert_self, text_key,
}
use antigravity_server.Prelude.Text.{Text}
use mathlib.Core.Path.{ap₂}
use antigravity_server.Prelude.{
  Bool, List, Option, option_map, zero, suc, sym, [], ap, ap₂, arith, false, from_secs, if_pos,
  if◌then◌else◌, length, ltb, none, refl, some, subst, true, ℕ, ◌+◌, ◌<◌, ◌^◌, ◌||◌, ◌∙◌, ◌∷◌, ◌≡◌,
  ◌≢◌, ◌≤◌,
}
use antigravity_server.RateLimit.{
  RateLimitInfo, RateLimitTracker, account, account_id, get_for_model, is_active,
  is_rate_limited_for_model, model, rate_limit_key, unknown,
}
use antigravity_server.RateLimit.Lockout.{
  lockout_tier, next_failure, set_adaptive_model_lockout, set_adaptive_temporary_lockout,
}

abbrev pub hour : ℕ
hour = from_secs 3600

-- The two outcomes for the failure count of a key: it goes up, or starts again after more than an
-- hour, counted in whole seconds.
pub next_failure_lem :
    (now n since : ℕ)
    → n + 1 < 2 ^ 32
    → (now < since + hour + from_secs 1 → next_failure now (some (n, since)) ≡ n + 1)
      × (since + hour + from_secs 1 ≤ now → next_failure now (some (n, since)) ≡ 1)
      × (next_failure now none ≡ 1)
unfolding next_failure
next_failure_lem now n since h = (ground arith, ground arith, refl)

-- Failures of a key, none more than an hour behind the one before.
abbrev pub Close : ℕ → List ℕ → Type 0
Close since [] = Unit
Close since (t ∷ ts) = (t < since + hour + from_secs 1) × Close t ts

-- The lockouts that a run of failures of one model brings: for each the seconds that are reported,
-- and the end of the limit that the tracker then has for the model.
unfoldable pub lockouts : RateLimitTracker → Text → Text → List ℕ → List (ℕ × Option ℕ)
lockouts t id m [] = []
lockouts t id m (now ∷ ts) =
    let (t', secs) = set_adaptive_model_lockout t id m now in
    (secs, option_map (λ i. i.reset_time) (lookup (model id m) t'.limits)) ∷ lockouts t' id m ts

-- A lockout of a model for some seconds from a failure on.
abbrev pub lock_for : ℕ → ℕ → ℕ × Option ℕ
lock_for secs now = (secs, some (now + from_secs secs))

-- The first failures lock for the seconds of a list, the ones after these for 60 s each.
abbrev pub schedule : List ℕ → List ℕ → List (ℕ × Option ℕ)
schedule [] [] = []
schedule (s ∷ secs) [] = []
schedule [] (now ∷ ts) = lock_for 60 now ∷ schedule [] ts
schedule (s ∷ secs) (now ∷ ts) = lock_for s now ∷ schedule secs ts

-- The seconds of the list for a failure, which are those of the tiers.
abbrev tiers_left : ℕ → List ℕ
tiers_left zero = 5 ∷ 15 ∷ 30 ∷ []
tiers_left (suc zero) = 15 ∷ 30 ∷ []
tiers_left (suc (suc zero)) = 30 ∷ []
tiers_left (suc (suc (suc n))) = []

count-adaptive :
    (t : RateLimitTracker) (id m : Text) (now : ℕ)
    → lookup (model id m) (set_adaptive_model_lockout t id m now).0.failure_counts
      ≡ some (next_failure now (lookup (model id m) t.failure_counts), now)
unfolding set_adaptive_model_lockout
count-adaptive t id m now =
    lookup-insert (model id m) (model id m) _ t.failure_counts
    ∙ if_pos (rate_limit_key.dec (model id m) (model id m)) refl _ _

secs-adaptive :
    (t : RateLimitTracker) (id m : Text) (now : ℕ)
    → (set_adaptive_model_lockout t id m now).1
      ≡ lockout_tier (next_failure now (lookup (model id m) t.failure_counts))
unfolding set_adaptive_model_lockout
secs-adaptive t id m now = refl

reset-adaptive :
    (t : RateLimitTracker) (id m : Text) (now : ℕ)
    → let (t', secs) = set_adaptive_model_lockout t id m now in
      option_map (λ i. i.reset_time) (lookup (model id m) t'.limits) ≡ some (now + from_secs secs)
unfolding set_adaptive_model_lockout
reset-adaptive t id m now =
    ap (option_map (λ (i : RateLimitInfo). i.reset_time))
      (lookup-insert_self (model id m) _ t.limits)

locked-adaptive :
    (t : RateLimitTracker) (id m : Text) (now secs : ℕ)
    → (set_adaptive_model_lockout t id m now).1 ≡ secs
    → let (t', reported) = set_adaptive_model_lockout t id m now in
      (reported, option_map (λ i. i.reset_time) (lookup (model id m) t'.limits)) ≡ lock_for secs now
locked-adaptive t id m now secs e =
    ap₂ (λ r o. (r, o)) e (reset-adaptive t id m now ∙ ap (λ r. some (now + from_secs r)) e)

sixty : (n : ℕ) → 60 ≡ lockout_tier (suc (suc (suc (suc n))))
unfolding lockout_tier
sixty n = ground arith

next : (n : ℕ) → suc (suc (suc (suc n))) ≡ suc (suc (suc n)) + 1
next n = omega arith

schedule-tiers_left :
    (n now : ℕ) (ts : List ℕ)
    → schedule (tiers_left n) (now ∷ ts)
      ≡ lock_for (lockout_tier (n + 1)) now ∷ schedule (tiers_left (n + 1)) ts
unfolding lockout_tier
schedule-tiers_left zero now ts = refl
schedule-tiers_left (suc zero) now ts = refl
schedule-tiers_left (suc (suc zero)) now ts = refl
schedule-tiers_left (suc (suc (suc n))) now ts =
    subst
      (λ k.
        lock_for 60 now ∷ schedule [] ts
        ≡ lock_for (lockout_tier k) now ∷ schedule (tiers_left k) ts)
      (next n) (ap (λ s. lock_for s now ∷ schedule [] ts) (sixty n))

schedule_nil : (secs : List ℕ) → [] ≡ schedule secs []
schedule_nil [] = refl
schedule_nil (s ∷ secs) = refl

lockouts-tiers_left :
    (t : RateLimitTracker) (id m : Text) (n since : ℕ) (ts : List ℕ)
    → lookup (model id m) t.failure_counts ≡ some (n, since)
    → n + length ts < 2 ^ 32
    → Close since ts
    → lockouts t id m ts ≡ schedule (tiers_left n) ts
unfolding lockouts
lockouts-tiers_left t id m n since [] e h c = schedule_nil (tiers_left n)
lockouts-tiers_left t id m n since (now ∷ ts) e h c =
    let next : next_failure now (lookup (model id m) t.failure_counts) ≡ n + 1 =
      ap (next_failure now) e ∙ (next_failure_lem now n since (omega arith)).0 c.0 in
    let counted = count-adaptive t id m now ∙ ap (λ k. some (k, now)) next in
    ap₂ ◌∷◌
      (locked-adaptive t id m now (lockout_tier (n + 1))
        (secs-adaptive t id m now ∙ ap lockout_tier next))
      (lockouts-tiers_left (set_adaptive_model_lockout t id m now).0 id m (n + 1) now ts counted
        (omega arith) c.1)
    ∙ sym (schedule-tiers_left n now ts)

schedule_starts : lockout_tier 1 ≡ 5
unfolding lockout_tier
schedule_starts = refl

-- For an account and model without a recorded failure, failures that follow one another within an
-- hour report 5 s, 15 s, 30 s and then 60 s each, and leave the model a limit that ends so long
-- after the failure.
pub lockouts-schedule :
    (t : RateLimitTracker) (id m : Text) (now : ℕ) (ts : List ℕ)
    → lookup (model id m) t.failure_counts ≡ none
    → length ts + 1 < 2 ^ 32
    → Close now ts
    → lockouts t id m (now ∷ ts) ≡ schedule (5 ∷ 15 ∷ 30 ∷ []) (now ∷ ts)
unfolding lockouts
lockouts-schedule t id m now ts e h c =
    let next : next_failure now (lookup (model id m) t.failure_counts) ≡ 1 =
      ap (next_failure now) e ∙ (next_failure_lem now 0 now (omega arith)).2 in
    let counted = count-adaptive t id m now ∙ ap (λ k. some (k, now)) next in
    ap₂ ◌∷◌
      (locked-adaptive t id m now 5
        (secs-adaptive t id m now ∙ ap lockout_tier next ∙ schedule_starts))
      (lockouts-tiers_left (set_adaptive_model_lockout t id m now).0 id m 1 now ts counted
        (omega arith) c)

limited_by : ℕ → Option RateLimitInfo → Option RateLimitInfo → Bool
limited_by later a b = if is_active later a then true else if is_active later b then true else false

limited_by-some :
    (later : ℕ) (info : RateLimitInfo) (b : Option RateLimitInfo)
    → limited_by later (some info) b ≡ (ltb later info.reset_time || is_active later b)
unfolding limited_by
limited_by-some later info none = ground arith
limited_by-some later info (some i) = ground arith

-- A lockout of an account limits it for every model, from the failure on for as many seconds as it
-- reports, beside the limits of the model itself; the answers about other accounts stay.
pub temporary_lockout_scope :
    (t : RateLimitTracker) (id j m : Text) (now later : ℕ)
    → let (t', secs) = set_adaptive_temporary_lockout t id now in
      (id ≡ j
        → is_rate_limited_for_model t' j m later
          ≡ (ltb later (now + from_secs secs) || is_active later (get_for_model t j m)))
      × (id ≢ j → is_rate_limited_for_model t' j m later ≡ is_rate_limited_for_model t j m later)
unfolding set_adaptive_temporary_lockout is_rate_limited_for_model limited_by
temporary_lockout_scope t id j m now later =
    let info = λ (secs : ℕ).
      let i : RateLimitInfo = record {
        reset_time = now + from_secs secs;
        retry_after_sec = secs;
        detected_at = now;
        reason = unknown;
        for_model = none;
      } in
      i in
    let secs = (set_adaptive_temporary_lockout t id now).1 in
    let apart = lookup-insert_ne (account id) (model j m) (info secs) t.limits (λ e. cc) in
    (
      λ p.
          ap₂ (limited_by later)
            (subst
              (λ k.
                lookup (account k) (insert (account id) (info secs) t.limits) ≡ some (info secs))
              p (lookup-insert_self (account id) (info secs) t.limits))
            apart
          ∙ limited_by-some later (info secs) (get_for_model t j m),
      λ n.
          ap₂ (limited_by later)
            (lookup-insert_ne (account id) (account j) (info secs) t.limits
              (λ e. n (ap account_id e)))
            apart,
    )
