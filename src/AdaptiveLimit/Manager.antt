-- ===== src/AdaptiveLimit/Manager.antt =====
-- The trackers of all accounts: crates/antigravity-core/src/proxy/adaptive_limit/manager.rs.
-- An account that is asked for gets a tracker, by `get_or_create`.
use antigravity_server.AdaptiveLimit.{
  AdaptiveLimitTracker, AimdController, FloatOps, ProbeStrategy, force_expand, from_persisted, new,
  probe_strategy, record_429, record_error, record_success, should_allow, to_persisted, usage_ratio,
  default_controller,
}
use antigravity_server.Prelude.Map.{Map, insert, lookup, text_key}
use antigravity_server.Prelude.Text.{Text}
use antigravity_server.Prelude.{ℕ, Bool, List, [], map, unwrap_or}

pub record AdaptiveLimitManager (Float : Type 0) : Type 0 where
  pub trackers : Map Text (AdaptiveLimitTracker Float)
  pub safety_margin : Float
  pub aimd : AimdController Float

module _ {Float : Type 0} (ops : FloatOps Float) where
  abbrev Manager : Type 0
  Manager = AdaptiveLimitManager Float

  unfoldable pub new_manager : Float → AimdController Float → Manager
  new_manager safety_margin aimd = record {
    trackers = [];
    safety_margin = safety_margin;
    aimd = aimd;
  }

  unfoldable pub default_manager : Manager
  unfolding new_manager default_controller
  default_manager = new_manager (ops.hundredths 85) (default_controller ops)

  -- The tracker of an account, a new one if it has none.
  unfoldable pub get_or_create : Manager → Text → ℕ → AdaptiveLimitTracker Float
  get_or_create m account_id now =
      unwrap_or (lookup account_id m.trackers) (new ops m.safety_margin m.aimd now)

  abbrev put : Manager → Text → AdaptiveLimitTracker Float → Manager
  put m account_id t = record m { trackers = insert account_id t m.trackers }

  unfoldable pub load_persisted :
      Manager → Text → (confirmed_limit ceiling age_seconds : ℕ) → ℕ → Manager
  load_persisted m account_id confirmed_limit ceiling age_seconds now =
      put m account_id
        (from_persisted ops confirmed_limit ceiling age_seconds m.safety_margin m.aimd now)

  module _ (m : Manager) (account_id : Text) (now : ℕ) where
    unfoldable pub success_of : Manager
    unfolding get_or_create
    success_of = put m account_id (record_success ops (get_or_create m account_id now) now)

    unfoldable pub limited : Manager
    unfolding get_or_create
    limited = put m account_id (record_429 ops (get_or_create m account_id now) now)

    unfoldable pub error_of : ℕ → Manager
    unfolding get_or_create
    error_of status_code =
        put m account_id (record_error ops (get_or_create m account_id now) status_code now)

    unfoldable pub expand_of : Manager
    unfolding get_or_create
    expand_of = put m account_id (force_expand ops (get_or_create m account_id now) now)

    unfoldable pub ratio_of : Manager × Float
    unfolding get_or_create
    ratio_of =
        let (t, r) = usage_ratio ops (get_or_create m account_id now) now in (put m account_id t, r)

    unfoldable pub probe_of : Manager × ProbeStrategy
    unfolding get_or_create
    probe_of =
        let (t, p) = probe_strategy ops (get_or_create m account_id now) now in
        (put m account_id t, p)

    unfoldable pub allows : Manager × Bool
    unfolding get_or_create
    allows =
        let (t, b) = should_allow ops (get_or_create m account_id now) now in
        (put m account_id t, b)

  unfoldable pub all_for_persistence : Manager → ℕ → List (Text × ℕ × ℕ × ℕ)
  unfolding to_persisted
  all_for_persistence m now =
      map
        (λ b.
          let (confirmed, ceiling, age) = to_persisted ops b.1 now in
          (b.0, confirmed, ceiling, age))
        m.trackers
