-- ===== src/TokenManager/Forced.antt =====
-- `get_token_forced` of crates/antigravity-core/src/proxy/token_manager/selection.rs.
use antigravity_server.TokenManager.{ProxyToken, TokenManager}
use antigravity_server.TokenManager.Refresh.{
  Answers, TokenError, forced_not_found, forced_rate_limited, forced_at_capacity, ensure_project_id,
}
use antigravity_server.RateLimit.{is_rate_limited}
use antigravity_server.ActiveRequests.{ActiveRequestGuard}
use antigravity_server.Prelude.Result.{Result, ok, err}
use antigravity_server.Prelude.Map.{text_key}
use antigravity_server.Prelude.Text.{Text, Text-discrete}
use antigravity_server.Prelude.{Option, none, some, List, [], ◌∷◌, ite, if◌then◌else◌}
use antigravity_server.TokenManager.Attempts.{
  Moment, Grant, Prepared, Ensured, values, drop_guard, keep_project, take_slot, refreshed,
}

module _ {Float : Type 0} where
  unfoldable pub forced_project :
      ActiveRequestGuard → Ensured Float → TokenManager Float × Result Grant TokenError
  forced_project g (tm, t, err e) = (drop_guard tm g, err e)
  forced_project g (tm, t, ok pid) = (
    keep_project tm t.account_id pid,
    ok (record { access_token = t.access_token; project_id = pid; email = t.email; guard = g }),
  )

  unfoldable pub forced_token :
      Answers → ActiveRequestGuard → Prepared Float → TokenManager Float × Result Grant TokenError
  unfolding forced_project
  forced_token w g (tm, t, some e) = (drop_guard tm g, err e)
  forced_token w g (tm, t, none) = forced_project g (ensure_project_id w tm t)

-- One account by its address, compared without case by `lowercase`.
module _ {Float : Type 0} (lowercase : Text → Text) where
  unfoldable pub find_forced : Text → List (ProxyToken Float) → Option (ProxyToken Float)
  unfolding Text-discrete
  find_forced email [] = none
  find_forced email (t ∷ ts) =
      ite (Text-discrete (lowercase t.email) (lowercase email)) (some t) (find_forced email ts)

  unfoldable pub forced_slot :
      Text
      → Answers
      → ProxyToken Float
      → TokenManager Float × Option ActiveRequestGuard
      → TokenManager Float × Result Grant TokenError
  unfolding forced_token refreshed
  forced_slot email w t (tm, none) =
      (tm, err (forced_at_capacity email tm.routing_config.max_concurrent_per_account))
  forced_slot email w t (tm, some g) = forced_token w g (refreshed w tm t)

  unfoldable pub get_token_forced :
      Text → Moment Float → TokenManager Float → TokenManager Float × Result Grant TokenError
  unfolding find_forced forced_slot take_slot values
  get_token_forced email m tm = elim (find_forced email (values tm.tokens)) [
    | none ↦ (tm, err (forced_not_found email))
    | some t ↦
        if is_rate_limited tm.rate_limit_tracker t.account_id m.clock
        then (tm, err (forced_rate_limited email))
        else forced_slot email m.answers t (take_slot tm t)
  ]
