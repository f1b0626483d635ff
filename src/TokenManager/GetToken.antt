-- ===== src/TokenManager/GetToken.antt =====
-- `get_token_internal` of crates/antigravity-core/src/proxy/token_manager/selection.rs, and
-- `try_preferred_account` of selection_helpers.rs beside it.
use antigravity_server.TokenManager.{ProxyToken, TokenManager, needs_refresh}
use antigravity_server.TokenManager.Refresh.{
  Answers, TokenError, pool_empty, try_refresh_token, ensure_project_id, default_project,
}
use antigravity_server.TokenManager.Selection.{PartialCmp, is_model_protected}
use antigravity_server.RateLimit.{is_rate_limited_for_model}
use antigravity_server.ActiveRequests.{ActiveRequestGuard}
use antigravity_server.Prelude.Result.{Result, ok, err}
use antigravity_server.Prelude.Map.{text_key}
use antigravity_server.Prelude.Text.{Text, Text-discrete}
use antigravity_server.Prelude.{
  ℕ, zero, suc, ◌&&◌, ◌||◌, Option, none, some, unwrap_or, List, [], ◌∷◌, ite, option_map, length,
  if◌then◌else◌,
}
use antigravity_server.TokenManager.Attempts.{
  Moment, Query, Grant, Selected, Prepared, take_slot, attempts, snapshot,
}

unfoldable pub project_or_default : Option Text → Text
project_or_default none = default_project
project_or_default (some []) = default_project
project_or_default (some (c ∷ pid)) = c ∷ pid

module _ {Float : Type 0} where
  unfoldable pub find_id : Text → List (ProxyToken Float) → Option (ProxyToken Float)
  unfolding Text-discrete
  find_id id [] = none
  find_id id (t ∷ ts) = ite (Text-discrete t.account_id id) (some t) (find_id id ts)

  unfoldable pub preferred_slot : Prepared Float → Selected Float
  unfolding take_slot
  preferred_slot (tm, t, some e) = (tm, none)
  preferred_slot (tm, t, none) =
      let (tm', taken) = take_slot tm t in (tm', option_map (λ g. (t, g)) taken)

  unfoldable pub ensured : Answers → Prepared Float → Selected Float
  unfolding preferred_slot
  ensured w (tm, t, some e) = (tm, none)
  ensured w (tm, t, none) =
      let (tm', t', pid) = ensure_project_id w tm t in
      preferred_slot (tm', t', elim pid [ ok p ↦ none | err e ↦ some e ])

  unfoldable pub granted : ProxyToken Float × ActiveRequestGuard → Grant
  unfolding project_or_default
  granted (t, g) = record {
    access_token = t.access_token;
    project_id = project_or_default t.project_id;
    email = t.email;
    guard = g;
  }

module _ {Float : Type 0} (partial_cmp : PartialCmp Float) where
  unfoldable pub use_preferred :
      Query → Moment Float → TokenManager Float → ProxyToken Float → Selected Float
  unfolding ensured
  use_preferred q m tm t =
      if is_rate_limited_for_model tm.rate_limit_tracker t.email q.normalized_target m.clock
        || (q.quota_protection_enabled
            && is_model_protected partial_cmp tm t.account_id q.normalized_target)
      then (tm, none)
      else ensured m.answers (
          if needs_refresh t m.answers.now then try_refresh_token m.answers tm t else (tm, t, none))

  -- The account that is set as preferred, if it can serve at once. The excluded accounts are not
  -- asked for.
  unfoldable pub try_preferred_account :
      Query → Moment Float → List (ProxyToken Float) → Text → TokenManager Float → Selected Float
  unfolding use_preferred find_id
  try_preferred_account q m ts pref_id tm = elim (find_id pref_id ts) [
    | none ↦ (tm, none)
    | some t ↦ use_preferred q m tm t
  ]

  unfoldable pub unless_preferred :
      Query
      → (ℕ → Moment Float)
      → List (ProxyToken Float)
      → ℕ
      → Selected Float
      → TokenManager Float × Result Grant TokenError
  unfolding granted attempts
  unless_preferred q moments ts total (tm, some x) = (tm, ok (granted x))
  unless_preferred q moments ts total (tm, none) =
      attempts partial_cmp q moments ts total 0 q.force_rotate (unwrap_or q.exclude_accounts [])
        none tm

  unfoldable pub preferred :
      Query
      → Moment Float
      → List (ProxyToken Float)
      → TokenManager Float
      → Option Text
      → Selected Float
  unfolding try_preferred_account
  preferred q m ts tm none = (tm, none)
  preferred q m ts tm (some pref_id) = try_preferred_account q m ts pref_id tm

  unfoldable pub get_token_nonempty :
      Query
      → (ℕ → Moment Float)
      → TokenManager Float
      → ℕ
      → TokenManager Float × Result Grant TokenError
  unfolding snapshot unless_preferred preferred
  get_token_nonempty q moments tm zero = (tm, err pool_empty)
  get_token_nonempty q moments tm (suc n) =
      let ts = snapshot partial_cmp tm q in
      unless_preferred q moments ts (suc n) (preferred q (moments 0) ts tm tm.preferred_account_id)

  unfoldable pub get_token_internal :
      Query → (ℕ → Moment Float) → TokenManager Float → TokenManager Float × Result Grant TokenError
  unfolding get_token_nonempty
  get_token_internal q moments tm = get_token_nonempty q moments tm (length tm.tokens)
