-- ===== src/TokenManager/Selection.antt =====
-- The choice of an account for a request: candidate_filter.rs, selection_helpers.rs and routing.rs
-- of crates/antigravity-core/src/proxy/token_manager. `now` is the clock of the rate limits.
use antigravity_server.Prelude.Map.{lookup, text_key}
use antigravity_server.Prelude.Text.{Text, Text-discrete}
use antigravity_server.TokenManager.{ProxyToken, TokenManager, is_ultra_tier, tier_priority}
use antigravity_server.TokenManager.Sessions.{clear_session_binding, get_session_account}
use antigravity_server.RateLimit.{account_id, is_rate_limited_for_model, rate_limit_key}
use antigravity_server.ActiveRequests.{ActiveRequestGuard, Counters, load, try_new}
use antigravity_server.Prelude.Sort.{sort_by, then_with}
use antigravity_server.Prelude.Int.{negsuc, pos, ℤ}
use antigravity_server.Prelude.{
  Bool, List, Option, Ordering, [], compare, false, filter, if◌then◌else◌, ite, map, none,
  option_map, some, true, unwrap_or, ℕ, ◌&&◌, ◌∷◌,
}

-- `i32::cmp`.
unfoldable pub compare_ℤ : ℤ → ℤ → Ordering
compare_ℤ (pos a) (pos b) = compare a b
compare_ℤ (pos a) (negsuc b) = Ordering.gt
compare_ℤ (negsuc a) (pos b) = Ordering.lt
compare_ℤ (negsuc a) (negsuc b) = compare b a

unfoldable pub contains_text : Text → List Text → Bool
unfolding Text-discrete
contains_text s [] = false
contains_text s (t ∷ ts) = let rest = contains_text s ts in ite (Text-discrete t s) true rest

-- `f32::partial_cmp`.
abbrev pub PartialCmp : Type 0 → Type 0
PartialCmp Float = Float → Float → Option Ordering

-- What a selection is asked for. `aimd` is the test of the usage ratio, if AIMD is on.
pub record Request : Type 0 where
  pub attempted : List Text
  pub normalized_target : Text
  pub quota_protection_enabled : Bool
  pub aimd : Option (Text → Bool)
  pub now : ℕ

module _ {Float : Type 0} (partial_cmp : PartialCmp Float) where
  unfoldable pub quota_of : ProxyToken Float → ℤ
  quota_of t = unwrap_or t.remaining_quota (pos 0)

  -- The better tier first, then the larger quota, then the higher score.
  unfoldable pub compare_tokens_by_priority : ProxyToken Float → ProxyToken Float → Ordering
  unfolding tier_priority quota_of compare_ℤ
  compare_tokens_by_priority a b = then_with (compare (tier_priority a) (tier_priority b)) (
      then_with (compare_ℤ (quota_of b) (quota_of a))
        (unwrap_or (partial_cmp b.health_score a.health_score) Ordering.eq))

  is_protected : Option (ProxyToken Float) → Text → Bool
  unfolding contains_text
  is_protected none m = false
  is_protected (some t) m = contains_text m t.protected_models

  unfoldable pub is_model_protected : TokenManager Float → Text → Text → Bool
  unfolding is_protected
  is_model_protected tm account_id m = is_protected (lookup account_id tm.tokens) m

  overused : Option (Text → Bool) → Text → Bool
  overused none email = false
  overused (some over) email = over email

  unfoldable pub is_candidate_eligible :
      TokenManager Float → Request → Bool → Bool → ProxyToken Float → Bool
  unfolding contains_text is_model_protected overused
  is_candidate_eligible tm r check_quota check_aimd candidate =
      if contains_text candidate.email r.attempted
      then false
      else if is_rate_limited_for_model tm.rate_limit_tracker candidate.email r.normalized_target
          r.now
      then false
      else if check_quota
          && r.quota_protection_enabled
          && is_model_protected tm candidate.account_id r.normalized_target
      then false
      else if check_aimd && overused r.aimd candidate.email
      then false
      else true

  -- The first candidate with a free slot, which is taken.
  unfoldable pub first_free :
      Counters
      → ℕ
      → List (ProxyToken Float × ℕ)
      → Counters × Option (ProxyToken Float × ActiveRequestGuard)
  first_free cs max_concurrent [] = (cs, none)
  first_free cs max_concurrent ((t, l) ∷ ts) =
      let (cs', taken) = try_new cs t.email max_concurrent in
      elim taken [ none ↦ first_free cs' max_concurrent ts | some g ↦ (cs', some (t, g)) ]

  -- By priority, and by the requests in flight where the priorities are equal.
  unfoldable pub compare_with_load : ProxyToken Float × ℕ → ProxyToken Float × ℕ → Ordering
  unfolding compare_tokens_by_priority
  compare_with_load (a, load_a) (b, load_b) =
      then_with (compare_tokens_by_priority a b) (compare load_a load_b)

  unfoldable pub select_from :
      TokenManager Float
      → List (ProxyToken Float)
      → TokenManager Float × Option (ProxyToken Float × ActiveRequestGuard)
  unfolding first_free compare_with_load sort_by
  select_from tm candidates =
      let candidates_with_load = map (λ t. (t, load tm.active_requests t.email)) candidates in
      let (cs, chosen) =
        first_free tm.active_requests tm.routing_config.max_concurrent_per_account
          (sort_by compare_with_load candidates_with_load) in
      (record tm { active_requests = cs }, chosen)

  unfoldable pub try_scored_selection :
      TokenManager Float
      → Request
      → List (ProxyToken Float)
      → TokenManager Float × Option (ProxyToken Float × ActiveRequestGuard)
  unfolding select_from filter is_candidate_eligible
  try_scored_selection tm r tokens_snapshot =
      select_from tm (filter (is_candidate_eligible tm r true true) tokens_snapshot)

  unfoldable pub try_ultra_tier_selection :
      TokenManager Float
      → Request
      → List (ProxyToken Float)
      → TokenManager Float × Option (ProxyToken Float × ActiveRequestGuard)
  unfolding select_from filter is_candidate_eligible is_ultra_tier
  try_ultra_tier_selection tm r tokens_snapshot =
      select_from tm
        (filter (λ t. is_ultra_tier t && is_candidate_eligible tm r true true t) tokens_snapshot)

  unfoldable pub find_email : Text → List (ProxyToken Float) → Option (ProxyToken Float)
  unfolding Text-discrete
  find_email e [] = none
  find_email e (t ∷ ts) = ite (Text-discrete t.email e) (some t) (find_email e ts)

  unfoldable pub reuse :
      TokenManager Float
      → Request
      → Text
      → Option (ProxyToken Float)
      → TokenManager Float × Option (ProxyToken Float × ActiveRequestGuard)
  unfolding is_candidate_eligible clear_session_binding
  reuse tm r session_id none = (tm, none)
  reuse tm r session_id (some found) =
      if is_candidate_eligible tm r true true found
      then (let (cs, taken) =
            try_new tm.active_requests found.email tm.routing_config.max_concurrent_per_account in
          (record tm { active_requests = cs }, option_map (λ g. (found, g)) taken))
      else (clear_session_binding tm session_id, none)

  unfoldable pub try_sticky_session :
      TokenManager Float
      → Request
      → Text
      → List (ProxyToken Float)
      → TokenManager Float × Option (ProxyToken Float × ActiveRequestGuard)
  unfolding reuse get_session_account find_email
  try_sticky_session tm r session_id tokens_snapshot = elim (get_session_account tm session_id) [
    | none ↦ (tm, none)
    | some bound_id ↦ reuse tm r session_id (find_email bound_id tokens_snapshot)
  ]
