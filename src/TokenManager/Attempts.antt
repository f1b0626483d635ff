-- ===== src/TokenManager/Attempts.antt =====
-- The account that a request gets: crates/antigravity-core/src/proxy/token_manager/selection.rs
-- and `try_preferred_account` of selection_helpers.rs. One request runs alone, save in the sleep
-- of the recovery, where `slept` says what the other requests do. A guard that goes out of scope
-- is dropped. The arm for a token without a guard is not modelled: every selection gives the guard
-- with it. A moment has one reading of the clock for the limits, which stands also for the one that
-- a recovery makes after its sleep, and the routing settings are read from the pool at each step,
-- where the source keeps the copy that it takes at the start.
use antigravity_server.TokenManager.{ProxyToken, TokenManager}
use antigravity_server.TokenManager.Refresh.{
  Answers, TokenError, all_accounts_failed, failed_after_buffer, all_limited, all_at_capacity,
  no_guard_after_recovery, try_refresh_token, ensure_project_id,
}
use antigravity_server.TokenManager.Selection.{
  PartialCmp, Request, compare_tokens_by_priority, is_model_protected, try_scored_selection,
  try_sticky_session, try_ultra_tier_selection,
}
use antigravity_server.TokenManager.Recovery.{
  Recovery, found, failed_after_reset, wait, at_capacity, try_recovery_selection,
}
use antigravity_server.TokenManager.Sessions.{
  should_unbind_session, unbind_session_on_failures, bind_session_to_account,
}
use antigravity_server.ActiveRequests.{ActiveRequestGuard, drop, try_new}
use antigravity_server.Prelude.Result.{Result, ok, err}
use antigravity_server.Prelude.Int.{ℤ, pos, sub_i64, ltb_ℤ}
use antigravity_server.Prelude.Map.{Map, modify, insert, text_key}
use antigravity_server.Prelude.Sort.{sort_by}
use antigravity_server.Prelude.Text.{Text}
use antigravity_server.Prelude.{
  ℕ, zero, suc, ◌+◌, Bool, true, false, not, Option, none, some, unwrap_or, List, ◌∷◌, map, filter,
  if◌then◌else◌,
}

-- What is outside one attempt: the clock of the rate limits, the answers to a refresh, and the
-- other requests while a recovery sleeps.
pub record Moment (Float : Type 0) : Type 0 where
  pub clock : ℕ
  pub answers : Answers
  pub slept : TokenManager Float → TokenManager Float

-- The arguments of `get_token_internal`, with the standard id of the target model, the cached
-- setting of quota protection and the test of AIMD.
pub record Query : Type 0 where
  pub force_rotate : Bool
  pub session_id : Option Text
  pub normalized_target : Text
  pub exclude_accounts : Option (List Text)
  pub quota_protection_enabled : Bool
  pub aimd : Option (Text → Bool)

-- What a caller gets: the access token, the project, the address and the slot.
pub record Grant : Type 0 where
  pub access_token : Text
  pub project_id : Text
  pub email : Text
  pub guard : ActiveRequestGuard

abbrev pub Selected : Type 0 → Type 0
Selected Float = TokenManager Float × Option (ProxyToken Float × ActiveRequestGuard)

abbrev pub Prepared : Type 0 → Type 0
Prepared Float = TokenManager Float × ProxyToken Float × Option TokenError

abbrev pub Ensured : Type 0 → Type 0
Ensured Float = TokenManager Float × ProxyToken Float × Result Text TokenError

-- The attempt ends the search, or it skips an account for an error.
pub data Attempt : Type 0 where
  stop : Result Grant TokenError → Attempt
  skip : TokenError → Text → Attempt

module _ {Float : Type 0} where
  unfoldable pub values : Map Text (ProxyToken Float) → List (ProxyToken Float)
  values m = map (λ b. b.1) m

  abbrev pub drop_guard : TokenManager Float → ActiveRequestGuard → TokenManager Float
  drop_guard tm g = record tm { active_requests = drop tm.active_requests g }

  abbrev pub keep_token : TokenManager Float → ProxyToken Float → TokenManager Float
  keep_token tm t = record tm { tokens = insert t.account_id t tm.tokens }

  abbrev pub keep_project : TokenManager Float → Text → Text → TokenManager Float
  keep_project tm account_id pid = record tm {
    tokens = modify account_id (λ entry. record entry { project_id = some pid }) tm.tokens;
  }

  -- Take a slot of an account.
  unfoldable pub take_slot :
      TokenManager Float → ProxyToken Float → TokenManager Float × Option ActiveRequestGuard
  take_slot tm t =
      let (cs, taken) =
        try_new tm.active_requests t.email tm.routing_config.max_concurrent_per_account in
      (record tm { active_requests = cs }, taken)

  unfoldable pub expires_soon : ProxyToken Float → ℤ → Bool
  expires_soon t now = not (ltb_ℤ now (sub_i64 t.timestamp (pos 300)))

  unfoldable pub keep_refreshed : Prepared Float → Prepared Float
  keep_refreshed (tm, t, none) = (keep_token tm t, t, none)
  keep_refreshed (tm, t, some e) = (tm, t, some e)

  -- Refresh a token that ends in 300 s, and keep it in the pool.
  unfoldable pub refreshed : Answers → TokenManager Float → ProxyToken Float → Prepared Float
  unfolding expires_soon keep_refreshed
  refreshed w tm t =
      if expires_soon t w.now then keep_refreshed (try_refresh_token w tm t) else (tm, t, none)

  unfoldable pub with_project :
      Answers → ActiveRequestGuard → Ensured Float → TokenManager Float × Attempt
  with_project w g (tm, t, err e) = (drop_guard tm g, skip e t.email)
  with_project w g (tm, t, ok pid) = (
    keep_project tm t.account_id pid,
    stop (
        ok
          (record { access_token = t.access_token; project_id = pid; email = t.email; guard = g })),
  )

  unfoldable pub with_token :
      Answers → ActiveRequestGuard → Prepared Float → TokenManager Float × Attempt
  unfolding with_project
  with_token w g (tm, t, some e) = (drop_guard tm g, skip e t.email)
  with_token w g (tm, t, none) = with_project w g (ensure_project_id w tm t)

  unfoldable pub bind : Option Text → ℕ → TokenManager Float → ProxyToken Float → TokenManager Float
  bind none clock tm t = tm
  bind (some sid) clock tm t =
      bind_session_to_account tm sid t.email tm.routing_config.enable_session_affinity clock

  -- Prepare an account that is selected and whose slot is held.
  unfoldable pub prepare :
      Query
      → Moment Float
      → TokenManager Float
      → ProxyToken Float
      → ActiveRequestGuard
      → TokenManager Float × Attempt
  unfolding bind refreshed with_token
  prepare q m tm t g =
      with_token m.answers g (refreshed m.answers (bind q.session_id m.clock tm t) t)

  -- A selection that is tried where the ones before it chose nothing.
  unfoldable pub or_else : Selected Float → (TokenManager Float → Selected Float) → Selected Float
  or_else (tm, some x) next = (tm, some x)
  or_else (tm, none) next = next tm

  unfoldable pub unbind : Option Text → TokenManager Float → TokenManager Float
  unbind none tm = tm
  unbind (some sid) tm =
      if should_unbind_session tm sid then (unbind_session_on_failures tm sid).0 else tm

module _ {Float : Type 0} (partial_cmp : PartialCmp Float) where
  -- The accounts by priority, without those that quota protection bars from the model.
  unfoldable pub snapshot : TokenManager Float → Query → List (ProxyToken Float)
  unfolding values filter sort_by compare_tokens_by_priority
  snapshot tm q =
      let sorted = sort_by (compare_tokens_by_priority partial_cmp) (values tm.tokens) in
      if q.quota_protection_enabled
      then filter (λ t. not (is_model_protected partial_cmp tm t.account_id q.normalized_target))
          sorted
      else sorted

  abbrev pub request_of : Query → Moment Float → List Text → Request
  request_of q m attempted = record {
    attempted = attempted;
    normalized_target = q.normalized_target;
    quota_protection_enabled = q.quota_protection_enabled;
    aimd = q.aimd;
    now = m.clock;
  }

  unfoldable pub sticky :
      Option Text → Request → List (ProxyToken Float) → TokenManager Float → Selected Float
  sticky none r ts tm = (tm, none)
  sticky (some sid) r ts tm =
      if tm.routing_config.enable_session_affinity
      then try_sticky_session partial_cmp tm r sid ts
      else (tm, none)

  -- An ultra tier first, then the account of the session, then the best; where the accounts are to
  -- be rotated, the best only.
  unfoldable pub select :
      Query → Bool → Request → List (ProxyToken Float) → TokenManager Float → Selected Float
  unfolding or_else sticky
  select q true r ts tm = try_scored_selection partial_cmp tm r ts
  select q false r ts tm =
      or_else (or_else (try_ultra_tier_selection partial_cmp tm r ts) (sticky q.session_id r ts))
        (λ tm'. try_scored_selection partial_cmp tm' r ts)

  unfoldable pub with_slot :
      Query
      → Moment Float
      → ProxyToken Float
      → TokenManager Float × Option ActiveRequestGuard
      → TokenManager Float × Attempt
  with_slot q m t (tm, none) = (tm, stop (err no_guard_after_recovery))
  with_slot q m t (tm, some g) = prepare q m tm t g

  unfoldable pub after_recovery :
      Query → Moment Float → TokenManager Float × Recovery Float → TokenManager Float × Attempt
  unfolding with_slot take_slot
  after_recovery q m (tm, found t) = with_slot q m t (take_slot tm t)
  after_recovery q m (tm, failed_after_reset) = (tm, stop (err failed_after_buffer))
  after_recovery q m (tm, wait s) = (tm, stop (err (all_limited s)))
  after_recovery q m (tm, at_capacity) = (tm, stop (err all_at_capacity))

  unfoldable pub after_select :
      Query
      → Moment Float
      → Request
      → List (ProxyToken Float)
      → Selected Float
      → TokenManager Float × Attempt
  unfolding after_recovery
  after_select q m r ts (tm, some (t, g)) = prepare q m tm t g
  after_select q m r ts (tm, none) =
      after_recovery q m (try_recovery_selection partial_cmp tm m.clock (m.slept tm) r ts)

  unfoldable pub attempt :
      Query
      → Moment Float
      → Bool
      → List Text
      → List (ProxyToken Float)
      → TokenManager Float
      → TokenManager Float × Attempt
  unfolding after_select select unbind
  attempt q m rotate attempted ts tm =
      let r = request_of q m attempted in
      after_select q m r ts (select q rotate r ts (unbind q.session_id tm))

  -- The loop with `left` attempts left, of which the first is for the moment `i`.
  unfoldable pub attempts :
      Query
      → (ℕ → Moment Float)
      → List (ProxyToken Float)
      → (left i : ℕ) → Bool
      → List Text
      → Option TokenError
      → TokenManager Float
      → TokenManager Float × Result Grant TokenError
  unfolding attempt
  attempts q moments ts zero i rotate attempted last_error tm =
      (tm, err (unwrap_or last_error all_accounts_failed))
  attempts q moments ts (suc left) i rotate attempted last_error tm =
      let (tm', a) = attempt q (moments i) rotate attempted ts tm in
      elim a [
        | stop r ↦ (tm', r)
        | skip e email ↦ attempts q moments ts left (i + 1) true (email ∷ attempted) (some e) tm'
      ]
