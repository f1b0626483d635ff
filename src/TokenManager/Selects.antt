-- ===== src/TokenManager/Selects.antt =====
-- An account is selected where an eligible one has a free slot.
use antigravity_server.TokenManager.{ProxyToken, TokenManager, SmartRoutingConfig}
use antigravity_server.TokenManager.Selection.{
  PartialCmp, Request, is_candidate_eligible, is_model_protected, try_scored_selection,
  try_ultra_tier_selection, try_sticky_session, select_from, reuse, find_email,
}
use antigravity_server.TokenManager.Sessions.{
  unbind_session_on_failures, unbound, clear_session_binding, clear_session_failures,
  get_session_account,
}
use antigravity_server.TokenManager.Priority.{IsScore}
use antigravity_server.TokenManager.Choice.{IsBest, try_scored_selection-IsBest}
use antigravity_server.TokenManager.Attempts.{Query, Selected, or_else, unbind, sticky, select}
use antigravity_server.TokenManager.Search.{Fresh, early, early-TakesIn, unbind-active_requests}
use antigravity_server.TokenManager.Taken.{TakesIn}
use antigravity_server.ActiveRequests.{load}
use antigravity_server.Prelude.Map.{text_key}
use antigravity_server.Prelude.Text.{Text}
use antigravity_server.Prelude.{
  ℕ, ◌≡◌, ◌≤◌, ◌∙◌, refl, ap, subst, arith, inl, inr, true, false, Bool, Option, Option-cases, none,
  some, List, is_some, if-keeps, All, All-map,
}

module _ {Float : Type 0} where
  -- Nothing that a choice of an account depends on has changed, save the slots.
  abbrev Alike : TokenManager Float → TokenManager Float → Type 0
  Alike tm tm' =
      (tm'.tokens ≡ tm.tokens)
      × (tm'.rate_limit_tracker ≡ tm.rate_limit_tracker)
      × (tm'.routing_config ≡ tm.routing_config)

  Alike-trans : (tm tm' tm'' : TokenManager Float) → Alike tm tm' → Alike tm' tm'' → Alike tm tm''
  Alike-trans tm tm' tm'' a b = (b.0 ∙ a.0, b.1 ∙ a.1, b.2 ∙ a.2)

  unbind-Alike : (sid : Option Text) (tm : TokenManager Float) → Alike tm (unbind sid tm)
  unfolding unbind unbind_session_on_failures unbound clear_session_binding clear_session_failures
  unbind-Alike none tm = (refl, refl, refl)
  unbind-Alike (some sid) tm = ground arith

  or_else-Alike :
      (tm : TokenManager Float) (s : Selected Float) (next : TokenManager Float → Selected Float)
      → Alike tm s.0
      → ((u : TokenManager Float) → Alike u (next u).0)
      → Alike tm (or_else s next).0
  unfolding or_else
  or_else-Alike tm (u, none) next h f = Alike-trans tm u (next u).0 h (f u)
  or_else-Alike tm (u, some x) next h f = h

  or_else-is_some :
      (s : Selected Float) (next : TokenManager Float → Selected Float)
      → (s.1 ≡ none → is_some (next s.0).1 ≡ true)
      → is_some (or_else s next).1 ≡ true
  unfolding or_else
  or_else-is_some (u, none) next f = f refl
  or_else-is_some (u, some x) next f = refl

module _ {Float : Type 0} (partial_cmp : PartialCmp Float) (r : Request)
    (ts : List (ProxyToken Float)) where
  eligible-Alike :
      (tm tm' : TokenManager Float) (t : ProxyToken Float)
      → Alike tm tm'
      → is_candidate_eligible partial_cmp tm' r true true t
        ≡ is_candidate_eligible partial_cmp tm r true true t
  unfolding is_candidate_eligible is_model_protected
  eligible-Alike tm tm' t a = rw (a.0, a.1) refl

  ultra-Alike :
      (tm : TokenManager Float) → Alike tm (try_ultra_tier_selection partial_cmp tm r ts).0
  unfolding try_ultra_tier_selection select_from
  ultra-Alike tm = (refl, refl, refl)

  reuse-Alike :
      (tm : TokenManager Float) (sid : Text) (o : Option (ProxyToken Float))
      → Alike tm (reuse partial_cmp tm r sid o).0
  unfolding reuse clear_session_binding
  reuse-Alike tm sid none = (refl, refl, refl)
  reuse-Alike tm sid (some t) =
      if-keeps (λ (s : Selected Float). Alike tm s.0)
        (is_candidate_eligible partial_cmp tm r true true t) (refl, refl, refl) (refl, refl, refl)

  sticky-Alike :
      (sid : Option Text) (tm : TokenManager Float) → Alike tm (sticky partial_cmp sid r ts tm).0
  unfolding sticky try_sticky_session
  sticky-Alike none tm = (refl, refl, refl)
  sticky-Alike (some sid) tm =
      if-keeps (λ (s : Selected Float). Alike tm s.0) tm.routing_config.enable_session_affinity
        (elim (Option-cases (get_session_account tm sid)) [
          | inl n ↦ rw (try_sticky_session, n) (refl, refl, refl)
          | inr (a, e) ↦
              rw (try_sticky_session, e) (reuse-Alike tm sid (find_email partial_cmp a ts))
        ])
        (refl, refl, refl)

  -- Every eligible account has as many requests as it may have.
  abbrev pub Full : TokenManager Float → Type 0
  Full tm =
      All
        (λ t.
          is_candidate_eligible partial_cmp tm r true true t ≡ true
          → tm.routing_config.max_concurrent_per_account ≤ load tm.active_requests t.email)
        ts

  Full-Alike :
      (tm tm' : TokenManager Float)
      → Alike tm tm'
      → ((j : Text) → load tm'.active_requests j ≡ load tm.active_requests j)
      → Full tm'
      → Full tm
  Full-Alike tm tm' a same h =
      All-map ts
        (λ t full e.
          let k = full (eligible-Alike tm tm' t a ∙ e) in
          let c = ap (λ (x : SmartRoutingConfig). x.max_concurrent_per_account) a.2 in
          omega (arith, same t.email))
        h

  scored-is_some :
      (tm tm' : TokenManager Float)
      → IsScore partial_cmp
      → ¬ Full tm
      → Alike tm tm'
      → ((j : Text) → load tm'.active_requests j ≡ load tm.active_requests j)
      → is_some (try_scored_selection partial_cmp tm' r ts).1 ≡ true
  scored-is_some tm tm' score room a same =
      elim (Option-cases (try_scored_selection partial_cmp tm' r ts).1) [
        | inl n ↦ absurd (
            room (
              Full-Alike tm tm' a same (
                subst
                  (IsBest partial_cmp (load tm'.active_requests)
                    tm'.routing_config.max_concurrent_per_account
                    (is_candidate_eligible partial_cmp tm' r true true) ts)
                  n (try_scored_selection-IsBest partial_cmp tm' r ts score))))
        | inr (x, e) ↦ rw e refl
      ]

  untaken :
      (P : ProxyToken Float → Type 0) (loads : Text → ℕ) (s : Selected Float)
      → TakesIn P loads s
      → s.1 ≡ none
      → (j : Text) → load s.0.active_requests j ≡ loads j
  untaken P loads (tm, none) h e = h
  untaken P loads (tm, some x) h e = cc

  -- Where an eligible account has a free slot, an account is selected.
  pub select-is_some :
      (q : Query) (rotate : Bool) (tm : TokenManager Float)
      → IsScore partial_cmp
      → ¬ Full tm
      → is_some (select partial_cmp q rotate r ts (unbind q.session_id tm)).1 ≡ true
  unfolding select
  select-is_some q true tm score room =
      scored-is_some tm (unbind q.session_id tm) score room (unbind-Alike q.session_id tm)
        (λ j. ap (λ cs. load cs j) (unbind-active_requests partial_cmp q.session_id tm))
  select-is_some q false tm score room =
      let loads = load tm.active_requests in
      let u = unbind q.session_id tm in
      let tried = early partial_cmp loads r ts q.session_id u in
      or_else-is_some tried (λ tm'. try_scored_selection partial_cmp tm' r ts)
        (λ e.
          scored-is_some tm tried.0 score room
            (Alike-trans tm u tried.0 (unbind-Alike q.session_id tm) (
              or_else-Alike u (try_ultra_tier_selection partial_cmp u r ts)
                (sticky partial_cmp q.session_id r ts) (ultra-Alike u) (sticky-Alike q.session_id)))
            (untaken (Fresh partial_cmp loads r) loads tried
              (early-TakesIn partial_cmp loads r ts q.session_id u
                (λ j. ap (λ cs. load cs j) (unbind-active_requests partial_cmp q.session_id tm)))
              e))
