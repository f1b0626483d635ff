-- ===== src/TokenManager/Search.antt =====
-- The search for an account holds one slot in the end, or none, and obeys the exclusions.
use antigravity_server.TokenManager.{ProxyToken, TokenManager}
use antigravity_server.TokenManager.Refresh.{TokenError}
use antigravity_server.TokenManager.Selection.{
  PartialCmp, Request, contains_text, is_candidate_eligible, try_scored_selection,
  try_ultra_tier_selection,
}
use antigravity_server.TokenManager.Sessions.{
  unbind_session_on_failures, unbound, clear_session_binding, clear_session_failures,
}
use antigravity_server.TokenManager.Attempts.{
  Moment, Query, Grant, Attempt, Selected, stop, skip, or_else, unbind, take_slot, sticky, select,
  request_of, with_slot, after_recovery, after_select, attempt, attempts,
}
use antigravity_server.TokenManager.Recovery.{
  Recovery, found, failed_after_reset, wait, at_capacity, try_recovery_selection, min_wait,
}
use antigravity_server.TokenManager.Recovered.{Holds, Recovers, try_recovery_selection-Recovers}
use antigravity_server.TokenManager.Taken.{
  TakesIn, take_slot-TakesIn, try_scored_selection-TakesIn, try_sticky_session-TakesIn,
  try_ultra_tier_selection-TakesIn,
}
use antigravity_server.TokenManager.Settled.{Goes, Settles, prepare-Goes}
use antigravity_server.ActiveRequests.{ActiveRequestGuard, load}
use antigravity_server.RateLimit.{clear_all}
use antigravity_server.Prelude.Result.{Result, ok, err}
use antigravity_server.Prelude.Map.{text_key}
use antigravity_server.Prelude.Text.{Text}
use antigravity_server.Prelude.{
  ℕ, zero, suc, ◌+◌, ◌≡◌, ◌⊎◌, ◌∙◌, refl, sym, ap, subst, arith, inl, inr, true, false, Bool,
  Option, option_map, none, some, if-keeps, List, ◌∷◌,
}

module _ {Float : Type 0} (partial_cmp : PartialCmp Float) where
  eligible-not_attempted :
      (tm : TokenManager Float) (r : Request) (check_quota check_aimd : Bool) (t : ProxyToken Float)
      → is_candidate_eligible partial_cmp tm r check_quota check_aimd t ≡ true
      → contains_text t.email r.attempted ≡ false
  unfolding is_candidate_eligible
  eligible-not_attempted tm r check_quota check_aimd t e = ground arith

  pub unbind-active_requests :
      (sid : Option Text) (tm : TokenManager Float)
      → (unbind sid tm).active_requests ≡ tm.active_requests
  unfolding unbind unbind_session_on_failures unbound clear_session_binding clear_session_failures
  unbind-active_requests none tm = refl
  unbind-active_requests (some sid) tm = ground arith

  -- The other requests give back what they take while a recovery sleeps.
  abbrev pub Rests : Moment Float → Type 0
  Rests m =
      (tm : TokenManager Float) (j : Text)
      → load (m.slept tm).active_requests j ≡ load tm.active_requests j

  module _ (loads : Text → ℕ) (r : Request) where
    abbrev pub Fresh : ProxyToken Float → Type 0
    Fresh t = contains_text t.email r.attempted ≡ false

    abbrev At : TokenManager Float → Type 0
    At tm = (j : Text) → load tm.active_requests j ≡ loads j

    or_else-TakesIn :
        (s : Selected Float) (next : TokenManager Float → Selected Float)
        → TakesIn Fresh loads s
        → ((tm : TokenManager Float) → At tm → TakesIn Fresh loads (next tm))
        → TakesIn Fresh loads (or_else s next)
    unfolding or_else
    or_else-TakesIn (tm, none) next h f = f tm h
    or_else-TakesIn (tm, some x) next h f = h

    slept-At :
        (before slept after : TokenManager Float)
        → At before
        → At slept
        → Holds partial_cmp before slept after
        → At after
    slept-At before slept after h k (inl e) = λ j. e j ∙ k j
    slept-At before slept after h k (inr e) = subst At (sym e) h

    module _ (ts : List (ProxyToken Float)) where
      scored :
          (tm : TokenManager Float)
          → At tm
          → TakesIn Fresh loads (try_scored_selection partial_cmp tm r ts)
      scored tm same =
          try_scored_selection-TakesIn Fresh loads partial_cmp tm same r
            (eligible-not_attempted tm r true true) ts

      sticky-TakesIn :
          (sid : Option Text) (tm : TokenManager Float)
          → At tm
          → TakesIn Fresh loads (sticky partial_cmp sid r ts tm)
      unfolding sticky
      sticky-TakesIn none tm same = same
      sticky-TakesIn (some sid) tm same =
          if-keeps (TakesIn Fresh loads) tm.routing_config.enable_session_affinity
            (try_sticky_session-TakesIn Fresh loads partial_cmp tm same r
              (eligible-not_attempted tm r true true) sid ts)
            same

      -- The selections before the scored one.
      abbrev pub early : Option Text → TokenManager Float → Selected Float
      early sid tm =
          or_else (try_ultra_tier_selection partial_cmp tm r ts) (sticky partial_cmp sid r ts)

      pub early-TakesIn :
          (sid : Option Text) (tm : TokenManager Float) → At tm → TakesIn Fresh loads (early sid tm)
      early-TakesIn sid tm same =
          or_else-TakesIn (try_ultra_tier_selection partial_cmp tm r ts)
            (sticky partial_cmp sid r ts)
            (try_ultra_tier_selection-TakesIn Fresh loads partial_cmp tm same r
              (eligible-not_attempted tm r true true) ts)
            (sticky-TakesIn sid)

      select-TakesIn :
          (q : Query) (rotate : Bool) (tm : TokenManager Float)
          → At tm
          → TakesIn Fresh loads (select partial_cmp q rotate r ts tm)
      unfolding select
      select-TakesIn q true tm same = scored tm same
      select-TakesIn q false tm same =
          or_else-TakesIn (early q.session_id tm) (λ tm'. try_scored_selection partial_cmp tm' r ts)
            (early-TakesIn q.session_id tm same) scored

      module _ (q : Query) (m : Moment Float) where
        abbrev pub FreshEmail : Text → Type 0
        FreshEmail email = contains_text email r.attempted ≡ false

        with_slot-Goes :
            (t : ProxyToken Float) (tm : TokenManager Float) (taken : Option ActiveRequestGuard)
            → TakesIn Fresh loads (tm, option_map (λ g. (t, g)) taken)
            → Goes FreshEmail loads (with_slot partial_cmp q m t (tm, taken))
        unfolding with_slot
        with_slot-Goes t tm none h = h
        with_slot-Goes t tm (some g) h = prepare-Goes FreshEmail loads q m tm t g h

        found-Fresh :
            (tm u : TokenManager Float) (t : ProxyToken Float)
            → ((is_candidate_eligible partial_cmp tm r true false t ≡ true)
                ⊎ (is_candidate_eligible partial_cmp u r true false t ≡ true))
            → Fresh t
        found-Fresh tm u t (inl e) = eligible-not_attempted tm r true false t e
        found-Fresh tm u t (inr e) = eligible-not_attempted u r true false t e

        after_recovery-Goes :
            (tm : TokenManager Float) (wait_sec : Option ℕ)
            (out : TokenManager Float × Recovery Float)
            → Recovers partial_cmp tm r ts wait_sec out.1
            → At out.0
            → Goes FreshEmail loads (after_recovery partial_cmp q m out)
        unfolding after_recovery
        after_recovery-Goes tm wait_sec (tm', found t) h same =
            let (u, taken) = take_slot tm' t in
            with_slot-Goes t u taken (
              take_slot-TakesIn Fresh loads partial_cmp tm' same t (
                found-Fresh tm (record tm { rate_limit_tracker = clear_all tm.rate_limit_tracker })
                  t h.1))
        after_recovery-Goes tm wait_sec (tm', failed_after_reset) h same = same
        after_recovery-Goes tm wait_sec (tm', wait s) h same = same
        after_recovery-Goes tm wait_sec (tm', at_capacity) h same = same

        after_select-Goes :
            Rests m
            → (s : Selected Float) → TakesIn Fresh loads s
            → Goes FreshEmail loads (after_select partial_cmp q m r ts s)
        unfolding after_select
        after_select-Goes rests (tm, some (t, g)) h = prepare-Goes FreshEmail loads q m tm t g h
        after_select-Goes rests (tm, none) h =
            let out = try_recovery_selection partial_cmp tm m.clock (m.slept tm) r ts in
            let (recovers, holds) =
              try_recovery_selection-Recovers partial_cmp tm m.clock (m.slept tm) r ts in
            after_recovery-Goes (m.slept tm) (min_wait tm m.clock ts) out recovers
              (slept-At tm (m.slept tm) out.0 h (λ j. rests tm j ∙ h j) holds)

  module _ (q : Query) (loads : Text → ℕ) where
    abbrev Outside : List Text → Text → Type 0
    Outside attempted email = contains_text email attempted ≡ false

    attempt-Goes :
        (m : Moment Float) (rotate : Bool) (attempted : List Text) (ts : List (ProxyToken Float))
        (tm : TokenManager Float)
        → Rests m
        → ((j : Text) → load tm.active_requests j ≡ loads j)
        → Goes (Outside attempted) loads (attempt partial_cmp q m rotate attempted ts tm)
    unfolding attempt
    attempt-Goes m rotate attempted ts tm rests same =
        let r = request_of partial_cmp q m attempted in
        let u = unbind q.session_id tm in
        after_select-Goes loads r ts q m rests (select partial_cmp q rotate r ts u) (
          select-TakesIn loads r ts q rotate u
            (λ j. ap (λ cs. load cs j) (unbind-active_requests q.session_id tm) ∙ same j))

    Outside-cons :
        (e email : Text) (attempted : List Text)
        → Outside (e ∷ attempted) email
        → Outside attempted email
    unfolding contains_text
    Outside-cons e email attempted h = ground arith

    Settles-cons :
        (e : Text) (attempted : List Text) (out : TokenManager Float × Result Grant TokenError)
        → Settles (Outside (e ∷ attempted)) loads out
        → Settles (Outside attempted) loads out
    Settles-cons e attempted (tm, err x) h = h
    Settles-cons e attempted (tm, ok g) h = (Outside-cons e g.email attempted h.0, h.1, h.2)

    module _ (moments : ℕ → Moment Float) (rests : (i : ℕ) → Rests (moments i))
        (ts : List (ProxyToken Float)) where
      -- What follows an attempt settles where every later attempt does.
      next-Settles :
          (left i : ℕ) (attempted : List Text)
          → ((attempted' : List Text) (last_error : Option TokenError) (tm : TokenManager Float)
              → ((j : Text) → load tm.active_requests j ≡ loads j)
              → Settles
                  (Outside attempted')
                  loads
                  (attempts partial_cmp q moments ts left i true attempted' last_error tm))
          → (out : TokenManager Float × Attempt) → Goes (Outside attempted) loads out
          → Settles {Float = Float} (Outside attempted) loads (elim out.1 [
            | stop r ↦ (out.0, r)
            | skip e email ↦
                attempts partial_cmp q moments ts left i true (email ∷ attempted) (some e) out.0
          ])
      next-Settles left i attempted ih (tm, stop r) h = h
      next-Settles left i attempted ih (tm, skip e email) h =
          Settles-cons email attempted
            (attempts partial_cmp q moments ts left i true (email ∷ attempted) (some e) tm)
            (ih (email ∷ attempted) (some e) tm h.1)

      pub attempts-Settles :
          (left i : ℕ) (rotate : Bool) (attempted : List Text) (last_error : Option TokenError)
          (tm : TokenManager Float)
          → ((j : Text) → load tm.active_requests j ≡ loads j)
          → Settles
              (Outside attempted)
              loads
              (attempts partial_cmp q moments ts left i rotate attempted last_error tm)
      unfolding attempts
      attempts-Settles zero i rotate attempted last_error tm same = same
      attempts-Settles (suc left) i rotate attempted last_error tm same =
          next-Settles left (i + 1) attempted (attempts-Settles left (i + 1) true)
            (attempt partial_cmp q (moments i) rotate attempted ts tm)
            (attempt-Goes (moments i) rotate attempted ts tm (rests i) same)
