-- ===== src/TokenManager/ForcedErrors.antt =====
-- Why a forced account is refused, and what it takes.
use mathlib.Core.List.{Memᴰ}
use antigravity_server.TokenManager.{ProxyToken, TokenManager, SmartRoutingConfig}
use antigravity_server.TokenManager.Refresh.{
  TokenError, pool_empty, all_accounts_failed, acquisition_timeout, forced_not_found,
  forced_rate_limited, forced_at_capacity, blocked_refresh, blocked_project_fetch,
  rotated_not_saved, refresh_failed, failed_after_buffer, all_limited, all_at_capacity,
  no_guard_after_recovery, ensure_project_id,
}
use antigravity_server.TokenManager.Attempts.{
  Moment, Grant, Prepared, Ensured, values, take_slot, refreshed,
}
use antigravity_server.TokenManager.Forced.{
  find_forced, forced_project, forced_token, forced_slot, get_token_forced,
}
use antigravity_server.TokenManager.Settled.{
  Settles, Holding, Holding-Keeps, dropped, refreshed-Keeps, ensure_project_id-Keeps,
}
use antigravity_server.TokenManager.Taken.{load-insert_one}
use antigravity_server.TokenManager.Candidates.{load-insert_same}
use antigravity_server.ActiveRequests.Slots.{try_new_full, try_new_free}
use antigravity_server.ActiveRequests.{ActiveRequestGuard, load}
use antigravity_server.RateLimit.{is_rate_limited}
use antigravity_server.Prelude.Result.{Result, ok, err}
use antigravity_server.Prelude.Map.{text_key}
use antigravity_server.Prelude.Text.{Text, Text-discrete}
use antigravity_server.Prelude.{
  ◌≡◌, ◌≤◌, ◌<◌, ◌∙◌, refl, sym, ap, subst, arith, inl, inr, true, false, Bool-cases, Option, none,
  some, List, [], ◌∷◌, All, leb, if_pos, if_neg,
}
use antigravity_server.TokenManager.RefreshErrors.{
  Like, OnErr, OnError, RefreshReason, ensure_project_id-OnErr, refreshed-Like, refreshed-OnError,
}

module _ {Float : Type 0} (lowercase : Text → Text) (email : Text) where
  abbrev Same : ProxyToken Float → Type 0
  Same t = lowercase t.email ≡ lowercase email

  abbrev Found : List (ProxyToken Float) → Option (ProxyToken Float) → Type 0
  Found ts none = All (λ t. ¬ Same t) ts
  Found ts (some t) = Memᴰ t ts × Same t

  Found-skip :
      (t : ProxyToken Float) (ts : List (ProxyToken Float)) (o : Option (ProxyToken Float))
      → ¬ Same t
      → Found ts o
      → Found (t ∷ ts) o
  Found-skip t ts none n h = (n, h)
  Found-skip t ts (some u) n h = (Memᴰ.tail h.0, h.1)

  find_forced-Found : (ts : List (ProxyToken Float)) → Found ts (find_forced lowercase email ts)
  unfolding find_forced
  find_forced-Found [] = tt
  find_forced-Found (t ∷ ts) =
      let rest = find_forced lowercase email ts in
      elim (Text-discrete (lowercase t.email) (lowercase email)) [
        | yes p ↦
            subst (Found (t ∷ ts))
              (sym (if_pos (Text-discrete (lowercase t.email) (lowercase email)) p (some t) rest))
              (Memᴰ.head refl, p)
        | no n ↦
            subst (Found (t ∷ ts))
              (sym (if_neg (Text-discrete (lowercase t.email) (lowercase email)) n (some t) rest))
              (Found-skip t ts rest n (find_forced-Found ts))
      ]

  module _ (m : Moment Float) (tm : TokenManager Float) where
    -- An account of the pool with the address.
    abbrev pub IsForced : ProxyToken Float → Type 0
    IsForced t = Memᴰ t (values tm.tokens) × Same t

    -- What an error says of the pool.
    abbrev pub Why : TokenError → Type 0
    Why (forced_not_found e) = (e ≡ email) × All (λ t. ¬ Same t) (values tm.tokens)
    Why (forced_rate_limited e) =
        (e ≡ email)
        × (t : ProxyToken Float) × IsForced t
        × (is_rate_limited tm.rate_limit_tracker t.account_id m.clock ≡ true)
    Why (forced_at_capacity e n) =
        (e ≡ email)
        × (n ≡ tm.routing_config.max_concurrent_per_account)
        × (t : ProxyToken Float) × IsForced t
        × (tm.routing_config.max_concurrent_per_account ≤ load tm.active_requests t.email)
    Why e =
        (t : ProxyToken Float) × IsForced t
        × (is_rate_limited tm.rate_limit_tracker t.account_id m.clock ≡ false)
        × (load tm.active_requests t.email < tm.routing_config.max_concurrent_per_account)
        × RefreshReason m.answers t e

    abbrev pub Explains : Result Grant TokenError → Type 0
    Explains (err e) = Why e
    Explains (ok g) =
        (t : ProxyToken Float) × IsForced t
        × (g.email ≡ t.email)
        × (is_rate_limited tm.rate_limit_tracker t.account_id m.clock ≡ false)
        × (load tm.active_requests t.email < tm.routing_config.max_concurrent_per_account)

    abbrev At : TokenManager Float × Result Grant TokenError → Type 0
    At (u, r) =
        Explains r × Settles (λ e. lowercase e ≡ lowercase email) (load tm.active_requests) (u, r)

    module _ (t : ProxyToken Float) (forced : IsForced t)
        (unlimited : is_rate_limited tm.rate_limit_tracker t.account_id m.clock ≡ false)
        (room : load tm.active_requests t.email
          < tm.routing_config.max_concurrent_per_account) where
      abbrev Held : TokenManager Float → ProxyToken Float → ActiveRequestGuard → Type 0
      Held = Holding (λ e. lowercase e ≡ lowercase email) (load tm.active_requests)

      refresh-Why : (e : TokenError) → RefreshReason m.answers t e → Why e
      refresh-Why (blocked_refresh e) h = (t, forced, unlimited, room, h)
      refresh-Why (blocked_project_fetch e) h = (t, forced, unlimited, room, h)
      refresh-Why (rotated_not_saved e) h = (t, forced, unlimited, room, h)
      refresh-Why (refresh_failed e) h = (t, forced, unlimited, room, h)
      refresh-Why pool_empty h = absurd h
      refresh-Why all_accounts_failed h = absurd h
      refresh-Why acquisition_timeout h = absurd h
      refresh-Why (forced_not_found e) h = absurd h
      refresh-Why (forced_rate_limited e) h = absurd h
      refresh-Why (forced_at_capacity e n) h = absurd h
      refresh-Why failed_after_buffer h = absurd h
      refresh-Why (all_limited s) h = absurd h
      refresh-Why all_at_capacity h = absurd h
      refresh-Why no_guard_after_recovery h = absurd h

      forced_project-At :
          (g : ActiveRequestGuard) (out : Ensured Float)
          → OnErr m.answers t out.2
          → out.1.email ≡ t.email
          → Held out.0 out.1 g
          → At (forced_project g out)
      unfolding forced_project
      forced_project-At g (u, t', err e) h same held = (
        refresh-Why e h,
        dropped (λ x. lowercase x ≡ lowercase email) (load tm.active_requests) u t' g held,
      )
      forced_project-At g (u, t', ok pid) h same held = ((t, forced, same, unlimited, room), held)

      forced_token-At :
          (g : ActiveRequestGuard) (out : Prepared Float)
          → OnError m.answers t out.2
          → Like m.answers t out.1
          → Held out.0 out.1 g
          → At (forced_token m.answers g out)
      unfolding forced_token
      forced_token-At g (u, t', some e) h same held = (
        refresh-Why e h,
        dropped (λ x. lowercase x ≡ lowercase email) (load tm.active_requests) u t' g held,
      )
      forced_token-At g (u, t', none) h same held =
          let out = ensure_project_id m.answers u t' in
          let k = ensure_project_id-Keeps m.answers u t' in
          forced_project-At g out (ensure_project_id-OnErr m.answers t u t' same) (k.1 ∙ same.0) (
            Holding-Keeps (λ x. lowercase x ≡ lowercase email) (load tm.active_requests) u t' g out
              k held)

      pub taken-At :
          (u : TokenManager Float) (g : ActiveRequestGuard)
          → Held u t g
          → At (forced_token m.answers g (refreshed m.answers u t))
      taken-At u g held =
          let out = refreshed m.answers u t in
          let k = refreshed-Keeps m.answers u t in
          forced_token-At g out (refreshed-OnError m.answers t u) (refreshed-Like m.answers t u) (
            Holding-Keeps (λ x. lowercase x ≡ lowercase email) (load tm.active_requests) u t g out k
              held)

    -- What a try to take a slot of a forced account gives.
    abbrev Slot : ProxyToken Float → TokenManager Float × Option ActiveRequestGuard → Type 0
    Slot t (u, none) =
        (tm.routing_config.max_concurrent_per_account ≤ load tm.active_requests t.email)
        × (u.routing_config ≡ tm.routing_config)
        × ((j : Text) → load u.active_requests j ≡ load tm.active_requests j)
    Slot t (u, some g) =
        (load tm.active_requests t.email < tm.routing_config.max_concurrent_per_account)
        × Holding (λ e. lowercase e ≡ lowercase email) (load tm.active_requests) u t g

    take_slot-Slot : (t : ProxyToken Float) → IsForced t → Slot t (take_slot tm t)
    unfolding take_slot
    take_slot-Slot t forced =
        let n = tm.routing_config.max_concurrent_per_account in
        let cs = tm.active_requests in
        elim (Bool-cases (leb n (load cs t.email))) [
          | inl full ↦
              rw (try_new_full cs t.email n (ground arith))
                (ground arith, refl, λ j. load-insert_same cs t.email j)
          | inr free_slot ↦
              rw (try_new_free cs t.email n (ground arith))
                (ground arith, (forced.1, refl, λ j. load-insert_one cs t.email j))
        ]

    forced_slot-At :
        (t : ProxyToken Float) (out : TokenManager Float × Option ActiveRequestGuard)
        → IsForced t
        → is_rate_limited tm.rate_limit_tracker t.account_id m.clock ≡ false
        → Slot t out
        → At (forced_slot lowercase email m.answers t out)
    unfolding forced_slot
    forced_slot-At t (u, none) forced unlimited s = (
      (refl, ap (λ (c : SmartRoutingConfig). c.max_concurrent_per_account) s.1, t, forced, s.0),
      s.2,
    )
    forced_slot-At t (u, some g) forced unlimited s = taken-At t forced unlimited s.0 u g s.1

    get_token_forced-At :
        (o : Option (ProxyToken Float))
        → Found (values tm.tokens) o
        → find_forced lowercase email (values tm.tokens) ≡ o
        → At (get_token_forced lowercase email m tm)
    unfolding get_token_forced
    get_token_forced-At none h e = rw (e, get_token_forced) ((refl, h), λ j. refl)
    get_token_forced-At (some t) h e =
        rw (e, get_token_forced)
          (elim (Bool-cases (is_rate_limited tm.rate_limit_tracker t.account_id m.clock)) [
            | inl limited ↦ rw limited ((refl, t, h, limited), λ j. refl)
            | inr unlimited ↦
                rw unlimited (forced_slot-At t (take_slot tm t) h unlimited (take_slot-Slot t h))
          ])

  -- A forced account is refused for a reason that holds of the pool: no account has the address, or
  -- one that has it is rate limited under its id, or has all the requests that it may have; or one
  -- that is not limited and has room could not be used: its token ends soon and it has no proxy
  -- where one is enforced, or the refresh gave that very error, or gave a new refresh token that
  -- could not be saved, or it has no project and no proxy where one is enforced. The counts of
  -- requests are then as they were. Else the account that is granted has the address, is not rate
  -- limited under its id, had a free slot, and has one request more.
  pub get_token_forced-Explains :
      (m : Moment Float) (tm : TokenManager Float)
      → let out = get_token_forced lowercase email m tm in
        Explains m tm out.1
        × Settles (λ e. lowercase e ≡ lowercase email) (load tm.active_requests) out
  get_token_forced-Explains m tm =
      get_token_forced-At m tm (find_forced lowercase email (values tm.tokens))
        (find_forced-Found (values tm.tokens)) refl
