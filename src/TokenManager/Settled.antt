-- ===== src/TokenManager/Settled.antt =====
-- What an attempt and the whole search leave of the slots.
use antigravity_server.TokenManager.{ProxyToken, TokenManager}
use antigravity_server.TokenManager.Refresh.{
  Answers, TokenError, try_refresh_token, ensure_project_id,
}
use antigravity_server.TokenManager.Attempts.{
  Moment, Query, Grant, Attempt, stop, skip, Prepared, Ensured, refreshed, with_project, with_token,
  bind, prepare,
}
use antigravity_server.TokenManager.Taken.{TakesIn, guard_of, slot_of, load-drop_taken}
use antigravity_server.TokenManager.Sessions.{bind_session_to_account}
use antigravity_server.ActiveRequests.{ActiveRequestGuard, drop, load}
use antigravity_server.Prelude.Result.{Result, ok, err}
use antigravity_server.Prelude.Map.{text_key}
use antigravity_server.Prelude.Text.{Text}
use antigravity_server.Prelude.{ℕ, ◌+◌, ◌≡◌, ◌∙◌, refl, sym, ap, subst, arith, Option, none, some}

module _ {Float : Type 0} where
  -- A step that leaves the slots alone and works on the same account.
  abbrev pub Keeps {ℓ} :
      {A : Type ℓ}
      → TokenManager Float
      → ProxyToken Float
      → TokenManager Float × ProxyToken Float × A
      → Type 0
  Keeps tm t (tm', t', a) = (tm'.active_requests ≡ tm.active_requests) × (t'.email ≡ t.email)

  pub try_refresh_token-Keeps :
      (w : Answers) (tm : TokenManager Float) (t : ProxyToken Float)
      → Keeps tm t (try_refresh_token w tm t)
  unfolding try_refresh_token
  try_refresh_token-Keeps w tm t = ground arith

  pub ensure_project_id-Keeps :
      (w : Answers) (tm : TokenManager Float) (t : ProxyToken Float)
      → Keeps tm t (ensure_project_id w tm t)
  unfolding ensure_project_id
  ensure_project_id-Keeps w tm t = ground arith

  pub refreshed-Keeps :
      (w : Answers) (tm : TokenManager Float) (t : ProxyToken Float) → Keeps tm t (refreshed w tm t)
  unfolding refreshed
  refreshed-Keeps w tm t = ground (arith, try_refresh_token-Keeps w tm t)

  bind-active_requests :
      (sid : Option Text) (clock : ℕ) (tm : TokenManager Float) (t : ProxyToken Float)
      → (bind sid clock tm t).active_requests ≡ tm.active_requests
  unfolding bind bind_session_to_account
  bind-active_requests none clock tm t = refl
  bind-active_requests (some sid) clock tm t = ground arith

  module _ (P : Text → Type 0) (loads : Text → ℕ) where
    -- A grant holds one slot more, of an account that satisfies `P`; an error leaves the slots as
    -- they were.
    abbrev pub Settles : TokenManager Float × Result Grant TokenError → Type 0
    Settles (tm, err e) = (j : Text) → load tm.active_requests j ≡ loads j
    Settles (tm, ok r) =
        P r.email
        × (r.guard ≡ guard_of r.email)
        × ((j : Text) → load tm.active_requests j ≡ loads j + slot_of r.email j)

    abbrev pub Goes : TokenManager Float × Attempt → Type 0
    Goes (tm, stop r) = Settles (tm, r)
    Goes (tm, skip e email) = P email × ((j : Text) → load tm.active_requests j ≡ loads j)

    -- A token at hand, whose slot is held by the guard.
    abbrev pub Holding : TokenManager Float → ProxyToken Float → ActiveRequestGuard → Type 0
    Holding tm t g = TakesIn (λ u. P u.email) loads (tm, some (t, g))

    pub Holding-Keeps {ℓ} :
        {A : Type ℓ} (tm : TokenManager Float) (t : ProxyToken Float) (g : ActiveRequestGuard)
        (out : TokenManager Float × ProxyToken Float × A)
        → Keeps tm t out
        → Holding tm t g
        → Holding out.0 out.1 g
    Holding-Keeps tm t g (tm', t', a) k h = (
      subst P (sym k.1) h.0,
      h.1 ∙ ap guard_of (sym k.1),
      λ j. ap (λ cs. load cs j) k.0 ∙ h.2 j ∙ ap (λ email. loads j + slot_of email j) (sym k.1),
    )

    pub dropped :
        (tm : TokenManager Float) (t : ProxyToken Float) (g : ActiveRequestGuard)
        → Holding tm t g
        → (j : Text) → load (drop tm.active_requests g) j ≡ loads j
    dropped tm t g h j =
        ap (λ x. load (drop tm.active_requests x) j) h.1
        ∙ load-drop_taken tm.active_requests loads t.email h.2 j

    with_project-Goes :
        (w : Answers) (g : ActiveRequestGuard) (out : Ensured Float)
        → Holding out.0 out.1 g
        → Goes (with_project w g out)
    unfolding with_project
    with_project-Goes w g (tm, t, err e) h = (h.0, dropped tm t g h)
    with_project-Goes w g (tm, t, ok pid) h = h

    pub with_token-Goes :
        (w : Answers) (g : ActiveRequestGuard) (out : Prepared Float)
        → Holding out.0 out.1 g
        → Goes (with_token w g out)
    unfolding with_token
    with_token-Goes w g (tm, t, some e) h = (h.0, dropped tm t g h)
    with_token-Goes w g (tm, t, none) h =
        with_project-Goes w g (ensure_project_id w tm t)
          (Holding-Keeps tm t g (ensure_project_id w tm t) (ensure_project_id-Keeps w tm t) h)

    pub prepare-Goes :
        (q : Query) (m : Moment Float) (tm : TokenManager Float) (t : ProxyToken Float)
        (g : ActiveRequestGuard)
        → Holding tm t g
        → Goes (prepare q m tm t g)
    unfolding prepare
    prepare-Goes q m tm t g h =
        let bound = bind q.session_id m.clock tm t in
        let same : bound.active_requests ≡ tm.active_requests =
          bind-active_requests q.session_id m.clock tm t in
        with_token-Goes m.answers g (refreshed m.answers bound t) (
          Holding-Keeps bound t g (refreshed m.answers bound t) (refreshed-Keeps m.answers bound t)
            (Holding-Keeps tm t g (bound, t, m.clock) (same, refl) h))
