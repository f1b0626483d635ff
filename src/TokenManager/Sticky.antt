-- ===== src/TokenManager/Sticky.antt =====
-- Sessions that stay with one account, and when they leave it.
use antigravity_server.TokenManager.{ProxyToken, TokenManager}
use antigravity_server.TokenManager.Selection.{
  PartialCmp, Request, find_email, is_candidate_eligible,
}
use antigravity_server.ActiveRequests.{ActiveRequestGuard, load}
use antigravity_server.TokenManager.Sessions.{
  bind_session_to_account, clear_session_binding, clear_session_failures, get_session_account,
  get_session_failures, record_session_failure, should_unbind_session, unbind_session_on_failures,
  unbound,
}
use antigravity_server.Prelude.Map.{
  lookup, lookup-insert_ne, lookup-insert_self, lookup-remove_self, text_key,
}
use antigravity_server.Prelude.Text.{Text}
use antigravity_server.Prelude.{
  List, Option, Option-cases, ap, arith, false, inl, inr, is_some, none, option_map, refl, some,
  suc, true, u32, unwrap_or, zero, ℕ, ◌+◌, ◌<◌, ◌^◌, ◌↔◌, ◌∙◌, ◌≡◌, ◌≤◌,
}

module _ {Float : Type 0} where
  -- n failures of a session in a row.
  unfoldable pub fail_times : ℕ → TokenManager Float → Text → TokenManager Float
  unfolding record_session_failure
  fail_times zero tm session_id = tm
  fail_times (suc n) tm session_id =
      (record_session_failure (fail_times n tm session_id) session_id).0

  get_session_failures-record :
      (tm : TokenManager Float) (session_id : Text)
      → get_session_failures (record_session_failure tm session_id).0 session_id
        ≡ u32 (get_session_failures tm session_id + 1)
  unfolding get_session_failures record_session_failure
  get_session_failures-record tm session_id =
      ap (λ o. unwrap_or o 0)
        (lookup-insert_self session_id (u32 (get_session_failures tm session_id + 1))
          tm.session_failures)

  get_session_failures-clear :
      (tm : TokenManager Float) (session_id : Text)
      → get_session_failures (clear_session_failures tm session_id) session_id ≡ 0
  unfolding get_session_failures clear_session_failures
  get_session_failures-clear tm session_id =
      ap (λ o. unwrap_or o 0) (lookup-remove_self session_id tm.session_failures)

  fail_times-count :
      (n : ℕ) (tm : TokenManager Float) (session_id : Text)
      → n < 2 ^ 32
      → get_session_failures
          (fail_times n (clear_session_failures tm session_id) session_id)
          session_id
        ≡ n
  unfolding fail_times
  fail_times-count zero tm session_id small = get_session_failures-clear tm session_id
  fail_times-count (suc n) tm session_id small =
      let k = fail_times-count n tm session_id (omega arith) in
      let e =
        get_session_failures-record (fail_times n (clear_session_failures tm session_id) session_id)
          session_id in
      e ∙ ap (λ m. u32 (m + 1)) k ∙ (ground arith)

  unbind_session_on_failures_lem :
      (tm : TokenManager Float) (session_id : Text)
      → ((unbind_session_on_failures tm session_id).1 ≡ get_session_account tm session_id)
        × (get_session_account (unbind_session_on_failures tm session_id).0 session_id ≡ none)
        × (is_some (get_session_account tm session_id) ≡ true
            → get_session_failures (unbind_session_on_failures tm session_id).0 session_id ≡ 0)
  unfolding unbind_session_on_failures get_session_account unbound clear_session_binding
  unbind_session_on_failures_lem tm session_id =
      elim (Option-cases (lookup session_id tm.session_accounts)) [
        | inl e ↦ rw e (refl, ap (option_map (λ v. v.0)) e, (λ h. ground arith))
        | inr (v, e) ↦ rw e (
          refl,
          ap (option_map (λ w. w.0)) (lookup-remove_self session_id tm.session_accounts),
          (λ h. get_session_failures-clear (clear_session_binding tm session_id) session_id),
        )
      ]

  -- A session whose failures were cleared, and which then fails n times, is to be unbound exactly
  -- where n is 3 at least; unbinding it takes its account and its failures away.
  pub should_unbind_session-fail_times :
      (n : ℕ) (tm : TokenManager Float) (session_id : Text)
      → n < 2 ^ 32
      → let tm' = fail_times n (clear_session_failures tm session_id) session_id in
        ((should_unbind_session tm' session_id ≡ true) ↔ (3 ≤ n))
        × ((unbind_session_on_failures tm' session_id).1 ≡ get_session_account tm' session_id)
        × (get_session_account (unbind_session_on_failures tm' session_id).0 session_id ≡ none)
        × (is_some (get_session_account tm' session_id) ≡ true
            → get_session_failures (unbind_session_on_failures tm' session_id).0 session_id ≡ 0)
  unfolding should_unbind_session
  should_unbind_session-fail_times n tm session_id small =
      let k = fail_times-count n tm session_id small in
      let u =
        unbind_session_on_failures_lem
          (fail_times n (clear_session_failures tm session_id) session_id) session_id in
      (ground arith, u.0, u.1, u.2)

  -- Binding a session with affinity on makes its account the one that it stays with, whatever the
  -- session was bound to, and changes no other session; with affinity off it does nothing.
  pub bind-get_session_account :
      (tm : TokenManager Float) (session_id other email : Text) (now : ℕ)
      → (get_session_account (bind_session_to_account tm session_id email true now) session_id
          ≡ some email)
        × (¬ (session_id ≡ other)
            → get_session_account (bind_session_to_account tm session_id email true now) other
              ≡ get_session_account tm other)
        × (bind_session_to_account tm session_id email false now ≡ tm)
  unfolding get_session_account bind_session_to_account
  bind-get_session_account tm session_id other email now = (
    ap (option_map (λ v. v.0)) (lookup-insert_self session_id (email, now) tm.session_accounts),
    (λ n.
        ap (option_map (λ v. v.0))
          (lookup-insert_ne session_id other (email, now) tm.session_accounts n)),
    refl,
  )

module _ {Float : Type 0} (partial_cmp : PartialCmp Float) where
  -- The account that a session may stay with: the bound one, if it is in the snapshot.
  unfoldable pub bound_token :
      TokenManager Float → Text → List (ProxyToken Float) → Option (ProxyToken Float)
  unfolding get_session_account find_email
  bound_token tm session_id tokens_snapshot = elim (get_session_account tm session_id) [
    | none ↦ none
    | some bound_id ↦ find_email partial_cmp bound_id tokens_snapshot
  ]

  -- The answer and the state after it, where the session is bound to a token of the snapshot.
  abbrev pub Stays :
      TokenManager Float
      → Request
      → Text
      → ProxyToken Float
      → TokenManager Float × Option (ProxyToken Float × ActiveRequestGuard)
      → Type 0
  Stays tm r session_id t (tm', chosen) =
      (is_candidate_eligible partial_cmp tm r true true t ≡ false
        → (chosen ≡ none) × (get_session_account tm' session_id ≡ none))
      × (is_candidate_eligible partial_cmp tm r true true t ≡ true
          → (load tm.active_requests t.email < tm.routing_config.max_concurrent_per_account
              → (chosen ≡ some (t, record { key = t.email; released = false }))
                × (load tm'.active_requests t.email ≡ load tm.active_requests t.email + 1))
            × (tm.routing_config.max_concurrent_per_account ≤ load tm.active_requests t.email
                → chosen ≡ none)
            × (get_session_account tm' session_id ≡ get_session_account tm session_id))
