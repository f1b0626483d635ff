-- ===== src/TokenManager/RefreshErrors.antt =====
-- Why a refresh of a token, or the fetch of its project, fails:
-- crates/antigravity-core/src/proxy/token_manager/token_refresh.rs.
use antigravity_server.TokenManager.{ProxyToken, TokenManager, needs_refresh}
use antigravity_server.TokenManager.Refresh.{
  Answers, TokenError, blocked_refresh, blocked_project_fetch, rotated_not_saved, refresh_failed,
  try_refresh_token, ensure_project_id, answered, save_error, request_refresh, after_lock,
  fetch_project, known_project, TokenResponse,
}
use antigravity_server.TokenManager.Attempts.{Prepared, refreshed, keep_refreshed, expires_soon}
use antigravity_server.Prelude.Result.{Result, ok, err}
use antigravity_server.Prelude.Int.{pos, add_i64, ltb_ℤ}
use antigravity_server.Prelude.Map.{text_key}
use antigravity_server.Prelude.Text.{Text}
use antigravity_server.Prelude.{
  ◌≡◌, refl, sym, arith, inl, inr, true, false, Bool-cases, Option, none, some, [], ◌∷◌, is_some,
  unwrap_or, not, ◌&&◌, if-keeps,
}

-- Why the refresh of an account, or the fetch of its project, gives an error.
module _ {Float : Type 0} (w : Answers) (t : ProxyToken Float) where
  abbrev pub RefreshReason : TokenError → Type 0
  RefreshReason (blocked_refresh e) =
      (expires_soon t w.now ≡ true)
      × (e ≡ t.email)
      × (is_some t.proxy_url ≡ false)
      × (w.enforce_proxy ≡ true)
  RefreshReason (blocked_project_fetch e) =
      (unwrap_or t.project_id [] ≡ [])
      × (e ≡ t.email)
      × (is_some t.proxy_url ≡ false)
      × (w.enforce_proxy ≡ true)
  RefreshReason (rotated_not_saved e) =
      (expires_soon t w.now ≡ true)
      × (response : TokenResponse) × (w.refresh_access_token t.refresh_token t.proxy_url
          ≡ ok response)
      × (w.save_refreshed_token t.account_id response ≡ some e)
      × (is_some response.refresh_token ≡ true)
  RefreshReason (refresh_failed e) =
      (expires_soon t w.now ≡ true) × (w.refresh_access_token t.refresh_token t.proxy_url ≡ err e)
  RefreshReason _ = ⊥

  abbrev pub OnError : Option TokenError → Type 0
  OnError none = Unit
  OnError (some e) = RefreshReason e

  abbrev pub OnErr : {A : Type 0} → Result A TokenError → Type 0
  OnErr (ok a) = Unit
  OnErr (err e) = RefreshReason e

  module _ (soon : expires_soon t w.now ≡ true) where
    save_error-OnError :
        (response : TokenResponse) (saved rotated : Option Text)
        → w.refresh_access_token t.refresh_token t.proxy_url ≡ ok response
        → w.save_refreshed_token t.account_id response ≡ saved
        → response.refresh_token ≡ rotated
        → OnError (save_error saved rotated)
    unfolding save_error
    save_error-OnError response none rotated e s r = tt
    save_error-OnError response (some x) none e s r = tt
    save_error-OnError response (some x) (some y) e s r = (soon, response, e, s, rw r refl)

    answered-OnError :
        (tm : TokenManager Float) (r : Result TokenResponse Text)
        → w.refresh_access_token t.refresh_token t.proxy_url ≡ r
        → OnError (answered w tm t r).2
    unfolding answered
    answered-OnError tm (ok response) e = save_error-OnError response _ _ e refl refl
    answered-OnError tm (err x) e = (soon, e)

    request_refresh-OnError : (tm : TokenManager Float) → OnError (request_refresh w tm t).2
    unfolding request_refresh
    request_refresh-OnError tm = elim (Bool-cases (not (is_some t.proxy_url) && w.enforce_proxy)) [
      | inl b ↦ rw b (soon, refl, ground arith, ground arith)
      | inr b ↦ rw b (answered-OnError tm _ refl)
    ]

    after_lock-OnError :
        (tm : TokenManager Float) (o : Option (ProxyToken Float)) → OnError (after_lock w tm t o).2
    unfolding after_lock
    after_lock-OnError tm none = request_refresh-OnError tm
    after_lock-OnError tm (some entry) =
        if-keeps (λ (out : Prepared Float). OnError out.2)
          (ltb_ℤ (add_i64 w.now (pos 300)) entry.timestamp) tt (request_refresh-OnError tm)

    try_refresh_token-OnError : (tm : TokenManager Float) → OnError (try_refresh_token w tm t).2
    unfolding try_refresh_token
    try_refresh_token-OnError tm =
        if-keeps (λ (out : Prepared Float). OnError out.2) (needs_refresh t w.now)
          (after_lock-OnError tm _) tt

  keep_refreshed-OnError : (out : Prepared Float) → OnError out.2 → OnError (keep_refreshed out).2
  unfolding keep_refreshed
  keep_refreshed-OnError (u, t', none) h = tt
  keep_refreshed-OnError (u, t', some e) h = h

  pub refreshed-OnError : (u : TokenManager Float) → OnError (refreshed w u t).2
  unfolding refreshed
  refreshed-OnError u = elim (Bool-cases (expires_soon t w.now)) [
    | inl soon ↦
        rw soon
          (keep_refreshed-OnError (try_refresh_token w u t) (try_refresh_token-OnError soon u))
    | inr late ↦ rw late tt
  ]

  -- What a refresh leaves as it was.
  abbrev pub Like : ProxyToken Float → Type 0
  Like t' = (t'.email ≡ t.email) × (t'.proxy_url ≡ t.proxy_url) × (t'.project_id ≡ t.project_id)

  try_refresh_token-Like : (u : TokenManager Float) → Like (try_refresh_token w u t).1
  unfolding try_refresh_token
  try_refresh_token-Like u = ground arith

  pub refreshed-Like : (u : TokenManager Float) → Like (refreshed w u t).1
  unfolding refreshed
  refreshed-Like u = ground (arith, try_refresh_token-Like u)

  fetch_project-OnErr :
      (u : TokenManager Float) (t' : ProxyToken Float)
      → unwrap_or t.project_id [] ≡ []
      → Like t'
      → OnErr (fetch_project w u t').2
  unfolding fetch_project
  fetch_project-OnErr u t' p s = elim (Bool-cases (not (is_some t'.proxy_url) && w.enforce_proxy)) [
    | inl b ↦ rw b (p, s.0, ground arith, ground arith)
    | inr b ↦ rw b tt
  ]

  known_project-OnErr :
      (u : TokenManager Float) (t' : ProxyToken Float) (o : Option Text)
      → t.project_id ≡ o
      → Like t'
      → OnErr (known_project w u t' o).2
  unfolding known_project
  known_project-OnErr u t' none e s = fetch_project-OnErr u t' (rw e refl) s
  known_project-OnErr u t' (some []) e s = fetch_project-OnErr u t' (rw e refl) s
  known_project-OnErr u t' (some (c ∷ pid)) e s = tt

  pub ensure_project_id-OnErr :
      (u : TokenManager Float) (t' : ProxyToken Float)
      → Like t'
      → OnErr (ensure_project_id w u t').2
  unfolding ensure_project_id
  ensure_project_id-OnErr u t' s = known_project-OnErr u t' t'.project_id (sym s.2) s
