-- ===== src/TokenManager/Answered.antt =====
-- An attempt ends with a grant where an account is selected and the calls outside succeed.
use antigravity_server.TokenManager.{ProxyToken, TokenManager}
use antigravity_server.TokenManager.Refresh.{
  Answers, TokenResponse, answered, save_error, try_refresh_token, ensure_project_id,
}
use antigravity_server.TokenManager.Attempts.{
  Moment, Query, Attempt, Prepared, Ensured, stop, skip, bind, prepare, refreshed, with_token,
  with_project,
}
use antigravity_server.ActiveRequests.{ActiveRequestGuard}
use antigravity_server.Prelude.Result.{Result, ok, err, is_ok}
use antigravity_server.Prelude.Map.{text_key}
use antigravity_server.Prelude.Text.{Text}
use antigravity_server.Prelude.{◌≡◌, refl, ap, arith, true, false, Option, none, some}

-- The calls outside the pool succeed.
pub record AllAnswer (w : Answers) : Type 0 where
  pub no_enforcement : w.enforce_proxy ≡ false
  pub refreshes :
      (token : Text) (proxy : Option Text) → is_ok (w.refresh_access_token token proxy) ≡ true
  pub saves : (id : Text) (response : TokenResponse) → w.save_refreshed_token id response ≡ none

Result-cases {ℓ} : {A E : Type ℓ} (r : Result A E) → is_ok r ≡ true → (a : A) × (r ≡ ok a)
Result-cases (ok a) e = (a, refl)
Result-cases (err x) e = cc

-- The attempt ends with a grant.
abbrev pub Grants {ℓ} : {A : Type ℓ} → A × Attempt → Type 0
Grants (a, stop r) = is_ok r ≡ true
Grants (a, skip e email) = ⊥

module _ {Float : Type 0} (w : Answers) (answers : AllAnswer w) where
  answered-none :
      (tm : TokenManager Float) (t : ProxyToken Float)
      → (answered w tm t (w.refresh_access_token t.refresh_token t.proxy_url)).2 ≡ none
  unfolding answered
  answered-none tm t =
      let (response, e) =
        Result-cases (w.refresh_access_token t.refresh_token t.proxy_url)
          (answers.refreshes t.refresh_token t.proxy_url) in
      rw e (ap (λ o. save_error o response.refresh_token) (answers.saves t.account_id response))

  try_refresh_token-none :
      (tm : TokenManager Float) (t : ProxyToken Float) → (try_refresh_token w tm t).2 ≡ none
  unfolding try_refresh_token
  try_refresh_token-none tm t =
      let off = answers.no_enforcement in ground (arith, answered-none tm t)

  ensure_project_id-ok :
      (tm : TokenManager Float) (t : ProxyToken Float) → is_ok (ensure_project_id w tm t).2 ≡ true
  unfolding ensure_project_id
  ensure_project_id-ok tm t = let off = answers.no_enforcement in ground arith

  refreshed-none : (tm : TokenManager Float) (t : ProxyToken Float) → (refreshed w tm t).2 ≡ none
  unfolding refreshed
  refreshed-none tm t = ground (arith, try_refresh_token-none tm t)

  with_project-Grants :
      (g : ActiveRequestGuard) (out : Ensured Float)
      → is_ok out.2 ≡ true
      → Grants (with_project w g out)
  unfolding with_project
  with_project-Grants g (tm, t, ok pid) e = refl
  with_project-Grants g (tm, t, err x) e = cc

  with_token-Grants :
      (g : ActiveRequestGuard) (out : Prepared Float) → out.2 ≡ none → Grants (with_token w g out)
  unfolding with_token
  with_token-Grants g (tm, t, some x) e = cc
  with_token-Grants g (tm, t, none) e =
      with_project-Grants g (ensure_project_id w tm t) (ensure_project_id-ok tm t)

module _ {Float : Type 0} where
  pub prepare-Grants :
      (q : Query) (m : Moment Float) (tm : TokenManager Float) (t : ProxyToken Float)
      (g : ActiveRequestGuard)
      → AllAnswer m.answers
      → Grants (prepare q m tm t g)
  unfolding prepare
  prepare-Grants q m tm t g answers =
      let u = bind q.session_id m.clock tm t in
      with_token-Grants m.answers answers g (refreshed m.answers u t)
        (refreshed-none m.answers answers u t)
