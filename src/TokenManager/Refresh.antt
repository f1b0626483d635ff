-- ===== src/TokenManager/Refresh.antt =====
-- The refresh of an access token and the project of an account:
-- crates/antigravity-core/src/proxy/token_manager/token_refresh.rs.
-- The network and the disk answer as `Answers` says. The lock of the account is held from the
-- second look at the pool to the end, and other requests are not interleaved with that.
use antigravity_server.TokenManager.{ProxyToken, TokenManager, needs_refresh}
use antigravity_server.Prelude.Result.{Result, ok, err}
use antigravity_server.Prelude.Int.{ℤ, pos, add_i64, ltb_ℤ}
use antigravity_server.Prelude.Map.{modify, lookup, remove, text_key}
use antigravity_server.Prelude.Text.{Text, text, contains}
use antigravity_server.Prelude.{
  ℕ, Bool, Option, none, some, [], ◌∷◌, is_some, unwrap_or, not, ◌&&◌, ◌||◌, if◌then◌else◌,
}

-- `oauth::TokenResponse`.
pub record TokenResponse : Type 0 where
  pub access_token : Text
  pub expires_in : ℤ
  pub refresh_token : Option Text

-- What the strings of the errors say.
pub data TokenError : Type 0 where
  pool_empty all_accounts_failed acquisition_timeout : TokenError
  forced_not_found forced_rate_limited : Text → TokenError
  forced_at_capacity : Text → ℕ → TokenError
  blocked_refresh blocked_project_fetch : Text → TokenError
  rotated_not_saved refresh_failed : Text → TokenError
  failed_after_buffer : TokenError
  all_limited : ℕ → TokenError
  all_at_capacity no_guard_after_recovery : TokenError

-- The clock in seconds, the switch `enforce_proxy`, and what the calls outside the pool give.
pub record Answers : Type 0 where
  pub now : ℤ
  pub enforce_proxy : Bool
  pub refresh_access_token : Text → Option Text → Result TokenResponse Text
  pub save_refreshed_token : Text → TokenResponse → Option Text
  pub fetch_project_id : Text → Option Text → Result Text Text

abbrev pub default_project : Text
default_project = text "bamboo-precept-lgxtn"

-- A refresh token that could not be saved is an error only if it is a new one.
unfoldable pub save_error : Option Text → Option Text → Option TokenError
save_error none rotated = none
save_error (some e) none = none
save_error (some e) (some new_refresh) = some (rotated_not_saved e)

fetched : Result Text Text → Text
fetched (ok pid) = pid
fetched (err e) = default_project

module _ {Float : Type 0} (w : Answers) where
  -- A new access token, and a new refresh token if one came.
  unfoldable pub with_response : ProxyToken Float → TokenResponse → ProxyToken Float
  with_response token response = record token {
    access_token = response.access_token;
    expires_in = response.expires_in;
    timestamp = add_i64 w.now response.expires_in;
    refresh_token = unwrap_or response.refresh_token token.refresh_token;
  }

  unfoldable pub copy_credentials : ProxyToken Float → ProxyToken Float → ProxyToken Float
  copy_credentials token entry = record token {
    access_token = entry.access_token;
    expires_in = entry.expires_in;
    timestamp = entry.timestamp;
    refresh_token = entry.refresh_token;
  }

  unfoldable pub answered :
      TokenManager Float
      → ProxyToken Float
      → Result TokenResponse Text
      → TokenManager Float × ProxyToken Float × Option TokenError
  unfolding with_response save_error modify contains
  answered tm token (ok response) = (
    record tm {
      tokens = modify token.account_id (λ entry. with_response entry response) tm.tokens;
    },
    with_response token response,
    save_error (w.save_refreshed_token token.account_id response) response.refresh_token,
  )
  answered tm token (err e) = (
    if contains e (text "\"invalid_grant\"") || contains e (text "invalid_grant")
        then record tm { tokens = remove token.account_id tm.tokens }
        else tm,
    token,
    some (refresh_failed e),
  )

  unfoldable pub request_refresh :
      TokenManager Float
      → ProxyToken Float
      → TokenManager Float × ProxyToken Float × Option TokenError
  unfolding answered
  request_refresh tm token =
      if not (is_some token.proxy_url) && w.enforce_proxy
      then (tm, token, some (blocked_refresh token.email))
      else answered tm token (w.refresh_access_token token.refresh_token token.proxy_url)

  -- Another request may have refreshed the token while this one waited for the lock.
  unfoldable pub after_lock :
      TokenManager Float
      → ProxyToken Float
      → Option (ProxyToken Float)
      → TokenManager Float × ProxyToken Float × Option TokenError
  unfolding copy_credentials request_refresh
  after_lock tm token none = request_refresh tm token
  after_lock tm token (some entry) =
      if ltb_ℤ (add_i64 w.now (pos 300)) entry.timestamp
      then (tm, copy_credentials token entry, none)
      else request_refresh tm token

  unfoldable pub try_refresh_token :
      TokenManager Float
      → ProxyToken Float
      → TokenManager Float × ProxyToken Float × Option TokenError
  unfolding after_lock needs_refresh
  try_refresh_token tm token =
      if needs_refresh token w.now
      then after_lock tm token (lookup token.account_id tm.tokens)
      else (tm, token, none)

  set_project : TokenManager Float → Text → Text → TokenManager Float
  unfolding modify
  set_project tm account_id pid = record tm {
    tokens = modify account_id (λ entry. record entry { project_id = some pid }) tm.tokens;
  }

  unfoldable pub fetch_project :
      TokenManager Float
      → ProxyToken Float
      → TokenManager Float × ProxyToken Float × Result Text TokenError
  unfolding set_project fetched
  fetch_project tm token =
      if not (is_some token.proxy_url) && w.enforce_proxy
      then (tm, token, err (blocked_project_fetch token.email))
      else (let pid = fetched (w.fetch_project_id token.access_token token.proxy_url) in
          (set_project tm token.account_id pid, record token { project_id = some pid }, ok pid))

  unfoldable pub known_project :
      TokenManager Float
      → ProxyToken Float
      → Option Text
      → TokenManager Float × ProxyToken Float × Result Text TokenError
  unfolding fetch_project
  known_project tm token none = fetch_project tm token
  known_project tm token (some []) = fetch_project tm token
  known_project tm token (some (c ∷ pid)) = (tm, token, ok (c ∷ pid))

  unfoldable pub ensure_project_id :
      TokenManager Float
      → ProxyToken Float
      → TokenManager Float × ProxyToken Float × Result Text TokenError
  unfolding known_project
  ensure_project_id tm token = known_project tm token token.project_id
