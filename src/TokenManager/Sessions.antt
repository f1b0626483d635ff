-- ===== src/TokenManager/Sessions.antt =====
-- Sticky sessions and their failures: crates/antigravity-core/src/proxy/token_manager/session.rs.
use antigravity_server.TokenManager.{TokenManager}
use antigravity_server.Prelude.Map.{insert, lookup, remove, text_key}
use antigravity_server.Prelude.Text.{Text}
use antigravity_server.Prelude.{
  Bool, Option, [], if◌then◌else◌, leb, none, option_map, some, u32, unwrap_or, ℕ, ◌+◌,
}

abbrev pub session_failure_threshold : ℕ
session_failure_threshold = 3

module _ {Float : Type 0} where
  unfoldable pub get_session_failures : TokenManager Float → Text → ℕ
  get_session_failures tm session_id = unwrap_or (lookup session_id tm.session_failures) 0

  unfoldable pub record_session_failure : TokenManager Float → Text → TokenManager Float × ℕ
  unfolding get_session_failures
  record_session_failure tm session_id =
      let n = u32 (get_session_failures tm session_id + 1) in
      (record tm { session_failures = insert session_id n tm.session_failures }, n)

  unfoldable pub clear_session_failures : TokenManager Float → Text → TokenManager Float
  clear_session_failures tm session_id = record tm {
    session_failures = remove session_id tm.session_failures;
  }

  unfoldable pub clear_session_binding : TokenManager Float → Text → TokenManager Float
  clear_session_binding tm session_id = record tm {
    session_accounts = remove session_id tm.session_accounts;
  }

  unfoldable pub clear_all_sessions : TokenManager Float → TokenManager Float
  clear_all_sessions tm = record tm { session_accounts = [] }

  unfoldable pub should_unbind_session : TokenManager Float → Text → Bool
  unfolding get_session_failures
  should_unbind_session tm session_id =
      leb session_failure_threshold (get_session_failures tm session_id)

  unfoldable pub get_session_account : TokenManager Float → Text → Option Text
  get_session_account tm session_id = option_map (λ v. v.0) (lookup session_id tm.session_accounts)

  unfoldable pub unbound :
      TokenManager Float → Text → Option (Text × ℕ) → TokenManager Float × Option Text
  unfolding clear_session_binding clear_session_failures
  unbound tm session_id none = (tm, none)
  unbound tm session_id (some (bound_id, since)) =
      (clear_session_failures (clear_session_binding tm session_id) session_id, some bound_id)

  unfoldable pub unbind_session_on_failures :
      TokenManager Float → Text → TokenManager Float × Option Text
  unfolding unbound
  unbind_session_on_failures tm session_id =
      unbound tm session_id (lookup session_id tm.session_accounts)

  -- Binding again to the same account renews the time.
  unfoldable pub bind_session_to_account :
      TokenManager Float → Text → Text → Bool → ℕ → TokenManager Float
  bind_session_to_account tm session_id email enable_session_affinity now =
      if enable_session_affinity
      then record tm { session_accounts = insert session_id (email, now) tm.session_accounts }
      else tm
