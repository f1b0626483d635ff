-- ===== src/TokenManager/GrantExamples.antt =====
-- The theorems on granted tokens at the concrete pool.
use mathlib.Core.List.{Memᴰ}
use antigravity_server.TokenManager.{pro}
use antigravity_server.TokenManager.Samples.{a, b, pool, score, score-IsScore, token}
use antigravity_server.TokenManager.Selection.{
  is_candidate_eligible, is_model_protected, contains_text,
}
use antigravity_server.TokenManager.Refresh.{Answers}
use antigravity_server.TokenManager.Attempts.{Moment, Query, values}
use antigravity_server.TokenManager.GetToken.{get_token_internal}
use antigravity_server.TokenManager.Forced.{get_token_forced}
use antigravity_server.TokenManager.Settled.{Settles}
use antigravity_server.TokenManager.Granted.{Allowed, get_token_internal-Settles}
use antigravity_server.TokenManager.Served.{get_token_internal-is_ok}
use antigravity_server.TokenManager.ForcedErrors.{Explains, get_token_forced-Explains}
use antigravity_server.RateLimit.{is_rate_limited_for_model}
use antigravity_server.ActiveRequests.{load}
use antigravity_server.Prelude.Result.{ok, err, is_ok}
use antigravity_server.Prelude.Int.{pos}
use antigravity_server.Prelude.Map.{lookup, text_key}
use antigravity_server.Prelude.Text.{Text-discrete, text}
use antigravity_server.Prelude.{ℕ, ◌≡◌, refl, arith, true, false, none, some, [], ◌∷◌}

abbrev answers : Answers
answers = record {
  now = pos 1_000_000;
  enforce_proxy = false;
  refresh_access_token =
      λ t p. ok (record { access_token = text "new"; expires_in = pos 3600; refresh_token = none });
  save_refreshed_token = λ id response. none;
  fetch_project_id = λ t p. err (text "unreachable");
}

abbrev moment : Moment ℕ
moment = record { clock = 1000; answers = answers; slept = λ tm. tm }

abbrev query : Query
query = record {
  force_rotate = false;
  session_id = some (text "s");
  normalized_target = text "gemini-3-flash";
  exclude_accounts = some (b ∷ []);
  quota_protection_enabled = true;
  aimd = none;
}

get_token_internal-Settles_example :
    Settles
      (Allowed query none)
      (load pool.active_requests)
      (get_token_internal score query (λ i. moment) pool)
get_token_internal-Settles_example =
    get_token_internal-Settles score query (λ i. moment) pool (λ i tm j. refl)

get_token_internal-is_ok_example :
    is_ok (get_token_internal score query (λ i. moment) pool).1 ≡ true
unfolding values is_candidate_eligible is_model_protected is_rate_limited_for_model contains_text
    lookup Text-discrete
get_token_internal-is_ok_example =
    get_token_internal-is_ok score query (λ i. moment) pool (token a pro 80) score-IsScore
      (record { no_enforcement = refl; refreshes = λ t p. refl; saves = λ id response. refl }) refl
      (record { present = Memᴰ.head refl; eligible = refl; room = omega arith })

get_token_forced-Explains_example :
    let out = get_token_forced (λ e. e) (text "a") moment pool in
    Explains (λ e. e) (text "a") moment pool out.1
    × Settles (λ e. e ≡ text "a") (load pool.active_requests) out
get_token_forced-Explains_example = get_token_forced-Explains (λ e. e) (text "a") moment pool
