-- ===== src/TokenManager/Samples.antt =====
-- A pool of two accounts, with scores that are numbers.
use antigravity_server.TokenManager.{AccountTier, ProxyToken, TokenManager, pro, ultra}
use antigravity_server.TokenManager.Selection.{PartialCmp, Request}
use antigravity_server.TokenManager.Priority.{IsScore}
use antigravity_server.Prelude.Int.{pos}
use antigravity_server.Prelude.Text.{Text, text}
use antigravity_server.Prelude.{List, [], arith, compare, none, some, true, ℕ, ◌∷◌}

abbrev pub score : PartialCmp ℕ
score a b = some (compare a b)

pub score-IsScore : IsScore score
score-IsScore = ((λ a b. ground arith), (λ a b d p q. ground arith))

abbrev pub token : Text → AccountTier → ℕ → ProxyToken ℕ
token email tier quota = record {
  account_id = email;
  access_token = [];
  refresh_token = [];
  expires_in = pos 3600;
  timestamp = pos 0;
  email = email;
  account_path = [];
  project_id = none;
  subscription_tier = none;
  remaining_quota = some (pos quota);
  protected_models = [];
  health_score = 1;
  available_models = [];
  proxy_url = none;
  cached_tier = tier;
}

abbrev pub a : Text
a = text "a"

abbrev pub b : Text
b = text "b"

abbrev pub tokens : List (ProxyToken ℕ)
tokens = token a pro 80 ∷ token b ultra 20 ∷ []

abbrev pub pool : TokenManager ℕ
pool = record {
  tokens = (a, token a pro 80) ∷ (b, token b ultra 20) ∷ [];
  rate_limit_tracker = record { limits = []; failure_counts = [] };
  active_requests = (b, 4) ∷ [];
  session_accounts = (text "s", (a, 5)) ∷ [];
  session_failures = [];
  preferred_account_id = none;
  routing_config = record {
    max_concurrent_per_account = 5;
    throttle_delay_ms = 100;
    enable_session_affinity = true;
  };
}

abbrev pub request : Request
request = record {
  attempted = [];
  normalized_target = text "gemini-3-flash";
  quota_protection_enabled = true;
  aimd = none;
  now = 1000;
}
