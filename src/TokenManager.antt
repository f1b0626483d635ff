-- ===== src/TokenManager.antt =====
-- The pool of accounts: crates/antigravity-core/src/proxy/token_manager.
-- `Float` is `f32`, with its `partial_cmp`. Of AIMD the pool asks only whether `usage_ratio` of an
-- account is above 1.2, which is a test on its address here.
pub mod Sessions
pub mod Selection
pub mod Priority
pub mod Candidates
pub mod Choice
pub mod Sticky
pub mod Recovery
pub mod Scan
pub mod Recovered
pub mod RateLimiting
pub mod Refresh
pub mod Attempts
pub mod GetToken
pub mod Forced
pub mod Taken
pub mod Settled
pub mod Search
pub mod Granted
pub mod Selects
pub mod Answered
pub mod Served
pub mod ForcedErrors
pub mod RefreshErrors
pub mod ErrorLocks
pub mod Touches
pub mod ResetTimes
mod Samples
mod Examples
mod GrantExamples
mod RateLimitExamples
use antigravity_server.RateLimit.{RateLimitTracker}
use antigravity_server.ActiveRequests.{Counters}
use antigravity_server.Prelude.Map.{Map}
use antigravity_server.Prelude.Text.{Text, text, contains}
use antigravity_server.Prelude.Int.{ℤ, sat_sub_i64, ltb_ℤ}
use antigravity_server.Prelude.{ℕ, Bool, Option, List, none, some, true, false, if◌then◌else◌, not}

pub data AccountTier : Type 0 where
  ultra_business ultra pro free unknown : AccountTier

unfoldable pub is_ultra : AccountTier → Bool
is_ultra ultra_business = true
is_ultra ultra = true
is_ultra _ = false

unfoldable pub priority : AccountTier → ℕ
priority ultra_business = 0
priority ultra = 1
priority pro = 2
priority free = 3
priority unknown = 4

pub record ProxyToken (Float : Type 0) : Type 0 where
  pub account_id : Text
  pub access_token : Text
  pub refresh_token : Text
  pub expires_in : ℤ
  pub timestamp : ℤ
  pub email : Text
  pub account_path : Text
  pub project_id : Option Text
  pub subscription_tier : Option Text
  pub remaining_quota : Option ℤ
  pub protected_models : List Text
  pub health_score : Float
  pub available_models : List Text
  pub proxy_url : Option Text
  pub cached_tier : AccountTier

unfoldable pub parse_tier : Option Text → AccountTier
unfolding contains
parse_tier none = unknown
parse_tier (some t) =
    if contains t (text "ultra-business")
    then ultra_business
    else if contains t (text "ultra")
    then ultra
    else if contains t (text "pro")
    then pro
    else if contains t (text "free")
    then free
    else unknown

unfoldable pub is_ultra_tier : {Float : Type 0} → ProxyToken Float → Bool
unfolding is_ultra
is_ultra_tier t = is_ultra t.cached_tier

unfoldable pub tier_priority : {Float : Type 0} → ProxyToken Float → ℕ
unfolding priority
tier_priority t = priority t.cached_tier

unfoldable pub needs_refresh : {Float : Type 0} → ProxyToken Float → ℤ → Bool
needs_refresh t now = not (ltb_ℤ now (sat_sub_i64 t.timestamp 300))

pub record SmartRoutingConfig : Type 0 where
  pub max_concurrent_per_account : ℕ
  pub throttle_delay_ms : ℕ
  pub enable_session_affinity : Bool

pub record TokenManager (Float : Type 0) : Type 0 where
  pub tokens : Map Text (ProxyToken Float)
  pub rate_limit_tracker : RateLimitTracker
  pub active_requests : Counters
  pub session_accounts : Map Text (Text × ℕ)
  pub session_failures : Map Text ℕ
  pub preferred_account_id : Option Text
  pub routing_config : SmartRoutingConfig
