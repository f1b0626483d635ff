-- ===== src/RateLimit/Parser.antt =====
-- Retry times in the body of an error: crates/antigravity-core/src/proxy/rate_limit/parser.rs.
use antigravity_server.Prelude.Text.{Text, parse_u64, starts_with, text, trim}
use antigravity_server.Prelude.{
  Bool, Option, if◌then◌else◌, is_some, none, some, unwrap_or, ℕ, ◌%◌, ◌*◌, ◌+◌, ◌^◌, ◌||◌,
}
use antigravity_server.Json.{FromStr, Json, as_array, as_str, as_u64, first, get, ◌>>=◌}

-- The captures of the six patterns (crate `regex`), and floating point on a captured decimal: its
-- value rounded up, as seconds or as milliseconds, where it parses as an `f64`.
pub record Patterns : Type 0 where
  pub duration : Text → Option (Option Text × Option Text × Option Text × Option Text)
  pub retry_m_s : Text → Option (Text × Text)
  pub retry_s : Text → Option Text
  pub quota_reset : Text → Option Text
  pub retry_after : Text → Option Text
  pub wait_paren : Text → Option Text
  pub ceil_seconds : Text → Option ℕ
  pub ceil_milliseconds : Text → Option ℕ

abbrev value_or_zero : (Text → Option ℕ) → Option Text → ℕ
value_or_zero parse m = unwrap_or (m >>= parse) 0

-- Sums of `u64` wrap.
abbrev u64 : ℕ → ℕ
u64 n = n % 2 ^ 64

duration_of : Patterns → Option (Option Text × Option Text × Option Text × Option Text) → Option ℕ
unfolding parse_u64
duration_of p none = none
duration_of p (some (h, m, s, ms)) =
    if is_some h || is_some m || is_some s || is_some ms
    then some (
        u64 (
          value_or_zero parse_u64 h * 3600
          + value_or_zero parse_u64 m * 60
          + value_or_zero p.ceil_seconds s
          + value_or_zero p.ceil_milliseconds ms))
    else none

unfoldable pub parse_duration_string : Patterns → Text → Option ℕ
unfolding duration_of
parse_duration_string p s = duration_of p (p.duration s)

-- `a` if there is one, else `b`: the early returns of the source.
infixr 30 ◌or_else◌
abbrev pub ◌or_else◌ {ℓ} : {A : Type ℓ} → Option A → Option A → Option A
none or_else b = b
some a or_else b = some a

looks_like_json : Text → Bool
looks_like_json s = starts_with s (text "{") || starts_with s (text "[")

first_detail : Json → Option Json
first_detail json = do
  e ← get (text "error") json
  d ← get (text "details") e
  a ← as_array d
  first a

retry_in_json : Patterns → Json → Option ℕ
unfolding first_detail parse_duration_string
retry_in_json p json =
    (do
      o ← first_detail json
      m ← get (text "metadata") o
      v ← get (text "quotaResetDelay") m
      s ← as_str v
      parse_duration_string p s)
    or_else (do e ← get (text "error") json; v ← get (text "retry_after") e; as_u64 v)

-- `m * 60 + s`, where both numbers parse.
minutes_seconds : Text × Text → Option ℕ
minutes_seconds (m, s) = do m' ← parse_u64 m; s' ← parse_u64 s; some (u64 (m' * 60 + s'))

unfoldable pub parse_retry_time_from_body : Patterns → FromStr → Text → Option ℕ
unfolding retry_in_json minutes_seconds looks_like_json trim starts_with
parse_retry_time_from_body p from_str body =
    let trimmed = trim body in
    (if looks_like_json trimmed then from_str trimmed >>= retry_in_json p else none)
    or_else (p.retry_m_s body >>= minutes_seconds)
    or_else (p.retry_s body >>= parse_u64)
    or_else (p.quota_reset body >>= parse_u64)
    or_else (p.retry_after body >>= parse_u64)
    or_else (p.wait_paren body >>= parse_u64)
