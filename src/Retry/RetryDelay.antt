-- ===== src/Retry/RetryDelay.antt =====
-- The delay that the body of a 429 asks for: crates/antigravity-core/src/proxy/upstream/retry.rs.
use antigravity_server.Json.{FromStr, Items, Json, as_array, as_str, cons, get, nil, ◌>>=◌}
use antigravity_server.RateLimit.Parser.{◌or_else◌}
use antigravity_server.Prelude.Text.{Text, Text-discrete, contains, text}
use antigravity_server.Prelude.{
  List, Option, [], if◌then◌else◌, ite, none, option_map, some, ℕ, ◌∷◌,
}

-- The matches of the pattern (crate `regex`), as number and unit, and the arithmetic of `f64`.
pub record Durations : Type 1 where
  pub captures : Text → List (Text × Text)
  pub Float : Type 0
  pub parse : Text → Option Float
  pub zero_ms : Float
  pub plus : Float → Float → Float
  pub times : Float → ℕ → Float
  pub round : Float → ℕ

module _ (d : Durations) where
  -- An unknown unit adds nothing.
  add_ms : d.Float → Text → d.Float → d.Float
  unfolding Text-discrete
  add_ms sum unit value = ite (Text-discrete unit (text "ms")) (d.plus sum value) (
      ite (Text-discrete unit (text "s")) (d.plus sum (d.times value 1000)) (
        ite (Text-discrete unit (text "m")) (d.plus sum (d.times (d.times value 60) 1000)) (
          ite (Text-discrete unit (text "h"))
            (d.plus sum (d.times (d.times (d.times value 60) 60) 1000)) sum)))

  -- The sum of the captures, or `none` where a number does not parse.
  total_ms : d.Float → List (Text × Text) → Option d.Float
  unfolding add_ms
  total_ms sum [] = some sum
  total_ms sum ((value, unit) ∷ cs) = d.parse value >>= λ v. total_ms (add_ms sum unit v) cs

  rounded : List (Text × Text) → Option ℕ
  unfolding total_ms
  rounded [] = none
  rounded (c ∷ cs) = option_map d.round (total_ms d.zero_ms (c ∷ cs))

  unfoldable pub parse_duration_ms : Text → Option ℕ
  unfolding rounded
  parse_duration_ms s = rounded (d.captures s)

  -- `RetryInfo.retryDelay` of the first detail that has one.
  retry_info_delay : Json → Option Text
  unfolding contains get
  retry_info_delay detail = do
    t ← get (text "@type") detail
    type_str ← as_str t
    r ← get (text "retryDelay") detail
    delay ← as_str r
    if contains type_str (text "RetryInfo") then some delay else none

  quota_reset_delay : Json → Option Text
  unfolding get
  quota_reset_delay detail = do
    m ← get (text "metadata") detail
    q ← get (text "quotaResetDelay") m
    as_str q

  find_delay : (Json → Option Text) → Items → Option Text
  find_delay f nil = none
  find_delay f (cons x xs) = f x or_else find_delay f xs

  delay_in : Items → Option ℕ
  unfolding find_delay retry_info_delay quota_reset_delay parse_duration_ms
  delay_in details =
      (find_delay retry_info_delay details or_else find_delay quota_reset_delay details)
      >>= parse_duration_ms

  unfoldable pub parse_retry_delay : FromStr → Text → Option ℕ
  unfolding delay_in get
  parse_retry_delay from_str error_text = do
    json ← from_str error_text
    e ← get (text "error") json
    v ← get (text "details") e
    details ← as_array v
    delay_in details
