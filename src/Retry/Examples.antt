-- ===== src/Retry/Examples.antt =====
-- The theorems on retries at concrete answers.
use antigravity_server.Retry.{apply_retry_strategy, determine_retry_strategy, on_rate_limit, openai}
use antigravity_server.Retry.Delays.{delay_bound, delay_bounded}
use antigravity_server.Prelude.Text.{Text, text}
use antigravity_server.Prelude.{Bool, Option, false, from_millis, refl, some, ℕ, ◌≤◌}

abbrev body : Text
body = text "overloaded"

abbrev asks : Text → Option ℕ
asks s = some 1204

abbrev status : ℕ
status = 503

abbrev retried : Bool
retried = false

delay_bounded_example : from_millis 1404 ≤ delay_bound openai 429 0
unfolding openai determine_retry_strategy apply_retry_strategy on_rate_limit
delay_bounded_example = delay_bounded asks 429 body false openai 0 (from_millis 1404) refl
