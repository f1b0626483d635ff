-- ===== src/EndpointHealth/Examples.antt =====
-- The theorem on endpoints at a concrete history.
use antigravity_server.EndpointHealth.{should_skip}
use antigravity_server.EndpointHealth.Streaks.{
  Outcome, after, failed, last_failed, should_skip-after, streak, succeeded,
}
use antigravity_server.Prelude.{
  List, [], arith, from_secs, some, true, ℕ, ◌+◌, ◌<◌, ◌↔◌, ◌∷◌, ◌≡◌, ◌≤◌,
}

abbrev outcomes : List Outcome
outcomes = failed 50 ∷ failed 40 ∷ failed 30 ∷ failed 20 ∷ failed 10 ∷ succeeded ∷ []

should_skip-after_example : (should_skip (after outcomes) 60 ≡ true) ↔ (
    (5 ≤ streak outcomes)
    × (last : ℕ) × (last_failed outcomes ≡ some last)
    × (60 < last + from_secs 30))
should_skip-after_example = should_skip-after outcomes 60 (omega arith)
