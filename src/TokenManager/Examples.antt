-- ===== src/TokenManager/Examples.antt =====
-- The theorems on the choice of an account at a concrete pool, with scores that are numbers.
use antigravity_server.TokenManager.Selection.{is_candidate_eligible, try_scored_selection}
use antigravity_server.TokenManager.Choice.{IsBest, try_scored_selection-IsBest}
use antigravity_server.TokenManager.Samples.{pool, request, score, score-IsScore, tokens}
use antigravity_server.ActiveRequests.{load}
use antigravity_server.Prelude.{true}

try_scored_selection-IsBest_example :
    IsBest score
      (load pool.active_requests)
      5
      (is_candidate_eligible score pool request true true)
      tokens
      (try_scored_selection score pool request tokens).1
try_scored_selection-IsBest_example =
    try_scored_selection-IsBest score pool request tokens score-IsScore
