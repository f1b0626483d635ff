-- ===== src/ActiveRequests/Examples.antt =====
-- The theorems on slots at concrete counters.
use antigravity_server.ActiveRequests.{Counters}
use antigravity_server.ActiveRequests.Interleaving.{
  Race, Reach, Reach-holders, Thread, exchange, exchange_fails, here, holders, holding, load_low,
  loaded, next, outside, start,
}
use antigravity_server.Prelude.Text.{Text, text}
use antigravity_server.Prelude.{List, [], arith, refl, ℕ, ◌∷◌, ◌≡◌, ◌≤◌}

abbrev acct : Text
acct = text "a@example.com"

abbrev other : Text
other = text "b@example.com"

abbrev counters : Counters
counters = (acct, 1) ∷ (other, 4) ∷ []

-- Two threads read 0 before either of them takes the one slot; the second exchange fails.
abbrev race : ℕ → List Thread → Race
race n ts = record { counter = n; threads = ts }

race-Reach : Reach 1 (start 2) (race 1 (holding ∷ outside ∷ []))
race-Reach =
    next
      (next
        (next (next here (load_low [] (outside ∷ []) refl (omega arith) refl))
          (load_low (loaded 0 ∷ []) [] refl (omega arith) refl))
        (exchange [] (loaded 0 ∷ []) 0 refl refl refl))
      (exchange_fails (holding ∷ []) [] 0 refl refl)

Reach-holders_example :
    (1 ≡ holders (holding ∷ outside ∷ [])) × (holders (holding ∷ outside ∷ []) ≤ 1)
Reach-holders_example = Reach-holders 1 2 (race 1 (holding ∷ outside ∷ [])) race-Reach
