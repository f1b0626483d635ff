-- ===== src/AdaptiveLimit/Examples.antt =====
-- The theorems on the limits with numbers in hundredths in place of `f64`.
use antigravity_server.AdaptiveLimit.{
  AdaptiveLimitTracker, AimdController, FloatOps, confidence, penalize, record_429,
}
use antigravity_server.AdaptiveLimit.Invariant.{
  Event, IsController, error, expansion, success, usage,
}
use antigravity_server.AdaptiveLimit.Manager.{new_manager}
use antigravity_server.AdaptiveLimit.Managed.{
  Call, IsManager, calls, calls_new-IsManager, load, on_429, on_success,
}
use antigravity_server.Prelude.Text.{text}
use antigravity_server.Prelude.{◌^◌, ℕ, ◌+◌, ◌*◌, ◌/◌, ◌≡◌, ◌≤◌, List, [], ◌∷◌, arith, ltb, refl}

abbrev hundredths : FloatOps ℕ
hundredths = record {
  mul_floor = λ n x. n * x / 100;
  grow = λ n x. (n * (100 + x) + 50) / 100;
  div = λ a b. a * 100 / b;
  hundredths = λ n. n;
  lt = ltb;
}

abbrev controller : AimdController ℕ
controller = record {
  additive_increase = 5;
  multiplicative_decrease = 70;
  min_limit = 10;
  max_limit = 1000;
}

controller-IsController : IsController hundredths controller
controller-IsController = record {
  falls = λ n. omega arith;
  rises = λ n. omega arith;
  ordered = omega arith;
}

confidence_fades : (n hours : ℕ) → n ≤ 2 ^ 53 → n * confidence hundredths hours / 100 ≤ n
unfolding confidence
confidence_fades n hours small = ground arith

abbrev events : List (Event hundredths)
events = success 5 ∷ error 429 7 ∷ expansion 8 ∷ usage 9 ∷ []

-- A limit of 100, of which 85 requests are let through, with 90 in this minute.
abbrev busy : AdaptiveLimitTracker ℕ
busy = record {
  confirmed_limit = 100;
  working_threshold = 85;
  ceiling = 100;
  requests_this_minute = 90;
  minute_started_at = 0;
  last_calibration = 0;
  consecutive_above_threshold = 0;
  safety_margin = 85;
  aimd = controller;
}

-- The limit after a 429 may be over the greatest one.
over_the_greatest :
    (record_429 hundredths (record busy { requests_this_minute = 2000 }) 4).confirmed_limit ≡ 1400
unfolding record_429 penalize
over_the_greatest = refl

abbrev history : List (Call hundredths)
history = load (text "a") 60 80 7200 1 ∷ on_success (text "a") 2 ∷ on_429 (text "b") 3 ∷ []

calls_new-IsManager_example :
    IsManager hundredths controller
      (calls hundredths (new_manager hundredths 85 controller) history)
calls_new-IsManager_example =
    calls_new-IsManager hundredths controller 85 history controller-IsController confidence_fades
      ((omega arith, omega arith, omega arith), (tt, (tt, tt)))
