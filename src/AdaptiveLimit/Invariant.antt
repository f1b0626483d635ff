-- ===== src/AdaptiveLimit/Invariant.antt =====
-- The limits of an account keep their order.
use antigravity_server.AdaptiveLimit.{
  AdaptiveLimitTracker, AimdController, FloatOps, expand_limit, force_expand, maybe_reset_minute,
  new, penalize, above_threshold, count_success, cut_limit, probe_strategy, record_429,
  record_error, record_success, reward, should_allow, usage_ratio, u64,
}
use antigravity_server.Prelude.{
  ℕ, ◌+◌, ◌≡◌, ◌≤◌, ◌<◌, refl, arith, max, List, [], ◌∷◌, ltb, ◌==◌, if-keeps,
}

-- What the code relies on of a controller and the operations of `f64`: to decrease does not raise a
-- limit, to increase does not lower it.
pub record IsController {Float : Type 0} (ops : FloatOps Float) (c : AimdController Float)
    : Type 0 where
  pub falls : (n : ℕ) → ops.mul_floor n c.multiplicative_decrease ≤ n
  pub rises : (n : ℕ) → n ≤ ops.grow n c.additive_increase
  pub ordered : c.min_limit ≤ c.max_limit

module _ {Float : Type 0} (ops : FloatOps Float) where
  -- The limit is at least the least one and at most the ceiling, the threshold is the limit less
  -- the margin, and fewer than three successes in a row are waiting.
  pub record IsTracker (aimd : AimdController Float) (t : AdaptiveLimitTracker Float) : Type 0 where
    pub controller : t.aimd ≡ aimd
    pub least : aimd.min_limit ≤ t.confirmed_limit
    pub below : t.confirmed_limit ≤ t.ceiling
    pub margin : t.working_threshold ≡ ops.mul_floor t.confirmed_limit t.safety_margin
    pub waiting : t.consecutive_above_threshold < 3

  -- A step of a tracker, at a time.
  pub data Event : Type 0 where
    success : ℕ → Event
    error : ℕ → ℕ → Event
    expansion : ℕ → Event
    usage probe admission : ℕ → Event

  unfoldable pub step : AdaptiveLimitTracker Float → Event → AdaptiveLimitTracker Float
  unfolding record_success record_error force_expand usage_ratio probe_strategy should_allow
  step t (success now) = record_success ops t now
  step t (error status_code now) = record_error ops t status_code now
  step t (expansion now) = force_expand ops t now
  step t (usage now) = (usage_ratio ops t now).0
  step t (probe now) = (probe_strategy ops t now).0
  step t (admission now) = (should_allow ops t now).0

  unfoldable pub run : AdaptiveLimitTracker Float → List Event → AdaptiveLimitTracker Float
  run t [] = t
  run t (e ∷ es) = run (step t e) es

  module _ (aimd : AimdController Float) (c : IsController ops aimd) where
    pub new-IsTracker :
        (safety_margin : Float) (now : ℕ) → IsTracker aimd (new ops safety_margin aimd now)
    unfolding new
    new-IsTracker safety_margin now =
        let o = c.ordered in
        record {
          controller = refl;
          least = omega arith;
          below = omega arith;
          margin = refl;
          waiting = omega arith;
        }

    counted :
        (t : AdaptiveLimitTracker Float) {n : ℕ}
        → IsTracker aimd t
        → IsTracker aimd (record t { requests_this_minute = n })
    counted t h = ground arith

    settled :
        (t : AdaptiveLimitTracker Float)
        → IsTracker aimd t
        → IsTracker aimd (record t { consecutive_above_threshold = 0 })
    settled t h = ground arith

    maybe_reset_minute-IsTracker :
        (t : AdaptiveLimitTracker Float) (now : ℕ)
        → IsTracker aimd t
        → IsTracker aimd (maybe_reset_minute ops t now)
    unfolding maybe_reset_minute
    maybe_reset_minute-IsTracker t now h = ground arith

    expand_limit-IsTracker :
        (t : AdaptiveLimitTracker Float) (now : ℕ)
        → IsTracker aimd t
        → IsTracker aimd (expand_limit ops t now)
    unfolding expand_limit reward
    expand_limit-IsTracker t now h =
        let o = c.ordered in let r = c.rises t.confirmed_limit in ground arith

    above_threshold-IsTracker :
        (t : AdaptiveLimitTracker Float) (now : ℕ)
        → IsTracker aimd t
        → IsTracker aimd (above_threshold ops t now)
    unfolding above_threshold
    above_threshold-IsTracker t now h = ground (arith, expand_limit-IsTracker t now h)

    count_success-IsTracker :
        (t : AdaptiveLimitTracker Float) (now : ℕ)
        → IsTracker aimd t
        → IsTracker aimd (count_success ops t now)
    unfolding count_success
    count_success-IsTracker t now h =
        let t' = record t { requests_this_minute = u64 (t.requests_this_minute + 1) } in
        if-keeps (IsTracker aimd) (ltb t.working_threshold (u64 (t.requests_this_minute + 1)))
          (above_threshold-IsTracker t' now (counted t h)) (counted t h)

    cut_limit-IsTracker :
        (t : AdaptiveLimitTracker Float) (now : ℕ)
        → IsTracker aimd t
        → IsTracker aimd (cut_limit ops t now)
    unfolding cut_limit penalize
    cut_limit-IsTracker t now h =
        let actual = max t.requests_this_minute t.confirmed_limit in
        let f = c.falls actual in ground arith

    pub record_429-IsTracker :
        (t : AdaptiveLimitTracker Float) (now : ℕ)
        → IsTracker aimd t
        → IsTracker aimd (record_429 ops t now)
    unfolding record_429
    record_429-IsTracker t now h =
        cut_limit-IsTracker (maybe_reset_minute ops t now) now
          (maybe_reset_minute-IsTracker t now h)

    record_error-IsTracker :
        (t : AdaptiveLimitTracker Float) (status_code now : ℕ)
        → IsTracker aimd t
        → IsTracker aimd (record_error ops t status_code now)
    unfolding record_error
    record_error-IsTracker t status_code now h =
        let t' = record t { consecutive_above_threshold = 0 } in
        if-keeps (IsTracker aimd) (status_code == 429) (record_429-IsTracker t' now (settled t h))
          (settled t h)

    pub step-IsTracker :
        (t : AdaptiveLimitTracker Float) (e : Event) → IsTracker aimd t → IsTracker aimd (step t e)
    unfolding step record_success force_expand usage_ratio probe_strategy should_allow
    step-IsTracker t (success now) h =
        count_success-IsTracker (maybe_reset_minute ops t now) now
          (maybe_reset_minute-IsTracker t now h)
    step-IsTracker t (error status_code now) h = record_error-IsTracker t status_code now h
    step-IsTracker t (expansion now) h = expand_limit-IsTracker t now h
    step-IsTracker t (usage now) h = maybe_reset_minute-IsTracker t now h
    step-IsTracker t (probe now) h = maybe_reset_minute-IsTracker t now h
    step-IsTracker t (admission now) h = maybe_reset_minute-IsTracker t now h

    steps-IsTracker :
        (t : AdaptiveLimitTracker Float) (es : List Event)
        → IsTracker aimd t
        → IsTracker aimd (run t es)
    unfolding run
    steps-IsTracker t [] h = h
    steps-IsTracker t (e ∷ es) h = steps-IsTracker (step t e) es (step-IsTracker t e h)

  -- With a controller whose decrease does not raise a limit and whose increase does not lower one,
  -- a new tracker keeps, through any successes, errors, expansions and queries, a limit of at
  -- least the least and at most the ceiling, a threshold that is the limit less the margin, and
  -- fewer than three successes that wait for an expansion.
  pub run-IsTracker :
      (aimd : AimdController Float) (safety_margin : Float) (now : ℕ) (es : List Event)
      → IsController ops aimd
      → IsTracker aimd (run (new ops safety_margin aimd now) es)
  run-IsTracker aimd safety_margin now es c =
      steps-IsTracker aimd c (new ops safety_margin aimd now) es
        (new-IsTracker aimd c safety_margin now)
