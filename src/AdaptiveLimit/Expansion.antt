-- ===== src/AdaptiveLimit/Expansion.antt =====
-- When the limit of an account grows, and when it falls.
use antigravity_server.AdaptiveLimit.{
  AdaptiveLimitTracker, FloatOps, above_threshold, count_success, cut_limit, expand_limit,
  maybe_reset_minute, penalize, record_429, record_success, reward,
}
use antigravity_server.Prelude.{
  ℕ, ◌+◌, ◌-◌, ◌^◌, ◌≡◌, ◌≤◌, ◌<◌, ◌∙◌, refl, ap, arith, max, from_secs,
}

module _ {Float : Type 0} (ops : FloatOps Float) where
  -- The minute of a tracker is not over, and the count of its requests is at the threshold.
  pub record IsBusy (t : AdaptiveLimitTracker Float) (now : ℕ) : Type 0 where
    pub in_minute : now - t.minute_started_at < from_secs 60
    pub over : t.working_threshold ≤ t.requests_this_minute
    pub counts : t.requests_this_minute + 3 < 2 ^ 64

  same_minute :
      (t : AdaptiveLimitTracker Float) (now : ℕ)
      → now - t.minute_started_at < from_secs 60
      → maybe_reset_minute ops t now ≡ t
  unfolding maybe_reset_minute
  same_minute t now h = ground arith

  waits :
      (t : AdaptiveLimitTracker Float) (now : ℕ)
      → now - t.minute_started_at < from_secs 60
      → t.working_threshold ≤ t.requests_this_minute
      → t.requests_this_minute + 1 < 2 ^ 64
      → t.consecutive_above_threshold < 2
      → record_success ops t now ≡ record t {
        requests_this_minute = t.requests_this_minute + 1;
        consecutive_above_threshold = t.consecutive_above_threshold + 1;
      }
  unfolding record_success count_success above_threshold
  waits t now m h s c = ap (λ u. count_success ops u now) (same_minute t now m) ∙ ground arith

  expands :
      (t : AdaptiveLimitTracker Float) (now : ℕ)
      → now - t.minute_started_at < from_secs 60
      → t.working_threshold ≤ t.requests_this_minute
      → t.requests_this_minute + 1 < 2 ^ 64
      → t.consecutive_above_threshold ≡ 2
      → record_success ops t now ≡ record (expand_limit ops t now) {
        requests_this_minute = t.requests_this_minute + 1;
        consecutive_above_threshold = 0;
      }
  unfolding record_success count_success above_threshold expand_limit
  expands t now m h s c = ap (λ u. count_success ops u now) (same_minute t now m) ∙ ground arith

  -- Of three successes in a row in one minute at or over the threshold, the first two leave the
  -- limit and the threshold, and the third raises the limit to the reward of the controller, with
  -- the threshold that belongs to it and the ceiling at least there; a 429 that follows in the
  -- minute cuts the greater of that limit and the count of requests, which is then the ceiling.
  pub record_success-expands :
      (t : AdaptiveLimitTracker Float) (first second third fourth : ℕ)
      → IsBusy t first
      → second - t.minute_started_at < from_secs 60
      → third - t.minute_started_at < from_secs 60
      → fourth - t.minute_started_at < from_secs 60
      → t.consecutive_above_threshold ≡ 0
      → let t2 = record_success ops (record_success ops t first) second in
        let t3 = record_success ops t2 third in
        let t4 = record_429 ops t3 fourth in
        let limit = reward ops t.aimd t.confirmed_limit in
        let hit = max (t.requests_this_minute + 3) limit in
        (t2.confirmed_limit ≡ t.confirmed_limit)
        × (t2.working_threshold ≡ t.working_threshold)
        × (t3.confirmed_limit ≡ limit)
        × (t3.working_threshold ≡ ops.mul_floor limit t.safety_margin)
        × (t3.ceiling ≡ max t.ceiling limit)
        × (t4.confirmed_limit ≡ penalize ops t.aimd hit)
        × (t4.ceiling ≡ hit)
  unfolding expand_limit cut_limit record_429
  record_success-expands t first second third fourth busy in_second in_third in_fourth start =
      let n = t.requests_this_minute in
      let k = t.consecutive_above_threshold in
      let t1 = record t { requests_this_minute = n + 1; consecutive_above_threshold = k + 1 } in
      let t2 = record t1 {
        requests_this_minute = n + 1 + 1;
        consecutive_above_threshold = k + 1 + 1;
      } in
      let t3 = record (expand_limit ops t2 third) {
        requests_this_minute = n + 1 + 1 + 1;
        consecutive_above_threshold = 0;
      } in
      let in_first = busy.in_minute in
      let over = busy.over in
      let counts = busy.counts in
      let e1 : record_success ops t first ≡ t1 =
        waits t first in_first over (omega arith) (omega arith) in
      let e2 : record_success ops t1 second ≡ t2 =
        waits t1 second in_second (omega arith) (omega arith) (omega arith) in
      let e3 : record_success ops t2 third ≡ t3 =
        expands t2 third in_third (omega arith) (omega arith) (omega arith) in
      let e4 : maybe_reset_minute ops t3 fourth ≡ t3 = same_minute t3 fourth in_fourth in
      rw (e1, e2, e3, e4)
        (refl, refl, refl, refl, refl, ap (penalize ops t.aimd) (omega arith), omega arith)
