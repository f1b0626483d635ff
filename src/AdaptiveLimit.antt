-- ===== src/AdaptiveLimit.antt =====
-- The adaptive limit of requests per minute of each account:
-- crates/antigravity-core/src/proxy/adaptive_limit (aimd.rs, tracker.rs, manager.rs).
-- The steps are taken one after another; `now` is `Instant::now()`. `f64` is a parameter with the
-- operations that the code uses of it. Metrics and logs are left out.
pub mod Invariant
pub mod Expansion
pub mod Manager
pub mod Managed
mod Examples
use antigravity_server.Prelude.Map.{Map, insert, lookup, text_key}
use antigravity_server.Prelude.Text.{Text}
use antigravity_server.Prelude.{
  ℕ, ◌+◌, ◌-◌, ◌/◌, ◌%◌, ◌^◌, min, max, Bool, true, false, ◌&&◌, Option, none, some, List, [], ◌∷◌,
  map, leb, ltb, ◌==◌, if◌then◌else◌, from_secs,
}

-- `mul_floor n x` is `(n as f64 * x).floor() as u64`, `grow n x` is
-- `(n as f64 * (1.0 + x)).round() as u64`, `div a b` is `a as f64 / b as f64`, and `hundredths`
-- gives the literals. `as u64` truncates as `floor` does, where no number is negative.
pub record FloatOps (Float : Type 0) : Type 0 where
  pub mul_floor : ℕ → Float → ℕ
  pub grow : ℕ → Float → ℕ
  pub div : ℕ → ℕ → Float
  pub hundredths : ℕ → Float
  pub lt : Float → Float → Bool

pub record AimdController (Float : Type 0) : Type 0 where
  pub additive_increase : Float
  pub multiplicative_decrease : Float
  pub min_limit : ℕ
  pub max_limit : ℕ

pub data ProbeStrategy : Type 0 where
  no_probe cheap_probe delayed_hedge immediate_hedge : ProbeStrategy

unfoldable pub needs_secondary : ProbeStrategy → Bool
needs_secondary delayed_hedge = true
needs_secondary immediate_hedge = true
needs_secondary _ = false

unfoldable pub is_fire_and_forget : ProbeStrategy → Bool
is_fire_and_forget cheap_probe = true
is_fire_and_forget _ = false

pub record AdaptiveLimitTracker (Float : Type 0) : Type 0 where
  pub confirmed_limit : ℕ
  pub working_threshold : ℕ
  pub ceiling : ℕ
  pub requests_this_minute : ℕ
  pub minute_started_at : ℕ
  pub last_calibration : ℕ
  pub consecutive_above_threshold : ℕ
  pub safety_margin : Float
  pub aimd : AimdController Float

-- `fetch_add` of an `AtomicU64`.
abbrev pub u64 : ℕ → ℕ
u64 n = n % 2 ^ 64

module _ {Float : Type 0} (ops : FloatOps Float) where
  unfoldable pub default_controller : AimdController Float
  default_controller = record {
    additive_increase = ops.hundredths 5;
    multiplicative_decrease = ops.hundredths 70;
    min_limit = 10;
    max_limit = 1000;
  }

  unfoldable pub reward : AimdController Float → ℕ → ℕ
  reward c current = min (ops.grow current c.additive_increase) c.max_limit

  unfoldable pub penalize : AimdController Float → ℕ → ℕ
  penalize c current = max (ops.mul_floor current c.multiplicative_decrease) c.min_limit

  unfoldable pub from_usage_ratio : Float → ProbeStrategy
  from_usage_ratio ratio =
      if ops.lt ratio (ops.hundredths 70)
      then no_probe
      else if ops.lt ratio (ops.hundredths 85)
      then cheap_probe
      else if ops.lt ratio (ops.hundredths 95)
      then delayed_hedge
      else immediate_hedge

  unfoldable pub new : Float → AimdController Float → ℕ → AdaptiveLimitTracker Float
  new safety_margin aimd now =
      let default_limit = min (max aimd.min_limit 15) aimd.max_limit in
      record {
        confirmed_limit = default_limit;
        working_threshold = ops.mul_floor default_limit safety_margin;
        ceiling = default_limit;
        requests_this_minute = 0;
        minute_started_at = now;
        last_calibration = if leb (from_secs 3600) now then now - from_secs 3600 else now;
        consecutive_above_threshold = 0;
        safety_margin = safety_margin;
        aimd = aimd;
      }

  unfoldable pub confidence : ℕ → Float
  confidence age_hours =
      if leb age_hours 1
      then ops.hundredths 100
      else if leb age_hours 6
      then ops.hundredths 90
      else if leb age_hours 24
      then ops.hundredths 70
      else ops.hundredths 50

  unfoldable pub from_persisted :
      (confirmed_limit ceiling age_seconds : ℕ)
      → Float
      → AimdController Float
      → ℕ
      → AdaptiveLimitTracker Float
  unfolding confidence new
  from_persisted confirmed_limit ceiling age_seconds safety_margin aimd now =
      let scaled = ops.mul_floor confirmed_limit (confidence (age_seconds / 3600)) in
      let effective_limit = min (max scaled aimd.min_limit) aimd.max_limit in
      record (new safety_margin aimd now) {
        confirmed_limit = effective_limit;
        working_threshold = ops.mul_floor effective_limit safety_margin;
        ceiling = ceiling;
      }

  unfoldable pub maybe_reset_minute : AdaptiveLimitTracker Float → ℕ → AdaptiveLimitTracker Float
  maybe_reset_minute t now =
      if leb (from_secs 60) (now - t.minute_started_at)
      then record t { requests_this_minute = 0; minute_started_at = now }
      else t

  unfoldable pub usage_ratio : AdaptiveLimitTracker Float → ℕ → AdaptiveLimitTracker Float × Float
  unfolding maybe_reset_minute
  usage_ratio t now =
      let t' = maybe_reset_minute t now in
      (
        t',
        if t'.working_threshold == 0
            then ops.hundredths 0
            else ops.div t'.requests_this_minute t'.working_threshold,
      )

  unfoldable pub should_allow : AdaptiveLimitTracker Float → ℕ → AdaptiveLimitTracker Float × Bool
  unfolding usage_ratio
  should_allow t now =
      let (t', ratio) = usage_ratio t now in (t', ops.lt ratio (ops.hundredths 100))

  unfoldable pub probe_strategy :
      AdaptiveLimitTracker Float → ℕ → AdaptiveLimitTracker Float × ProbeStrategy
  unfolding usage_ratio from_usage_ratio
  probe_strategy t now =
      let (t', ratio) = usage_ratio t now in
      (
        t',
        if ltb (now - t'.last_calibration) (from_secs 300) && ops.lt ratio (ops.hundredths 90)
            then no_probe
            else from_usage_ratio ratio,
      )

  unfoldable pub expand_limit : AdaptiveLimitTracker Float → ℕ → AdaptiveLimitTracker Float
  unfolding reward
  expand_limit t now =
      let new_limit = reward t.aimd t.confirmed_limit in
      record t {
        confirmed_limit = new_limit;
        working_threshold = ops.mul_floor new_limit t.safety_margin;
        ceiling = max t.ceiling new_limit;
        last_calibration = now;
      }

  -- One more success above the threshold; the third in a row expands the limit.
  unfoldable pub above_threshold : AdaptiveLimitTracker Float → ℕ → AdaptiveLimitTracker Float
  unfolding expand_limit
  above_threshold t now =
      let consecutive = u64 (t.consecutive_above_threshold + 1) in
      if leb 3 consecutive
      then record (expand_limit t now) { consecutive_above_threshold = 0 }
      else record t { consecutive_above_threshold = consecutive }

  unfoldable pub count_success : AdaptiveLimitTracker Float → ℕ → AdaptiveLimitTracker Float
  unfolding above_threshold
  count_success t now =
      let current = u64 (t.requests_this_minute + 1) in
      let t' = record t { requests_this_minute = current } in
      if ltb t'.working_threshold current then above_threshold t' now else t'

  unfoldable pub record_success : AdaptiveLimitTracker Float → ℕ → AdaptiveLimitTracker Float
  unfolding maybe_reset_minute count_success
  record_success t now = count_success (maybe_reset_minute t now) now

  unfoldable pub cut_limit : AdaptiveLimitTracker Float → ℕ → AdaptiveLimitTracker Float
  unfolding penalize
  cut_limit t now =
      let actual_limit = max t.requests_this_minute t.confirmed_limit in
      let new_limit = penalize t.aimd actual_limit in
      record t {
        confirmed_limit = new_limit;
        working_threshold = ops.mul_floor new_limit t.safety_margin;
        ceiling = actual_limit;
        last_calibration = now;
        consecutive_above_threshold = 0;
      }

  unfoldable pub record_429 : AdaptiveLimitTracker Float → ℕ → AdaptiveLimitTracker Float
  unfolding maybe_reset_minute cut_limit
  record_429 t now = cut_limit (maybe_reset_minute t now) now

  unfoldable pub record_error : AdaptiveLimitTracker Float → ℕ → ℕ → AdaptiveLimitTracker Float
  unfolding record_429
  record_error t status_code now =
      let t1 = record t { consecutive_above_threshold = 0 } in
      if status_code == 429 then record_429 t1 now else t1

  unfoldable pub force_expand : AdaptiveLimitTracker Float → ℕ → AdaptiveLimitTracker Float
  unfolding expand_limit
  force_expand t now = expand_limit t now

  unfoldable pub to_persisted : AdaptiveLimitTracker Float → ℕ → ℕ × ℕ × ℕ
  to_persisted t now = (t.confirmed_limit, t.ceiling, (now - t.last_calibration) / from_secs 1)
