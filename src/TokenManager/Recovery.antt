-- ===== src/TokenManager/Recovery.antt =====
-- The last resort of a selection: crates/antigravity-core/src/proxy/token_manager/recovery.rs.
-- The pool sleeps in between, so the state before the sleep and the state after it are two.
use antigravity_server.TokenManager.{ProxyToken, TokenManager}
use antigravity_server.TokenManager.Selection.{PartialCmp, Request, is_candidate_eligible}
use antigravity_server.RateLimit.{clear_all, get_reset_seconds}
use antigravity_server.ActiveRequests.{Counters, drop, try_new}
use antigravity_server.Prelude.{
  ℕ, List, Option, none, some, true, false, if◌then◌else◌, leb, min, ◌∷◌, [],
}

-- `wait` is the error that names the seconds to wait, the other errors name no number.
pub data Recovery (Float : Type 0) : Type 0 where
  found : ProxyToken Float → Recovery Float
  failed_after_reset : Recovery Float
  wait : ℕ → Recovery Float
  at_capacity : Recovery Float

-- The least of the reset times of the accounts that have one.
unfoldable pub min_wait :
    {Float : Type 0} → TokenManager Float → ℕ → List (ProxyToken Float) → Option ℕ
unfolding get_reset_seconds
min_wait tm now [] = none
min_wait tm now (t ∷ ts) =
    let rest = min_wait tm now ts in
    elim (get_reset_seconds tm.rate_limit_tracker t.email now) [
      | none ↦ rest
      | some s ↦ elim rest [ none ↦ some s | some m ↦ some (min s m) ]
    ]

module _ {Float : Type 0} (partial_cmp : PartialCmp Float) where
  -- The first eligible token with a free slot: the slot is taken and, since only `is_some` is asked
  -- of it, given back at once.
  unfoldable pub first_available :
      TokenManager Float
      → Request
      → Counters
      → List (ProxyToken Float)
      → Counters × Option (ProxyToken Float)
  unfolding is_candidate_eligible
  first_available tm r cs [] = (cs, none)
  first_available tm r cs (t ∷ ts) =
      if is_candidate_eligible partial_cmp tm r true false t
      then (let (cs', taken) = try_new cs t.email tm.routing_config.max_concurrent_per_account in
          elim taken [ none ↦ first_available tm r cs' ts | some g ↦ (drop cs' g, some t) ])
      else first_available tm r cs ts

  unfoldable pub after_reset :
      TokenManager Float × Option (ProxyToken Float) → TokenManager Float × Recovery Float
  after_reset (tm, none) = (tm, failed_after_reset)
  after_reset (tm, some t) = (tm, found t)

  unfoldable pub scan :
      TokenManager Float
      → Request
      → List (ProxyToken Float)
      → TokenManager Float × Option (ProxyToken Float)
  unfolding first_available
  scan tm r tokens_snapshot =
      let (cs, chosen) = first_available tm r tm.active_requests tokens_snapshot in
      (record tm { active_requests = cs }, chosen)

  unfoldable pub buffered :
      Request
      → List (ProxyToken Float)
      → TokenManager Float × Option (ProxyToken Float)
      → TokenManager Float × Recovery Float
  unfolding scan after_reset
  buffered r tokens_snapshot (tm, some t) = (tm, found t)
  buffered r tokens_snapshot (tm, none) =
      after_reset (
        scan (record tm { rate_limit_tracker = clear_all tm.rate_limit_tracker }) r tokens_snapshot)

  unfoldable pub waited :
      TokenManager Float × Option (ProxyToken Float) → TokenManager Float × Recovery Float
  waited (tm, none) = (tm, at_capacity)
  waited (tm, some t) = (tm, found t)

  unfoldable pub recover :
      Option ℕ
      → TokenManager Float
      → TokenManager Float
      → Request
      → List (ProxyToken Float)
      → TokenManager Float × Recovery Float
  unfolding buffered waited scan
  recover none before tm r tokens_snapshot = waited (scan tm r tokens_snapshot)
  recover (some wait_sec) before tm r tokens_snapshot =
      if leb wait_sec 2
      then buffered r tokens_snapshot (scan tm r tokens_snapshot)
      else (before, wait wait_sec)

  -- `before` is the state on entry, at `now`; `tm` the state after the sleep of 500 ms, if any.
  unfoldable pub try_recovery_selection :
      TokenManager Float
      → ℕ
      → TokenManager Float
      → Request
      → List (ProxyToken Float)
      → TokenManager Float × Recovery Float
  unfolding recover min_wait
  try_recovery_selection before now tm r tokens_snapshot =
      recover (min_wait before now tokens_snapshot) before tm r tokens_snapshot
