-- ===== src/TokenManager/Recovered.antt =====
-- What the recovery of a selection finds, and that it holds no slot.
use antigravity_server.TokenManager.Scan.{Available, Scanned, first_available-Scanned}
use mathlib.Core.List.{Memᴰ}
use antigravity_server.TokenManager.{ProxyToken, TokenManager}
use antigravity_server.TokenManager.Selection.{
  PartialCmp, Request, is_candidate_eligible, is_model_protected,
}
use antigravity_server.TokenManager.Recovery.{
  Recovery, found, failed_after_reset, wait, at_capacity, after_reset, buffered, first_available,
  min_wait, recover, scan, try_recovery_selection, waited,
}
use antigravity_server.RateLimit.{clear_all}
use antigravity_server.ActiveRequests.{Counters, load}
use antigravity_server.Prelude.Map.{text_key}
use antigravity_server.Prelude.Text.{Text}
use antigravity_server.Prelude.{
  ℕ, List, Bool-cases, Option, none, some, true, false, inl, inr, leb, ap, All-map, ◌≡◌, ◌<◌, ◌∙◌,
  ◌⊎◌, arith, refl, sym,
}

module _ {Float : Type 0} (partial_cmp : PartialCmp Float) where
  abbrev cleared : TokenManager Float → TokenManager Float
  cleared tm = record tm { rate_limit_tracker = clear_all tm.rate_limit_tracker }

  -- The answer that a state and a list of tokens call for, where `wait_sec` is the least wait.
  abbrev pub Recovers :
      TokenManager Float → Request → List (ProxyToken Float) → Option ℕ → Recovery Float → Type 0
  Recovers tm r ts wait_sec (found t) =
      Memᴰ t ts
      × ((is_candidate_eligible partial_cmp tm r true false t ≡ true)
          ⊎ (is_candidate_eligible partial_cmp (cleared tm) r true false t ≡ true))
      × (load tm.active_requests t.email < tm.routing_config.max_concurrent_per_account)
  Recovers tm r ts wait_sec failed_after_reset =
      Available partial_cmp tm r (load tm.active_requests) ts none
      × Available partial_cmp (cleared tm) r (load tm.active_requests) ts none
  Recovers tm r ts wait_sec (wait s) = (wait_sec ≡ some s) × (2 < s)
  Recovers tm r ts wait_sec at_capacity =
      (wait_sec ≡ none) × Available partial_cmp tm r (load tm.active_requests) ts none

  eligible_with :
      (tm : TokenManager Float) (cs : Counters) (r : Request) (t : ProxyToken Float)
      → is_candidate_eligible partial_cmp (record tm { active_requests = cs }) r true false t
        ≡ is_candidate_eligible partial_cmp tm r true false t
  unfolding is_candidate_eligible is_model_protected
  eligible_with tm cs r t = refl

  Available-with :
      (tm : TokenManager Float) (cs : Counters) (r : Request) (loads : Text → ℕ)
      (ts : List (ProxyToken Float)) (o : Option (ProxyToken Float))
      → Available partial_cmp (record tm { active_requests = cs }) r loads ts o
      → Available partial_cmp tm r loads ts o
  Available-with tm cs r loads ts none h =
      All-map ts (λ t full e. full (eligible_with tm cs r t ∙ e)) h
  Available-with tm cs r loads ts (some t) h = (h.0, sym (eligible_with tm cs r t) ∙ h.1, h.2)

  after_reset-Recovers :
      (tm u : TokenManager Float) (r : Request) (ts : List (ProxyToken Float)) (wait_sec : Option ℕ)
      (o : Option (ProxyToken Float))
      → Available partial_cmp tm r (load tm.active_requests) ts none
      → Available partial_cmp (cleared tm) r (load tm.active_requests) ts o
      → Recovers tm r ts wait_sec (after_reset partial_cmp (u, o)).1
        × ((after_reset partial_cmp (u, o)).0 ≡ u)
  unfolding after_reset
  after_reset-Recovers tm u r ts wait_sec none full h = ((full, h), refl)
  after_reset-Recovers tm u r ts wait_sec (some t) full h = ((h.0, inr h.1, h.2), refl)

  -- The slots after a recovery are those after the sleep, or nothing has changed since the entry.
  abbrev pub Holds : TokenManager Float → TokenManager Float → TokenManager Float → Type 0
  Holds before tm tm' =
      ((j : Text) → load tm'.active_requests j ≡ load tm.active_requests j) ⊎ (tm' ≡ before)

  buffered-Recovers :
      (before tm : TokenManager Float) (cs : Counters) (r : Request) (ts : List (ProxyToken Float))
      (wait_sec : Option ℕ) (o : Option (ProxyToken Float))
      → Scanned partial_cmp tm r (load tm.active_requests) ts (cs, o)
      → let out = buffered partial_cmp r ts (record tm { active_requests = cs }, o) in
        Recovers tm r ts wait_sec out.1 × Holds before tm out.0
  unfolding buffered scan
  buffered-Recovers before tm cs r ts wait_sec (some t) (h, same) = ((h.0, inl h.1, h.2), inl same)
  buffered-Recovers before tm cs r ts wait_sec none (h, same) =
      let u = record (cleared tm) { active_requests = cs } in
      let scanned = first_available-Scanned partial_cmp u r cs (load tm.active_requests) ts same in
      let k =
        after_reset-Recovers tm
          (record u { active_requests = (first_available partial_cmp u r cs ts).0 }) r ts wait_sec
          (first_available partial_cmp u r cs ts).1 h
          (Available-with (cleared tm) cs r (load tm.active_requests) ts
            (first_available partial_cmp u r cs ts).1 scanned.0) in
      (k.0, inl (λ j. ap (λ v. load v.active_requests j) k.1 ∙ scanned.1 j))

  waited-Recovers :
      (tm u : TokenManager Float) (r : Request) (ts : List (ProxyToken Float))
      (o : Option (ProxyToken Float))
      → Available partial_cmp tm r (load tm.active_requests) ts o
      → Recovers tm r ts none (waited partial_cmp (u, o)).1 × ((waited partial_cmp (u, o)).0 ≡ u)
  unfolding waited
  waited-Recovers tm u r ts none h = ((refl, h), refl)
  waited-Recovers tm u r ts (some t) h = ((h.0, inl h.1, h.2), refl)

  recover-Recovers :
      (wait_sec : Option ℕ) (before tm : TokenManager Float) (r : Request)
      (ts : List (ProxyToken Float))
      → let out = recover partial_cmp wait_sec before tm r ts in
        Recovers tm r ts wait_sec out.1 × Holds before tm out.0
  unfolding recover scan
  recover-Recovers none before tm r ts =
      let scanned =
        first_available-Scanned partial_cmp tm r tm.active_requests (load tm.active_requests) ts
          (λ j. refl) in
      let out = first_available partial_cmp tm r tm.active_requests ts in
      let k = waited-Recovers tm (record tm { active_requests = out.0 }) r ts out.1 scanned.0 in
      (k.0, inl (λ j. ap (λ v. load v.active_requests j) k.1 ∙ scanned.1 j))
  recover-Recovers (some s) before tm r ts = elim (Bool-cases (leb s 2)) [
    | inl soon ↦
        let out = first_available partial_cmp tm r tm.active_requests ts in
        rw soon (
          buffered-Recovers before tm out.0 r ts (some s) out.1 (
            first_available-Scanned partial_cmp tm r tm.active_requests (load tm.active_requests) ts
              (λ j. refl)))
    | inr late ↦ rw late ((refl, ground arith), inr refl)
  ]

  pub try_recovery_selection-Recovers :
      (before : TokenManager Float) (now : ℕ) (tm : TokenManager Float) (r : Request)
      (ts : List (ProxyToken Float))
      → let out = try_recovery_selection partial_cmp before now tm r ts in
        Recovers tm r ts (min_wait before now ts) out.1 × Holds before tm out.0
  unfolding try_recovery_selection
  try_recovery_selection-Recovers before now tm r ts =
      recover-Recovers (min_wait before now ts) before tm r ts
