-- ===== src/TokenManager/Choice.antt =====
-- What the choice by priority promises.
use antigravity_server.TokenManager.Candidates.{Chosen, All-unmap, select_from-Chosen}
use antigravity_server.Prelude.Text.{Text}
use antigravity_server.TokenManager.{ProxyToken, TokenManager, is_ultra_tier}
use antigravity_server.TokenManager.Selection.{
  PartialCmp, Request, compare_with_load, is_candidate_eligible, select_from, try_scored_selection,
  try_ultra_tier_selection,
}
use mathlib.Core.List.{Memᴰ}
use antigravity_server.TokenManager.Priority.{IsScore}
use antigravity_server.ActiveRequests.{ActiveRequestGuard, Counters, load}
use antigravity_server.Prelude.Sort.{All-Memᴰ, All-sort_by, sort_by}
use antigravity_server.Prelude.Map.{text_key}
use antigravity_server.Prelude.{
  All, All-filter, All-map, Bool, List, Option, Ordering, filter, filter-All, map, none, refl, some,
  subst, true, ℕ, ◌&&◌, ◌<◌, ◌≡◌, ◌≢◌, ◌≤◌,
}

module _ {Float : Type 0} (partial_cmp : PartialCmp Float) where
  -- The same, of the tokens that pass a test: the choice is one of them, has a free slot, and is
  -- of the best priority among those that have one; nothing is chosen only where none has.
  abbrev pub IsBest :
      (Text → ℕ)
      → ℕ
      → (ProxyToken Float → Bool)
      → List (ProxyToken Float)
      → Option (ProxyToken Float × ActiveRequestGuard)
      → Type 0
  IsBest loads max_concurrent p ts none = All (λ u. p u ≡ true → max_concurrent ≤ loads u.email) ts
  IsBest loads max_concurrent p ts (some (t, g)) =
      Memᴰ t ts
      × (p t ≡ true)
      × (loads t.email < max_concurrent)
      × (g.key ≡ t.email)
      × All
          (λ u.
            p u ≡ true
            → loads u.email < max_concurrent
            → compare_with_load partial_cmp (t, loads t.email) (u, loads u.email) ≢ Ordering.gt)
          ts

  Chosen-IsBest :
      (loads : Counters) (max_concurrent : ℕ) (p : ProxyToken Float → Bool)
      (ts : List (ProxyToken Float)) (r : Option (ProxyToken Float × ActiveRequestGuard))
      → Chosen partial_cmp
          (λ b. Memᴰ b.0 ts × (p b.0 ≡ true) × (b.1 ≡ load loads b.0.email))
          (compare_with_load partial_cmp)
          loads
          max_concurrent
          (sort_by
            (compare_with_load partial_cmp)
            (map (λ t. (t, load loads t.email)) (filter p ts)))
          r
      → IsBest (load loads) max_concurrent p ts r
  Chosen-IsBest loads max_concurrent p ts none h =
      let Q = λ (b : ProxyToken Float × ℕ). max_concurrent ≤ load loads b.0.email in
      let f = λ (t : ProxyToken Float). load loads t.email in
      All-filter (λ t. Q (t, f t)) p ts
        (All-unmap partial_cmp Q f (filter p ts)
          (All-sort_by Q (compare_with_load partial_cmp) (map (λ t. (t, f t)) (filter p ts)) h))
  Chosen-IsBest loads max_concurrent p ts (some (t, g)) h =
      let c = compare_with_load partial_cmp in
      let f = λ (u : ProxyToken Float). load loads u.email in
      let Q = λ (b : ProxyToken Float × ℕ).
        load loads b.0.email < max_concurrent → c (t, f t) b ≢ Ordering.gt in
      let best =
        subst
          (λ l.
            All (λ b. load loads b.0.email < max_concurrent → c (t, l) b ≢ Ordering.gt)
              (sort_by c (map (λ u. (u, f u)) (filter p ts))))
          h.1.2 h.4 in
      (
        h.1.0,
        h.1.1,
        h.2,
        h.3,
        All-filter (λ u. Q (u, f u)) p ts
            (All-unmap partial_cmp Q f (filter p ts)
              (All-sort_by Q c (map (λ u. (u, f u)) (filter p ts)) best)),
      )

  -- The choice among the tokens that pass a test.
  select_from-IsBest :
      (tm : TokenManager Float) (p : ProxyToken Float → Bool) (ts : List (ProxyToken Float))
      → IsScore partial_cmp
      → IsBest
          (load tm.active_requests)
          tm.routing_config.max_concurrent_per_account
          p
          ts
          (select_from partial_cmp tm (filter p ts)).1
  select_from-IsBest tm p ts k =
      let P = λ (b : ProxyToken Float × ℕ).
        Memᴰ b.0 ts × (p b.0 ≡ true) × (b.1 ≡ load tm.active_requests b.0.email) in
      Chosen-IsBest tm.active_requests tm.routing_config.max_concurrent_per_account p ts
        (select_from partial_cmp tm (filter p ts)).1
        (select_from-Chosen partial_cmp P tm (filter p ts) k (
          filter-All (λ t. P (t, load tm.active_requests t.email)) p ts
            (All-map ts (λ t m e. (m, e, refl)) (All-Memᴰ ts))))

  -- Where no score is NaN, the scored selection gives a token of the snapshot that is eligible, has
  -- a free slot, and is of the best priority among those, or nothing where there is none.
  pub try_scored_selection-IsBest :
      (tm : TokenManager Float) (r : Request) (tokens_snapshot : List (ProxyToken Float))
      → IsScore partial_cmp
      → IsBest
          (load tm.active_requests)
          tm.routing_config.max_concurrent_per_account
          (is_candidate_eligible partial_cmp tm r true true)
          tokens_snapshot
          (try_scored_selection partial_cmp tm r tokens_snapshot).1
  unfolding try_scored_selection
  try_scored_selection-IsBest tm r tokens_snapshot =
      select_from-IsBest tm (is_candidate_eligible partial_cmp tm r true true) tokens_snapshot

  -- Where no score is NaN, the ultra-tier selection gives a token of the snapshot that is of an
  -- ultra tier, eligible, with a free slot, and of the best priority among those, or nothing where
  -- there is none.
  pub try_ultra_tier_selection-IsBest :
      (tm : TokenManager Float) (r : Request) (tokens_snapshot : List (ProxyToken Float))
      → IsScore partial_cmp
      → IsBest
          (load tm.active_requests)
          tm.routing_config.max_concurrent_per_account
          (λ t. is_ultra_tier t && is_candidate_eligible partial_cmp tm r true true t)
          tokens_snapshot
          (try_ultra_tier_selection partial_cmp tm r tokens_snapshot).1
  unfolding try_ultra_tier_selection
  try_ultra_tier_selection-IsBest tm r tokens_snapshot =
      select_from-IsBest tm
        (λ t. is_ultra_tier t && is_candidate_eligible partial_cmp tm r true true t) tokens_snapshot
