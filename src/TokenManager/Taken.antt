-- ===== src/TokenManager/Taken.antt =====
-- Each way to select an account takes one slot of it, or none at all.
use antigravity_server.TokenManager.{ProxyToken, TokenManager, is_ultra_tier}
use antigravity_server.TokenManager.Selection.{
  PartialCmp, Request, compare_with_load, first_free, find_email, is_candidate_eligible, reuse,
  select_from, try_scored_selection, try_sticky_session, try_ultra_tier_selection,
}
use antigravity_server.TokenManager.Sessions.{clear_session_binding, get_session_account}
use antigravity_server.TokenManager.Attempts.{Selected, take_slot}
use antigravity_server.TokenManager.Candidates.{load-insert_same, first_free-full, map-All}
use antigravity_server.ActiveRequests.{ActiveRequestGuard, Counters, drop, load, try_new}
use antigravity_server.ActiveRequests.Slots.{
  load-insert_ne, load-insert_self, load-drop, try_new_free, try_new_full,
}
use antigravity_server.Prelude.Sort.{sort_by, sort_by-All}
use antigravity_server.Prelude.Map.{insert, text_key}
use antigravity_server.Prelude.Text.{Text, Text-discrete}
use antigravity_server.Prelude.{
  ℕ, ◌+◌, ◌≡◌, ◌∙◌, ◌<◌, refl, sym, subst, arith, inl, inr, true, false, ◌&&◌, leb, Bool,
  Bool-cases, Option, Option-cases, none, some, option_map, List, [], ◌∷◌, map, filter, filter-All,
  All, ite, if_pos, if_neg,
}

-- One slot of `email`, as a count over the accounts.
unfoldable pub slot_of : Text → Text → ℕ
slot_of email j = ite (Text-discrete email j) 1 0

slot_of_self : (email : Text) → slot_of email email ≡ 1
unfolding slot_of
slot_of_self email = if_pos (Text-discrete email email) refl 1 0

slot_of_ne : (email j : Text) → ¬ (email ≡ j) → slot_of email j ≡ 0
unfolding slot_of
slot_of_ne email j n = if_neg (Text-discrete email j) n 1 0

abbrev pub guard_of : Text → ActiveRequestGuard
guard_of email = record { key = email; released = false }

pub load-insert_one :
    (cs : Counters) (key j : Text)
    → load (insert key (load cs key + 1) cs) j ≡ load cs j + slot_of key j
load-insert_one cs key j = elim (Text-discrete key j) [
  | yes e ↦
      subst (λ i. load (insert key (load cs key + 1) cs) i ≡ load cs i + slot_of key i) e
        (omega (arith, load-insert_self cs key (load cs key + 1), slot_of_self key))
  | no n ↦ omega (arith, load-insert_ne cs key j (load cs key + 1) n, slot_of_ne key j n)
]

-- A dropped guard gives its slot back.
pub load-drop_taken :
    (cs : Counters) (loads : Text → ℕ) (key : Text)
    → ((j : Text) → load cs j ≡ loads j + slot_of key j)
    → (j : Text) → load (drop cs (guard_of key)) j ≡ loads j
load-drop_taken cs loads key h j = elim (Text-discrete key j) [
  | yes e ↦
      subst (λ i. load (drop cs (guard_of key)) i ≡ loads i) e
        (omega (arith, (load-drop cs key).0, h key, slot_of_self key))
  | no n ↦ omega (arith, (load-drop cs key).1 j n, h j, slot_of_ne key j n)
]

and_right : (a b : Bool) → (a && b) ≡ true → b ≡ true
and_right a b e = ground arith

every-All {ℓ κ} : {A : Type ℓ} {P : A → Type κ} (xs : List A) → ((x : A) → P x) → All P xs
every-All [] f = tt
every-All (x ∷ xs) f = (f x, every-All xs f)

module _ {Float : Type 0} (P : ProxyToken Float → Type 0) (loads : Text → ℕ) where
  -- What a selection leaves: one more slot of the token that is chosen, or the slots as they were.
  abbrev pub Takes : Counters × Option (ProxyToken Float × ActiveRequestGuard) → Type 0
  Takes (cs, none) = (j : Text) → load cs j ≡ loads j
  Takes (cs, some (t, g)) =
      P t × (g ≡ guard_of t.email) × ((j : Text) → load cs j ≡ loads j + slot_of t.email j)

  abbrev pub TakesIn : Selected Float → Type 0
  TakesIn (tm, o) = Takes (tm.active_requests, o)

  try_new-Takes :
      (cs : Counters) (t : ProxyToken Float) (max_concurrent : ℕ)
      → ((j : Text) → load cs j ≡ loads j)
      → P t
      → let (cs', taken) = try_new cs t.email max_concurrent in
        Takes (cs', option_map (λ g. (t, g)) taken)
  try_new-Takes cs t max_concurrent same p =
      elim (Bool-cases (leb max_concurrent (load cs t.email))) [
        | inl full ↦
            rw (try_new_full cs t.email max_concurrent (ground arith))
              (λ j. load-insert_same cs t.email j ∙ same j)
        | inr room ↦
            rw (try_new_free cs t.email max_concurrent (ground arith))
              (p, refl, λ j. omega (arith, load-insert_one cs t.email j, same j))
      ]

  first_free-room :
      (partial_cmp : PartialCmp Float) (cs : Counters) (max_concurrent l : ℕ) (t : ProxyToken Float)
      (xs : List (ProxyToken Float × ℕ))
      → load cs t.email < max_concurrent
      → first_free partial_cmp cs max_concurrent ((t, l) ∷ xs)
        ≡ (insert t.email (load cs t.email + 1) cs, some (t, guard_of t.email))
  unfolding first_free
  first_free-room partial_cmp cs max_concurrent l t xs h =
      let e = try_new_free cs t.email max_concurrent h in ground arith

  first_free-Takes :
      (partial_cmp : PartialCmp Float) (cs : Counters) (max_concurrent : ℕ)
      (xs : List (ProxyToken Float × ℕ))
      → ((j : Text) → load cs j ≡ loads j)
      → All (λ b. P b.0) xs
      → Takes (first_free partial_cmp cs max_concurrent xs)
  unfolding first_free
  first_free-Takes partial_cmp cs max_concurrent [] same ps = same
  first_free-Takes partial_cmp cs max_concurrent ((t, l) ∷ xs) same ps =
      elim (Bool-cases (leb max_concurrent (load cs t.email))) [
        | inl full ↦
            subst Takes (sym (first_free-full partial_cmp cs max_concurrent l t xs (ground arith)))
              (first_free-Takes partial_cmp (insert t.email (load cs t.email) cs) max_concurrent xs
                (λ j. load-insert_same cs t.email j ∙ same j) ps.1)
        | inr room ↦
            subst Takes (sym (first_free-room partial_cmp cs max_concurrent l t xs (ground arith)))
              (ps.0, refl, λ j. omega (arith, load-insert_one cs t.email j, same j))
      ]

  -- What a state and a list must satisfy for a choice from the list to be sound.
  module _ (partial_cmp : PartialCmp Float) (tm : TokenManager Float)
      (same : (j : Text) → load tm.active_requests j ≡ loads j) where
    select_from-TakesIn :
        (ts : List (ProxyToken Float)) → All P ts → TakesIn (select_from partial_cmp tm ts)
    unfolding select_from
    select_from-TakesIn ts ps =
        let Q = λ (b : ProxyToken Float × ℕ). P b.0 in
        let f = λ (t : ProxyToken Float). load tm.active_requests t.email in
        first_free-Takes partial_cmp tm.active_requests tm.routing_config.max_concurrent_per_account
          (sort_by (compare_with_load partial_cmp) (map (λ t. (t, f t)) ts)) same
          (sort_by-All Q (compare_with_load partial_cmp) (map (λ t. (t, f t)) ts)
            (map-All partial_cmp Q f ts ps))

    pub take_slot-TakesIn :
        (t : ProxyToken Float)
        → P t
        → let (tm', taken) = take_slot tm t in TakesIn (tm', option_map (λ g. (t, g)) taken)
    unfolding take_slot
    take_slot-TakesIn t p =
        try_new-Takes tm.active_requests t tm.routing_config.max_concurrent_per_account same p

    module _ (r : Request)
        (eligible : (t : ProxyToken Float)
          → is_candidate_eligible partial_cmp tm r true true t ≡ true
          → P t) where
      pub try_scored_selection-TakesIn :
          (ts : List (ProxyToken Float)) → TakesIn (try_scored_selection partial_cmp tm r ts)
      unfolding try_scored_selection
      try_scored_selection-TakesIn ts =
          let p = is_candidate_eligible partial_cmp tm r true true in
          select_from-TakesIn (filter p ts) (filter-All P p ts (every-All ts eligible))

      pub try_ultra_tier_selection-TakesIn :
          (ts : List (ProxyToken Float)) → TakesIn (try_ultra_tier_selection partial_cmp tm r ts)
      unfolding try_ultra_tier_selection
      try_ultra_tier_selection-TakesIn ts =
          let p = λ (t : ProxyToken Float).
            is_ultra_tier t && is_candidate_eligible partial_cmp tm r true true t in
          select_from-TakesIn (filter p ts)
            (filter-All P p ts (every-All ts (λ t e. eligible t (and_right (is_ultra_tier t) _ e))))

      reuse-TakesIn :
          (sid : Text) (o : Option (ProxyToken Float)) → TakesIn (reuse partial_cmp tm r sid o)
      unfolding reuse clear_session_binding
      reuse-TakesIn sid none = same
      reuse-TakesIn sid (some t) =
          elim (Bool-cases (is_candidate_eligible partial_cmp tm r true true t)) [
            | inl e ↦ rw e (
                try_new-Takes tm.active_requests t tm.routing_config.max_concurrent_per_account same
                  (eligible t e))
            | inr n ↦ rw n same
          ]

      pub try_sticky_session-TakesIn :
          (sid : Text) (ts : List (ProxyToken Float))
          → TakesIn (try_sticky_session partial_cmp tm r sid ts)
      unfolding try_sticky_session
      try_sticky_session-TakesIn sid ts = elim (Option-cases (get_session_account tm sid)) [
        | inl n ↦ rw (n, try_sticky_session) same
        | inr (a, e) ↦ rw (e, try_sticky_session) (reuse-TakesIn sid (find_email partial_cmp a ts))
      ]
