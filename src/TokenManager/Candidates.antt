-- ===== src/TokenManager/Candidates.antt =====
-- The choice of the first free candidate in a sorted list.
use antigravity_server.Prelude.Text.{Text, Text-discrete}
use antigravity_server.TokenManager.{ProxyToken, TokenManager}
use antigravity_server.TokenManager.Selection.{
  PartialCmp, compare_with_load, first_free, select_from,
}
use antigravity_server.TokenManager.Priority.{IsScore, compare_with_load-IsComparison}
use antigravity_server.ActiveRequests.{ActiveRequestGuard, Counters, load}
use antigravity_server.ActiveRequests.Slots.{
  load-insert_ne, load-insert_self, try_new_free, try_new_full,
}
use antigravity_server.Prelude.Sort.{
  IsComparison, IsSortedBy, sort_by, sort_by-All, sort_by-IsSortedBy,
}
use antigravity_server.Prelude.Map.{insert, text_key}
use antigravity_server.Prelude.{
  All, All-map, Bool-cases, List, Option, Ordering, [], arith, false, inl, inr, leb, map, none,
  refl, some, subst, sym, ℕ, ◌<◌, ◌∙◌, ◌∷◌, ◌≡◌, ◌≢◌, ◌≤◌,
}

pub load-insert_same :
    (cs : Counters) (key j : Text) → load (insert key (load cs key) cs) j ≡ load cs j
load-insert_same cs key j = elim (Text-discrete key j) [
  | yes e ↦
      subst (λ i. load (insert key (load cs key) cs) i ≡ load cs i) e
        (load-insert_self cs key (load cs key))
  | no n ↦ load-insert_ne cs key j (load cs key) n
]

module _ {Float : Type 0} (partial_cmp : PartialCmp Float) where
  pub map-All :
      (Q : ProxyToken Float × ℕ → Type 0) (f : ProxyToken Float → ℕ) (ts : List (ProxyToken Float))
      → All (λ t. Q (t, f t)) ts
      → All Q (map (λ t. (t, f t)) ts)
  map-All Q f [] h = tt
  map-All Q f (t ∷ ts) h = (h.0, map-All Q f ts h.1)

  pub All-unmap :
      (Q : ProxyToken Float × ℕ → Type 0) (f : ProxyToken Float → ℕ) (ts : List (ProxyToken Float))
      → All Q (map (λ t. (t, f t)) ts)
      → All (λ t. Q (t, f t)) ts
  All-unmap Q f [] h = tt
  All-unmap Q f (t ∷ ts) h = (h.0, All-unmap Q f ts h.1)

  -- What is chosen of some candidates: one with a free slot, of the least in the order among
  -- those, and nothing only where no candidate has a free slot.
  abbrev pub Chosen :
      (ProxyToken Float × ℕ → Type 0)
      → (ProxyToken Float × ℕ → ProxyToken Float × ℕ → Ordering)
      → Counters
      → ℕ
      → List (ProxyToken Float × ℕ)
      → Option (ProxyToken Float × ActiveRequestGuard)
      → Type 0
  Chosen P c cs max_concurrent xs none = All (λ b. max_concurrent ≤ load cs b.0.email) xs
  Chosen P c cs max_concurrent xs (some (t, g)) =
      (l : ℕ) × P (t, l)
      × (load cs t.email < max_concurrent)
      × (g.key ≡ t.email)
      × All (λ b. load cs b.0.email < max_concurrent → c (t, l) b ≢ Ordering.gt) xs

  Chosen-skip :
      (P : ProxyToken Float × ℕ → Type 0)
      (c : ProxyToken Float × ℕ → ProxyToken Float × ℕ → Ordering) (cs : Counters)
      (max_concurrent : ℕ) (x : ProxyToken Float × ℕ) (xs : List (ProxyToken Float × ℕ))
      (r : Option (ProxyToken Float × ActiveRequestGuard))
      → max_concurrent ≤ load cs x.0.email
      → Chosen P c cs max_concurrent xs r
      → Chosen P c cs max_concurrent (x ∷ xs) r
  Chosen-skip P c cs max_concurrent x xs none full h = (full, h)
  Chosen-skip P c cs max_concurrent x xs (some (t, g)) full h =
      (h.0, h.1, h.2, h.3, ((λ free. ground arith), h.4))

  pub first_free-full :
      (cs : Counters) (max_concurrent l : ℕ) (t : ProxyToken Float)
      (xs : List (ProxyToken Float × ℕ))
      → max_concurrent ≤ load cs t.email
      → first_free partial_cmp cs max_concurrent ((t, l) ∷ xs)
        ≡ first_free partial_cmp (insert t.email (load cs t.email) cs) max_concurrent xs
  unfolding first_free
  first_free-full cs max_concurrent l t xs h =
      let e = try_new_full cs t.email max_concurrent h in ground arith

  first_free-free :
      (cs : Counters) (max_concurrent l : ℕ) (t : ProxyToken Float)
      (xs : List (ProxyToken Float × ℕ))
      → load cs t.email < max_concurrent
      → (first_free partial_cmp cs max_concurrent ((t, l) ∷ xs)).1
        ≡ some (t, record { key = t.email; released = false })
  unfolding first_free
  first_free-free cs max_concurrent l t xs h =
      let e = try_new_free cs t.email max_concurrent h in ground arith

  first_free-Chosen :
      (P : ProxyToken Float × ℕ → Type 0)
      (c : ProxyToken Float × ℕ → ProxyToken Float × ℕ → Ordering) (cs cs1 : Counters)
      (max_concurrent : ℕ) (xs : List (ProxyToken Float × ℕ))
      → IsComparison c
      → IsSortedBy c xs
      → All P xs
      → ((j : Text) → load cs1 j ≡ load cs j)
      → Chosen P c cs max_concurrent xs (first_free partial_cmp cs1 max_concurrent xs).1
  unfolding first_free
  first_free-Chosen P c cs cs1 max_concurrent [] k s p same = tt
  first_free-Chosen P c cs cs1 max_concurrent ((t, l) ∷ xs) k s p same =
      elim (Bool-cases (leb max_concurrent (load cs1 t.email))) [
        | inl full ↦
            let le : max_concurrent ≤ load cs1 t.email = ground arith in
            subst (λ r. Chosen P c cs max_concurrent ((t, l) ∷ xs) r.1)
              (sym (first_free-full cs1 max_concurrent l t xs le))
              (Chosen-skip P c cs max_concurrent (t, l) xs
                (first_free partial_cmp (insert t.email (load cs1 t.email) cs1) max_concurrent xs).1
                (subst (λ n. max_concurrent ≤ n) (same t.email) le)
                (first_free-Chosen P c cs (insert t.email (load cs1 t.email) cs1) max_concurrent xs
                  k s.1 p.1 (λ j. load-insert_same cs1 t.email j ∙ same j)))
        | inr room ↦
            let lt : load cs1 t.email < max_concurrent = ground arith in
            let self : c (t, l) (t, l) ≢ Ordering.gt = let f = k.0 (t, l) (t, l) in ground arith in
            subst (Chosen P c cs max_concurrent ((t, l) ∷ xs))
              (sym (first_free-free cs1 max_concurrent l t xs lt))
              (
                l,
                p.0,
                subst (λ n. n < max_concurrent) (same t.email) lt,
                refl,
                ((λ h. self), All-map xs (λ b m h. m) s.0),
              )
      ]

  pub select_from-Chosen :
      (P : ProxyToken Float × ℕ → Type 0) (tm : TokenManager Float) (ts : List (ProxyToken Float))
      → IsScore partial_cmp
      → All (λ t. P (t, load tm.active_requests t.email)) ts
      → Chosen P
          (compare_with_load partial_cmp)
          tm.active_requests
          tm.routing_config.max_concurrent_per_account
          (sort_by
            (compare_with_load partial_cmp)
            (map (λ t. (t, load tm.active_requests t.email)) ts))
          (select_from partial_cmp tm ts).1
  unfolding select_from
  select_from-Chosen P tm ts k h =
      let c = compare_with_load partial_cmp in
      let xs = map (λ t. (t, load tm.active_requests t.email)) ts in
      first_free-Chosen P c tm.active_requests tm.active_requests
        tm.routing_config.max_concurrent_per_account (sort_by c xs)
        (compare_with_load-IsComparison partial_cmp k)
        (sort_by-IsSortedBy c xs (compare_with_load-IsComparison partial_cmp k))
        (sort_by-All P c xs (map-All P (λ t. load tm.active_requests t.email) ts h)) (λ j. refl)
