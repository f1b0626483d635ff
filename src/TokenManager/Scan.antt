-- ===== src/TokenManager/Scan.antt =====
-- What a scan for the first available token finds, and that it holds no slot.
use mathlib.Core.List.{Memᴰ}
use antigravity_server.TokenManager.{ProxyToken, TokenManager}
use antigravity_server.TokenManager.Selection.{PartialCmp, Request, is_candidate_eligible}
use antigravity_server.TokenManager.Recovery.{first_available}
use antigravity_server.ActiveRequests.{Counters, drop, load}
use antigravity_server.TokenManager.Candidates.{load-insert_same}
use antigravity_server.ActiveRequests.Slots.{
  drop-insert, drop-insert_ne, try_new_free, try_new_full,
}
use antigravity_server.Prelude.Map.{insert, text_key}
use antigravity_server.Prelude.Text.{Text, Text-discrete}
use antigravity_server.Prelude.{
  ℕ, List, Bool-cases, Option, none, some, true, false, inl, inr, leb, All, ◌∷◌, [], ◌≡◌, ◌≤◌, ◌<◌,
  ◌∙◌, ◌+◌, arith, refl, sym, subst,
}

module _ {Float : Type 0} (partial_cmp : PartialCmp Float) where
  -- The outcome of a scan: a token of the list that is eligible and has a free slot, or none,
  -- where every eligible token is full.
  abbrev pub Available :
      TokenManager Float
      → Request
      → (Text → ℕ)
      → List (ProxyToken Float)
      → Option (ProxyToken Float)
      → Type 0
  Available tm r loads ts none =
      All
        (λ t.
          is_candidate_eligible partial_cmp tm r true false t ≡ true
          → tm.routing_config.max_concurrent_per_account ≤ loads t.email)
        ts
  Available tm r loads ts (some t) =
      Memᴰ t ts
      × (is_candidate_eligible partial_cmp tm r true false t ≡ true)
      × (loads t.email < tm.routing_config.max_concurrent_per_account)

  Available-skip :
      (tm : TokenManager Float) (r : Request) (loads : Text → ℕ) (u : ProxyToken Float)
      (ts : List (ProxyToken Float)) (o : Option (ProxyToken Float))
      → (is_candidate_eligible partial_cmp tm r true false u ≡ true
          → tm.routing_config.max_concurrent_per_account ≤ loads u.email)
      → Available tm r loads ts o
      → Available tm r loads (u ∷ ts) o
  Available-skip tm r loads u ts none full h = (full, h)
  Available-skip tm r loads u ts (some t) full h = (Memᴰ.tail h.0, h.1, h.2)

  first_available-skip :
      (tm : TokenManager Float) (r : Request) (cs : Counters) (t : ProxyToken Float)
      (ts : List (ProxyToken Float))
      → is_candidate_eligible partial_cmp tm r true false t ≡ false
      → first_available partial_cmp tm r cs (t ∷ ts) ≡ first_available partial_cmp tm r cs ts
  unfolding first_available
  first_available-skip tm r cs t ts e = rw e refl

  first_available-full :
      (tm : TokenManager Float) (r : Request) (cs : Counters) (t : ProxyToken Float)
      (ts : List (ProxyToken Float))
      → is_candidate_eligible partial_cmp tm r true false t ≡ true
      → tm.routing_config.max_concurrent_per_account ≤ load cs t.email
      → first_available partial_cmp tm r cs (t ∷ ts)
        ≡ first_available partial_cmp tm r (insert t.email (load cs t.email) cs) ts
  unfolding first_available
  first_available-full tm r cs t ts e h =
      let f = try_new_full cs t.email tm.routing_config.max_concurrent_per_account h in ground arith

  abbrev given_back : Counters → Text → Counters
  given_back cs email =
      drop (insert email (load cs email + 1) cs) (record { key = email; released = false })

  first_available-room :
      (tm : TokenManager Float) (r : Request) (cs : Counters) (t : ProxyToken Float)
      (ts : List (ProxyToken Float))
      → is_candidate_eligible partial_cmp tm r true false t ≡ true
      → load cs t.email < tm.routing_config.max_concurrent_per_account
      → first_available partial_cmp tm r cs (t ∷ ts) ≡ (given_back cs t.email, some t)
  unfolding first_available
  first_available-room tm r cs t ts e h =
      let f = try_new_free cs t.email tm.routing_config.max_concurrent_per_account h in ground arith

  given_back-load : (cs : Counters) (email j : Text) → load (given_back cs email) j ≡ load cs j
  given_back-load cs email j = elim (Text-discrete email j) [
    | yes p ↦
        subst (λ i. load (given_back cs email) i ≡ load cs i) p
          (drop-insert cs email (load cs email))
    | no n ↦ drop-insert_ne cs email j (load cs email) n
  ]

  abbrev pub Scanned :
      TokenManager Float
      → Request
      → (Text → ℕ)
      → List (ProxyToken Float)
      → Counters × Option (ProxyToken Float)
      → Type 0
  Scanned tm r loads ts (cs, o) = Available tm r loads ts o × ((j : Text) → load cs j ≡ loads j)

  pub first_available-Scanned :
      (tm : TokenManager Float) (r : Request) (cs : Counters) (loads : Text → ℕ)
      (ts : List (ProxyToken Float))
      → ((j : Text) → load cs j ≡ loads j)
      → Scanned tm r loads ts (first_available partial_cmp tm r cs ts)
  unfolding first_available
  first_available-Scanned tm r cs loads [] same = (tt, same)
  first_available-Scanned tm r cs loads (t ∷ ts) same =
      elim (Bool-cases (is_candidate_eligible partial_cmp tm r true false t)) [
        | inr barred ↦
            let rest = first_available-Scanned tm r cs loads ts same in
            subst (Scanned tm r loads (t ∷ ts)) (sym (first_available-skip tm r cs t ts barred)) (
              Available-skip tm r loads t ts (first_available partial_cmp tm r cs ts).1
                  (λ e. ground arith) rest.0,
              rest.1,
            )
        | inl ok ↦
            elim (Bool-cases (leb tm.routing_config.max_concurrent_per_account (load cs t.email))) [
              | inl f ↦
                  let le : tm.routing_config.max_concurrent_per_account ≤ load cs t.email =
                    ground arith in
                  let cs1 = insert t.email (load cs t.email) cs in
                  let rest =
                    first_available-Scanned tm r cs1 loads ts
                      (λ j. load-insert_same cs t.email j ∙ same j) in
                  subst (Scanned tm r loads (t ∷ ts))
                    (sym (first_available-full tm r cs t ts ok le))
                    (
                      Available-skip tm r loads t ts (first_available partial_cmp tm r cs1 ts).1
                          (λ e.
                            subst (λ n. tm.routing_config.max_concurrent_per_account ≤ n)
                              (same t.email) le)
                          rest.0,
                      rest.1,
                    )
              | inr g ↦
                  let lt : load cs t.email < tm.routing_config.max_concurrent_per_account =
                    ground arith in
                  subst (Scanned tm r loads (t ∷ ts))
                    (sym (first_available-room tm r cs t ts ok lt))
                    (
                      (
                        Memᴰ.head refl,
                        ok,
                        subst (λ n. n < tm.routing_config.max_concurrent_per_account) (same t.email)
                            lt,
                      ),
                      (λ j. given_back-load cs t.email j ∙ same j),
                    )
            ]
      ]
