-- ===== src/ProxyPool/Rotation.antt =====
-- The order in which the proxies of a pool are used.
use antigravity_server.ProxyPool.{
  ProxyPool, from_pool, indexed, next_index, nth, pool, round_robin, select_in, select_proxy_url,
}
use antigravity_server.Prelude.Text.{Text}
use antigravity_server.Prelude.{
  ℕ, ◌+◌, ◌%◌, ◌^◌, ◌≡◌, ◌<◌, ◌∙◌, sym, ap, arith, Option, List, [], ◌∷◌, length,
}

module _ {Client : Type 0} (hash : Text → ℕ) where
  -- The pool after some requests, the first first, each with its clock and its account.
  unfoldable pub after_requests : ProxyPool Client → List (ℕ × Option Text) → ProxyPool Client
  unfolding select_proxy_url
  after_requests p [] = p
  after_requests p ((seed, account_email) ∷ rest) =
      after_requests (select_proxy_url hash p seed account_email).0 rest

  rotates :
      (p : ProxyPool Client) (u : Text) (us : List Text) (seed : ℕ) (account_email : Option Text)
      → p.mode ≡ pool
      → p.strategy ≡ round_robin
      → p.proxy_urls ≡ u ∷ us
      → select_proxy_url hash p seed account_email ≡ (
        record p { rr_counter = (p.rr_counter + 1) % 2 ^ 64 },
        nth p.proxy_urls (p.rr_counter % length p.proxy_urls),
      )
  unfolding select_proxy_url select_in from_pool indexed next_index
  rotates p u us seed account_email m s e =
      ap (λ mode. select_in hash p mode seed account_email) m
      ∙ ap (λ l. from_pool hash p seed account_email l) e
      ∙ ap (λ l. indexed l (next_index hash p p.strategy seed account_email)) (sym e)
      ∙ ap (λ t. indexed p.proxy_urls (next_index hash p t seed account_email)) s

  after_requests-counter :
      (p : ProxyPool Client) (u : Text) (us : List Text) (xs : List (ℕ × Option Text))
      → p.mode ≡ pool
      → p.strategy ≡ round_robin
      → p.proxy_urls ≡ u ∷ us
      → p.rr_counter + length xs < 2 ^ 64
      → after_requests p xs ≡ record p { rr_counter = p.rr_counter + length xs }
  unfolding after_requests
  after_requests-counter p u us [] m s e small = ground arith
  after_requests-counter p u us ((seed, account_email) ∷ rest) m s e small =
      let p' = record p { rr_counter = (p.rr_counter + 1) % 2 ^ 64 } in
      ap (λ out. after_requests out.0 rest) (rotates p u us seed account_email m s e)
      ∙ after_requests-counter p' u us rest m s e (omega arith)
      ∙ ap (λ n. record p { rr_counter = n }) (omega arith)

  -- Round robin gives, after n requests, the proxy that stands n places after the one that the
  -- counter is at, past the end of the list from its start again, whatever accounts the requests
  -- are for, as long as the counter does not wrap.
  pub after_requests-round_robin :
      (p : ProxyPool Client) (u : Text) (us : List Text) (xs : List (ℕ × Option Text)) (seed : ℕ)
      (account_email : Option Text)
      → p.mode ≡ pool
      → p.strategy ≡ round_robin
      → p.proxy_urls ≡ u ∷ us
      → p.rr_counter + length xs < 2 ^ 64
      → (select_proxy_url hash (after_requests p xs) seed account_email).1
        ≡ nth (u ∷ us) ((p.rr_counter + length xs) % length (u ∷ us))
  after_requests-round_robin p u us xs seed account_email m s e small =
      let p' = record p { rr_counter = p.rr_counter + length xs } in
      ap (λ q. (select_proxy_url hash q seed account_email).1)
        (after_requests-counter p u us xs m s e small)
      ∙ ap (λ out. out.1) (rotates p' u us seed account_email m s e)
      ∙ ap (λ l. nth l ((p.rr_counter + length xs) % length l)) e
