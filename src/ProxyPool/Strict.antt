-- ===== src/ProxyPool/Strict.antt =====
-- A proxy that is asked for is never passed over.
use mathlib.Core.List.{Memᴰ}
use antigravity_server.ProxyPool.{
  ProxyError, ProxyPool, ProxyRotationStrategy, UpstreamProxyMode, client_for, custom, direct,
  empty_pool, empty_url, from_custom, from_pool, get_client, get_or_create_client, built,
  index_panic, indexed, invalid_port, invalid_url, next_index, no_account, no_custom_url, not_built,
  nth, per_account, pool, random, round_robin, select_in, select_proxy_url, system, unrecognized,
}
use antigravity_server.Prelude.Result.{Result, ok, err}
use antigravity_server.Prelude.Map.{lookup, text_key}
use antigravity_server.Prelude.Text.{Text}
use antigravity_server.Prelude.{
  ℕ, zero, suc, ◌%◌, ◌≡◌, ◌≢◌, ◌<◌, ◌⊎◌, ◌∙◌, refl, sym, ap, subst, arith, inl, inr, Option,
  Option-cases, none, some, List, [], ◌∷◌, length,
}

-- An index in range reads an element.
abbrev pub Reads : List Text → Result (Option Text) ProxyError → Type 0
Reads us (ok (some u)) = Memᴰ u us
Reads us (ok none) = ⊥
Reads us (err e) = ⊥

Reads-cons :
    (v : Text) (us : List Text) (r : Result (Option Text) ProxyError)
    → Reads us r
    → Reads (v ∷ us) r
Reads-cons v us (ok (some u)) h = Memᴰ.tail h
Reads-cons v us (ok none) h = absurd h
Reads-cons v us (err e) h = absurd h

nth-Reads : (us : List Text) (i : ℕ) → i < length us → Reads us (nth us i)
unfolding nth
nth-Reads [] i h = absurd (omega arith)
nth-Reads (u ∷ us) zero h = Memᴰ.head refl
nth-Reads (u ∷ us) (suc i) h = Reads-cons u us (nth us i) (nth-Reads us i (omega arith))

mod_in_range : (n : ℕ) (us : List Text) → 0 < length us → n % length us < length us
mod_in_range n us h = grind arith

module _ {Client : Type 0} (p : ProxyPool Client) (account_email : Option Text) where
  -- A proxy that the configuration asks for.
  abbrev pub IsChoice : Text → Type 0
  IsChoice u =
      ((p.mode ≡ custom) × (u ≡ p.custom_url) × (u ≢ [])) ⊎ ((p.mode ≡ pool) × Memᴰ u p.proxy_urls)

  -- No proxy only in the modes that have none, and an error only for what is missing.
  abbrev pub Explains : Result (Option Text) ProxyError → Type 0
  Explains (ok none) = (p.mode ≡ direct) ⊎ (p.mode ≡ system)
  Explains (ok (some u)) = IsChoice u
  Explains (err no_custom_url) = (p.mode ≡ custom) × (p.custom_url ≡ [])
  Explains (err empty_pool) = (p.mode ≡ pool) × (p.proxy_urls ≡ [])
  Explains (err no_account) = (p.mode ≡ pool) × (p.strategy ≡ per_account) × (account_email ≡ none)
  Explains (err _) = ⊥

  from_custom-Explains : (u : Text) → p.mode ≡ custom → p.custom_url ≡ u → Explains (from_custom u)
  unfolding from_custom
  from_custom-Explains [] m e = (m, e)
  from_custom-Explains (c ∷ s) m e = inl (m, sym e, λ f. cc)

  Reads-Explains :
      (r : Result (Option Text) ProxyError) → p.mode ≡ pool → Reads p.proxy_urls r → Explains r
  Reads-Explains (ok (some u)) m h = inr (m, h)
  Reads-Explains (ok none) m h = absurd h
  Reads-Explains (err e) m h = absurd h

  module _ (hash : Text → ℕ) (seed : ℕ) (m : p.mode ≡ pool) where
    read-Explains :
        (n : ℕ) → 0 < length p.proxy_urls → Explains (nth p.proxy_urls (n % length p.proxy_urls))
    read-Explains n h =
        Reads-Explains (nth p.proxy_urls (n % length p.proxy_urls)) m
          (nth-Reads p.proxy_urls (n % length p.proxy_urls) (mod_in_range n p.proxy_urls h))

    next_index-Explains :
        (s : ProxyRotationStrategy) (a : Option Text)
        → 0 < length p.proxy_urls
        → p.strategy ≡ s
        → account_email ≡ a
        → Explains (indexed p.proxy_urls (next_index hash p s seed a)).1
    unfolding next_index indexed
    next_index-Explains round_robin a h f g = read-Explains p.rr_counter h
    next_index-Explains random a h f g = read-Explains seed h
    next_index-Explains per_account none h f g = (m, f, g)
    next_index-Explains per_account (some email) h f g = read-Explains (hash email) h

    from_pool-Explains :
        (us : List Text) → p.proxy_urls ≡ us → Explains (from_pool hash p seed account_email us).1
    unfolding from_pool
    from_pool-Explains [] e = (m, e)
    from_pool-Explains (u ∷ us) e =
        let n = ap length e in
        subst (λ l. Explains (indexed l (next_index hash p p.strategy seed account_email)).1) e
          (next_index-Explains p.strategy account_email (omega arith) refl refl)

  select_in-Explains :
      (hash : Text → ℕ) (seed : ℕ) (mode : UpstreamProxyMode)
      → p.mode ≡ mode
      → Explains (select_in hash p mode seed account_email).1
  unfolding select_in
  select_in-Explains hash seed direct e = inl e
  select_in-Explains hash seed system e = inr e
  select_in-Explains hash seed custom e = from_custom-Explains p.custom_url e refl
  select_in-Explains hash seed pool e = from_pool-Explains hash seed e p.proxy_urls refl

  select_in-keeps :
      (hash : Text → ℕ) (seed : ℕ)
      → let p' = (select_proxy_url hash p seed account_email).0 in
        (p'.clients ≡ p.clients) × (p'.direct_client ≡ p.direct_client)
  unfolding select_proxy_url select_in from_pool indexed next_index
  select_in-keeps hash seed = ground arith

  -- Where a client comes from, or why there is none.
  abbrev pub Serves : (Text → Result Client Text) → Result Client ProxyError → Type 0
  Serves build (ok c) =
      (((p.mode ≡ direct) ⊎ (p.mode ≡ system)) × (c ≡ p.direct_client))
      ⊎ ((u : Text) × IsChoice u × ((lookup u p.clients ≡ some c) ⊎ (build u ≡ ok c)))
  Serves build (err (not_built e)) = (u : Text) × IsChoice u × (build u ≡ err e)
  Serves build (err e) = Explains (err e)

  get_or_create-Serves :
      (build : Text → Result Client Text) (p' : ProxyPool Client) (u : Text)
      → p'.clients ≡ p.clients
      → IsChoice u
      → Serves build (get_or_create_client build p' u).1
  unfolding get_or_create_client built
  get_or_create-Serves build p' u same h = elim (Option-cases (lookup u p'.clients)) [
    | inr (c, e) ↦ rw (get_or_create_client, e) (inr (u, h, inl (ap (lookup u) (sym same) ∙ e)))
    | inl n ↦ rw (get_or_create_client, n) (built-Serves (build u) refl)
  ]
    where
      built-Serves : (r : Result Client Text) → build u ≡ r → Serves build (built p' u r).1
      built-Serves (ok c) e = inr (u, h, inr e)
      built-Serves (err x) e = (u, h, e)

  client_for-Serves :
      (build : Text → Result Client Text) (out : ProxyPool Client × Result (Option Text) ProxyError)
      → out.0.clients ≡ p.clients
      → out.0.direct_client ≡ p.direct_client
      → Explains out.1
      → Serves build (client_for build out).1
  unfolding client_for
  client_for-Serves build (p', ok none) same dir h = inl (h, dir)
  client_for-Serves build (p', ok (some u)) same dir h = get_or_create-Serves build p' u same h
  client_for-Serves build (p', err no_custom_url) same dir h = h
  client_for-Serves build (p', err empty_pool) same dir h = h
  client_for-Serves build (p', err no_account) same dir h = h
  client_for-Serves build (p', err empty_url) same dir h = absurd h
  client_for-Serves build (p', err (invalid_url u)) same dir h = absurd h
  client_for-Serves build (p', err (invalid_port u)) same dir h = absurd h
  client_for-Serves build (p', err (unrecognized u)) same dir h = absurd h
  client_for-Serves build (p', err index_panic) same dir h = absurd h
  client_for-Serves build (p', err (not_built e)) same dir h = absurd h

  -- A request goes out directly only in the modes without a proxy. Else its client is one for the
  -- proxy of the custom mode or for a proxy of the pool, made before or now; it fails, and no index
  -- is out of range, only where the address of the custom mode or the pool is empty, where the
  -- strategy asks for an account and there is none, or where the client of such a proxy cannot be
  -- made.
  pub get_client-Serves :
      (build : Text → Result Client Text) (hash : Text → ℕ) (seed : ℕ)
      → Serves build (get_client build hash p seed account_email).1
  unfolding get_client select_proxy_url
  get_client-Serves build hash seed =
      let out = select_proxy_url hash p seed account_email in
      let k = select_in-keeps hash seed in
      client_for-Serves build out k.0 k.1 (select_in-Explains hash seed p.mode refl)
