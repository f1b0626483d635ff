-- ===== src/ProxyPool.antt =====
-- The pool of upstream proxies: crates/antigravity-core/src/proxy/proxy_pool.rs.
-- `Client` is `reqwest::Client`; `valid_url` is `url::Url::parse`, with its error, `build` makes a
-- client for a proxy, and `hash` is `DefaultHasher` on an address.
pub mod Strict
pub mod Rotation
mod Examples
use antigravity_server.Prelude.Result.{Result, ok, err}
use antigravity_server.Prelude.Map.{Map, insert, lookup, retain, text_key}
use antigravity_server.Prelude.Text.{Text, Text-discrete, text, starts_with, trim, parse_u64}
use antigravity_server.Prelude.{
  ℕ, zero, suc, ◌+◌, ◌%◌, ◌^◌, Bool, true, false, ◌||◌, Option, none, some, List, [], ◌∷◌, ◌++◌,
  length, leb, ◌==◌, ite, if◌then◌else◌,
}

pub data UpstreamProxyMode : Type 0 where
  direct system custom pool : UpstreamProxyMode

pub data ProxyRotationStrategy : Type 0 where
  round_robin random per_account : ProxyRotationStrategy

pub data ProxyError : Type 0 where
  empty_url : ProxyError
  invalid_url invalid_port unrecognized : Text → ProxyError
  no_custom_url empty_pool no_account : ProxyError
  index_panic : ProxyError
  not_built : Text → ProxyError

-- The text before the first `:` and the text after it.
before_colon : Text → Text
before_colon [] = []
before_colon (c ∷ s) = let rest = before_colon s in if c == b':' then [] else c ∷ rest

after_colon : Text → Option Text
after_colon [] = none
after_colon (c ∷ s) = let rest = after_colon s in if c == b':' then some s else rest

-- `splitn(n, ':')`.
unfoldable pub splitn : ℕ → Text → List Text
unfolding before_colon after_colon
splitn zero s = []
splitn (suc zero) s = s ∷ []
splitn (suc (suc n)) s = elim (after_colon s) [
  | none ↦ s ∷ []
  | some r ↦ before_colon s ∷ splitn (suc n) r
]

-- `str::parse::<u16>`.
is_u16 : Text → Bool
unfolding parse_u64
is_u16 s = elim (parse_u64 s) [ none ↦ false | some n ↦ leb n 65535 ]

from_parts : Text → List Text → Result Text ProxyError
unfolding is_u16
from_parts trimmed (ip ∷ port ∷ user ∷ pass ∷ []) =
    if is_u16 port
    then ok (text "http://" ++ (user ++ (b':' ∷ pass ++ (b'@' ∷ ip ++ (b':' ∷ port)))))
    else err (invalid_port port)
from_parts trimmed (ip ∷ port ∷ []) =
    if is_u16 port then ok (text "http://" ++ trimmed) else err (invalid_port port)
from_parts trimmed _ = err (unrecognized trimmed)

has_scheme : Text → Bool
unfolding starts_with
has_scheme s =
    starts_with s (text "http://")
    || starts_with s (text "https://")
    || starts_with s (text "socks5://")
    || starts_with s (text "socks5h://")

parse_trimmed : (Text → Bool) → Text → Result Text ProxyError
unfolding has_scheme splitn from_parts
parse_trimmed valid_url [] = err empty_url
parse_trimmed valid_url (c ∷ s) =
    let trimmed = c ∷ s in
    if has_scheme trimmed
    then (if valid_url trimmed then ok trimmed else err (invalid_url trimmed))
    else from_parts trimmed (splitn 4 trimmed)

unfoldable pub parse_proxy_url : (Text → Bool) → Text → Result Text ProxyError
unfolding parse_trimmed trim
parse_proxy_url valid_url raw = parse_trimmed valid_url (trim raw)

-- The addresses that parse; the others are left out.
unfoldable pub parsed_urls : (Text → Bool) → List Text → List Text
unfolding parse_proxy_url
parsed_urls valid_url [] = []
parsed_urls valid_url (raw ∷ rest) =
    let urls = parsed_urls valid_url rest in
    elim (parse_proxy_url valid_url raw) [ ok url ↦ url ∷ urls | err e ↦ urls ]

pub record UpstreamProxyConfig : Type 0 where
  pub config_mode : UpstreamProxyMode
  pub url : Text
  pub config_urls : List Text
  pub rotation_strategy : ProxyRotationStrategy

pub record ProxyPool (Client : Type 0) : Type 0 where
  pub direct_client : Client
  pub clients : Map Text Client
  pub proxy_urls : List Text
  pub rr_counter : ℕ
  pub strategy : ProxyRotationStrategy
  pub mode : UpstreamProxyMode
  pub custom_url : Text

same_urls : List Text → List Text → Bool
unfolding Text-discrete
same_urls [] [] = true
same_urls (u ∷ us) (v ∷ vs) = let rest = same_urls us vs in ite (Text-discrete u v) rest false
same_urls _ _ = false

unfoldable pub contains_url : Text → List Text → Bool
unfolding Text-discrete
contains_url u [] = false
contains_url u (v ∷ vs) = let rest = contains_url u vs in ite (Text-discrete v u) true rest

-- `urls[i]`, which panics out of range.
unfoldable pub nth : List Text → ℕ → Result (Option Text) ProxyError
nth [] i = err index_panic
nth (u ∷ us) zero = ok (some u)
nth (u ∷ us) (suc i) = nth us i

unfoldable pub from_custom : Text → Result (Option Text) ProxyError
from_custom [] = err no_custom_url
from_custom (c ∷ s) = ok (some (c ∷ s))

module _ {Client : Type 0} where
  unfoldable pub new : (Text → Bool) → Client → UpstreamProxyConfig → ProxyPool Client
  unfolding parsed_urls
  new valid_url direct_client config = record {
    direct_client = direct_client;
    clients = [];
    proxy_urls = parsed_urls valid_url config.config_urls;
    rr_counter = 0;
    strategy = config.rotation_strategy;
    mode = config.config_mode;
    custom_url = config.url;
  }

  -- The clients of the proxies that are gone are dropped. Where the list is the same, nothing is.
  unfoldable pub update_config :
      (Text → Bool) → ProxyPool Client → UpstreamProxyConfig → ProxyPool Client
  unfolding parsed_urls contains_url same_urls
  update_config valid_url p config =
      let new_parsed = parsed_urls valid_url config.config_urls in
      let p' = record p {
        mode = config.config_mode;
        strategy = config.rotation_strategy;
        custom_url = config.url;
      } in
      if same_urls p.proxy_urls new_parsed then p' else record p' {
        clients = retain (λ u c. contains_url u new_parsed) p.clients;
        proxy_urls = new_parsed;
      }

  -- The index into the list of proxies, and the counter after it. `seed` is the fraction of the
  -- clock's second, in nanoseconds.
  unfoldable pub next_index :
      (Text → ℕ)
      → ProxyPool Client
      → ProxyRotationStrategy
      → (seed : ℕ) → Option Text
      → ProxyPool Client × Result ℕ ProxyError
  next_index hash p round_robin seed account_email = (
    record p { rr_counter = (p.rr_counter + 1) % 2 ^ 64 },
    ok (p.rr_counter % length p.proxy_urls),
  )
  next_index hash p random seed account_email = (p, ok (seed % length p.proxy_urls))
  next_index hash p per_account seed none = (p, err no_account)
  next_index hash p per_account seed (some email) = (p, ok (hash email % length p.proxy_urls))

  unfoldable pub indexed :
      List Text
      → ProxyPool Client × Result ℕ ProxyError
      → ProxyPool Client × Result (Option Text) ProxyError
  unfolding nth
  indexed urls (p, err e) = (p, err e)
  indexed urls (p, ok i) = (p, nth urls i)

  unfoldable pub from_pool :
      (Text → ℕ)
      → ProxyPool Client
      → ℕ
      → Option Text
      → List Text
      → ProxyPool Client × Result (Option Text) ProxyError
  unfolding next_index indexed
  from_pool hash p seed account_email [] = (p, err empty_pool)
  from_pool hash p seed account_email (u ∷ us) =
      indexed (u ∷ us) (next_index hash p p.strategy seed account_email)

  unfoldable pub select_in :
      (Text → ℕ)
      → ProxyPool Client
      → UpstreamProxyMode
      → ℕ
      → Option Text
      → ProxyPool Client × Result (Option Text) ProxyError
  unfolding from_pool from_custom
  select_in hash p direct seed account_email = (p, ok none)
  select_in hash p system seed account_email = (p, ok none)
  select_in hash p custom seed account_email = (p, from_custom p.custom_url)
  select_in hash p pool seed account_email = from_pool hash p seed account_email p.proxy_urls

  unfoldable pub select_proxy_url :
      (Text → ℕ)
      → ProxyPool Client
      → ℕ
      → Option Text
      → ProxyPool Client × Result (Option Text) ProxyError
  unfolding select_in
  select_proxy_url hash p seed account_email = select_in hash p p.mode seed account_email

  unfoldable pub built :
      ProxyPool Client → Text → Result Client Text → ProxyPool Client × Result Client ProxyError
  built p u (ok c) = (record p { clients = insert u c p.clients }, ok c)
  built p u (err e) = (p, err (not_built e))

  unfoldable pub get_or_create_client :
      (Text → Result Client Text)
      → ProxyPool Client
      → Text
      → ProxyPool Client × Result Client ProxyError
  unfolding built
  get_or_create_client build p u = elim (lookup u p.clients) [
    | some c ↦ (p, ok c)
    | none ↦ built p u (build u)
  ]

  unfoldable pub client_for :
      (Text → Result Client Text)
      → ProxyPool Client × Result (Option Text) ProxyError
      → ProxyPool Client × Result Client ProxyError
  unfolding get_or_create_client
  client_for build (p, err e) = (p, err e)
  client_for build (p, ok none) = (p, ok p.direct_client)
  client_for build (p, ok (some u)) = get_or_create_client build p u

  unfoldable pub get_client :
      (Text → Result Client Text)
      → (Text → ℕ)
      → ProxyPool Client
      → ℕ
      → Option Text
      → ProxyPool Client × Result Client ProxyError
  unfolding client_for select_proxy_url
  get_client build hash p seed account_email =
      client_for build (select_proxy_url hash p seed account_email)
