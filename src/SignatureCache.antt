-- ===== src/SignatureCache.antt =====
-- The caches of thought signatures: crates/antigravity-core/src/proxy/signature_cache. `now` is
-- `SystemTime::now()` in nanoseconds; `elapsed` of a later time counts as zero. A write to the
-- database is spawned: an operation returns it, and does not wait for it. The metrics are left
-- out.
pub mod Live
pub mod Stores
pub mod Database
mod Examples
use antigravity_server.Prelude.Result.{Result, ok, err}
use antigravity_server.Prelude.Map.{Map, insert, lookup, retain, text_key}
use antigravity_server.Prelude.Text.{Text, text, len}
use antigravity_server.Prelude.{
  ℕ, ◌-◌, ◌*◌, Bool, true, false, not, ◌||◌, Option, none, some, is_some, option_map, List, [], ◌∷◌,
  ◌++◌, length, take, ltb, from_secs, if◌then◌else◌,
}

abbrev pub signature_ttl : ℕ
signature_ttl = from_secs (7 * 24 * 60 * 60)

abbrev pub min_signature_length : ℕ
min_signature_length = 50

abbrev pub tool_cache_limit : ℕ
tool_cache_limit = 500

abbrev pub family_cache_limit : ℕ
family_cache_limit = 200

abbrev pub session_cache_limit : ℕ
session_cache_limit = 1000

abbrev pub content_cache_limit : ℕ
content_cache_limit = 2000

pub record CacheEntry (T : Type 0) : Type 0 where
  pub value : T
  pub timestamp : ℕ

unfoldable pub is_expired : {T : Type 0} → ℕ → CacheEntry T → Bool
is_expired now e = ltb signature_ttl (now - e.timestamp)

pub record ContentSignatureEntry : Type 0 where
  pub signature : Text
  pub model_family : Text

abbrev pub Cache : Type 0 → Type 0
Cache T = Map Text (CacheEntry T)

pub record SignatureCache : Type 0 where
  pub tool_signatures : Cache Text
  pub thinking_families : Cache Text
  pub session_signatures : Cache Text
  pub content_signatures : Cache ContentSignatureEntry
  pub db_pool : Bool

-- A write that is spawned.
pub data Write : Type 0 where
  store_session_signature : Text → Text → Write
  store_signature : Text → Text → Text → Write

unfoldable pub empty_cache : SignatureCache
empty_cache = record {
  tool_signatures = [];
  thinking_families = [];
  session_signatures = [];
  content_signatures = [];
  db_pool = false;
}

module _ {T : Type 0} where
  -- Over its limit a cache drops what has expired.
  unfoldable pub cleanup : ℕ → ℕ → Cache T → Cache T
  unfolding is_expired
  cleanup limit now m = if ltb limit (length m) then retain (λ k e. not (is_expired now e)) m else m

  abbrev pub entry : T → ℕ → CacheEntry T
  entry v now = record { value = v; timestamp = now }

  abbrev pub unless_expired : ℕ → Option (CacheEntry T) → Option (CacheEntry T)
  unless_expired now none = none
  unless_expired now (some e) = if is_expired now e then none else some e

  -- What a cache holds for a key at a time.
  unfoldable pub live : ℕ → Cache T → Text → Option (CacheEntry T)
  live now m k = unless_expired now (lookup k m)

unfoldable pub cache_tool_signature : SignatureCache → Text → Text → ℕ → SignatureCache
unfolding cleanup
cache_tool_signature c tool_use_id signature now =
    if ltb (len signature) min_signature_length then c else record c {
      tool_signatures =
          cleanup tool_cache_limit now (insert tool_use_id (entry signature now) c.tool_signatures);
    }

unfoldable pub get_tool_signature : SignatureCache → Text → ℕ → Option Text
unfolding live
get_tool_signature c tool_use_id now =
    option_map (λ e. e.value) (live now c.tool_signatures tool_use_id)

unfoldable pub cache_thinking_family : SignatureCache → Text → Text → ℕ → SignatureCache
unfolding cleanup
cache_thinking_family c signature family now =
    if ltb (len signature) min_signature_length then c else record c {
      thinking_families =
          cleanup family_cache_limit now (insert signature (entry family now) c.thinking_families);
    }

-- The family of a signature, expired or not.
unfoldable pub get_signature_family : SignatureCache → Text → Option Text
get_signature_family c signature = option_map (λ e. e.value) (lookup signature c.thinking_families)

-- A signature replaces a shorter one, or one that has expired.
unfoldable pub should_store : ℕ → Text → Option (CacheEntry Text) → Bool
unfolding is_expired
should_store now signature none = true
should_store now signature (some existing) =
    is_expired now existing || ltb (len existing.value) (len signature)

unfoldable pub cache_session_signature :
    SignatureCache → Text → Text → ℕ → SignatureCache × List Write
unfolding cleanup should_store
cache_session_signature c session_id signature now =
    if ltb (len signature) min_signature_length
    then (c, [])
    else if should_store now signature (lookup session_id c.session_signatures)
    then (
      record c {
        session_signatures =
            cleanup session_cache_limit now
              (insert session_id (entry signature now) c.session_signatures);
      },
      if c.db_pool then store_session_signature session_id signature ∷ [] else [],
    )
    else (
      record c { session_signatures = cleanup session_cache_limit now c.session_signatures },
      [],
    )

unfoldable pub has_session_signature : SignatureCache → Text → ℕ → Bool
unfolding live
has_session_signature c session_id now = is_some (live now c.session_signatures session_id)

unfoldable pub get_session_signature : SignatureCache → Text → ℕ → Option Text
unfolding live
get_session_signature c session_id now =
    option_map (λ e. e.value) (live now c.session_signatures session_id)

-- What the database answers, once memory has nothing.
unfoldable pub from_db_session :
    SignatureCache → Text → ℕ → Result (Option Text) Text → SignatureCache × Option Text
from_db_session c session_id now (ok (some sig)) = (
  record c { session_signatures = insert session_id (entry sig now) c.session_signatures },
  some sig,
)
from_db_session c session_id now (ok none) = (c, none)
from_db_session c session_id now (err e) = (c, none)

unfoldable pub get_session_signature_with_db :
    (Text → Result (Option Text) Text) → SignatureCache → Text → ℕ → SignatureCache × Option Text
unfolding get_session_signature from_db_session
get_session_signature_with_db db c session_id now = elim (get_session_signature c session_id now) [
  | some sig ↦ (c, some sig)
  | none ↦ if c.db_pool then from_db_session c session_id now (db session_id) else (c, none)
]

-- `sha256` gives the digest of a text in hexadecimal digits.
module _ (sha256 : Text → Text) where
  unfoldable pub compute_content_hash : Text → Text
  compute_content_hash content = text "ch-" ++ take 16 (sha256 content)

  abbrev pub content_entry : Text → Text → ContentSignatureEntry
  content_entry signature family = record { signature = signature; model_family = family }

  unfoldable pub cache_content_signature :
      SignatureCache → Text → Text → Text → ℕ → SignatureCache × List Write
  unfolding cleanup compute_content_hash
  cache_content_signature c content signature family now =
      if ltb (len signature) min_signature_length || ltb (len content) 20
      then (c, [])
      else (let hash = compute_content_hash content in
          (
            record c {
              content_signatures =
                  cleanup content_cache_limit now
                    (insert hash (entry (content_entry signature family) now) c.content_signatures);
            },
            if c.db_pool then store_signature hash signature family ∷ [] else [],
          ))

  unfoldable pub get_content_signature : SignatureCache → Text → ℕ → Option (Text × Text)
  unfolding live compute_content_hash
  get_content_signature c content now =
      option_map (λ e. (e.value.signature, e.value.model_family))
        (live now c.content_signatures (compute_content_hash content))

  unfoldable pub from_db_content :
      SignatureCache
      → Text
      → ℕ
      → Result (Option (Text × Text)) Text
      → SignatureCache × Option (Text × Text)
  from_db_content c hash now (ok (some (sig, family))) = (
    record c {
      content_signatures = insert hash (entry (content_entry sig family) now) c.content_signatures;
    },
    some (sig, family),
  )
  from_db_content c hash now (ok none) = (c, none)
  from_db_content c hash now (err e) = (c, none)

  unfoldable pub get_content_signature_with_db :
      (Text → Result (Option (Text × Text)) Text)
      → SignatureCache
      → Text
      → ℕ
      → SignatureCache × Option (Text × Text)
  unfolding get_content_signature compute_content_hash from_db_content
  get_content_signature_with_db db c content now = elim (get_content_signature c content now) [
    | some found ↦ (c, some found)
    | none ↦
        let hash = compute_content_hash content in
        if c.db_pool then from_db_content c hash now (db hash) else (c, none)
  ]

  -- The pool is read once, and the clock at each entry.
  preload_one :
      (Text → Result (Option (Text × Text)) Text) → SignatureCache → Text → ℕ → SignatureCache
  unfolding from_db_content
  preload_one db c hash now =
      if is_some (lookup hash c.content_signatures)
      then c
      else (from_db_content c hash now (db hash)).0

  preload_all :
      (Text → Result (Option (Text × Text)) Text)
      → SignatureCache
      → List (Text × ℕ)
      → SignatureCache
  unfolding preload_one
  preload_all db c [] = c
  preload_all db c ((hash, now) ∷ rest) = preload_all db (preload_one db c hash now) rest

  unfoldable pub preload_signatures_from_db :
      (Text → Result (Option (Text × Text)) Text)
      → SignatureCache
      → List (Text × ℕ)
      → SignatureCache
  unfolding preload_all
  preload_signatures_from_db db c hashes = if c.db_pool then preload_all db c hashes else c
