-- ===== src/SignatureCache/Database.antt =====
-- The signatures of contents, and the database behind the memory.
use antigravity_server.SignatureCache.{
  Cache, SignatureCache, cache_content_signature, cleanup, compute_content_hash,
  content_cache_limit, content_entry, entry, from_db_session, get_content_signature,
  get_session_signature, get_session_signature_with_db, is_expired, live, min_signature_length,
  signature_ttl, unless_expired,
}
use antigravity_server.SignatureCache.Live.{live-cleanup, live-insert, live_later, put_live}
use antigravity_server.Prelude.Result.{Result, ok, err}
use antigravity_server.Prelude.Map.{IsUnique, insert, insert-IsUnique, text_key}
use antigravity_server.Prelude.Text.{Text, Text-discrete, len}
use antigravity_server.Prelude.{
  ℕ, ◌+◌, ◌≡◌, ◌≤◌, ◌∙◌, refl, sym, ap, subst, arith, true, false, Bool, inl, inr, Option,
  Option-cases, none, some, option_map, ltb, if_pos, if_neg, if◌then◌else◌,
}

-- What the database has for a key, where there is a pool.
abbrev pub in_db : Bool → Result (Option Text) Text → Option Text
in_db false r = none
in_db true (ok o) = o
in_db true (err e) = none

abbrev pub memory_first : Option Text → Option Text → Option Text
memory_first none o = o
memory_first (some s) o = some s

live-insert_self :
    {T : Type 0} (now : ℕ) (k : Text) (v : T) (m : Cache T)
    → live now (insert k (entry v now) m) k ≡ some (entry v now)
unfolding put_live
live-insert_self now k v m =
    ap (λ f. f k) (live-insert now k v m)
    ∙ if_pos (Text-discrete k k) refl (some (entry v now)) (live now m k)

live-insert_ne :
    {T : Type 0} (now : ℕ) (k j : Text) (v : T) (m : Cache T)
    → ¬ (k ≡ j)
    → live now (insert k (entry v now) m) j ≡ live now m j
unfolding put_live
live-insert_ne now k j v m n =
    ap (λ f. f j) (live-insert now k v m)
    ∙ if_neg (Text-discrete k j) n (some (entry v now)) (live now m j)

-- The answer, the answer that memory then has, and the other sessions.
abbrev pub Answers : SignatureCache → Text → ℕ → Option Text → SignatureCache × Option Text → Type 0
Answers c session_id now expected (c', found) =
    (found ≡ expected)
    × (get_session_signature c' session_id now ≡ expected)
    × ((other : Text)
        → ¬ (session_id ≡ other)
        → get_session_signature c' other now ≡ get_session_signature c other now)

from_db_session-Answers :
    (c : SignatureCache) (session_id : Text) (now : ℕ) (r : Result (Option Text) Text)
    → get_session_signature c session_id now ≡ none
    → Answers c session_id now (in_db true r) (from_db_session c session_id now r)
unfolding from_db_session get_session_signature
from_db_session-Answers c session_id now (ok (some sig)) e = (
  refl,
  ap (option_map (λ x. x.value)) (live-insert_self now session_id sig c.session_signatures),
  λ other n.
      ap (option_map (λ x. x.value))
        (live-insert_ne now session_id other sig c.session_signatures n),
)
from_db_session-Answers c session_id now (ok none) e = (refl, e, λ other n. refl)
from_db_session-Answers c session_id now (err x) e = (refl, e, λ other n. refl)

pooled_or_not :
    (b : Bool) (c : SignatureCache) (session_id : Text) (now : ℕ) (r : Result (Option Text) Text)
    → get_session_signature c session_id now ≡ none
    → Answers c session_id now
        (in_db b r)
        (if b then from_db_session c session_id now r else (c, none))
pooled_or_not true c session_id now r e = from_db_session-Answers c session_id now r e
pooled_or_not false c session_id now r e = (refl, e, λ other n. refl)

-- A look-up with the database gives what memory has, or else what the database has, if there is a
-- pool and it answers; afterwards memory alone gives the same for this session, and what it gave
-- for every other one.
pub get_session_signature_with_db-Answers :
    (db : Text → Result (Option Text) Text) (c : SignatureCache) (session_id : Text) (now : ℕ)
    → Answers c session_id now
        (memory_first (get_session_signature c session_id now) (in_db c.db_pool (db session_id)))
        (get_session_signature_with_db db c session_id now)
unfolding get_session_signature_with_db
get_session_signature_with_db-Answers db c session_id now =
    let pooled = λ (o : Option Text).
      Answers c session_id now (memory_first o (in_db c.db_pool (db session_id)))
        (get_session_signature_with_db db c session_id now) in
    elim (Option-cases (get_session_signature c session_id now)) [
      | inr (sig, e) ↦
          subst pooled (sym e) (rw (e, get_session_signature_with_db) (refl, e, λ other n. refl))
      | inl e ↦ subst pooled (sym e) (
          rw (e, get_session_signature_with_db)
            (pooled_or_not c.db_pool c session_id now (db session_id) e))
    ]

within :
    {T : Type 0} (now later : ℕ) (v : T)
    → later ≤ now + signature_ttl
    → is_expired later (entry v now) ≡ false
unfolding is_expired
within now later v le = ground arith

module _ (sha256 : Text → Text) where
  -- A signature of 50 bytes at least that is stored for a content of 20 bytes at least is found
  -- again with its family, until its time to live is over.
  pub get_content_signature-cache :
      (c : SignatureCache) (content signature family : Text) (now later : ℕ)
      → IsUnique c.content_signatures
      → min_signature_length ≤ len signature
      → 20 ≤ len content
      → now ≤ later
      → later ≤ now + signature_ttl
      → get_content_signature sha256
          (cache_content_signature sha256 c content signature family now).0
          content
          later
        ≡ some (signature, family)
  unfolding cache_content_signature get_content_signature
  get_content_signature-cache c content signature family now later u long content_long le small =
      let a : ltb (len signature) min_signature_length ≡ false = ground arith in
      let b : ltb (len content) 20 ≡ false = ground arith in
      let hash = compute_content_hash sha256 content in
      let v = content_entry sha256 signature family in
      let m = insert hash (entry v now) c.content_signatures in
      let at_now : live now (cleanup content_cache_limit now m) hash ≡ some (entry v now) =
        ap (λ f. f hash)
          (live-cleanup content_cache_limit now m
            (insert-IsUnique hash (entry v now) c.content_signatures u))
        ∙ live-insert_self now hash v c.content_signatures in
      let kept : is_expired later (entry v now) ≡ false = within now later v small in
      let found : unless_expired later (some (entry v now)) ≡ some (entry v now) = rw kept refl in
      rw (a, b)
        (ap (option_map (λ x. (x.value.signature, x.value.model_family))) (
          live_later now later (cleanup content_cache_limit now m) hash le
          ∙ ap (unless_expired later) at_now
          ∙ found))
