-- ===== src/SignatureCache/Stores.antt =====
-- What the cache of the sessions answers after any stores.
use antigravity_server.SignatureCache.{
  Cache, CacheEntry, SignatureCache, Write, cache_session_signature, entry, get_session_signature,
  is_expired, live, min_signature_length, session_cache_limit, should_store, signature_ttl,
  unless_expired,
}
use antigravity_server.SignatureCache.Live.{
  cleanup-IsUnique, live-cleanup, live-insert, live_later, put_live,
}
use antigravity_server.Prelude.Map.{IsUnique, insert, insert-IsUnique, lookup, text_key}
use antigravity_server.Prelude.Text.{Text, Text-discrete, len}
use antigravity_server.Prelude.{
  ℕ, ◌+◌, ◌≡◌, ◌≤◌, ◌∙◌, refl, sym, ap, subst, arith, true, false, Bool, Bool-cases, inl, inr,
  Option, none, some, option_map, List, [], ◌∷◌, ltb, if-keeps, ite, if_pos, if_neg, if◌then◌else◌,
}

-- A signature takes the place of a shorter one, or of none.
abbrev pub is_longer : Text → Option Text → Bool
is_longer signature none = true
is_longer signature (some old) = ltb (len old) (len signature)

abbrev pub value_of : Option (CacheEntry Text) → Option Text
value_of o = option_map (λ e. e.value) o

-- The table of sessions: a signature of 50 bytes at least is kept if it is longer than the one
-- there.
unfoldable pub keep_longer :
    ℕ → (Text → Option (CacheEntry Text)) → Text → Text → Text → Option (CacheEntry Text)
keep_longer now f session_id signature =
    if ltb (len signature) min_signature_length
    then f
    else if is_longer signature (value_of (f session_id))
    then put_live f session_id (entry signature now)
    else f

should_store-is_longer :
    (now : ℕ) (signature : Text) (o : Option (CacheEntry Text))
    → should_store now signature o ≡ is_longer signature (value_of (unless_expired now o))
unfolding should_store
should_store-is_longer now signature none = refl
should_store-is_longer now signature (some e) = ground arith

module _ (c : SignatureCache) (session_id signature : Text) (now : ℕ) where
  abbrev after_store : Cache Text
  after_store = (cache_session_signature c session_id signature now).0.session_signatures

  -- A store of a session's signature is, for every look-up at its time, the change of a table from
  -- sessions to signatures that keeps the longer one; what is expired counts as absent, and the
  -- clean-up does not show.
  pub live-cache_session_signature :
      IsUnique c.session_signatures
      → live now (cache_session_signature c session_id signature now).0.session_signatures
        ≡ keep_longer now (live now c.session_signatures) session_id signature
  unfolding cache_session_signature keep_longer live
  live-cache_session_signature u = elim (Bool-cases (ltb (len signature) min_signature_length)) [
    | inl short ↦ rw short refl
    | inr long ↦
        let e = should_store-is_longer now signature (lookup session_id c.session_signatures) in
        let m = insert session_id (entry signature now) c.session_signatures in
        rw long
          (elim (Bool-cases (should_store now signature (lookup session_id c.session_signatures))) [
            | inl stored ↦
                rw (stored, sym e ∙ stored)
                  (live-cleanup session_cache_limit now m
                      (insert-IsUnique session_id (entry signature now) c.session_signatures u)
                    ∙ live-insert now session_id signature c.session_signatures)
            | inr kept ↦
                rw (kept, sym e ∙ kept)
                  (live-cleanup session_cache_limit now c.session_signatures u)
          ])
  ]

  cache_session_signature-IsUnique : IsUnique c.session_signatures → IsUnique after_store
  unfolding cache_session_signature
  cache_session_signature-IsUnique u =
      let P = λ (out : SignatureCache × List Write). IsUnique out.0.session_signatures in
      if-keeps P (ltb (len signature) min_signature_length) u (
        if-keeps P (should_store now signature (lookup session_id c.session_signatures))
          (cleanup-IsUnique session_cache_limit now
            (insert session_id (entry signature now) c.session_signatures)
            (insert-IsUnique session_id (entry signature now) c.session_signatures u))
          (cleanup-IsUnique session_cache_limit now c.session_signatures u))

-- A store, as it is called.
pub record Call : Type 0 where
  pub session_id : Text
  pub signature : Text
  pub time : ℕ

unfoldable pub run : SignatureCache → List Call → SignatureCache
run c [] = c
run c (x ∷ xs) = run (cache_session_signature c x.session_id x.signature x.time).0 xs

-- The calls follow one another between two times.
abbrev pub Within : ℕ → ℕ → List Call → Type 0
Within from to [] = from ≤ to
Within from to (x ∷ xs) = (from ≤ x.time) × Within x.time to xs

-- The longest signature of a session among `best` and the calls, the first of those of its length.
unfoldable pub better : Text → Option Text → Call → Option Text
better session_id best x =
    ite (Text-discrete x.session_id session_id)
      (if ltb (len x.signature) min_signature_length
        then best
        else if is_longer x.signature best
        then some x.signature
        else best)
      best

unfoldable pub longest : Text → Option Text → List Call → Option Text
unfolding better
longest session_id best [] = best
longest session_id best (x ∷ xs) = longest session_id (better session_id best x) xs

before : {small : ℕ} (from to : ℕ) (xs : List Call) → Within from to xs → to ≤ small → from ≤ small
before from to [] w le = omega arith
before from to (x ∷ xs) w le = let k = before x.time to xs w.1 le in omega arith

not_expired :
    {from : ℕ} (now : ℕ) (e : CacheEntry Text)
    → now ≤ from + signature_ttl
    → from ≤ e.timestamp
    → is_expired now e ≡ false
unfolding is_expired
not_expired now e le h = ground arith

module _ (from : ℕ) where
  -- A look-up gives this signature, stored at `from` or later.
  abbrev Holds : Option Text → Option (CacheEntry Text) → Type 0
  Holds best none = best ≡ none
  Holds best (some e) = (best ≡ some e.value) × (from ≤ e.timestamp)

  later-Holds :
      (now : ℕ) (best : Option Text) (o : Option (CacheEntry Text))
      → now ≤ from + signature_ttl
      → Holds best o
      → Holds best (unless_expired now o)
  later-Holds now best none le h = h
  later-Holds now best (some e) le h =
      let kept : is_expired now e ≡ false = not_expired now e le h.1 in rw kept h

  Holds-value :
      (best : Option Text) (o : Option (CacheEntry Text)) → Holds best o → value_of o ≡ best
  Holds-value best none h = sym h
  Holds-value best (some e) h = sym h.0

  abbrev longer_of : Option Text → Text → Option Text
  longer_of best signature =
      if ltb (len signature) min_signature_length
      then best
      else if is_longer signature best
      then some signature
      else best

  keep_longer_self :
      (now : ℕ) (f : Text → Option (CacheEntry Text)) (k signature : Text) (best : Option Text)
      → from ≤ now
      → Holds best (f k)
      → Holds (longer_of best signature) (keep_longer now f k signature k)
  unfolding keep_longer put_live
  keep_longer_self now f k signature best le h =
      elim (Bool-cases (ltb (len signature) min_signature_length)) [
        | inl short ↦ rw short h
        | inr long ↦
            rw (long, sym (Holds-value best (f k) h))
              (elim (Bool-cases (is_longer signature (value_of (f k)))) [
                | inl more ↦
                    rw (more, if_pos (Text-discrete k k) refl (some (entry signature now)) (f k))
                      (refl, le)
                | inr less ↦ rw less (subst (λ o. Holds o (f k)) (sym (Holds-value best (f k) h)) h)
              ])
      ]

  keep_longer_ne :
      (now : ℕ) (f : Text → Option (CacheEntry Text)) (k j signature : Text)
      → ¬ (k ≡ j)
      → keep_longer now f k signature j ≡ f j
  unfolding keep_longer put_live
  keep_longer_ne now f k j signature n =
      if-keeps (λ (g : Text → Option (CacheEntry Text)). g j ≡ f j)
        (ltb (len signature) min_signature_length) refl
        (if-keeps (λ (g : Text → Option (CacheEntry Text)). g j ≡ f j)
          (is_longer signature (value_of (f k)))
          (if_neg (Text-discrete k j) n (some (entry signature now)) (f j)) refl)

  keep_longer-Holds :
      (f : Text → Option (CacheEntry Text)) (session_id : Text) (best : Option Text) (x : Call)
      → from ≤ x.time
      → Holds best (f session_id)
      → Holds (better session_id best x) (keep_longer x.time f x.session_id x.signature session_id)
  unfolding better
  keep_longer-Holds f session_id best x le h = elim (Text-discrete x.session_id session_id) [
    | yes p ↦
        subst (λ o. Holds o (keep_longer x.time f x.session_id x.signature session_id))
          (sym (if_pos (Text-discrete x.session_id session_id) p (longer_of best x.signature) best))
          (subst
            (λ j.
              Holds (longer_of best x.signature) (keep_longer x.time f x.session_id x.signature j))
            p
            (keep_longer_self x.time f x.session_id x.signature best le
              (subst (λ j. Holds best (f j)) (sym p) h)))
    | no n ↦
        subst (λ o. Holds o (keep_longer x.time f x.session_id x.signature session_id))
          (sym (if_neg (Text-discrete x.session_id session_id) n (longer_of best x.signature) best))
          (subst (Holds best) (sym (keep_longer_ne x.time f x.session_id session_id x.signature n))
            h)
  ]

  run-longest :
      (c : SignatureCache) (session_id : Text) (best : Option Text) (at now : ℕ) (xs : List Call)
      → IsUnique c.session_signatures
      → Holds best (live at c.session_signatures session_id)
      → from ≤ at
      → Within at now xs
      → now ≤ from + signature_ttl
      → get_session_signature (run c xs) session_id now ≡ longest session_id best xs
  unfolding run longest get_session_signature
  run-longest c session_id best at now [] u h le w small =
      let e = live_later at now c.session_signatures session_id w in
      ap value_of e
      ∙ Holds-value best (unless_expired now (live at c.session_signatures session_id))
          (later-Holds now best (live at c.session_signatures session_id) small h)
  run-longest c session_id best at now (x ∷ xs) u h le w small =
      let m = c.session_signatures in
      let live_then : Holds best (live x.time m session_id) =
        subst (Holds best) (sym (live_later at x.time m session_id w.0))
          (later-Holds x.time best (live at m session_id) (before x.time now xs w.1 small) h) in
      run-longest (cache_session_signature c x.session_id x.signature x.time).0 session_id
        (better session_id best x) x.time now xs
        (cache_session_signature-IsUnique c x.session_id x.signature x.time u)
        (subst (λ f. Holds (better session_id best x) (f session_id))
          (sym (live-cache_session_signature c x.session_id x.signature x.time u))
          (keep_longer-Holds (live x.time m) session_id best x (omega arith) live_then))
        (omega arith) w.1 small

-- After any stores of signatures for any sessions, in the order of their times, a session whose
-- signature was absent or expired at first has the longest of the signatures of 50 bytes at least
-- that were stored for it, the first of those of that length, as long as the time to live since the
-- start is not over; it has none if there was none.
pub get_session_signature-run :
    (c : SignatureCache) (session_id : Text) (from now : ℕ) (xs : List Call)
    → IsUnique c.session_signatures
    → live from c.session_signatures session_id ≡ none
    → Within from now xs
    → now ≤ from + signature_ttl
    → get_session_signature (run c xs) session_id now ≡ longest session_id none xs
get_session_signature-run c session_id from now xs u absent w small =
    run-longest from c session_id none from now xs u (subst (Holds from none) (sym absent) refl)
      (omega arith) w small
