-- ===== src/SignatureCache/Live.antt =====
-- The caches by what they hold at a time: an expired entry, and the order of the entries, cannot be
-- told from nothing.
use mathlib.Core.Path.{fun_ext}
use antigravity_server.SignatureCache.{
  Cache, CacheEntry, cleanup, entry, is_expired, live, unless_expired,
}
use antigravity_server.Prelude.Map.{
  IsUnique, keep_if, insert, lookup, lookup-insert, lookup-retain, retain-IsUnique, text_key,
}
use antigravity_server.Prelude.Text.{Text, Text-discrete}
use antigravity_server.Prelude.{
  ℕ, ◌≡◌, ◌≤◌, ◌∙◌, refl, ap, arith, false, not, Option, none, some, length, ltb, if-keeps, ite,
}

module _ {T : Type 0} where
  -- A table of live entries, changed at one key.
  unfoldable pub put_live :
      (Text → Option (CacheEntry T)) → Text → CacheEntry T → Text → Option (CacheEntry T)
  put_live f k e j = ite (Text-discrete k j) (some e) (f j)

  unless_expired-keep :
      (now : ℕ) (k : Text) (o : Option (CacheEntry T))
      → unless_expired now (keep_if (λ j e. not (is_expired now e)) k o) ≡ unless_expired now o
  unless_expired-keep now k none = refl
  unless_expired-keep now k (some e) = ground arith

  -- A clean-up shows in no look-up at its time.
  pub live-cleanup :
      (limit now : ℕ) (m : Cache T) → IsUnique m → live now (cleanup limit now m) ≡ live now m
  unfolding live cleanup
  live-cleanup limit now m u = fun_ext λ k.
      if-keeps (λ (x : Cache T). unless_expired now (lookup k x) ≡ unless_expired now (lookup k m))
        (ltb limit (length m))
        (ap (unless_expired now) (lookup-retain (λ j e. not (is_expired now e)) k m u)
          ∙ unless_expired-keep now k (lookup k m))
        refl

  pub cleanup-IsUnique : (limit now : ℕ) (m : Cache T) → IsUnique m → IsUnique (cleanup limit now m)
  unfolding cleanup
  cleanup-IsUnique limit now m u =
      if-keeps IsUnique (ltb limit (length m)) (retain-IsUnique (λ j e. not (is_expired now e)) m u)
        u

  fresh : (now : ℕ) (v : T) → is_expired now (entry v now) ≡ false
  unfolding is_expired
  fresh now v = ground arith

  pub live-insert :
      (now : ℕ) (k : Text) (v : T) (m : Cache T)
      → live now (insert k (entry v now) m) ≡ put_live (live now m) k (entry v now)
  unfolding live put_live
  live-insert now k v m = fun_ext λ j.
      let e = fresh now v in
      ap (unless_expired now) (lookup-insert k j (entry v now) m) ∙ ground arith

  -- What has expired stays so.
  pub live_later :
      (now later : ℕ) (m : Cache T) (k : Text)
      → now ≤ later
      → live later m k ≡ unless_expired later (live now m k)
  unfolding live is_expired
  live_later now later m k le = ground arith
