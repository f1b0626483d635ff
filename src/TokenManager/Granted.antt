-- ===== src/TokenManager/Granted.antt =====
-- What a request gets in the end, and what it leaves of the slots.
use antigravity_server.TokenManager.{ProxyToken, TokenManager, needs_refresh}
use antigravity_server.TokenManager.Refresh.{
  Answers, TokenError, try_refresh_token, ensure_project_id,
}
use antigravity_server.TokenManager.Selection.{PartialCmp, contains_text, is_model_protected}
use antigravity_server.TokenManager.Attempts.{
  Moment, Query, Grant, Selected, Prepared, attempts, snapshot,
}
use antigravity_server.TokenManager.GetToken.{
  find_id, preferred_slot, ensured, use_preferred, try_preferred_account, preferred,
  unless_preferred, granted, get_token_nonempty, get_token_internal,
}
use antigravity_server.TokenManager.Taken.{TakesIn, take_slot-TakesIn}
use antigravity_server.TokenManager.Settled.{
  Keeps, Settles, try_refresh_token-Keeps, ensure_project_id-Keeps,
}
use antigravity_server.TokenManager.Search.{Rests, attempts-Settles}
use antigravity_server.ActiveRequests.{load}
use antigravity_server.RateLimit.{is_rate_limited_for_model}
use antigravity_server.Prelude.Result.{Result, ok, err}
use antigravity_server.Prelude.Map.{text_key}
use antigravity_server.Prelude.Text.{Text}
use antigravity_server.Prelude.{
  ℕ, zero, suc, ◌≡◌, ◌⊎◌, ◌∙◌, refl, ap, inl, inr, true, false, Option, Option-cases, none, some,
  unwrap_or, List, [], is_some, if-keeps, ◌||◌, ◌&&◌, length, if◌then◌else◌,
}

-- The account was not excluded, unless an account is set as preferred.
abbrev pub Allowed : Query → Option Text → Text → Type 0
Allowed q pref email =
    (is_some pref ≡ true) ⊎ (contains_text email (unwrap_or q.exclude_accounts []) ≡ false)

module _ {Float : Type 0} (partial_cmp : PartialCmp Float) (loads : Text → ℕ) where
  abbrev Any : ProxyToken Float → Type 0
  Any t = Unit

  abbrev At : TokenManager Float → Type 0
  At tm = (j : Text) → load tm.active_requests j ≡ loads j

  At-Keeps {ℓ} :
      {A : Type ℓ} (tm : TokenManager Float) (t : ProxyToken Float)
      (out : TokenManager Float × ProxyToken Float × A)
      → Keeps tm t out
      → At tm
      → At out.0
  At-Keeps tm t (tm', t', a) k same j = ap (λ cs. load cs j) k.0 ∙ same j

  preferred_slot-TakesIn :
      (out : Prepared Float) → At out.0 → TakesIn Any loads (preferred_slot out)
  unfolding preferred_slot
  preferred_slot-TakesIn (tm, t, some e) same = same
  preferred_slot-TakesIn (tm, t, none) same = take_slot-TakesIn Any loads partial_cmp tm same t tt

  ensured-TakesIn :
      (w : Answers) (out : Prepared Float) → At out.0 → TakesIn Any loads (ensured w out)
  unfolding ensured
  ensured-TakesIn w (tm, t, some e) same = same
  ensured-TakesIn w (tm, t, none) same =
      let out = ensure_project_id w tm t in
      preferred_slot-TakesIn (out.0, out.1, elim out.2 [ ok p ↦ none | err e ↦ some e ])
        (At-Keeps tm t out (ensure_project_id-Keeps w tm t) same)

  use_preferred-TakesIn :
      (q : Query) (m : Moment Float) (tm : TokenManager Float) (t : ProxyToken Float)
      → At tm
      → TakesIn Any loads (use_preferred partial_cmp q m tm t)
  unfolding use_preferred
  use_preferred-TakesIn q m tm t same =
      let prepared : Prepared Float =
        if needs_refresh t m.answers.now then try_refresh_token m.answers tm t else (tm, t, none) in
      if-keeps (TakesIn Any loads)
        (is_rate_limited_for_model tm.rate_limit_tracker t.email q.normalized_target m.clock
          || (q.quota_protection_enabled
              && is_model_protected partial_cmp tm t.account_id q.normalized_target))
        same
        (ensured-TakesIn m.answers prepared (
          if-keeps (λ (p : Prepared Float). At p.0) (needs_refresh t m.answers.now)
            (At-Keeps tm t (try_refresh_token m.answers tm t)
              (try_refresh_token-Keeps m.answers tm t) same)
            same))

  preferred-TakesIn :
      (q : Query) (m : Moment Float) (ts : List (ProxyToken Float)) (tm : TokenManager Float)
      (pref : Option Text)
      → At tm
      → TakesIn Any loads (preferred partial_cmp q m ts tm pref)
  unfolding preferred try_preferred_account
  preferred-TakesIn q m ts tm none same = same
  preferred-TakesIn q m ts tm (some pref_id) same = elim (Option-cases (find_id pref_id ts)) [
    | inl n ↦ rw (n, try_preferred_account) same
    | inr (t, e) ↦ rw (e, try_preferred_account) (use_preferred-TakesIn q m tm t same)
  ]

  preferred-is_some :
      (q : Query) (m : Moment Float) (ts : List (ProxyToken Float)) (tm : TokenManager Float)
      (pref : Option Text)
      → is_some (preferred partial_cmp q m ts tm pref).1 ≡ true
      → is_some pref ≡ true
  unfolding preferred
  preferred-is_some q m ts tm none e = e
  preferred-is_some q m ts tm (some pref_id) e = refl

  module _ (q : Query) (moments : ℕ → Moment Float)
      (rests : (i : ℕ) → Rests partial_cmp (moments i)) where
    Settles-Allowed :
        (pref : Option Text) (out : TokenManager Float × Result Grant TokenError)
        → Settles (λ email. contains_text email (unwrap_or q.exclude_accounts []) ≡ false) loads out
        → Settles (Allowed q pref) loads out
    Settles-Allowed pref (tm, err e) h = h
    Settles-Allowed pref (tm, ok r) h = (inr h.0, h.1, h.2)

    unless_preferred-Settles :
        (pref : Option Text) (ts : List (ProxyToken Float)) (total : ℕ) (s : Selected Float)
        → (is_some s.1 ≡ true → is_some pref ≡ true)
        → TakesIn Any loads s
        → Settles (Allowed q pref) loads (unless_preferred partial_cmp q moments ts total s)
    unfolding unless_preferred granted
    unless_preferred-Settles pref ts total (tm, some (t, g)) chosen h =
        (inl (chosen refl), h.1, h.2)
    unless_preferred-Settles pref ts total (tm, none) chosen h =
        Settles-Allowed pref
          (attempts partial_cmp q moments ts total 0 q.force_rotate
            (unwrap_or q.exclude_accounts []) none tm)
          (attempts-Settles partial_cmp q loads moments rests ts total 0 q.force_rotate
            (unwrap_or q.exclude_accounts []) none tm h)

    pub get_token_nonempty-Settles :
        (tm : TokenManager Float) (total : ℕ)
        → At tm
        → Settles
            (Allowed q tm.preferred_account_id)
            loads
            (get_token_nonempty partial_cmp q moments tm total)
    unfolding get_token_nonempty
    get_token_nonempty-Settles tm zero same = same
    get_token_nonempty-Settles tm (suc n) same =
        let ts = snapshot partial_cmp tm q in
        unless_preferred-Settles tm.preferred_account_id ts (suc n)
          (preferred partial_cmp q (moments 0) ts tm tm.preferred_account_id)
          (preferred-is_some q (moments 0) ts tm tm.preferred_account_id)
          (preferred-TakesIn q (moments 0) ts tm tm.preferred_account_id same)

-- Where no other request changes the counts while a recovery sleeps, a request for a token that
-- fails leaves the count of every account as it was. One that is granted holds a guard of the
-- account whose address it names, which has one request more, and no other count is changed. The
-- account is not an excluded one, unless an account is set as preferred.
pub get_token_internal-Settles :
    {Float : Type 0} (partial_cmp : PartialCmp Float) (q : Query) (moments : ℕ → Moment Float)
    (tm : TokenManager Float)
    → ((i : ℕ) → Rests partial_cmp (moments i))
    → Settles
        (Allowed q tm.preferred_account_id)
        (load tm.active_requests)
        (get_token_internal partial_cmp q moments tm)
unfolding get_token_internal
get_token_internal-Settles partial_cmp q moments tm rests =
    get_token_nonempty-Settles partial_cmp (load tm.active_requests) q moments rests tm
      (length tm.tokens) (λ j. refl)
