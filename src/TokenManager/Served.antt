-- ===== src/TokenManager/Served.antt =====
-- A request is served where one account can take it.
use mathlib.Core.List.{Memᴰ}
use antigravity_server.TokenManager.{ProxyToken, TokenManager}
use antigravity_server.TokenManager.Refresh.{TokenError}
use antigravity_server.TokenManager.Selection.{
  PartialCmp, Request, compare_tokens_by_priority, is_candidate_eligible, is_model_protected,
}
use antigravity_server.TokenManager.Priority.{IsScore}
use antigravity_server.TokenManager.Attempts.{
  Moment, Query, Grant, Attempt, Selected, stop, skip, unbind, select, request_of, after_select,
  attempt, attempts, snapshot, values,
}
use antigravity_server.TokenManager.GetToken.{
  preferred, unless_preferred, get_token_nonempty, get_token_internal,
}
use antigravity_server.TokenManager.Selects.{Full, select-is_some}
use antigravity_server.ActiveRequests.{load}
use antigravity_server.Prelude.Sort.{sort_by, All-sort_by}
use antigravity_server.Prelude.Result.{Result, is_ok}
use antigravity_server.Prelude.Map.{Map, text_key}
use antigravity_server.Prelude.Text.{Text}
use antigravity_server.Prelude.{
  ℕ, suc, ◌+◌, ◌≡◌, ◌≤◌, ◌<◌, sym, subst, arith, true, false, Bool, Option, none, some, unwrap_or,
  List, [], ◌∷◌, is_some, ◌&&◌, not, length, if◌then◌else◌, All, All-map, All-filter, filter,
}
use antigravity_server.TokenManager.Answered.{AllAnswer, Grants, prepare-Grants}

All-at {ℓ κ} : {A : Type ℓ} (P : A → Type κ) {a : A} (xs : List A) → Memᴰ a xs → All P xs → P a
All-at P [] m h = elim m [ ]
All-at P (x ∷ xs) (Memᴰ.head e) h = subst P (sym e) h.0
All-at P (x ∷ xs) (Memᴰ.tail m) h = All-at P xs m h.1

module _ {Float : Type 0} (partial_cmp : PartialCmp Float) where
  after_select-Grants :
      (q : Query) (m : Moment Float) (r : Request) (ts : List (ProxyToken Float))
      (s : Selected Float)
      → AllAnswer m.answers
      → is_some s.1 ≡ true
      → Grants (after_select partial_cmp q m r ts s)
  unfolding after_select
  after_select-Grants q m r ts (tm, none) answers e = cc
  after_select-Grants q m r ts (tm, some (t, g)) answers e = prepare-Grants q m tm t g answers

  -- What passes quota protection is in the snapshot.
  All-if_filter :
      (Q : ProxyToken Float → Type 0) (barred : ProxyToken Float → Bool) (b : Bool)
      (ts : List (ProxyToken Float))
      → All Q (if b then filter (λ t. not (barred t)) ts else ts)
      → All (λ t. (b && barred t) ≡ false → Q t) ts
  All-if_filter Q barred false ts h = All-map ts (λ t k e. k) h
  All-if_filter Q barred true ts h =
      All-map ts (λ t k e. k (ground arith)) (All-filter Q (λ t. not (barred t)) ts h)

  All-snapshot :
      (Q : ProxyToken Float → Type 0) (tm : TokenManager Float) (q : Query)
      → All Q (snapshot partial_cmp tm q)
      → All
          (λ t.
            (q.quota_protection_enabled
                && is_model_protected partial_cmp tm t.account_id q.normalized_target)
              ≡ false
            → Q t)
          (values tm.tokens)
  unfolding snapshot
  All-snapshot Q tm q h =
      let barred = λ (t : ProxyToken Float).
        is_model_protected partial_cmp tm t.account_id q.normalized_target in
      let c = compare_tokens_by_priority partial_cmp in
      All-sort_by (λ t. (q.quota_protection_enabled && barred t) ≡ false → Q t) c (values tm.tokens)
        (All-if_filter Q barred q.quota_protection_enabled (sort_by c (values tm.tokens)) h)

  eligible-not_barred :
      (tm : TokenManager Float) (r : Request) (t : ProxyToken Float)
      → is_candidate_eligible partial_cmp tm r true true t ≡ true
      → (r.quota_protection_enabled
          && is_model_protected partial_cmp tm t.account_id r.normalized_target)
        ≡ false
  unfolding is_candidate_eligible
  eligible-not_barred tm r t e = ground arith

  -- An account of the pool that can take a request, by a clock and a list of exclusions.
  pub record CanServe (tm : TokenManager Float) (q : Query) (m : Moment Float)
      (attempted : List Text) (t : ProxyToken Float) : Type 0 where
    pub present : Memᴰ t (values tm.tokens)
    pub eligible :
        is_candidate_eligible partial_cmp tm (request_of partial_cmp q m attempted) true true t
        ≡ true
    pub room : load tm.active_requests t.email < tm.routing_config.max_concurrent_per_account

  CanServe-not-Full :
      (tm : TokenManager Float) (q : Query) (m : Moment Float) (attempted : List Text)
      (t : ProxyToken Float)
      → CanServe tm q m attempted t
      → ¬ Full partial_cmp (request_of partial_cmp q m attempted) (snapshot partial_cmp tm q) tm
  CanServe-not-Full tm q m attempted t s full =
      let r = request_of partial_cmp q m attempted in
      let Q = λ (u : ProxyToken Float).
        is_candidate_eligible partial_cmp tm r true true u ≡ true
        → tm.routing_config.max_concurrent_per_account ≤ load tm.active_requests u.email in
      let le =
        All-at
          (λ u.
            (q.quota_protection_enabled
                && is_model_protected partial_cmp tm u.account_id q.normalized_target)
              ≡ false
            → Q u)
          (values tm.tokens) s.present (All-snapshot Q tm q full)
          (eligible-not_barred tm r t s.eligible) s.eligible in
      let room = s.room in absurd (omega arith)

  attempt-Grants :
      (q : Query) (m : Moment Float) (rotate : Bool) (attempted : List Text)
      (ts : List (ProxyToken Float)) (tm : TokenManager Float)
      → AllAnswer m.answers
      → IsScore partial_cmp
      → ¬ Full partial_cmp (request_of partial_cmp q m attempted) ts tm
      → Grants (attempt partial_cmp q m rotate attempted ts tm)
  unfolding attempt
  attempt-Grants q m rotate attempted ts tm answers score room =
      let r = request_of partial_cmp q m attempted in
      after_select-Grants q m r ts (select partial_cmp q rotate r ts (unbind q.session_id tm))
        answers (select-is_some partial_cmp r ts q rotate tm score room)

  next-is_ok :
      (q : Query) (moments : ℕ → Moment Float) (ts : List (ProxyToken Float)) (left : ℕ)
      (attempted : List Text) (out : TokenManager Float × Attempt)
      → Grants out
      → let next : TokenManager Float × Result Grant TokenError = elim out.1 [
        | stop r ↦ (out.0, r)
        | skip e email ↦
            attempts partial_cmp q moments ts left (0 + 1) true (email ∷ attempted) (some e) out.0
      ] in
        is_ok next.1 ≡ true
  next-is_ok q moments ts left attempted (tm, stop r) h = h
  next-is_ok q moments ts left attempted (tm, skip e email) h = absurd h

  module _ (q : Query) (moments : ℕ → Moment Float) (tm : TokenManager Float) (t : ProxyToken Float)
      (score : IsScore partial_cmp) (answers : AllAnswer (moments 0).answers)
      (s : CanServe tm q (moments 0) (unwrap_or q.exclude_accounts []) t) where
    attempts-is_ok :
        (n : ℕ)
        → is_ok
            (attempts partial_cmp q moments
              (snapshot partial_cmp tm q)
              (suc n)
              0
              q.force_rotate
              (unwrap_or q.exclude_accounts [])
              none
              tm).1
          ≡ true
    unfolding attempts
    attempts-is_ok n =
        let attempted = unwrap_or q.exclude_accounts [] in
        let ts = snapshot partial_cmp tm q in
        next-is_ok q moments ts n attempted
          (attempt partial_cmp q (moments 0) q.force_rotate attempted ts tm)
          (attempt-Grants q (moments 0) q.force_rotate attempted ts tm answers score
            (CanServe-not-Full tm q (moments 0) attempted t s))

    unless_preferred-is_ok :
        (n : ℕ) (pref : Option Text)
        → pref ≡ none
        → is_ok
            (unless_preferred partial_cmp q moments
              (snapshot partial_cmp tm q)
              (suc n)
              (preferred partial_cmp q (moments 0) (snapshot partial_cmp tm q) tm pref)).1
          ≡ true
    unfolding unless_preferred preferred
    unless_preferred-is_ok n none e = attempts-is_ok n
    unless_preferred-is_ok n (some p) e = cc

    nonempty-is_ok :
        (pool : Map Text (ProxyToken Float))
        → Memᴰ t (values pool)
        → tm.preferred_account_id ≡ none
        → is_ok (get_token_nonempty partial_cmp q moments tm (length pool)).1 ≡ true
    unfolding get_token_nonempty values
    nonempty-is_ok [] m e = elim m [ ]
    nonempty-is_ok (b ∷ pool) m e = unless_preferred-is_ok (length pool) tm.preferred_account_id e

  -- Where no account is set as preferred, no score is NaN, and the calls outside the pool succeed,
  -- a request gets a token if some account of the pool is eligible, not excluded, and has fewer
  -- requests than it may have.
  pub get_token_internal-is_ok :
      (q : Query) (moments : ℕ → Moment Float) (tm : TokenManager Float) (t : ProxyToken Float)
      → IsScore partial_cmp
      → AllAnswer (moments 0).answers
      → tm.preferred_account_id ≡ none
      → CanServe tm q (moments 0) (unwrap_or q.exclude_accounts []) t
      → is_ok (get_token_internal partial_cmp q moments tm).1 ≡ true
  unfolding get_token_internal
  get_token_internal-is_ok q moments tm t score answers preferred s =
      nonempty-is_ok q moments tm t score answers s tm.tokens s.present preferred
