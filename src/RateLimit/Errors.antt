-- ===== src/RateLimit/Errors.antt =====
-- What an error response does to the tracker.
use antigravity_server.Prelude.Map.{
  Map, insert, lookup, lookup-insert_ne, lookup-insert_self, text_key,
}
use antigravity_server.Prelude.Text.{Text, parse_u64}
use antigravity_server.Prelude.{
  Bool-cases, Option, ap, ◌∙◌, as_secs, ltb, option_map, ◌^◌, ◌<◌, ◌≤◌, arith, false, from_secs,
  inl, inr, max, none, refl, some, true, ℕ, ◌+◌, ◌≡◌, ◌⊎◌,
}
use antigravity_server.RateLimit.Parser.{parse_retry_time_from_body}
use antigravity_server.RateLimit.{
  RateLimitInfo, RateLimitKey, RateLimitReason, RateLimitTracker, from_optional_model,
  model_capacity_exhausted, quota_exhausted, rate_limit_exceeded, server_error, unknown,
  rate_limit_key,
}
use antigravity_server.RateLimit.Lockout.{bump_failure, next_failure}
use antigravity_server.RateLimit.ErrorParsing.{
  Clock, Externals, default_delay, explicit_retry, is_capacity, is_limit_status, limit_with,
  parse_from_error, parse_reason, quota_tier, retry_delay,
}

-- The response limits nothing: another status, or a model whose capacity is exhausted.
abbrev pub IsIgnored : Externals → ℕ → Text → Type 0
IsIgnored x status body =
    (is_limit_status status ≡ false) ⊎ (parse_reason x status body ≡ model_capacity_exhausted)

-- A limit of `secs` seconds on `key`, noted in `t'` beside the limits of `t`.
abbrev pub Limits :
    RateLimitTracker → RateLimitTracker → RateLimitKey → RateLimitInfo → ℕ → ℕ → Type 0
Limits t t' key info from secs =
    (lookup key t'.limits ≡ some info)
    × (info.reset_time ≡ from + from_secs secs)
    × (info.retry_after_sec ≡ secs)
    × ((j : RateLimitKey) → ¬ (key ≡ j) → lookup j t'.limits ≡ lookup j t.limits)

-- The retry time that the response gives: the number in its header, else the time in its body.
abbrev pub Gives : Externals → Option Text → Text → Option ℕ → Type 0
Gives x (some h) body r =
    ((s : ℕ) → parse_u64 h ≡ some s → r ≡ some s)
    × (parse_u64 h ≡ none → r ≡ parse_retry_time_from_body x.patterns x.from_str body)
Gives x none body r = r ≡ parse_retry_time_from_body x.patterns x.from_str body

-- The delay of the n-th failure by its reason.
abbrev pub Default : RateLimitReason → ℕ → ℕ → Type 0
Default quota_exhausted n secs =
    (n ≡ 1 → secs ≡ 60) × (n ≡ 2 → secs ≡ 300) × (n ≡ 3 → secs ≡ 1800) × (3 < n → secs ≡ 7200)
Default rate_limit_exceeded n secs = secs ≡ 5
Default model_capacity_exhausted n secs = secs ≡ 5
Default server_error n secs = secs ≡ 20
Default unknown n secs = secs ≡ 60

default_delay-Default : (r : RateLimitReason) (n : ℕ) → Default r n (default_delay r n)
unfolding default_delay quota_tier
default_delay-Default quota_exhausted n =
    ((λ e. rw e refl), (λ e. rw e refl), (λ e. rw e refl), (λ h. ground arith))
default_delay-Default rate_limit_exceeded n = refl
default_delay-Default model_capacity_exhausted n = refl
default_delay-Default server_error n = refl
default_delay-Default unknown n = refl

explicit_retry-Gives :
    (x : Externals) (header : Option Text) (body : Text)
    → Gives x header body (explicit_retry x header body)
unfolding explicit_retry
explicit_retry-Gives x none body = refl
explicit_retry-Gives x (some h) body = ((λ s e. rw e refl), (λ e. rw e refl))

-- The delay: the time given, raised to 2 s, and no failure counted; or the default for the reason
-- and the failure count of the key, which goes up.
abbrev pub Delays :
    RateLimitTracker → RateLimitTracker → RateLimitKey → RateLimitReason → ℕ → Option ℕ → ℕ → Type 0
Delays t t' key reason now (some s) secs = (secs ≡ max 2 s) × (t'.failure_counts ≡ t.failure_counts)
Delays t t' key reason now none secs =
    let n = next_failure now (lookup key t.failure_counts) in
    Default reason n secs × (lookup key t'.failure_counts ≡ some (n, now))

-- A limit under the key of the account, or of its model, with a reset time that fits; or a panic,
-- since that time does not fit.
abbrev pub Outcome :
    RateLimitTracker
    → RateLimitKey
    → RateLimitReason
    → Clock
    → Option ℕ
    → Option (RateLimitTracker × RateLimitInfo)
    → Type 0
Outcome t key reason clock retry none =
    (u : RateLimitTracker) × (secs : ℕ) × Delays t u key reason clock.counted retry secs
    × (2 ^ 63 ≤ as_secs clock.reset_from + secs)
Outcome t key reason clock retry (some (t', info)) =
    Limits t t' key info clock.reset_from info.retry_after_sec
    × Delays t t' key reason clock.counted retry info.retry_after_sec
    × (info.reason ≡ reason)
    × (as_secs clock.reset_from + info.retry_after_sec < 2 ^ 63)

retry_delay-Delays :
    (t : RateLimitTracker) (key : RateLimitKey) (reason : RateLimitReason) (now : ℕ)
    (retry : Option ℕ)
    → let out = retry_delay t key reason now retry in
      Delays t out.0 key reason now retry out.1 × (out.0.limits ≡ t.limits)
unfolding retry_delay bump_failure
retry_delay-Delays t key reason now (some s) = ((ground arith, refl), refl)
retry_delay-Delays t key reason now none =
    ((default_delay-Default reason _, lookup-insert_self _ _ t.failure_counts), refl)

Delays-limits :
    (t u : RateLimitTracker) (l : Map RateLimitKey RateLimitInfo) (key : RateLimitKey)
    (reason : RateLimitReason) (now : ℕ) (retry : Option ℕ) (secs : ℕ)
    → Delays t u key reason now retry secs
    → Delays t (record u { limits = l }) key reason now retry secs
Delays-limits t u l key reason now none secs h = h
Delays-limits t u l key reason now (some s) secs h = h

limit_with-Outcome :
    (t : RateLimitTracker) (id : Text) (m : Option Text) (reason : RateLimitReason) (clock : Clock)
    (retry : Option ℕ)
    → Outcome t (from_optional_model id m) reason clock retry (limit_with t id m reason clock retry)
unfolding limit_with
limit_with-Outcome t id m reason clock retry =
    let key = from_optional_model id m in
    let d = retry_delay-Delays t key reason clock.counted retry in
    let (u, secs) = retry_delay t key reason clock.counted retry in
    let info : RateLimitInfo = record {
      reset_time = clock.reset_from + from_secs secs;
      retry_after_sec = secs;
      detected_at = clock.detected;
      reason = reason;
      for_model = m;
    } in
    elim (Bool-cases (ltb (as_secs clock.reset_from + secs) (2 ^ 63))) [
      | inl y ↦ rw y (
        (
          lookup-insert_self key _ u.limits,
          refl,
          refl,
          λ j n. lookup-insert_ne key j _ u.limits n ∙ ap (lookup j) d.1,
        ),
        Delays-limits t u (insert key info u.limits) key reason clock.counted retry secs d.0,
        refl,
        ground arith,
      )
      | inr n ↦ rw n (u, secs, d.0, ground arith)
    ]

is_capacity-eq : (r : RateLimitReason) → is_capacity r ≡ true → r ≡ model_capacity_exhausted
is_capacity-eq r h = ground arith

ignored : (r : RateLimitReason) → r ≡ model_capacity_exhausted → is_capacity r ≡ false → ⊥
ignored r e k = ground arith

-- What is to happen where the response is not ignored.
abbrev pub Recorded :
    RateLimitTracker
    → RateLimitKey
    → RateLimitReason
    → Clock
    → Option ℕ
    → Option (RateLimitTracker × Option RateLimitInfo)
    → Type 0
Recorded t key reason clock retry none = Outcome t key reason clock retry none
Recorded t key reason clock retry (some (t', none)) = ⊥
Recorded t key reason clock retry (some (t', some info)) =
    Outcome t key reason clock retry (some (t', info))

Outcome-Recorded :
    (t : RateLimitTracker) (key : RateLimitKey) (reason : RateLimitReason) (clock : Clock)
    (retry : Option ℕ) (o : Option (RateLimitTracker × RateLimitInfo))
    → Outcome t key reason clock retry o
    → Recorded t key reason clock retry (option_map (λ limited. (limited.0, some limited.1)) o)
Outcome-Recorded t key reason clock retry none h = h
Outcome-Recorded t key reason clock retry (some (t', info)) h = h

-- An error response with another status than 429, 500, 503 and 529, or with the reason that a
-- model's capacity is exhausted, leaves the tracker. Any other is recorded, with the delay that its
-- header gives, else its body, else the reason and the count of failures; the limit is under the
-- key of the account, or of its model where one is named, and other keys keep theirs. The program
-- panics exactly if the reset time does not fit.
pub parse_from_error_records :
    (x : Externals) (t : RateLimitTracker) (id : Text) (status : ℕ) (header : Option Text)
    (body : Text) (m : Option Text) (clock : Clock)
    → let out = parse_from_error x t id status header body m clock in
      (IsIgnored x status body → out ≡ some (t, none))
      × (¬ IsIgnored x status body
          → (retry : Option ℕ) × Gives x header body retry
            × Recorded t (from_optional_model id m) (parse_reason x status body) clock retry out)
unfolding parse_from_error
parse_from_error_records x t id status header body m clock =
    let retry = explicit_retry x header body in
    let reason = parse_reason x status body in
    elim (Bool-cases (is_limit_status status)) [
      | inr z ↦ rw z ((λ i. refl), (λ n. absurd (n (inl refl))))
      | inl y ↦ elim (Bool-cases (is_capacity reason)) [
        | inl c ↦ rw (y, c) ((λ i. refl), (λ n. absurd (n (inr (is_capacity-eq _ c)))))
        | inr k ↦
            rw (y, k)
              (
                (λ i. elim i [ inl e ↦ absurd (ground arith) | inr r ↦ absurd (ignored _ r k) ]),
                (λ n. (
                  retry,
                  explicit_retry-Gives x header body,
                  Outcome-Recorded t (from_optional_model id m) reason clock retry
                      (limit_with t id m reason clock retry)
                      (limit_with-Outcome t id m reason clock retry),
                )),
              )
      ]
    ]
