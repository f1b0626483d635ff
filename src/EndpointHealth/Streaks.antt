-- ===== src/EndpointHealth/Streaks.antt =====
-- When an endpoint is skipped, in terms of its history.
use antigravity_server.EndpointHealth.{
  EndpointHealth, new, record_failure, record_success, should_skip,
}
use antigravity_server.Prelude.{
  List, Option, Option-cases, [], arith, from_secs, inl, inr, length, none, refl, some, subst, suc,
  true, ℕ, ◌+◌, ◌<◌, ◌^◌, ◌↔◌, ◌∷◌, ◌≡◌, ◌≤◌,
}

pub data Outcome : Type 0 where
  failed : ℕ → Outcome
  succeeded : Outcome

-- The record of an endpoint with the outcomes given, the latest first.
unfoldable pub after : List Outcome → EndpointHealth
after [] = new
after (failed now ∷ es) = record_failure (after es) now
after (succeeded ∷ es) = record_success (after es)

-- The failures since the latest success.
unfoldable pub streak : List Outcome → ℕ
streak [] = 0
streak (failed now ∷ es) = suc (streak es)
streak (succeeded ∷ es) = 0

unfoldable pub last_failed : List Outcome → Option ℕ
last_failed [] = none
last_failed (failed now ∷ es) = some now
last_failed (succeeded ∷ es) = last_failed es

after-last_failure : (es : List Outcome) → (after es).last_failure ≡ last_failed es
unfolding after last_failed new record_failure record_success
after-last_failure [] = refl
after-last_failure (failed now ∷ es) = refl
after-last_failure (succeeded ∷ es) = after-last_failure es

streak-bound : (es : List Outcome) → streak es ≤ length es
unfolding streak
streak-bound [] = omega arith
streak-bound (failed now ∷ es) = omega (arith, streak-bound es)
streak-bound (succeeded ∷ es) = omega arith

after-failures : (es : List Outcome) → length es < 2 ^ 32 → (after es).failures ≡ streak es
unfolding after streak new record_failure record_success
after-failures [] h = refl
after-failures (failed now ∷ es) h = omega (arith, after-failures es (omega arith), streak-bound es)
after-failures (succeeded ∷ es) h = refl

should_skip_lem :
    (h : EndpointHealth) (now : ℕ)
    → (should_skip h now ≡ true)
      ↔ ((5 ≤ h.failures) × (last : ℕ) × (h.last_failure ≡ some last) × (now < last + from_secs 30))
unfolding should_skip
should_skip_lem h now = elim (Option-cases h.last_failure) [
  | inl e ↦ ground arith
  | inr (t, e) ↦ (
    (λ s. (ground arith, t, e, ground arith)),
    (λ q. let f = q.2 in let same : t ≡ q.1 = cc in let lt = q.3 in ground arith),
  )
]

-- After fewer than 2^32 outcomes an endpoint is skipped exactly when the latest five at least were
-- failures, and the last of them is less than 30 seconds ago.
pub should_skip-after :
    (es : List Outcome) (now : ℕ)
    → length es < 2 ^ 32
    → (should_skip (after es) now ≡ true)
      ↔ ((5 ≤ streak es) × (last : ℕ) × (last_failed es ≡ some last) × (now < last + from_secs 30))
should_skip-after es now h =
    subst
      (λ o.
        (should_skip (after es) now ≡ true)
        ↔ ((5 ≤ streak es) × (last : ℕ) × (o ≡ some last) × (now < last + from_secs 30)))
      (after-last_failure es)
      (subst
        (λ n. (should_skip (after es) now ≡ true) ↔ (
          (5 ≤ n)
          × (last : ℕ) × ((after es).last_failure ≡ some last)
          × (now < last + from_secs 30)))
        (after-failures es h) (should_skip_lem (after es) now))
