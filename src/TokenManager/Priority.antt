-- ===== src/TokenManager/Priority.antt =====
-- The priority of accounts is a total preorder, where the scores are.
use antigravity_server.TokenManager.{tier_priority}
use antigravity_server.TokenManager.Selection.{
  PartialCmp, compare_tokens_by_priority, compare_with_load, compare_ℤ, quota_of,
}
use antigravity_server.Prelude.Sort.{IsComparison, reversed, then_with, then_with-IsComparison}
use antigravity_server.Prelude.Int.{negsuc, pos, ℤ}
use antigravity_server.Prelude.{Ordering, arith, compare, refl, unwrap_or, ℕ, ◌≡◌, ◌≢◌}

pub compare-IsComparison : {A : Type 0} (f : A → ℕ) → IsComparison (λ a b. compare (f a) (f b))
compare-IsComparison f = ((λ a b. ground arith), (λ a b d p q. ground arith))

compare_ℤ-flip : (a b : ℤ) → compare_ℤ b a ≡ reversed (compare_ℤ a b)
unfolding compare_ℤ
compare_ℤ-flip (pos a) (pos b) = ground arith
compare_ℤ-flip (pos a) (negsuc b) = refl
compare_ℤ-flip (negsuc a) (pos b) = refl
compare_ℤ-flip (negsuc a) (negsuc b) = ground arith

compare_ℤ-trans :
    (a b d : ℤ)
    → compare_ℤ a b ≢ Ordering.gt
    → compare_ℤ b d ≢ Ordering.gt
    → compare_ℤ a d ≢ Ordering.gt
unfolding compare_ℤ
compare_ℤ-trans (pos a) (pos b) (pos d) p q = ground arith
compare_ℤ-trans (pos a) (pos b) (negsuc d) p q = ground arith
compare_ℤ-trans (pos a) (negsuc b) d p q = ground arith
compare_ℤ-trans (negsuc a) (pos b) (pos d) p q = ground arith
compare_ℤ-trans (negsuc a) (pos b) (negsuc d) p q = ground arith
compare_ℤ-trans (negsuc a) (negsuc b) (pos d) p q = ground arith
compare_ℤ-trans (negsuc a) (negsuc b) (negsuc d) p q = ground arith

-- The larger first.
larger_first-IsComparison : {A : Type 0} (f : A → ℤ) → IsComparison (λ a b. compare_ℤ (f b) (f a))
larger_first-IsComparison f =
    ((λ a b. compare_ℤ-flip (f b) (f a)), (λ a b d p q. compare_ℤ-trans (f d) (f b) (f a) q p))

-- The scores, the higher first, are in a total preorder: none of them is NaN.
abbrev pub IsScore : {Float : Type 0} → PartialCmp Float → Type 0
IsScore partial_cmp = IsComparison (λ x y. unwrap_or (partial_cmp y x) Ordering.eq)

pub compare_tokens_by_priority-IsComparison :
    {Float : Type 0} (partial_cmp : PartialCmp Float)
    → IsScore partial_cmp
    → IsComparison (compare_tokens_by_priority partial_cmp)
unfolding compare_tokens_by_priority
compare_tokens_by_priority-IsComparison partial_cmp k =
    then_with-IsComparison (λ a b. compare (tier_priority a) (tier_priority b))
      (λ a b.
        then_with (compare_ℤ (quota_of partial_cmp b) (quota_of partial_cmp a))
          (unwrap_or (partial_cmp b.health_score a.health_score) Ordering.eq))
      (compare-IsComparison tier_priority)
      (then_with-IsComparison (λ a b. compare_ℤ (quota_of partial_cmp b) (quota_of partial_cmp a))
        (λ a b. unwrap_or (partial_cmp b.health_score a.health_score) Ordering.eq)
        (larger_first-IsComparison (quota_of partial_cmp))
        (
          (λ a b. k.0 a.health_score b.health_score),
          (λ a b d. k.1 a.health_score b.health_score d.health_score),
        ))

pub compare_with_load-IsComparison :
    {Float : Type 0} (partial_cmp : PartialCmp Float)
    → IsScore partial_cmp
    → IsComparison (compare_with_load partial_cmp)
unfolding compare_with_load
compare_with_load-IsComparison partial_cmp k =
    let c = compare_tokens_by_priority-IsComparison partial_cmp k in
    then_with-IsComparison (λ a b. compare_tokens_by_priority partial_cmp a.0 b.0)
      (λ a b. compare a.1 b.1) ((λ a b. c.0 a.0 b.0), (λ a b d. c.1 a.0 b.0 d.0))
      (compare-IsComparison (λ a. a.1))
