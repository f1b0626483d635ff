-- ===== src/Prelude/TextOrder.antt =====
-- The order of texts is a strict total order.
use mathlib.Core.Path.{◌≡◌, refl}
use mathlib.Core.Bool.{true, false}
use mathlib.Core.List.{[], ◌∷◌}
use native.Mathlib.Omega.{arith}
use antigravity_server.Prelude.Text.{Text, text_gt}

pub text_gt_irrefl : (a : Text) → text_gt a a ≡ false
unfolding text_gt
text_gt_irrefl [] = refl
text_gt_irrefl (x ∷ xs) = ground (arith, text_gt_irrefl xs)

pub text_gt_trans : (a b c : Text) → text_gt a b ≡ true → text_gt b c ≡ true → text_gt a c ≡ true
unfolding text_gt
text_gt_trans [] b c h k = cc
text_gt_trans (x ∷ xs) [] c h k = cc
text_gt_trans (x ∷ xs) (y ∷ ys) [] h k = refl
text_gt_trans (x ∷ xs) (y ∷ ys) (z ∷ zs) h k = ground (arith, text_gt_trans xs ys zs)

pub text_gt-total : (a b : Text) → text_gt a b ≡ false → text_gt b a ≡ false → a ≡ b
unfolding text_gt
text_gt-total [] [] h k = refl
text_gt-total [] (y ∷ ys) h k = cc
text_gt-total (x ∷ xs) [] h k = cc
text_gt-total (x ∷ xs) (y ∷ ys) h k = ground (arith, text_gt-total xs ys)

pub text_gt-asym : (a b : Text) → text_gt a b ≡ true → text_gt b a ≡ false
unfolding text_gt
text_gt-asym [] b h = cc
text_gt-asym (x ∷ xs) [] h = refl
text_gt-asym (x ∷ xs) (y ∷ ys) h = ground (arith, text_gt-asym xs ys)
