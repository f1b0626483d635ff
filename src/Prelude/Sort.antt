-- ===== src/Prelude/Sort.antt =====
-- Comparisons, and `sort_by` on slices: a stable sort.
use Prim.Native.Nat.{Ordering}
use mathlib.Core.Path.{◌≡◌, refl, sym, subst}
use mathlib.Core.Logic.{◌≢◌, ◌⊎◌, inl, inr}
use mathlib.Core.List.{List, Memᴰ, [], ◌∷◌}
use native.Mathlib.Omega.{arith}
use antigravity_server.Prelude.Lists.{All, All-map}

-- `Ordering::then_with`.
abbrev pub then_with : Ordering → Ordering → Ordering
then_with Ordering.lt d = Ordering.lt
then_with Ordering.eq d = d
then_with Ordering.gt d = Ordering.gt

abbrev pub reversed : Ordering → Ordering
reversed Ordering.lt = Ordering.gt
reversed Ordering.eq = Ordering.eq
reversed Ordering.gt = Ordering.lt

pub gt-cases : (o : Ordering) → (o ≡ Ordering.gt) ⊎ (o ≢ Ordering.gt)
gt-cases Ordering.lt = inr (λ e. ground arith)
gt-cases Ordering.eq = inr (λ e. ground arith)
gt-cases Ordering.gt = inl refl

module _ {ℓ} {A : Type ℓ} where
  -- The laws that `sort_by` asks of a comparison: a total preorder.
  abbrev pub IsComparison : (A → A → Ordering) → Type ℓ
  IsComparison c =
      ((a b : A) → c b a ≡ reversed (c a b))
      × ((a b d : A) → c a b ≢ Ordering.gt → c b d ≢ Ordering.gt → c a d ≢ Ordering.gt)

  pub then_with-IsComparison :
      (c d : A → A → Ordering)
      → IsComparison c
      → IsComparison d
      → IsComparison (λ a b. then_with (c a b) (d a b))
  then_with-IsComparison c d (fc, tc) (fd, td) = (
    (λ a b. let x = fc a b in let y = fd a b in ground arith),
    (λ a b e p q.
        let x = fc a b in
        let y = fc b e in
        let z = fc a e in
        let t1 = tc a b e in
        let t2 = tc b e a in let t3 = tc e a b in let u = td a b e in ground arith),
  )

  -- Before the first element that is not less: elements that compare equal keep their order.
  unfoldable pub insert_by : (A → A → Ordering) → A → List A → List A
  insert_by c a [] = a ∷ []
  insert_by c a (b ∷ bs) =
      let rest = insert_by c a bs in elim (c a b) [ Ordering.gt ↦ b ∷ rest | _ ↦ a ∷ b ∷ bs ]

  unfoldable pub sort_by : (A → A → Ordering) → List A → List A
  unfolding insert_by
  sort_by c [] = []
  sort_by c (a ∷ xs) = insert_by c a (sort_by c xs)

  abbrev pub IsSortedBy : (A → A → Ordering) → List A → Type ℓ
  IsSortedBy c [] = Unit
  IsSortedBy c (a ∷ xs) = All (λ b. c a b ≢ Ordering.gt) xs × IsSortedBy c xs

  insert_by-gt :
      (c : A → A → Ordering) (a b : A) (bs : List A)
      → c a b ≡ Ordering.gt
      → insert_by c a (b ∷ bs) ≡ b ∷ insert_by c a bs
  unfolding insert_by
  insert_by-gt c a b bs e = ground arith

  insert_by-le :
      (c : A → A → Ordering) (a b : A) (bs : List A)
      → c a b ≢ Ordering.gt
      → insert_by c a (b ∷ bs) ≡ a ∷ b ∷ bs
  unfolding insert_by
  insert_by-le c a b bs n = ground arith

  insert_by-All {κ} :
      (P : A → Type κ) (c : A → A → Ordering) (a : A) (xs : List A)
      → P a
      → All P xs
      → All P (insert_by c a xs)
  unfolding insert_by
  insert_by-All P c a [] p h = (p, tt)
  insert_by-All P c a (b ∷ bs) p h = elim (gt-cases (c a b)) [
    | inl e ↦ subst (All P) (sym (insert_by-gt c a b bs e)) (h.0, insert_by-All P c a bs p h.1)
    | inr n ↦ subst (All P) (sym (insert_by-le c a b bs n)) (p, h)
  ]

  All-insert_by {κ} :
      (P : A → Type κ) (c : A → A → Ordering) (a : A) (xs : List A)
      → All P (insert_by c a xs)
      → P a × All P xs
  unfolding insert_by
  All-insert_by P c a [] h = h
  All-insert_by P c a (b ∷ bs) h = elim (gt-cases (c a b)) [
    | inl e ↦
        let k : All P (b ∷ insert_by c a bs) = subst (All P) (insert_by-gt c a b bs e) h in
        let r = All-insert_by P c a bs k.1 in (r.0, (k.0, r.1))
    | inr n ↦ subst (All P) (insert_by-le c a b bs n) h
  ]

  pub sort_by-All {κ} :
      (P : A → Type κ) (c : A → A → Ordering) (xs : List A) → All P xs → All P (sort_by c xs)
  unfolding sort_by
  sort_by-All P c [] h = tt
  sort_by-All P c (a ∷ xs) h = insert_by-All P c a (sort_by c xs) h.0 (sort_by-All P c xs h.1)

  pub All-sort_by {κ} :
      (P : A → Type κ) (c : A → A → Ordering) (xs : List A) → All P (sort_by c xs) → All P xs
  unfolding sort_by
  All-sort_by P c [] h = tt
  All-sort_by P c (a ∷ xs) h =
      let k = All-insert_by P c a (sort_by c xs) h in (k.0, All-sort_by P c xs k.1)

  insert_by-IsSortedBy :
      (c : A → A → Ordering) (a : A) (xs : List A)
      → IsComparison c
      → IsSortedBy c xs
      → IsSortedBy c (insert_by c a xs)
  unfolding insert_by
  insert_by-IsSortedBy c a [] k h = (tt, tt)
  insert_by-IsSortedBy c a (b ∷ bs) k h = elim (gt-cases (c a b)) [
    | inl e ↦
        let after : c b a ≢ Ordering.gt = let f = k.0 a b in ground arith in
        subst (IsSortedBy c) (sym (insert_by-gt c a b bs e)) (
          insert_by-All (λ x. c b x ≢ Ordering.gt) c a bs after h.0,
          insert_by-IsSortedBy c a bs k h.1,
        )
    | inr n ↦
        subst (IsSortedBy c) (sym (insert_by-le c a b bs n))
          ((n, All-map bs (λ x m. k.1 a b x n m) h.0), h)
  ]

  pub sort_by-IsSortedBy :
      (c : A → A → Ordering) (xs : List A) → IsComparison c → IsSortedBy c (sort_by c xs)
  unfolding sort_by
  sort_by-IsSortedBy c [] k = tt
  sort_by-IsSortedBy c (a ∷ xs) k =
      insert_by-IsSortedBy c a (sort_by c xs) k (sort_by-IsSortedBy c xs k)

  pub All-Memᴰ : (xs : List A) → All (λ a. Memᴰ a xs) xs
  All-Memᴰ [] = tt
  All-Memᴰ (a ∷ xs) = (Memᴰ.head refl, All-map xs (λ b m. Memᴰ.tail m) (All-Memᴰ xs))
