-- ===== src/Sync/BTree.antt =====
-- `BTreeMap<String, _>`: the bindings in the order of their keys, which iteration follows.
-- `lookup`, `remove` and `retain` are those of every map.
use antigravity_server.Prelude.Map.{IsUnique, Map, lookup, remove, retain, text_key}
use antigravity_server.Prelude.Text.{Text, text_gt}
use antigravity_server.Prelude.{
  Bool, Bool-cases, [], ap, arith, false, if_neg, if_pos, if◌then◌else◌, inl, inr, ite, none, refl,
  some, subst, sym, true, ◌∙◌, ◌∷◌, ◌≡◌,
}
use antigravity_server.Prelude.TextOrder.{text_gt_irrefl, text_gt-total, text_gt_trans}

text_gt-ne : (j k : Text) → text_gt j k ≡ true → ¬ (j ≡ k)
text_gt-ne j k h e = let f : text_gt j k ≡ false = ap (text_gt j) (sym e) ∙ text_gt_irrefl j in cc

module _ {V : Type 0} where
  unfoldable pub insert : Text → V → Map Text V → Map Text V
  insert k v [] = (k, v) ∷ []
  insert k v ((j, w) ∷ m) =
      let rest = insert k v m in
      ite (text_key.dec j k) ((j, v) ∷ m)
        (if text_gt j k then (k, v) ∷ (j, w) ∷ m else (j, w) ∷ rest)

  pub lookup-insert :
      (k j : Text) (v : V) (m : Map Text V)
      → lookup j (insert k v m) ≡ ite (text_key.dec k j) (some v) (lookup j m)
  unfolding lookup insert
  lookup-insert k j v [] = refl
  lookup-insert k j v ((i, w) ∷ m) = ground (arith, lookup-insert k j v m)

  -- All keys stand behind `k`.
  abbrev pub Above : Text → Map Text V → Type 0
  Above k [] = Unit
  Above k ((j, v) ∷ m) = (text_gt j k ≡ true) × Above k m

  abbrev pub IsSorted : Map Text V → Type 0
  IsSorted [] = Unit
  IsSorted ((k, v) ∷ m) = Above k m × IsSorted m

  Above-trans : (j k : Text) (m : Map Text V) → text_gt j k ≡ true → Above j m → Above k m
  Above-trans j k [] h a = tt
  Above-trans j k ((i, v) ∷ m) h a = (text_gt_trans i j k a.0 h, Above-trans j k m h a.1)

  Above-insert :
      (i k : Text) (v : V) (m : Map Text V)
      → text_gt k i ≡ true
      → Above i m
      → Above i (insert k v m)
  unfolding insert
  Above-insert i k v [] h a = (h, tt)
  Above-insert i k v ((j, w) ∷ m) h a = ground (arith, Above-insert i k v m h a.1)

  pub insert-IsSorted : (k : Text) (v : V) (m : Map Text V) → IsSorted m → IsSorted (insert k v m)
  unfolding insert
  insert-IsSorted k v [] s = (tt, tt)
  insert-IsSorted k v ((j, w) ∷ m) s = ground (
    arith,
    insert-IsSorted k v m s.1,
    Above-trans j k m,
    Above-insert j k v m,
    text_gt-total j k,
    Bool-cases (text_gt k j),
  )

  Above-absent : (k : Text) (m : Map Text V) → Above k m → lookup k m ≡ none
  unfolding lookup
  Above-absent k [] a = refl
  Above-absent k ((j, v) ∷ m) a = ground (arith, Above-absent k m a.1, text_gt_irrefl k)

  pub IsSorted-IsUnique : (m : Map Text V) → IsSorted m → IsUnique m
  IsSorted-IsUnique [] s = tt
  IsSorted-IsUnique ((k, v) ∷ m) s = (Above-absent k m s.0, IsSorted-IsUnique m s.1)

  lookup-head : (k : Text) (v : V) (m : Map Text V) → lookup k ((k, v) ∷ m) ≡ some v
  unfolding lookup
  lookup-head k v m = if_pos (text_key.dec k k) refl _ _

  lookup-tail :
      (j k : Text) (v : V) (m : Map Text V) → ¬ (j ≡ k) → lookup k ((j, v) ∷ m) ≡ lookup k m
  unfolding lookup
  lookup-tail j k v m n = if_neg (text_key.dec j k) n _ _

  -- A key before all keys of a sorted map is not bound in it.
  pub below-absent :
      (j k : Text) (v : V) (m : Map Text V)
      → text_gt j k ≡ true
      → Above j m
      → lookup k ((j, v) ∷ m) ≡ none
  below-absent j k v m h a =
      lookup-tail j k v m (text_gt-ne j k h) ∙ Above-absent k m (Above-trans j k m h a)

  same-heads :
      (j k : Text) (v w : V) (m n : Map Text V)
      → IsSorted ((j, v) ∷ m)
      → IsSorted ((k, w) ∷ n)
      → ((i : Text) → lookup i ((j, v) ∷ m) ≡ lookup i ((k, w) ∷ n))
      → j ≡ k
  same-heads j k v w m n s t same = elim (Bool-cases (text_gt j k)) [
    | inl h ↦
        let a = below-absent j k v m h s.0 in let b = lookup-head k w n in let c = same k in cc
    | inr h ↦ elim (Bool-cases (text_gt k j)) [
      | inl g ↦
          let a = below-absent k j w n g t.0 in let b = lookup-head j v m in let c = same j in cc
      | inr g ↦ text_gt-total j k h g
    ]
  ]

  lookup-nil : (k : Text) → lookup {V = V} k [] ≡ none
  unfolding lookup
  lookup-nil k = refl

  head-tail :
      (j k i : Text) (v w : V) (m n : Map Text V)
      → j ≡ k
      → Above j m
      → Above k n
      → ((i : Text) → lookup i ((j, v) ∷ m) ≡ lookup i ((k, w) ∷ n))
      → (v ≡ w) × (lookup i m ≡ lookup i n)
  head-tail j k i v w m n p a b same = (heads, tails)
    where
      heads : v ≡ w
      heads =
          let x = lookup-head j v m in
          let y = lookup-head k w n in
          let z = same j in
          let e : some v ≡ some w = sym x ∙ z ∙ ap (λ q. lookup q ((k, w) ∷ n)) p ∙ y in cc

      tails : lookup i m ≡ lookup i n
      tails = elim (text_key.dec j i) [
        | yes h ↦
            subst (λ q. lookup q m ≡ lookup q n) h
              (Above-absent j m a ∙ sym (ap (λ q. lookup q n) p ∙ Above-absent k n b))
        | no h ↦ sym (lookup-tail j i v m h) ∙ same i ∙ lookup-tail k i w n (λ e. h (p ∙ e))
      ]

  -- Sorted maps that agree at every key are equal.
  pub IsSorted-ext :
      (m n : Map Text V) → IsSorted m → IsSorted n → ((i : Text) → lookup i m ≡ lookup i n) → m ≡ n
  IsSorted-ext [] [] s t same = refl
  IsSorted-ext [] ((k, w) ∷ n) s t same =
      let a = lookup-head k w n in let b = same k in let c = lookup-nil k in cc
  IsSorted-ext ((j, v) ∷ m) [] s t same =
      let a = lookup-head j v m in let b = same j in let c = lookup-nil j in cc
  IsSorted-ext ((j, v) ∷ m) ((k, w) ∷ n) s t same =
      let p = same-heads j k v w m n s t same in
      let hs = (head-tail j k j v w m n p s.0 t.0 same).0 in
      let ts = IsSorted-ext m n s.1 t.1 (λ i. (head-tail j k i v w m n p s.0 t.0 same).1) in cc

  Above-retain :
      (p : Text → V → Bool) (k : Text) (m : Map Text V) → Above k m → Above k (retain p m)
  unfolding retain
  Above-retain p k [] a = tt
  Above-retain p k ((j, v) ∷ m) a = ground (arith, Above-retain p k m a.1)

  pub retain-IsSorted : (p : Text → V → Bool) (m : Map Text V) → IsSorted m → IsSorted (retain p m)
  unfolding retain
  retain-IsSorted p [] s = tt
  retain-IsSorted p ((k, v) ∷ m) s = ground (arith, Above-retain p k m s.0, retain-IsSorted p m s.1)

  Above-remove : (i k : Text) (m : Map Text V) → Above k m → Above k (remove i m)
  unfolding remove
  Above-remove i k [] a = tt
  Above-remove i k ((j, v) ∷ m) a = ground (arith, Above-remove i k m a.1)

  pub remove-IsSorted : (i : Text) (m : Map Text V) → IsSorted m → IsSorted (remove i m)
  unfolding remove
  remove-IsSorted i [] s = tt
  remove-IsSorted i ((k, v) ∷ m) s = ground (arith, Above-remove i k m s.0, remove-IsSorted i m s.1)
