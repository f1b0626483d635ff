-- ===== src/Prelude/Map.antt =====
-- Maps (`HashMap`, `DashMap`, `BTreeMap`) as association lists.
-- The order of the bindings is not observable, save by iteration.
use mathlib.Core.Path.{◌≡◌, refl, sym, ap, subst, ◌∙◌}
use mathlib.Core.Logic.{ite, if_pos, if_neg}
use mathlib.Core.Bool.{Bool, true, false}
use mathlib.Core.List.{List, [], ◌∷◌}
use mathlib.Core.Option.{Option, none, some}
use native.Mathlib.Omega.{arith}
use antigravity_server.Prelude.Lists.{All, All-map}
use antigravity_server.Prelude.Tests.{ite-keeps, option_map}
use antigravity_server.Prelude.Text.{Text, Text-discrete}

-- A type of keys.
pub record Key {ℓ} (K : Type ℓ) : Type ℓ where
  pub dec : Discrete K

instance abbrev pub text_key : Key Text
text_key = record { dec = Text-discrete }

abbrev pub Map {ℓ} : Type ℓ → Type ℓ → Type ℓ
Map K V = List (K × V)

module _ {ℓ} {K V : Type ℓ} ⦃key : Key K⦄ where
  unfoldable pub lookup : K → Map K V → Option V
  lookup k [] = none
  lookup k ((j, v) ∷ m) = ite (key.dec j k) (some v) (lookup k m)

  unfoldable pub insert : K → V → Map K V → Map K V
  insert k v [] = (k, v) ∷ []
  insert k v ((j, w) ∷ m) = ite (key.dec j k) ((j, v) ∷ m) ((j, w) ∷ insert k v m)

  unfoldable pub remove : K → Map K V → Map K V
  remove k [] = []
  remove k ((j, v) ∷ m) = ite (key.dec j k) (remove k m) ((j, v) ∷ remove k m)

  -- A change of the value at a key that is bound, as through `get_mut`.
  unfoldable pub modify : K → (V → V) → Map K V → Map K V
  modify k f m = elim (lookup k m) [ none ↦ m | some v ↦ insert k (f v) m ]

  -- `retain`: keep the bindings that pass a test.
  unfoldable pub retain : (K → V → Bool) → Map K V → Map K V
  retain p [] = []
  retain p ((j, v) ∷ m) =
      let rest = retain p m in elim (p j v) [ true ↦ (j, v) ∷ rest | false ↦ rest ]

  pub lookup-insert :
      (k j : K) (v : V) (m : Map K V)
      → lookup j (insert k v m) ≡ ite (key.dec k j) (some v) (lookup j m)
  unfolding lookup insert
  lookup-insert k j v [] = refl
  lookup-insert k j v ((i, w) ∷ m) = ground (arith, lookup-insert k j v m)

  pub lookup-remove :
      (k j : K) (m : Map K V) → lookup j (remove k m) ≡ ite (key.dec k j) none (lookup j m)
  unfolding lookup remove
  lookup-remove k j [] = ground arith
  lookup-remove k j ((i, w) ∷ m) = ground (arith, lookup-remove k j m)

  -- No key is bound twice, as in every map of the program.
  abbrev pub IsUnique : Map K V → Type ℓ
  IsUnique [] = Unit
  IsUnique ((k, v) ∷ m) = (lookup k m ≡ none) × IsUnique m

  lookup-insert_fresh :
      (k j : K) (v : V) (m : Map K V)
      → lookup j m ≡ none
      → ¬ (k ≡ j)
      → lookup j (insert k v m) ≡ none
  lookup-insert_fresh k j v m h n = ground (arith, lookup-insert k j v m)

  pub insert-IsUnique : (k : K) (v : V) (m : Map K V) → IsUnique m → IsUnique (insert k v m)
  unfolding insert lookup
  insert-IsUnique k v [] u = ground arith
  insert-IsUnique k v ((j, w) ∷ m) u =
      ground (arith, insert-IsUnique k v m u.1, lookup-insert_fresh k j v m u.0)

  pub remove-IsUnique : (k : K) (m : Map K V) → IsUnique m → IsUnique (remove k m)
  unfolding remove
  remove-IsUnique k [] u = tt
  remove-IsUnique k ((j, w) ∷ m) u = ground (arith, remove-IsUnique k m u.1, lookup-remove k j m)

  -- What `retain` leaves of one binding.
  abbrev pub keep_if : (K → V → Bool) → K → Option V → Option V
  keep_if p k none = none
  keep_if p k (some v) = elim (p k v) [ true ↦ some v | false ↦ none ]

  retain-absent :
      (p : K → V → Bool) (k : K) (m : Map K V) → lookup k m ≡ none → lookup k (retain p m) ≡ none
  unfolding lookup retain
  retain-absent p k [] h = refl
  retain-absent p k ((j, w) ∷ m) h = ground (arith, retain-absent p k m)

  pub lookup-retain :
      (p : K → V → Bool) (k : K) (m : Map K V)
      → IsUnique m
      → lookup k (retain p m) ≡ keep_if p k (lookup k m)
  unfolding lookup retain
  lookup-retain p k [] u = refl
  lookup-retain p k ((j, w) ∷ m) u =
      ground (arith, retain-absent p j m u.0, lookup-retain p k m u.1)

  pub retain-IsUnique : (p : K → V → Bool) (m : Map K V) → IsUnique m → IsUnique (retain p m)
  unfolding retain
  retain-IsUnique p [] u = tt
  retain-IsUnique p ((j, w) ∷ m) u =
      ground (arith, retain-absent p j m u.0, retain-IsUnique p m u.1)

  pub lookup-insert_self : (k : K) (v : V) (m : Map K V) → lookup k (insert k v m) ≡ some v
  lookup-insert_self k v m = lookup-insert k k v m ∙ if_pos (key.dec k k) refl _ _

  pub lookup-insert_ne :
      (k j : K) (v : V) (m : Map K V) → ¬ (k ≡ j) → lookup j (insert k v m) ≡ lookup j m
  lookup-insert_ne k j v m n = lookup-insert k j v m ∙ if_neg (key.dec k j) n _ _

  pub lookup-remove_self : (k : K) (m : Map K V) → lookup k (remove k m) ≡ none
  lookup-remove_self k m = lookup-remove k k m ∙ if_pos (key.dec k k) refl _ _

  pub lookup-remove_ne : (k j : K) (m : Map K V) → ¬ (k ≡ j) → lookup j (remove k m) ≡ lookup j m
  lookup-remove_ne k j m n = lookup-remove k j m ∙ if_neg (key.dec k j) n _ _

  lookup-cons_ne : (k j : K) (v : V) (m : Map K V) → ¬ (k ≡ j) → lookup j ((k, v) ∷ m) ≡ lookup j m
  unfolding lookup
  lookup-cons_ne k j v m n = if_neg (key.dec k j) n _ _

  lookup-cons_self : (k : K) (v : V) (m : Map K V) → lookup k ((k, v) ∷ m) ≡ some v
  unfolding lookup
  lookup-cons_self k v m = if_pos (key.dec k k) refl _ _

  lookup_apart :
      (k j : K) (v w : V) (m : Map K V)
      → lookup k m ≡ none
      → lookup j m ≡ some w
      → lookup j ((k, v) ∷ m) ≡ some w
  lookup_apart k j v w m absent h =
      lookup-cons_ne k j v m (λ e. let f = absent in let g = ap (λ i. lookup i m) e in cc) ∙ h

  -- Each binding of a map is what its key looks up.
  pub All-lookup : (m : Map K V) → IsUnique m → All (λ b. lookup b.0 m ≡ some b.1) m
  All-lookup [] u = tt
  All-lookup ((k, v) ∷ m) u = (
    lookup-cons_self k v m,
    All-map m (λ b h. lookup_apart k b.0 v b.1 m u.0 h) (All-lookup m u.1),
  )

  -- A predicate on the values of a map.
  module _ {μ} (Q : V → Type μ) where
    abbrev pub AllValues : Map K V → Type μ
    AllValues m = All (λ b. Q b.1) m

    pub insert-AllValues :
        (k : K) (v : V) (m : Map K V) → Q v → AllValues m → AllValues (insert k v m)
    unfolding insert
    insert-AllValues k v [] q a = (q, tt)
    insert-AllValues k v ((j, w) ∷ m) q a =
        ite-keeps (key.dec j k) AllValues (q, a.1) (a.0, insert-AllValues k v m q a.1)

    pub remove-AllValues : (k : K) (m : Map K V) → AllValues m → AllValues (remove k m)
    unfolding remove
    remove-AllValues k [] a = tt
    remove-AllValues k ((j, w) ∷ m) a =
        ite-keeps (key.dec j k) AllValues (remove-AllValues k m a.1) (a.0, remove-AllValues k m a.1)

    pub AllValues-lookup : (k : K) (v : V) (m : Map K V) → AllValues m → lookup k m ≡ some v → Q v
    unfolding lookup
    AllValues-lookup k v [] a e = ground arith
    AllValues-lookup k v ((j, w) ∷ m) a e = elim (key.dec j k) [
      | yes p ↦ subst Q (let f = sym (if_pos (key.dec j k) p _ _) ∙ e in cc) a.0
      | no n ↦ AllValues-lookup k v m a.1 (sym (if_neg (key.dec j k) n _ _) ∙ e)
    ]

  -- Where every value passes, `retain` keeps the map.
  pub retain_all :
      (p : K → V → Bool) (m : Map K V) → AllValues (λ v. (k : K) → p k v ≡ true) m → retain p m ≡ m
  unfolding retain
  retain_all p [] a = refl
  retain_all p ((j, w) ∷ m) a = let here = a.0 j in let rest = retain_all p m a.1 in ground arith

  -- A change of every value, as a loop over the entries makes it.
  unfoldable pub map_values : (V → V) → Map K V → Map K V
  map_values f [] = []
  map_values f ((j, v) ∷ m) = (j, f v) ∷ map_values f m

  pub lookup-map_values :
      (f : V → V) (k : K) (m : Map K V) → lookup k (map_values f m) ≡ option_map f (lookup k m)
  unfolding map_values lookup
  lookup-map_values f k [] = refl
  lookup-map_values f k ((j, v) ∷ m) = ground (arith, lookup-map_values f k m)
