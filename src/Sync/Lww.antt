-- ===== src/Sync/Lww.antt =====
-- The merge that mappings and proxy assignments share, over any order of entries.
use antigravity_server.Prelude.Map.{IsUnique, Map, keep_if, lookup, text_key}
use antigravity_server.Prelude.Text.{Text}
use antigravity_server.Prelude.{
  All, Bool, Option, [], ap, arith, false, if◌then◌else◌, ite, none, refl, sat_u64, some, subst,
  sym, true, ℕ, ◌+◌, ◌∙◌, ◌∷◌, ◌≡◌,
}
use antigravity_server.Sync.BTree.{IsSorted, insert, insert-IsSorted, lookup-insert}

-- `wins_over`, with the laws of a strict total order.
pub record Lww (E : Type 0) : Type 0 where
  pub wins : E → E → Bool
  pub irrefl : (a : E) → wins a a ≡ false
  pub trans : (a b c : E) → wins a b ≡ true → wins b c ≡ true → wins a c ≡ true
  pub total : (a b : E) → wins a b ≡ false → wins b a ≡ false → a ≡ b

module _ {E : Type 0} (order : Lww E) where
  -- `is_none_or(|local| remote.wins_over(local))`
  abbrev pub should_update : Option E → E → Bool
  should_update none e = true
  should_update (some a) e = order.wins e a

  -- The loop body of `merge_lww`: the local entries and the count of updates.
  unfoldable pub merge_entry : Map Text E × ℕ → Text → E → Map Text E × ℕ
  merge_entry (m, n) k e =
      if should_update (lookup k m) e then (insert k e m, sat_u64 (n + 1)) else (m, n)

  unfoldable pub merge_entries : Map Text E × ℕ → Map Text E → Map Text E × ℕ
  merge_entries acc [] = acc
  merge_entries acc ((k, e) ∷ r) = merge_entries (merge_entry acc k e) r

  -- The later of two entries for one key.
  abbrev pub join : Option E → Option E → Option E
  join none b = b
  join (some a) none = some a
  join (some a) (some b) = some (if order.wins b a then b else a)

  pub join_comm : (a b : Option E) → join a b ≡ join b a
  join_comm none none = refl
  join_comm none (some b) = refl
  join_comm (some a) none = refl
  join_comm (some a) (some b) = ground (arith, order.total a b, order.trans a b a, order.irrefl a)

  pub join_assoc : (a b c : Option E) → join (join a b) c ≡ join a (join b c)
  join_assoc none b c = refl
  join_assoc (some a) none c = refl
  join_assoc (some a) (some b) none = refl
  join_assoc (some a) (some b) (some c) = ground (
    arith,
    order.trans c b a,
    order.trans b c a,
    order.trans c a b,
    order.trans a c b,
    order.total a b,
    order.total b c,
    order.total a c,
  )

  pub join_self : (a : Option E) → join a a ≡ a
  join_self none = refl
  join_self (some a) = ground (arith, order.irrefl a)

  lookup-merge_entry :
      (acc : Map Text E × ℕ) (k j : Text) (e : E)
      → lookup j (merge_entry acc k e).0
        ≡ ite (text_key.dec k j) (join (lookup j acc.0) (some e)) (lookup j acc.0)
  unfolding merge_entry
  lookup-merge_entry (m, n) k j e = ground (arith, lookup-insert k j e m)

  join-none : (a : Option E) → join a none ≡ a
  join-none none = refl
  join-none (some a) = refl

  join-ite :
      {P : Type 0} (d : Dec P) (x y : Option E) (e : E)
      → (P → y ≡ none)
      → join (ite d (join x (some e)) x) y ≡ join x (ite d (some e) y)
  join-ite (yes p) x y e h = rw (h p) (join-none (join x (some e)))
  join-ite (no n) x y e h = refl

  -- The merge at one key.
  pub lookup-merge_entries :
      (acc : Map Text E × ℕ) (r : Map Text E) (j : Text)
      → IsUnique r
      → lookup j (merge_entries acc r).0 ≡ join (lookup j acc.0) (lookup j r)
  unfolding merge_entries lookup
  lookup-merge_entries acc [] j u = sym (join-none (lookup j acc.0))
  lookup-merge_entries acc ((k, e) ∷ r) j u =
      lookup-merge_entries (merge_entry acc k e) r j u.1
      ∙ ap (λ x. join x (lookup j r)) (lookup-merge_entry acc k j e)
      ∙ join-ite (text_key.dec k j) (lookup j acc.0) (lookup j r) e
          (λ p. subst (λ i. lookup i r ≡ none) p u.0)

  merge_entry-IsSorted :
      (acc : Map Text E × ℕ) (k : Text) (e : E) → IsSorted acc.0 → IsSorted (merge_entry acc k e).0
  unfolding merge_entry
  merge_entry-IsSorted (m, n) k e s = ground (arith, insert-IsSorted k e m s)

  pub merge_entries-IsSorted :
      (acc : Map Text E × ℕ) (r : Map Text E) → IsSorted acc.0 → IsSorted (merge_entries acc r).0
  unfolding merge_entries
  merge_entries-IsSorted acc [] s = s
  merge_entries-IsSorted acc ((k, e) ∷ r) s =
      merge_entries-IsSorted (merge_entry acc k e) r (merge_entry-IsSorted acc k e s)

  -- A merge in which no entry wins does nothing.
  pub merge_entries_idle :
      (acc : Map Text E × ℕ) (r : Map Text E)
      → All (λ b. should_update (lookup b.0 acc.0) b.1 ≡ false) r
      → merge_entries acc r ≡ acc
  unfolding merge_entries merge_entry
  merge_entries_idle acc [] h = refl
  merge_entries_idle (m, n) ((k, e) ∷ r) h = rw h.0 (merge_entries_idle (m, n) r h.1)

  -- After a merge its entries win no more.
  pub should_update-join : (a : Option E) (e : E) → should_update (join a (some e)) e ≡ false
  should_update-join none e = order.irrefl e
  should_update-join (some a) e = ground (arith, order.irrefl e)

  -- An entry that would not win may as well be left out.
  pub join-keep_if :
      (b a : Option E) (k : Text) (f : Text → Option E)
      → f k ≡ b
      → join b (keep_if (λ j e. should_update (f j) e) k a) ≡ join b a
  join-keep_if none none k f h = refl
  join-keep_if none (some e) k f h = ground (arith, h)
  join-keep_if (some b) none k f h = refl
  join-keep_if (some b) (some e) k f h = ground (arith, h)
