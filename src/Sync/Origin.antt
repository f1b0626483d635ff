-- ===== src/Sync/Origin.antt =====
-- Proxy assignments: where the entries come from after a merge.
use antigravity_server.Sync.BTree.{insert, IsSorted-IsUnique}
use antigravity_server.Sync.ProxyAssignment.{
  ProxyAssignment, SyncableProxyAssignments, a_day, evict_oldest, merge_entries, merge_entry,
  merge_lww, take_winner,
}
use antigravity_server.Sync.Capacity.{IsAssignments, evict_oldest_keeps}
use antigravity_server.Prelude.Map.{Map, lookup, remove, All-lookup, text_key}
use antigravity_server.Prelude.Text.{Text, text_gt}
use antigravity_server.Prelude.Int.{ℤ, ltb_ℤ, sat_add_i64}
use antigravity_server.Prelude.{
  ℕ, Bool, Bool-cases, some, true, false, if◌then◌else◌, if_pos, if_neg, sym, inl, inr, ◌∷◌, [],
  ◌≡◌, ◌⊎◌, arith, subst, All, All-map, ite-keeps,
}

abbrev Entries : Type 0
Entries = Map Text ProxyAssignment

if_keeps : (b : Bool) (Q : Entries → Type 0) {x y : Entries} → Q x → Q y → Q (if b then x else y)
if_keeps true Q p q = p
if_keeps false Q p q = q

module _ (P : Text → ProxyAssignment → Type 0) where
  abbrev AllBound : Entries → Type 0
  AllBound m = All (λ b. P b.0 b.1) m

  insert-AllBound :
      (k : Text) (e : ProxyAssignment) (m : Entries) → P k e → AllBound m → AllBound (insert k e m)
  unfolding insert
  insert-AllBound k e [] p a = (p, tt)
  insert-AllBound k e ((j, w) ∷ m) p a = elim (text_key.dec j k) [
    | yes q ↦
        subst AllBound (sym (if_pos (text_key.dec j k) q _ _)) (subst (λ i. P i e) (sym q) p, a.1)
    | no n ↦
        subst AllBound (sym (if_neg (text_key.dec j k) n _ _))
          (if_keeps (text_gt j k) AllBound (p, a) (a.0, insert-AllBound k e m p a.1))
  ]

  remove-AllBound : (k : Text) (m : Entries) → AllBound m → AllBound (remove k m)
  unfolding remove
  remove-AllBound k [] a = tt
  remove-AllBound k ((j, w) ∷ m) a =
      ite-keeps (text_key.dec j k) AllBound (remove-AllBound k m a.1) (a.0, remove-AllBound k m a.1)

  evict_oldest-AllBound : (m : Entries) → AllBound m → AllBound (evict_oldest m)
  evict_oldest-AllBound m a = evict_oldest_keeps AllBound m a (λ k. remove-AllBound k m a)

  take_winner-AllBound :
      (m : Entries) (n : ℕ) (k : Text) (e : ProxyAssignment)
      → P k e
      → AllBound m
      → AllBound (take_winner m n k e).0
  unfolding take_winner
  take_winner-AllBound m n k e p a = ground (arith, insert-AllBound k e m p a)

  merge_entry-AllBound :
      (max_allowed : ℤ) (m : Entries) (n : ℕ) (k : Text) (e : ProxyAssignment)
      → (ltb_ℤ max_allowed e.updated_at ≡ false → P k e)
      → AllBound m
      → AllBound (merge_entry max_allowed (m, n) k e).0
  unfolding merge_entry
  merge_entry-AllBound max_allowed m n k e p a =
      elim (Bool-cases (ltb_ℤ max_allowed e.updated_at)) [
        | inl far ↦ rw far a
        | inr near ↦ rw near (
            ground (
              arith,
              take_winner-AllBound m n k e (p near) a,
              take_winner-AllBound (evict_oldest m) n k e (p near) (evict_oldest-AllBound m a),
            ))
      ]

  merge_entries-AllBound :
      (max_allowed : ℤ) (m : Entries) (n : ℕ) (r : Entries)
      → All (λ b. ltb_ℤ max_allowed b.1.updated_at ≡ false → P b.0 b.1) r
      → AllBound m
      → AllBound (merge_entries max_allowed (m, n) r).0
  unfolding merge_entries
  merge_entries-AllBound max_allowed m n [] p a = a
  merge_entries-AllBound max_allowed m n ((k, e) ∷ r) p a =
      merge_entries-AllBound max_allowed (merge_entry max_allowed (m, n) k e).0
        (merge_entry max_allowed (m, n) k e).1 r p.1
        (merge_entry-AllBound max_allowed m n k e p.0 a)

-- After a merge each entry is one that was there, or one of the remote's whose time is no more than
-- a day ahead of the clock.
pub merge_lww_origin :
    (s remote : SyncableProxyAssignments) (now : ℤ)
    → IsAssignments s
    → IsAssignments remote
    → All
        (λ b.
          (lookup b.0 s.entries ≡ some b.1)
          ⊎ ((lookup b.0 remote.entries ≡ some b.1)
              × (ltb_ℤ (sat_add_i64 now a_day) b.1.updated_at ≡ false)))
        (merge_lww s remote now).0.entries
unfolding merge_lww
merge_lww_origin s remote now u v =
    merge_entries-AllBound
      (λ k e.
        (lookup k s.entries ≡ some e)
        ⊎ ((lookup k remote.entries ≡ some e)
            × (ltb_ℤ (sat_add_i64 now a_day) e.updated_at ≡ false)))
      (sat_add_i64 now a_day) s.entries 0 remote.entries
      (All-map remote.entries (λ b h near. inr (h, near))
        (All-lookup remote.entries (IsSorted-IsUnique remote.entries v.0)))
      (All-map s.entries (λ b h. inl h) (All-lookup s.entries (IsSorted-IsUnique s.entries u.0)))
