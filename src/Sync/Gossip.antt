-- ===== src/Sync/Gossip.antt =====
-- Any number of replicas, the diff of two, and local writes after a merge.
use antigravity_server.Prelude.Int.{i64_max, ltb_ℤ, pos, ℤ}
use antigravity_server.Prelude.Map.{All-lookup, lookup, lookup-retain, text_key}
use antigravity_server.Prelude.Text.{Text}
use antigravity_server.Prelude.{
  All, All-map, List, Option, [], ap, ap₂, arith, false, if_pos, map, none, refl, some, sym, true,
  ◌∙◌, ◌∷◌, ◌≡◌,
}
use mathlib.Core.List.{Perm, Permᴰ}
use mathlib.Core.List.Perm
use mathlib.Core.Logic.{∥∥₁_elim}
use antigravity_server.Sync.BTree.{IsSorted-IsUnique, IsSorted-ext, lookup-insert, retain-IsSorted}
use antigravity_server.Sync.Lww.{
  join, join-keep_if, join_assoc, join_comm, merge_entries_idle, should_update, should_update-join,
}
use antigravity_server.Sync.Mapping.{
  MappingEntry, SyncableMapping, diff_newer_than, entry_order, get, live_target, merge_lww, new,
  next_timestamp, put, remove, set, wins_over,
}
use antigravity_server.Sync.Convergence.{IsMapping, lookup-merged, merged, merged-IsMapping}

-- A replica after merges with a list of others.
unfoldable pub merge_all : SyncableMapping → List SyncableMapping → SyncableMapping
merge_all s [] = s
merge_all s (r ∷ rs) = merge_all (merged s r) rs

join_all : Option MappingEntry → List (Option MappingEntry) → Option MappingEntry
join_all a [] = a
join_all a (b ∷ bs) = join_all (join entry_order a b) bs

join_swap :
    (a b c : Option MappingEntry)
    → join entry_order (join entry_order a b) c ≡ join entry_order (join entry_order a c) b
join_swap a b c =
    join_assoc entry_order a b c
    ∙ ap (join entry_order a) (join_comm entry_order b c)
    ∙ sym (join_assoc entry_order a c b)

join_all-Permᴰ :
    (a : Option MappingEntry) {xs ys : List (Option MappingEntry)}
    → Permᴰ xs ys
    → join_all a xs ≡ join_all a ys
unfolding join_all
join_all-Permᴰ a Permᴰ.nil = refl
join_all-Permᴰ a (Permᴰ.cons {a = x} {b = y} {l₂ = ys} e p) =
    join_all-Permᴰ (join entry_order a x) p ∙ ap (λ z. join_all (join entry_order a z) ys) e
join_all-Permᴰ a (Permᴰ.swap {a = x} {b = y} {a' = x'} {b' = y'} {l = l} e f) =
    ap (λ z. join_all z l) (join_swap a x y)
    ∙ ap₂ (λ u v. join_all (join entry_order (join entry_order a u) v) l) f e
join_all-Permᴰ a (Permᴰ.trans p q) = join_all-Permᴰ a p ∙ join_all-Permᴰ a q

entry_at : Text → SyncableMapping → Option MappingEntry
entry_at k r = lookup k r.entries

merge_all-IsMapping :
    (s : SyncableMapping) (rs : List SyncableMapping) → IsMapping s → IsMapping (merge_all s rs)
unfolding merge_all
merge_all-IsMapping s [] u = u
merge_all-IsMapping s (r ∷ rs) u = merge_all-IsMapping (merged s r) rs (merged-IsMapping s r u)

lookup-merge_all :
    (s : SyncableMapping) (rs : List SyncableMapping) (k : Text)
    → All IsMapping rs
    → lookup k (merge_all s rs).entries ≡ join_all (lookup k s.entries) (map (entry_at k) rs)
unfolding merge_all join_all entry_at
lookup-merge_all s [] k u = refl
lookup-merge_all s (r ∷ rs) k u =
    lookup-merge_all (merged s r) rs k u.1
    ∙ ap (λ x. join_all x (map (entry_at k) rs)) (lookup-merged s r k u.0)

-- Eventual consistency: a replica that merges the same mappings in two different orders, all of
-- them in the order of their keys, ends with the same entries.
pub merge_all-Perm :
    (s : SyncableMapping) (rs qs : List SyncableMapping)
    → IsMapping s
    → All IsMapping rs
    → All IsMapping qs
    → Perm rs qs
    → (merge_all s rs).entries ≡ (merge_all s qs).entries
merge_all-Perm s rs qs u v w p =
    IsSorted-ext _ _ (merge_all-IsMapping s rs u) (merge_all-IsMapping s qs u) λ k.
      lookup-merge_all s rs k v
      ∙ ∥∥₁_elim (Perm.map (entry_at k) p) (Option-set _ _) (join_all-Permᴰ (lookup k s.entries))
      ∙ sym (lookup-merge_all s qs k w)
  where
    Option-set : IsSet (Option MappingEntry)
    Option-set = hlevel

-- A second merge of the same mapping, in the order of its keys, changes nothing and reports no
-- update.
pub merge_lww_again :
    (s r : SyncableMapping) → IsMapping r → merge_lww (merged s r) r ≡ (merged s r, 0)
unfolding merge_lww
merge_lww_again s r v =
    ap (λ x. (record s { entries = x.0 }, x.1))
      (merge_entries_idle entry_order _ r.entries (
        All-map r.entries
          (λ b h.
            ap (λ x. should_update entry_order x b.1)
              (lookup-merged s r b.0 v ∙ ap (join entry_order (lookup b.0 s.entries)) h)
            ∙ should_update-join entry_order (lookup b.0 s.entries) b.1)
          (All-lookup r.entries (IsSorted-IsUnique r.entries v))))

-- For mappings in the order of their keys, sending only the entries that are newer than the
-- receiver's has the effect of sending them all.
pub merged-diff_newer_than :
    (s r : SyncableMapping)
    → IsMapping s
    → IsMapping r
    → (merged r (diff_newer_than s r)).entries ≡ (merged r s).entries
unfolding diff_newer_than
merged-diff_newer_than s r u v =
    let newer = λ (k : Text) (e : MappingEntry). should_update entry_order (lookup k r.entries) e in
    let kept : IsMapping (diff_newer_than s r) = retain-IsSorted newer s.entries u in
    IsSorted-ext _ _ (merged-IsMapping r (diff_newer_than s r) v) (merged-IsMapping r s v) λ k.
      lookup-merged r (diff_newer_than s r) k kept
      ∙ ap (join entry_order (lookup k r.entries))
          (lookup-retain newer k s.entries (IsSorted-IsUnique s.entries u))
      ∙ join-keep_if entry_order (lookup k r.entries) (lookup k s.entries) k
          (λ j. lookup j r.entries) refl
      ∙ sym (lookup-merged r s k u)

join-newer :
    (new : MappingEntry) (now : ℤ) (o : Option MappingEntry)
    → ((e : MappingEntry) → o ≡ some e → ltb_ℤ e.updated_at (pos i64_max) ≡ true)
    → new.updated_at ≡ next_timestamp now o
    → join entry_order (some new) o ≡ some new
unfolding next_timestamp wins_over
join-newer new now none fresh at = refl
join-newer new now (some e) fresh at = ground (arith, fresh e refl)

newer_survives :
    (s : SyncableMapping) (source : Text) (new : MappingEntry) (now : ℤ)
    → IsMapping s
    → ((e : MappingEntry)
        → lookup source s.entries ≡ some e
        → ltb_ℤ e.updated_at (pos i64_max) ≡ true)
    → new.updated_at ≡ next_timestamp now (lookup source s.entries)
    → live_target (lookup source (merged (put s source new) s).entries) ≡ live_target (some new)
newer_survives s source new now u fresh at = ap live_target (
    lookup-merged (put s source new) s source u
    ∙ ap (λ x. join entry_order x (lookup source s.entries))
        (lookup-insert source source new s.entries ∙ if_pos (text_key.dec source source) refl _ _)
    ∙ join-newer new now (lookup source s.entries) fresh at)

-- For a mapping in the order of its keys, unless the clock of the entry is at its end, what `set`
-- writes stays when the replica hears its own former mapping again, and what `remove` deletes
-- stays deleted.
pub set_survives :
    (s : SyncableMapping) (source target : Text) (now : ℤ)
    → IsMapping s
    → ((e : MappingEntry)
        → lookup source s.entries ≡ some e
        → ltb_ℤ e.updated_at (pos i64_max) ≡ true)
    → (get (merged (set s source target now) s) source ≡ some target)
      × (get (merged (remove s source now) s) source ≡ none)
unfolding get set remove
set_survives s source target now u fresh =
    let at = next_timestamp now (lookup source s.entries) in
    (
      newer_survives s source (record { target = target; updated_at = at; deleted = false }) now u
          fresh refl,
      newer_survives s source (record { target = []; updated_at = at; deleted = true }) now u fresh
          refl,
    )
