-- ===== src/Sync/Convergence.antt =====
-- Merging mappings: replicas converge, whatever the order in which they meet.
use antigravity_server.Prelude.Map.{lookup, text_key}
use antigravity_server.Prelude.Text.{Text}
use antigravity_server.Prelude.{ap, arith, false, not, sym, true, ◌∙◌, ◌≡◌, ◌⊎◌}
use antigravity_server.Sync.BTree.{IsSorted, IsSorted-IsUnique, IsSorted-ext}
use antigravity_server.Sync.Lww.{
  join, join_assoc, join_comm, lookup-merge_entries, merge_entries-IsSorted,
}
use antigravity_server.Sync.Mapping.{
  MappingEntry, SyncableMapping, entry_order, merge_lww, wins_over, wins_over_irrefl,
  wins_over-total, wins_over_trans,
}

-- `wins_over` is a strict total order: of two different entries exactly one wins, and it is
-- transitive; so every two replicas agree on the winner.
pub wins_over_order :
    (a b c : MappingEntry)
    → (wins_over a a ≡ false)
      × ((a ≡ b) ⊎ (wins_over a b ≡ not (wins_over b a)))
      × (wins_over a b ≡ true → wins_over b c ≡ true → wins_over a c ≡ true)
wins_over_order a b c = (wins_over_irrefl a, one_wins, wins_over_trans a b c)
  where
    one_wins : (a ≡ b) ⊎ (wins_over a b ≡ not (wins_over b a))
    one_wins = ground (arith, wins_over-total a b, wins_over_trans a b a, wins_over_irrefl a)

abbrev pub IsMapping : SyncableMapping → Type 0
IsMapping s = IsSorted s.entries

-- The mapping after a merge.
abbrev pub merged : SyncableMapping → SyncableMapping → SyncableMapping
merged s r = (merge_lww s r).0

pub lookup-merged :
    (s r : SyncableMapping) (k : Text)
    → IsMapping r
    → lookup k (merged s r).entries ≡ join entry_order (lookup k s.entries) (lookup k r.entries)
unfolding merge_lww
lookup-merged s r k u =
    lookup-merge_entries entry_order (s.entries, 0) r.entries k (IsSorted-IsUnique r.entries u)

pub merged-IsMapping : (s r : SyncableMapping) → IsMapping s → IsMapping (merged s r)
unfolding merge_lww
merged-IsMapping s r u = merge_entries-IsSorted entry_order (s.entries, 0) r.entries u

-- Two replicas with their entries in the order of the keys, as a BTreeMap has them, that merge each
-- other's mapping hold the same entries afterwards.
pub merged_comm :
    (s r : SyncableMapping)
    → IsMapping s
    → IsMapping r
    → (merged s r).entries ≡ (merged r s).entries
merged_comm s r u v = IsSorted-ext _ _ (merged-IsMapping s r u) (merged-IsMapping r s v) λ k.
    lookup-merged s r k v
    ∙ join_comm entry_order (lookup k s.entries) (lookup k r.entries)
    ∙ sym (lookup-merged r s k u)

-- For mappings in the order of their keys, merging two others one by one gives the same entries as
-- merging what these two have merged already.
pub merged_assoc :
    (s r q : SyncableMapping)
    → IsMapping s
    → IsMapping r
    → IsMapping q
    → (merged (merged s r) q).entries ≡ (merged s (merged r q)).entries
merged_assoc s r q u v w =
    IsSorted-ext _ _ (merged-IsMapping _ q (merged-IsMapping s r u)) (merged-IsMapping s _ u) λ k.
      lookup-merged (merged s r) q k w
      ∙ ap (λ x. join entry_order x (lookup k q.entries)) (lookup-merged s r k v)
      ∙ join_assoc entry_order (lookup k s.entries) (lookup k r.entries) (lookup k q.entries)
      ∙ ap (join entry_order (lookup k s.entries)) (sym (lookup-merged r q k w))
      ∙ sym (lookup-merged s (merged r q) k (merged-IsMapping r q v))
