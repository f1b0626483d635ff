-- ===== src/Sync/Capacity.antt =====
-- Proxy assignments: how many entries are kept, and which are never taken over.
use antigravity_server.Sync.BTree.{insert, insert-IsSorted, IsSorted, below-absent, remove-IsSorted}
use antigravity_server.Sync.ProxyAssignment.{
  ProxyAssignment, SyncableProxyAssignments, a_day, evict_oldest, is_full, max_proxy_entries,
  merge_entries, merge_entry, merge_lww, oldest, set, take_winner, time_after,
}
use antigravity_server.Prelude.Map.{Map, lookup, remove, text_key}
use antigravity_server.Prelude.Text.{Text}
use antigravity_server.Prelude.Int.{ℤ, sat_add_i64}
use antigravity_server.Prelude.{
  ℕ, Option, Option-cases, Bool-cases, none, some, true, false, not, inl, inr, is_some, length, ◌∷◌,
  [], ◌&&◌, ◌+◌, ◌≡◌, ◌≤◌, arith, refl,
}

abbrev Entries : Type 0
Entries = Map Text ProxyAssignment

length-insert :
    (k : Text) (e : ProxyAssignment) (m : Entries) → length (insert k e m) ≤ length m + 1
unfolding insert
length-insert k e [] = omega arith
length-insert k e ((j, w) ∷ m) = ground (arith, length-insert k e m)

-- A key that is bound keeps its place.
length-insert_bound :
    (k : Text) (e : ProxyAssignment) (m : Entries)
    → IsSorted m
    → is_some (lookup k m) ≡ true
    → length (insert k e m) ≤ length m
unfolding insert lookup
length-insert_bound k e [] s h = ground arith
length-insert_bound k e ((j, w) ∷ m) s h =
    ground (arith, length-insert_bound k e m s.1, below-absent j k w m)

length-remove :
    (k : Text) (m : Entries)
    → (length (remove k m) ≤ length m)
      × (is_some (lookup k m) ≡ true → length (remove k m) + 1 ≤ length m)
unfolding remove lookup
length-remove k [] = ground arith
length-remove k ((j, w) ∷ m) = ground (arith, length-remove k m)

oldest-lookup : (m : Entries) (o : Text × ℤ) → oldest m ≡ some o → is_some (lookup o.0 m) ≡ true
unfolding oldest lookup
oldest-lookup [] o h = ground arith
oldest-lookup ((k, e) ∷ m) o h = elim (Option-cases (oldest m)) [
  | inl a ↦ ground arith
  | inr (p, a) ↦ ground (arith, oldest-lookup m p a)
]

oldest-none : (m : Entries) → oldest m ≡ none → length m ≡ 0
unfolding oldest
oldest-none [] h = refl
oldest-none ((k, e) ∷ m) h = elim (Option-cases (oldest m)) [
  | inl a ↦ ground arith
  | inr (p, a) ↦ ground arith
]

-- A full map has room for one entry more after an eviction.
length-evict_oldest :
    (m : Entries)
    → (length (evict_oldest m) ≤ length m)
      × (is_full m ≡ true
          → length m ≤ max_proxy_entries
          → length (evict_oldest m) + 1 ≤ max_proxy_entries)
unfolding evict_oldest is_full
length-evict_oldest m = elim (Option-cases (oldest m)) [
  | inl a ↦ rw (evict_oldest, a) (ground (arith, oldest-none m a))
  | inr (p, a) ↦
      rw (evict_oldest, a)
        (let r = length-remove p.0 m in
          let k = r.1 (oldest-lookup m p a) in (r.0, (λ f b. omega arith)))
]

insert-kept :
    (m : Entries) (k : Text) (e : ProxyAssignment)
    → IsSorted m
    → length m ≤ max_proxy_entries
    → not (is_some (lookup k m)) && is_full m ≡ false
    → length (insert k e m) ≤ max_proxy_entries
unfolding is_full
insert-kept m k e sorted small h =
    ground (arith, length-insert k e m, length-insert_bound k e m sorted)

pub set-length :
    (s : SyncableProxyAssignments) (email : Text) (proxy_url : Option Text) (now : ℤ)
    → IsSorted s.entries
    → length s.entries ≤ max_proxy_entries
    → length (set s email proxy_url now).entries ≤ max_proxy_entries
unfolding set
set-length s email proxy_url now sorted small =
    let e : ProxyAssignment = record {
      proxy_url = proxy_url;
      updated_at = time_after now (lookup email s.entries);
    } in
    elim (Bool-cases (not (is_some (lookup email s.entries)) && is_full s.entries)) [
      | inl h ↦ rw h (
          let r = length-evict_oldest s.entries in
          let full : is_full s.entries ≡ true = ground arith in
          let room = r.1 full small in
          omega (arith, length-insert email e (evict_oldest s.entries)))
      | inr h ↦ rw h (insert-kept s.entries email e sorted small h)
    ]

take_winner-room :
    (m : Entries) (n : ℕ) (k : Text) (e : ProxyAssignment)
    → length m + 1 ≤ max_proxy_entries
    → length (take_winner m n k e).0 ≤ max_proxy_entries
unfolding take_winner
take_winner-room m n k e room = ground (arith, length-insert k e m)

take_winner-kept :
    (m : Entries) (n : ℕ) (k : Text) (e : ProxyAssignment)
    → IsSorted m
    → length m ≤ max_proxy_entries
    → not (is_some (lookup k m)) && is_full m ≡ false
    → length (take_winner m n k e).0 ≤ max_proxy_entries
unfolding take_winner
take_winner-kept m n k e sorted small h = ground (arith, insert-kept m k e sorted small h)

merge_entry-length :
    (max_allowed : ℤ) (m : Entries) (n : ℕ) (k : Text) (e : ProxyAssignment)
    → IsSorted m
    → length m ≤ max_proxy_entries
    → length (merge_entry max_allowed (m, n) k e).0 ≤ max_proxy_entries
unfolding merge_entry
merge_entry-length max_allowed m n k e sorted small =
    elim (Bool-cases (not (is_some (lookup k m)) && is_full m)) [
      | inl h ↦
          let full : is_full m ≡ true = ground arith in
          let room =
            take_winner-room (evict_oldest m) n k e ((length-evict_oldest m).1 full small) in
          rw h (ground arith)
      | inr h ↦ rw h (ground (arith, take_winner-kept m n k e sorted small h))
    ]

pub evict_oldest_keeps :
    (Q : Map Text ProxyAssignment → Type 0) (m : Map Text ProxyAssignment)
    → Q m
    → ((k : Text) → Q (remove k m))
    → Q (evict_oldest m)
unfolding evict_oldest
evict_oldest_keeps Q m a f =
    elim (oldest m) as (λ o. Q (elim o [ none ↦ m | some p ↦ remove p.0 m ])) [
      | none ↦ a
      | some p ↦ f p.0
    ]

evict_oldest-IsSorted : (m : Entries) → IsSorted m → IsSorted (evict_oldest m)
evict_oldest-IsSorted m s = evict_oldest_keeps IsSorted m s (λ k. remove-IsSorted k m s)

take_winner-IsSorted :
    (m : Entries) (n : ℕ) (k : Text) (e : ProxyAssignment)
    → IsSorted m
    → IsSorted (take_winner m n k e).0
unfolding take_winner
take_winner-IsSorted m n k e s = ground (arith, insert-IsSorted k e m s)

merge_entry-IsSorted :
    (max_allowed : ℤ) (m : Entries) (n : ℕ) (k : Text) (e : ProxyAssignment)
    → IsSorted m
    → IsSorted (merge_entry max_allowed (m, n) k e).0
unfolding merge_entry
merge_entry-IsSorted max_allowed m n k e s = ground (
  arith,
  take_winner-IsSorted m n k e s,
  take_winner-IsSorted (evict_oldest m) n k e (evict_oldest-IsSorted m s),
)

merge_entries-length :
    (max_allowed : ℤ) (m : Entries) (n : ℕ) (r : Entries)
    → IsSorted m
    → length m ≤ max_proxy_entries
    → IsSorted (merge_entries max_allowed (m, n) r).0
      × (length (merge_entries max_allowed (m, n) r).0 ≤ max_proxy_entries)
unfolding merge_entries
merge_entries-length max_allowed m n [] s small = (s, small)
merge_entries-length max_allowed m n ((k, e) ∷ r) s small =
    merge_entries-length max_allowed (merge_entry max_allowed (m, n) k e).0
      (merge_entry max_allowed (m, n) k e).1 r (merge_entry-IsSorted max_allowed m n k e s)
      (merge_entry-length max_allowed m n k e s small)

-- The assignments in the order of their keys, no more of them than are kept.
abbrev pub IsAssignments : SyncableProxyAssignments → Type 0
IsAssignments s = IsSorted s.entries × (length s.entries ≤ max_proxy_entries)

set-IsSorted :
    (s : SyncableProxyAssignments) (email : Text) (proxy_url : Option Text) (now : ℤ)
    → IsSorted s.entries
    → IsSorted (set s email proxy_url now).entries
unfolding set
set-IsSorted s email proxy_url now sorted =
    let e : ProxyAssignment = record {
      proxy_url = proxy_url;
      updated_at = time_after now (lookup email s.entries);
    } in
    elim (Bool-cases (not (is_some (lookup email s.entries)) && is_full s.entries)) [
      | inl h ↦ rw h (
          insert-IsSorted email e (evict_oldest s.entries) (evict_oldest-IsSorted s.entries sorted))
      | inr h ↦ rw h (insert-IsSorted email e s.entries sorted)
    ]

-- Neither a change nor a merge with whatever a remote instance sends ever makes the assignments
-- more than 10,000.
pub capacity_kept :
    (s remote : SyncableProxyAssignments) (email : Text) (proxy_url : Option Text) (now : ℤ)
    → IsAssignments s
    → IsAssignments (set s email proxy_url now) × IsAssignments (merge_lww s remote now).0
unfolding merge_lww
capacity_kept s remote email proxy_url now (sorted, small) = (
  (set-IsSorted s email proxy_url now sorted, set-length s email proxy_url now sorted small),
  merge_entries-length (sat_add_i64 now a_day) s.entries 0 remote.entries sorted small,
)
