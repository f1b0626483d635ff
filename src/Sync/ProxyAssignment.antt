-- ===== src/Sync/ProxyAssignment.antt =====
-- Proxies of accounts with a timestamp on each entry:
-- crates/antigravity-types/src/models/sync/proxy_assignment.rs. `now` is `current_timestamp_ms()`.
use antigravity_server.Sync.BTree.{insert}
use antigravity_server.Prelude.Map.{Map, lookup, remove, retain, text_key}
use antigravity_server.Prelude.Text.{Text, text_gt}
use antigravity_server.Prelude.Int.{ℤ, eqb_ℤ, ltb_ℤ, max_ℤ, sat_add_i64}
use antigravity_server.Prelude.{
  ℕ, Bool, Option, none, some, true, false, not, if◌then◌else◌, is_some, leb, length, count,
  sat_u64, ◌∷◌, [], ◌&&◌, ◌+◌,
}

abbrev pub max_proxy_entries : ℕ
max_proxy_entries = 10_000

pub record ProxyAssignment : Type 0 where
  pub proxy_url : Option Text
  pub updated_at : ℤ

url_wins : Option Text → Option Text → Bool
unfolding text_gt
url_wins none (some b) = true
url_wins (some a) none = false
url_wins (some a) (some b) = text_gt a b
url_wins none none = false

-- Later time, then removal, then the greater address.
unfoldable pub wins_over : ProxyAssignment → ProxyAssignment → Bool
unfolding url_wins
wins_over a b =
    if not (eqb_ℤ a.updated_at b.updated_at)
    then ltb_ℤ b.updated_at a.updated_at
    else url_wins a.proxy_url b.proxy_url

pub record SyncableProxyAssignments : Type 0 where
  pub entries : Map Text ProxyAssignment
  pub instance_id : Option Text

unfoldable pub new : SyncableProxyAssignments
new = record { entries = []; instance_id = none }

-- The first of the entries with the least time.
unfoldable pub oldest : Map Text ProxyAssignment → Option (Text × ℤ)
oldest [] = none
oldest ((k, e) ∷ m) = elim (oldest m) [
  | none ↦ some (k, e.updated_at)
  | some o ↦ if ltb_ℤ o.1 e.updated_at then some o else some (k, e.updated_at)
]

unfoldable pub evict_oldest : Map Text ProxyAssignment → Map Text ProxyAssignment
unfolding oldest
evict_oldest m = elim (oldest m) [ none ↦ m | some o ↦ remove o.0 m ]

unfoldable pub is_full : Map Text ProxyAssignment → Bool
is_full m = leb max_proxy_entries (length m)

unfoldable pub time_after : ℤ → Option ProxyAssignment → ℤ
time_after now none = now
time_after now (some e) = max_ℤ now (sat_add_i64 e.updated_at 1)

unfoldable pub set : SyncableProxyAssignments → Text → Option Text → ℤ → SyncableProxyAssignments
unfolding evict_oldest is_full time_after
set s email proxy_url now =
    let at = time_after now (lookup email s.entries) in
    let kept =
      if not (is_some (lookup email s.entries)) && is_full s.entries
      then evict_oldest s.entries
      else s.entries in
    record s { entries = insert email (record { proxy_url = proxy_url; updated_at = at }) kept }

unfoldable pub no_newer_than : ℤ → Option (Text × ℤ) → Bool
no_newer_than at none = false
no_newer_than at (some o) = not (ltb_ℤ o.1 at)

unfoldable pub updates : Option ProxyAssignment → ProxyAssignment → Bool
unfolding wins_over
updates none e = true
updates (some local) e = wins_over e local

-- The end of the loop body: the entry is taken if it wins.
unfoldable pub take_winner :
    Map Text ProxyAssignment → ℕ → Text → ProxyAssignment → Map Text ProxyAssignment × ℕ
unfolding updates
take_winner m n k e = if updates (lookup k m) e then (insert k e m, sat_u64 (n + 1)) else (m, n)

-- The loop body of `merge_lww`.
unfoldable pub merge_entry :
    ℤ → Map Text ProxyAssignment × ℕ → Text → ProxyAssignment → Map Text ProxyAssignment × ℕ
unfolding evict_oldest oldest is_full no_newer_than take_winner
merge_entry max_allowed (m, n) k e =
    if ltb_ℤ max_allowed e.updated_at
    then (m, n)
    else if not (is_some (lookup k m)) && is_full m
    then (if no_newer_than e.updated_at (oldest m)
        then (m, n)
        else take_winner (evict_oldest m) n k e)
    else take_winner m n k e

unfoldable pub merge_entries :
    ℤ → Map Text ProxyAssignment × ℕ → Map Text ProxyAssignment → Map Text ProxyAssignment × ℕ
unfolding merge_entry
merge_entries max_allowed acc [] = acc
merge_entries max_allowed acc ((k, e) ∷ r) =
    merge_entries max_allowed (merge_entry max_allowed acc k e) r

abbrev pub a_day : ℕ
a_day = 86_400_000

unfoldable pub merge_lww :
    SyncableProxyAssignments → SyncableProxyAssignments → ℤ → SyncableProxyAssignments × ℕ
unfolding merge_entries
merge_lww s remote now =
    let (entries, updated) = merge_entries (sat_add_i64 now a_day) (s.entries, 0) remote.entries in
    (record s { entries = entries }, updated)

unfoldable pub diff_newer_than :
    SyncableProxyAssignments → SyncableProxyAssignments → SyncableProxyAssignments
unfolding updates
diff_newer_than s remote = record s {
  entries = retain (λ k e. updates (lookup k remote.entries) e) s.entries;
}

abbrev pub url_of : Option ProxyAssignment → Option (Option Text)
url_of none = none
url_of (some e) = some e.proxy_url

unfoldable pub get : SyncableProxyAssignments → Text → Option (Option Text)
get s email = url_of (lookup email s.entries)

unfoldable pub active_count : SyncableProxyAssignments → ℕ
active_count s = count (λ b. is_some b.1.proxy_url) s.entries

unfoldable pub len : SyncableProxyAssignments → ℕ
len s = length s.entries
