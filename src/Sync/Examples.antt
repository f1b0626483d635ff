-- ===== src/Sync/Examples.antt =====
-- The theorems on mappings at concrete replicas.
use mathlib.Core.List.Perm
use antigravity_server.Sync.Mapping.{
  MappingEntry, SyncableMapping, diff_newer_than, tombstone_at, with_timestamp,
}
use antigravity_server.Sync.Convergence.{merged}
use antigravity_server.Sync.Gossip.{merge_all, merge_all-Perm, merged-diff_newer_than}
use antigravity_server.Sync.ProxyAssignment.{ProxyAssignment, SyncableProxyAssignments}
use antigravity_server.Sync.ProxyAssignment.{set as set_proxy, merge_lww as merge_proxies}
use antigravity_server.Sync.Capacity.{IsAssignments, capacity_kept}
use antigravity_server.Prelude.Map.{lookup, text_key}
use antigravity_server.Prelude.Int.{i64_max, ltb_ℤ, pos}
use antigravity_server.Prelude.Text.{Text, text}
use antigravity_server.Prelude.{[], arith, none, some, true, ℕ, ◌∷◌, ◌≡◌}

abbrev entry : Text → ℕ → MappingEntry
entry target at = with_timestamp target (pos at)

abbrev replica : Text → ℕ → SyncableMapping
replica target at = record { entries = (text "gpt-4o", entry target at) ∷ []; instance_id = none }

abbrev east : SyncableMapping
east = replica (text "gemini-3-flash") 100

abbrev west : SyncableMapping
west = replica (text "gemini-3-pro") 200

abbrev south : SyncableMapping
south = record { entries = (text "opus", tombstone_at (pos 150)) ∷ []; instance_id = none }

merge_all-Perm_example :
    (merge_all east (west ∷ south ∷ [])).entries ≡ (merge_all east (south ∷ west ∷ [])).entries
merge_all-Perm_example =
    merge_all-Perm east (west ∷ south ∷ []) (south ∷ west ∷ []) (tt, tt) ((tt, tt), ((tt, tt), tt))
      ((tt, tt), ((tt, tt), tt)) (Perm.swap south west [])

merged-diff_newer_than_example :
    (merged west (diff_newer_than east west)).entries ≡ (merged west east).entries
merged-diff_newer_than_example = merged-diff_newer_than east west (tt, tt) (tt, tt)

east-early :
    (e : MappingEntry)
    → lookup (text "gpt-4o") east.entries ≡ some e
    → ltb_ℤ e.updated_at (pos i64_max) ≡ true
unfolding lookup with_timestamp
east-early e h = ground arith

abbrev assignments : Text → ProxyAssignment → SyncableProxyAssignments
assignments email e = record { entries = (email, e) ∷ []; instance_id = none }

abbrev proxies : SyncableProxyAssignments
proxies =
    assignments (text "a@example.com")
      (record { proxy_url = some (text "socks5://p"); updated_at = pos 5 })

-- A remote entry whose time is more than a day ahead.
abbrev pinned : SyncableProxyAssignments
pinned =
    assignments (text "b@example.com") (record { proxy_url = none; updated_at = pos 99_000_000 })

capacity_kept_example :
    IsAssignments (set_proxy proxies (text "c@example.com") none (pos 7))
    × IsAssignments (merge_proxies proxies pinned (pos 7)).0
capacity_kept_example =
    capacity_kept proxies pinned (text "c@example.com") none (pos 7) ((tt, tt), omega arith)
