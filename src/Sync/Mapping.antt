-- ===== src/Sync/Mapping.antt =====
-- Model mappings with a timestamp on each entry:
-- crates/antigravity-types/src/models/sync/mapping.rs. `now` is `current_timestamp_ms()`.
use antigravity_server.Prelude.Int.{eqb_ℤ, ltb_ℤ, max_ℤ, sat_add_i64, ℤ}
use antigravity_server.Prelude.Map.{Map, lookup, retain, text_key}
use antigravity_server.Prelude.Text.{Text, text_gt}
use antigravity_server.Prelude.{
  Bool, List, Option, [], arith, count, false, if◌then◌else◌, length, none, not, some, true, ℕ,
  ◌==◌, ◌∷◌, ◌≡◌,
}
use antigravity_server.Prelude.TextOrder.{text_gt_irrefl, text_gt-total, text_gt_trans}
use antigravity_server.Sync.BTree.{insert}
use antigravity_server.Sync.Lww.{Lww, merge_entries, should_update}

pub record MappingEntry : Type 0 where
  pub target : Text
  pub updated_at : ℤ
  pub deleted : Bool

unfoldable pub tombstone_at : ℤ → MappingEntry
tombstone_at at = record { target = []; updated_at = at; deleted = true }

unfoldable pub with_timestamp : Text → ℤ → MappingEntry
with_timestamp target at = record { target = target; updated_at = at; deleted = false }

eqb : Bool → Bool → Bool
eqb true b = b
eqb false b = not b

-- Later time, then deletion, then the greater target.
unfoldable pub wins_over : MappingEntry → MappingEntry → Bool
unfolding eqb
wins_over a b =
    if not (eqb_ℤ a.updated_at b.updated_at)
    then ltb_ℤ b.updated_at a.updated_at
    else if not (eqb a.deleted b.deleted)
    then a.deleted
    else text_gt a.target b.target

pub record SyncableMapping : Type 0 where
  pub entries : Map Text MappingEntry
  pub instance_id : Option Text

unfoldable pub new : SyncableMapping
new = record { entries = []; instance_id = none }

-- `collect()` over the bindings of a `HashMap`, each with its own reading of the clock.
collect_entries : Map Text MappingEntry → List (Text × Text × ℤ) → Map Text MappingEntry
unfolding with_timestamp
collect_entries m [] = m
collect_entries m ((k, v, now) ∷ kvs) = collect_entries (insert k (with_timestamp v now) m) kvs

unfoldable pub from_simple_map : List (Text × Text × ℤ) → SyncableMapping
unfolding collect_entries
from_simple_map kvs = record { entries = collect_entries [] kvs; instance_id = none }

targets : Map Text MappingEntry → Map Text Text
targets [] = []
targets ((k, e) ∷ m) = let rest = targets m in if not e.deleted then (k, e.target) ∷ rest else rest

unfoldable pub to_simple_map : SyncableMapping → Map Text Text
unfolding targets
to_simple_map s = targets s.entries

-- `self.entries.get(..).map_or(now, |e| now.max(e.updated_at.saturating_add(1)))`
unfoldable pub next_timestamp : ℤ → Option MappingEntry → ℤ
next_timestamp now none = now
next_timestamp now (some e) = max_ℤ now (sat_add_i64 e.updated_at 1)

abbrev pub put : SyncableMapping → Text → MappingEntry → SyncableMapping
put s k e = record s { entries = insert k e s.entries }

unfoldable pub set : SyncableMapping → Text → Text → ℤ → SyncableMapping
set s source target now =
    let at = next_timestamp now (lookup source s.entries) in
    put s source (record { target = target; updated_at = at; deleted = false })

-- Removal puts a tombstone.
unfoldable pub remove : SyncableMapping → Text → ℤ → SyncableMapping
remove s source now =
    let at = next_timestamp now (lookup source s.entries) in
    put s source (record { target = []; updated_at = at; deleted = true })

abbrev pub live_target : Option MappingEntry → Option Text
live_target none = none
live_target (some e) = if not e.deleted then some e.target else none

unfoldable pub get : SyncableMapping → Text → Option Text
get s source = live_target (lookup source s.entries)

pub wins_over_irrefl : (a : MappingEntry) → wins_over a a ≡ false
unfolding wins_over
wins_over_irrefl a = ground (arith, text_gt_irrefl a.target)

pub wins_over_trans :
    (a b c : MappingEntry) → wins_over a b ≡ true → wins_over b c ≡ true → wins_over a c ≡ true
unfolding wins_over
wins_over_trans a b c h k = ground (arith, text_gt_trans a.target b.target c.target)

pub wins_over-total : (a b : MappingEntry) → wins_over a b ≡ false → wins_over b a ≡ false → a ≡ b
unfolding wins_over
wins_over-total a b h k = ground (arith, text_gt-total a.target b.target)

abbrev pub entry_order : Lww MappingEntry
entry_order = record {
  wins = wins_over;
  irrefl = wins_over_irrefl;
  trans = wins_over_trans;
  total = wins_over-total;
}

-- The mapping afterwards, and how many entries changed.
unfoldable pub merge_lww : SyncableMapping → SyncableMapping → SyncableMapping × ℕ
unfolding merge_entries
merge_lww s remote =
    let (entries, updated) = merge_entries entry_order (s.entries, 0) remote.entries in
    (record s { entries = entries }, updated)

unfoldable pub diff_newer_than : SyncableMapping → SyncableMapping → SyncableMapping
diff_newer_than s remote = record s {
  entries = retain (λ k e. should_update entry_order (lookup k remote.entries) e) s.entries;
}

unfoldable pub len : SyncableMapping → ℕ
len s = count (λ b. not b.1.deleted) s.entries

unfoldable pub is_empty : SyncableMapping → Bool
unfolding len
is_empty s = len s == 0

unfoldable pub total_entries : SyncableMapping → ℕ
total_entries s = length s.entries
