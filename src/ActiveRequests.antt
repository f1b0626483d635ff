-- ===== src/ActiveRequests.antt =====
-- The count of requests in flight for each account, and the guard that holds one slot:
-- crates/antigravity-core/src/proxy/active_request_guard.rs. Each function is one atomic change of
-- the counter; `Interleaving` has the loads and exchanges of `try_new` one by one.
pub mod Interleaving
pub mod Slots
mod Examples
use antigravity_server.Prelude.Map.{Map, insert, lookup, text_key}
use antigravity_server.Prelude.Text.{Text}
use antigravity_server.Prelude.{
  Bool, Option, false, if◌then◌else◌, leb, ltb, none, not, some, true, u32, unwrap_or, ℕ, ◌+◌, ◌-◌,
}

abbrev pub Counters : Type 0
Counters = Map Text ℕ

abbrev pub load : Counters → Text → ℕ
load cs key = unwrap_or (lookup key cs) 0

-- A guard, which is dropped at the end of its life.
pub record ActiveRequestGuard : Type 0 where
  pub key : Text
  pub released : Bool

unfoldable pub new : Counters → Text → Counters × ActiveRequestGuard
new cs key = (insert key (u32 (load cs key + 1)) cs, record { key = key; released = false })

-- Take a slot if fewer than `max_concurrent` are taken. The counter is made in either case.
unfoldable pub try_new : Counters → Text → ℕ → Counters × Option ActiveRequestGuard
try_new cs key max_concurrent =
    let current = load cs key in
    if leb max_concurrent current
    then (insert key current cs, none)
    else (insert key (current + 1) cs, some (record { key = key; released = false }))

-- `release` keeps the slot for good: the guard gives nothing back when it is dropped.
unfoldable pub release : ActiveRequestGuard → ActiveRequestGuard
release g = record g { released = true }

give_back : Counters → Text → Option ℕ → Counters
give_back cs key none = cs
give_back cs key (some v) = if ltb 0 v then insert key (v - 1) cs else cs

unfoldable pub drop : Counters → ActiveRequestGuard → Counters
unfolding give_back
drop cs g = if not g.released then give_back cs g.key (lookup g.key cs) else cs
