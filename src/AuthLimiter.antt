-- ===== src/AuthLimiter.antt =====
-- Failed authentications by address: crates/antigravity-core/src/proxy/middleware/rate_limiter.rs.
-- Each access of the table is atomic; `now` is the reading of `Instant::now()` in the function.
pub mod Blocking
pub mod Duration
mod Examples
use antigravity_server.Prelude.Map.{Key, Map, insert, lookup, remove, retain, text_key}
use antigravity_server.Prelude.{
  Bool, Option, false, from_secs, if◌then◌else◌, leb, length, ltb, min, none, some, true, unwrap_or,
  ℕ, ℕ_discrete, ◌*◌, ◌+◌, ◌-◌, ◌^◌, ◌||◌,
}

abbrev pub max_failed_attempts : ℕ
max_failed_attempts = 5

abbrev pub block_duration : ℕ
block_duration = from_secs (15 * 60)

abbrev pub cleanup_threshold : ℕ
cleanup_threshold = 1000

-- `std::net::IpAddr`.
pub data IpAddr : Type 0 where
  v4 v6 : ℕ → IpAddr

unfoldable pub IpAddr-discrete : Discrete IpAddr
unfolding ℕ_discrete
IpAddr-discrete = hlevel ℕ_discrete

instance abbrev pub ip_key : Key IpAddr
ip_key = record { dec = IpAddr-discrete }

pub record FailedAttempt : Type 0 where
  pub count : ℕ
  pub blocked_until : Option ℕ

abbrev pub Attempts : Type 0
Attempts = Map IpAddr FailedAttempt

abbrev pub is_before : ℕ → Option ℕ → Bool
is_before now none = false
is_before now (some t) = ltb now t

abbrev pub deadline_of : Option FailedAttempt → Option ℕ
deadline_of none = none
deadline_of (some a) = a.blocked_until

unfoldable pub is_blocked : Attempts → IpAddr → ℕ → Bool
is_blocked table ip now = is_before now (deadline_of (lookup ip table))

keeps_attempt : ℕ → FailedAttempt → Bool
keeps_attempt now a = is_before now a.blocked_until || ltb 0 a.count

unfoldable pub cleanup_if_needed : Attempts → ℕ → Attempts
unfolding keeps_attempt
cleanup_if_needed table now =
    if ltb cleanup_threshold (length table)
    then retain (λ ip a. keeps_attempt now a) table
    else table

abbrev pub has_expired : ℕ → Option ℕ → Bool
has_expired now none = false
has_expired now (some t) = leb t now

abbrev pub sat_u32 : ℕ → ℕ
sat_u32 n = min n (2 ^ 32 - 1)

-- The entry after one more failure, and whether it is now blocked. `Instant` holds the deadline:
-- `checked_add` is `none` only past the end of the clock.
unfoldable pub one_more : ℕ → FailedAttempt → FailedAttempt × Bool
one_more now a =
    let b =
      if has_expired now a.blocked_until then record { count = 0; blocked_until = none } else a in
    let count' = sat_u32 (b.count + 1) in
    if leb max_failed_attempts count'
    then (record { count = count'; blocked_until = some (now + block_duration) }, true)
    else (record b { count = count' }, false)

unfoldable pub record_failed_attempt : Attempts → IpAddr → ℕ → Attempts × Bool
unfolding cleanup_if_needed one_more
record_failed_attempt table ip now =
    let cleaned = cleanup_if_needed table now in
    let (a, blocked) =
      one_more now (unwrap_or (lookup ip cleaned) (record { count = 0; blocked_until = none })) in
    (insert ip a cleaned, blocked)

unfoldable pub clear_failed_attempts : Attempts → IpAddr → Attempts
clear_failed_attempts table ip = remove ip table
