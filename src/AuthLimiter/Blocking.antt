-- ===== src/AuthLimiter/Blocking.antt =====
-- Which addresses are blocked, and for how long.
use antigravity_server.AuthLimiter.{
  Attempts, FailedAttempt, IpAddr, block_duration, cleanup_if_needed, clear_failed_attempts, ip_key,
  is_before, is_blocked, keeps_attempt, max_failed_attempts, one_more, record_failed_attempt,
}
use antigravity_server.Prelude.Map.{
  AllValues, AllValues-lookup, insert, insert-AllValues, lookup, lookup-insert_self,
  remove-AllValues, retain_all, text_key,
}
use antigravity_server.Prelude.{
  All-map, List, Option-cases, [], ap, arith, inl, inr, is_some, length, none, refl, some, subst,
  suc, sym, true, unwrap_or, ℕ, ◌+◌, ◌<◌, ◌^◌, ◌↔◌, ◌∙◌, ◌∷◌, ◌≡◌, ◌≤◌, ◌⊎◌,
}

-- The calls that change the table.
pub data Call : Type 0 where
  fails : IpAddr → ℕ → Call
  clears : IpAddr → Call

unfoldable pub step : Attempts → Call → Attempts
step table (fails ip now) = (record_failed_attempt table ip now).0
step table (clears ip) = clear_failed_attempts table ip

unfoldable pub run : Attempts → List Call → Attempts
unfolding step
run table [] = table
run table (c ∷ cs) = run (step table c) cs

-- An entry has a failure, and a deadline exactly where it has reached the maximum.
abbrev pub IsAttempt : FailedAttempt → Type 0
IsAttempt a = (0 < a.count) × ((max_failed_attempts ≤ a.count) ↔ (is_some a.blocked_until ≡ true))

abbrev pub IsTable : Attempts → Type 0
IsTable = AllValues IsAttempt

one_more-IsAttempt :
    (now : ℕ) (a : FailedAttempt)
    → (a.count ≡ 0) × (a.blocked_until ≡ none) ⊎ IsAttempt a
    → IsAttempt (one_more now a).0
unfolding one_more
one_more-IsAttempt now a h = ground arith

abbrev pub seen : Attempts → IpAddr → FailedAttempt
seen table ip = unwrap_or (lookup ip table) (record { count = 0; blocked_until = none })

IsAttempt-keeps : (now : ℕ) (a : FailedAttempt) → IsAttempt a → keeps_attempt now a ≡ true
unfolding keeps_attempt
IsAttempt-keeps now a h = ground arith

cleanup_if_needed-IsTable :
    (table : Attempts) (now : ℕ) → IsTable table → cleanup_if_needed table now ≡ table
unfolding cleanup_if_needed
cleanup_if_needed-IsTable table now h =
    let same =
      retain_all (λ ip a. keeps_attempt now a) table
        (All-map table (λ b a ip. IsAttempt-keeps now b.1 a) h) in
    ground arith

pub record_failed_attempt-IsTable :
    (table : Attempts) (ip : IpAddr) (now : ℕ)
    → IsTable table
    → record_failed_attempt table ip now
      ≡ (insert ip (one_more now (seen table ip)).0 table, (one_more now (seen table ip)).1)
unfolding record_failed_attempt
record_failed_attempt-IsTable table ip now h = rw (cleanup_if_needed-IsTable table now h) refl

seen-IsTable :
    (table : Attempts) (ip : IpAddr)
    → IsTable table
    → ((seen table ip).count ≡ 0) × ((seen table ip).blocked_until ≡ none)
      ⊎ IsAttempt (seen table ip)
seen-IsTable table ip h = elim (Option-cases (lookup ip table)) [
  | inl e ↦ rw e (inl (refl, refl))
  | inr (a, e) ↦ rw e (inr (AllValues-lookup IsAttempt ip a table h e))
]

pub step-IsTable : (table : Attempts) (c : Call) → IsTable table → IsTable (step table c)
unfolding step clear_failed_attempts
step-IsTable table (fails ip now) h =
    subst (λ r. IsTable r.0) (sym (record_failed_attempt-IsTable table ip now h))
      (insert-AllValues IsAttempt ip (one_more now (seen table ip)).0 table
        (one_more-IsAttempt now (seen table ip) (seen-IsTable table ip h)) h)
step-IsTable table (clears ip) h = remove-AllValues IsAttempt ip table h

pub run-IsTable : (table : Attempts) (cs : List Call) → IsTable table → IsTable (run table cs)
unfolding run
run-IsTable table [] h = h
run-IsTable table (c ∷ cs) h = run-IsTable (step table c) cs (step-IsTable table c h)

-- Whatever the calls on an empty table were, cleaning up removes nothing.
pub cleanup_if_needed-run :
    (cs : List Call) (now : ℕ) → cleanup_if_needed (run [] cs) now ≡ run [] cs
cleanup_if_needed-run cs now = cleanup_if_needed-IsTable (run [] cs) now (run-IsTable [] cs tt)

-- A history of failures of one address.
abbrev pub failures : IpAddr → List ℕ → List Call
failures ip [] = []
failures ip (now ∷ ts) = fails ip now ∷ failures ip ts

-- Each time is less than the block's length after the one before.
abbrev pub Close : ℕ → List ℕ → Type 0
Close since [] = Unit
Close since (now ∷ ts) = (now < since + block_duration) × Close now ts

abbrev pub last_of : ℕ → List ℕ → ℕ
last_of t [] = t
last_of t (now ∷ ts) = last_of now ts

-- What is known of an entry after n failures in a row, the last of them at `since`.
abbrev pub After : ℕ → ℕ → FailedAttempt → Type 0
After n since a =
    (a.count ≡ n)
    × ((n < 5) × (a.blocked_until ≡ none)
        ⊎ (5 ≤ n) × (a.blocked_until ≡ some (since + block_duration)))

one_more-After :
    (n since now : ℕ) (a : FailedAttempt)
    → n + 1 < 2 ^ 32
    → now < since + block_duration
    → After n since a
    → After (n + 1) now (one_more now a).0
unfolding one_more
one_more-After n since now a small close h = ground arith

pub seen-fails :
    (table : Attempts) (ip : IpAddr) (now : ℕ)
    → IsTable table
    → seen (step table (fails ip now)) ip ≡ (one_more now (seen table ip)).0
unfolding step
seen-fails table ip now h =
    ap (λ r. seen r.0 ip) (record_failed_attempt-IsTable table ip now h)
    ∙ ap (λ o. unwrap_or o (record { count = 0; blocked_until = none }))
        (lookup-insert_self ip (one_more now (seen table ip)).0 table)

failures-After :
    (table : Attempts) (ip : IpAddr) (n since : ℕ) (ts : List ℕ)
    → IsTable table
    → n + length ts < 2 ^ 32
    → Close since ts
    → After n since (seen table ip)
    → After (n + length ts) (last_of since ts) (seen (run table (failures ip ts)) ip)
unfolding run
failures-After table ip n since [] v small c h = let e : n + 0 ≡ n = omega arith in rw e h
failures-After table ip n since (now ∷ ts) v small c h =
    let e : n + suc (length ts) ≡ n + 1 + length ts = omega arith in
    rw e (
      failures-After (step table (fails ip now)) ip (n + 1) now ts
        (step-IsTable table (fails ip now) v) (omega arith) c.1
        (subst (After (n + 1) now) (sym (seen-fails table ip now v))
          (one_more-After n since now (seen table ip) (omega arith) c.0 h)))

pub is_blocked-seen :
    (table : Attempts) (ip : IpAddr) (now : ℕ)
    → is_blocked table ip now ≡ is_before now (seen table ip).blocked_until
unfolding is_blocked
is_blocked-seen table ip now = elim (Option-cases (lookup ip table)) [
  | inl e ↦ rw e refl
  | inr (a, e) ↦ rw e refl
]

-- An address that has no entry after some calls on an empty table, and then fails n > 0 times,
-- each time less than 15 minutes after the last, is blocked exactly where n is 5 at least, and
-- until 15 minutes after the last failure.
pub failures-is_blocked :
    (cs : List Call) (ip : IpAddr) (first : ℕ) (ts : List ℕ) (now : ℕ)
    → lookup ip (run [] cs) ≡ none
    → length ts + 1 < 2 ^ 32
    → Close first ts
    → (is_blocked (run (run [] cs) (failures ip (first ∷ ts))) ip now ≡ true)
      ↔ ((5 ≤ length ts + 1) × (now < last_of first ts + block_duration))
failures-is_blocked cs ip first ts now absent small c =
    let new : After 0 first (seen (run [] cs) ip) = rw absent (ground arith) in
    let k =
      failures-After (run [] cs) ip 0 first (first ∷ ts) (run-IsTable [] cs tt) (omega arith)
        (omega arith, c) new in
    let e = is_blocked-seen (run (run [] cs) (failures ip (first ∷ ts))) ip now in ground arith
