-- ===== src/AuthLimiter/Duration.antt =====
-- How long a block lasts.
use antigravity_server.AuthLimiter.{
  ip_key, Attempts, FailedAttempt, IpAddr, IpAddr-discrete, block_duration, clear_failed_attempts,
  is_before, is_blocked, one_more, record_failed_attempt,
}
use antigravity_server.AuthLimiter.Blocking.{
  Call, IsTable, clears, fails, is_blocked-seen, record_failed_attempt-IsTable, run, run-IsTable,
  seen, seen-fails, step, step-IsTable,
}
use antigravity_server.Prelude.Map.{lookup-insert_ne, lookup-remove_ne}
use antigravity_server.Prelude.{
  List, [], ap, arith, lt→ltb, none, some, subst, sym, true, unwrap_or, ℕ, ◌+◌, ◌<◌, ◌∙◌, ◌∷◌, ◌≡◌,
  ◌≤◌,
}

-- The failures among the calls are between two times, and no call clears the address.
abbrev pub Within : ℕ → ℕ → IpAddr → List Call → Type 0
Within from until ip [] = Unit
Within from until ip (fails j now ∷ cs) = (from ≤ now) × (now ≤ until) × Within from until ip cs
Within from until ip (clears j ∷ cs) = (¬ (j ≡ ip)) × Within from until ip cs

-- The entry is blocked, for the whole block's length after a time at least.
abbrev pub BlockedSince : ℕ → FailedAttempt → Type 0
BlockedSince from a =
    (5 ≤ a.count) × (d : ℕ) × (a.blocked_until ≡ some d) × (from + block_duration ≤ d)

one_more-BlockedSince :
    (from now d : ℕ) (a : FailedAttempt)
    → 5 ≤ a.count
    → a.blocked_until ≡ some d
    → from + block_duration ≤ d
    → from ≤ now
    → now < from + block_duration
    → (5 ≤ (one_more now a).0.count)
      × ((one_more now a).0.blocked_until ≡ some (now + block_duration))
unfolding one_more
one_more-BlockedSince from now d a five e le after before = ground arith

step-BlockedSince :
    (table : Attempts) (c : Call) (ip : IpAddr) (from until : ℕ)
    → IsTable table
    → until < from + block_duration
    → Within from until ip (c ∷ [])
    → BlockedSince from (seen table ip)
    → BlockedSince from (seen (step table c) ip)
unfolding step clear_failed_attempts
step-BlockedSince table (clears j) ip from until v short w h =
    subst (BlockedSince from)
      (ap (λ o. unwrap_or o (record { count = 0; blocked_until = none }))
        (sym (lookup-remove_ne j ip table w.0)))
      h
step-BlockedSince table (fails j now) ip from until v short w h = elim (IpAddr-discrete j ip) [
  | yes e ↦
      let more = one_more-BlockedSince from now h.1 (seen table ip) h.0 h.2 h.3 w.0 (omega arith) in
      let b : BlockedSince from (one_more now (seen table ip)).0 =
        (more.0, now + block_duration, more.1, omega arith) in
      subst (λ i. BlockedSince from (seen (step table (fails i now)) ip)) (sym e)
        (subst (BlockedSince from) (sym (seen-fails table ip now v)) b)
  | no n ↦
      subst (BlockedSince from)
        (ap (λ o. unwrap_or o (record { count = 0; blocked_until = none }))
            (sym (lookup-insert_ne j ip (one_more now (seen table j)).0 table n))
          ∙ ap (λ r. seen r.0 ip) (sym (record_failed_attempt-IsTable table j now v)))
        h
]

run-BlockedSince :
    (table : Attempts) (cs : List Call) (ip : IpAddr) (from until : ℕ)
    → IsTable table
    → until < from + block_duration
    → Within from until ip cs
    → BlockedSince from (seen table ip)
    → BlockedSince from (seen (run table cs) ip)
unfolding run
run-BlockedSince table [] ip from until v short w h = h
run-BlockedSince table (fails j now ∷ cs) ip from until v short w h =
    run-BlockedSince (step table (fails j now)) cs ip from until
      (step-IsTable table (fails j now) v) short w.2
      (step-BlockedSince table (fails j now) ip from until v short (w.0, w.1, tt) h)
run-BlockedSince table (clears j ∷ cs) ip from until v short w h =
    run-BlockedSince (step table (clears j)) cs ip from until (step-IsTable table (clears j) v)
      short w.1 (step-BlockedSince table (clears j) ip from until v short (w.0, tt) h)

one_more-blocks :
    (now : ℕ) (a : FailedAttempt) → (one_more now a).1 ≡ true → BlockedSince now (one_more now a).0
unfolding one_more
one_more-blocks now a h = (ground arith, now + block_duration, ground arith, omega arith)

-- Once a failure is answered with a block, its address is blocked at every time less than
-- 15 minutes later, whatever calls are made till then, save one that clears the address.
pub block_lasts :
    (before : List Call) (ip : IpAddr) (from now : ℕ) (cs : List Call)
    → (record_failed_attempt (run [] before) ip from).1 ≡ true
    → now < from + block_duration
    → Within from now ip cs
    → is_blocked (run (step (run [] before) (fails ip from)) cs) ip now ≡ true
block_lasts before ip from now cs blocked short w =
    let table = run [] before in
    let v : IsTable table = run-IsTable [] before tt in
    let b : BlockedSince from (seen (step table (fails ip from)) ip) =
      subst (BlockedSince from) (sym (seen-fails table ip from v)) (
        one_more-blocks from (seen table ip)
          (sym (ap (λ r. r.1) (record_failed_attempt-IsTable table ip from v)) ∙ blocked)) in
    let k =
      run-BlockedSince (step table (fails ip from)) cs ip from now
        (step-IsTable table (fails ip from) v) short w b in
    let e = is_blocked-seen (run (step table (fails ip from)) cs) ip now in
    let d = k.2 in let le = k.3 in e ∙ ap (is_before now) d ∙ lt→ltb now k.1 (omega arith)
