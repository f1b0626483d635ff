-- ===== src/AuthLimiter/Examples.antt =====
-- The theorems on blocked addresses at concrete histories.
use antigravity_server.AuthLimiter.{
  IpAddr, IpAddr-discrete, cleanup_if_needed, ip_key, is_blocked, one_more, record_failed_attempt,
  v4, v6,
}
use antigravity_server.AuthLimiter.Blocking.{Call, cleanup_if_needed-run, clears, fails, run, step}
use antigravity_server.AuthLimiter.Duration.{block_lasts}
use antigravity_server.Prelude.Map.{insert, lookup, text_key}
use antigravity_server.Prelude.{List, [], arith, refl, true, ℕ, ◌∷◌, ◌≡◌}

abbrev ip : IpAddr
ip = v4 3232235876

abbrev other : IpAddr
other = v6 1

abbrev history : List Call
history = fails other 5 ∷ fails ip 6 ∷ clears ip ∷ []

cleanup_if_needed-run_example : cleanup_if_needed (run [] history) 9 ≡ run [] history
cleanup_if_needed-run_example = cleanup_if_needed-run history 9

abbrev times : List ℕ
times = 20 ∷ 30 ∷ 40 ∷ 50 ∷ []

abbrev before : List Call
before = fails ip 1 ∷ fails ip 2 ∷ fails ip 3 ∷ fails ip 4 ∷ []

block_lasts_example :
    is_blocked (run (step (run [] before) (fails ip 5)) (fails ip 6 ∷ fails other 7 ∷ [])) ip 8
    ≡ true
unfolding lookup run step record_failed_attempt cleanup_if_needed IpAddr-discrete insert one_more
block_lasts_example =
    block_lasts before ip 5 8 (fails ip 6 ∷ fails other 7 ∷ []) refl (omega arith)
      (omega arith, omega arith, (omega arith, omega arith, tt))
