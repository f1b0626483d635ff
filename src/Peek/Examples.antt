-- ===== src/Peek/Examples.antt =====
-- The theorems on the peek at concrete streams; a chunk is a comment if its first byte is a colon.
use antigravity_server.Peek.{
  Bytes, Poll, chunk, data_chunk, ended, openai, peek, peek_first_data_chunk, pending,
}
use antigravity_server.Peek.Bounded.{
  Splits, has_late, peek_first_data_chunk-Splits, peek_first_data_chunk-ne-pending,
}
use antigravity_server.Prelude.{
  ℕ, ◌≡◌, ◌≢◌, ◌<◌, ◌^◌, List, [], ◌∷◌, Bool, true, false, ◌==◌, arith, inr, refl, from_secs,
}

abbrev is_comment : Bytes → Bool
is_comment [] = false
is_comment (c ∷ s) = c == 58

abbrev heartbeat : Bytes
heartbeat = 58 ∷ 10 ∷ []

abbrev hello : Bytes
hello = 104 ∷ 105 ∷ []

abbrev remaining : List (ℕ × Poll)
remaining = (3, ended) ∷ []

abbrev polls : List (ℕ × Poll)
polls = (0, chunk []) ∷ (1, chunk heartbeat) ∷ (2, chunk hello) ∷ remaining

finds_hello : peek_first_data_chunk is_comment openai polls ≡ data_chunk hello remaining
unfolding peek_first_data_chunk peek openai
finds_hello = refl

openai_bounds : (0 < openai.max_heartbeats) × (openai.max_heartbeats < 2 ^ 32)
unfolding openai
openai_bounds = (omega arith, omega arith)

peek_first_data_chunk-Splits_example : Splits is_comment openai 0 polls hello remaining
peek_first_data_chunk-Splits_example =
    peek_first_data_chunk-Splits is_comment openai polls hello remaining openai_bounds.0
      openai_bounds.1 finds_hello

-- Heartbeats until the time for the peek is over.
abbrev beating : List (ℕ × Poll)
beating = (1, chunk heartbeat) ∷ (from_secs 100, chunk heartbeat) ∷ []

beating_late : has_late is_comment openai beating ≡ true
unfolding has_late openai
beating_late = refl

peek_first_data_chunk-ne-pending_example : peek_first_data_chunk is_comment openai beating ≢ pending
peek_first_data_chunk-ne-pending_example =
    peek_first_data_chunk-ne-pending is_comment openai beating openai_bounds.0 openai_bounds.1
      (inr beating_late)
