-- ===== src/Peek.antt =====
-- The look at the first chunk of an answer's stream: crates/antigravity-
-- core/src/proxy/retry/peek.rs. A poll is what `timeout(single_chunk_timeout, stream.next())`
-- gives; with each comes the time since the start of the peek that the test before it reads.
-- `is_comment` says whether the text of a chunk, trimmed, starts with `:`
-- (`String::from_utf8_lossy` and the text are left to it).
pub mod Bounded
mod Examples
use antigravity_server.Prelude.{
  ℕ, zero, suc, ◌+◌, ◌≤◌, Bool, true, false, List, [], ◌∷◌, leb, ltb, from_secs, if◌then◌else◌, u32,
}

pub record PeekConfig : Type 0 where
  pub max_heartbeats : ℕ
  pub max_peek_duration : ℕ
  pub single_chunk_timeout : ℕ

unfoldable pub default_config : PeekConfig
default_config = record {
  max_heartbeats = 20;
  max_peek_duration = from_secs 120;
  single_chunk_timeout = from_secs 60;
}

unfoldable pub openai : PeekConfig
openai = record {
  max_heartbeats = 20;
  max_peek_duration = from_secs 90;
  single_chunk_timeout = from_secs 30;
}

abbrev pub Bytes : Type 0
Bytes = List ℕ

pub data Poll : Type 0 where
  chunk : Bytes → Poll
  failed : Poll
  ended : Poll
  timed_out : Poll

pub data RetryReason : Type 0 where
  peek_timeout too_many_heartbeats stream_error empty_response chunk_timeout : RetryReason

-- `pending` is a peek that waits for polls that are not given.
pub data PeekResult : Type 0 where
  data_chunk : Bytes → List (ℕ × Poll) → PeekResult
  retry : RetryReason → PeekResult
  pending : PeekResult

module _ (is_comment : Bytes → Bool) (config : PeekConfig) where
  unfoldable pub peek : ℕ → List (ℕ × Poll) → PeekResult
  peek heartbeat_count [] = pending
  peek heartbeat_count ((elapsed, failed) ∷ rest) =
      if ltb config.max_peek_duration elapsed then retry peek_timeout else retry stream_error
  peek heartbeat_count ((elapsed, ended) ∷ rest) =
      if ltb config.max_peek_duration elapsed then retry peek_timeout else retry empty_response
  peek heartbeat_count ((elapsed, timed_out) ∷ rest) =
      if ltb config.max_peek_duration elapsed then retry peek_timeout else retry chunk_timeout
  peek heartbeat_count ((elapsed, chunk []) ∷ rest) =
      let next = peek heartbeat_count rest in
      if ltb config.max_peek_duration elapsed then retry peek_timeout else next
  peek heartbeat_count ((elapsed, chunk (c ∷ s)) ∷ rest) =
      let beaten = u32 (heartbeat_count + 1) in
      let next = peek beaten rest in
      if ltb config.max_peek_duration elapsed
      then retry peek_timeout
      else if is_comment (c ∷ s)
      then (if leb config.max_heartbeats beaten then retry too_many_heartbeats else next)
      else data_chunk (c ∷ s) rest

  unfoldable pub peek_first_data_chunk : List (ℕ × Poll) → PeekResult
  unfolding peek
  peek_first_data_chunk polls = peek 0 polls
