-- ===== src/Peek/Bounded.antt =====
-- The peek ends, and what it hands on is data.
use antigravity_server.Peek.{
  Bytes, PeekConfig, PeekResult, Poll, chunk, data_chunk, ended, failed, peek,
  peek_first_data_chunk, pending, timed_out,
}
use antigravity_server.Prelude.{
  ℕ, ◌+◌, ◌^◌, ◌≡◌, ◌≢◌, ◌≤◌, ◌<◌, ◌⊎◌, refl, ap, subst, arith, Bool, true, false, ◌||◌, Bool-cases,
  inl, inr, List, [], ◌∷◌, ◌++◌, leb, ltb, u32, if◌then◌else◌, All,
}

module _ (is_comment : Bytes → Bool) (config : PeekConfig) where
  abbrev pub is_beat : Poll → Bool
  is_beat (chunk (c ∷ s)) = is_comment (c ∷ s)
  is_beat _ = false

  -- The heartbeats among some polls.
  unfoldable pub beats : List (ℕ × Poll) → ℕ
  beats [] = 0
  beats ((elapsed, p) ∷ rest) = (if is_beat p then 1 else 0) + beats rest

  -- A poll that comes after the time for the peek is over.
  unfoldable pub has_late : List (ℕ × Poll) → Bool
  has_late [] = false
  has_late ((elapsed, p) ∷ rest) = ltb config.max_peek_duration elapsed || has_late rest

  peek-ne-pending :
      (k : ℕ) (polls : List (ℕ × Poll))
      → k < config.max_heartbeats
      → config.max_heartbeats < 2 ^ 32
      → (config.max_heartbeats ≤ k + beats polls) ⊎ (has_late polls ≡ true)
      → peek is_comment config k polls ≢ pending
  unfolding peek beats has_late
  peek-ne-pending k [] few small h = ground arith
  peek-ne-pending k ((elapsed, failed) ∷ rest) few small h = ground arith
  peek-ne-pending k ((elapsed, ended) ∷ rest) few small h = ground arith
  peek-ne-pending k ((elapsed, timed_out) ∷ rest) few small h = ground arith
  peek-ne-pending k ((elapsed, chunk []) ∷ rest) few small h =
      ground (arith, peek-ne-pending k rest few small)
  peek-ne-pending k ((elapsed, chunk (c ∷ s)) ∷ rest) few small h =
      ground (arith, peek-ne-pending (u32 (k + 1)) rest)

  -- A peek has ended once the polls have as many heartbeats as are allowed, or one of them came
  -- after the time for the peek.
  pub peek_first_data_chunk-ne-pending :
      (polls : List (ℕ × Poll))
      → 0 < config.max_heartbeats
      → config.max_heartbeats < 2 ^ 32
      → (config.max_heartbeats ≤ beats polls) ⊎ (has_late polls ≡ true)
      → peek_first_data_chunk is_comment config polls ≢ pending
  unfolding peek_first_data_chunk
  peek_first_data_chunk-ne-pending polls some_allowed small (inl h) =
      peek-ne-pending 0 polls some_allowed small (inl (omega arith))
  peek_first_data_chunk-ne-pending polls some_allowed small (inr h) =
      peek-ne-pending 0 polls some_allowed small (inr h)

  -- A chunk that is passed over: an empty one or a heartbeat.
  abbrev pub is_quiet : Poll → Bool
  is_quiet (chunk []) = true
  is_quiet (chunk (c ∷ s)) = is_comment (c ∷ s)
  is_quiet _ = false

  abbrev pub IsData : Bytes → Type 0
  IsData [] = ⊥
  IsData (c ∷ s) = is_comment (c ∷ s) ≡ false

  -- The polls are quiet ones in time, with fewer heartbeats than are allowed, then the chunk, in
  -- time, then the rest.
  pub record Splits (k : ℕ) (polls : List (ℕ × Poll)) (b : Bytes) (rest : List (ℕ × Poll))
      : Type 0 where
    pub quiet : List (ℕ × Poll)
    pub elapsed : ℕ
    pub whole : polls ≡ quiet ++ (elapsed, chunk b) ∷ rest
    pub are_quiet : All (λ x. (is_quiet x.1 ≡ true) × (x.0 ≤ config.max_peek_duration)) quiet
    pub few : k + beats quiet < config.max_heartbeats
    pub in_time : elapsed ≤ config.max_peek_duration
    pub is_data : IsData b

  abbrev SplitOf : ℕ → List (ℕ × Poll) → PeekResult → Type 0
  SplitOf k polls (data_chunk b rest) = Splits k polls b rest
  SplitOf k polls _ = Unit

  Splits-cons :
      (k k' t : ℕ) (p : Poll) (polls : List (ℕ × Poll)) (b : Bytes) (rest : List (ℕ × Poll))
      → is_quiet p ≡ true
      → t ≤ config.max_peek_duration
      → k' ≡ k + (if is_beat p then 1 else 0)
      → Splits k' polls b rest
      → Splits k ((t, p) ∷ polls) b rest
  unfolding beats
  Splits-cons k k' t p polls b rest q le e s = record {
    quiet = (t, p) ∷ s.quiet;
    elapsed = s.elapsed;
    whole = ap (λ l. (t, p) ∷ l) s.whole;
    are_quiet = ((q, le), s.are_quiet);
    few = (let f = s.few in omega arith);
    in_time = s.in_time;
    is_data = s.is_data;
  }

  peek-Splits :
      (k : ℕ) (polls : List (ℕ × Poll)) (b : Bytes) (rest : List (ℕ × Poll))
      → k < config.max_heartbeats
      → config.max_heartbeats < 2 ^ 32
      → peek is_comment config k polls ≡ data_chunk b rest
      → Splits k polls b rest
  unfolding peek beats
  peek-Splits k [] b rest few small e = cc
  peek-Splits k ((t, failed) ∷ polls) b rest few small e = absurd (ground arith)
  peek-Splits k ((t, ended) ∷ polls) b rest few small e = absurd (ground arith)
  peek-Splits k ((t, timed_out) ∷ polls) b rest few small e = absurd (ground arith)
  peek-Splits k ((t, chunk []) ∷ polls) b rest few small e =
      elim (Bool-cases (ltb config.max_peek_duration t)) [
        | inl late ↦ absurd (ground arith)
        | inr early ↦
            Splits-cons k k t (chunk []) polls b rest refl (ground arith) (omega arith)
              (peek-Splits k polls b rest few small (ground arith))
      ]
  peek-Splits k ((t, chunk (c ∷ s)) ∷ polls) b rest few small e =
      elim (Bool-cases (ltb config.max_peek_duration t)) [
        | inl late ↦ absurd (ground arith)
        | inr early ↦ elim (Bool-cases (is_comment (c ∷ s))) [
          | inr d ↦
              let same : data_chunk (c ∷ s) polls ≡ data_chunk b rest = rw (early, d) at e in
              subst (λ r. SplitOf k ((t, chunk (c ∷ s)) ∷ polls) r) same
                (record {
                  quiet = [];
                  elapsed = t;
                  whole = refl;
                  are_quiet = tt;
                  few = omega arith;
                  in_time = ground arith;
                  is_data = d;
                })
          | inl beat ↦ elim (Bool-cases (leb config.max_heartbeats (u32 (k + 1)))) [
            | inl many ↦ absurd (ground arith)
            | inr more ↦
                Splits-cons k (u32 (k + 1)) t (chunk (c ∷ s)) polls b rest beat (ground arith)
                  (ground arith)
                  (peek-Splits (u32 (k + 1)) polls b rest (ground arith) small (ground arith))
          ]
        ]
      ]

  -- A chunk that a peek hands on is not empty and no heartbeat; before it there were only empty
  -- chunks and fewer heartbeats than are allowed, everything within the time for the peek, and what
  -- is left of the stream is what follows it.
  pub peek_first_data_chunk-Splits :
      (polls : List (ℕ × Poll)) (b : Bytes) (rest : List (ℕ × Poll))
      → 0 < config.max_heartbeats
      → config.max_heartbeats < 2 ^ 32
      → peek_first_data_chunk is_comment config polls ≡ data_chunk b rest
      → Splits 0 polls b rest
  unfolding peek_first_data_chunk
  peek_first_data_chunk-Splits polls b rest = peek-Splits 0 polls b rest
