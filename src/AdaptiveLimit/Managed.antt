-- ===== src/AdaptiveLimit/Managed.antt =====
-- The limits of all accounts keep their order, those that were loaded too.
use antigravity_server.AdaptiveLimit.{
  AdaptiveLimitTracker, AimdController, FloatOps, confidence, from_persisted, new, record_429,
}
use antigravity_server.AdaptiveLimit.Invariant.{
  IsController, IsTracker, Event, error, expansion, admission, new-IsTracker, probe, step,
  step-IsTracker, success, usage, record_429-IsTracker,
}
use antigravity_server.AdaptiveLimit.Manager.{
  AdaptiveLimitManager, allows, error_of, expand_of, get_or_create, limited, load_persisted,
  new_manager, probe_of, ratio_of, success_of,
}
use antigravity_server.Prelude.Map.{
  AllValues, AllValues-lookup, insert, insert-AllValues, lookup, text_key,
}
use antigravity_server.Prelude.Text.{Text}
use antigravity_server.Prelude.{
  ℕ, ◌^◌, ◌/◌, ◌≡◌, ◌≤◌, refl, sym, subst, arith, inl, inr, Option-cases, List, [], ◌∷◌,
}

module _ {Float : Type 0} (ops : FloatOps Float) where
  -- A call of the manager, at a time.
  pub data Call : Type 0 where
    load : Text → (confirmed_limit ceiling age_seconds : ℕ) → ℕ → Call
    on_success on_429 on_expand on_ratio on_probe on_admission : Text → ℕ → Call
    on_error : Text → ℕ → ℕ → Call

  unfoldable pub call : AdaptiveLimitManager Float → Call → AdaptiveLimitManager Float
  unfolding load_persisted success_of limited expand_of ratio_of probe_of allows error_of
  call m (load id confirmed ceiling age now) = load_persisted ops m id confirmed ceiling age now
  call m (on_success id now) = success_of ops m id now
  call m (on_429 id now) = limited ops m id now
  call m (on_expand id now) = expand_of ops m id now
  call m (on_ratio id now) = (ratio_of ops m id now).0
  call m (on_probe id now) = (probe_of ops m id now).0
  call m (on_admission id now) = (allows ops m id now).0
  call m (on_error id status_code now) = error_of ops m id now status_code

  unfoldable pub calls : AdaptiveLimitManager Float → List Call → AdaptiveLimitManager Float
  calls m [] = m
  calls m (x ∷ xs) = calls (call m x) xs

  module _ (aimd : AimdController Float) where
    -- What is loaded was saved: its limit and the least limit are at most its ceiling, and the
    -- limit is one that `f64` has exactly.
    abbrev pub IsSaved : Call → Type 0
    IsSaved (load id confirmed ceiling age now) =
        (confirmed ≤ ceiling) × (aimd.min_limit ≤ ceiling) × (confirmed ≤ 2 ^ 53)
    IsSaved _ = Unit

    abbrev pub AllSaved : List Call → Type 0
    AllSaved [] = Unit
    AllSaved (x ∷ xs) = IsSaved x × AllSaved xs

    -- Every tracker of the manager is in order.
    pub record IsManager (m : AdaptiveLimitManager Float) : Type 0 where
      pub same : m.aimd ≡ aimd
      pub trackers : AllValues (IsTracker ops aimd) m.trackers

    module _ (c : IsController ops aimd)
        (fades : (n hours : ℕ) → n ≤ 2 ^ 53 → ops.mul_floor n (confidence ops hours) ≤ n) where
      from_persisted-IsTracker :
          (confirmed ceiling age : ℕ) (safety_margin : Float) (now : ℕ)
          → confirmed ≤ ceiling
          → aimd.min_limit ≤ ceiling
          → confirmed ≤ 2 ^ 53
          → IsTracker ops aimd (from_persisted ops confirmed ceiling age safety_margin aimd now)
      unfolding from_persisted new
      from_persisted-IsTracker confirmed ceiling age safety_margin now le least exact =
          let o = c.ordered in
          let f = fades confirmed (age / 3600) exact in
          record {
            controller = refl;
            least = omega arith;
            below = omega arith;
            margin = refl;
            waiting = omega arith;
          }

      get_or_create-IsTracker :
          (m : AdaptiveLimitManager Float) (id : Text) (now : ℕ)
          → IsManager m
          → IsTracker ops aimd (get_or_create ops m id now)
      unfolding get_or_create
      get_or_create-IsTracker m id now h = elim (Option-cases (lookup id m.trackers)) [
        | inl e ↦ rw e (
            subst (λ a. IsTracker ops aimd (new ops m.safety_margin a now)) (sym h.same)
              (new-IsTracker ops aimd c m.safety_margin now))
        | inr (t, e) ↦ rw e (AllValues-lookup (IsTracker ops aimd) id t m.trackers h.trackers e)
      ]

      put-IsManager :
          (m : AdaptiveLimitManager Float) (id : Text) (t : AdaptiveLimitTracker Float)
          → IsManager m
          → IsTracker ops aimd t
          → IsManager (record m { trackers = insert id t m.trackers })
      put-IsManager m id t h k = record {
        same = h.same;
        trackers = insert-AllValues (IsTracker ops aimd) id t m.trackers k h.trackers;
      }

      stepped-IsManager :
          (m : AdaptiveLimitManager Float) (id : Text) (now : ℕ) (e : Event ops)
          → IsManager m
          → IsManager (record m {
            trackers = insert id (step ops (get_or_create ops m id now) e) m.trackers;
          })
      stepped-IsManager m id now e h =
          let t = get_or_create ops m id now in
          put-IsManager m id (step ops t e) h
            (step-IsTracker ops aimd c t e (get_or_create-IsTracker m id now h))

      call-IsManager :
          (m : AdaptiveLimitManager Float) (x : Call)
          → IsSaved x
          → IsManager m
          → IsManager (call m x)
      unfolding call step
      call-IsManager m (load id confirmed ceiling age now) s h =
          put-IsManager m id (from_persisted ops confirmed ceiling age m.safety_margin m.aimd now) h
            (subst
              (λ a.
                IsTracker ops aimd (from_persisted ops confirmed ceiling age m.safety_margin a now))
              (sym h.same)
              (from_persisted-IsTracker confirmed ceiling age m.safety_margin now s.0 s.1 s.2))
      call-IsManager m (on_success id now) s h = stepped-IsManager m id now (success now) h
      call-IsManager m (on_429 id now) s h =
          let t = get_or_create ops m id now in
          put-IsManager m id (record_429 ops t now) h
            (record_429-IsTracker ops aimd c t now (get_or_create-IsTracker m id now h))
      call-IsManager m (on_expand id now) s h = stepped-IsManager m id now (expansion now) h
      call-IsManager m (on_ratio id now) s h = stepped-IsManager m id now (usage now) h
      call-IsManager m (on_probe id now) s h = stepped-IsManager m id now (probe now) h
      call-IsManager m (on_admission id now) s h = stepped-IsManager m id now (admission now) h
      call-IsManager m (on_error id status_code now) s h =
          stepped-IsManager m id now (error status_code now) h

      calls-IsManager :
          (m : AdaptiveLimitManager Float) (xs : List Call)
          → AllSaved xs
          → IsManager m
          → IsManager (calls m xs)
      unfolding calls
      calls-IsManager m [] s h = h
      calls-IsManager m (x ∷ xs) s h = calls-IsManager (call m x) xs s.1 (call-IsManager m x s.0 h)

  -- With a controller whose decrease does not raise a limit and whose increase does not lower one,
  -- and a confidence that does not raise one of at most 2^53, every account of a new manager has,
  -- after any calls for any accounts, a limit of at least the least and at most its ceiling, with
  -- the threshold that belongs to it, if each limit that was loaded is at most 2^53, and it and
  -- the least one are at most the ceiling loaded with it.
  pub calls_new-IsManager :
      (aimd : AimdController Float) (safety_margin : Float) (xs : List Call)
      → IsController ops aimd
      → ((n hours : ℕ) → n ≤ 2 ^ 53 → ops.mul_floor n (confidence ops hours) ≤ n)
      → AllSaved aimd xs
      → IsManager aimd (calls (new_manager ops safety_margin aimd) xs)
  unfolding new_manager
  calls_new-IsManager aimd safety_margin xs c fades saved =
      calls-IsManager aimd c fades
        (record { trackers = []; safety_margin = safety_margin; aimd = aimd }) xs saved
        (record { same = refl; trackers = tt })
