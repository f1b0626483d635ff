-- ===== src/ActiveRequests/Interleaving.antt =====
-- Threads that race for the slots of one account: the loop of `try_new` as separate atomic steps,
-- a load and a `compare_exchange_weak` that may fail.
use antigravity_server.Prelude.{
  All, List, [], ap, arith, refl, replicate, subst, suc, zero, ℕ, ◌++◌, ◌+◌, ◌-◌, ◌<◌, ◌∙◌, ◌∷◌,
  ◌≡◌, ◌≤◌,
}

pub data Thread : Type 0 where
  outside : Thread
  loaded : ℕ → Thread
  holding : Thread
  refused : Thread

pub record Race : Type 0 where
  pub counter : ℕ
  pub threads : List Thread

abbrev set_thread : Race → List Thread → Thread → List Thread → Race
set_thread s before t after = record s { threads = before ++ t ∷ after }

-- One atomic step of one thread, between those before and those after it in the list.
pub data Step (max_concurrent : ℕ) (s t : Race) : Type 0 where
  load_low :
      (before after : List Thread)
      → s.threads ≡ before ++ outside ∷ after
      → s.counter < max_concurrent
      → t ≡ set_thread s before (loaded s.counter) after
      → Step max_concurrent s t
  load_full :
      (before after : List Thread)
      → s.threads ≡ before ++ outside ∷ after
      → max_concurrent ≤ s.counter
      → t ≡ set_thread s before refused after
      → Step max_concurrent s t
  exchange :
      (before after : List Thread) (current : ℕ)
      → s.threads ≡ before ++ loaded current ∷ after
      → current ≡ s.counter
      → t ≡ record { counter = current + 1; threads = before ++ holding ∷ after }
      → Step max_concurrent s t
  exchange_fails :
      (before after : List Thread) (current : ℕ)
      → s.threads ≡ before ++ loaded current ∷ after
      → t ≡ set_thread s before outside after
      → Step max_concurrent s t
  drop_guard :
      (before after : List Thread)
      → s.threads ≡ before ++ holding ∷ after
      → t ≡ record { counter = s.counter - 1; threads = before ++ outside ∷ after }
      → Step max_concurrent s t

pub data Reach (max_concurrent : ℕ) (s : Race) : Race → Type 0 where
  here : Reach max_concurrent s s
  next :
      {t u : Race} → Reach max_concurrent s t → Step max_concurrent t u → Reach max_concurrent s u

abbrev holds : Thread → ℕ
holds holding = 1
holds _ = 0

abbrev pub holders : List Thread → ℕ
holders [] = 0
holders (t ∷ ts) = holds t + holders ts

-- A thread is about to take a slot that was free when it looked.
abbrev IsAware : ℕ → Thread → Type 0
IsAware max_concurrent (loaded c) = c < max_concurrent
IsAware max_concurrent _ = Unit

pub record Inv (max_concurrent : ℕ) (s : Race) : Type 0 where
  pub counted : s.counter ≡ holders s.threads
  pub bounded : s.counter ≤ max_concurrent
  pub aware : All (IsAware max_concurrent) s.threads

holders-append :
    (before after : List Thread) (t : Thread)
    → holders (before ++ t ∷ after) ≡ holders before + holds t + holders after
holders-append [] after t = omega arith
holders-append (b ∷ before) after t = omega (arith, holders-append before after t)

All-middle :
    (P : Thread → Type 0) (before after : List Thread) (t u : Thread)
    → All P (before ++ t ∷ after)
    → P u
    → All P (before ++ u ∷ after)
All-middle P [] after t u h p = (p, h.1)
All-middle P (b ∷ before) after t u h p = (h.0, All-middle P before after t u h.1 p)

All-at :
    (P : Thread → Type 0) (before after : List Thread) (t : Thread)
    → All P (before ++ t ∷ after)
    → P t
All-at P [] after t h = h.0
All-at P (b ∷ before) after t h = All-at P before after t h.1

-- One thread changes, and the counter with it.
Inv-replace :
    (n c : ℕ) (s : Race) (before after : List Thread) (old new : Thread)
    → Inv n s
    → s.threads ≡ before ++ old ∷ after
    → IsAware n new
    → c + holds old ≡ s.counter + holds new
    → c ≤ n
    → Inv n (record { counter = c; threads = before ++ new ∷ after })
Inv-replace n c s before after old new v e aware balance bound = record {
  counted = omega (
    arith,
    holders-append before after old,
    holders-append before after new,
    v.counted ∙ ap holders e,
  );
  bounded = bound;
  aware = All-middle (IsAware n) before after old new (subst (All (IsAware n)) e v.aware) aware;
}

Step-Inv : (n : ℕ) (s t : Race) → Step n s t → Inv n s → Inv n t
Step-Inv n s t (load_low before after e low f) v =
    rw f (Inv-replace n s.counter s before after outside (loaded s.counter) v e low refl v.bounded)
Step-Inv n s t (load_full before after e full f) v =
    rw f (Inv-replace n s.counter s before after outside refused v e tt refl v.bounded)
Step-Inv n s t (exchange before after current e same f) v =
    let seen : current < n =
      All-at (IsAware n) before after (loaded current) (subst (All (IsAware n)) e v.aware) in
    rw f (
      Inv-replace n (current + 1) s before after (loaded current) holding v e tt (omega arith)
        (omega arith))
Step-Inv n s t (exchange_fails before after current e f) v =
    rw f (Inv-replace n s.counter s before after (loaded current) outside v e tt refl v.bounded)
Step-Inv n s t (drop_guard before after e f) v =
    let busy = holders-append before after holding in
    let all = v.counted ∙ ap holders e in
    rw f (
      Inv-replace n (s.counter - 1) s before after holding outside v e tt (omega arith)
        (omega (arith, v.bounded)))

Reach-Inv : {n : ℕ} {s t : Race} → Inv n s → Reach n s t → Inv n t
Reach-Inv v here = v
Reach-Inv v (next {t} {u} r st) = Step-Inv _ t u st (Reach-Inv v r)

-- All threads outside, and no slot taken.
abbrev pub start : ℕ → Race
start threads = record { counter = 0; threads = replicate threads outside }

start-Inv : (n k : ℕ) → Inv n (start k)
start-Inv n k = record { counted = counted k; bounded = omega arith; aware = aware k }
  where
    counted : (k : ℕ) → 0 ≡ holders (replicate k outside)
    counted zero = refl
    counted (suc k) = omega (arith, counted k)

    aware : (k : ℕ) → All (IsAware n) (replicate k outside)
    aware zero = tt
    aware (suc k) = (tt, aware k)

-- However the threads interleave, the counter is the number of guards held, and no more than
-- `max_concurrent` of them are held at once.
pub Reach-holders :
    (max_concurrent threads : ℕ) (s : Race)
    → Reach max_concurrent (start threads) s
    → (s.counter ≡ holders s.threads) × (holders s.threads ≤ max_concurrent)
Reach-holders n k s r =
    let v = Reach-Inv (start-Inv n k) r in (v.counted, omega (arith, v.counted, v.bounded))
