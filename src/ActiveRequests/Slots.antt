-- ===== src/ActiveRequests/Slots.antt =====
-- Taking and giving back a slot.
use antigravity_server.Prelude.Map.{insert, lookup, lookup-insert_ne, lookup-insert_self, text_key}
use antigravity_server.Prelude.Text.{Text}
use antigravity_server.Prelude.{
  Bool-cases, Option, zero, suc, ◌∙◌, ap, arith, false, if◌then◌else◌, inl, inr, is_some, leb, ltb,
  max, none, refl, some, subst, true, unwrap_or, ℕ, ◌+◌, ◌-◌, ◌<◌, ◌↔◌, ◌≡◌, ◌≤◌,
}
use antigravity_server.ActiveRequests.{ActiveRequestGuard, Counters, drop, give_back, load, try_new}

pub load-insert_self : (cs : Counters) (key : Text) (n : ℕ) → load (insert key n cs) key ≡ n
load-insert_self cs key n = ap (λ o. unwrap_or o 0) (lookup-insert_self key n cs)

pub load-insert_ne :
    (cs : Counters) (key j : Text) (n : ℕ) → ¬ (key ≡ j) → load (insert key n cs) j ≡ load cs j
load-insert_ne cs key j n h = ap (λ o. unwrap_or o 0) (lookup-insert_ne key j n cs h)

pub drop-insert :
    (cs : Counters) (key : Text) (n : ℕ)
    → load (drop (insert key (n + 1) cs) (record { key = key; released = false })) key ≡ n
unfolding drop
drop-insert cs key n =
    rw (lookup-insert_self key (n + 1) cs, give_back)
      (ground (
        arith,
        load-insert_self (insert key (n + 1) cs) key (n + 1 - 1),
        load-insert_self cs key (n + 1),
      ))

pub drop-insert_ne :
    (cs : Counters) (key j : Text) (n : ℕ)
    → ¬ (key ≡ j)
    → load (drop (insert key (n + 1) cs) (record { key = key; released = false })) j ≡ load cs j
unfolding drop
drop-insert_ne cs key j n h =
    rw (lookup-insert_self key (n + 1) cs, give_back)
      (ground (
        arith,
        load-insert_ne (insert key (n + 1) cs) key j (n + 1 - 1) h,
        load-insert_ne cs key j (n + 1) h,
      ))

some_eq {ℓ} : {A : Type ℓ} {a b : A} → some a ≡ some b → a ≡ b
some_eq e = cc

pub try_new_full :
    (cs : Counters) (key : Text) (max_concurrent : ℕ)
    → max_concurrent ≤ load cs key
    → try_new cs key max_concurrent ≡ (insert key (load cs key) cs, none)
unfolding try_new
try_new_full cs key max_concurrent h = ground arith

pub try_new_free :
    (cs : Counters) (key : Text) (max_concurrent : ℕ)
    → load cs key < max_concurrent
    → try_new cs key max_concurrent
      ≡ (insert key (load cs key + 1) cs, some (record { key = key; released = false }))
unfolding try_new
try_new_free cs key max_concurrent h = ground arith

-- `try_new` succeeds exactly when fewer than `max_concurrent` slots of the account are taken, and
-- then takes one; the guard that is dropped gives it back; no other account is touched.
pub try_new-drop :
    (cs : Counters) (key j : Text) (max_concurrent : ℕ)
    → let (cs', taken) = try_new cs key max_concurrent in
      ((load cs key < max_concurrent) ↔ (is_some taken ≡ true))
      × (load cs' key ≡ (if is_some taken then load cs key + 1 else load cs key))
      × (load cs' key ≤ max max_concurrent (load cs key))
      × ((g : ActiveRequestGuard) → taken ≡ some g → load (drop cs' g) key ≡ load cs key)
      × (¬ (key ≡ j) → load cs' j ≡ load cs j)
try_new-drop cs key j max_concurrent = elim (Bool-cases (leb max_concurrent (load cs key))) [
  | inl full ↦ rw (try_new_full cs key max_concurrent (ground arith)) (
    ((ground arith), (λ e. cc)),
    load-insert_self cs key (load cs key),
    omega (arith, load-insert_self cs key (load cs key)),
    (λ g e. cc),
    load-insert_ne cs key j (load cs key),
  )
  | inr free ↦ rw (try_new_free cs key max_concurrent (ground arith)) (
    ((λ h. refl), (ground arith)),
    load-insert_self cs key (load cs key + 1),
    ground (arith, load-insert_self cs key (load cs key + 1)),
    (λ g e.
        subst (λ x. load (drop (insert key (load cs key + 1) cs) x) key ≡ load cs key) (some_eq e)
          (drop-insert cs key (load cs key))),
    load-insert_ne cs key j (load cs key + 1),
  )
]

give_back-load :
    (cs : Counters) (key : Text) (o : Option ℕ)
    → lookup key cs ≡ o
    → (load (give_back cs key o) key ≡ load cs key - 1)
      × ((j : Text) → ¬ (key ≡ j) → load (give_back cs key o) j ≡ load cs j)
unfolding give_back
give_back-load cs key none e =
    let z : load cs key ≡ 0 = ap (λ o. unwrap_or o 0) e in (omega arith, λ j n. refl)
give_back-load cs key (some zero) e =
    let z : load cs key ≡ 0 = ap (λ o. unwrap_or o 0) e in (omega arith, λ j n. refl)
give_back-load cs key (some (suc v)) e =
    let z : load cs key ≡ suc v = ap (λ o. unwrap_or o 0) e in
    let positive : ltb 0 (suc v) ≡ true = ground arith in
    rw positive (
      load-insert_self cs key (suc v - 1) ∙ omega arith,
      λ j n. load-insert_ne cs key j (suc v - 1) n,
    )

-- A guard that is dropped gives one slot of its account back, and touches no other.
pub load-drop :
    (cs : Counters) (key : Text)
    → let cs' = drop cs (record { key = key; released = false }) in
      (load cs' key ≡ load cs key - 1) × ((j : Text) → ¬ (key ≡ j) → load cs' j ≡ load cs j)
unfolding drop
load-drop cs key = give_back-load cs key (lookup key cs) refl
