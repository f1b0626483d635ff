-- ===== src/TokenManager/Touches.antt =====
-- Which limits a lockout until a date touches.
use antigravity_server.TokenManager.RateLimiting.{Answers, lock_until}
use antigravity_server.RateLimit.{
  RateLimitInfo, RateLimitKey, RateLimitReason, RateLimitTracker, model, rate_limit_key,
}
use antigravity_server.RateLimit.Lockout.{iso_lockout, set_lockout_until, set_lockout_until_iso}
use antigravity_server.Prelude.Map.{Map, insert, lookup, lookup-insert_ne, lookup-insert_self}
use antigravity_server.Prelude.Text.{Text}
use antigravity_server.Prelude.Int.{ℤ, pos, negsuc}
use antigravity_server.Prelude.{Option, none, some, true, is_some, ◌≡◌, ◌∙◌, refl, sym, subst, ap}

abbrev pub Limits : Type 0
Limits = Map RateLimitKey RateLimitInfo

-- Only limits under the keys named change, and no limit is taken away.
abbrev pub Touches : (RateLimitKey → Type 0) → Limits → Limits → Type 0
Touches K l l' =
    (j : RateLimitKey)
    → (¬ K j → lookup j l' ≡ lookup j l)
      × (is_some (lookup j l) ≡ true → is_some (lookup j l') ≡ true)

pub Touches-refl : (K : RateLimitKey → Type 0) (l : Limits) → Touches K l l
Touches-refl K l j = ((λ n. refl), (λ h. h))

pub Touches-insert :
    (K : RateLimitKey → Type 0) (l : Limits) (key : RateLimitKey) (info : RateLimitInfo)
    → K key
    → Touches K l (insert key info l)
Touches-insert K l key info k j = elim (rate_limit_key.dec key j) [
  | yes p ↦ (
    (λ n. absurd (n (subst K p k))),
    (λ h.
        ap (λ i. is_some (lookup i (insert key info l))) (sym p)
        ∙ ap is_some (lookup-insert_self key info l)),
  )
  | no n ↦ let same = lookup-insert_ne key j info l n in ((λ m. same), (λ h. ap is_some same ∙ h))
]

pub iso_lockout-Touches :
    (K : RateLimitKey → Type 0) (a : Answers) (t : RateLimitTracker) (id m : Text)
    (reason : RateLimitReason) (o : Option ℤ)
    → K (model id m)
    → Touches K t.limits (iso_lockout t id o reason (some m) a.last).0.limits
unfolding iso_lockout set_lockout_until
iso_lockout-Touches K a t id m reason none k = Touches-refl K t.limits
iso_lockout-Touches K a t id m reason (some (pos n)) k = Touches-insert K t.limits (model id m) _ k
iso_lockout-Touches K a t id m reason (some (negsuc n)) k = Touches-refl K t.limits

pub lock_until-Touches :
    (K : RateLimitKey → Type 0) (a : Answers) (t : RateLimitTracker) (id m : Text)
    (reason : RateLimitReason) (o : Option Text)
    → K (model id m)
    → Touches K t.limits (lock_until a t id reason (some m) o).0.limits
unfolding lock_until set_lockout_until_iso
lock_until-Touches K a t id m reason none k = Touches-refl K t.limits
lock_until-Touches K a t id m reason (some str) k =
    iso_lockout-Touches K a t id m reason (a.parse_from_rfc3339 str) k
