-- ===== src/Prelude/Time.antt =====
-- Clock readings (`Instant`, `SystemTime`) and `Duration`s, in nanoseconds.
use Prim.Native.Nat.{ℕ, ◌-◌, ◌*◌, ◌/◌, ◌%◌}
use mathlib.Core.Option.{Option, none, some}
use antigravity_server.Prelude.Tests.{leb, if◌then◌else◌}

abbrev pub nanos_per_sec : ℕ
nanos_per_sec = 1_000_000_000

-- `Duration::from_secs`
abbrev pub from_secs : ℕ → ℕ
from_secs s = s * nanos_per_sec

-- `Duration::from_millis`
abbrev pub from_millis : ℕ → ℕ
from_millis ms = ms * 1_000_000

-- `Duration::as_secs`
abbrev pub as_secs : ℕ → ℕ
as_secs d = d / nanos_per_sec

-- `Duration::subsec_nanos`
abbrev pub subsec_nanos : ℕ → ℕ
subsec_nanos d = d % nanos_per_sec

-- `SystemTime::duration_since`: an error where the other reading is later.
abbrev pub duration_since : ℕ → ℕ → Option ℕ
duration_since t earlier = if leb earlier t then some (t - earlier) else none

-- `Instant::elapsed` and `Instant::duration_since`, which saturate at zero.
abbrev pub elapsed : ℕ → ℕ → ℕ
elapsed now start = now - start

abbrev pub unwrap_or {ℓ} : {A : Type ℓ} → Option A → A → A
unwrap_or none d = d
unwrap_or (some a) d = a
