-- ===== src/Base/Clock.antt =====
-- Points in time as Go's `time.Time` has them, in nanoseconds, and as the state database keeps
-- them: `Format(time.RFC3339)` drops the fraction of a second. Two such texts in UTC compare as the
-- seconds that they name.
use Prim.Native.Nat.{ℕ, ◌*◌, ◌/◌, ◌≤◌}
use native.Mathlib.Omega.{arith}

abbrev pub second : ℕ
second = 1_000_000_000

-- `t.UTC().Format(time.RFC3339)`, as a number of seconds.
abbrev pub rfc3339 : ℕ → ℕ
rfc3339 t = t / 1_000_000_000

-- `time.Parse(time.RFC3339, s)` of such a text.
abbrev pub from_rfc3339 : ℕ → ℕ
from_rfc3339 s = s * 1_000_000_000

pub from_rfc3339-rfc3339-le : (t : ℕ) → from_rfc3339 (rfc3339 t) ≤ t
from_rfc3339-rfc3339-le t = omega arith
