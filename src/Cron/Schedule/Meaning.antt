-- ===== src/Cron/Schedule/Meaning.antt =====
-- What an accepted field says: a list of items, each a star, a number or an ordered range, with a
-- step or without.
unfoldable use cloudpanel_gateway.Cron.Schedule.{digit, digits, digits_from}
use cloudpanel_gateway.Cron.Schedule.{magnitude, digits, digits_from, digit}
use cloudpanel_gateway.Base.{ℕ, ◌+◌, ◌-◌, ◌*◌, ◌≤◌, ◌≡◌, ◌⊎◌, [], ◌∷◌, ◌++◌, Bytes, codes}

abbrev IsDigit : ℕ → Type 0
IsDigit c = (b'0' ≤ c) × (c ≤ b'9')

-- What one or two bytes say: one digit, two digits, a digit behind a `+`, or `-0`.
abbrev pub Reads : Bytes → ℕ → Type 0
Reads [] n = ⊥
Reads (c ∷ []) n = IsDigit c × (n + b'0' ≡ c)
Reads (c ∷ d ∷ []) n =
    IsDigit d
    × ((IsDigit c × (n + 10 * b'0' + b'0' ≡ 10 * c + d))
        ⊎ ((c ≡ b'+') × (n + b'0' ≡ d))
        ⊎ ((c ≡ b'-') × (d ≡ b'0') × (n ≡ 0)))
Reads (c ∷ d ∷ e ∷ v) n = ⊥

-- A text that says a number between two bounds.
abbrev pub IsNumber : ℕ → ℕ → Bytes → Type 0
IsNumber min max v = (n : ℕ) × Reads v n × (magnitude v ≡ n) × (min ≤ n) × (n ≤ max)

-- `*`, a number, or `a-b` with a no greater than b
abbrev pub IsBase : ℕ → ℕ → Bytes → Type 0
IsBase min max base =
    (base ≡ codes "*")
    ⊎ IsNumber min max base
    ⊎ ((a b : Bytes) × (base ≡ a ++ b'-' ∷ b)
        × (p : IsNumber min max a) × (q : IsNumber min max b) × (p.0 ≤ q.0))

-- A base, or `base/step` with a step from 1 to the number of values
abbrev pub IsItem : ℕ → ℕ → Bytes → Type 0
IsItem min max item =
    IsBase min max item
    ⊎ ((base step : Bytes) × (item ≡ base ++ b'/' ∷ step)
        × IsBase min max base
        × IsNumber 1 (max - min + 1) step)
