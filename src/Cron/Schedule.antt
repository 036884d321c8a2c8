-- ===== src/Cron/Schedule.antt =====
-- `validCronNumber`, `validCronField` and `validateCronSchedule` of cron.go.
pub mod Meaning
use mathlib.Core.Option
use cloudpanel_gateway.Base.{
  ℕ, ◌+◌, ◌-◌, ◌*◌, ◌≡◌, refl, Bool, true, false, not, ◌&&◌, ◌||◌, Option, none, some, List, [],
  ◌∷◌, ltb, leb, ◌==◌, if◌then◌else◌, Bytes, codes, bytes_eq, has_byte, contains_any, count_byte,
  split, length, Result, ok, err,
}

unfoldable pub digit : ℕ → Option ℕ
digit c = if leb b'0' c && leb c b'9' then some (c - 48) else none

unfoldable pub digits_from : ℕ → Bytes → Option ℕ
digits_from n [] = some n
digits_from n (c ∷ v) = elim (digit c) [ none ↦ none | some d ↦ digits_from (10 * n + d) v ]

unfoldable pub digits : Bytes → Option ℕ
unfolding digits_from digit
digits [] = none
digits (c ∷ v) = digits_from 0 (c ∷ v)

-- `strconv.Atoi`: a sign and a magnitude. No number of two characters is out of range.
unfoldable pub atoi : Bytes → Option (Bool × ℕ)
unfolding digits
atoi [] = none
atoi (c ∷ v) =
    if c == b'-'
    then Option.map (λ n. (true, n)) (digits v)
    else if c == b'+'
    then Option.map (λ n. (false, n)) (digits v)
    else Option.map (λ n. (false, n)) (digits (c ∷ v))

-- `e == nil && n >= min && n <= max`, for bounds that are not negative
unfoldable pub in_bounds : Option (Bool × ℕ) → ℕ → ℕ → Bool
in_bounds none min max = false
in_bounds (some (true, n)) min max = n == 0 && min == 0
in_bounds (some (false, n)) min max = leb min n && leb n max

-- `validCronNumber(v, min, max)`
unfoldable pub valid_cron_number : Bytes → ℕ → ℕ → Bool
unfolding in_bounds atoi
valid_cron_number v min max =
    if bytes_eq v [] || ltb 2 (length v) then false else in_bounds (atoi v) min max

-- The value that `strconv.Atoi` gives where its error is ignored.
unfoldable pub magnitude : Bytes → ℕ
unfolding atoi
magnitude v = elim (atoi v) [ none ↦ 0 | some n ↦ n.1 ]

valid_range : List Bytes → ℕ → ℕ → Bool
unfolding valid_cron_number magnitude
valid_range (a ∷ b ∷ []) min max =
    if not (valid_cron_number a min max) || not (valid_cron_number b min max)
    then false
    else not (ltb (magnitude b) (magnitude a))
valid_range _ min max = false

-- What stands before the step: `*`, a range or a number.
valid_base : Bytes → ℕ → ℕ → Bool
unfolding valid_range
valid_base base min max =
    if bytes_eq base (codes "*")
    then true
    else if ltb 1 (count_byte b'-' base)
    then false
    else if has_byte b'-' base
    then valid_range (split b'-' base) min max
    else valid_cron_number base min max

valid_stepped : List Bytes → ℕ → ℕ → Bool
unfolding valid_base
valid_stepped (base ∷ step ∷ []) min max =
    if not (valid_cron_number step 1 (max - min + 1)) then false else valid_base base min max
valid_stepped _ min max = false

valid_item : Bytes → ℕ → ℕ → Bool
unfolding valid_stepped
valid_item item min max =
    if ltb 1 (count_byte b'/' item)
    then false
    else if has_byte b'/' item
    then valid_stepped (split b'/' item) min max
    else valid_base item min max

-- `" \t\r\n@"`
abbrev pub field_stops : Bytes
field_stops = b' ' ∷ 9 ∷ 13 ∷ 10 ∷ b'@' ∷ []

valid_items : List Bytes → ℕ → ℕ → Bool
unfolding valid_item
valid_items [] min max = true
valid_items (item ∷ items) min max = valid_item item min max && valid_items items min max

-- `validCronField(v, min, max)`
unfoldable pub valid_cron_field : Bytes → ℕ → ℕ → Bool
unfolding valid_items
valid_cron_field v min max =
    if bytes_eq v [] || ltb 16 (length v) || contains_any v field_stops
    then false
    else valid_items (split b',' v) min max

pub record Schedule : Type 0 where
  pub minute : Bytes
  pub hour : Bytes
  pub day : Bytes
  pub month : Bytes
  pub weekday : Bytes

-- `validateCronSchedule(r)`
unfoldable pub validate_cron_schedule : Schedule → Result (Unit {0})
unfolding valid_cron_field
validate_cron_schedule s =
    if valid_cron_field s.minute 0 59
      && valid_cron_field s.hour 0 23
      && valid_cron_field s.day 1 31
      && valid_cron_field s.month 1 12
      && valid_cron_field s.weekday 0 7
    then ok tt
    else err "invalid five-field cron schedule"

schedule_tests :
    (valid_cron_field (codes "*/15") 0 59 ≡ true)
    × (valid_cron_field (codes "1-5,9") 0 59 ≡ true)
    × (valid_cron_field (codes "5-1") 0 59 ≡ false)
    × (valid_cron_field (codes "60") 0 59 ≡ false)
    × (valid_cron_field (codes "+5") 0 59 ≡ true)
unfolding valid_cron_field
schedule_tests = (refl, refl, refl, refl, refl)
