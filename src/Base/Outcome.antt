-- ===== src/Base/Outcome.antt =====
-- A Go function that returns `(T, error)`: a value, or the message of the error. An error that
-- comes from outside the program is any message.
use Prim.Native.String.{String}
use mathlib.Core.Path.{◌≡◌, refl}
use mathlib.Core.Bool.{Bool, true, false}
use mathlib.Core.Logic.{◌⊎◌, inl, inr}

pub data Result {ℓ} (A : Type ℓ) : Type ℓ where
  ok : (value : A) → Result A
  err : (message : String) → Result A

abbrev pub is_ok {ℓ} : {A : Type ℓ} → Result A → Bool
is_ok (err message) = false
is_ok (ok value) = true

-- `if c { return errors.New(message) }`
abbrev pub refuse_if : Bool → String → Result (Unit {0})
refuse_if c message = elim c [ true ↦ err message | false ↦ ok tt ]

infixl 5 ◌>>=◌ ◌>>◌
abbrev pub ◌>>=◌ {ℓ κ} : {T : Type ℓ} {R : Type κ} (r : Result T) (next : T → Result R) → Result R
err message >>= next = err message
ok value >>= next = next value

abbrev pub ◌>>◌ {ℓ} : {R : Type ℓ} (check : Result (Unit {0})) (next : Result R) → Result R
check >> next = check >>= λ passed. next

pub is_ok-refuse_if : (c : Bool) (e : String) → is_ok (refuse_if c e) ≡ true → c ≡ false
is_ok-refuse_if true e h = cc
is_ok-refuse_if false e h = refl

-- What a chain of checks that ends well went through: the first check passed, and so did the rest.
pub refuse_if->>-eq-ok {ℓ} :
    {B : Type ℓ} (c : Bool) (e : String) (k : Result B) (b : B)
    → (refuse_if c e >> k) ≡ ok b
    → (c ≡ false) × (k ≡ ok b)
refuse_if->>-eq-ok true e k b h = cc
refuse_if->>-eq-ok false e k b h = (refl, h)

pub ok-injective {ℓ} : {A : Type ℓ} {a b : A} → ok a ≡ ok b → a ≡ b
ok-injective h = cc

-- A chain that ends well: the value that the first part gave, and what became of it.
pub >>=-eq-ok {ℓ κ} :
    {T : Type ℓ} {R : Type κ} (r : Result T) (next : T → Result R) {result : R}
    → (r >>= next) ≡ ok result
    → (value : T) × (r ≡ ok value) × (next value ≡ ok result)
>>=-eq-ok (err message) next h = cc
>>=-eq-ok (ok value) next h = (value, refl, h)

pub Result-cases {ℓ} :
    {A : Type ℓ} (r : Result A) → ((a : A) × (r ≡ ok a)) ⊎ ((e : String) × (r ≡ err e))
Result-cases (ok a) = inl (a, refl)
Result-cases (err e) = inr (e, refl)
