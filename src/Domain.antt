-- ===== src/Domain.antt =====
-- The enumerations of core/include/alpha/errors.h and domain.h, and the shape of a fallible call:
-- `ok` is ALPHA_OK with the out-parameters, `err` an error code. A pointer argument that the code
-- compares with NULL is an `Option`, an out-pointer the test `out != NULL`.
use mathlib.Core.Path.{subst}
use alpha_fincial_pipline_c.Prelude.{arith, Bool, true, false, ◌≡◌, refl, ◌⊎◌, inl, inr}

pub data Error : Type 0 where
  invalid_arg range io db http : Error

pub data Result {ℓ} (A : Type ℓ) : Type ℓ where
  ok : A → Result A
  err : Error → Result A

pub data Signal : Type 0 where
  buy sell hold close : Signal

pub data Side : Type 0 where
  side_buy side_sell : Side

pub data Market : Type 0 where
  kospi kosdaq nyse nasdaq : Market

abbrev pub is_buy : Signal → Bool
is_buy buy = true
is_buy _ = false

abbrev pub is_sell : Signal → Bool
is_sell sell = true
is_sell _ = false

abbrev pub is_close : Signal → Bool
is_close close = true
is_close _ = false

abbrev pub is_side_sell : Side → Bool
is_side_sell side_sell = true
is_side_sell side_buy = false

infixl 5 ◌>>=◌
abbrev pub ◌>>=◌ {ℓ κ} : {A : Type ℓ} {B : Type κ} → Result A → (A → Result B) → Result B
ok a >>= f = f a
err e >>= f = err e

pub Result-cases {ℓ} :
    {A : Type ℓ} (r : Result A) → ((a : A) × (r ≡ ok a)) ⊎ ((e : Error) × (r ≡ err e))
Result-cases (ok a) = inl (a, refl)
Result-cases (err e) = inr (e, refl)

-- The value has the property, if there is one.
abbrev pub OnOk {ℓ κ} : {A : Type ℓ} → (A → Type κ) → Result A → Type κ
OnOk Q (ok a) = Q a
OnOk Q (err e) = Unit

pub ok_inj {ℓ} : {A : Type ℓ} {b a : A} → ok b ≡ ok a → b ≡ a
ok_inj p = cc

pub OnOk-value {ℓ κ} :
    {A : Type ℓ} (Q : A → Type κ) (m : Result A) (a : A) → OnOk Q m → m ≡ ok a → Q a
OnOk-value Q (ok b) a q h = subst Q (ok_inj h) q
OnOk-value Q (err e) a q h = absurd (ground arith)

pub OnOk-bind {ℓ κ μ} :
    {A : Type ℓ} {B : Type κ} (Q : B → Type μ) (m : Result A) (f : A → Result B)
    → ((a : A) → m ≡ ok a → OnOk Q (f a))
    → OnOk Q (m >>= f)
OnOk-bind Q (ok a) f h = h a refl
OnOk-bind Q (err e) f h = tt
