-- ===== src/Base/Results.antt =====
-- Exceptions as values. The text of a message is not modelled, its class is.
use mathlib.Core.Path.{◌≡◌, refl, ap}
use mathlib.Core.Logic.{◌⊎◌, inl, inr}
use native.Mathlib.Omega.{arith}

-- `InvalidArgument`, `RuntimeError` and `ErrnoError` of include/error.h, the two exceptions of
-- `std::stoi`, and a run that the language standard leaves undefined.
pub data Error : Type 0 where
  invalid_argument runtime_error errno_error : Error
  std_invalid_argument std_out_of_range : Error
  undefined : Error
  -- No exception of the program: the fuel of a loop of the model ran out.
  out_of_fuel : Error

pub data Result {ℓ} (A : Type ℓ) : Type ℓ where
  ok : A → Result A
  throw : Error → Result A

module _ {ℓ κ} {A : Type ℓ} {B : Type κ} where
  infixl 5 ◌>>=◌
  -- The rest of a computation, which an exception passes over.
  abbrev pub ◌>>=◌ : Result A → (A → Result B) → Result B
  throw e >>= rest = throw e
  ok a >>= rest = rest a

pub Result-cases {ℓ} :
    {A : Type ℓ} (r : Result A) → ((a : A) × (r ≡ ok a)) ⊎ ((e : Error) × (r ≡ throw e))
Result-cases (ok a) = inl (a, refl)
Result-cases (throw e) = inr (e, refl)

pub ok_injective {ℓ} : {A : Type ℓ} {a b : A} → ok a ≡ ok b → a ≡ b
ok_injective {A = A} {a = a} h = ap (value a) h
  where
    value : A → Result A → A
    value d (ok x) = x
    value d (throw e) = d

-- What a chain of results goes through.
pub >>=-ok {ℓ κ} :
    {A : Type ℓ} {B : Type κ} (r : Result A) (f : A → Result B) (b : B)
    → (r >>= f) ≡ ok b
    → (a : A) × (r ≡ ok a) × (f a ≡ ok b)
>>=-ok (throw e) f b h = absurd (throw_not_ok h)
  where
    throw_not_ok : throw e ≡ ok b → ⊥
    throw_not_ok h = ground (arith, h)
>>=-ok (ok a) f b h = (a, refl, h)
