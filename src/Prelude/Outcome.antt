-- ===== src/Prelude/Outcome.antt =====
-- The outcome of code that may end the process: `ASSERT` and `FATAL` of common/macros.h call `exit`,
-- and an exception out of a `noexcept` function calls `std::terminate`.
use mathlib.Core.Path.{◌≡◌, refl, ap}
use mathlib.Core.Logic.{◌⊎◌, inl, inr}
use mathlib.Core.Bool.{Bool, true, false}

pub data Result {ℓ} (A : Type ℓ) : Type ℓ where
  ok : A → Result A
  fatal : Result A
  out_of_fuel : Result A

infixl 5 ◌>>=◌ ◌>>◌
abbrev pub ◌>>=◌ {ℓ κ} : {A : Type ℓ} {B : Type κ} → Result A → (A → Result B) → Result B
ok a >>= f = f a
fatal >>= f = fatal
out_of_fuel >>= f = out_of_fuel

abbrev pub ◌>>◌ {ℓ} : {B : Type ℓ} → Result (Unit {0}) → Result B → Result B
m >> k = m >>= λ _. k

-- `ASSERT(cond, msg)`: goes on only if the condition holds.
abbrev pub assert : Bool → Result (Unit {0})
assert true = ok tt
assert false = fatal

pub Result-cases {ℓ} :
    {A : Type ℓ} (r : Result A) → (((a : A) × (r ≡ ok a)) ⊎ (r ≡ fatal)) ⊎ (r ≡ out_of_fuel)
Result-cases (ok a) = inl (inl (a, refl))
Result-cases fatal = inl (inr refl)
Result-cases out_of_fuel = inr refl

-- A step that has returned did so with a value, and the rest did with it.
module _ {ℓ κ} {A : Type ℓ} {B : Type κ} where
  pub >>=-ok :
      (step : Result A) (rest : A → Result B) {b : B}
      → (step >>= rest) ≡ ok b
      → (a : A) × (step ≡ ok a) × (rest a ≡ ok b)
  >>=-ok fatal rest e = cc
  >>=-ok out_of_fuel rest e = cc
  >>=-ok (ok a) rest e = (a, refl, e)

the_ok {ℓ} : {A : Type ℓ} → A → Result A → A
the_ok d (ok x) = x
the_ok d _ = d

pub ok-injective {ℓ} : {A : Type ℓ} {x y : A} → ok x ≡ ok y → x ≡ y
unfolding the_ok
ok-injective {x = x} e = ap (the_ok x) e

pub >>=_assoc {ℓ κ μ} :
    {A : Type ℓ} {B : Type κ} {C : Type μ} (m : Result A) (f : A → Result B) (g : B → Result C)
    → ((m >>= f) >>= g) ≡ (m >>= λ a. f a >>= g)
>>=_assoc (ok a) f g = refl
>>=_assoc fatal f g = refl
>>=_assoc out_of_fuel f g = refl
