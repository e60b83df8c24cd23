-- ===== src/Common/Outcome.antt =====
-- How a C++ routine can end other than by returning.
use mathlib.Core.Path.{◌≡◌, refl, subst}
use mathlib.Core.Logic.{◌≢◌}
use mathlib.Core.Option.{Option, none, some}

-- `out_of_range` is the exception of `vector::at`; `bad_access` is what C++ leaves undefined: an
-- access past a buffer, through a null pointer, to an inactive member of a union, `back()` of an
-- empty vector, an overflow of an `int`, `unlock` of an open mutex. `out_of_fuel` is no behaviour of the program: a loop of the model was given
-- too few rounds.
pub data Fault : Type 0 where
  out_of_range bad_access out_of_fuel : Fault

pub data Result {ℓ} (A : Type ℓ) : Type ℓ where
  err : Fault → Result A
  ok : A → Result A

infixl 5 ◌>>=◌
abbrev pub ◌>>=◌ {ℓ κ} : {A : Type ℓ} {B : Type κ} → Result A → (A → Result B) → Result B
err fault >>= next = err fault
ok value >>= next = next value

-- A value that has to be there.
abbrev pub require {ℓ} : {A : Type ℓ} → Fault → Option A → Result A
require fault (some a) = ok a
require fault none = err fault

-- A chain of steps avoids a fault that each of its steps avoids.
pub >>=-ne-err {ℓ κ} :
    {A : Type ℓ} {B : Type κ} (m : Result A) (f : A → Result B) (e : Fault)
    → m ≢ err e
    → ((a : A) → m ≡ ok a → f a ≢ err e)
    → (m >>= f) ≢ err e
>>=-ne-err (ok a) f e h k = k a refl
>>=-ne-err (err d) f e h k = λ p. h (cc)

-- A property of the value, where there is one.
abbrev pub Ensures {ℓ κ} : {A : Type ℓ} → (A → Type κ) → Result A → Type κ
Ensures P (ok a) = P a
Ensures P (err e) = Unit {κ}

pub >>=-Ensures {ℓ κ ι} :
    {A : Type ℓ} {B : Type κ} (P : B → Type ι) (m : Result A) (f : A → Result B)
    → ((a : A) → m ≡ ok a → Ensures P (f a))
    → Ensures P (m >>= f)
>>=-Ensures P (ok a) f k = k a refl
>>=-Ensures P (err e) f k = tt

pub Ensures-ok {ℓ κ} :
    {A : Type ℓ} (P : A → Type κ) (r : Result A) {a : A} → Ensures P r → r ≡ ok a → P a
Ensures-ok P r h e = subst (Ensures P) e h

pub >>=_assoc {ℓ κ ι} :
    {A : Type ℓ} {B : Type κ} {C : Type ι} (m : Result A) (f : A → Result B) (g : B → Result C)
    → (m >>= f >>= g) ≡ (m >>= (λ a. f a >>= g))
>>=_assoc (ok a) f g = refl
>>=_assoc (err e) f g = refl
