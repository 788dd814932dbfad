-- ===== src/Prelude/Results.antt =====
-- A call that may fail, with its error as a value.
use mathlib.Core.Path.{◌≡◌, refl}
use mathlib.Core.Logic.{◌↔◌, ◌⊎◌, inl, inr}

pub data Result {ℓ κ} (E : Type κ) (A : Type ℓ) : Type (ℓ ⊔ κ) where
  ok : A → Result E A
  err : E → Result E A

infixl 5 ◌>>=◌ ◌>>◌
abbrev pub ◌>>=◌ {ℓ κ υ} :
    {E : Type υ} {A : Type ℓ} {B : Type κ} → Result E A → (A → Result E B) → Result E B
ok a >>= f = f a
err e >>= f = err e

abbrev pub ◌>>◌ {ℓ υ} : {E : Type υ} {B : Type ℓ} → Result E (Unit {0}) → Result E B → Result E B
m >> k = m >>= λ _. k

-- A property of the value of a call that succeeds.
abbrev pub Ends {ℓ κ υ} : {E : Type υ} {A : Type ℓ} → (A → Type κ) → Result E A → Type κ
Ends P (ok a) = P a
Ends P (err e) = Unit

pub Ends-bind {ℓ κ υ τ} :
    {E : Type υ} {A : Type ℓ} {B : Type κ} (P : A → Type τ) (Q : B → Type τ) (m : Result E A)
    (f : A → Result E B)
    → Ends P m
    → ((a : A) → P a → Ends Q (f a))
    → Ends Q (m >>= f)
Ends-bind P Q (ok a) f h k = k a h
Ends-bind P Q (err e) f h k = tt

-- Nothing is asked of the value.
pub Ends-any {ℓ υ} : {E : Type υ} {A : Type ℓ} (m : Result E A) → Ends (λ a. Unit {0}) m
Ends-any (ok a) = tt
Ends-any (err e) = tt

-- Both of two calls in a row succeed.
pub bind-ok {ℓ κ υ} :
    {E : Type υ} {A : Type ℓ} {B : Type κ} (m : Result E A) (k : A → Result E B) (b : B)
    → (m >>= k) ≡ ok b
    → (a : A) × (m ≡ ok a) × (k a ≡ ok b)
bind-ok (ok a) k b e = (a, refl, e)
bind-ok (err x) k b e = cc e

pub Result-cases {ℓ κ} :
    {E : Type κ} {A : Type ℓ} (r : Result E A) → ((a : A) × (r ≡ ok a)) ⊎ ((x : E) × (r ≡ err x))
Result-cases (ok a) = inl (a, refl)
Result-cases (err x) = inr (x, refl)

pub then_iff {κ υ} :
    {E : Type υ} {B : Type κ} (m : Result E (Unit {0})) (k : Result E B) (b : B)
    → ((m >> k) ≡ ok b) ↔ ((m ≡ ok tt) × (k ≡ ok b))
then_iff (ok tt) k b = ((λ e. (refl, e)), (λ e. e.1))
then_iff (err x) k b = ((λ e. cc e), (λ e. cc e.0))
