-- ===== src/Prelude/Exceptions.antt =====
-- A Python call either returns a value or raises an exception, which is a value of the type `E`.
use mathlib.Core.Path.{◌≡◌, refl, ap, subst}
use mathlib.Core.Bool.{Bool, true, false}
use eduvijna_aieos_backend.Prelude.Tests.{if◌then◌else◌}

pub data Result {ℓ κ} (E : Type ℓ) (A : Type κ) : Type (ℓ ⊔ κ) where
  ok : A → Result E A
  err : E → Result E A

-- `if not test: raise e`
abbrev pub guard {ℓ} : {E : Type ℓ} → Bool → E → Result E (Unit {0})
guard false raised = err raised
guard true raised = ok tt

infixl 5 ◌>>=◌ ◌>>◌
-- A statement and those that follow it with its value.
abbrev pub ◌>>=◌ {ℓ κ μ} :
    {E : Type ℓ} {A : Type κ} {B : Type μ} → Result E A → (A → Result E B) → Result E B
err raised >>= following = err raised
ok value >>= following = following value

-- A statement and those that follow it.
abbrev pub ◌>>◌ {ℓ κ} : {E : Type ℓ} {B : Type κ} → Result E (Unit {0}) → Result E B → Result E B
first >> following = first >>= λ nothing. following

-- What returned has a first step that returned.
pub first_returned {ℓ κ μ} :
    {E : Type ℓ} {A : Type κ} {B : Type μ} {returned : B} (first : Result E A)
    (following : A → Result E B)
    → (first >>= following) ≡ ok returned
    → (value : A) × (first ≡ ok value) × (following value ≡ ok returned)
first_returned (err raised) following h = cc
first_returned (ok value) following h = (value, refl, h)

abbrev value_or {ℓ κ} : {E : Type ℓ} {A : Type κ} → A → Result E A → A
value_or d (ok a) = a
value_or d (err e) = d

pub ok-injective {ℓ κ} :
    {E : Type ℓ} {A : Type κ} (a b : A) → ◌≡◌ {A = Result E A} (ok a) (ok b) → a ≡ b
ok-injective a b p = ap (value_or a) p

pub err-ne-ok {ℓ κ} :
    {E : Type ℓ} {A : Type κ} (e : E) (a : A) → ◌≡◌ {A = Result E A} (err e) (ok a) → ⊥
err-ne-ok e a p = cc

-- A postcondition of a call that returns.
abbrev pub Ensures {ℓ κ μ} : {E : Type ℓ} {A : Type κ} → (A → Type μ) → Result E A → Type μ
Ensures Q (ok a) = Q a
Ensures Q (err e) = Unit

pub Ensures-bind {ℓ κ μ ν} :
    {E : Type ℓ} {A : Type κ} {B : Type μ} (Q : B → Type ν) (m : Result E A) (f : A → Result E B)
    → ((a : A) → m ≡ ok a → Ensures Q (f a))
    → Ensures Q (m >>= f)
Ensures-bind Q (ok a) f h = h a refl
Ensures-bind Q (err e) f h = tt

pub Ensures-guard {ℓ κ μ} :
    {E : Type ℓ} {B : Type κ} (Q : B → Type μ) (test : Bool) (e : E) (r : Result E B)
    → (test ≡ true → Ensures Q r)
    → Ensures Q (guard test e >> r)
Ensures-guard Q true e r h = h refl
Ensures-guard Q false e r h = tt

pub Ensures-ok {ℓ κ μ} :
    {E : Type ℓ} {A : Type κ} (Q : A → Type μ) (r : Result E A) (a : A)
    → Ensures Q r
    → r ≡ ok a
    → Q a
Ensures-ok Q (ok b) a h p = subst Q (ok-injective b a p) h
Ensures-ok Q (err e) a h p = absurd (err-ne-ok e a p)

pub Ensures-if {ℓ κ μ} :
    {E : Type ℓ} {A : Type κ} (Q : A → Type μ) (test : Bool) (r s : Result E A)
    → (test ≡ true → Ensures Q r)
    → (test ≡ false → Ensures Q s)
    → Ensures Q (if test then r else s)
Ensures-if Q true r s h k = h refl
Ensures-if Q false r s h k = k refl
