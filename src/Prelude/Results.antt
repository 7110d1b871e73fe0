-- ===== src/Prelude/Results.antt =====
-- How a fallible Go function ends. `stuck` is no Go value: a loop of the model ran out of fuel.
use mathlib.Core.Path.{◌≡◌, refl}
use mathlib.Core.Logic.{◌⊎◌, inl, inr}

pub data Outcome {ℓ κ} (E : Type ℓ) (A : Type κ) : Type (ℓ ⊔ κ) where
  ok : A → Outcome E A
  err : E → Outcome E A
  stuck : Outcome E A

infixl 5 ◌>>=◌ ◌>>◌
abbrev pub ◌>>=◌ {ℓ κ κ'} :
    {E : Type ℓ} {A : Type κ} {B : Type κ'} → Outcome E A → (A → Outcome E B) → Outcome E B
stuck >>= f = stuck
err e >>= f = err e
ok a >>= f = f a

-- One step after another, whose value is not used.
abbrev pub ◌>>◌ {ℓ κ} : {E : Type ℓ} {B : Type κ} → Outcome E (Unit {0}) → Outcome E B → Outcome E B
first >> second = first >>= λ _. second

pub >>=-eq-ok {ℓ κ κ'} :
    {E : Type ℓ} {A : Type κ} {B : Type κ'} (m : Outcome E A) (f : A → Outcome E B) {b : B}
    → (m >>= f) ≡ ok b
    → (a : A) × (m ≡ ok a) × (f a ≡ ok b)
>>=-eq-ok stuck f h = cc
>>=-eq-ok (err e) f h = cc
>>=-eq-ok (ok a) f h = (a, refl, h)

pub >>=-eq-stuck {ℓ κ κ'} :
    {E : Type ℓ} {A : Type κ} {B : Type κ'} (m : Outcome E A) (f : A → Outcome E B)
    → (m >>= f) ≡ stuck
    → (m ≡ stuck) ⊎ ((a : A) × (m ≡ ok a) × (f a ≡ stuck))
>>=-eq-stuck (ok a) f h = inr (a, refl, h)
>>=-eq-stuck (err e) f h = cc
>>=-eq-stuck stuck f h = inl refl

pub >>=-eq-err {ℓ κ κ'} :
    {E : Type ℓ} {A : Type κ} {B : Type κ'} (m : Outcome E A) (f : A → Outcome E B) {e : E}
    → (m >>= f) ≡ err e
    → (m ≡ err e) ⊎ ((a : A) × (m ≡ ok a) × (f a ≡ err e))
>>=-eq-err (ok a) f h = inr (a, refl, h)
>>=-eq-err (err e) f h = inl (cc)
>>=-eq-err stuck f h = cc

pub ok-injective {ℓ κ} :
    {E : Type ℓ} {A : Type κ} {a b : A} → ◌≡◌ {A = Outcome E A} (ok a) (ok b) → a ≡ b
ok-injective h = cc

-- The three ways that a run ends, with the equation.
pub data Ends {ℓ κ} {E : Type ℓ} {A : Type κ} (m : Outcome E A) : Type (ℓ ⊔ κ) where
  ok_is : (a : A) → m ≡ ok a → Ends m
  err_is : (e : E) → m ≡ err e → Ends m
  stuck_is : m ≡ stuck → Ends m

pub Outcome-cases {ℓ κ} : {E : Type ℓ} {A : Type κ} (m : Outcome E A) → Ends m
Outcome-cases (ok a) = ok_is a refl
Outcome-cases (err e) = err_is e refl
Outcome-cases stuck = stuck_is refl
