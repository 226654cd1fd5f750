-- ===== src/Common/Outcome.antt =====
-- What a call gives back: a value, or what it threw.
use mathlib.Core.Path.{◌≡◌, refl, subst}
use mathlib.Core.Bool.{Bool, true, false}

pub data Result {ℓ κ} (E : Type ℓ) (A : Type κ) : Type (ℓ ⊔ κ) where
  ok : A → Result E A
  err : E → Result E A

infixl 5 ◌>>=◌ ◌>>◌
abbrev pub ◌>>=◌ {ℓ κ μ} :
    {E : Type ℓ} {A : Type κ} {B : Type μ} → Result E A → (A → Result E B) → Result E B
err e >>= next = err e
ok a >>= next = next a

-- A call for its effect only.
abbrev pub ◌>>◌ {ℓ μ} : {E : Type ℓ} {B : Type μ} → Result E (Unit {0}) → Result E B → Result E B
first >> rest = first >>= λ _. rest

-- `if (c) throw e;`
abbrev pub throw_if {ℓ} : {E : Type ℓ} → Bool → E → Result E (Unit {0})
throw_if true e = err e
throw_if false e = ok tt

pub >>=-eq-ok {ℓ κ μ} :
    {E : Type ℓ} {A : Type κ} {B : Type μ} (m : Result E A) (f : A → Result E B) {b : B}
    → (m >>= f) ≡ ok b
    → (a : A) × (m ≡ ok a) × (f a ≡ ok b)
>>=-eq-ok (err e) f h = cc
>>=-eq-ok (ok a) f h = (a, refl, h)

-- The same for a call for its effect.
pub >>-eq-ok {ℓ μ} :
    {E : Type ℓ} {B : Type μ} (first : Result E (Unit {0})) (rest : Result E B) {b : B}
    → (first >> rest) ≡ ok b
    → (first ≡ ok tt) × (rest ≡ ok b)
>>-eq-ok (err e) rest h = cc
>>-eq-ok (ok a) rest h = (refl, h)

pub throw_if-eq-ok {ℓ} : {E : Type ℓ} (c : Bool) (e : E) → throw_if c e ≡ ok tt → c ≡ false
throw_if-eq-ok true e h = cc
throw_if-eq-ok false e h = refl

pub ok-injective {ℓ κ} :
    {E : Type ℓ} {A : Type κ} {a b : A} → ◌≡◌ {A = Result E A} (ok a) (ok b) → a ≡ b
ok-injective h = cc

-- A test that throws in front of the rest of a successful call did not throw.
pub throw_if_passed {ℓ μ} :
    {E : Type ℓ} {B : Type μ} (c : Bool) (e : E) (rest : Result E B) {b : B}
    → (throw_if c e >> rest) ≡ ok b
    → (c ≡ false) × (rest ≡ ok b)
throw_if_passed true e rest h = cc
throw_if_passed false e rest h = (refl, h)

-- If the call succeeds, its value satisfies `P`.
pub record Returns {ℓ κ μ} {E : Type ℓ} {A : Type κ} (P : A → Type μ) (r : Result E A)
    : Type (ℓ ⊔ κ ⊔ μ) where
  pub value : (a : A) → r ≡ ok a → P a

module _ {ℓ κ μ ν} {E : Type ℓ} {A : Type κ} {B : Type μ} where
  pub bind-Returns :
      {P : A → Type ν} {Q : B → Type ν} {m : Result E A} {f : A → Result E B}
      → Returns P m
      → ((a : A) → P a → Returns Q (f a))
      → Returns Q (m >>= f)
  bind-Returns {m = ok a} h k = k a (h.value a refl)
  bind-Returns {m = err e} h k = record { value = λ b q. cc }

  -- The same, where only the success of the first call is needed.
  pub then-Returns :
      {Q : B → Type ν} {m : Result E A} {f : A → Result E B}
      → ((a : A) → m ≡ ok a → Returns Q (f a))
      → Returns Q (m >>= f)
  then-Returns {m = ok a} k = k a refl
  then-Returns {m = err e} k = record { value = λ b q. cc }

pub ok-Returns {ℓ κ μ} :
    {E : Type ℓ} {A : Type κ} {P : A → Type μ} {a : A} → P a → Returns {E = E} P (ok a)
ok-Returns {P = P} h = record { value = λ b e. subst P (ok-injective e) h }

pub err-Returns {ℓ κ μ} :
    {E : Type ℓ} {A : Type κ} {P : A → Type μ} {e : E} → Returns {A = A} P (err e)
err-Returns = record { value = λ b q. cc }

-- A test that may throw, and the rest, which runs only if the test is false.
pub throw_if-Returns {ℓ μ ν} :
    {E : Type ℓ} {B : Type μ} {Q : B → Type ν} (c : Bool) (e : E) {rest : Result E B}
    → (c ≡ false → Returns Q rest)
    → Returns Q (throw_if c e >> rest)
throw_if-Returns true e k = record { value = λ b q. cc }
throw_if-Returns false e k = k refl

pub weaken-Returns {ℓ κ μ} :
    {E : Type ℓ} {A : Type κ} {P Q : A → Type μ} {r : Result E A}
    → ((a : A) → P a → Q a)
    → Returns P r
    → Returns Q r
weaken-Returns f h = record { value = λ a e. f a (h.value a e) }
