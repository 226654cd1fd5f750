-- ===== src/Store/Gives.antt =====
-- What a call of the store gives when it does not throw.
use adg_lang.Common.{◌≡◌, refl, subst, Bool, true, false, Result, ok, err, ok-injective}
use adg_lang.Store.Calls.{StoreError, World, M, pure, throw_when, resume, ◌>>=◌, ◌>>◌}

pub record Gives {A : Type 0} (P : A → Type 0) (m : M A) : Type 0 where
  pub value : (w : World) (a : A) → (m w).0 ≡ ok a → P a

pub Gives-pure : {A : Type 0} {P : A → Type 0} (a : A) → P a → Gives P (pure a)
Gives-pure {P = P} a h = record { value = λ w b e. subst P (ok-injective e) h }

pub Gives-bind :
    {A B : Type 0} {P : B → Type 0} (m : M A) (f : A → M B)
    → ((a : A) → Gives P (f a))
    → Gives P (m >>= f)
Gives-bind {A} {B} {P} m f h = record { value = λ w b e. after (m w).0 (m w).1 b e }
  where
    after : (r : Result StoreError A) (w : World) (b : B) → (resume f r w).0 ≡ ok b → P b
    after (ok a) w b e = (h a).value w b e
    after (err x) w b e = cc

pub Gives-throw_when :
    {B : Type 0} {P : B → Type 0} (c : Bool) (e : StoreError) (rest : M B)
    → (c ≡ false → Gives P rest)
    → Gives P (throw_when c e >> rest)
Gives-throw_when true e rest h = record { value = λ w b q. cc }
Gives-throw_when false e rest h = h refl
