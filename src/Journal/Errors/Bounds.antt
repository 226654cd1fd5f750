-- ===== src/Journal/Errors/Bounds.antt =====
-- The length of the error messages that the journal keeps.
use Prim.Native.Char.{Char, code}
use adg_lang.Common.{
  ℕ, zero, suc, ◌+◌, ◌≤◌, ◌≡◌, refl, sym, ap, true, false, String, str_eq, ltb, Bool-cases, inl,
  inr, arith,
}
use adg_lang.Protocol.Values.{unit_length}
use adg_lang.Journal.Errors.{first_units, bound_error_message, or_text}

one_unit :
    (c : Char) (s : String)
    → ltb (code c) 65536 ≡ true
    → unit_length (String.◌∷◌ c s) ≡ 1 + unit_length s
unfolding unit_length
one_unit c s t = rw t refl

two_units :
    (c : Char) (s : String)
    → ltb (code c) 65536 ≡ false
    → unit_length (String.◌∷◌ c s) ≡ 2 + unit_length s
unfolding unit_length
two_units c s f = rw f refl

no_units : (s : String) → unit_length s ≤ 0 → s ≡ ""
unfolding unit_length
no_units String.[] h = refl
no_units (String.◌∷◌ c s) h = elim (Bool-cases (ltb (code c) 65536)) [
  | inl t ↦ absurd (omega (arith, one_unit c s t))
  | inr f ↦ absurd (omega (arith, two_units c s f))
]

first_units-le : (n : ℕ) (s : String) → unit_length (first_units n s) ≤ n
unfolding first_units unit_length
first_units-le zero s = omega arith
first_units-le (suc n) String.[] = omega arith
first_units-le (suc zero) (String.◌∷◌ c s) = elim (Bool-cases (ltb (code c) 65536)) [
  | inl t ↦ rw t (omega (arith, one_unit c "" t))
  | inr f ↦ rw f (omega arith)
]
first_units-le (suc (suc n)) (String.◌∷◌ c s) = elim (Bool-cases (ltb (code c) 65536)) [
  | inl t ↦ rw t (omega (arith, one_unit c (first_units (suc n) s) t, first_units-le (suc n) s))
  | inr f ↦ rw f (omega (arith, two_units c (first_units n s) f, first_units-le n s))
]

first_units-all : (n : ℕ) (s : String) → unit_length s ≤ n → first_units n s ≡ s
unfolding first_units
first_units-all zero s h = sym (no_units s h)
first_units-all (suc n) String.[] h = refl
first_units-all (suc zero) (String.◌∷◌ c s) h = elim (Bool-cases (ltb (code c) 65536)) [
  | inl t ↦ rw t (ap (λ r. String.◌∷◌ c r) (sym (no_units s (omega (arith, one_unit c s t)))))
  | inr f ↦ absurd (omega (arith, two_units c s f))
]
first_units-all (suc (suc n)) (String.◌∷◌ c s) h = elim (Bool-cases (ltb (code c) 65536)) [
  | inl t ↦
      rw t (ap (λ r. String.◌∷◌ c r) (first_units-all (suc n) s (omega (arith, one_unit c s t))))
  | inr f ↦ rw f (ap (λ r. String.◌∷◌ c r) (first_units-all n s (omega (arith, two_units c s f))))
]

-- A message that the journal keeps has at most 400 UTF-16 units, and one that is not empty and no
-- longer than that is kept as it is.
pub bound_error_message-le :
    (message : String)
    → (unit_length (bound_error_message message) ≤ 400)
      × (str_eq message "" ≡ false
          → unit_length message ≤ 400
          → bound_error_message message ≡ message)
unfolding bound_error_message
bound_error_message-le message = (
  first_units-le 400 (or_text message "Recovery operation failed."),
  λ n h. rw n (first_units-all 400 message h),
)
