-- ===== src/Common/Decimal.antt =====
-- The decimal digits of a number as a template literal prints them, as ASCII codes, and their
-- reading.
use Prim.Native.Nat.{ℕ, zero, suc, ◌+◌, ◌-◌, ◌*◌, ◌/◌, ◌%◌, ◌≤◌}
use mathlib.Core.Path.{◌≡◌, refl, ◌∙◌}
use mathlib.Core.Logic.{inl, inr}
use mathlib.Core.Bool.{Bool, false, ◌&&◌}
use mathlib.Core.List.{List, [], ◌∷◌, ◌++◌}
use native.Mathlib.Omega.{arith}
use adg_lang.Common.Tests.{leb, ◌==◌, if◌then◌else◌, Bool-cases}

-- The digits of `n` before `out`, none at 0; the fuel `n` is enough, since a round divides by 10.
digits : ℕ → ℕ → List ℕ → List ℕ
digits zero n out = out
digits (suc fuel) n out =
    let more = digits fuel (n / 10) ((b'0' + n % 10) ∷ out) in if n == 0 then out else more

-- `${n}`
unfoldable pub decimal : ℕ → List ℕ
unfolding digits
decimal n = if n == 0 then b'0' ∷ [] else digits n n []

abbrev pub is_digit : ℕ → Bool
is_digit c = leb b'0' c && leb c b'9'

-- Reads digits as long as there are any: the number, and the rest.
unfoldable pub read_from : ℕ → List ℕ → ℕ × List ℕ
read_from acc [] = (acc, [])
read_from acc (c ∷ s) =
    let more = read_from (acc * 10 + (c - b'0')) s in if is_digit c then more else (acc, c ∷ s)

abbrev pub StartsNoDigit : List ℕ → Type 0
StartsNoDigit [] = Unit
StartsNoDigit (c ∷ s) = is_digit c ≡ false

read_from_stop : (acc : ℕ) (s : List ℕ) → StartsNoDigit s → read_from acc s ≡ (acc, s)
unfolding read_from
read_from_stop acc [] h = refl
read_from_stop acc (c ∷ s) h = rw h

read_last : (n : ℕ) (out : List ℕ) → read_from (n / 10) ((b'0' + n % 10) ∷ out) ≡ read_from n out
unfolding read_from
read_last n out = ground arith

read-digits :
    (fuel n : ℕ) (out : List ℕ) → n ≤ fuel → read_from 0 (digits fuel n out) ≡ read_from n out
unfolding digits
read-digits zero n out h = ground arith
read-digits (suc fuel) n out h =
    ground (arith, read-digits fuel (n / 10) ((b'0' + n % 10) ∷ out), read_last n out)

digits-append :
    (fuel n : ℕ) (out rest : List ℕ) → digits fuel n out ++ rest ≡ digits fuel n (out ++ rest)
unfolding digits
digits-append zero n out rest = refl
digits-append (suc fuel) n out rest =
    ground (arith, digits-append fuel (n / 10) ((b'0' + n % 10) ∷ out) rest)

-- The printed digits are read back, up to the first character that is no digit.
pub read-decimal :
    (n : ℕ) (rest : List ℕ) → StartsNoDigit rest → read_from 0 (decimal n ++ rest) ≡ (n, rest)
unfolding decimal read_from
read-decimal n rest h = elim (Bool-cases (n == 0)) [
  | inl z ↦ let e : n ≡ 0 = ground arith in rw e (read_from_stop 0 rest h)
  | inr nz ↦ rw (nz, digits-append) (read-digits n n rest (omega arith) ∙ read_from_stop n rest h)
]
