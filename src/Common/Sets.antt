-- ===== src/Common/Sets.antt =====
-- Sets of texts as lists: their sizes and inclusions.
use Prim.Native.Nat.{◌≤◌, ◌<◌}
use Prim.Native.String.{String}
use mathlib.Core.Path.{◌≡◌}
use mathlib.Core.Bool.{true, false}
use mathlib.Core.List.{List, [], ◌∷◌}
use mathlib.Core.Logic.{inl, inr}
use native.Mathlib.Omega.{arith}
use text.Mathlib.Text.{◌==◌ as str_eq}
use text.Mathlib.TextEquality.{eq_iff}
use adg_lang.Common.Tests.{if◌then◌else◌, Bool-cases}
use adg_lang.Common.Lists.{length, has, AllDistinct}

-- Every member of the first is one of the second.
abbrev pub IsSubset : List String → List String → Type 0
IsSubset [] ys = Unit
IsSubset (x ∷ xs) ys = (has x ys ≡ true) × IsSubset xs ys

without : String → List String → List String
without k [] = []
without k (y ∷ ys) = let rest = without k ys in if str_eq k y then rest else y ∷ rest

length-without-le : (k : String) (ys : List String) → length (without k ys) ≤ length ys
unfolding without
length-without-le k [] = omega arith
length-without-le k (y ∷ ys) = ground (arith, length-without-le k ys)

length-without-lt :
    (k : String) (ys : List String) → has k ys ≡ true → length (without k ys) < length ys
unfolding without
length-without-lt k [] h = cc
length-without-lt k (y ∷ ys) h = ground (arith, length-without-le k ys, length-without-lt k ys)

has-without :
    (j k : String) (ys : List String)
    → str_eq j k ≡ false
    → has j ys ≡ true
    → has j (without k ys) ≡ true
unfolding without
has-without j k [] n h = cc
has-without j k (y ∷ ys) n h =
    ground (arith, has-without j k ys, eq_iff k y, eq_iff j y, eq_iff j k)

IsSubset-without :
    (k : String) (xs ys : List String)
    → has k xs ≡ false
    → IsSubset xs ys
    → IsSubset xs (without k ys)
IsSubset-without k [] ys n h = tt
IsSubset-without k (x ∷ xs) ys n h = (
  has-without x k ys (ground (arith, eq_iff x k, eq_iff k x)) h.0,
  IsSubset-without k xs ys (ground arith) h.1,
)

-- Distinct members of a set are at most as many as the set has.
pub length_le_of_IsSubset :
    (xs ys : List String) → AllDistinct xs → IsSubset xs ys → length xs ≤ length ys
length_le_of_IsSubset [] ys d h = omega arith
length_le_of_IsSubset (x ∷ xs) ys d h = omega (
  arith,
  length_le_of_IsSubset xs (without x ys) d.1 (IsSubset-without x xs ys d.0 h.1),
  length-without-lt x ys h.0,
)

-- A subset of distinct members that is as large as the set holds every member of it.
pub has_of_IsSubset-length :
    (k : String) (xs ys : List String)
    → AllDistinct xs
    → IsSubset xs ys
    → length xs ≡ length ys
    → has k ys ≡ true
    → has k xs ≡ true
has_of_IsSubset-length k xs ys d h e m = elim (Bool-cases (has k xs)) [
  | inl t ↦ t
  | inr f ↦ absurd (
      omega (
        arith,
        length_le_of_IsSubset xs (without k ys) d (IsSubset-without k xs ys f h),
        length-without-lt k ys m,
      ))
]

pub has_of_IsSubset :
    (k : String) (xs ys : List String) → IsSubset xs ys → has k xs ≡ true → has k ys ≡ true
has_of_IsSubset k [] ys h m = cc
has_of_IsSubset k (x ∷ xs) ys h m = ground (arith, eq_iff k x, has_of_IsSubset k xs ys h.1)

-- Two sets of the same size, one in the other, have the same members.
pub has_eq_of_IsSubset-length :
    (k : String) (xs ys : List String)
    → AllDistinct xs
    → IsSubset xs ys
    → length xs ≡ length ys
    → has k xs ≡ has k ys
has_eq_of_IsSubset-length k xs ys d h e =
    ground (arith, has_of_IsSubset k xs ys h, has_of_IsSubset-length k xs ys d h e)
