-- ===== src/Js.antt =====
-- The values of the program: what `JSON.parse` gives, and `undefined`. Objects and arrays are
-- compared by reference in the source, and no two that it compares are the same reference.
pub mod Case
pub mod Integers
pub mod Search
pub mod Text
use Prim.Native.String
use adg_lang.Common.{
  ℕ, zero, Bool, true, false, not, ◌&&◌, List, [], ◌∷◌, String, str_eq, ◌==◌, if◌then◌else◌, Option,
  none, some,
}

-- `negsuc n` is -(n + 1).
pub data ℤ : Type 0 where
  pos : ℕ → ℤ
  negsuc : ℕ → ℤ

-- A finite number: an integer, or a number between the integer `floor` and the next one, with the
-- text that the language prints for it. Two numbers with the same text are the same.
pub data Number : Type 0 where
  whole : ℤ → Number
  fraction : (floor : ℤ) → String → Number

mutual
  pub data Value : Type 0 where
    undefined null : Value
    bool : Bool → Value
    num : Number → Value
    str : String → Value
    arr : Items → Value
    obj : Props → Value

  pub data Items : Type 0 where
    nil : Items
    cons : Value → Items → Items

  pub data Props : Type 0 where
    end : Props
    prop : String → Value → Props → Props

abbrev pub items : Items → List Value
items nil = []
items (cons v vs) = v ∷ items vs

abbrev pub array : List Value → Items
array [] = nil
array (v ∷ vs) = cons v (array vs)

abbrev pub prop_value : String → Props → Value
prop_value k end = undefined
prop_value k (prop j v ps) = if str_eq k j then v else prop_value k ps

-- `v?.k`, and `v.k` where `v` is known to be an object. The source reads no field of an array or
-- a text but `length`.
abbrev pub get : Value → String → Value
get (obj ps) k = prop_value k ps
get v k = undefined

abbrev pub is_array : Value → Bool
is_array (arr vs) = true
is_array v = false

abbrev characters : String → List Value
characters String.[] = []
characters (String.◌∷◌ c s) = str (String.◌∷◌ c String.[]) ∷ characters s

-- `for (const x of v)`: the elements of an array, the characters of a text, or an error.
abbrev pub elements : Value → Option (List Value)
elements (arr vs) = some (items vs)
elements (str s) = some (characters s)
elements v = none

-- `Boolean(v)`
abbrev pub truthy : Value → Bool
truthy undefined = false
truthy null = false
truthy (bool b) = b
truthy (num (whole (pos zero))) = false
truthy (num n) = true
truthy (str s) = not (str_eq s "")
truthy (arr vs) = true
truthy (obj ps) = true

-- `Number.isInteger(v)`
abbrev pub is_integer : Value → Bool
is_integer (num (whole z)) = true
is_integer v = false

abbrev pub same_ℤ : ℤ → ℤ → Bool
same_ℤ (pos m) (pos n) = m == n
same_ℤ (negsuc m) (negsuc n) = m == n
same_ℤ a b = false

-- `a === b`
abbrev pub strict_eq : Value → Value → Bool
strict_eq undefined undefined = true
strict_eq null null = true
strict_eq (bool true) (bool b) = b
strict_eq (bool false) (bool b) = not b
strict_eq (num (whole a)) (num (whole b)) = same_ℤ a b
strict_eq (num (fraction f s)) (num (fraction g t)) = same_ℤ f g && str_eq s t
strict_eq (str s) (str t) = str_eq s t
strict_eq a b = false

abbrev pub is_text : Value → String → Bool
is_text v s = strict_eq v (str s)

-- `v === null || v === undefined`; reading a field of such a value throws.
abbrev pub is_nullish : Value → Bool
is_nullish undefined = true
is_nullish null = true
is_nullish v = false
