-- ===== src/Js/Integers.antt =====
-- `Number.parseInt(text, 10)`: an integer, or none for NaN.
use Prim.Native.Char.{code}
use adg_lang.Common.{
  ℕ, zero, suc, ◌+◌, ◌-◌, ◌*◌, Bool, ◌&&◌, String, leb, ◌==◌, if◌then◌else◌, Option, none, some,
}
use adg_lang.Js.{ℤ, pos, negsuc}
use adg_lang.Protocol.Values.{trim}

abbrev is_digit : ℕ → Bool
is_digit c = leb 48 c && leb c 57

-- The digits at the front, after the number that was read before.
unfoldable pub digits_value : ℕ → String → ℕ
digits_value acc String.[] = acc
digits_value acc (String.◌∷◌ c s) =
    let more = digits_value (acc * 10 + (code c - 48)) s in if is_digit (code c) then more else acc

abbrev unsigned : String → Option ℕ
unsigned String.[] = none
unsigned (String.◌∷◌ c s) =
    if is_digit (code c) then some (digits_value 0 (String.◌∷◌ c s)) else none

-- Minus zero is 0.
abbrev negated : Option ℕ → Option ℤ
negated none = none
negated (some zero) = some (pos 0)
negated (some (suc n)) = some (negsuc n)

abbrev kept : Option ℕ → Option ℤ
kept none = none
kept (some n) = some (pos n)

abbrev signed : String → Option ℤ
signed String.[] = none
signed (String.◌∷◌ c s) =
    if code c == 45
    then negated (unsigned s)
    else if code c == 43
    then kept (unsigned s)
    else kept (unsigned (String.◌∷◌ c s))

unfoldable pub parse_int : String → Option ℤ
unfolding digits_value
parse_int s = signed (trim s)

abbrev pub max_safe : ℕ
max_safe = 9007199254740991

-- The value where it is `Number.isSafeInteger`.
abbrev pub safe_integer : Option ℤ → Option ℤ
safe_integer none = none
safe_integer (some (pos n)) = if leb n max_safe then some (pos n) else none
safe_integer (some (negsuc n)) = if leb (suc n) max_safe then some (negsuc n) else none
