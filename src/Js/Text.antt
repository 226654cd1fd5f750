-- ===== src/Js/Text.antt =====
-- The texts that the language makes of values: `String(v)`, as in a template literal, and
-- `JSON.stringify(v)`.
use Prim.Native.Char.{Char, code}
use Prim.Native.String.{◌++◌}
use adg_lang.Common.{
  ℕ, suc, ◌-◌, ◌/◌, ◌%◌, Bool, true, false, List, String, ltb, ◌==◌, if◌then◌else◌,
}
use adg_lang.Common.Decimal.{decimal}
use adg_lang.Js.{
  pos, negsuc, Number, whole, fraction, Value, undefined, null, bool, num, str, arr, obj, Items,
  nil, cons, Props, end, prop,
}

-- One hexadecimal digit, as its text.
abbrev digit_text : ℕ → String
digit_text d =
    if d == 0
    then "0"
    else if d == 1
    then "1"
    else if d == 2
    then "2"
    else if d == 3
    then "3"
    else if d == 4
    then "4"
    else if d == 5
    then "5"
    else if d == 6
    then "6"
    else if d == 7
    then "7"
    else if d == 8
    then "8"
    else if d == 9
    then "9"
    else if d == 10
    then "a"
    else if d == 11
    then "b"
    else if d == 12
    then "c"
    else if d == 13
    then "d"
    else if d == 14
    then "e"
    else "f"

digit_texts : List ℕ → String
digit_texts List.[] = ""
digit_texts (List.◌∷◌ c s) = digit_text (c - b'0') ++ digit_texts s

unfoldable pub show_ℕ : ℕ → String
unfolding digit_texts decimal
show_ℕ n = digit_texts (decimal n)

unfoldable pub show_number : Number → String
unfolding show_ℕ
show_number (whole (pos n)) = show_ℕ n
show_number (whole (negsuc n)) = "-" ++ show_ℕ (suc n)
show_number (fraction f s) = s

abbrev show_bool : Bool → String
show_bool true = "true"
show_bool false = "false"

-- `String(v)`. In a joined array null and undefined are empty.
unfoldable mutual
  pub to_text : Value → String
  to_text undefined = "undefined"
  to_text null = "null"
  to_text (bool b) = show_bool b
  to_text (num n) = show_number n
  to_text (str s) = s
  to_text (arr nil) = ""
  to_text (arr (cons v vs)) = element_text v ++ join_text vs
  to_text (obj ps) = "[object Object]"

  pub element_text : Value → String
  element_text undefined = ""
  element_text null = ""
  element_text (bool b) = show_bool b
  element_text (num n) = show_number n
  element_text (str s) = s
  element_text (arr nil) = ""
  element_text (arr (cons v vs)) = element_text v ++ join_text vs
  element_text (obj ps) = "[object Object]"

  pub join_text : Items → String
  join_text nil = ""
  join_text (cons v vs) = "," ++ element_text v ++ join_text vs

-- One character of a quoted text.
escape_char : Char → String
escape_char c =
    if code c == 34
    then "\\\""
    else if code c == 92
    then "\\\\"
    else if code c == 8
    then "\\b"
    else if code c == 9
    then "\\t"
    else if code c == 10
    then "\\n"
    else if code c == 12
    then "\\f"
    else if code c == 13
    then "\\r"
    else if ltb (code c) 32
    then "\\u00" ++ digit_text (code c / 16) ++ digit_text (code c % 16)
    else String.◌∷◌ c String.[]

escaped : String → String
unfolding escape_char
escaped String.[] = ""
escaped (String.◌∷◌ c s) = escape_char c ++ escaped s

unfoldable pub quoted : String → String
unfolding escaped
quoted s = "\"" ++ escaped s ++ "\""

abbrev later_texts : List String → String
later_texts List.[] = ""
later_texts (List.◌∷◌ s ss) = "," ++ s ++ later_texts ss

-- `texts.join(",")`
abbrev comma_text : List String → String
comma_text List.[] = ""
comma_text (List.◌∷◌ s ss) = s ++ later_texts ss

abbrev is_undefined : Value → Bool
is_undefined undefined = true
is_undefined v = false

-- `JSON.stringify(v)` for a value other than undefined. Undefined is written null in an array,
-- and left out of an object.
unfoldable mutual
  pub stringify : Value → String
  stringify undefined = "null"
  stringify null = "null"
  stringify (bool b) = show_bool b
  stringify (num n) = show_number n
  stringify (str s) = quoted s
  stringify (arr vs) = "[" ++ comma_text (element_texts vs) ++ "]"
  stringify (obj ps) = "{" ++ comma_text (member_texts ps) ++ "}"

  pub element_texts : Items → List String
  element_texts nil = List.[]
  element_texts (cons v vs) = List.◌∷◌ (stringify v) (element_texts vs)

  pub member_texts : Props → List String
  member_texts end = List.[]
  member_texts (prop k v ps) =
      if is_undefined v
      then member_texts ps
      else List.◌∷◌ (quoted k ++ ":" ++ stringify v) (member_texts ps)
