-- ===== src/Js/Case.antt =====
-- `toLowerCase` on texts that are then tested against patterns of ASCII.
use Prim.Native.Char.{Char, code}
use adg_lang.Common.{ℕ, zero, suc, ◌-◌, ◌&&◌, String, leb, if◌then◌else◌}

-- The character of the alphabet at the place, or the given one beyond its end.
abbrev letter_at : ℕ → String → Char → Char
letter_at n String.[] c = c
letter_at zero (String.◌∷◌ d s) c = d
letter_at (suc n) (String.◌∷◌ d s) c = letter_at n s c

abbrev lower_char : Char → Char
lower_char c =
    if leb 65 (code c) && leb (code c) 90
    then letter_at (code c - 65) "abcdefghijklmnopqrstuvwxyz" c
    else c

unfoldable pub to_lower_case : String → String
to_lower_case String.[] = ""
to_lower_case (String.◌∷◌ c s) = String.◌∷◌ (lower_char c) (to_lower_case s)
