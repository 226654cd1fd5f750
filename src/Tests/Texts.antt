-- ===== src/Tests/Texts.antt =====
-- Hashed fields and statements.
use adg_lang.Common.{◌-◌, ◌≡◌, refl, arith, true, List, [], ◌∷◌, map}
use adg_lang.Common.Decimal.{decimal}
use adg_lang.Hashing.{absent, flag, text, field_text, joined_parts}
use adg_lang.Hashing.Framing.{joined_parts_injective}
use adg_lang.Sql.Placeholders.{
  integer, other, normal, replace_from, placeholder_for_value, param_at,
  replace_sqlite_placeholders,
}
use adg_lang.Sql.Placeholders.Verbatim.{replace_from_restores}
use adg_lang.Sql.Placeholders.Segments.{
  Segment, placeholder, quoted, single, print, numbered, replace_sqlite_placeholders-print,
}

-- `true` and the text "true" have the same bytes; the null before them has its own.
joined_parts_injective_example :
    map field_text (absent ∷ flag true ∷ [])
    ≡ map field_text (absent ∷ text (b't' ∷ b'r' ∷ b'u' ∷ b'e' ∷ []) ∷ [])
unfolding joined_parts decimal
joined_parts_injective_example =
    joined_parts_injective (absent ∷ flag true ∷ [])
      (absent ∷ text (b't' ∷ b'r' ∷ b'u' ∷ b'e' ∷ []) ∷ []) refl

-- ?'?'?
abbrev statement : List Segment
statement = placeholder ∷ quoted single (b'?' ∷ []) ∷ placeholder ∷ []

replaced_once :
    replace_sqlite_placeholders (print statement) (other ∷ integer ∷ [])
    ≡ b'$' ∷ b'1' ∷ 39 ∷ b'?' ∷ 39 ∷ b'C' ∷ b'A' ∷ b'S' ∷ b'T' ∷ b'(' ∷ b'$' ∷ b'2' ∷ b' ' ∷ b'A'
      ∷ b'S' ∷ b' ' ∷ b'B' ∷ b'I' ∷ b'G' ∷ b'I' ∷ b'N' ∷ b'T' ∷ b')' ∷ []
unfolding replace_sqlite_placeholders decimal
replaced_once = refl

replace_from_restores_example :
    replace_from (λ _. b'?' ∷ []) 0 normal (print statement) ≡ print statement
replace_from_restores_example = replace_from_restores 0 normal (print statement)

replace_sqlite_placeholders-print_example :
    replace_sqlite_placeholders (print statement) (other ∷ integer ∷ [])
    ≡ numbered (λ k. placeholder_for_value k (param_at (other ∷ integer ∷ []) (k - 1))) 0 statement
replace_sqlite_placeholders-print_example =
    replace_sqlite_placeholders-print statement (other ∷ integer ∷ []) (omega arith)
