-- ===== src/Sql/Placeholders.antt =====
-- `replaceSqlitePlaceholders` and `placeholderForValue` of
-- tools/msa-adjudication-workbench/src/database.js: every `?` outside literals, quoted names and
-- comments becomes a numbered PostgreSQL placeholder. A text is the list of its code units.
pub mod Verbatim
pub mod Segments
use adg_lang.Common.{
  ℕ, zero, suc, ◌+◌, ◌-◌, Bool, false, ◌&&◌, Option, none, some, List, [], ◌∷◌, ◌++◌, ◌==◌,
  if◌then◌else◌,
}
use adg_lang.Common.Decimal.{decimal}

abbrev pub Text : Type 0
Text = List ℕ

-- A bound value, as far as `placeholderForValue` tells them apart: a bigint, a finite number that
-- is an integer or is none, and anything else, also a value that is missing.
pub data Param : Type 0 where
  bigint integer fraction other : Param

-- `$${index}`
dollar : ℕ → Text
dollar index = b'$' ∷ decimal index

abbrev cast_open : Text
cast_open = b'C' ∷ b'A' ∷ b'S' ∷ b'T' ∷ b'(' ∷ []

abbrev as_bigint : Text
as_bigint = b' ' ∷ b'A' ∷ b'S' ∷ b' ' ∷ b'B' ∷ b'I' ∷ b'G' ∷ b'I' ∷ b'N' ∷ b'T' ∷ b')' ∷ []

abbrev as_double : Text
as_double =
    b' ' ∷ b'A' ∷ b'S' ∷ b' ' ∷ b'D' ∷ b'O' ∷ b'U' ∷ b'B' ∷ b'L' ∷ b'E' ∷ b' ' ∷ b'P' ∷ b'R' ∷ b'E'
    ∷ b'C' ∷ b'I' ∷ b'S' ∷ b'I' ∷ b'O' ∷ b'N' ∷ b')' ∷ []

unfoldable pub placeholder_for_value : ℕ → Param → Text
unfolding dollar
placeholder_for_value index bigint = cast_open ++ dollar index ++ as_bigint
placeholder_for_value index integer = cast_open ++ dollar index ++ as_bigint
placeholder_for_value index fraction = cast_open ++ dollar index ++ as_double
placeholder_for_value index other = dollar index

-- `params[parameterIndex - 1]`
abbrev pub param_at : List Param → ℕ → Param
param_at [] i = other
param_at (p ∷ ps) zero = p
param_at (p ∷ ps) (suc i) = param_at ps i

pub data Mode : Type 0 where
  normal line_comment block_comment single_quote double_quote : Mode

-- One round of the loop: the current character is copied, it is copied with the next one, or it
-- is a placeholder. The mode is that of the next round.
pub data Move : Type 0 where
  copy : Mode → Move
  copy_two : Mode → Move
  hole : Move

-- `next === c`, where `next` is undefined behind the last character
abbrev pub is_next : Option ℕ → ℕ → Bool
is_next none c = false
is_next (some d) c = d == c

unfoldable pub round : Mode → ℕ → Option ℕ → Move
round line_comment c next = copy (if c == 10 then normal else line_comment)
round block_comment c next =
    if c == b'*' && is_next next b'/' then copy_two normal else copy block_comment
round single_quote c next =
    if c == 39 && is_next next 39
    then copy_two single_quote
    else copy (if c == 39 then normal else single_quote)
round double_quote c next =
    if c == 34 && is_next next 34
    then copy_two double_quote
    else copy (if c == 34 then normal else double_quote)
round normal c next =
    if c == b'-' && is_next next b'-'
    then copy_two line_comment
    else if c == b'/' && is_next next b'*'
    then copy_two block_comment
    else if c == 39
    then copy single_quote
    else if c == 34
    then copy double_quote
    else if c == b'?'
    then hole
    else copy normal

-- The loop, with the number of placeholders so far. What `place` gives is written for a
-- placeholder. `copy_two` comes only where there is a next character.
unfoldable pub replace_from : (ℕ → Text) → ℕ → Mode → Text → Text
replace_from place k m [] = []
replace_from place k m (c ∷ []) = elim (round m c none) [
  | copy _ ↦ c ∷ []
  | copy_two _ ↦ c ∷ []
  | hole ↦ place (k + 1)
]
replace_from place k m (c ∷ d ∷ s) = elim (round m c (some d)) [
  | copy m' ↦ c ∷ replace_from place k m' (d ∷ s)
  | copy_two m' ↦ c ∷ d ∷ replace_from place k m' s
  | hole ↦ place (k + 1) ++ replace_from place (k + 1) normal (d ∷ s)
]

unfoldable pub replace_sqlite_placeholders : Text → List Param → Text
unfolding replace_from round placeholder_for_value
replace_sqlite_placeholders sql params =
    replace_from (λ k. placeholder_for_value k (param_at params (k - 1))) 0 normal sql
