-- ===== src/Hashing.antt =====
-- `CanonicalHashBuilder` of tools/msa-adjudication-workbench/public/protocol.js: the bytes whose
-- SHA-256 digest is a Merkle root. A text is the list of its UTF-8 bytes, so the length that the
-- code takes from `TextEncoder` is the length of the list.
pub mod Framing
use adg_lang.Common.{ℕ, Bool, true, false, Option, none, some, List, [], ◌∷◌, ◌++◌, length}
use adg_lang.Common.Decimal.{decimal}

abbrev pub Bytes : Type 0
Bytes = List ℕ

-- A value that the code adds: null or undefined, a boolean, or a value by its text `String(value)`.
pub data Field : Type 0 where
  absent : Field
  flag : Bool → Field
  text : Bytes → Field

abbrev pub flag_text : Bool → Bytes
flag_text true = b't' ∷ b'r' ∷ b'u' ∷ b'e' ∷ []
flag_text false = b'f' ∷ b'a' ∷ b'l' ∷ b's' ∷ b'e' ∷ []

-- What the field contributes: no text, or a text.
abbrev pub field_text : Field → Option Bytes
field_text absent = none
field_text (flag b) = some (flag_text b)
field_text (text t) = some t

unfoldable pub framed : Option Bytes → Bytes
framed none = b'-' ∷ b'1' ∷ b':' ∷ []
framed (some t) = decimal (length t) ++ b':' ∷ t

-- The part that `add` pushes.
unfoldable pub part : Field → Bytes
unfolding framed
part v = framed (field_text v)

-- `#parts.join("")`, after an `add` of each field in turn.
unfoldable pub joined_parts : List Field → Bytes
unfolding part
joined_parts [] = []
joined_parts (v ∷ vs) = part v ++ joined_parts vs
