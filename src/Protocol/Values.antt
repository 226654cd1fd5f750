-- ===== src/Protocol/Values.antt =====
-- What tools/msa-adjudication-workbench/public/protocol.js throws, its schemas, and the tests on
-- values and texts that its functions share.
use Prim.Native.Char.{code}
use adg_lang.Common.{
  ℕ, zero, suc, ◌+◌, Bool, true, false, not, ◌&&◌, ◌||◌, Option, none, some, List, [], ◌∷◌, String,
  str_eq, ltb, leb, ◌==◌, any, if◌then◌else◌,
}
use adg_lang.Js.{
  pos, negsuc, Number, whole, fraction, Value, num, str, get, is_nullish, strict_eq, truthy,
}
use adg_lang.Js.Text.{to_text}

-- The errors, each for one message; the value is the one that the message names.
pub data Refusal : Type 0 where
  schema_unsupported identity_incomplete metric_policy_invalid predictions_exposed : Refusal
  corpus_excluded evidence_forbidden sentences_missing sentence_incomplete : Refusal
  sentence_repeated tokens_misnumbered : Value → Refusal
  annotation_unbound packet_changed coverage_incomplete sentence_invalid : Refusal
  sentence_short tokens_differ sentence_unresolved token_unbound : Value → Refusal
  token_unresolved : Value → Value → Refusal
  adjudication_unbound roles_dependent resolution_uncovered packet_root_wrong : Refusal
  primary_invalid ratification_unbound text_unsafe type_error : Refusal

abbrev pub packet_schema : String
packet_schema = "adg-msa-adjudication-packet-v3"

abbrev pub annotation_schema : String
annotation_schema = "adg-msa-annotation-submission-v3"

abbrev pub adjudication_schema : String
adjudication_schema = "adg-msa-adjudication-decision-v3"

abbrev pub ratification_schema : String
ratification_schema = "adg-msa-ratification-decision-v1"

-- `v ?? null`
abbrev pub or_null : Value → Value
or_null v = if is_nullish v then Value.null else v

-- `set.has(v)`, and `map.has(v)` for the list of the map's keys
abbrev pub has_value : Value → List Value → Bool
has_value v = any (strict_eq v)

-- `a.k !== b.k`
abbrev pub differ : String → Value → Value → Bool
differ k a b = not (strict_eq (get a k) (get b k))

-- `new Map(values.map(v => [v[key], v])).get(id)`: the last of equal keys counts.
unfoldable pub keyed : String → Value → List Value → Option Value
keyed key id [] = none
keyed key id (v ∷ vs) =
    let rest = keyed key id vs in
    elim rest [ some w ↦ some w | none ↦ if strict_eq (get v key) id then some v else none ]

abbrev below_zero : Number → Bool
below_zero (whole (negsuc n)) = true
below_zero (fraction (negsuc n) s) = true
below_zero x = false

abbrev above_one : Number → Bool
above_one (whole (pos n)) = ltb 1 n
above_one (fraction (pos n) s) = leb 1 n
above_one x = false

abbrev below_minus_one : Number → Bool
below_minus_one (whole (negsuc n)) = leb 1 n
below_minus_one (fraction (negsuc n) s) = leb 1 n
below_minus_one x = false

-- `typeof v !== "number" || v < 0 || v > 1`
abbrev pub outside_zero_one : Value → Bool
outside_zero_one (num x) = below_zero x || above_one x
outside_zero_one v = true

-- `typeof v !== "number" || v < -1 || v > 1`
abbrev pub outside_minus_one_one : Value → Bool
outside_minus_one_one (num x) = below_minus_one x || above_one x
outside_minus_one_one v = true

-- `Number.isInteger(v) && v >= 1`
abbrev pub is_positive_integer : Value → Bool
is_positive_integer (num (whole (pos (suc n)))) = true
is_positive_integer v = false

abbrev between : ℕ → ℕ → ℕ → Bool
between lo c hi = leb lo c && leb c hi

abbrev is_alphanumeric : ℕ → Bool
is_alphanumeric c = between 65 c 90 || between 97 c 122 || between 48 c 57

abbrev is_identifier_code : ℕ → Bool
is_identifier_code c = is_alphanumeric c || c == b'.' || c == b'_' || c == b':' || c == b'-'

-- At most the given number of characters, all of them admitted.
rest_admitted : ℕ → String → Bool
rest_admitted n String.[] = true
rest_admitted zero (String.◌∷◌ c s) = false
rest_admitted (suc n) (String.◌∷◌ c s) = is_identifier_code (code c) && rest_admitted n s

-- The pattern of `identifier`: one letter or digit, then up to 159 characters.
unfoldable pub is_identifier_text : String → Bool
unfolding rest_admitted
is_identifier_text String.[] = false
is_identifier_text (String.◌∷◌ c s) = is_alphanumeric (code c) && rest_admitted 159 s

abbrev pub identifier : Value → Bool
identifier (str s) = is_identifier_text s
identifier v = false

-- The white space and line ends that `trim` takes off.
abbrev is_space : ℕ → Bool
is_space c =
    between 9 c 13
    || c == 32
    || c == 160
    || c == 5760
    || between 8192 c 8202
    || between 8232 c 8233
    || c == 8239
    || c == 8287
    || c == 12288
    || c == 65279

trim_start : String → String
trim_start String.[] = ""
trim_start (String.◌∷◌ c s) =
    let rest = trim_start s in if is_space (code c) then rest else String.◌∷◌ c s

trim_end : String → String
trim_end String.[] = ""
trim_end (String.◌∷◌ c s) =
    let rest = trim_end s in if is_space (code c) && str_eq rest "" then "" else String.◌∷◌ c rest

unfoldable pub trim : String → String
unfolding trim_start trim_end
trim s = trim_end (trim_start s)

-- `s.length`, in UTF-16 units.
unfoldable pub unit_length : String → ℕ
unit_length String.[] = 0
unit_length (String.◌∷◌ c s) = (if ltb (code c) 65536 then 1 else 2) + unit_length s

-- `!String(v || "").trim()`
unfoldable pub is_blank : Value → Bool
unfolding trim
is_blank v = str_eq (trim (if truthy v then to_text v else "")) ""
