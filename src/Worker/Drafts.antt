-- ===== src/Worker/Drafts.antt =====
-- `calculateDraftProgress`, `hasDraftValue` and `isUuid` of tools/msa-adjudication-workbench/src/index.js.
-- The draft is an object whose `fields`, where they are not missing, are an array of objects.
-- `percentage` stands for `Math.round(completed / total * 100)` in floating point numbers.
pub mod Counts
use Prim.Native.Char.{code}
use Prim.Native.String
use adg_lang.Common.{
  ℕ, ◌+◌, Bool, true, false, not, ◌&&◌, ◌||◌, Option, none, some, List, [], ◌∷◌, ◌++◌, String,
  str_eq, find, any, leb, ◌==◌, if◌then◌else◌,
}
use adg_lang.Js.{Value, undefined, str, get, is_text, is_nullish, truthy}
use adg_lang.Js.Text.{to_text}
use adg_lang.Consensus.Coverage.{array_items}
use adg_lang.Protocol.Values.{trim, unit_length}

unfoldable pub has_draft_value : Value → Bool
has_draft_value v = not (is_nullish v) && not (str_eq (trim (to_text v)) "")

-- Total and completed.
abbrev pub Counts : Type 0
Counts = ℕ × ℕ

-- The loop over the values of a sentence or a token.
unfoldable pub count_values : List Value → Counts → Counts
count_values [] counts = counts
count_values (v ∷ vs) (total, completed) =
    count_values vs (total + 1, if has_draft_value v then completed + 1 else completed)

abbrev pub token_values : Value → List Value
token_values token =
    (get token "upos" ∷ get token "head" ∷ get token "relation" ∷ get token "irabCategory" ∷ [])
    ++ (if is_text (get token "irabCategory") "_" then [] else get token "irabHead" ∷ [])

unfoldable pub count_tokens : List Value → Counts → Counts
count_tokens [] counts = counts
count_tokens (token ∷ tokens) counts =
    count_tokens tokens (count_values (token_values token) counts)

unfoldable pub count_sentences : List Value → Counts → Counts
count_sentences [] counts = counts
count_sentences (s ∷ ss) counts = count_sentences ss (
    count_tokens (array_items (get s "tokens"))
      (count_values (get s "structural" ∷ get s "predicate" ∷ []) counts))

pub record Progress : Type 0 where
  pub completed : ℕ
  pub total : ℕ
  pub percentage : ℕ

abbrev pub one_if : Bool → ℕ
one_if true = 1
one_if false = 0

-- The first field of the kind 'ratification', or an empty object.
abbrev pub ratification_field : List Value → Value
ratification_field [] = undefined
ratification_field (v ∷ vs) =
    let rest = ratification_field vs in if is_text (get v "kind") "ratification" then v else rest

abbrev pub is_verdict : Value → Bool
is_verdict v = is_text v "agree" || is_text v "disagree" || is_text v "recuse"

abbrev pub is_reasoned : Value → Bool
is_reasoned v = leb 20 (unit_length (trim (if truthy v then to_text v else "")))

abbrev within : ℕ → ℕ → ℕ → Bool
within lo c hi = leb lo c && leb c hi

abbrev is_hex : ℕ → Bool
is_hex c = within 48 c 57 || within 97 c 102 || within 65 c 70

-- One character of the pattern: `h` is a hexadecimal digit and `v` one of 8, 9, a and b.
abbrev fits : ℕ → ℕ → Bool
fits p c =
    if p == b'h'
    then is_hex c
    else if p == b'v'
    then c == b'8' || c == b'9' || c == b'a' || c == b'b' || c == b'A' || c == b'B'
    else c == p

unfoldable pub matches : String → String → Bool
matches String.[] String.[] = true
matches (String.◌∷◌ p ps) (String.◌∷◌ c s) = fits (code p) (code c) && matches ps s
matches ps s = false

unfoldable pub is_uuid : Value → Bool
unfolding matches
is_uuid (str s) = matches "hhhhhhhh-hhhh-4hhh-vhhh-hhhhhhhhhhhh" s
is_uuid v = false

module _ (percentage : ℕ → ℕ → ℕ) where
  unfoldable pub ratification_progress : List Value → Progress
  ratification_progress fields =
      let value = ratification_field fields in
      let completed =
        one_if (is_uuid (get value "primaryReceiptId"))
        + one_if (is_verdict (get value "decision"))
        + one_if (is_reasoned (get value "rationale")) in
      record { completed = completed; total = 3; percentage = percentage completed 3 }

  unfoldable pub annotation_progress : List Value → Progress
  annotation_progress fields =
      let (total, completed) = count_sentences fields (0, 0) in
      record {
        completed = completed;
        total = total;
        percentage = if total == 0 then 0 else percentage completed total;
      }

  unfoldable pub calculate_draft_progress : Value → Progress
  calculate_draft_progress draft =
      let fields = array_items (get draft "fields") in
      if is_text (get draft "role") "ratification"
      then ratification_progress fields
      else annotation_progress fields
