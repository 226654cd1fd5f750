-- ===== src/Consensus/Decisions.antt =====
-- `decisionMap` and `countNovelPrimaryDecisions` of
-- tools/msa-adjudication-workbench/src/consensus.js. A `Map` is the list of its entries in the
-- order of insertion.
pub mod Novelty
use Prim.Native.String.{◌++◌}
use adg_lang.Common.{
  ℕ, ◌+◌, Bool, true, false, not, ◌&&◌, ◌||◌, Option, none, some, is_some, Result, ok, err, ◌>>=◌,
  ◌>>◌, throw_if, List, [], ◌∷◌, ◌++◌ as append, String, str_eq, ◌==◌, length, if◌then◌else◌,
}
use adg_lang.Js.{Value, get, elements, undefined, null, is_nullish}
use adg_lang.Js.Text.{to_text, stringify}
use adg_lang.Consensus.Failure.{
  Failure, type_error, decision_coverage, unit_not_bound, unit_duplicated,
}

abbrev pub Entries : Type 0
Entries = List (String × String)

abbrev pub lookup : String → Entries → Option String
lookup k [] = none
lookup k ((j, v) ∷ es) = if str_eq k j then some v else lookup k es

unfoldable pub canonical_value : Value → String
canonical_value v = if is_nullish v then "null" else stringify v

unfoldable pub set_unique_decision_value : Entries → String → String → Result Failure Entries
set_unique_decision_value values key value =
    if is_some (lookup key values)
    then err (unit_duplicated key)
    else ok (append values ((key, value) ∷ []))

-- `for (const x of v)`, where a value that cannot be iterated throws.
unfoldable pub iterate : Value → Result Failure (List Value)
iterate v = elim (elements v) [ none ↦ err type_error | some vs ↦ ok vs ]

abbrev pub decision_fields : List String
decision_fields =
    "universalPartOfSpeech" ∷ "headTokenId" ∷ "dependencyRelation" ∷ "irabHeadTokenId"
    ∷ "irabCategory" ∷ "irabNotApplicable" ∷ []

-- The loop over a token's fields.
unfoldable pub record_fields : String → Value → List String → Entries → Result Failure Entries
record_fields prefix token [] values = ok values
record_fields prefix token (field ∷ fields) values = do
  values' ←
      set_unique_decision_value values (prefix ++ (":" ++ field))
        (canonical_value (get token field))
  record_fields prefix token fields values'

unfoldable pub record_tokens : Value → List Value → Entries → Result Failure Entries
record_tokens sentence [] values = ok values
record_tokens sentence (token ∷ tokens) values = do
  throw_if (is_nullish token) type_error
  values' ←
      record_fields (to_text (get sentence "sentenceId") ++ (":" ++ to_text (get token "tokenId")))
        token decision_fields values
  record_tokens sentence tokens values'

unfoldable pub record_sentences : List Value → Entries → Result Failure Entries
record_sentences [] values = ok values
record_sentences (sentence ∷ sentences) values = do
  throw_if (is_nullish sentence) type_error
  v₁ ←
      set_unique_decision_value values
        (to_text (get sentence "sentenceId") ++ ":structurallyAcceptable")
        (canonical_value (get sentence "structurallyAcceptable"))
  v₂ ←
      set_unique_decision_value v₁ (to_text (get sentence "sentenceId") ++ ":completePredicate")
        (canonical_value (get sentence "completePredicate"))
  tokens ← iterate (get sentence "tokens")
  v₃ ← record_tokens sentence tokens v₂
  record_sentences sentences v₃

unfoldable pub decision_map : Value → Result Failure Entries
decision_map annotation = do
  sentences ← iterate (get annotation "sentences")
  record_sentences sentences []

-- `value !== map.get(key)`, for a key that the map has
abbrev pub differs : Entries → String → String → Bool
differs es key value = elim (lookup key es) [ none ↦ true | some v ↦ not (str_eq value v) ]

abbrev pub is_novel : Entries → Entries → String × String → Bool
is_novel a b (key, value) = differs a key value && differs b key value

-- The loop over the entries of the final decision.
unfoldable pub count_novel_from : Entries → Entries → Entries → ℕ → Result Failure ℕ
count_novel_from a b [] count = ok count
count_novel_from a b ((key, value) ∷ final) count = do
  throw_if (not (is_some (lookup key a)) || not (is_some (lookup key b))) (unit_not_bound key)
  count_novel_from a b final (if is_novel a b (key, value) then count + 1 else count)

unfoldable pub count_novel_primary_decisions : Value → Value → Value → Result Failure ℕ
count_novel_primary_decisions annotation_a annotation_b final_decision = do
  a ← decision_map annotation_a
  b ← decision_map annotation_b
  final ← decision_map final_decision
  count ← count_novel_from a b final 0
  throw_if (not (length final == length a) || not (length final == length b)) decision_coverage
  ok count
