-- ===== src/Protocol/Coverage.antt =====
-- `validateAnnotationCoverage` of tools/msa-adjudication-workbench/public/protocol.js. The packet
-- has been validated where it runs, so its sentences and their tokens are arrays.
use adg_lang.Common.{
  not, ◌||◌, none, some, Result, ok, err, ◌>>=◌, ◌>>◌, throw_if, List, [], ◌∷◌, map, length, ◌==◌,
  if◌then◌else◌,
}
use adg_lang.Js.{Value, get, is_array, truthy, is_integer}
use adg_lang.Consensus.Coverage.{array_items}
use adg_lang.Protocol.Values.{
  Refusal, coverage_incomplete, sentence_invalid, sentence_short, tokens_differ, keyed, has_value,
}

-- `new Set(values)`
unfoldable pub value_set : List Value → List Value
value_set [] = []
value_set (v ∷ vs) = let rest = value_set vs in if has_value v rest then rest else v ∷ rest

-- The loop over the submission's sentences, with the keys of `bySentence` so far.
unfoldable pub distinct_sentences : List Value → List Value → Result Refusal (Unit {0})
distinct_sentences [] keys = ok tt
distinct_sentences (sentence ∷ sentences) keys = do
  throw_if (not (truthy sentence) || has_value (get sentence "sentenceId") keys) sentence_invalid
  distinct_sentences sentences (get sentence "sentenceId" ∷ keys)

-- The loop over an annotated sentence's tokens, with the identifiers so far.
unfoldable pub cover_annotated_tokens :
    Value → List Value → List Value → List Value → Result Refusal (List Value)
cover_annotated_tokens source source_ids [] ids = ok ids
cover_annotated_tokens source source_ids (token ∷ tokens) ids = do
  throw_if
      (not (is_integer (get token "tokenId"))
        || has_value (get token "tokenId") ids
        || not (has_value (get token "tokenId") source_ids))
      (tokens_differ (get source "sentenceId"))
  cover_annotated_tokens source source_ids tokens (get token "tokenId" ∷ ids)

-- The set `sourceTokenIds`
abbrev pub source_token_ids : Value → List Value
source_token_ids source =
    value_set (map (λ token. get token "id") (array_items (get source "tokens")))

unfoldable pub cover_source_sentence : List Value → Value → Result Refusal (Unit {0})
cover_source_sentence annotated_sentences source =
    elim (keyed "sentenceId" (get source "sentenceId") annotated_sentences) [
      | none ↦ err (sentence_short (get source "sentenceId"))
      | some annotated ↦ do
        throw_if
            (not (is_array (get annotated "tokens"))
              || not (
                  length (array_items (get annotated "tokens"))
                  == length (array_items (get source "tokens"))))
            (sentence_short (get source "sentenceId"))
        ids ←
            cover_annotated_tokens source (source_token_ids source)
              (array_items (get annotated "tokens")) []
        throw_if (not (length ids == length (source_token_ids source)))
            (sentence_short (get source "sentenceId"))
    ]

-- The loop over the packet's sentences.
unfoldable pub cover_source : List Value → List Value → Result Refusal (Unit {0})
cover_source annotated_sentences [] = ok tt
cover_source annotated_sentences (source ∷ sources) = do
  cover_source_sentence annotated_sentences source
  cover_source annotated_sentences sources

unfoldable pub validate_annotation_coverage : Value → Value → Result Refusal (Unit {0})
validate_annotation_coverage packet submission = do
  throw_if
      (not (is_array (get submission "sentences"))
        || not (
            length (array_items (get submission "sentences"))
            == length (array_items (get packet "sentences"))))
      coverage_incomplete
  distinct_sentences (array_items (get submission "sentences")) []
  cover_source (array_items (get submission "sentences")) (array_items (get packet "sentences"))
