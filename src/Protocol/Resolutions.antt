-- ===== src/Protocol/Resolutions.antt =====
-- `decisionNeedsResolution`, `tokenDecisionKey` and `validateAdjudicationResolutions` of
-- tools/msa-adjudication-workbench/public/protocol.js. The coverage of both annotations and of the
-- decision was checked before, so their sentences and tokens are arrays.
pub mod Unanimity
use adg_lang.Common.{
  Bool, not, ◌&&◌, ◌||◌, none, some, Result, ok, err, ◌>>◌, throw_if, List, [], ◌∷◌, String,
}
use adg_lang.Js.{Value, str, arr, nil, cons, get, strict_eq}
use adg_lang.Js.Text.{stringify}
use adg_lang.Consensus.Coverage.{array_items}
use adg_lang.Protocol.Values.{
  Refusal, resolution_uncovered, sentence_unresolved, token_unbound, token_unresolved, keyed,
  is_blank,
}

unfoldable pub decision_needs_resolution : Value → Value → Value → Bool
decision_needs_resolution annotation_a annotation_b final_decision =
    not (strict_eq annotation_a annotation_b)
    || (strict_eq annotation_a annotation_b && not (strict_eq final_decision annotation_a))

unfoldable pub token_decision_key : Value → String
token_decision_key token = stringify (
    arr (
      cons (get token "universalPartOfSpeech") (
        cons (get token "headTokenId") (
          cons (get token "dependencyRelation") (
            cons (get token "irabHeadTokenId")
              (cons (get token "irabCategory") (cons (get token "irabNotApplicable") nil)))))))

abbrev pub token_needs_resolution : Value → Value → Value → Bool
token_needs_resolution a b final =
    decision_needs_resolution (str (token_decision_key a)) (str (token_decision_key b))
      (str (token_decision_key final))

-- The loop over a final sentence's tokens.
unfoldable pub resolve_tokens :
    Value → List Value → List Value → List Value → Result Refusal (Unit {0})
resolve_tokens sentence a_tokens b_tokens [] = ok tt
resolve_tokens sentence a_tokens b_tokens (token ∷ tokens) =
    elim (keyed "tokenId" (get token "tokenId") a_tokens) [
      | none ↦ err (token_unbound (get token "tokenId"))
      | some token_a ↦ elim (keyed "tokenId" (get token "tokenId") b_tokens) [
        | none ↦ err (token_unbound (get token "tokenId"))
        | some token_b ↦ do
          throw_if
              (token_needs_resolution token_a token_b token
                && is_blank (get token "resolutionNote"))
              (token_unresolved (get token "tokenId") (get sentence "sentenceId"))
          resolve_tokens sentence a_tokens b_tokens tokens
      ]
    ]

abbrev pub sentence_needs_resolution : Value → Value → Value → Bool
sentence_needs_resolution a b final =
    decision_needs_resolution (get a "structurallyAcceptable") (get b "structurallyAcceptable")
      (get final "structurallyAcceptable")
    || decision_needs_resolution (get a "completePredicate") (get b "completePredicate")
        (get final "completePredicate")

-- The loop over the final sentences.
unfoldable pub resolve_sentences : List Value → List Value → List Value → Result Refusal (Unit {0})
resolve_sentences a_sentences b_sentences [] = ok tt
resolve_sentences a_sentences b_sentences (sentence ∷ sentences) =
    elim (keyed "sentenceId" (get sentence "sentenceId") a_sentences) [
      | none ↦ err resolution_uncovered
      | some a ↦ elim (keyed "sentenceId" (get sentence "sentenceId") b_sentences) [
        | none ↦ err resolution_uncovered
        | some b ↦ do
          throw_if
              (sentence_needs_resolution a b sentence && is_blank (get sentence "resolutionNote"))
              (sentence_unresolved (get sentence "sentenceId"))
          resolve_tokens sentence (array_items (get a "tokens")) (array_items (get b "tokens"))
              (array_items (get sentence "tokens"))
          resolve_sentences a_sentences b_sentences sentences
      ]
    ]

unfoldable pub validate_adjudication_resolutions : Value → Value → Value → Result Refusal (Unit {0})
validate_adjudication_resolutions annotation_a annotation_b decision =
    resolve_sentences (array_items (get annotation_a "sentences"))
      (array_items (get annotation_b "sentences")) (array_items (get decision "sentences"))
