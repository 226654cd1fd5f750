-- ===== src/Consensus/Coverage.antt =====
-- `annotationCoverage` and `assertComparableCoverage` of
-- tools/msa-adjudication-workbench/src/consensus.js. An annotation is any value.
pub mod Keys
use Prim.Native.String.{◌++◌}
use adg_lang.Common.{
  Bool, not, ◌||◌, Result, ok, err, ◌>>=◌, ◌>>◌, throw_if, List, [], ◌∷◌, String, ◌==◌, any, has,
  length,
}
use adg_lang.Js.{Value, get, items, is_array, arr, truthy, is_integer}
use adg_lang.Js.Text.{to_text}
use adg_lang.Consensus.Failure.{
  Failure, sentences_missing, sentence_ids, tokens_missing, token_ids, coverage_differs,
}

-- The elements of a value that is an array.
abbrev pub array_items : Value → List Value
array_items (arr vs) = items vs
array_items v = []

unfoldable pub sentence_key : Value → String
sentence_key sentence = "sentence:" ++ to_text (get sentence "sentenceId")

unfoldable pub token_key : Value → Value → String
token_key sentence token =
    "token:" ++ (to_text (get sentence "sentenceId") ++ (":" ++ to_text (get token "tokenId")))

-- The loop over a sentence's tokens, with the keys so far, newest first.
unfoldable pub cover_tokens : Value → List Value → List String → Result Failure (List String)
cover_tokens sentence [] keys = ok keys
cover_tokens sentence (token ∷ tokens) keys = do
  throw_if (not (is_integer (get token "tokenId")) || has (token_key sentence token) keys) token_ids
  cover_tokens sentence tokens (token_key sentence token ∷ keys)

-- The loop over the sentences.
unfoldable pub cover_sentences : List Value → List String → Result Failure (List String)
cover_sentences [] keys = ok keys
cover_sentences (sentence ∷ sentences) keys = do
  throw_if (not (truthy (get sentence "sentenceId")) || has (sentence_key sentence) keys)
      sentence_ids
  throw_if (not (is_array (get sentence "tokens"))) tokens_missing
  keys' ← cover_tokens sentence (array_items (get sentence "tokens")) (sentence_key sentence ∷ keys)
  cover_sentences sentences keys'

unfoldable pub annotation_coverage : Value → Result Failure (List String)
annotation_coverage annotation = do
  throw_if (not (is_array (get annotation "sentences"))) sentences_missing
  cover_sentences (array_items (get annotation "sentences")) []

unfoldable pub assert_comparable_coverage : Value → Value → Result Failure (Unit {0})
assert_comparable_coverage annotation_a annotation_b = do
  left ← annotation_coverage annotation_a
  right ← annotation_coverage annotation_b
  throw_if (not (length left == length right) || any (λ key. not (has key right)) left)
      coverage_differs
