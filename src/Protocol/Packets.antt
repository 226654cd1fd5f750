-- ===== src/Protocol/Packets.antt =====
-- `validatePacket`, `containsForbiddenEvidence`, `collectPublicNotes` and
-- `validatePublicArtifactText` of tools/msa-adjudication-workbench/public/protocol.js.
use adg_lang.Common.{
  ℕ, ◌+◌, Bool, false, not, ◌&&◌, ◌||◌, Result, ok, ◌>>◌, throw_if, List, [], ◌∷◌, ◌++◌, String,
  str_eq, has, any, length, ◌==◌, if◌then◌else◌,
}
use adg_lang.Js.{
  Value, undefined, null, bool, num, whole, pos, str, arr, obj, Items, nil, cons, Props, end, prop,
  get, is_array, truthy, is_text, strict_eq, is_nullish,
}
use adg_lang.Js.Text.{to_text}
use adg_lang.Consensus.Coverage.{array_items}
use adg_lang.Protocol.Values.{
  Refusal, schema_unsupported, identity_incomplete, metric_policy_invalid, predictions_exposed,
  corpus_excluded, evidence_forbidden, sentences_missing, sentence_incomplete, sentence_repeated,
  tokens_misnumbered, text_unsafe, type_error, packet_schema, identifier, is_positive_integer,
  outside_zero_one, outside_minus_one_one, has_value,
}

abbrev forbidden_evidence_keys : List String
forbidden_evidence_keys =
    "analysis" ∷ "candidateAware" ∷ "dependencyGraph" ∷ "evaluation" ∷ "morphology" ∷ "parse"
    ∷ "parserOutput" ∷ "parserPredictions" ∷ "predictions" ∷ "strictTag" ∷ []

unfoldable mutual
  pub contains_forbidden_evidence : Value → Bool
  contains_forbidden_evidence undefined = false
  contains_forbidden_evidence null = false
  contains_forbidden_evidence (bool b) = false
  contains_forbidden_evidence (num n) = false
  contains_forbidden_evidence (str s) = false
  contains_forbidden_evidence (arr vs) = any_forbidden vs
  contains_forbidden_evidence (obj ps) = any_forbidden_entry ps

  any_forbidden : Items → Bool
  any_forbidden nil = false
  any_forbidden (cons v vs) = contains_forbidden_evidence v || any_forbidden vs

  any_forbidden_entry : Props → Bool
  any_forbidden_entry end = false
  any_forbidden_entry (prop k v ps) =
      has k forbidden_evidence_keys || contains_forbidden_evidence v || any_forbidden_entry ps

-- `sentence.tokens.forEach((token, index) => …)`, from the index on.
unfoldable pub validate_tokens : Value → ℕ → List Value → Result Refusal (Unit {0})
validate_tokens sentence index [] = ok tt
validate_tokens sentence index (token ∷ tokens) = do
  throw_if (is_nullish token) type_error
  throw_if
      (not (strict_eq (get token "id") (num (whole (pos (index + 1)))))
        || not (truthy (get token "form")))
      (tokens_misnumbered (get sentence "sentenceId"))
  validate_tokens sentence (index + 1) tokens

-- The loop over the sentences, with the identifiers so far.
unfoldable pub validate_sentences : List Value → List Value → Result Refusal (Unit {0})
validate_sentences [] sentence_ids = ok tt
validate_sentences (sentence ∷ sentences) sentence_ids = do
  throw_if (is_nullish sentence) type_error
  throw_if
      (not (truthy (get sentence "sentenceId"))
        || not (truthy (get sentence "text"))
        || not (is_array (get sentence "tokens"))
        || length (array_items (get sentence "tokens")) == 0)
      sentence_incomplete
  throw_if (has_value (get sentence "sentenceId") sentence_ids)
      (sentence_repeated (get sentence "sentenceId"))
  validate_tokens sentence 0 (array_items (get sentence "tokens"))
  validate_sentences sentences (get sentence "sentenceId" ∷ sentence_ids)

abbrev identity_complete : Value → Bool
identity_complete packet =
    identifier (get packet "taskId")
    && is_positive_integer (get packet "taskVersion")
    && identifier (get packet "packetId")
    && identifier (get packet "holdoutId")
    && identifier (get packet "protocolId")
    && identifier (get packet "guidelineVersion")
    && identifier (get packet "dataVersion")
    && identifier (get packet "protocolVersion")

abbrev metric_policy_valid : Value → Bool
metric_policy_valid policy =
    truthy policy
    && is_text (get policy "schema") "adg-iaa-policy-v1"
    && is_array (get policy "metrics")
    && not (outside_zero_one (get policy "minimumRawAgreement"))
    && not (outside_minus_one_one (get policy "minimumDefinedKappa"))

unfoldable pub validate_packet : Value → Result Refusal (Unit {0})
validate_packet packet = do
  throw_if (not (truthy packet) || not (is_text (get packet "schema") packet_schema))
      schema_unsupported
  throw_if (not (identity_complete packet)) identity_incomplete
  throw_if (not (metric_policy_valid (get packet "metricPolicy"))) metric_policy_invalid
  throw_if (not (truthy (get packet "parserPredictionsExcluded"))) predictions_exposed
  throw_if (truthy (get packet "derivedFromExcludedCorpus")) corpus_excluded
  throw_if (contains_forbidden_evidence packet) evidence_forbidden
  throw_if
      (not (is_array (get packet "sentences"))
        || length (array_items (get packet "sentences")) == 0)
      sentences_missing
  validate_sentences (array_items (get packet "sentences")) []

abbrev is_note : String → Bool
is_note key = str_eq key "note" || str_eq key "resolutionNote" || str_eq key "rationale"

-- The texts that `collectPublicNotes` pushes.
unfoldable mutual
  pub collect_public_notes : Value → List String
  collect_public_notes undefined = []
  collect_public_notes null = []
  collect_public_notes (bool b) = []
  collect_public_notes (num n) = []
  collect_public_notes (str s) = []
  collect_public_notes (arr vs) = collect_notes vs
  collect_public_notes (obj ps) = collect_entries ps

  collect_notes : Items → List String
  collect_notes nil = []
  collect_notes (cons v vs) = collect_public_notes v ++ collect_notes vs

  collect_entries : Props → List String
  collect_entries end = []
  collect_entries (prop k v ps) =
      let inner = collect_public_notes v in
      (if is_note k && not (is_nullish v) then to_text v ∷ [] else inner) ++ collect_entries ps

-- `is_unsafe` stands for the patterns of `containsUnsafePublicText`.
unfoldable pub validate_public_artifact_text : (String → Bool) → Value → Result Refusal (Unit {0})
validate_public_artifact_text is_unsafe artifact =
    throw_if (any is_unsafe (collect_public_notes artifact)) text_unsafe
