-- ===== src/Protocol/Roots.antt =====
-- The fields that make a Merkle root, in order, as `computePacketMerkleRoot`,
-- `computeAnnotationMerkleRoot`, `computeAdjudicationMerkleRoot`, `computeRatificationMerkleRoot`
-- and `addAnnotations` of tools/msa-adjudication-workbench/public/protocol.js add them. The UTF-8
-- encoder of the platform is a parameter.
use adg_lang.Common.{
  ℕ, Bool, Result, ok, err, ◌>>=◌, List, [], ◌∷◌, ◌++◌, map, String, str_eq, length, if◌then◌else◌,
}
use adg_lang.Js.{
  Value, undefined, null, bool, num, whole, pos, str, arr, obj, items, get, is_nullish,
}
use adg_lang.Js.Text.{to_text, stringify}
use adg_lang.Hashing.{Bytes, Field, absent, flag, text}
use adg_lang.Consensus.Coverage.{array_items}
use adg_lang.Consensus.EventHash.{sort_object}
use adg_lang.Protocol.Values.{
  Refusal, type_error, packet_schema, annotation_schema, adjudication_schema, ratification_schema,
  trim,
}

abbrev pub number : ℕ → Value
number n = num (whole (pos n))

-- The named fields of an object, one `builder.add(v.name)` each.
abbrev pub gets : List String → Value → List Value
gets names v = map (get v) names

-- The elements whose number is added and which are then iterated. Other values throw: they have no
-- length or no iterator, or they are texts, whose characters have no fields.
unfoldable pub counted : Value → Result Refusal (List Value)
counted (arr vs) = ok (items vs)
counted (str s) = if str_eq s "" then ok [] else err type_error
counted v = err type_error

abbrev pub token_fields : String → List String
token_fields note_name =
    "tokenId" ∷ "universalPartOfSpeech" ∷ "headTokenId" ∷ "dependencyRelation" ∷ "irabHeadTokenId"
    ∷ "irabCategory" ∷ "irabNotApplicable" ∷ note_name ∷ []

unfoldable pub add_tokens : String → List Value → Result Refusal (List Value)
add_tokens note_name [] = ok []
add_tokens note_name (token ∷ tokens) = elim (is_nullish token) [
  | Bool.true ↦ err type_error
  | Bool.false ↦ do
    rest ← add_tokens note_name tokens
    ok (gets (token_fields note_name) token ++ rest)
]

abbrev pub sentence_fields : String → List String
sentence_fields note_name =
    "sentenceId" ∷ "structurallyAcceptable" ∷ "completePredicate" ∷ note_name ∷ []

unfoldable pub add_sentences : String → List Value → Result Refusal (List Value)
add_sentences note_name [] = ok []
add_sentences note_name (sentence ∷ sentences) = elim (is_nullish sentence) [
  | Bool.true ↦ err type_error
  | Bool.false ↦ do
    tokens ← counted (get sentence "tokens")
    added ← add_tokens note_name tokens
    rest ← add_sentences note_name sentences
    ok (gets (sentence_fields note_name) sentence ++ number (length tokens) ∷ (added ++ rest))
]

unfoldable pub add_annotations : Value → String → Result Refusal (List Value)
add_annotations sentences note_name = do
  elements ← counted sentences
  added ← add_sentences note_name elements
  ok (number (length elements) ∷ added)

-- The packet has been validated where these run.
unfoldable pub add_source_tokens : List Value → List Value
add_source_tokens [] = []
add_source_tokens (token ∷ tokens) = get token "id" ∷ get token "form" ∷ add_source_tokens tokens

unfoldable pub add_source_sentences : List Value → List Value
add_source_sentences [] = []
add_source_sentences (sentence ∷ sentences) =
    let tokens = array_items (get sentence "tokens") in
    get sentence "sentenceId"
    ∷ get sentence "text"
    ∷ number (length tokens)
    ∷ (add_source_tokens tokens ++ add_source_sentences sentences)

-- `packet.instructions ?? []`, where a value without `forEach` throws
unfoldable pub instructions_of : Value → Result Refusal (List Value)
instructions_of undefined = ok []
instructions_of null = ok []
instructions_of (arr vs) = ok (items vs)
instructions_of v = err type_error

-- `canonicalJson(v)`, undefined for undefined
abbrev pub canonical_json : Value → Value
canonical_json undefined = undefined
canonical_json v = str (stringify (sort_object v))

abbrev pub packet_identity : List String
packet_identity =
    "taskId" ∷ "taskVersion" ∷ "packetId" ∷ "holdoutId" ∷ "protocolId" ∷ "guidelineVersion"
    ∷ "dataVersion" ∷ "protocolVersion" ∷ []

abbrev pub packet_flags : List String
packet_flags =
    "releaseCandidateId" ∷ "pilotOnly" ∷ "developerVisible" ∷ "parserPredictionsExcluded"
    ∷ "derivedFromExcludedCorpus" ∷ "holdoutManifestSha256" ∷ []

unfoldable pub packet_values : Value → Result Refusal (List Value)
packet_values packet = do
  instructions ← instructions_of (get packet "instructions")
  let sentences = array_items (get packet "sentences")
  ok (
      str "adg-msa-adjudication-packet-root-v3"
      ∷ str packet_schema
      ∷ (gets packet_identity packet
          ++ canonical_json (get packet "metricPolicy")
            ∷ (gets packet_flags packet
                ++ number (length sentences)
                  ∷ (add_source_sentences sentences
                      ++ number (length instructions) ∷ instructions))))

abbrev pub annotation_fields : List String
annotation_fields =
    "packetMerkleRoot" ∷ "taskId" ∷ "taskVersion" ∷ "packetId" ∷ "holdoutId" ∷ "protocolId"
    ∷ "guidelineVersion" ∷ "dataVersion" ∷ "protocolVersion" ∷ "annotatorSlot"
    ∷ "annotatorPseudonym" ∷ "isHuman" ∷ "isSynthetic" ∷ "independentFromImplementationTeam"
    ∷ "blindToParserInternals" ∷ "parserPredictionsViewed" ∷ []

unfoldable pub annotation_values : Value → Result Refusal (List Value)
annotation_values submission = do
  added ← add_annotations (get submission "sentences") "note"
  ok (
      str "adg-msa-annotation-submission-root-v3"
      ∷ str annotation_schema
      ∷ (gets annotation_fields submission ++ added))

abbrev pub adjudication_fields : List String
adjudication_fields =
    "packetMerkleRoot" ∷ "annotationAMerkleRoot" ∷ "annotationBMerkleRoot" ∷ "taskId"
    ∷ "taskVersion" ∷ "packetId" ∷ "holdoutId" ∷ "protocolId" ∷ "guidelineVersion" ∷ "dataVersion"
    ∷ "protocolVersion" ∷ "annotationASlot" ∷ "annotationBSlot" ∷ "adjudicatorSlot"
    ∷ "adjudicatorPseudonym" ∷ "adjudicatorIsHuman" ∷ "adjudicatorIsSynthetic"
    ∷ "independentFromImplementationTeam" ∷ "blindToParserInternals" ∷ "parserPredictionsViewed"
    ∷ []

unfoldable pub adjudication_values : Value → Result Refusal (List Value)
adjudication_values decision = do
  added ← add_annotations (get decision "sentences") "resolutionNote"
  ok (
      str "adg-msa-adjudication-decision-root-v3"
      ∷ str adjudication_schema
      ∷ (gets adjudication_fields decision ++ added))

abbrev pub ratification_fields : List String
ratification_fields =
    "taskId" ∷ "taskVersion" ∷ "packetId" ∷ "holdoutId" ∷ "protocolVersion" ∷ "packetMerkleRoot"
    ∷ "primaryReceiptId" ∷ "primaryAdjudicationMerkleRoot" ∷ "reviewerSlot" ∷ "reviewerPseudonym"
    ∷ "reviewerIsHuman" ∷ "reviewerIsSynthetic" ∷ "independentFromImplementationTeam" ∷ "decision"
    ∷ []

-- The rationale is a text where this runs.
unfoldable pub ratification_values : Value → List Value
ratification_values ratification =
    str "adg-msa-ratification-decision-root-v1"
    ∷ str ratification_schema
    ∷ (gets ratification_fields ratification
        ++ str (trim (to_text (get ratification "rationale"))) ∷ [])

-- The value as `add` distinguishes it.
abbrev pub field_of : (String → Bytes) → Value → Field
field_of encode undefined = absent
field_of encode null = absent
field_of encode (bool b) = flag b
field_of encode (num n) = text (encode (to_text (num n)))
field_of encode (str s) = text (encode s)
field_of encode (arr vs) = text (encode (to_text (arr vs)))
field_of encode (obj ps) = text (encode (to_text (obj ps)))
