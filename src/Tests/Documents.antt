-- ===== src/Tests/Documents.antt =====
-- A packet of one sentence, two annotations of it and their adjudication.
use adg_lang.Common.{All, ◌≡◌, refl, true, err, [], String}
use adg_lang.Js.{Value, bool, num, whole, pos, str, arr, obj, nil, cons, Props, end, prop}
use adg_lang.Js.Text.{to_text, stringify, quoted}
use adg_lang.Protocol.Values.{
  tokens_misnumbered, keyed, is_identifier_text, trim, is_blank, packet_schema, annotation_schema,
  adjudication_schema,
}
use adg_lang.Protocol.Packets.{
  validate_packet, validate_sentences, validate_tokens, contains_forbidden_evidence,
}
use adg_lang.Protocol.Coverage.{
  validate_annotation_coverage, distinct_sentences, cover_source, cover_source_sentence,
  cover_annotated_tokens, value_set,
}
use adg_lang.Protocol.Resolutions.{
  validate_adjudication_resolutions, resolve_sentences, resolve_tokens, decision_needs_resolution,
  token_decision_key,
}
use adg_lang.Protocol.Roots.{
  counted, add_annotations, add_sentences, add_tokens, annotation_values, packet_values,
  instructions_of,
}
use adg_lang.Protocol.Bindings.{
  root_of, compute_packet_merkle_root, compute_annotation_merkle_root, validate_submission_binding,
  validate_adjudication_binding,
}
use adg_lang.Consensus.Coverage.{array_items}
use adg_lang.Protocol.Resolutions.Unanimity.{IsSettled, validate_adjudication_resolutions-IsSettled}
use adg_lang.Protocol.Bindings.Independence.{
  IsAdjudication, validate_adjudication_binding-IsAdjudication,
}

abbrev identity : Props → Props
identity rest = prop "taskId" (str "t1") (
    prop "taskVersion" (num (whole (pos 1))) (
      prop "packetId" (str "p1") (
        prop "holdoutId" (str "h1") (
          prop "protocolId" (str "adg") (
            prop "guidelineVersion" (str "1.0")
              (prop "dataVersion" (str "1.0") (prop "protocolVersion" (str "1.0") rest)))))))

abbrev metric_policy : Value
metric_policy = obj (
    prop "schema" (str "adg-iaa-policy-v1") (
      prop "metrics" (arr nil) (
        prop "minimumRawAgreement" (num (whole (pos 1)))
          (prop "minimumDefinedKappa" (num (whole (pos 0))) end))))

abbrev one : Value → Value
one v = arr (cons v nil)

abbrev packet_with : Value → Value
packet_with token_id = obj (
    prop "schema" (str packet_schema) (
      prop "metricPolicy" metric_policy (
        prop "parserPredictionsExcluded" (bool true) (
          identity (
            prop "sentences"
              (one (
                obj (
                  prop "sentenceId" (str "s1") (
                    prop "text" (str "qala") (
                      prop "tokens" (one (obj (prop "id" token_id (prop "form" (str "qala") end))))
                        end)))))
              end)))))

abbrev pub packet : Value
packet = packet_with (num (whole (pos 1)))

abbrev sentences : String → Value
sentences note = one (
    obj (
      prop "sentenceId" (str "s1") (
        prop "structurallyAcceptable" (bool true) (
          prop "resolutionNote" (str note)
            (prop "tokens" (one (obj (prop "tokenId" (num (whole (pos 1))) end))) end)))))

abbrev pub annotation : String → Value
annotation slot = obj (
    prop "schema" (str annotation_schema) (
      prop "annotatorSlot" (str slot)
        (prop "packetMerkleRoot" (str "root") (identity (prop "sentences" (sentences "") end)))))

abbrev decision : Value
decision = obj (
    prop "schema" (str adjudication_schema) (
      prop "adjudicatorSlot" (str "J1") (
        prop "annotationASlot" (str "A") (
          prop "annotationBSlot" (str "B") (
            prop "packetMerkleRoot" (str "root") (
              prop "annotationAMerkleRoot" (str "root") (
                prop "annotationBMerkleRoot" (str "root")
                  (identity (prop "sentences" (sentences "agreed") end)))))))))

-- The tokens of a sentence are numbered from 1.
misnumbered_refused :
    validate_packet (packet_with (num (whole (pos 2)))) ≡ err (tokens_misnumbered (str "s1"))
unfolding validate_packet validate_sentences validate_tokens contains_forbidden_evidence
    is_identifier_text
misnumbered_refused = refl

validate_adjudication_binding-IsAdjudication_example :
    IsAdjudication (λ _. []) (λ _. "root") packet (annotation "A") (annotation "B") decision
unfolding validate_adjudication_binding validate_submission_binding compute_packet_merkle_root
    compute_annotation_merkle_root root_of validate_packet validate_sentences validate_tokens
    contains_forbidden_evidence is_identifier_text packet_values instructions_of annotation_values
    add_annotations add_sentences add_tokens counted validate_annotation_coverage distinct_sentences
    cover_source cover_source_sentence cover_annotated_tokens value_set keyed
    validate_adjudication_resolutions resolve_sentences resolve_tokens decision_needs_resolution
    token_decision_key stringify quoted is_blank trim to_text
validate_adjudication_binding-IsAdjudication_example =
    validate_adjudication_binding-IsAdjudication (λ _. []) (λ _. "root") packet (annotation "A")
      (annotation "B") decision refl

validate_adjudication_resolutions-IsSettled_example :
    All
      (IsSettled (array_items (sentences "")) (array_items (sentences "")))
      (array_items (sentences "agreed"))
unfolding validate_adjudication_resolutions resolve_sentences resolve_tokens keyed
    decision_needs_resolution token_decision_key stringify quoted is_blank trim to_text
validate_adjudication_resolutions-IsSettled_example =
    validate_adjudication_resolutions-IsSettled (annotation "A") (annotation "B") decision refl
