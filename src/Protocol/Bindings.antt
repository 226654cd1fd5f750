-- ===== src/Protocol/Bindings.antt =====
-- The bindings between documents and their roots: `computePacketMerkleRoot`,
-- `computeAnnotationMerkleRoot`, `computeAdjudicationMerkleRoot`, `computeRatificationMerkleRoot`,
-- `validateSubmissionBinding`, `validateAdjudicationBinding` and `validateRatificationBinding` of
-- tools/msa-adjudication-workbench/public/protocol.js. The platform's UTF-8 encoder and SHA-256
-- digest are parameters.
pub mod Independence
use adg_lang.Common.{
  ℕ, Bool, not, ◌&&◌, ◌||◌, Result, ok, err, ◌>>=◌, ◌>>◌, throw_if, List, [], ◌∷◌, map, String, any,
  ltb,
}
use adg_lang.Js.{Value, str, get, truthy, is_text, strict_eq}
use adg_lang.Js.Text.{to_text}
use adg_lang.Hashing.{Bytes, joined_parts}
use adg_lang.Protocol.Values.{
  Refusal, annotation_unbound, packet_changed, adjudication_unbound, roles_dependent,
  packet_root_wrong, primary_invalid, ratification_unbound, annotation_schema, adjudication_schema,
  ratification_schema, differ, trim, unit_length,
}
use adg_lang.Protocol.Packets.{validate_packet}
use adg_lang.Protocol.Coverage.{validate_annotation_coverage}
use adg_lang.Protocol.Resolutions.{validate_adjudication_resolutions}
use adg_lang.Protocol.Roots.{
  field_of, packet_identity, packet_values, annotation_values, adjudication_values,
  ratification_values,
}

-- One of the fields of the identity is another in the packet.
abbrev pub unbound : List String → Value → Value → Bool
unbound names packet document = any (λ name. differ name document packet) names

abbrev pub is_one_of : List String → Value → Bool
is_one_of texts v = any (is_text v) texts

abbrev is_string : Value → Bool
is_string (str s) = Bool.true
is_string v = Bool.false

abbrev ratification_identity : List String
ratification_identity = "taskId" ∷ "taskVersion" ∷ "packetId" ∷ "holdoutId" ∷ "protocolVersion" ∷ []

-- The conditions that the bindings throw on.
abbrev pub submission_unbound : Value → Value → Bool
submission_unbound packet submission =
    not (truthy submission)
    || not (is_text (get submission "schema") annotation_schema)
    || unbound packet_identity packet submission
    || not (is_one_of ("A" ∷ "B" ∷ []) (get submission "annotatorSlot"))

abbrev pub decision_unbound : Value → Value → Bool
decision_unbound packet decision =
    not (truthy decision)
    || not (is_text (get decision "schema") adjudication_schema)
    || unbound packet_identity packet decision
    || not (is_text (get decision "adjudicatorSlot") "J1")

-- `document.name !== root`
abbrev pub other_root : Value → String → String → Bool
other_root document name root = not (is_text (get document name) root)

abbrev pub slots_dependent : Value → Value → Value → Bool
slots_dependent annotation_a annotation_b decision =
    strict_eq (get annotation_a "annotatorSlot") (get annotation_b "annotatorSlot")
    || not (strict_eq (get decision "annotationASlot") (get annotation_a "annotatorSlot"))
    || not (strict_eq (get decision "annotationBSlot") (get annotation_b "annotatorSlot"))

module _ (encode : String → Bytes) (digest : Bytes → String) where
  -- `builder.digest()` after the values were added
  unfoldable pub root_of : List Value → String
  root_of values = digest (joined_parts (map (field_of encode) values))

  unfoldable pub compute_packet_merkle_root : Value → Result Refusal String
  compute_packet_merkle_root packet = do
    validate_packet packet
    values ← packet_values packet
    ok (root_of values)

  unfoldable pub compute_annotation_merkle_root : Value → Value → Result Refusal String
  compute_annotation_merkle_root packet submission = do
    packet_root ← compute_packet_merkle_root packet
    throw_if (other_root submission "packetMerkleRoot" packet_root) packet_root_wrong
    values ← annotation_values submission
    ok (root_of values)

  unfoldable pub validate_submission_binding : Value → Value → Result Refusal (Unit {0})
  validate_submission_binding packet submission = do
    validate_packet packet
    throw_if (submission_unbound packet submission) annotation_unbound
    expected ← compute_packet_merkle_root packet
    throw_if (other_root submission "packetMerkleRoot" expected) packet_changed
    validate_annotation_coverage packet submission

  unfoldable pub validate_adjudication_binding :
      Value → Value → Value → Value → Result Refusal (Unit {0})
  validate_adjudication_binding packet annotation_a annotation_b decision = do
    validate_submission_binding packet annotation_a
    validate_submission_binding packet annotation_b
    throw_if (decision_unbound packet decision) adjudication_unbound
    packet_root ← compute_packet_merkle_root packet
    throw_if (other_root decision "packetMerkleRoot" packet_root) adjudication_unbound
    root_a ← compute_annotation_merkle_root packet annotation_a
    throw_if (other_root decision "annotationAMerkleRoot" root_a) adjudication_unbound
    root_b ← compute_annotation_merkle_root packet annotation_b
    throw_if (other_root decision "annotationBMerkleRoot" root_b) adjudication_unbound
    throw_if (slots_dependent annotation_a annotation_b decision) roles_dependent
    validate_annotation_coverage packet decision
    validate_adjudication_resolutions annotation_a annotation_b decision

  unfoldable pub compute_adjudication_merkle_root :
      Value → Value → Value → Value → Result Refusal String
  compute_adjudication_merkle_root packet annotation_a annotation_b decision = do
    validate_adjudication_binding packet annotation_a annotation_b decision
    values ← adjudication_values decision
    ok (root_of values)

  unfoldable pub validate_ratification_binding : Value → Value → Result Refusal (Unit {0})
  validate_ratification_binding primary ratification = do
    throw_if (not (truthy primary) || not (is_text (get primary "kind") "adjudication-package"))
        primary_invalid
    validate_adjudication_binding (get primary "packet") (get primary "annotationA")
        (get primary "annotationB") (get primary "adjudication")
    let packet = get primary "packet"
    primary_root ←
        compute_adjudication_merkle_root packet (get primary "annotationA")
          (get primary "annotationB") (get primary "adjudication")
    throw_if
        (not (truthy ratification)
          || not (is_text (get ratification "schema") ratification_schema)
          || unbound ratification_identity packet ratification)
        ratification_unbound
    packet_root ← compute_packet_merkle_root packet
    throw_if
        (not (is_text (get ratification "packetMerkleRoot") packet_root)
          || not (is_text (get ratification "primaryAdjudicationMerkleRoot") primary_root)
          || not (is_text (get ratification "reviewerSlot") "J2")
          || not (is_one_of ("agree" ∷ "disagree" ∷ "recuse" ∷ []) (get ratification "decision"))
          || not (is_string (get ratification "rationale"))
          || ltb (unit_length (trim (to_text (get ratification "rationale")))) 20
          || ltb 4000 (unit_length (to_text (get ratification "rationale"))))
        ratification_unbound

  unfoldable pub compute_ratification_merkle_root : Value → Value → Result Refusal String
  compute_ratification_merkle_root primary ratification = do
    validate_ratification_binding primary ratification
    ok (root_of (ratification_values ratification))
