-- ===== src/Protocol/Files.antt =====
-- `unpackPortalFile` and `inferLoadedPacketLane` of
-- tools/msa-adjudication-workbench/public/protocol.js.
use adg_lang.Common.{Bool, true, ◌&&◌, ◌||◌, Option, none, some, String, if◌then◌else◌}
use adg_lang.Js.{Value, null, bool, str, get, is_nullish, is_text, strict_eq}
use adg_lang.Protocol.Values.{packet_schema, annotation_schema, or_null}

pub data FileKind : Type 0 where
  draft_file annotation_artifact adjudication_artifact ratification_artifact packet_file
        annotation_file container unknown :
      FileKind

-- The result's fields; a field that the result does not have is null. `content` is its `draft`,
-- `artifact` or `value`.
pub record PortalFile : Type 0 where
  pub kind : FileKind
  pub content : Value
  pub packet : Value
  pub annotation : Value
  pub primary_artifact : Value
  pub ratification : Value
  pub role : Value

abbrev file : FileKind → Value → Value → Value → PortalFile
file kind content packet role = record {
  kind = kind;
  content = content;
  packet = packet;
  annotation = null;
  primary_artifact = null;
  ratification = null;
  role = role;
}

-- `value?.artifact ?? value`
abbrev pub unwrapped : Value → Value
unwrapped value = if is_nullish (get value "artifact") then value else get value "artifact"

abbrev unpack : Value → Value → PortalFile
unpack value u =
    if is_text (get u "schema") "adg-msa-portal-draft-v1"
    then file draft_file u (or_null (get u "packet")) (or_null (get u "role"))
    else if is_text (get u "kind") "independent-annotation"
    then record (file annotation_artifact u (or_null (get u "packet"))
        (or_null (get (get u "annotation") "annotatorSlot"))) {
          annotation = or_null (get u "annotation");
        }
    else if is_text (get u "kind") "adjudication-package"
    then file adjudication_artifact u (or_null (get u "packet")) (str "ratification")
    else if is_text (get u "kind") "ratification-package"
        && is_text (get (get u "primaryArtifact") "kind") "adjudication-package"
    then record (file ratification_artifact u (or_null (get (get u "primaryArtifact") "packet"))
        (str "ratification")) {
          primary_artifact = get u "primaryArtifact";
          ratification = or_null (get u "ratification");
        }
    else if is_text (get u "schema") packet_schema
    then file packet_file null u null
    else if is_text (get u "schema") annotation_schema
    then record (file annotation_file null (or_null (get value "packet"))
        (or_null (get u "annotatorSlot"))) { annotation = u }
    else if is_text (get (get u "packet") "schema") packet_schema
    then record (file container u (get u "packet")
        (or_null (get (get u "annotation") "annotatorSlot"))) {
          annotation = or_null (get u "annotation");
        }
    else file unknown u null null

unfoldable pub unpack_portal_file : Value → PortalFile
unpack_portal_file value = unpack value (unwrapped value)

-- `none` is the result null.
unfoldable pub infer_loaded_packet_lane : Value → Bool → Option String
infer_loaded_packet_lane packet operational_test_requested =
    if operational_test_requested || strict_eq (get packet "pilotOnly") (bool true)
    then some "operational-test"
    else none
