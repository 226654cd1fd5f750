-- ===== src/Tests/Admissions.antt =====
-- A submission that is admitted, one that is refused, and the progress of a draft.
use adg_lang.Common.{
  ℕ, ◌≡◌, refl, none, some, err, true, false, [], ◌∷◌, String, str_eq, any, ◌==◌, if◌then◌else◌,
}
use adg_lang.Common.Decimal.{decimal}
use Prim.Native.String.{◌++◌}
use adg_lang.Js.{Value, undefined, str, arr, obj, nil, cons, end, prop}
use adg_lang.Js.Text.{to_text, show_number, show_ℕ, stringify, quoted}
use adg_lang.Hashing.{Bytes, joined_parts, part, framed}
use adg_lang.Consensus.EventHash.{sort_object, insert_sorted}
use adg_lang.Consensus.States.{opened, discussion, same_state}
use adg_lang.Store.Tables.{Round, Submission, open_round}
use adg_lang.Protocol.Values.{trim, is_identifier_text}
use adg_lang.Protocol.Packets.{
  validate_packet, validate_sentences, validate_tokens, contains_forbidden_evidence,
}
use adg_lang.Protocol.Coverage.{value_set}
use adg_lang.Protocol.Roots.{
  counted, add_annotations, add_sentences, add_tokens, annotation_values, packet_values,
  instructions_of, add_source_tokens, add_source_sentences,
}
use adg_lang.Protocol.Bindings.{root_of, compute_packet_merkle_root, compute_annotation_merkle_root}
use adg_lang.Worker.Eligibility.{
  j1, Records, Participation, role_unavailable, independent, stored_roots, first_adjudication,
  validate_consensus_eligibility,
}
use adg_lang.Worker.Eligibility.Grants.{IsEligible, validate_consensus_eligibility-IsEligible}
use adg_lang.Tests.Documents.{packet, annotation}
use adg_lang.Worker.Drafts.{
  has_draft_value, count_values, count_tokens, count_sentences, annotation_progress,
  calculate_draft_progress,
}
use adg_lang.Worker.Drafts.Counts.{IsBounded, calculate_draft_progress-IsBounded}
use adg_lang.Tests.Transitions.{task}

abbrev round : Round
round = record {
  id = "round";
  task_version_id = "task";
  round_number = 1;
  status = open_round;
  reissue_reason = none;
  opened_at = 1;
  deadline_at = 2;
  closed_at = none;
  prior_round_id = none;
}

abbrev no_records : ℕ → Records
no_records k = record {
  participations = [];
  submissions = [];
  finals = [];
  catalog = [];
  assignments = [];
}

early_adjudication_refused :
    validate_consensus_eligibility
      (λ _. [])
      (λ _. "root")
      no_records
      "u1"
      j1
      "h1"
      (task opened 0 "e1")
      (some round)
      undefined
    ≡ err role_unavailable
unfolding validate_consensus_eligibility same_state
early_adjudication_refused = refl

-- The root of an annotation of B is another one than the roots of all else.
abbrev encode : String → Bytes
encode s = if str_eq s "B" then 200 ∷ [] else []

abbrev digest : Bytes → String
digest bytes = if any (λ byte. byte == 200) bytes then "other" else "root"

abbrev stored : String → Submission
stored slot = record {
  receipt_id = "receipt " ++ slot;
  task_version_id = some "task";
  round_id = some "round";
  consensus_role = some slot;
  active = true;
  artifact = obj (prop "packet" packet (prop "annotation" (annotation slot) end));
}

abbrev took_place : String → String → String → String → String → Participation
took_place task_version_id round_id holdout_id user_id role = record {
  task_version_id = task_version_id;
  round_id = round_id;
  holdout_id = holdout_id;
  user_id = user_id;
  role = role;
}

-- Both annotations are stored, with one that was withdrawn; "u3" has adjudicated another task.
abbrev two_stored : ℕ → Records
two_stored k = record {
  participations =
      took_place "task" "round" "h1" "u1" "A"
      ∷ took_place "task" "round" "h1" "u2" "B"
      ∷ took_place "task2" "round2" "h2" "u3" "J1"
      ∷ [];
  submissions = stored "B" ∷ record (stored "A") { active = false } ∷ stored "A" ∷ [];
  finals = [];
  catalog = [];
  assignments = [];
}

abbrev adjudication : Value
adjudication = obj (
    prop "adjudication"
      (obj (
        prop "annotationAMerkleRoot" (str "root") (prop "annotationBMerkleRoot" (str "other") end)))
      end)

validate_consensus_eligibility-IsEligible_example :
    IsEligible encode digest two_stored "u3" j1 "h1"
      (task discussion 2 "e1")
      (some round)
      adjudication
      (independent (stored "A" ∷ stored "B" ∷ []))
unfolding validate_consensus_eligibility same_state first_adjudication stored_roots
    compute_packet_merkle_root compute_annotation_merkle_root root_of validate_packet
    validate_sentences validate_tokens contains_forbidden_evidence is_identifier_text packet_values
    instructions_of annotation_values add_annotations add_sentences add_tokens counted value_set
    joined_parts part framed decimal to_text show_number show_ℕ trim stringify quoted
    add_source_tokens add_source_sentences sort_object insert_sorted
validate_consensus_eligibility-IsEligible_example =
    validate_consensus_eligibility-IsEligible encode digest two_stored "u3" j1 "h1"
      (task discussion 2 "e1") (some round) adjudication
      (independent (stored "A" ∷ stored "B" ∷ [])) refl

abbrev draft : Value
draft = obj (
    prop "role" (str "A")
      (prop "fields" (arr (cons (obj (prop "structural" (str "yes") end)) nil)) end))

half_done :
    calculate_draft_progress (λ completed total. completed) draft
    ≡ record { completed = 1; total = 2; percentage = 1 }
unfolding calculate_draft_progress annotation_progress count_sentences count_tokens count_values
    has_draft_value trim to_text
half_done = refl

calculate_draft_progress-IsBounded_example :
    IsBounded
      (λ completed total. completed)
      (calculate_draft_progress (λ completed total. completed) draft)
calculate_draft_progress-IsBounded_example =
    calculate_draft_progress-IsBounded (λ completed total. completed) draft
