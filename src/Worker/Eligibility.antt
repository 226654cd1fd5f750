-- ===== src/Worker/Eligibility.antt =====
-- Who may submit what: `validateConsensusEligibility` and `requiredRepositoryTaskAssignment` of
-- tools/msa-adjudication-workbench/src/index.js. Each query reads the tables as they are at its
-- own time: `at k` are the tables that the query number `k` reads.
pub mod Rows
pub mod Places
pub mod Qualified
pub mod Grants
use adg_lang.Common.{
  ℕ, ◌+◌, Bool, true, false, not, ◌&&◌, ◌||◌, Option, none, some, is_some, Result, ok, err, ◌>>=◌,
  ◌>>◌, throw_if, List, [], ◌∷◌, ◌++◌, map, String, str_eq, any, find, select, length, ◌==◌,
  if◌then◌else◌,
}
use adg_lang.Js.{Value, str, get, is_text}
use adg_lang.Hashing.{Bytes}
use adg_lang.Consensus.States.{
  State, opened, independent_review, discussion, final_review, same_state,
}
use adg_lang.Store.Tables.{Task, Round, Submission, is_open}
use adg_lang.Protocol.Values.{Refusal, has_value}
use adg_lang.Protocol.Coverage.{value_set}
use adg_lang.Protocol.Bindings.{compute_annotation_merkle_root}

-- `a` and `b` are the primary annotators, `j1` and `j2` the adjudicator and the second reviewer.
pub data Role : Type 0 where
  a b j1 j2 : Role

abbrev pub role_name : Role → String
role_name a = "A"
role_name b = "B"
role_name j1 = "J1"
role_name j2 = "J2"

pub record Participation : Type 0 where
  pub task_version_id : String
  pub round_id : String
  pub holdout_id : String
  pub user_id : String
  pub role : String

-- A row of `final_results`; the flag is its status 'proposed'.
pub record Final : Type 0 where
  pub primary_receipt_id : String
  pub task_version_id : String
  pub round_id : String
  pub final_merkle_root : String
  pub is_proposed : Bool

-- A row of `repository_task_packets` of the lane 'standard'; the flag is its status 'active'.
pub record Catalog : Type 0 where
  pub task_version_id : String
  pub is_active : Bool

-- A row of `task_assignments`; the flag is its status 'invited' or 'claimed'.
pub record Assignment : Type 0 where
  pub task_version_id : String
  pub round_id : String
  pub role : String
  pub is_pending : Bool
  pub user_id : Option String
  pub email_hash : String

pub record Records : Type 0 where
  pub participations : List Participation
  pub submissions : List Submission
  pub finals : List Final
  pub catalog : List Catalog
  pub assignments : List Assignment

-- What is thrown: a `PublicError` for each message, and the errors of the roots.
pub data Denial : Type 0 where
  round_closed role_unavailable took_part role_taken primaries_missing primaries_differ : Denial
  final_differs task_withdrawn assignment_missing : Denial
  refused : Refusal → Denial

abbrev pub lift : {A : Type 0} → Result Refusal A → Result Denial A
lift (ok x) = ok x
lift (err e) = err (refused e)

abbrev pub allowed_states : Role → List State
allowed_states a = opened ∷ independent_review ∷ []
allowed_states b = opened ∷ independent_review ∷ []
allowed_states j1 = discussion ∷ []
allowed_states j2 = final_review ∷ []

abbrev pub is_open_round : Option Round → Bool
is_open_round none = false
is_open_round (some r) = is_open r.status

-- The two queries on `task_participations`.
abbrev pub participates : String → Task → String → Participation → Bool
participates user_id task holdout_id p =
    str_eq p.user_id user_id && (str_eq p.task_version_id task.id || str_eq p.holdout_id holdout_id)

abbrev pub occupies : Round → Role → Participation → Bool
occupies round role p = str_eq p.round_id round.id && str_eq p.role (role_name role)

abbrev pub text_is : Option String → String → Bool
text_is none s = false
text_is (some t) s = str_eq t s

abbrev pub is_independent : Task → Round → Role → Submission → Bool
is_independent task round role s =
    text_is s.task_version_id task.id
    && text_is s.round_id round.id
    && text_is s.consensus_role (role_name role)
    && s.active

-- `ORDER BY consensus_role`
abbrev pub independent_submissions : Task → Round → List Submission → List Submission
independent_submissions task round submissions =
    select (is_independent task round a) submissions
    ++ select (is_independent task round b) submissions

-- The `JOIN` of the final results with their submissions.
abbrev pub is_primary_final : Task → Round → Value → List Submission → Final → Bool
is_primary_final task round receipt_id submissions f =
    is_text receipt_id f.primary_receipt_id
    && str_eq f.task_version_id task.id
    && str_eq f.round_id round.id
    && f.is_proposed
    && any (λ s. str_eq s.receipt_id f.primary_receipt_id) submissions

abbrev pub other_final : Option Final → Value → Bool
other_final none root = true
other_final (some f) root = not (is_text root f.final_merkle_root)

pub data Grant : Type 0 where
  plain : Grant
  independent : List Submission → Grant
  primary_final : Option Final → Grant

module _ (encode : String → Bytes) (digest : Bytes → String) where
  -- The loop over the stored submissions. The column `artifact_json` is the artifact's text, which
  -- the row holds as the value.
  unfoldable pub stored_roots : List Submission → Result Denial (List Value)
  stored_roots [] = ok []
  stored_roots (s ∷ ss) = do
    root ← lift (
        compute_annotation_merkle_root encode digest (get s.artifact "packet")
          (get s.artifact "annotation"))
    roots ← stored_roots ss
    ok (str root ∷ roots)

  -- The artifact has an adjudication where J1 submits, and a ratification where J2 does.
  unfoldable pub first_adjudication : (ℕ → Records) → Task → Round → Value → Result Denial Grant
  first_adjudication at task round artifact = do
    let rows = independent_submissions task round (at 2).submissions
    throw_if (not (length rows == 2)) primaries_missing
    roots ← stored_roots rows
    throw_if
        (not (length (value_set roots) == 2)
          || not (has_value (get (get artifact "adjudication") "annotationAMerkleRoot") roots)
          || not (has_value (get (get artifact "adjudication") "annotationBMerkleRoot") roots))
        primaries_differ
    ok (independent rows)

  unfoldable pub second_review : (ℕ → Records) → Task → Round → Value → Result Denial Grant
  second_review at task round artifact = do
    let ratification = get artifact "ratification"
    let final =
        find (is_primary_final task round (get ratification "primaryReceiptId") (at 2).submissions)
          (at 2).finals
    throw_if (other_final final (get ratification "primaryAdjudicationMerkleRoot")) final_differs
    ok (primary_final final)

  -- What the role needs beyond a free place.
  abbrev pub role_grant : (ℕ → Records) → Role → Task → Round → Value → Result Denial Grant
  role_grant at a task round artifact = ok plain
  role_grant at b task round artifact = ok plain
  role_grant at j1 task round artifact = first_adjudication at task round artifact
  role_grant at j2 task round artifact = second_review at task round artifact

  -- `holdout_id` is `task.identity.holdoutId`, and `role` is `task.consensusRole`.
  unfoldable pub validate_consensus_eligibility :
      (ℕ → Records) → String → Role → String → Task → Option Round → Value → Result Denial Grant
  validate_consensus_eligibility at user_id role holdout_id task none artifact = err round_closed
  validate_consensus_eligibility at user_id role holdout_id task (some round) artifact = do
    throw_if (not (is_open round.status)) round_closed
    throw_if (not (any (same_state task.state) (allowed_states role))) role_unavailable
    throw_if (any (participates user_id task holdout_id) (at 0).participations) took_part
    throw_if (any (occupies round role) (at 1).participations) role_taken
    role_grant at role task round artifact

-- `user_id = ? OR (user_id IS NULL AND email_hash = ?)`
abbrev is_for : String → String → Assignment → Bool
is_for user_id email_hash s = elim s.user_id [
  | some id ↦ str_eq id user_id
  | none ↦ str_eq s.email_hash email_hash
]

abbrev pub is_assignment : String → String → Role → Task → Round → Assignment → Bool
is_assignment user_id email_hash role task round s =
    str_eq s.task_version_id task.id
    && str_eq s.round_id round.id
    && str_eq s.role (role_name role)
    && s.is_pending
    && is_for user_id email_hash s

unfoldable pub required_repository_task_assignment :
    (ℕ → Records) → String → String → Role → Task → Round → Result Denial (Option Assignment)
required_repository_task_assignment at user_id email_hash role task round =
    elim (find (λ c. str_eq c.task_version_id task.id) (at 0).catalog) [
      | none ↦ ok none
      | some c ↦ do
        throw_if (not c.is_active) task_withdrawn
        let found = find (is_assignment user_id email_hash role task round) (at 1).assignments
        throw_if (not (is_some found)) assignment_missing
        ok found
    ]
