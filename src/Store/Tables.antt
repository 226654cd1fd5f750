-- ===== src/Store/Tables.antt =====
-- The tables that tools/msa-adjudication-workbench/src/consensus-store.js reads and writes, as
-- lists of rows, with the columns that the code names. The store itself is D1 or PostgreSQL: what
-- is used of it is that a batch is one transaction and that the UNIQUE constraints of
-- tools/msa-adjudication-workbench/migrations/0004_consensus_state.sql hold.
use adg_lang.Common.{ℕ, Bool, true, false, List, Option, String}
use adg_lang.Js.{Value}
use adg_lang.Consensus.States.{State}

pub data RepositoryStatus : Type 0 where
  not_sent pending accepted rejected : RepositoryStatus

abbrev pub status_index : RepositoryStatus → ℕ
status_index not_sent = 0
status_index pending = 1
status_index accepted = 2
status_index rejected = 3

pub record Task : Type 0 where
  pub id : String
  pub task_id : String
  pub task_version : ℕ
  pub packet_id : String
  pub holdout_id : String
  pub packet_merkle_root : String
  pub guideline_version : String
  pub data_version : String
  pub protocol_version : String
  pub metric_policy_json : String
  pub state : State
  pub state_version : ℕ
  pub current_round : ℕ
  pub last_event_id : Option String
  pub active_final_receipt_id : Option String
  pub appeal_deadline_at : Option ℕ
  pub repository_status : RepositoryStatus
  pub created_at : ℕ
  pub updated_at : ℕ
  pub approved_at : Option ℕ
  pub published_at : Option ℕ
  pub revoked_at : Option ℕ

pub data RoundStatus : Type 0 where
  open_round closed superseded round_failed : RoundStatus

abbrev pub is_open : RoundStatus → Bool
is_open open_round = true
is_open s = false

pub record Round : Type 0 where
  pub id : String
  pub task_version_id : String
  pub round_number : ℕ
  pub status : RoundStatus
  pub reissue_reason : Option String
  pub opened_at : ℕ
  pub deadline_at : ℕ
  pub closed_at : Option ℕ
  pub prior_round_id : Option String

pub record Event : Type 0 where
  pub id : String
  pub task_version_id : String
  pub round_id : Option String
  pub event_type : String
  pub from_state : State
  pub to_state : State
  pub actor_user_id : Option String
  pub actor_subject_hash : Option String
  pub reason_code : String
  pub evidence_json : String
  pub prior_state_hash : Option String
  pub event_hash : String
  pub idempotency_key : String
  pub created_at : ℕ

pub data OutboxKind : Type 0 where
  submission comment task_state : OutboxKind

pub data OutboxStatus : Type 0 where
  held waiting sending sent send_failed cancelled : OutboxStatus

-- A row of `evidence_outbox`; `waiting` is its status 'pending'.
pub record Outgoing : Type 0 where
  pub id : String
  pub kind : OutboxKind
  pub task_version_id : Option String
  pub related_id : String
  pub dedupe_key : String
  pub status : OutboxStatus
  pub next_attempt_at : ℕ
  pub last_error : Option String

-- A row of `submissions`, as far as the consensus reads it.
pub record Submission : Type 0 where
  pub receipt_id : String
  pub task_version_id : Option String
  pub round_id : Option String
  pub consensus_role : Option String
  pub active : Bool
  pub artifact : Value

-- A row of `appeals`; the flag is its status 'pending'.
pub record Appeal : Type 0 where
  pub id : String
  pub task_version_id : String
  pub is_pending : Bool

-- The events are listed newest first.
pub record Database : Type 0 where
  pub tasks : List Task
  pub rounds : List Round
  pub events : List Event
  pub outbox : List Outgoing
  pub submissions : List Submission
  pub appeals : List Appeal
