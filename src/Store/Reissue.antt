-- ===== src/Store/Reissue.antt =====
-- `createReissuedRound` of tools/msa-adjudication-workbench/src/consensus-store.js: a task that was
-- escalated or revoked gets a fresh round.
pub mod Audit
use Prim.Native.String.{◌++◌}
use adg_lang.Common.{
  ℕ, ◌+◌, Bool, true, false, not, ◌&&◌, ◌||◌, Option, none, some, List, [], ◌∷◌, ◌++◌ as append,
  map, String, str_eq, ◌==◌, any, find, is_some, if◌then◌else◌,
}
use adg_lang.Js.{Value, num, whole, pos, str, obj, end, prop}
use adg_lang.Consensus.States.{State, escalated, reissued, revoked, independent_review, same_state}
use adg_lang.Store.Tables.{
  Task, Round, Outgoing, Submission, Database, open_round, superseded, is_open, OutboxKind,
  submission, OutboxStatus, held, cancelled,
}
use adg_lang.Store.Calls.{
  StoreError, conflict, type_error, M, pure, throw, throw_when, query, batch, ◌>>=◌, ◌>>◌,
}
use adg_lang.Store.Transition.{
  Transition, get_consensus_task, get_current_consensus_round, transition_consensus_task,
}
use adg_lang.Store.Registration.{consensus_round_id, round_deadline_ms, round_taken}

-- The rows of the batch's statements.
abbrev pub supersede : String → String → ℕ → Round → Round
supersede round_id reason now r =
    if str_eq r.id round_id && is_open r.status
    then record r { status = superseded; reissue_reason = some reason; closed_at = some now }
    else r

abbrev pub next_round : Task → Round → String → ℕ → Round
next_round task current reason now = record {
  id = consensus_round_id task.id (task.current_round + 1);
  task_version_id = task.id;
  round_number = task.current_round + 1;
  status = open_round;
  reissue_reason = some reason;
  opened_at = now;
  deadline_at = now + round_deadline_ms;
  closed_at = none;
  prior_round_id = some current.id;
}

abbrev pub is_waiting_reissue : Task → Task → Bool
is_waiting_reissue task t =
    str_eq t.id task.id && same_state t.state reissued && t.current_round == task.current_round

abbrev pub enter_round : Task → ℕ → Task → Task
enter_round task now t =
    if is_waiting_reissue task t
    then record t { current_round = task.current_round + 1; updated_at = now }
    else t

abbrev same_id : Option String → String → Bool
same_id none id = false
same_id (some j) id = str_eq j id

abbrev is_submission_kind : OutboxKind → Bool
is_submission_kind submission = true
is_submission_kind k = false

abbrev is_held : OutboxStatus → Bool
is_held held = true
is_held s = false

abbrev is_unreleased : Task → Round → List Submission → Outgoing → Bool
is_unreleased task current submissions o =
    same_id o.task_version_id task.id
    && is_submission_kind o.kind
    && is_held o.status
    && any
        (λ s.
          str_eq s.receipt_id o.related_id
          && same_id s.task_version_id task.id
          && same_id s.round_id current.id)
        submissions

abbrev pub cancel : Task → Round → List Submission → Outgoing → Outgoing
cancel task current submissions o =
    if is_unreleased task current submissions o
    then record o {
      status = cancelled;
      last_error = some "Independent quorum closed before release.";
    }
    else o

-- The batch, with whether the UPDATE of the task changed a row; the INSERT of the round adds one
-- row or breaks a UNIQUE constraint.
unfoldable pub reissue_batch : Task → Round → String → ℕ → Database → Option (Bool × Database)
reissue_batch task current reason now db =
    let rounds' = map (supersede current.id reason now) db.rounds in
    let round' = next_round task current reason now in
    if round_taken round' rounds'
    then none
    else some (
      any (is_waiting_reissue task) db.tasks,
      record db {
        tasks = map (enter_round task now) db.tasks;
        rounds = append rounds' (round' ∷ []);
        outbox = map (cancel task current db.submissions) db.outbox;
      },
    )

-- What the caller passes, and what the clock and the generator of identifiers give in turn.
pub record Reissue : Type 0 where
  pub reason : String
  pub actor_user_id : Option String
  pub actor_subject_hash : Option String
  pub first_clock : ℕ
  pub first_uuid : String
  pub now : ℕ
  pub last_clock : ℕ
  pub last_uuid : String

abbrev plain_transition : State → String → Reissue → Transition
plain_transition to_state round_id r = record {
  to_state = to_state;
  round_id = some round_id;
  event_type = "";
  reason_code = "";
  evidence = obj end;
  actor_user_id = r.actor_user_id;
  actor_subject_hash = r.actor_subject_hash;
  idempotency_key = "";
  created_at = none;
  event_id = none;
  appeal_deadline_at = none;
  clear_active_final = false;
  active_final_receipt_id = none;
  require_publication_ready = false;
  publication_guard_at = none;
}

abbrev pub to_reissued : Task → Round → Reissue → Transition
to_reissued task current r = record (plain_transition reissued current.id r) {
  event_type = "task-reissued";
  reason_code = r.reason;
  evidence = obj (prop "priorRoundId" (str current.id) end);
  idempotency_key = "reissue:" ++ (task.id ++ (":" ++ (current.id ++ (":" ++ r.reason))));
}

abbrev pub to_fresh_round : Task → Round → Reissue → Transition
to_fresh_round task current r =
    let round_number = task.current_round + 1 in
    let round_id = consensus_round_id task.id round_number in
    record (plain_transition independent_review round_id r) {
      event_type = "independent-review-opened";
      reason_code = "fresh-round-created";
      evidence = obj (
          prop "priorRoundId" (str current.id)
            (prop "roundNumber" (num (whole (pos round_number))) end));
      idempotency_key = "round-open:" ++ round_id;
    }

-- A row that must be there: reading a field of null throws.
unfoldable pub present : {A : Type 0} → StoreError → Option A → M A
present e none = throw e
present e (some a) = pure a

abbrev pub not_reissuable : StoreError
not_reissuable = conflict "Only escalated or revoked tasks can be reissued."

abbrev pub no_current_round : StoreError
no_current_round = conflict "Current consensus round was not found."

module _ (digest : String → String) where
  -- From the batch on; `task` is the row after the first transition.
  unfoldable pub open_fresh_round : Task → Round → Reissue → M (Option Task)
  open_fresh_round task current r = do
    entered ← batch (reissue_batch task current r.reason r.now)
    throw_when (not entered) (conflict "Failed to create a fresh consensus round.")
    row ← query (get_consensus_task task.id)
    refreshed ← present type_error row
    transition_consensus_task digest refreshed (to_fresh_round task current r) r.last_clock
        r.last_uuid

  unfoldable pub create_reissued_round : Task → Reissue → M (Option Task)
  create_reissued_round task r = do
    throw_when (not (same_state task.state escalated || same_state task.state revoked))
        not_reissuable
    found ← query (get_current_consensus_round task)
    current ← present no_current_round found
    moved ←
        transition_consensus_task digest task (to_reissued task current r) r.first_clock
          r.first_uuid
    reissued_task ← present type_error moved
    open_fresh_round reissued_task current r
