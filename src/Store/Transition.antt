-- ===== src/Store/Transition.antt =====
-- `transitionConsensusTask` and the lookups of
-- tools/msa-adjudication-workbench/src/consensus-store.js.
pub mod Trail
pub mod Updates
pub mod Effects
pub mod Audit
pub mod Calls
use adg_lang.Common.{
  ℕ, suc, ◌+◌, Bool, true, false, not, ◌&&◌, ◌||◌, Option, none, some, is_some, Result, ok, err,
  List, [], ◌∷◌, map, String, str_eq, ◌==◌, leb, any, find, if◌then◌else◌,
}
use adg_lang.Js.{Value, undefined, null, num, whole, pos, str, obj, end, prop, is_nullish}
use adg_lang.Js.Text.{stringify}
use adg_lang.Consensus.States.{
  State, draft, opened, independent_review, discussion, final_review, approved, published,
  escalated, reissued, revoked, failed, same_state, assert_consensus_transition,
}
use adg_lang.Consensus.EventHash.{consensus_event_hash}
use adg_lang.Store.Tables.{Task, Round, Event, Appeal, Database}
use adg_lang.Store.Calls.{
  StoreError, conflict, transition, M, pure, throw, throw_when, query, batch, ◌>>=◌, ◌>>◌,
}

abbrev pub is_task : String → Task → Bool
is_task id t = str_eq t.id id

unfoldable pub get_consensus_task : String → Database → Option Task
get_consensus_task id db = find (is_task id) db.tasks

pub get_current_consensus_round : Task → Database → Option Round
get_current_consensus_round task db =
    find (λ r. str_eq r.task_version_id task.id && r.round_number == task.current_round) db.rounds

-- The second argument of `transitionConsensusTask`; a field that the caller leaves out is `none`
-- or false.
pub record Transition : Type 0 where
  pub to_state : State
  pub round_id : Option String
  pub event_type : String
  pub reason_code : String
  pub evidence : Value
  pub actor_user_id : Option String
  pub actor_subject_hash : Option String
  pub idempotency_key : String
  pub created_at : Option ℕ
  pub event_id : Option String
  pub appeal_deadline_at : Option ℕ
  pub clear_active_final : Bool
  pub active_final_receipt_id : Option String
  pub require_publication_ready : Bool
  pub publication_guard_at : Option ℕ

-- `a ?? b` and `COALESCE(a, b)`
abbrev pub or_else {ℓ} : {A : Type ℓ} → Option A → A → A
or_else none b = b
or_else (some a) b = a

-- `transition.evidence ?? {}`
abbrev evidence_of_transition : Transition → Value
evidence_of_transition tr = if is_nullish tr.evidence then obj end else tr.evidence

abbrev pub coalesce {ℓ} : {A : Type ℓ} → Option A → Option A → Option A
coalesce none b = b
coalesce (some a) b = some a

abbrev pub has_id : Option String → String → Bool
has_id none id = false
has_id (some j) id = str_eq j id

-- The condition of the UPDATE for a publication: the appeals are over.
abbrev pub publication_ready : List Appeal → ℕ → Task → Bool
publication_ready appeals now t =
    (elim t.appeal_deadline_at [ none ↦ false | some deadline ↦ leb deadline now ])
    && not (any (λ a. str_eq a.task_version_id t.id && a.is_pending) appeals)

-- The WHERE clause of the UPDATE: the row is still the one that the caller has read.
unfoldable pub is_current : List Appeal → Task → Transition → ℕ → Task → Bool
is_current appeals task tr now t =
    str_eq t.id task.id
    && same_state t.state task.state
    && t.state_version == task.state_version
    && (not tr.require_publication_ready
        || publication_ready appeals (or_else tr.publication_guard_at now) t)

-- The SET clause of the UPDATE.
unfoldable pub moved : Transition → String → ℕ → Task → Task
moved tr event_id now t = record t {
  state = tr.to_state;
  state_version = t.state_version + 1;
  last_event_id = some event_id;
  updated_at = now;
  appeal_deadline_at = coalesce tr.appeal_deadline_at t.appeal_deadline_at;
  active_final_receipt_id =
      if tr.clear_active_final
      then none
      else coalesce tr.active_final_receipt_id t.active_final_receipt_id;
  approved_at = if same_state tr.to_state approved then some now else t.approved_at;
  published_at = if same_state tr.to_state published then some now else t.published_at;
  revoked_at = if same_state tr.to_state revoked then some now else t.revoked_at;
}

unfoldable pub move_row : List Appeal → Task → Transition → String → ℕ → Task → Task
move_row appeals task tr event_id now t =
    if is_current appeals task tr now t then moved tr event_id now t else t

-- The WHERE clause of the INSERT: the row has just been moved by this event.
unfoldable pub is_moved : Task → Transition → String → Task → Bool
is_moved task tr event_id t =
    str_eq t.id task.id
    && has_id t.last_event_id event_id
    && same_state t.state tr.to_state
    && t.state_version == task.state_version + 1

-- The PRIMARY KEY and the UNIQUE key of the events.
abbrev pub event_taken : Event → List Event → Bool
event_taken e events =
    any (λ f. str_eq f.id e.id || str_eq f.idempotency_key e.idempotency_key) events

-- The batch: the UPDATE and the INSERT, with the number of events that were inserted. At most one
-- row has the task's id, so the number of rows changed by the UPDATE is 1 or 0 with `updated`.
unfoldable pub transition_batch :
    Task → Transition → ℕ → Event → Database → Option ((Bool × Bool) × Database)
transition_batch task tr now e db =
    let updated = any (is_current db.appeals task tr now) db.tasks in
    let tasks' = map (move_row db.appeals task tr e.id now) db.tasks in
    let inserted = any (is_moved task tr e.id) tasks' in
    if inserted && event_taken e db.events
    then none
    else some (
      (updated, inserted),
      record db { tasks = tasks'; events = if inserted then e ∷ db.events else db.events },
    )

abbrev pub key_used : String → Database → Bool
key_used key db = any (λ e. str_eq e.idempotency_key key) db.events

abbrev text_or_null : Option String → Value
text_or_null none = null
text_or_null (some s) = str s

abbrev state_name : State → String
state_name draft = "draft"
state_name opened = "open"
state_name independent_review = "independent-review"
state_name discussion = "discussion"
state_name final_review = "final-review"
state_name approved = "approved"
state_name published = "published"
state_name escalated = "escalated"
state_name reissued = "reissued"
state_name revoked = "revoked"
state_name failed = "failed"

abbrev number : ℕ → Value
number n = num (whole (pos n))

unfoldable pub assert_transition : State → State → M (Unit {0})
assert_transition from to = elim (assert_consensus_transition from to) [
  | ok _ ↦ pure tt
  | err e ↦ throw (transition e)
]

abbrev pub changed_concurrently : StoreError
changed_concurrently = conflict "Consensus state changed concurrently; reload the task."

-- After a batch that did not change one row each: an error, unless the key is there by now.
unfoldable pub settle : String → Bool × Bool → M (Unit {0})
settle key (updated, inserted) =
    if updated && inserted
    then pure tt
    else do known ← query (key_used key); throw_when (not known) changed_concurrently

module _ (digest : String → String) where
  prior_state_hash : Task → String
  prior_state_hash task = consensus_event_hash digest (
      obj (
        prop "taskVersionId" (str task.id) (
          prop "state" (str (state_name task.state)) (
            prop "stateVersion" (number task.state_version) (
              prop "currentRound" (number task.current_round)
                (prop "lastEventId" (text_or_null task.last_event_id) end))))))

  event_hash : Task → Transition → String → ℕ → String
  event_hash task tr event_id now = consensus_event_hash digest (
      obj (
        prop "id" (str event_id) (
          prop "taskVersionId" (str task.id) (
            prop "roundId" (text_or_null tr.round_id) (
              prop "eventType" (str tr.event_type) (
                prop "fromState" (str (state_name task.state)) (
                  prop "toState" (str (state_name tr.to_state)) (
                    prop "actorUserId" (text_or_null tr.actor_user_id) (
                      prop "actorSubjectHash" (text_or_null tr.actor_subject_hash) (
                        prop "reasonCode" (str tr.reason_code) (
                          prop "evidence" (evidence_of_transition tr) (
                            prop "priorStateHash" (str (prior_state_hash task))
                              (prop "createdAt" (number now) end)))))))))))))

  -- The row that the INSERT adds.
  pub event_row : Task → Transition → String → ℕ → Event
  event_row task tr event_id now = record {
    id = event_id;
    task_version_id = task.id;
    round_id = tr.round_id;
    event_type = tr.event_type;
    from_state = task.state;
    to_state = tr.to_state;
    actor_user_id = tr.actor_user_id;
    actor_subject_hash = tr.actor_subject_hash;
    reason_code = tr.reason_code;
    evidence_json = stringify (evidence_of_transition tr);
    prior_state_hash = some (prior_state_hash task);
    event_hash = event_hash task tr event_id now;
    idempotency_key = tr.idempotency_key;
    created_at = now;
  }

  -- The batch, and what follows it; `now` and `event_id` are settled.
  pub apply_transition : Task → Transition → String → ℕ → M (Option Task)
  apply_transition task tr event_id now = do
    changes ← batch (transition_batch task tr now (event_row task tr event_id now))
    settle tr.idempotency_key changes
    query (get_consensus_task task.id)

  -- `clock` is the value of `Date.now()`, `uuid` that of `crypto.randomUUID()`.
  unfoldable pub transition_consensus_task : Task → Transition → ℕ → String → M (Option Task)
  transition_consensus_task task tr clock uuid = do
    assert_transition task.state tr.to_state
    existing ← query (key_used tr.idempotency_key)
    if existing
        then query (get_consensus_task task.id)
        else apply_transition task tr (or_else tr.event_id uuid) (or_else tr.created_at clock)
