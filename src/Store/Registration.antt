-- ===== src/Store/Registration.antt =====
-- `taskVersionIdentity` and `consensusRoundId` of
-- tools/msa-adjudication-workbench/src/consensus.js, and the registration of a task version in
-- tools/msa-adjudication-workbench/src/consensus-store.js: `prepareConsensusTaskRegistration`,
-- `ensureConsensusTask`, `assertConsensusTaskRegistration` and `consensusTaskMatches`.
pub mod Bound
pub mod Keys
pub mod Twice
use Prim.Native.String.{◌++◌}
use adg_lang.Common.{
  ℕ, ◌+◌, ◌*◌, Bool, true, false, not, ◌&&◌, ◌||◌, Option, none, some, List, [], ◌∷◌,
  ◌++◌ as append, String, str_eq, ◌==◌, any, find, is_some, if◌then◌else◌,
}
use adg_lang.Js.{Value, num, whole, pos, str, obj, end, prop}
use adg_lang.Js.Text.{show_ℕ, stringify}
use adg_lang.Consensus.States.{State, draft, opened}
use adg_lang.Consensus.EventHash.{consensus_event_hash}
use adg_lang.Store.Tables.{Task, Round, Event, Database, not_sent, open_round}
use adg_lang.Store.Calls.{
  StoreError, conflict, M, pure, throw, throw_when, query, batch, ◌>>=◌, ◌>>◌,
}
use adg_lang.Store.Transition.{get_consensus_task, is_task, event_taken}

-- The fields of a packet that are read here; `validatePacket` has checked their types.
pub record Packet : Type 0 where
  pub task_id : String
  pub task_version : ℕ
  pub packet_id : String
  pub holdout_id : String
  pub guideline_version : String
  pub data_version : String
  pub protocol_version : String
  pub metric_policy : Value

abbrev pub task_version_id : Packet → String
task_version_id packet = packet.task_id ++ (":v" ++ show_ℕ packet.task_version)

unfoldable pub consensus_round_id : String → ℕ → String
consensus_round_id id round_number = id ++ (":r" ++ show_ℕ round_number)

-- 14 days in milliseconds
abbrev pub round_deadline_ms : ℕ
round_deadline_ms = 14 * 24 * 60 * 60 * 1000

-- The identity as a value, for the event's evidence.
abbrev pub task_version_identity : Packet → String → Value
task_version_identity packet root = obj (
    prop "id" (str (task_version_id packet)) (
      prop "taskId" (str packet.task_id) (
        prop "taskVersion" (num (whole (pos packet.task_version))) (
          prop "packetId" (str packet.packet_id) (
            prop "holdoutId" (str packet.holdout_id) (
              prop "packetMerkleRoot" (str root) (
                prop "guidelineVersion" (str packet.guideline_version) (
                  prop "dataVersion" (str packet.data_version)
                    (prop "protocolVersion" (str packet.protocol_version) end)))))))))

abbrev pub initial_event_id : Packet → String
initial_event_id packet = "task-open:" ++ task_version_id packet

-- `parse_json` stands for `JSON.parse`; the column is only written by `JSON.stringify`.
unfoldable pub consensus_task_matches : (String → Value) → Packet → String → Task → Bool
consensus_task_matches parse_json packet root task =
    str_eq task.task_id packet.task_id
    && task.task_version == packet.task_version
    && str_eq task.packet_id packet.packet_id
    && str_eq task.holdout_id packet.holdout_id
    && str_eq task.packet_merkle_root root
    && str_eq task.guideline_version packet.guideline_version
    && str_eq task.data_version packet.data_version
    && str_eq task.protocol_version packet.protocol_version
    && str_eq (stringify (parse_json task.metric_policy_json)) (stringify packet.metric_policy)

-- `Boolean(task && …)`
abbrev pub found_matches : (String → Value) → Packet → String → Option Task → Bool
found_matches parse_json packet root none = false
found_matches parse_json packet root (some t) = consensus_task_matches parse_json packet root t

abbrev find_packet : String → Database → Option Task
find_packet packet_id db = find (λ t. str_eq t.packet_id packet_id) db.tasks

abbrev bound_elsewhere : Packet → String → Option Task → Bool
bound_elsewhere packet root none = false
bound_elsewhere packet root (some t) =
    not (str_eq t.id (task_version_id packet)) || not (str_eq t.packet_merkle_root root)

-- The PRIMARY KEY and the UNIQUE keys of the tasks and the rounds.
abbrev pub task_taken : Task → List Task → Bool
task_taken t = any (λ u.
    str_eq u.id t.id
    || str_eq u.task_id t.task_id && u.task_version == t.task_version
    || str_eq u.packet_id t.packet_id)

abbrev pub round_taken : Round → List Round → Bool
round_taken r = any (λ s.
    str_eq s.id r.id
    || str_eq s.task_version_id r.task_version_id && s.round_number == r.round_number)

abbrev pub has_round : String → List Round → Bool
has_round id = any (λ r. str_eq r.id id)

-- The three `INSERT OR IGNORE` of the batch. A foreign key is not ignored: the round's task and
-- the event's round must be there.
unfoldable pub registration_batch : Task → Round → Event → Database → Option (Unit {0} × Database)
registration_batch t r e db =
    let tasks' = if task_taken t db.tasks then db.tasks else append db.tasks (t ∷ []) in
    let rounds' = if round_taken r db.rounds then db.rounds else append db.rounds (r ∷ []) in
    let events' = if event_taken e db.events then db.events else e ∷ db.events in
    if any (is_task r.task_version_id) tasks' && has_round r.id rounds'
    then some (tt, record db { tasks = tasks'; rounds = rounds'; events = events' })
    else none

abbrev pub task_conflict : StoreError
task_conflict = conflict "Task identity is already bound to different versioned evidence."

abbrev pub packet_conflict : StoreError
packet_conflict = conflict "Packet identity is already bound to different versioned evidence."

module _ (digest : String → String) (parse_json : String → Value) where
  abbrev pub evidence_of : Packet → String → Value
  evidence_of packet root = obj (
      prop "taskVersionId" (str (task_version_id packet)) (
        prop "taskBinding" (task_version_identity packet root)
          (prop "metricPolicy" packet.metric_policy end)))

  unfoldable pub initial_task : Packet → String → ℕ → Task
  initial_task packet root now = record {
    id = task_version_id packet;
    task_id = packet.task_id;
    task_version = packet.task_version;
    packet_id = packet.packet_id;
    holdout_id = packet.holdout_id;
    packet_merkle_root = root;
    guideline_version = packet.guideline_version;
    data_version = packet.data_version;
    protocol_version = packet.protocol_version;
    metric_policy_json = stringify packet.metric_policy;
    state = opened;
    state_version = 0;
    current_round = 1;
    last_event_id = some (initial_event_id packet);
    active_final_receipt_id = none;
    appeal_deadline_at = none;
    repository_status = not_sent;
    created_at = now;
    updated_at = now;
    approved_at = none;
    published_at = none;
    revoked_at = none;
  }

  unfoldable pub initial_round : Packet → ℕ → Round
  initial_round packet now = record {
    id = consensus_round_id (task_version_id packet) 1;
    task_version_id = task_version_id packet;
    round_number = 1;
    status = open_round;
    reissue_reason = none;
    opened_at = now;
    deadline_at = now + round_deadline_ms;
    closed_at = none;
    prior_round_id = none;
  }

  unfoldable pub initial_event : Packet → String → ℕ → Event
  initial_event packet root now =
      let round_id = consensus_round_id (task_version_id packet) 1 in
      record {
        id = initial_event_id packet;
        task_version_id = task_version_id packet;
        round_id = some round_id;
        event_type = "task-opened";
        from_state = draft;
        to_state = opened;
        actor_user_id = none;
        actor_subject_hash = none;
        reason_code = "task-version-registered";
        evidence_json = stringify (evidence_of packet root);
        prior_state_hash = none;
        event_hash = consensus_event_hash digest (
            obj (
              prop "id" (str (initial_event_id packet)) (
                prop "taskVersionId" (str (task_version_id packet)) (
                  prop "roundId" (str round_id) (
                    prop "eventType" (str "task-opened") (
                      prop "fromState" (str "draft") (
                        prop "toState" (str "open") (
                          prop "reasonCode" (str "task-version-registered") (
                            prop "evidence" (evidence_of packet root)
                              (prop "createdAt" (num (whole (pos now))) end))))))))));
        idempotency_key = initial_event_id packet;
        created_at = now;
      }

  -- The result is the batch of the prepared statements.
  unfoldable pub prepare_consensus_task_registration :
      Packet → String → ℕ → M (Database → Option (Unit {0} × Database))
  prepare_consensus_task_registration packet root now = do
    id_binding ← query (get_consensus_task (task_version_id packet))
    throw_when (is_some id_binding && not (found_matches parse_json packet root id_binding))
        task_conflict
    packet_binding ← query (find_packet packet.packet_id)
    throw_when (bound_elsewhere packet root packet_binding) packet_conflict
    pure (
        registration_batch (initial_task packet root now) (initial_round packet now)
          (initial_event packet root now))

  unfoldable pub assert_consensus_task_registration : Packet → String → M (Option Task)
  assert_consensus_task_registration packet root = do
    task ← query (get_consensus_task (task_version_id packet))
    throw_when (not (found_matches parse_json packet root task)) task_conflict
    pure task

  unfoldable pub ensure_consensus_task : Packet → String → ℕ → M (Option Task)
  ensure_consensus_task packet root now = do
    statements ← prepare_consensus_task_registration packet root now
    batch statements
    assert_consensus_task_registration packet root
