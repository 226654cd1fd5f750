-- ===== src/Tests/Transitions.antt =====
-- A database with one task, and a transition of that task.
use adg_lang.Common.{ℕ, ◌≡◌, ◌⊎◌, refl, false, none, some, List, [], ◌∷◌, String}
use adg_lang.Js.{obj, end}
use adg_lang.Consensus.States.{
  State, draft, opened, independent_review, discussion, final_review, approved, published,
  same_state, assert_consensus_transition,
}
use adg_lang.Consensus.States.Histories.{full_review, StartsRound}
use adg_lang.Store.Tables.{Task, Event, Database, accepted}
use adg_lang.Store.Transition.{
  Transition, get_consensus_task, is_current, moved, move_row, is_moved, transition_batch,
  transition_consensus_task,
}
use adg_lang.Store.Transition.Trail.{origins, IsAudited}
use adg_lang.Store.Transition.Effects.{IsCommitted, stale_batch, IsCommitted-batch}
use adg_lang.Store.Transition.Calls.{transition_consensus_task-IsAudited, published_task_reviewed}

abbrev pub event : String → State → State → ℕ → Event
event id from to now = record {
  id = id;
  task_version_id = "task";
  round_id = some "round";
  event_type = "moved";
  from_state = from;
  to_state = to;
  actor_user_id = none;
  actor_subject_hash = none;
  reason_code = "reviewed";
  evidence_json = "{}";
  prior_state_hash = none;
  event_hash = "hash";
  idempotency_key = id;
  created_at = now;
}

abbrev pub task : State → ℕ → String → Task
task s version last = record {
  id = "task";
  task_id = "t1";
  task_version = 1;
  packet_id = "packet";
  holdout_id = "holdout";
  packet_merkle_root = "root";
  guideline_version = "1";
  data_version = "1";
  protocol_version = "1";
  metric_policy_json = "{}";
  state = s;
  state_version = version;
  current_round = 1;
  last_event_id = some last;
  active_final_receipt_id = none;
  appeal_deadline_at = none;
  repository_status = accepted;
  created_at = 1;
  updated_at = 1;
  approved_at = none;
  published_at = none;
  revoked_at = none;
}

abbrev pub database : Task → List Event → Database
database t events = record {
  tasks = t ∷ [];
  rounds = [];
  events = events;
  outbox = [];
  submissions = [];
  appeals = [];
}

abbrev opened_events : List Event
opened_events = event "e1" draft opened 1 ∷ []

abbrev opened_task : Task
opened_task = task opened 0 "e1"

abbrev opened_database : Database
opened_database = database opened_task opened_events

abbrev begin_review : Transition
begin_review = record {
  to_state = independent_review;
  round_id = some "round";
  event_type = "independent-review-started";
  reason_code = "two-primaries";
  evidence = obj end;
  actor_user_id = none;
  actor_subject_hash = none;
  idempotency_key = "key";
  created_at = some 7;
  event_id = some "e2";
  appeal_deadline_at = none;
  clear_active_final = false;
  active_final_receipt_id = none;
  require_publication_ready = false;
  publication_guard_at = none;
}

opened_database-IsAudited : IsAudited opened_database
unfolding assert_consensus_transition
opened_database-IsAudited = record {
  distinct_tasks = (refl, tt);
  distinct_events = (refl, tt);
  distinct_keys = (refl, tt);
  trails = (record { history = (refl, refl); counted = refl; recorded = refl }, tt);
}

-- The caller's copy counts another version than the row.
stale_batch_example :
    let e = event "e2" opened independent_review 7 in
    (transition_batch (task opened 3 "e1") begin_review 7 e opened_database ≡ none)
    ⊎ (transition_batch (task opened 3 "e1") begin_review 7 e opened_database
        ≡ some ((false, false), opened_database))
unfolding is_current same_state
stale_batch_example =
    stale_batch (task opened 3 "e1") begin_review 7 (event "e2" opened independent_review 7)
      opened_database opened_database-IsAudited refl

IsCommitted-batch_example :
    IsCommitted opened_task begin_review 7
      (event "e2" opened independent_review 7)
      opened_database
      (database
        (moved begin_review "e2" 7 opened_task)
        (event "e2" opened independent_review 7 ∷ opened_events))
unfolding transition_batch is_moved move_row is_current moved same_state
IsCommitted-batch_example =
    IsCommitted-batch opened_task begin_review 7 (event "e2" opened independent_review 7)
      opened_database
      (database (moved begin_review "e2" 7 opened_task)
        (event "e2" opened independent_review 7 ∷ opened_events))
      opened_database-IsAudited refl

transition_consensus_task-IsAudited_example :
    IsAudited
      (transition_consensus_task
        (λ s. s)
        opened_task
        begin_review
        7
        "uuid"
        (record { db = opened_database; others = (λ db. record db { rounds = [] }) ∷ [] })).1.db
transition_consensus_task-IsAudited_example =
    transition_consensus_task-IsAudited (λ s. s) opened_task begin_review 7 "uuid"
      (record { db = opened_database; others = (λ db. record db { rounds = [] }) ∷ [] })
      (record {
        holds = opened_database-IsAudited;
        fair = (
          λ db h. record {
            distinct_tasks = h.distinct_tasks;
            distinct_events = h.distinct_events;
            distinct_keys = h.distinct_keys;
            trails = h.trails;
          },
          tt,
        );
      })

abbrev review_events : List Event
review_events =
    event "e6" approved published 6
    ∷ event "e5" final_review approved 5
    ∷ event "e4" discussion final_review 4
    ∷ event "e3" independent_review discussion 3
    ∷ event "e2" opened independent_review 2
    ∷ event "e1" draft opened 1
    ∷ []

abbrev published_database : Database
published_database = database (task published 5 "e6") review_events

published_database-IsAudited : IsAudited published_database
unfolding assert_consensus_transition
published_database-IsAudited = record {
  distinct_tasks = (refl, tt);
  distinct_events = (refl, (refl, (refl, (refl, (refl, (refl, tt))))));
  distinct_keys = (refl, (refl, (refl, (refl, (refl, (refl, tt))))));
  trails = (
    record {
      history = (refl, (refl, (refl, (refl, (refl, (refl, refl))))));
      counted = refl;
      recorded = refl;
    },
    tt,
  );
}

published_task_reviewed_example :
    (older : List State) × (origins "task" published_database.events ≡ full_review older)
    × StartsRound older
unfolding get_consensus_task
published_task_reviewed_example =
    published_task_reviewed published_database "task" (task published 5 "e6")
      published_database-IsAudited refl refl
