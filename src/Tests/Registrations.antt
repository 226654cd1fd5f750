-- ===== src/Tests/Registrations.antt =====
-- The registration of a task version in an empty database, and the reissue of an escalated task.
use adg_lang.Common.{◌≡◌, refl, none, some, List, [], ◌∷◌, inl, inr, true, str_eq, eq_iff}
use adg_lang.Common.Decimal.{decimal}
use adg_lang.Js.{obj, end}
use adg_lang.Js.Text.{stringify, show_ℕ, quoted}
use adg_lang.Consensus.States.{
  draft, opened, independent_review, escalated, assert_consensus_transition,
}
use adg_lang.Store.Tables.{Task, Round, Event, Database}
use adg_lang.Store.Transition.{get_consensus_task}
use adg_lang.Store.Transition.Trail.{IsAudited}
use adg_lang.Store.Registration.{
  Packet, initial_task, initial_round, initial_event, registration_batch, consensus_task_matches,
  consensus_round_id, prepare_consensus_task_registration, assert_consensus_task_registration,
  ensure_consensus_task,
}
use adg_lang.Store.Registration.Bound.{IsBoundRow, ensure_consensus_task-IsBoundRow}
use adg_lang.Store.Registration.Keys.{SameTask}
use adg_lang.Store.Registration.Twice.{HasKeys, IsRegistration, registration_batch-IsRegistration}
use adg_lang.Store.Reissue.{Reissue, create_reissued_round}
use adg_lang.Store.Reissue.Audit.{create_reissued_round-IsAudited}
use adg_lang.Tests.Transitions.{event, task, database}

abbrev packet : Packet
packet = record {
  task_id = "t2";
  task_version = 1;
  packet_id = "p1";
  holdout_id = "h1";
  guideline_version = "1.0";
  data_version = "1.0";
  protocol_version = "1.0";
  metric_policy = obj end;
}

abbrev with_tasks : List Task → Database
with_tasks tasks = record {
  tasks = tasks;
  rounds = [];
  events = [];
  outbox = [];
  submissions = [];
  appeals = [];
}

abbrev registered : Task
registered = initial_task (λ s. s) (λ _. obj end) packet "root" 7

ensure_consensus_task-IsBoundRow_example :
    IsBoundRow (λ s. s) (λ _. obj end) packet "root" (some registered)
unfolding ensure_consensus_task prepare_consensus_task_registration
    assert_consensus_task_registration registration_batch get_consensus_task consensus_task_matches
    consensus_round_id initial_task initial_round initial_event show_ℕ decimal stringify quoted
ensure_consensus_task-IsBoundRow_example =
    ensure_consensus_task-IsBoundRow (λ s. s) (λ _. obj end) packet "root" 7
      (record { db = with_tasks []; others = [] }) (some registered) refl

-- A registration next to a task that is there.
abbrev first_round : Round
first_round = initial_round (λ s. s) (λ _. obj end) packet 7

abbrev first_event : Event
first_event = initial_event (λ s. s) (λ _. obj end) packet "root" 7

abbrev two_tasks : List Task
two_tasks = task opened 0 "e1" ∷ registered ∷ []

-- The task is there already, its round and its event are not.
abbrev half_registered : Database
half_registered = with_tasks two_tasks

abbrev fully_registered : Database
fully_registered = record half_registered { rounds = first_round ∷ []; events = first_event ∷ [] }

half_registered-HasKeys : HasKeys half_registered
unfolding initial_task show_ℕ decimal
half_registered-HasKeys = record {
  tasks_apart = ((other, tt), (tt, tt));
  rounds_apart = tt;
  events_apart = tt;
}
  where
    other : ¬ SameTask (task opened 0 "e1") registered
    other (inl h) = let k : str_eq "task" "t2:v1" ≡ true = (eq_iff _ _).1 h in cc
    other (inr (inl h)) = let k : str_eq "t1" "t2" ≡ true = (eq_iff _ _).1 h.0 in cc
    other (inr (inr h)) = let k : str_eq "packet" "p1" ≡ true = (eq_iff _ _).1 h in cc

registration_batch-IsRegistration_example :
    HasKeys fully_registered
    × IsRegistration registered first_round first_event half_registered fully_registered
    × (registration_batch registered first_round first_event fully_registered
        ≡ some (tt, fully_registered))
unfolding registration_batch initial_task initial_round initial_event consensus_round_id show_ℕ
    decimal
registration_batch-IsRegistration_example =
    registration_batch-IsRegistration registered first_round first_event half_registered
      fully_registered half_registered-HasKeys refl

abbrev escalated_database : Database
escalated_database = database (task escalated 2 "e3") (
    event "e3" independent_review escalated 3
    ∷ event "e2" opened independent_review 2
    ∷ event "e1" draft opened 1
    ∷ [])

escalated_database-IsAudited : IsAudited escalated_database
unfolding assert_consensus_transition
escalated_database-IsAudited = record {
  distinct_tasks = (refl, tt);
  distinct_events = (refl, (refl, (refl, tt)));
  distinct_keys = (refl, (refl, (refl, tt)));
  trails = (record { history = (refl, (refl, (refl, refl))); counted = refl; recorded = refl }, tt);
}

abbrev reissue : Reissue
reissue = record {
  reason = "j2-disagreement";
  actor_user_id = none;
  actor_subject_hash = none;
  first_clock = 4;
  first_uuid = "e4";
  now = 5;
  last_clock = 6;
  last_uuid = "e5";
}

create_reissued_round-IsAudited_example :
    IsAudited
      (create_reissued_round
        (λ s. s)
        (task escalated 2 "e3")
        reissue
        (record { db = escalated_database; others = [] })).1.db
create_reissued_round-IsAudited_example =
    create_reissued_round-IsAudited (λ s. s) (task escalated 2 "e3") reissue
      (record { db = escalated_database; others = [] })
      (record { holds = escalated_database-IsAudited; fair = tt })
