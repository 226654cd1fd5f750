-- ===== src/Store/Transition/Trail.antt =====
-- The invariant of the tables: the events of each task are its history.
use adg_lang.Common.{
  ◌+◌, ◌≡◌, Bool, true, false, Option, none, some, List, [], ◌∷◌, map, String, str_eq, All,
  AllDistinct, has, length, if◌then◌else◌,
}
use adg_lang.Consensus.States.{State}
use adg_lang.Consensus.States.Histories.{IsHistory}
use adg_lang.Store.Tables.{Task, Event, Database}

-- The states that a task has left, newest first.
abbrev pub origins : String → List Event → List State
origins id [] = []
origins id (e ∷ events) =
    let rest = origins id events in
    if str_eq e.task_version_id id then e.from_state ∷ rest else rest

abbrev pub event_ids : List Event → List String
event_ids = map (λ e. e.id)

abbrev pub event_keys : List Event → List String
event_keys = map (λ e. e.idempotency_key)

abbrev pub task_ids : List Task → List String
task_ids = map (λ t. t.id)

abbrev pub is_recorded : Option String → List Event → Bool
is_recorded none events = false
is_recorded (some id) events = has id (event_ids events)

-- The task's state and the states that its events left make a history that the transition table
-- admits, each event counts one version, and the last one is in the table.
pub record HasTrail (events : List Event) (t : Task) : Type 0 where
  pub history : IsHistory (t.state ∷ origins t.id events)
  pub counted : length (origins t.id events) ≡ t.state_version + 1
  pub recorded : is_recorded t.last_event_id events ≡ true

pub record IsAudited (db : Database) : Type 0 where
  pub distinct_tasks : AllDistinct (task_ids db.tasks)
  pub distinct_events : AllDistinct (event_ids db.events)
  pub distinct_keys : AllDistinct (event_keys db.events)
  pub trails : All (HasTrail db.events) db.tasks
