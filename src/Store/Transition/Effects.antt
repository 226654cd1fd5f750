-- ===== src/Store/Transition/Effects.antt =====
-- What the batch of a transition does to the rows.
use adg_lang.Common.{
  ℕ, ◌≡◌, ◌≢◌, ◌⊎◌, inl, inr, refl, ◌∙◌, subst, ap, arith, true, false, Option, none, some, List,
  [], ◌∷◌, map, String, str_eq, eq_iff, All, any, find, has, if◌then◌else◌, Bool-cases, AllDistinct,
}
use mathlib.Core.Option
use adg_lang.Store.Tables.{Task, Event, Appeal, Database}
use adg_lang.Store.Transition.{
  Transition, is_task, is_current, moved, move_row, is_moved, event_taken, has_id, transition_batch,
  get_consensus_task,
}
use adg_lang.Store.Transition.Trail.{HasTrail, IsAudited, is_recorded, event_ids, task_ids}

module _ (task : Task) (tr : Transition) (now : ℕ) (e : Event) where
  unmoved :
      (appeals : List Appeal) (tasks : List Task)
      → any (is_current appeals task tr now) tasks ≡ false
      → map (move_row appeals task tr e.id now) tasks ≡ tasks
  unfolding move_row
  unmoved appeals [] h = refl
  unmoved appeals (t ∷ tasks) h = ground (arith, unmoved appeals tasks)

  taken_of_has :
      (events : List Event) → has e.id (event_ids events) ≡ true → event_taken e events ≡ true
  taken_of_has [] h = cc
  taken_of_has (f ∷ events) h =
      ground (arith, eq_iff e.id f.id, eq_iff f.id e.id, taken_of_has events)

  moved_recorded :
      (events : List Event) (last : Option String)
      → has_id last e.id ≡ true
      → is_recorded last events ≡ true
      → event_taken e events ≡ true
  moved_recorded events none h r = cc
  moved_recorded events (some id) h r =
      taken_of_has events (subst (λ i. has i (event_ids events) ≡ true) ((eq_iff id e.id).0 h) r)

  -- A row that an event with this id has moved before has left that event in the table.
  found_taken :
      (events : List Event) (tasks : List Task)
      → All (HasTrail events) tasks
      → any (is_moved task tr e.id) tasks ≡ true
      → event_taken e events ≡ true
  unfolding is_moved
  found_taken events [] trails h = cc
  found_taken events (t ∷ tasks) trails h = elim (Bool-cases (has_id t.last_event_id e.id)) [
    | inl same ↦ moved_recorded events t.last_event_id same trails.0.recorded
    | inr other ↦ found_taken events tasks trails.1 (ground arith)
  ]

  -- In an audited database a caller whose copy of the task is stale changes nothing: the batch is
  -- refused, or it reports no change and leaves the database as it was.
  pub stale_batch :
      (db : Database)
      → IsAudited db
      → any (is_current db.appeals task tr now) db.tasks ≡ false
      → (transition_batch task tr now e db ≡ none)
        ⊎ (transition_batch task tr now e db ≡ some ((false, false), db))
  unfolding transition_batch
  stale_batch db audit h = elim (Bool-cases (any (is_moved task tr e.id) db.tasks)) [
    | inl found ↦ inl (
        rw (h, unmoved db.appeals db.tasks h, found)
          (rw (found_taken db.events db.tasks audit.trails found)))
    | inr missing ↦ inr (rw (h, unmoved db.appeals db.tasks h, missing))
  ]

  move_row_kept :
      (appeals : List Appeal) (t : Task) → (move_row appeals task tr e.id now t).id ≡ t.id
  unfolding move_row moved
  move_row_kept appeals t = ground arith

  current_id :
      (appeals : List Appeal) (t : Task)
      → is_current appeals task tr now t ≡ true
      → str_eq t.id task.id ≡ true
  unfolding is_current
  current_id appeals t h = ground arith

  current_listed :
      (appeals : List Appeal) (tasks : List Task)
      → any (is_current appeals task tr now) tasks ≡ true
      → has task.id (task_ids tasks) ≡ true
  current_listed appeals [] h = cc
  current_listed appeals (t ∷ tasks) h = ground (
    arith,
    current_id appeals t,
    eq_iff t.id task.id,
    eq_iff task.id t.id,
    current_listed appeals tasks,
  )

  find_current :
      (appeals : List Appeal) (tasks : List Task)
      → AllDistinct (task_ids tasks)
      → any (is_current appeals task tr now) tasks ≡ true
      → (row : Task) × (find (is_task task.id) tasks ≡ some row)
        × (is_current appeals task tr now row ≡ true)
  find_current appeals [] d h = absurd (ground arith)
  find_current appeals (t ∷ tasks) d h = elim (Bool-cases (is_current appeals task tr now t)) [
    | inl now_current ↦ (t, rw (current_id appeals t now_current), now_current)
    | inr n ↦
        let later : any (is_current appeals task tr now) tasks ≡ true = ground arith in
        let (row, found, c) = find_current appeals tasks d.1 later in
        let other : str_eq t.id task.id ≡ false =
          ground (arith, current_listed appeals tasks later, eq_iff t.id task.id, d.0) in
        (row, rw other found, c)
  ]

  find_moved :
      (appeals : List Appeal) (tasks : List Task) (id : String)
      → find (is_task id) (map (move_row appeals task tr e.id now) tasks)
        ≡ Option.map (move_row appeals task tr e.id now) (find (is_task id) tasks)
  find_moved appeals [] id = refl
  find_moved appeals (t ∷ tasks) id =
      ground (arith, move_row_kept appeals t, find_moved appeals tasks id)

  other_row :
      (appeals : List Appeal) (tasks : List Task) (id : String)
      → id ≢ task.id
      → Option.map (move_row appeals task tr e.id now) (find (is_task id) tasks)
        ≡ find (is_task id) tasks
  unfolding move_row is_current
  other_row appeals [] id n = refl
  other_row appeals (t ∷ tasks) id n =
      ground (arith, other_row appeals tasks id n, eq_iff t.id id, eq_iff t.id task.id)

  moves_current :
      (appeals : List Appeal) (t : Task)
      → is_current appeals task tr now t ≡ true
      → move_row appeals task tr e.id now t ≡ moved tr e.id now t
  unfolding move_row
  moves_current appeals t h = rw h

  row_after :
      (appeals : List Appeal) (tasks : List Task) (row : Task) (id : String)
      → find (is_task task.id) tasks ≡ some row
      → is_current appeals task tr now row ≡ true
      → Option.map (move_row appeals task tr e.id now) (find (is_task id) tasks)
        ≡ (if str_eq id task.id then some (moved tr e.id now row) else find (is_task id) tasks)
  row_after appeals tasks row id found c = elim (Bool-cases (str_eq id task.id)) [
    | inl same ↦
        rw (same, (eq_iff id task.id).0 same, found) (ap some (moves_current appeals row c))
    | inr other ↦ rw other (other_row appeals tasks id (ground (arith, eq_iff id task.id)))
  ]

  -- The committed database, and that a row was current and an event inserted.
  committed_shape :
      (db db' : Database)
      → transition_batch task tr now e db ≡ some ((true, true), db')
      → (any (is_current db.appeals task tr now) db.tasks ≡ true)
        × (record db {
          tasks = map (move_row db.appeals task tr e.id now) db.tasks;
          events = e ∷ db.events;
        }
            ≡ db')
  unfolding transition_batch
  committed_shape db db' h =
      let updated = any (is_current db.appeals task tr now) db.tasks in
      let inserted =
        any (is_moved task tr e.id) (map (move_row db.appeals task tr e.id now) db.tasks) in
      elim (Bool-cases updated) [
        | inl u ↦ elim (Bool-cases inserted) [
          | inl i ↦ elim (Bool-cases (event_taken e db.events)) [
            | inl taken ↦ let h' = rw (u, i, taken) at h in cc
            | inr free ↦ let h' = rw (u, i, free) at h in (u, cc)
          ]
          | inr m ↦ let h' = rw (u, m) at h in cc
        ]
        | inr s ↦ elim (Bool-cases inserted) [
          | inl i ↦ elim (Bool-cases (event_taken e db.events)) [
            | inl taken ↦ let h' = rw (s, i, taken) at h in cc
            | inr free ↦ let h' = rw (s, i, free) at h in cc
          ]
          | inr m ↦ let h' = rw (s, m) at h in cc
        ]
      ]

  -- What a batch that changed one row and inserted one event has done to the tasks and events.
  abbrev pub IsCommitted : Database → Database → Type 0
  IsCommitted db db' =
      (row : Task) × (get_consensus_task task.id db ≡ some row)
      × (is_current db.appeals task tr now row ≡ true)
      × ((id : String)
          → get_consensus_task id db' ≡ (
              if str_eq id task.id then some (moved tr e.id now row) else get_consensus_task id db))
      × (db'.events ≡ e ∷ db.events)

  -- In an audited database a batch that reports one change each found the row as the caller has
  -- it, moved this row and no other to the new state, and added exactly the caller's event.
  pub IsCommitted-batch :
      (db db' : Database)
      → IsAudited db
      → transition_batch task tr now e db ≡ some ((true, true), db')
      → IsCommitted db db'
  unfolding get_consensus_task
  IsCommitted-batch db db' audit h =
      let (updated, same) = committed_shape db db' h in
      let (row, found, c) = find_current db.appeals db.tasks audit.distinct_tasks updated in
      subst (IsCommitted db) same (
        row,
        found,
        c,
        λ id. find_moved db.appeals db.tasks id ∙ row_after db.appeals db.tasks row id found c,
        refl,
      )
