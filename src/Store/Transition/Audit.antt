-- ===== src/Store/Transition/Audit.antt =====
-- Every transition keeps the trails of all tasks, whatever other requests do in between.
use adg_lang.Common.{
  ℕ, ◌≡◌, sym, subst, Bool, true, false, Option, some, List, ◌∷◌, map, any, AllDistinct, Bool-cases,
  inl, inr,
}
use adg_lang.Consensus.States.Histories.{Allowed}
use adg_lang.Store.Tables.{Task, Event, Database}
use adg_lang.Store.Transition.{Transition, move_row, is_moved, event_taken, transition_batch}
use adg_lang.Store.Transition.Trail.{IsAudited}
use adg_lang.Store.Transition.Updates.{
  event-fresh, rows_inserted, rows_kept, inserted_cases, not_inserted_cases, task_ids-move_row,
}

same_database :
    {A : Type 0} (a a' : A) (db db' : Database)
    → ◌≡◌ {A = Option (A × Database)} (some (a, db)) (some (a', db'))
    → db ≡ db'
same_database a a' db db' h = cc

module _ (task : Task) (tr : Transition) (now : ℕ) (e : Event)
    (of_task : e.task_version_id ≡ task.id) (from_it : e.from_state ≡ task.state) where
  abbrev rows : Database → List Task
  rows db = map (move_row db.appeals task tr e.id now) db.tasks

  inserted-IsAudited :
      (db : Database)
      → Allowed task.state tr.to_state
      → any (is_moved task tr e.id) (rows db) ≡ true
      → event_taken e db.events ≡ false
      → IsAudited db
      → IsAudited (record db { tasks = rows db; events = e ∷ db.events })
  inserted-IsAudited db a found free audit =
      let (new_id, new_key) = event-fresh e db.events free in
      let cases =
        inserted_cases db.appeals task tr now e of_task from_it db.tasks audit.distinct_tasks
          found in
      record {
        distinct_tasks =
            subst AllDistinct
              (sym (task_ids-move_row db.appeals task tr now e of_task from_it db.tasks))
              audit.distinct_tasks;
        distinct_events = (new_id, audit.distinct_events);
        distinct_keys = (new_key, audit.distinct_keys);
        trails =
            rows_inserted db.appeals task tr now e of_task from_it db.events db.tasks a new_id cases
              audit.trails;
      }

  kept-IsAudited :
      (db : Database)
      → any (is_moved task tr e.id) (rows db) ≡ false
      → IsAudited db
      → IsAudited (record db { tasks = rows db; events = db.events })
  kept-IsAudited db missing audit =
      let idle = not_inserted_cases db.appeals task tr now e of_task from_it db.tasks missing in
      record {
        distinct_tasks =
            subst AllDistinct
              (sym (task_ids-move_row db.appeals task tr now e of_task from_it db.tasks))
              audit.distinct_tasks;
        distinct_events = audit.distinct_events;
        distinct_keys = audit.distinct_keys;
        trails =
            rows_kept db.appeals task tr now e of_task from_it db.events db.tasks idle audit.trails;
      }

  -- The batch keeps the invariant, whatever the database and the caller's copy of the row.
  pub batch-IsAudited :
      (db db' : Database) (changes : Bool × Bool)
      → Allowed task.state tr.to_state
      → transition_batch task tr now e db ≡ some (changes, db')
      → IsAudited db
      → IsAudited db'
  unfolding transition_batch
  batch-IsAudited db db' changes a h audit =
      elim (Bool-cases (any (is_moved task tr e.id) (rows db))) [
        | inl found ↦ elim (Bool-cases (event_taken e db.events)) [
          | inl taken ↦ let h' = rw (found, taken) at h in cc
          | inr free ↦
              subst IsAudited (same_database _ _ _ _ (rw (found, free) at h))
                (inserted-IsAudited db a found free audit)
        ]
        | inr missing ↦
            subst IsAudited (same_database _ _ _ _ (rw missing at h))
              (kept-IsAudited db missing audit)
      ]
