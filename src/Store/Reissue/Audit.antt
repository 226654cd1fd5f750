-- ===== src/Store/Reissue/Audit.antt =====
-- A reissue keeps the trails of all tasks.
use adg_lang.Common.{
  ℕ, ◌≡◌, refl, subst, sym, arith, Bool, true, false, not, ◌||◌, Option, none, some, List, [], ◌∷◌,
  ◌++◌, map, String, All, AllDistinct, any, if◌then◌else◌, Bool-cases, inl, inr,
}
use adg_lang.Consensus.States.{escalated, revoked, same_state}
use adg_lang.Store.Tables.{Task, Round, Event, Database}
use adg_lang.Store.Calls.{StoreError, type_error, World, query, batch}
use adg_lang.Store.Keeps.{
  IsSteady, Keeps, Keeps-pure, Keeps-throw, Keeps-throw_when, Keeps-query, Keeps-batch, Keeps-bind,
}
use adg_lang.Store.Transition.{get_consensus_task, get_current_consensus_round}
use adg_lang.Store.Transition.Trail.{HasTrail, IsAudited, task_ids}
use adg_lang.Store.Transition.Calls.{Keeps-transition}
use adg_lang.Store.Registration.{round_taken}
use adg_lang.Store.Reissue.{
  supersede, next_round, is_waiting_reissue, enter_round, cancel, reissue_batch, Reissue, present,
  to_reissued, to_fresh_round, not_reissuable, no_current_round, open_fresh_round,
  create_reissued_round,
}

HasTrail-enter_round :
    (task : Task) (now : ℕ) (events : List Event) (t : Task)
    → HasTrail events t
    → HasTrail events (enter_round task now t)
HasTrail-enter_round task now events t h = elim (Bool-cases (is_waiting_reissue task t)) [
  | inl waiting ↦
      rw waiting (record { history = h.history; counted = h.counted; recorded = h.recorded })
  | inr other ↦ rw other h
]

All-enter_round :
    (task : Task) (now : ℕ) (events : List Event) (tasks : List Task)
    → All (HasTrail events) tasks
    → All (HasTrail events) (map (enter_round task now) tasks)
All-enter_round task now events [] h = tt
All-enter_round task now events (t ∷ tasks) h =
    (HasTrail-enter_round task now events t h.0, All-enter_round task now events tasks h.1)

enter_round_id : (task : Task) (now : ℕ) (t : Task) → (enter_round task now t).id ≡ t.id
enter_round_id task now t = ground arith

task_ids-enter_round :
    (task : Task) (now : ℕ) (tasks : List Task)
    → task_ids (map (enter_round task now) tasks) ≡ task_ids tasks
task_ids-enter_round task now [] = refl
task_ids-enter_round task now (t ∷ tasks) =
    cc (enter_round_id task now t, task_ids-enter_round task now tasks)

chosen :
    (c : Bool) (u v : Bool) (x db' : Database)
    → ◌≡◌ {A = Option (Bool × Database)} (if c then none else some (u, x)) (some (v, db'))
    → x ≡ db'
chosen true u v x db' h = cc
chosen false u v x db' h = cc

reissue_batch-IsAudited :
    (task : Task) (current : Round) (reason : String) (now : ℕ) (db db' : Database) (entered : Bool)
    → reissue_batch task current reason now db ≡ some (entered, db')
    → IsAudited db
    → IsAudited db'
unfolding reissue_batch
reissue_batch-IsAudited task current reason now db db' entered h audit =
    let rounds' = map (supersede current.id reason now) db.rounds in
    let round' = next_round task current reason now in
    let same =
      chosen (round_taken round' rounds') (any (is_waiting_reissue task) db.tasks) entered
        (record db {
          tasks = map (enter_round task now) db.tasks;
          rounds = rounds' ++ round' ∷ [];
          outbox = map (cancel task current db.submissions) db.outbox;
        })
        db' h in
    subst IsAudited same (record {
      distinct_tasks =
          subst AllDistinct (sym (task_ids-enter_round task now db.tasks)) audit.distinct_tasks;
      distinct_events = audit.distinct_events;
      distinct_keys = audit.distinct_keys;
      trails = All-enter_round task now db.events db.tasks audit.trails;
    })

Keeps-present : {A : Type 0} (e : StoreError) (row : Option A) → Keeps IsAudited (present e row)
unfolding present
Keeps-present e none = Keeps-throw IsAudited e
Keeps-present e (some a) = Keeps-pure IsAudited a

module _ (digest : String → String) where
  Keeps-open_fresh_round :
      (task : Task) (current : Round) (r : Reissue)
      → Keeps IsAudited (open_fresh_round digest task current r)
  unfolding open_fresh_round
  Keeps-open_fresh_round task current r =
      Keeps-bind IsAudited (batch (reissue_batch task current r.reason r.now)) _
        (Keeps-batch IsAudited (reissue_batch task current r.reason r.now) (λ db db' entered h.
          reissue_batch-IsAudited task current r.reason r.now db db' entered h))
        λ entered. Keeps-bind IsAudited _ _ (Keeps-throw_when IsAudited (not entered) _) λ _.
          Keeps-bind IsAudited (query (get_consensus_task task.id)) _
            (Keeps-query IsAudited (get_consensus_task task.id))
            λ row.
              Keeps-bind IsAudited (present type_error row) _ (Keeps-present type_error row)
                λ refreshed.
                  Keeps-transition digest refreshed (to_fresh_round task current r) r.last_clock
                    r.last_uuid

  Keeps-create_reissued_round :
      (task : Task) (r : Reissue) → Keeps IsAudited (create_reissued_round digest task r)
  unfolding create_reissued_round
  Keeps-create_reissued_round task r =
      Keeps-bind IsAudited _ _
        (Keeps-throw_when IsAudited
          (not (same_state task.state escalated || same_state task.state revoked)) not_reissuable)
        λ _.
          Keeps-bind IsAudited (query (get_current_consensus_round task)) _
            (Keeps-query IsAudited (get_current_consensus_round task))
            λ found.
              Keeps-bind IsAudited (present no_current_round found) _
                (Keeps-present no_current_round found)
                λ current.
                  Keeps-bind IsAudited _ _
                    (Keeps-transition digest task (to_reissued task current r) r.first_clock
                      r.first_uuid)
                    λ moved.
                      Keeps-bind IsAudited (present type_error moved) _
                        (Keeps-present type_error moved)
                        λ reissued_task. Keeps-open_fresh_round reissued_task current r

  -- A reissue leaves an audited database audited, whichever of its four stages throws and whatever
  -- other requests do at its waits, as long as they keep the database audited.
  pub create_reissued_round-IsAudited :
      (task : Task) (r : Reissue) (w : World)
      → IsSteady IsAudited w
      → IsAudited (create_reissued_round digest task r w).1.db
  create_reissued_round-IsAudited task r w h =
      ((Keeps-create_reissued_round task r).after w h).holds
