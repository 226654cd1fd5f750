-- ===== src/Store/Registration/Twice.antt =====
-- The batch of `prepareConsensusTaskRegistration` as one of three `INSERT OR IGNORE`: which rows it
-- adds, and that a second run adds none.
use adg_lang.Common.{
  ◌≡◌, refl, subst, true, false, ◌&&◌, none, some, Option, Bool, [], ◌∷◌, ◌++◌, inl, eq_iff, any,
  if◌then◌else◌, Any, Any-of_any,
}
use adg_lang.Store.Tables.{Task, Round, Event, Database}
use adg_lang.Store.Transition.{is_task, event_taken}
use adg_lang.Store.Registration.{task_taken, round_taken, has_round, registration_batch}
use adg_lang.Store.Registration.Keys.{
  any_of_Any, Apart, Inserted, Inserted-if, any-Inserted_end, any-Inserted_front,
  Inserted-Apart_end, Inserted-Apart_front, SameTask, SameRound, SameEvent, SameTask-iff,
  SameRound-iff, SameEvent-iff, SameEvent-swap,
}

-- No two rows of a table share a primary key or a unique key.
pub record HasKeys (db : Database) : Type 0 where
  pub tasks_apart : Apart SameTask db.tasks
  pub rounds_apart : Apart SameRound db.rounds
  pub events_apart : Apart SameEvent db.events

-- Each of the three rows is added or ignored by itself, and nothing else changes.
pub record IsRegistration (t : Task) (r : Round) (e : Event) (db db' : Database) : Type 0 where
  pub tasks_after : Inserted SameTask t db.tasks (db.tasks ++ t ∷ []) db'.tasks
  pub rounds_after : Inserted SameRound r db.rounds (db.rounds ++ r ∷ []) db'.rounds
  pub events_after : Inserted SameEvent e db.events (e ∷ db.events) db'.events
  pub outbox_same : db'.outbox ≡ db.outbox
  pub submissions_same : db'.submissions ≡ db.submissions
  pub appeals_same : db'.appeals ≡ db.appeals
  pub round_has_task : Any (λ u. u.id ≡ r.task_version_id) db'.tasks
  pub event_has_round : Any (λ s. s.id ≡ r.id) db'.rounds

chosen :
    (c : Bool) (x db' : Database)
    → ◌≡◌ {A = Option (Unit {0} × Database)} (if c then some (tt, x) else none) (some (tt, db'))
    → (c ≡ true) × (x ≡ db')
chosen true x db' h = (refl, cc)
chosen false x db' h = absurd cc

both : (x y : Bool) → (x && y) ≡ true → (x ≡ true) × (y ≡ true)
both true true h = (refl, refl)
both x y h = absurd cc

module _ (t : Task) (r : Round) (e : Event) where
  abbrev after : Database → Database
  after db = record db {
    tasks = if task_taken t db.tasks then db.tasks else db.tasks ++ t ∷ [];
    rounds = if round_taken r db.rounds then db.rounds else db.rounds ++ r ∷ [];
    events = if event_taken e db.events then db.events else e ∷ db.events;
  }

  abbrev has_parents : Database → Bool
  has_parents db = any (is_task r.task_version_id) db.tasks && has_round r.id db.rounds

  accepted :
      (db db' : Database)
      → registration_batch t r e db ≡ some (tt, db')
      → (has_parents (after db) ≡ true) × (after db ≡ db')
  unfolding registration_batch
  accepted db db' h = chosen (has_parents (after db)) (after db) db' h

  after-IsRegistration :
      (db : Database) → has_parents (after db) ≡ true → IsRegistration t r e db (after db)
  after-IsRegistration db h = record {
    tasks_after = Inserted-if SameTask t _ (SameTask-iff t) db.tasks (db.tasks ++ t ∷ []);
    rounds_after = Inserted-if SameRound r _ (SameRound-iff r) db.rounds (db.rounds ++ r ∷ []);
    events_after = Inserted-if SameEvent e _ (SameEvent-iff e) db.events (e ∷ db.events);
    outbox_same = refl;
    submissions_same = refl;
    appeals_same = refl;
    round_has_task =
        Any-of_any (λ u. u.id ≡ r.task_version_id) _ (after db).tasks
          (λ u. (eq_iff u.id r.task_version_id).0) (both _ _ h).0;
    event_has_round =
        Any-of_any (λ s. s.id ≡ r.id) _ (after db).rounds (λ s. (eq_iff s.id r.id).0)
          (both _ _ h).1;
  }

  IsRegistration-HasKeys :
      (db db' : Database) → HasKeys db → IsRegistration t r e db db' → HasKeys db'
  IsRegistration-HasKeys db db' k i = record {
    tasks_apart = Inserted-Apart_end SameTask t db.tasks k.tasks_apart i.tasks_after;
    rounds_apart = Inserted-Apart_end SameRound r db.rounds k.rounds_apart i.rounds_after;
    events_apart =
        Inserted-Apart_front SameEvent e db.events (λ f. SameEvent-swap e f) k.events_apart
          i.events_after;
  }

  IsRegistration-again :
      (db db' : Database)
      → IsRegistration t r e db db'
      → registration_batch t r e db' ≡ some (tt, db')
  unfolding registration_batch
  IsRegistration-again db db' i =
      let has_task : task_taken t db'.tasks ≡ true =
        any-Inserted_end SameTask t _ (SameTask-iff t) db.tasks (inl refl) i.tasks_after in
      let has_r : round_taken r db'.rounds ≡ true =
        any-Inserted_end SameRound r _ (SameRound-iff r) db.rounds (inl refl) i.rounds_after in
      let has_e : event_taken e db'.events ≡ true =
        any-Inserted_front SameEvent e _ (SameEvent-iff e) db.events (inl refl) i.events_after in
      let parent_task : any (is_task r.task_version_id) db'.tasks ≡ true =
        any_of_Any (λ u v. u.id ≡ r.task_version_id) t _ (λ u. eq_iff u.id r.task_version_id)
          db'.tasks i.round_has_task in
      let parent_round : has_round r.id db'.rounds ≡ true =
        any_of_Any (λ s v. s.id ≡ r.id) r _ (λ s. eq_iff s.id r.id) db'.rounds i.event_has_round in
      rw (has_task, has_r, has_e, parent_task, parent_round) refl

-- Where no two rows of a table share a primary key or a unique key, and the batch of a
-- registration commits, then after it no two rows share a key either. Each of the three rows was
-- added, if no row of its table shared a key with it, and its table is unchanged if one did; no
-- other table is changed; the task of the round and a round with its id are there; and running the
-- same batch again commits and changes nothing.
pub registration_batch-IsRegistration :
    (t : Task) (r : Round) (e : Event) (db db' : Database)
    → HasKeys db
    → registration_batch t r e db ≡ some (tt, db')
    → HasKeys db' × IsRegistration t r e db db' × (registration_batch t r e db' ≡ some (tt, db'))
registration_batch-IsRegistration t r e db db' k h =
    let (parents, same) = accepted t r e db db' h in
    let i : IsRegistration t r e db db' =
      subst (IsRegistration t r e db) same (after-IsRegistration t r e db parents) in
    (IsRegistration-HasKeys t r e db db' k i, i, IsRegistration-again t r e db db' i)
