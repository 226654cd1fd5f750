-- ===== src/Store/Transition/Updates.antt =====
-- The batch of a transition, row by row.
use adg_lang.Common.{
  ℕ, ◌≡◌, ◌⊎◌, inl, inr, refl, sym, ◌∙◌, subst, arith, true, false, Option, none, some, List, [],
  ◌∷◌, map, String, str_eq, eq_iff, eq_refl, All, AllDistinct, has, any, Bool-cases,
}
use adg_lang.Consensus.States.{same_state_iff}
use adg_lang.Consensus.States.Histories.{Allowed, IsHistory}
use adg_lang.Store.Tables.{Task, Event, Appeal}
use adg_lang.Store.Transition.{
  Transition, is_current, moved, move_row, is_moved, event_taken, has_id,
}
use adg_lang.Store.Transition.Trail.{
  origins, event_ids, event_keys, task_ids, is_recorded, HasTrail,
}

move_row-id :
    (appeals : List Appeal) (task : Task) (tr : Transition) (event_id : String) (now : ℕ) (t : Task)
    → (move_row appeals task tr event_id now t).id ≡ t.id
unfolding move_row moved
move_row-id appeals task tr event_id now t = ground arith

pub event-fresh :
    (e : Event) (events : List Event)
    → event_taken e events ≡ false
    → (has e.id (event_ids events) ≡ false) × (has e.idempotency_key (event_keys events) ≡ false)
event-fresh e [] h = (refl, refl)
event-fresh e (f ∷ events) h =
    let (i, k) = event-fresh e events (ground arith) in
    (
      ground (arith, eq_iff e.id f.id, eq_iff f.id e.id),
      ground (
        arith,
        eq_iff e.idempotency_key f.idempotency_key,
        eq_iff f.idempotency_key e.idempotency_key,
      ),
    )

last_is :
    (id : String) (last : Option String) (events : List Event)
    → has id (event_ids events) ≡ false
    → is_recorded last events ≡ true
    → has_id last id ≡ false
last_is id none events n h = refl
last_is id (some j) events n h = elim (Bool-cases (str_eq j id)) [
  | inl same ↦ let e : j ≡ id = (eq_iff j id).0 same in let h' = rw e at h in cc
  | inr other ↦ other
]

recorded_cons :
    (e : Event) (events : List Event) (last : Option String)
    → is_recorded last events ≡ true
    → is_recorded last (e ∷ events) ≡ true
recorded_cons e events none h = h
recorded_cons e events (some id) h = ground arith

module _ (appeals : List Appeal) (task : Task) (tr : Transition) (now : ℕ) (e : Event)
    (of_task : e.task_version_id ≡ task.id) (from_it : e.from_state ≡ task.state) where
  current_fields :
      (t : Task)
      → is_current appeals task tr now t ≡ true
      → (t.id ≡ task.id) × (t.state ≡ task.state) × (t.state_version ≡ task.state_version)
  unfolding is_current
  current_fields t h = (
    ground (arith, eq_iff t.id task.id),
    (same_state_iff t.state task.state).0 (ground arith),
    ground arith,
  )

  -- The row that the batch moves.
  moved-HasTrail :
      (events : List Event) (t : Task)
      → Allowed task.state tr.to_state
      → is_current appeals task tr now t ≡ true
      → HasTrail events t
      → HasTrail (e ∷ events) (moved tr e.id now t)
  unfolding moved
  moved-HasTrail events t allowed h trail =
      let (same_id, same_st, same_v) = current_fields t h in
      let mine : str_eq e.task_version_id t.id ≡ true = rw (of_task, same_id) (eq_refl task.id) in
      record {
        history = rw mine (
          subst (λ s. Allowed s tr.to_state) (sym from_it) allowed,
          subst (λ s. IsHistory (s ∷ origins t.id events)) (same_st ∙ sym from_it) trail.history,
        );
        counted = rw mine (omega (arith, trail.counted));
        recorded = ground (arith, eq_refl e.id);
      }

  -- A row of another task.
  other-HasTrail :
      (events : List Event) (t : Task)
      → str_eq t.id task.id ≡ false
      → HasTrail events t
      → HasTrail (e ∷ events) t
  other-HasTrail events t h trail =
      let theirs : str_eq e.task_version_id t.id ≡ false =
        rw of_task (ground (arith, eq_iff t.id task.id, eq_iff task.id t.id)) in
      record {
        history = rw theirs trail.history;
        counted = rw theirs trail.counted;
        recorded = recorded_cons e events t.last_event_id trail.recorded;
      }

  moved-is_moved :
      (t : Task)
      → is_current appeals task tr now t ≡ true
      → is_moved task tr e.id (move_row appeals task tr e.id now t) ≡ true
  unfolding is_moved move_row moved
  moved-is_moved t h =
      let (same_id, same_st, same_v) = current_fields t h in
      rw h (
        ground (
          arith,
          eq_iff t.id task.id,
          eq_refl e.id,
          (same_state_iff tr.to_state tr.to_state).1 refl,
        ))

  other_not_moved :
      (t : Task)
      → str_eq t.id task.id ≡ false
      → is_moved task tr e.id (move_row appeals task tr e.id now t) ≡ false
  unfolding is_moved
  other_not_moved t h = rw (move_row-id appeals task tr e.id now t) (ground arith)

  none_moved :
      (tasks : List Task)
      → has task.id (task_ids tasks) ≡ false
      → any (is_moved task tr e.id) (map (move_row appeals task tr e.id now) tasks) ≡ false
  none_moved [] h = refl
  none_moved (t ∷ tasks) h =
      ground (arith, eq_iff t.id task.id, eq_iff task.id t.id, other_not_moved t, none_moved tasks)

  All-other :
      (tasks : List Task)
      → has task.id (task_ids tasks) ≡ false
      → All
          (λ t.
            (is_current appeals task tr now t ≡ true)
            ⊎ (str_eq t.id task.id ≡ false)
            ⊎ (is_moved task tr e.id t ≡ true))
          tasks
  All-other [] h = tt
  All-other (t ∷ tasks) h = (
    inr (inl (ground (arith, eq_iff t.id task.id, eq_iff task.id t.id))),
    All-other tasks (ground arith),
  )

  moved_or_done :
      (t : Task)
      → is_moved task tr e.id (move_row appeals task tr e.id now t) ≡ true
      → (is_current appeals task tr now t ≡ true)
        ⊎ (str_eq t.id task.id ≡ false)
        ⊎ (is_moved task tr e.id t ≡ true)
  unfolding move_row
  moved_or_done t h = elim (Bool-cases (is_current appeals task tr now t)) [
    | inl c ↦ inl c
    | inr n ↦ inr (inr (rw n at h))
  ]

  -- Where the INSERT finds a moved row, every row was moved, is of another task, or is a row that
  -- an event with this id had moved before.
  pub inserted_cases :
      (tasks : List Task)
      → AllDistinct (task_ids tasks)
      → any (is_moved task tr e.id) (map (move_row appeals task tr e.id now) tasks) ≡ true
      → All
          (λ t.
            (is_current appeals task tr now t ≡ true)
            ⊎ (str_eq t.id task.id ≡ false)
            ⊎ (is_moved task tr e.id t ≡ true))
          tasks
  inserted_cases [] d h = tt
  inserted_cases (t ∷ tasks) d h = elim (Bool-cases (str_eq t.id task.id)) [
    | inl mine ↦
        let absent : has task.id (task_ids tasks) ≡ false = ground (arith, eq_iff t.id task.id) in
        (moved_or_done t (ground (arith, none_moved tasks absent)), All-other tasks absent)
    | inr other ↦
        (inr (inl other), inserted_cases tasks d.1 (ground (arith, other_not_moved t other)))
  ]

  -- A row that is moved is found by the INSERT.
  pub not_inserted_cases :
      (tasks : List Task)
      → any (is_moved task tr e.id) (map (move_row appeals task tr e.id now) tasks) ≡ false
      → All (λ t. is_current appeals task tr now t ≡ false) tasks
  unfolding is_moved move_row moved
  not_inserted_cases [] h = tt
  not_inserted_cases (t ∷ tasks) h = elim (Bool-cases (is_current appeals task tr now t)) [
    | inl yes_current ↦ let found = moved-is_moved t yes_current in cc
    | inr not_current ↦ (not_current, not_inserted_cases tasks (ground arith))
  ]

  pub task_ids-move_row :
      (tasks : List Task)
      → task_ids (map (move_row appeals task tr e.id now) tasks) ≡ task_ids tasks
  task_ids-move_row [] = refl
  task_ids-move_row (t ∷ tasks) =
      cc (move_row-id appeals task tr e.id now t, task_ids-move_row tasks)

  other_not_current :
      (t : Task) → str_eq t.id task.id ≡ false → is_current appeals task tr now t ≡ false
  unfolding is_current
  other_not_current t h = ground arith

  -- A row whose last event is new cannot have been moved by it before.
  not_done :
      (events : List Event) (t : Task)
      → has e.id (event_ids events) ≡ false
      → is_moved task tr e.id t ≡ true
      → HasTrail events t
      → ⊥
  unfolding is_moved
  not_done events t n done trail =
      let last = trail.recorded in ground (arith, last_is e.id t.last_event_id events n)

  pub row_inserted :
      (events : List Event) (t : Task)
      → Allowed task.state tr.to_state
      → has e.id (event_ids events) ≡ false
      → (is_current appeals task tr now t ≡ true)
        ⊎ (str_eq t.id task.id ≡ false)
        ⊎ (is_moved task tr e.id t ≡ true)
      → HasTrail events t
      → HasTrail (e ∷ events) (move_row appeals task tr e.id now t)
  unfolding move_row
  row_inserted events t a n (inl current) trail =
      rw current (moved-HasTrail events t a current trail)
  row_inserted events t a n (inr (inl other)) trail =
      rw (other_not_current t other) (other-HasTrail events t other trail)
  row_inserted events t a n (inr (inr done)) trail = absurd (not_done events t n done trail)

  -- The rows after an event was inserted.
  pub rows_inserted :
      (events : List Event) (tasks : List Task)
      → Allowed task.state tr.to_state
      → has e.id (event_ids events) ≡ false
      → All
          (λ t.
            (is_current appeals task tr now t ≡ true)
            ⊎ (str_eq t.id task.id ≡ false)
            ⊎ (is_moved task tr e.id t ≡ true))
          tasks
      → All (HasTrail events) tasks
      → All (HasTrail (e ∷ events)) (map (move_row appeals task tr e.id now) tasks)
  rows_inserted events [] a n cases trails = tt
  rows_inserted events (t ∷ tasks) a n (here, cases) (trail, trails) =
      (row_inserted events t a n here trail, rows_inserted events tasks a n cases trails)

  -- The rows where no event was inserted.
  pub rows_kept :
      (events : List Event) (tasks : List Task)
      → All (λ t. is_current appeals task tr now t ≡ false) tasks
      → All (HasTrail events) tasks
      → All (HasTrail events) (map (move_row appeals task tr e.id now) tasks)
  unfolding move_row
  rows_kept events [] n trails = tt
  rows_kept events (t ∷ tasks) (n, ns) (trail, trails) =
      (rw n trail, rows_kept events tasks ns trails)
