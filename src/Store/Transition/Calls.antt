-- ===== src/Store/Transition/Calls.antt =====
-- `transitionConsensusTask` as a whole, between other requests.
use adg_lang.Common.{
  ℕ, ◌≡◌, refl, Bool, true, false, not, some, ok, err, Result, String, List, ◌∷◌, subst,
  if◌then◌else◌, find-All,
}
use adg_lang.Consensus.States.{State, published, TransitionError, assert_consensus_transition}
use adg_lang.Consensus.States.Histories.{
  IsHistory, full_review, StartsRound, published_after_full_review,
}
use adg_lang.Store.Tables.{Task, Database}
use adg_lang.Store.Calls.{transition, World, M, throw_when, query, ◌>>=◌}
use adg_lang.Store.Keeps.{
  IsSteady, Keeps, Keeps-pure, Keeps-throw, Keeps-throw_when, Keeps-query, Keeps-batch, Keeps-bind,
}
use adg_lang.Store.Transition.{
  Transition, transition_batch, event_row, assert_transition, settle, changed_concurrently,
  apply_transition, key_used, get_consensus_task, is_task, or_else, transition_consensus_task,
}
use adg_lang.Store.Transition.Trail.{origins, HasTrail, IsAudited}
use adg_lang.Store.Transition.Audit.{batch-IsAudited}

abbrev K : {A : Type 0} → M A → Type 0
K = Keeps IsAudited

Keeps-settle : (key : String) (changes : Bool × Bool) → K (settle key changes)
unfolding settle
Keeps-settle key (true, true) = Keeps-pure IsAudited tt
Keeps-settle key (u, i) =
    Keeps-bind IsAudited (query (key_used key))
      (λ known. throw_when (not known) changed_concurrently) (Keeps-query IsAudited (key_used key))
      λ known. Keeps-throw_when IsAudited (not known) changed_concurrently

-- What follows the check of the transition may rely on it.
Keeps-assert :
    {A : Type 0} (from to : State) (rest : M A)
    → (assert_consensus_transition from to ≡ ok tt → K rest)
    → K (assert_transition from to >>= λ _. rest)
unfolding assert_transition
Keeps-assert {A} from to rest h = go (assert_consensus_transition from to) refl
  where
    go :
        (r : Result TransitionError (Unit {0}))
        → assert_consensus_transition from to ≡ r
        → K (assert_transition from to >>= λ _. rest)
    go (ok u) e = rw (e, assert_transition) (h e)
    go (err x) e = rw (e, assert_transition) (Keeps-throw IsAudited (transition x))

module _ (digest : String → String) where
  Keeps-apply :
      (task : Task) (tr : Transition) (event_id : String) (now : ℕ)
      → assert_consensus_transition task.state tr.to_state ≡ ok tt
      → K (apply_transition digest task tr event_id now)
  unfolding apply_transition event_row
  Keeps-apply task tr event_id now a =
      let e = event_row digest task tr event_id now in
      Keeps-bind IsAudited _ _
        (Keeps-batch IsAudited (transition_batch task tr now e)
          (λ db db' changes h. batch-IsAudited task tr now e refl refl db db' changes a h))
        λ changes.
          Keeps-bind IsAudited _ _ (Keeps-settle tr.idempotency_key changes)
            λ _. Keeps-query IsAudited (get_consensus_task task.id)

  Keeps-branch :
      (task : Task) (tr : Transition) (event_id : String) (now : ℕ) (existing : Bool)
      → assert_consensus_transition task.state tr.to_state ≡ ok tt
      → K (
          if existing
          then query (get_consensus_task task.id)
          else apply_transition digest task tr event_id now)
  Keeps-branch task tr event_id now true a = Keeps-query IsAudited (get_consensus_task task.id)
  Keeps-branch task tr event_id now false a = Keeps-apply task tr event_id now a

  pub Keeps-transition :
      (task : Task) (tr : Transition) (clock : ℕ) (uuid : String)
      → K (transition_consensus_task digest task tr clock uuid)
  unfolding transition_consensus_task
  Keeps-transition task tr clock uuid = Keeps-assert task.state tr.to_state _ λ allowed.
      Keeps-bind IsAudited _ _ (Keeps-query IsAudited (key_used tr.idempotency_key)) λ existing.
        Keeps-branch task tr (or_else tr.event_id uuid) (or_else tr.created_at clock) existing
          allowed

-- From an audited database, whatever the caller's copy of the task says and whatever other
-- requests do at the waits, as long as they keep the database audited, a transition leaves the
-- database audited, also when it throws: the events of each task then form a history that the
-- transition table admits, ending in its state and as long as its version counts.
pub transition_consensus_task-IsAudited :
    (digest : String → String) (task : Task) (tr : Transition) (clock : ℕ) (uuid : String)
    (w : World)
    → IsSteady IsAudited w
    → IsAudited (transition_consensus_task digest task tr clock uuid w).1.db
transition_consensus_task-IsAudited digest task tr clock uuid w h =
    ((Keeps-transition digest task tr clock uuid).after w h).holds

-- In an audited database each published task has an event for every step of a whole round,
-- without any other in between, right before its publication: its last events left 'approved',
-- 'final-review', 'discussion' and 'independent-review', and that round began when the task was
-- opened or reissued.
pub published_task_reviewed :
    (db : Database) (id : String) (t : Task)
    → IsAudited db
    → get_consensus_task id db ≡ some t
    → t.state ≡ published
    → (older : List State) × (origins t.id db.events ≡ full_review older) × StartsRound older
unfolding get_consensus_task
published_task_reviewed db id t audit found is_published =
    published_after_full_review (origins t.id db.events) (
      subst (λ s. IsHistory (s ∷ origins t.id db.events)) is_published
        (find-All (HasTrail db.events) (is_task id) db.tasks audit.trails found).history)
