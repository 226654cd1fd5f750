-- ===== src/Consensus/States.antt =====
-- The states of a task version and the transitions that `assertConsensusTransition` admits
-- (tools/msa-adjudication-workbench/src/consensus.js).
pub mod Histories
use adg_lang.Common.{
  true, ℕ, ◌≡◌, ◌≢◌, ◌↔◌, ◌⊎◌, Bool, arith, Result, ok, err, List, [], ◌∷◌, ◌==◌, any,
  if◌then◌else◌,
}

-- `opened` is the state 'open'.
pub data State : Type 0 where
  draft opened independent_review discussion final_review approved published escalated reissued
        revoked failed :
      State

abbrev pub state_index : State → ℕ
state_index draft = 0
state_index opened = 1
state_index independent_review = 2
state_index discussion = 3
state_index final_review = 4
state_index approved = 5
state_index published = 6
state_index escalated = 7
state_index reissued = 8
state_index revoked = 9
state_index failed = 10

-- `===` on two states.
unfoldable pub same_state : State → State → Bool
same_state a b = state_index a == state_index b

-- The table `ALLOWED_TRANSITIONS`.
abbrev pub allowed_transitions : State → List State
allowed_transitions draft = opened ∷ failed ∷ []
allowed_transitions opened = independent_review ∷ failed ∷ []
allowed_transitions independent_review = discussion ∷ escalated ∷ failed ∷ []
allowed_transitions discussion = final_review ∷ escalated ∷ failed ∷ []
allowed_transitions final_review = approved ∷ escalated ∷ failed ∷ []
allowed_transitions approved = published ∷ revoked ∷ escalated ∷ []
allowed_transitions published = revoked ∷ []
allowed_transitions escalated = reissued ∷ failed ∷ []
allowed_transitions reissued = independent_review ∷ failed ∷ []
allowed_transitions revoked = reissued ∷ failed ∷ []
allowed_transitions failed = []

pub data TransitionError : Type 0 where
  not_allowed : State → State → TransitionError

-- Every state is one of the table's keys, so the lookup itself never misses.
unfoldable pub assert_consensus_transition : State → State → Result TransitionError (Unit {0})
unfolding same_state
assert_consensus_transition from to =
    if any (same_state to) (allowed_transitions from) then ok tt else err (not_allowed from to)

pub same_state_iff : (a b : State) → (same_state a b ≡ true) ↔ (a ≡ b)
unfolding same_state
same_state_iff a b = grind arith
