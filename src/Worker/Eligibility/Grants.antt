-- ===== src/Worker/Eligibility/Grants.antt =====
-- What an admitted submission fulfils.
use adg_lang.Common.{
  ℕ, ◌≡◌, refl, true, not, Option, none, some, ok, Returns, throw_if-Returns, weaken-Returns,
  String, any, All,
}
use adg_lang.Js.{Value}
use adg_lang.Hashing.{Bytes}
use adg_lang.Consensus.States.{same_state}
use adg_lang.Store.Tables.{
  Task, Round, RoundStatus, open_round, closed, superseded, round_failed, is_open,
}
use adg_lang.Worker.Eligibility.{
  Role, Records, round_closed, role_unavailable, took_part, role_taken, allowed_states,
  participates, occupies, Grant, validate_consensus_eligibility,
}
use adg_lang.Worker.Eligibility.Places.{
  IsTime, IsElsewhere, IsOtherPlace, IsTime-of_any, All-IsElsewhere, All-IsOtherPlace,
}
use adg_lang.Worker.Eligibility.Qualified.{IsQualified, IsQualified-of, eq_true_of}

is_open-eq : (s : RoundStatus) → is_open s ≡ true → s ≡ open_round
is_open-eq open_round h = refl
is_open-eq closed h = absurd cc
is_open-eq superseded h = absurd cc
is_open-eq round_failed h = absurd cc

module _ (encode : String → Bytes) (digest : Bytes → String) where
  pub record IsEligible (at : ℕ → Records) (user_id : String) (role : Role) (holdout_id : String)
      (task : Task) (row : Option Round) (artifact : Value) (grant : Grant) : Type 0 where
    pub round : Round
    pub has_round : row ≡ some round
    pub is_open_now : round.status ≡ open_round
    pub is_time : IsTime role task.state
    pub is_new : All (IsElsewhere user_id task holdout_id) (at 0).participations
    pub is_free : All (IsOtherPlace round role) (at 1).participations
    pub qualified : IsQualified encode digest at role task round artifact grant

  -- A submission is admitted only to an open round, in a state that belongs to its role, from an
  -- account that no participation has in this task or this holdout, and for a role that no
  -- participation has in the round. J1 is admitted only where the active submissions of this task
  -- and round as A or B are the two that the grant holds, the roots computed from their packets and
  -- annotations differ, and each root that the adjudication carries is one of these. J2 is admitted
  -- only with the grant of a proposed result of this task and round that a submission made, where
  -- the ratification carries its receipt and its root.
  pub validate_consensus_eligibility-IsEligible :
      (at : ℕ → Records) (user_id : String) (role : Role) (holdout_id : String) (task : Task)
      (row : Option Round) (artifact : Value) (grant : Grant)
      → validate_consensus_eligibility encode digest at user_id role holdout_id task row artifact
        ≡ ok grant
      → IsEligible at user_id role holdout_id task row artifact grant
  unfolding validate_consensus_eligibility
  validate_consensus_eligibility-IsEligible at user_id role holdout_id task none artifact grant e =
      absurd cc
  validate_consensus_eligibility-IsEligible at user_id role holdout_id task (some r) artifact grant
        e =
      eligible.value grant e
    where
      eligible : Returns (IsEligible at user_id role holdout_id task (some r) artifact) (
          validate_consensus_eligibility encode digest at user_id role holdout_id task
            (some r)
            artifact)
      eligible = throw_if-Returns (not (is_open r.status)) round_closed λ opens.
          throw_if-Returns (not (any (same_state task.state) (allowed_states role)))
            role_unavailable
            λ fits.
              throw_if-Returns (any (participates user_id task holdout_id) (at 0).participations)
                took_part
                λ new.
                  throw_if-Returns (any (occupies r role) (at 1).participations) role_taken λ free.
                    weaken-Returns
                      (λ _ q. record {
                        round = r;
                        has_round = refl;
                        is_open_now = is_open-eq _ (eq_true_of _ opens);
                        is_time = IsTime-of_any role _ (eq_true_of _ fits);
                        is_new = All-IsElsewhere user_id task holdout_id _ new;
                        is_free = All-IsOtherPlace r role _ free;
                        qualified = q;
                      })
                      (IsQualified-of encode digest at task r artifact role)
