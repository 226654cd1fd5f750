-- ===== src/Worker/Eligibility/Places.antt =====
-- When a role submits, and which participations stand in its way.
use adg_lang.Common.{
  ◌≡◌, ◌≢◌, arith, eq_iff, true, false, String, List, [], ◌∷◌, ◌⊎◌, inl, inr, any, str_eq, All,
  Bool-cases,
}
use adg_lang.Consensus.States.{
  State, opened, independent_review, discussion, final_review, same_state, same_state_iff,
}
use adg_lang.Store.Tables.{Task, Round}
use adg_lang.Worker.Eligibility.{
  Role, a, b, j1, j2, role_name, Participation, allowed_states, participates, occupies,
}

-- The states of a task in which the role submits.
abbrev pub IsTime : Role → State → Type 0
IsTime a s = (s ≡ opened) ⊎ (s ≡ independent_review)
IsTime b s = (s ≡ opened) ⊎ (s ≡ independent_review)
IsTime j1 s = s ≡ discussion
IsTime j2 s = s ≡ final_review

-- The participation is of another account, or of another task and another holdout.
abbrev pub IsElsewhere : String → Task → String → Participation → Type 0
IsElsewhere user_id task holdout_id p =
    (p.user_id ≢ user_id) ⊎ ((p.task_version_id ≢ task.id) × (p.holdout_id ≢ holdout_id))

-- The participation is in another round, or in another role.
abbrev pub IsOtherPlace : Round → Role → Participation → Type 0
IsOtherPlace round role p = (p.round_id ≢ round.id) ⊎ (p.role ≢ role_name role)

pub IsTime-of_any :
    (role : Role) (s : State) → any (same_state s) (allowed_states role) ≡ true → IsTime role s
IsTime-of_any a s h = ground (arith, same_state_iff s opened, same_state_iff s independent_review)
IsTime-of_any b s h = ground (arith, same_state_iff s opened, same_state_iff s independent_review)
IsTime-of_any j1 s h = ground (arith, same_state_iff s discussion)
IsTime-of_any j2 s h = ground (arith, same_state_iff s final_review)

other_text : (s t : String) → str_eq s t ≡ false → s ≢ t
other_text s t h e = let k = (eq_iff s t).1 e in cc

pub All-IsElsewhere :
    (user_id : String) (task : Task) (holdout_id : String) (ps : List Participation)
    → any (participates user_id task holdout_id) ps ≡ false
    → All (IsElsewhere user_id task holdout_id) ps
All-IsElsewhere user_id task holdout_id [] h = tt
All-IsElsewhere user_id task holdout_id (p ∷ ps) h = (
  elim (Bool-cases (str_eq p.user_id user_id)) [
    | inl t ↦
        let h' = rw t at h in
        inr (
          other_text p.task_version_id task.id (ground arith),
          other_text p.holdout_id holdout_id (ground arith),
        )
    | inr f ↦ inl (other_text p.user_id user_id f)
  ],
  All-IsElsewhere user_id task holdout_id ps (ground arith),
)

pub All-IsOtherPlace :
    (round : Round) (role : Role) (ps : List Participation)
    → any (occupies round role) ps ≡ false
    → All (IsOtherPlace round role) ps
All-IsOtherPlace round role [] h = tt
All-IsOtherPlace round role (p ∷ ps) h = (
  elim (Bool-cases (str_eq p.round_id round.id)) [
    | inl t ↦ let h' = rw t at h in inr (other_text p.role (role_name role) (ground arith))
    | inr f ↦ inl (other_text p.round_id round.id f)
  ],
  All-IsOtherPlace round role ps (ground arith),
)
