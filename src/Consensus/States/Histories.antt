-- ===== src/Consensus/States/Histories.antt =====
-- The histories that `assertConsensusTransition` admits, newest state first.
use adg_lang.Common.{
  ℕ, ◌+◌, ◌≤◌, ◌≡◌, ◌≢◌, ◌⊎◌, ◌||◌, ◌↔◌, inl, inr, refl, subst, arith, ok, List, [], ◌∷◌, ◌++◌,
  if◌then◌else◌,
}
use adg_lang.Consensus.States.{
  State, draft, opened, independent_review, discussion, final_review, approved, published,
  escalated, reissued, revoked, failed, same_state, assert_consensus_transition,
}

abbrev pub Allowed : State → State → Type 0
Allowed s t = assert_consensus_transition s t ≡ ok tt

-- A task begins as a draft, and every later state was admitted from the one before it.
abbrev pub IsHistory : List State → Type 0
IsHistory [] = ⊥
IsHistory (s ∷ []) = s ≡ draft
IsHistory (t ∷ s ∷ past) = Allowed s t × IsHistory (s ∷ past)

pub into_published : (s : State) → Allowed s published → s ≡ approved
unfolding assert_consensus_transition
into_published s h = ground arith

into_approved : (s : State) → Allowed s approved → s ≡ final_review
unfolding assert_consensus_transition
into_approved s h = ground arith

into_final_review : (s : State) → Allowed s final_review → s ≡ discussion
unfolding assert_consensus_transition
into_final_review s h = ground arith

into_discussion : (s : State) → Allowed s discussion → s ≡ independent_review
unfolding assert_consensus_transition
into_discussion s h = ground arith

into_independent_review : (s : State) → Allowed s independent_review → (s ≡ opened) ⊎ (s ≡ reissued)
unfolding assert_consensus_transition
into_independent_review s h = ground arith

into_reissued : (s : State) → Allowed s reissued → (s ≡ escalated) ⊎ (s ≡ revoked)
unfolding assert_consensus_transition
into_reissued s h = ground arith

-- A state other than 'draft' has a state before it.
has_previous :
    (t : State) (past : List State)
    → IsHistory (t ∷ past)
    → t ≢ draft
    → (s : State) × (older : List State) × (past ≡ s ∷ older) × Allowed s t × IsHistory (s ∷ older)
has_previous t [] h n = absurd (n h)
has_previous t (s ∷ older) h n = (s, older, refl, h.0, h.1)

abbrev pub StartsRound : List State → Type 0
StartsRound past =
    (older : List State) × ((past ≡ opened ∷ older) ⊎ (past ≡ reissued ∷ older)) × IsHistory past

-- The states that a round passes through on its way to publication, newest first.
abbrev pub full_review : List State → List State
full_review past = approved ∷ final_review ∷ discussion ∷ independent_review ∷ past

review-StartsRound : (past : List State) → IsHistory (independent_review ∷ past) → StartsRound past
review-StartsRound past h =
    let (s, older, e, a, k) = has_previous independent_review past h (cc) in
    elim (into_independent_review s a) [
      | inl o ↦ (older, inl (cc), rw e k)
      | inr r ↦ (older, inr (cc), rw e k)
    ]

-- one step back along the only way in
back :
    (s t : State) (past : List State)
    → ((u : State) → Allowed u t → u ≡ s)
    → t ≢ draft
    → IsHistory (t ∷ past)
    → (older : List State) × (past ≡ s ∷ older) × IsHistory (s ∷ older)
back s t past only n h =
    let (u, older, e, a, k) = has_previous t past h n in
    let same = only u a in (older, cc, rw same at k)

-- A published task has passed through a whole round just before: independent review, discussion,
-- final review and approval, in this order and with nothing between them, in a round that began
-- when the task was opened or reissued.
pub published_after_full_review :
    (past : List State)
    → IsHistory (published ∷ past)
    → (older : List State) × (past ≡ full_review older) × StartsRound older
published_after_full_review past h =
    let (p₁, e₁, h₁) = back approved published past into_published (cc) h in
    let (p₂, e₂, h₂) = back final_review approved p₁ into_approved (cc) h₁ in
    let (p₃, e₃, h₃) = back discussion final_review p₂ into_final_review (cc) h₂ in
    let (p₄, e₄, h₄) = back independent_review discussion p₃ into_discussion (cc) h₃ in
    (p₄, cc, review-StartsRound p₄ h₄)

-- The number of times that a history enters a state.
pub count_state : State → List State → ℕ
count_state s [] = 0
count_state s (t ∷ past) =
    let rest = count_state s past in if same_state s t then rest + 1 else rest

pub pending : State → ℕ
pending s = if same_state s escalated || same_state s revoked then 1 else 0

-- Every reissue was paid for: at each point a task has been reissued at most as often as it was
-- escalated or revoked, and strictly less often when its state is 'escalated' or 'revoked'.
pub reissues_are_caused :
    (s : State) (past : List State)
    → IsHistory (s ∷ past)
    → count_state reissued (s ∷ past) + pending s
      ≤ count_state escalated (s ∷ past) + count_state revoked (s ∷ past)
unfolding count_state pending same_state assert_consensus_transition
reissues_are_caused s [] h = rw h (omega arith)
reissues_are_caused t (s ∷ past) h = ground (arith, h.0, reissues_are_caused s past h.1)

-- The states from a given state up to the approval that comes before publication, newest first.
route : State → List State
route draft = full_review (opened ∷ [])
route opened = full_review []
route independent_review = approved ∷ final_review ∷ discussion ∷ []
route discussion = approved ∷ final_review ∷ []
route final_review = approved ∷ []
route approved = []
route published = full_review (reissued ∷ revoked ∷ [])
route escalated = full_review (reissued ∷ [])
route reissued = full_review []
route revoked = full_review (reissued ∷ [])
route failed = []

after_failed : (t : State) (more past : List State) → IsHistory (t ∷ (more ++ failed ∷ past)) → ⊥
unfolding assert_consensus_transition
after_failed t [] past h = ground (arith, h.0)
after_failed t (s ∷ more) past h = after_failed s more past h.1

way_on :
    (s : State) (past : List State)
    → IsHistory (s ∷ past)
    → s ≢ failed
    → (more : List State) × IsHistory (published ∷ (more ++ s ∷ past))
unfolding route assert_consensus_transition same_state
way_on draft past h n = (route draft, ground arith)
way_on failed past h n = absurd (n refl)
way_on s past h n = (route s, ground arith)

-- The table of transitions lets a history that it admits go on to one that ends in 'published'
-- exactly where the history does not end in 'failed'. This is about the table alone: it does not
-- say that the code makes the calls which such a continuation needs.
pub table_admits_publication_iff :
    (s : State) (past : List State)
    → IsHistory (s ∷ past)
    → (s ≢ failed) ↔ ((more : List State) × IsHistory (published ∷ (more ++ s ∷ past)))
table_admits_publication_iff s past h = (way_on s past h, not_failed)
  where
    not_failed : (more : List State) × IsHistory (published ∷ (more ++ s ∷ past)) → s ≢ failed
    not_failed (more, k) e =
        after_failed published more past
          (subst (λ z. IsHistory (published ∷ (more ++ z ∷ past))) e k)
