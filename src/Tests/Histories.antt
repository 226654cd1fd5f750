-- ===== src/Tests/Histories.antt =====
-- Histories of consensus states.
use adg_lang.Common.{◌+◌, ◌≡◌, ◌≢◌, ◌↔◌, ◌≤◌, refl, err, List, [], ◌∷◌, ◌++◌}
use adg_lang.Consensus.States.{
  State, draft, opened, independent_review, escalated, reissued, approved, published, failed,
  not_allowed, assert_consensus_transition,
}
use adg_lang.Consensus.States.Histories.{
  IsHistory, full_review, StartsRound, published_after_full_review, count_state, pending,
  reissues_are_caused, table_admits_publication_iff,
}

-- A task whose first round was escalated, newest state first.
abbrev second_round : List State
second_round = reissued ∷ escalated ∷ independent_review ∷ opened ∷ draft ∷ []

skipping_review_refused :
    assert_consensus_transition opened approved ≡ err (not_allowed opened approved)
unfolding assert_consensus_transition
skipping_review_refused = refl

published_after_full_review_example :
    (older : List State) × (full_review second_round ≡ full_review older) × StartsRound older
unfolding assert_consensus_transition
published_after_full_review_example =
    published_after_full_review (full_review second_round)
      (refl, (refl, (refl, (refl, (refl, (refl, (refl, (refl, (refl, refl)))))))))

reissues_are_caused_example :
    count_state reissued second_round + pending reissued
    ≤ count_state escalated second_round + count_state State.revoked second_round
unfolding assert_consensus_transition
reissues_are_caused_example =
    reissues_are_caused reissued (escalated ∷ independent_review ∷ opened ∷ draft ∷ [])
      (refl, (refl, (refl, (refl, refl))))

-- A task that was reissued: the table goes on from here, whether or not the code does.
table_admits_publication_iff_example :
    (reissued ≢ failed) ↔ ((more : List State) × IsHistory (published ∷ (more ++ second_round)))
unfolding assert_consensus_transition
table_admits_publication_iff_example =
    table_admits_publication_iff reissued (escalated ∷ independent_review ∷ opened ∷ draft ∷ [])
      (refl, (refl, (refl, (refl, refl))))
