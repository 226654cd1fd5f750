-- ===== src/Worker/Drafts/Counts.antt =====
-- What a draft's progress counts.
use adg_lang.Common.{
  ℕ, ◌+◌, ◌≤◌, ◌≡◌, refl, arith, Bool, true, false, List, [], ◌∷◌, if◌then◌else◌, Bool-cases, inl,
  inr, ==_iff,
}
use adg_lang.Js.{Value, get, is_text}
use adg_lang.Consensus.Coverage.{array_items}
use adg_lang.Worker.Drafts.{
  Counts, has_draft_value, count_values, token_values, count_tokens, count_sentences, Progress,
  ratification_field, ratification_progress, annotation_progress, calculate_draft_progress, is_uuid,
  is_verdict, is_reasoned, one_if,
}

-- What is completed counts in the total.
abbrev IsWithin : Counts → Type 0
IsWithin (total, completed) = completed ≤ total

count_values-IsWithin : (vs : List Value) (c : Counts) → IsWithin c → IsWithin (count_values vs c)
unfolding count_values
count_values-IsWithin [] c h = h
count_values-IsWithin (v ∷ vs) (total, completed) h =
    count_values-IsWithin vs (total + 1, if has_draft_value v then completed + 1 else completed)
      (ground arith)

count_tokens-IsWithin : (ts : List Value) (c : Counts) → IsWithin c → IsWithin (count_tokens ts c)
unfolding count_tokens
count_tokens-IsWithin [] c h = h
count_tokens-IsWithin (t ∷ ts) c h =
    count_tokens-IsWithin ts (count_values (token_values t) c)
      (count_values-IsWithin (token_values t) c h)

count_sentences-IsWithin :
    (ss : List Value) (c : Counts) → IsWithin c → IsWithin (count_sentences ss c)
unfolding count_sentences
count_sentences-IsWithin [] c h = h
count_sentences-IsWithin (s ∷ ss) c h =
    let values = get s "structural" ∷ get s "predicate" ∷ [] in
    count_sentences-IsWithin ss
      (count_tokens (array_items (get s "tokens")) (count_values values c))
      (count_tokens-IsWithin (array_items (get s "tokens")) (count_values values c)
        (count_values-IsWithin values c h))

one_if_le : (c : Bool) → one_if c ≤ 1
one_if_le true = omega arith
one_if_le false = omega arith

module _ (percentage : ℕ → ℕ → ℕ) where
  abbrev pub IsBounded : Progress → Type 0
  IsBounded p = (p.completed ≤ p.total) × (p.total ≡ 0 → p.percentage ≡ 0)

  ratification_progress-IsBounded :
      (fields : List Value) → IsBounded (ratification_progress percentage fields)
  unfolding ratification_progress
  ratification_progress-IsBounded fields =
      let v = ratification_field fields in
      let h₁ = one_if_le (is_uuid (get v "primaryReceiptId")) in
      let h₂ = one_if_le (is_verdict (get v "decision")) in
      let h₃ = one_if_le (is_reasoned (get v "rationale")) in
      (omega (arith, h₁, h₂, h₃), λ none_there. cc)

  annotation_progress-IsBounded :
      (fields : List Value) → IsBounded (annotation_progress percentage fields)
  unfolding annotation_progress
  annotation_progress-IsBounded fields = (
    count_sentences-IsWithin fields (0, 0) (omega arith),
    λ none_there. rw ((==_iff (count_sentences fields (0, 0)).0 0).1 none_there) refl,
  )

  -- Of any draft at most as many values are completed as there are in total, and where there are
  -- none the percentage is 0.
  pub calculate_draft_progress-IsBounded :
      (draft : Value) → IsBounded (calculate_draft_progress percentage draft)
  unfolding calculate_draft_progress
  calculate_draft_progress-IsBounded draft =
      elim (Bool-cases (is_text (get draft "role") "ratification")) [
        | inl second ↦
            rw second (ratification_progress-IsBounded (array_items (get draft "fields")))
        | inr other ↦ rw other (annotation_progress-IsBounded (array_items (get draft "fields")))
      ]
