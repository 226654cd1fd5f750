-- ===== src/Tests/Annotations.antt =====
-- Two small annotations, their coverage, their agreement and a final decision.
use adg_lang.Common.{
  ℕ, ◌+◌, ◌-◌, ◌*◌, ◌/◌, ◌≡◌, refl, Bool, true, false, ok, err, none, List, [], ◌∷◌, String, length,
  has, AllDistinct, ltb, leb, ◌==◌,
}
use adg_lang.Common.Decimal.{decimal}
use adg_lang.Js.{Value, bool, num, whole, pos, str, arr, obj, nil, cons, end, prop}
use adg_lang.Js.Text.{to_text, show_number, show_ℕ, stringify, quoted}
use adg_lang.Consensus.Failure.{sentence_ids}
use adg_lang.Consensus.Floats.{Floats}
use adg_lang.Consensus.Coverage.{
  annotation_coverage, cover_sentences, cover_tokens, sentence_key, token_key,
  assert_comparable_coverage,
}
use adg_lang.Consensus.Coverage.Keys.{
  assert_comparable_coverage_sound, assert_comparable_coverage_complete,
}
use adg_lang.Consensus.Decisions.{
  Entries, decision_map, record_sentences, record_tokens, record_fields, iterate,
  set_unique_decision_value, canonical_value, count_novel_from, count_novel_primary_decisions,
}
use adg_lang.Consensus.Decisions.Novelty.{IsNovelCount, count_novel_primary_decisions_sound}
use adg_lang.Consensus.Agreement.{
  Pairs, tally_pairs, count_of, disagreement_count_of, compute_independent_agreement,
  compare_tokens, sentence_pairs, sentence_pairs_from, sentence_of, token_pairs, token_pairs_from,
  token_at, unit_key, Metrics,
}
use adg_lang.Consensus.Agreement.Counts.{count_left, count_right, total, tally_pairs_counts}
use adg_lang.Consensus.Agreement.Units.{IsMeasured, compute_independent_agreement_measures}

abbrev token : ℕ → String → Value
token id category =
    obj (prop "tokenId" (num (whole (pos id))) (prop "irabCategory" (str category) end))

abbrev annotation : Bool → String → Value
annotation acceptable category = obj (
    prop "sentences"
      (arr (
        cons
          (obj (
            prop "sentenceId" (str "s1") (
              prop "structurallyAcceptable" (bool acceptable) (
                prop "tokens" (arr (cons (token 1 category) (cons (token 2 "subject") nil))) end))))
          nil))
      end)

-- A sentence that comes twice.
abbrev repeated : Value
repeated = obj (
    prop "sentences"
      (arr (
        cons (obj (prop "sentenceId" (str "s1") (prop "tokens" (arr nil) end)))
          (cons (obj (prop "sentenceId" (str "s1") (prop "tokens" (arr nil) end))) nil)))
      end)

repeated_refused : annotation_coverage repeated ≡ err sentence_ids
unfolding annotation_coverage cover_sentences cover_tokens sentence_key token_key to_text
repeated_refused = refl

assert_comparable_coverage_sound_example :
    (left right : List String) × (annotation_coverage (annotation true "object") ≡ ok left)
    × (annotation_coverage (annotation false "state") ≡ ok right)
    × AllDistinct left
    × AllDistinct right
    × ((key : String) → has key left ≡ has key right)
unfolding assert_comparable_coverage annotation_coverage cover_sentences cover_tokens sentence_key
    token_key to_text show_number show_ℕ decimal
assert_comparable_coverage_sound_example =
    assert_comparable_coverage_sound (annotation true "object") (annotation false "state") refl

count_novel_primary_decisions_sound_example :
    (a b final : Entries) × (decision_map (annotation true "object") ≡ ok a)
    × (decision_map (annotation false "state") ≡ ok b)
    × (decision_map (annotation true "adverb") ≡ ok final)
    × IsNovelCount a b final 1
unfolding count_novel_primary_decisions count_novel_from decision_map record_sentences record_tokens
    record_fields iterate set_unique_decision_value canonical_value to_text show_number show_ℕ
    decimal stringify quoted
count_novel_primary_decisions_sound_example =
    count_novel_primary_decisions_sound (annotation true "object") (annotation false "state")
      (annotation true "adverb") refl

tally_pairs_counts_example :
    let pairs : Pairs = ("x", "x") ∷ ("x", "y") ∷ [] in
    let (agreement, left, right) = tally_pairs pairs 0 [] [] in
    (agreement + disagreement_count_of pairs ≡ length pairs)
    × ((x : String) → count_of x left ≡ count_left x pairs)
    × ((x : String) → count_of x right ≡ count_right x pairs)
    × (total left ≡ length pairs)
    × (total right ≡ length pairs)
tally_pairs_counts_example = tally_pairs_counts (("x", "x") ∷ ("x", "y") ∷ [])

-- Whole numbers in the place of the floating point numbers.
abbrev whole_floats : Floats
whole_floats = record {
  Float = ℕ;
  of_ℕ = λ n. n;
  add = λ a b. a + b;
  sub = λ a b. a - b;
  mul = λ a b. a * b;
  div = λ a b. a / b;
  eq = λ a b. a == b;
  lt = λ a b. ltb a b;
  le = λ a b. leb a b;
}

agreement_metrics : Metrics whole_floats
unfolding compute_independent_agreement assert_comparable_coverage annotation_coverage
    cover_sentences cover_tokens sentence_key token_key to_text show_number show_ℕ decimal
agreement_metrics =
    elim (compute_independent_agreement whole_floats (annotation true "object")
      (annotation false "state")) [
        | ok m ↦ m
        | err e ↦ record {
          unit_count = 0;
          exact_agreement = true;
          macro_raw_agreement = 0;
          macro_defined_kappa = none;
          dimensions = [];
        }
      ]

compute_independent_agreement_measures_example :
    IsMeasured whole_floats (annotation true "object") (annotation false "state") agreement_metrics
unfolding agreement_metrics compute_independent_agreement assert_comparable_coverage
    annotation_coverage cover_sentences cover_tokens sentence_key token_key to_text show_number
    show_ℕ decimal sentence_pairs sentence_pairs_from sentence_of compare_tokens token_pairs
    token_pairs_from token_at unit_key
compute_independent_agreement_measures_example =
    compute_independent_agreement_measures whole_floats (annotation true "object")
      (annotation false "state") agreement_metrics refl

abbrev covered_keys : List String
covered_keys = "token:s1:2" ∷ "token:s1:1" ∷ "sentence:s1" ∷ []

assert_comparable_coverage_complete_example :
    assert_comparable_coverage (annotation true "object") (annotation false "state") ≡ ok tt
unfolding annotation_coverage cover_sentences cover_tokens sentence_key token_key to_text
    show_number show_ℕ decimal
assert_comparable_coverage_complete_example =
    assert_comparable_coverage_complete (annotation true "object") (annotation false "state")
      covered_keys covered_keys refl refl (λ key. refl)
