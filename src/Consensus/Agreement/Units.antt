-- ===== src/Consensus/Agreement/Units.antt =====
-- What the metrics of two annotations measure.
use adg_lang.Common.{
  ℕ, suc, ◌+◌, ◌*◌, ◌≡◌, ◌↔◌, refl, arith, true, Option, none, some, ok, Returns, bind-Returns,
  then-Returns, ok-Returns, err-Returns, Option-cases, inl, inr, List, [], ◌∷◌, String, eq_iff,
  length, all, ◌==◌,
}
use adg_lang.Js.{Value, get}
use adg_lang.Consensus.Floats.{Floats}
use adg_lang.Consensus.Coverage.{array_items}
use adg_lang.Consensus.Decisions.{canonical_value}
use adg_lang.Consensus.Agreement.{
  Pairs, sentence_of, sentence_pairs_from, sentence_pairs, all_tokens, token_at, token_pairs_from,
  token_pairs, disagreement_count_of, Dimension, dimension, Metrics, sum_units, summary,
  token_dimensions, compare_tokens, compute_independent_agreement,
}

-- The canonical value of a field of a unit that was looked up.
abbrev pub value_at : String → Option Value → Option String
value_at field none = none
value_at field (some unit) = some (canonical_value (get unit field))

-- Each sentence of A has a sentence of B with its identifier and the same value of the field.
abbrev pub SentencesAgree : List Value → String → List Value → Type 0
SentencesAgree right field [] = Unit
SentencesAgree right field (s ∷ ss) =
    (value_at field (sentence_of (get s "sentenceId") right) ≡ some (canonical_value (get s field)))
    × SentencesAgree right field ss

-- The same for the tokens, by their keys.
abbrev pub TokensAgree : List (String × Value) → String → List (String × Value) → Type 0
TokensAgree right field [] = Unit
TokensAgree right field ((key, t) ∷ ts) =
    (value_at field (token_at key right) ≡ some (canonical_value (get t field)))
    × TokensAgree right field ts

-- The pairs are as many as the units, and none differs exactly if the annotations agree.
abbrev Measures : ℕ → Type 0 → Pairs → Type 0
Measures n Agree ps = (length ps ≡ n) × ((disagreement_count_of ps ≡ 0) ↔ Agree)

Measures-cons :
    (x y : String) (ps : Pairs) (n : ℕ) (Agree : Type 0)
    → Measures n Agree ps
    → Measures (suc n) ((◌≡◌ {A = Option String} (some y) (some x)) × Agree) ((x, y) ∷ ps)
unfolding disagreement_count_of
Measures-cons x y ps n Agree h = (
  omega (arith, h.0),
  (
    (λ z. (ground (arith, eq_iff x y), h.1.0 (ground (arith, eq_iff x y)))),
    λ (same, agree). let none_left = h.1.1 agree in ground (arith, eq_iff x y, none_left),
  ),
)

sentence_pairs-Measures :
    (right : List Value) (field : String) (ss : List Value)
    → Returns
        (Measures (length ss) (SentencesAgree right field ss))
        (sentence_pairs_from right field ss)
unfolding sentence_pairs_from disagreement_count_of
sentence_pairs-Measures right field [] = ok-Returns (refl, ((λ _. tt), (λ _. refl)))
sentence_pairs-Measures right field (s ∷ ss) =
    elim (Option-cases (sentence_of (get s "sentenceId") right)) [
      | inl missing ↦ rw (missing, sentence_pairs_from) err-Returns
      | inr (other, found) ↦
          rw (found, sentence_pairs_from)
            (bind-Returns (sentence_pairs-Measures right field ss)
              λ ps h. ok-Returns (Measures-cons _ _ ps _ _ h))
    ]

token_pairs-Measures :
    (right : List (String × Value)) (field : String) (ts : List (String × Value))
    → Returns (Measures (length ts) (TokensAgree right field ts)) (token_pairs_from right field ts)
unfolding token_pairs_from disagreement_count_of
token_pairs-Measures right field [] = ok-Returns (refl, ((λ _. tt), (λ _. refl)))
token_pairs-Measures right field ((key, t) ∷ ts) = elim (Option-cases (token_at key right)) [
  | inl missing ↦ rw (missing, token_pairs_from) err-Returns
  | inr (other, found) ↦
      rw (found, token_pairs_from)
        (bind-Returns (token_pairs-Measures right field ts)
          λ ps h. ok-Returns (Measures-cons _ _ ps _ _ h))
]

abbrev sentences_of : Value → List Value
sentences_of annotation = array_items (get annotation "sentences")

-- The tokens agree on each listed field.
abbrev pub FieldsAgree : Value → Value → List (String × String) → Type 0
FieldsAgree a b [] = Unit
FieldsAgree a b ((name, field) ∷ rest) =
    TokensAgree (all_tokens (array_items (get b "sentences"))) field
      (all_tokens (array_items (get a "sentences")))
    × FieldsAgree a b rest

-- Every unit of A has a unit of B with the same values.
abbrev pub AnnotationsAgree : Value → Value → Type 0
AnnotationsAgree a b =
    SentencesAgree (array_items (get b "sentences")) "structurallyAcceptable"
      (array_items (get a "sentences"))
    × (SentencesAgree (array_items (get b "sentences")) "completePredicate"
          (array_items (get a "sentences"))
        × FieldsAgree a b token_dimensions)

module _ (F : Floats) where
  abbrev IsSummary : ℕ → Type 0 → List (Dimension F) → Type 0
  IsSummary n Agree ds =
      (sum_units F ds ≡ n) × ((all (λ d. d.disagreement_count == 0) ds ≡ true) ↔ Agree)

  IsSummary-cons :
      (name : String) (ps : Pairs) (ds : List (Dimension F)) (m n : ℕ) (P Q : Type 0)
      → Measures m P ps
      → IsSummary n Q ds
      → IsSummary (m + n) (P × Q) (dimension F name ps ∷ ds)
  unfolding dimension
  IsSummary-cons name ps ds m n P Q h k = (
    omega (arith, h.0, k.0),
    (
      (λ z. (h.1.0 (ground arith), k.1.0 (ground arith))),
      λ (p, q). let p' = h.1.1 p in let q' = k.1.1 q in ground (arith, p', q'),
    ),
  )

  compare_tokens-IsSummary :
      (a b : Value) (dims : List (String × String))
      → Returns
          (IsSummary (length dims * length (all_tokens (sentences_of a))) (FieldsAgree a b dims))
          (compare_tokens F a b dims)
  unfolding compare_tokens token_pairs
  compare_tokens-IsSummary a b [] = ok-Returns (omega arith, ((λ _. tt), (λ _. refl)))
  compare_tokens-IsSummary a b ((name, field) ∷ dims) =
      bind-Returns
        (token_pairs-Measures (all_tokens (sentences_of b)) field (all_tokens (sentences_of a)))
        λ ps h. bind-Returns (compare_tokens-IsSummary a b dims) λ ds k.
          let (counted, agree) = IsSummary-cons name ps ds _ _ _ _ h k in
          ok-Returns (omega arith, agree)

  -- What the metrics say of the annotations.
  abbrev pub IsMeasured : Value → Value → Metrics F → Type 0
  IsMeasured a b m =
      (m.unit_count
        ≡ 2 * length (array_items (get a "sentences"))
          + 6 * length (all_tokens (array_items (get a "sentences"))))
      × ((m.exact_agreement ≡ true) ↔ AnnotationsAgree a b)

  measured : (a b : Value) → Returns (IsMeasured a b) (compute_independent_agreement F a b)
  unfolding compute_independent_agreement sentence_pairs summary
  measured a b = then-Returns λ _ _.
      bind-Returns
        (sentence_pairs-Measures (sentences_of b) "structurallyAcceptable" (sentences_of a))
        λ ps h.
          bind-Returns
            (sentence_pairs-Measures (sentences_of b) "completePredicate" (sentences_of a))
            λ qs k. bind-Returns (compare_tokens-IsSummary a b token_dimensions) λ ds s.
              let s' = IsSummary-cons "sentence.completePredicate" qs ds _ _ _ _ k s in
              let rest = dimension F "sentence.completePredicate" qs ∷ ds in
              let t = IsSummary-cons "sentence.structurallyAcceptable" ps rest _ _ _ _ h s' in
              ok-Returns {a = summary F (dimension F "sentence.structurallyAcceptable" ps ∷ rest)}
                (omega (arith, t.0), t.1)

-- Metrics that are computed count two units for each sentence and six for each token of A, and
-- they report exact agreement if and only if each sentence and token of A has one of B with the
-- same value in every field that is compared.
pub compute_independent_agreement_measures :
    (F : Floats) (annotation_a annotation_b : Value) (m : Metrics F)
    → compute_independent_agreement F annotation_a annotation_b ≡ ok m
    → IsMeasured F annotation_a annotation_b m
compute_independent_agreement_measures F a b m e = (measured F a b).value m e
