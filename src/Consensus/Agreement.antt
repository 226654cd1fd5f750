-- ===== src/Consensus/Agreement.antt =====
-- The agreement metrics of tools/msa-adjudication-workbench/src/consensus.js: `sentencePairs`,
-- `tokenPairs`, `cohenKappa`, `dimension`, `computeIndependentAgreement` and
-- `agreementPolicyPassed`. `tallyPairs`, `labelSet` and the sums are loops inside them.
pub mod Counts
pub mod Units
use Prim.Native.String.{◌++◌}
use adg_lang.Common.{
  ℕ, ◌+◌, ◌-◌, Bool, true, false, not, ◌&&◌, ◌||◌, Option, none, some, Result, ok, err, ◌>>=◌, ◌>>◌,
  List, [], ◌∷◌, ◌++◌ as append, map, String, str_eq, ◌==◌, length, has, select, all, if◌then◌else◌,
}
use adg_lang.Js.{Value, get, strict_eq}
use adg_lang.Js.Text.{to_text}
use adg_lang.Consensus.Failure.{Failure, sentence_coverage, token_coverage}
use adg_lang.Consensus.Floats.{Floats}
use adg_lang.Consensus.Coverage.{array_items, assert_comparable_coverage}
use adg_lang.Consensus.Decisions.{canonical_value}

abbrev pub Pairs : Type 0
Pairs = List (String × String)

-- `new Map(sentences.map(s => [s.sentenceId, s])).get(id)`: the last of equal keys counts.
unfoldable pub sentence_of : Value → List Value → Option Value
sentence_of id [] = none
sentence_of id (s ∷ ss) =
    let rest = sentence_of id ss in
    elim rest [
      | some t ↦ some t
      | none ↦ if strict_eq (get s "sentenceId") id then some s else none
    ]

-- The sentences and tokens are arrays where these run, since the coverage was checked before.
unfoldable pub sentence_pairs_from : List Value → String → List Value → Result Failure Pairs
sentence_pairs_from right field [] = ok []
sentence_pairs_from right field (s ∷ ss) = elim (sentence_of (get s "sentenceId") right) [
  | none ↦ err sentence_coverage
  | some other ↦ do
    rest ← sentence_pairs_from right field ss
    ok ((canonical_value (get s field), canonical_value (get other field)) ∷ rest)
]

unfoldable pub sentence_pairs : Value → Value → String → Result Failure Pairs
sentence_pairs a b field =
    sentence_pairs_from (array_items (get b "sentences")) field (array_items (get a "sentences"))

-- `${sentence.sentenceId}:${token.tokenId}`
unfoldable pub unit_key : Value → Value → String
unit_key sentence token =
    to_text (get sentence "sentenceId") ++ (":" ++ to_text (get token "tokenId"))

-- The sentences with each of their tokens, in the order of the nested loops.
abbrev pub tokens_of : Value → List (String × Value)
tokens_of sentence =
    map (λ token. (unit_key sentence token, token)) (array_items (get sentence "tokens"))

abbrev pub all_tokens : List Value → List (String × Value)
all_tokens [] = []
all_tokens (s ∷ ss) = append (tokens_of s) (all_tokens ss)

-- `right.get(key)` after `right.set` of every token in turn: the last of equal keys counts.
unfoldable pub token_at : String → List (String × Value) → Option Value
token_at key [] = none
token_at key ((k, v) ∷ ts) =
    let rest = token_at key ts in
    elim rest [ some t ↦ some t | none ↦ if str_eq k key then some v else none ]

unfoldable pub token_pairs_from :
    List (String × Value) → String → List (String × Value) → Result Failure Pairs
token_pairs_from right field [] = ok []
token_pairs_from right field ((key, token) ∷ ts) = elim (token_at key right) [
  | none ↦ err token_coverage
  | some other ↦ do
    rest ← token_pairs_from right field ts
    ok ((canonical_value (get token field), canonical_value (get other field)) ∷ rest)
]

unfoldable pub token_pairs : Value → Value → String → Result Failure Pairs
token_pairs a b field =
    token_pairs_from (all_tokens (array_items (get b "sentences"))) field
      (all_tokens (array_items (get a "sentences")))

abbrev pub Counts : Type 0
Counts = List (String × ℕ)

-- `counts.get(label) || 0`
abbrev pub count_of : String → Counts → ℕ
count_of label [] = 0
count_of label ((l, n) ∷ cs) = if str_eq label l then n else count_of label cs

-- `counts.set(label, (counts.get(label) || 0) + 1)`
unfoldable pub bump : String → Counts → Counts
bump label [] = (label, 1) ∷ []
bump label ((l, n) ∷ cs) = if str_eq label l then (l, n + 1) ∷ cs else (l, n) ∷ bump label cs

-- The loop of `cohenKappa` over the pairs: the agreements and the counts of both sides.
unfoldable pub tally_pairs : Pairs → ℕ → Counts → Counts → ℕ × Counts × Counts
tally_pairs [] agreement left right = (agreement, left, right)
tally_pairs ((l, r) ∷ ps) agreement left right =
    tally_pairs ps (if str_eq l r then agreement + 1 else agreement) (bump l left) (bump r right)

-- `[...set, label]`, unless the set has the label
abbrev add_label : List String → String → List String
add_label labels label = if has label labels then labels else append labels (label ∷ [])

abbrev add_labels : List String → Counts → List String
add_labels labels [] = labels
add_labels labels ((l, n) ∷ cs) = add_labels (add_label labels l) cs

unfoldable pub disagreement_count_of : Pairs → ℕ
disagreement_count_of ps = length (select (λ p. not (str_eq p.0 p.1)) ps)

-- The token dimensions, each name with its field.
abbrev pub token_dimensions : List (String × String)
token_dimensions =
    ("token.universalPartOfSpeech", "universalPartOfSpeech")
    ∷ ("token.headTokenId", "headTokenId")
    ∷ ("token.dependencyRelation", "dependencyRelation")
    ∷ ("token.irabHeadTokenId", "irabHeadTokenId")
    ∷ ("token.irabCategory", "irabCategory")
    ∷ ("token.irabNotApplicable", "irabNotApplicable")
    ∷ []

module _ (F : Floats) where
  open F use {Float, of_ℕ, add, sub, mul, div, eq, lt, le}

  -- The loop over the labels; `n` is `pairs.length`.
  expected_from : ℕ → Counts → Counts → List String → Float → Float
  expected_from n left right [] acc = acc
  expected_from n left right (label ∷ labels) acc = expected_from n left right labels (
      add acc (
        mul (div (of_ℕ (count_of label left)) (of_ℕ n))
          (div (of_ℕ (count_of label right)) (of_ℕ n))))

  -- The value for the counts of a list of pairs that is not empty.
  kappa_of : ℕ → ℕ × Counts × Counts → Option Float
  kappa_of n (agreement, left, right) =
      let expected = expected_from n left right (add_labels (add_labels [] left) right) (of_ℕ 0) in
      if eq expected (of_ℕ 1)
      then none
      else some (div (sub (div (of_ℕ agreement) (of_ℕ n)) expected) (sub (of_ℕ 1) expected))

  pub cohen_kappa : Pairs → Option Float
  cohen_kappa [] = none
  cohen_kappa (p ∷ ps) = kappa_of (length (p ∷ ps)) (tally_pairs (p ∷ ps) 0 [] [])

  pub record Dimension : Type 0 where
    pub name : String
    pub unit_count : ℕ
    pub disagreement_count : ℕ
    pub raw_agreement : Float
    pub kappa : Option Float

  pub dimension : String → Pairs → Dimension
  dimension name pairs =
      let units = length pairs in
      let disagreements = disagreement_count_of pairs in
      record {
        name = name;
        unit_count = units;
        disagreement_count = disagreements;
        raw_agreement =
            if units == 0 then of_ℕ 1 else div (of_ℕ (units - disagreements)) (of_ℕ units);
        kappa = cohen_kappa pairs;
      }

  sum_floats : List Float → Float → Float
  sum_floats [] acc = acc
  sum_floats (x ∷ xs) acc = sum_floats xs (add acc x)

  average : List Float → Float
  average [] = of_ℕ 0
  average (x ∷ xs) = div (sum_floats (x ∷ xs) (of_ℕ 0)) (of_ℕ (length (x ∷ xs)))

  abbrev defined_kappas : List Dimension → List Float
  defined_kappas [] = []
  defined_kappas (d ∷ ds) =
      let rest = defined_kappas ds in elim d.kappa [ none ↦ rest | some k ↦ k ∷ rest ]

  pub record Metrics : Type 0 where
    pub unit_count : ℕ
    pub exact_agreement : Bool
    pub macro_raw_agreement : Float
    pub macro_defined_kappa : Option Float
    pub dimensions : List Dimension

  abbrev pub sum_units : List Dimension → ℕ
  sum_units [] = 0
  sum_units (d ∷ ds) = d.unit_count + sum_units ds

  average_of_some : List Float → Option Float
  average_of_some [] = none
  average_of_some (k ∷ ks) = some (average (k ∷ ks))

  pub summary : List Dimension → Metrics
  summary dimensions = record {
    unit_count = sum_units dimensions;
    exact_agreement = all (λ d. d.disagreement_count == 0) dimensions;
    macro_raw_agreement = average (map (λ d. d.raw_agreement) dimensions);
    macro_defined_kappa = average_of_some (defined_kappas dimensions);
    dimensions = dimensions;
  }

  unfoldable pub compare_tokens :
      Value → Value → List (String × String) → Result Failure (List Dimension)
  compare_tokens a b [] = ok []
  compare_tokens a b ((name, field) ∷ rest) = do
    pairs ← token_pairs a b field
    later ← compare_tokens a b rest
    ok (dimension name pairs ∷ later)

  unfoldable pub compute_independent_agreement : Value → Value → Result Failure Metrics
  compute_independent_agreement a b = do
    assert_comparable_coverage a b
    acceptable ← sentence_pairs a b "structurallyAcceptable"
    complete ← sentence_pairs a b "completePredicate"
    tokens ← compare_tokens a b token_dimensions
    ok (
        summary (
          dimension "sentence.structurallyAcceptable" acceptable
          ∷ dimension "sentence.completePredicate" complete
          ∷ tokens))

  pub record MetricPolicy : Type 0 where
    pub minimum_raw_agreement : Float
    pub minimum_defined_kappa : Float
    pub undefined_kappa_fallback : String

  pub agreement_policy_passed : Metrics → MetricPolicy → Bool
  agreement_policy_passed metrics policy =
      if lt metrics.macro_raw_agreement policy.minimum_raw_agreement
      then false
      else elim metrics.macro_defined_kappa [
        | none ↦ str_eq policy.undefined_kappa_fallback "raw-agreement"
        | some kappa ↦ le policy.minimum_defined_kappa kappa
      ]
