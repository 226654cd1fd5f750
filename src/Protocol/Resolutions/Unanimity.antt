-- ===== src/Protocol/Resolutions/Unanimity.antt =====
-- What an adjudication without a reason may decide.
use adg_lang.Common.{
  ◌≡◌, arith, Bool, true, false, ◌&&◌, ◌||◌, some, ok, >>-eq-ok, ◌>>◌, throw_if_passed, List, [],
  ◌∷◌, String, eq_iff, All, Option-cases, inl, inr,
}
use adg_lang.Js.{Value, get, strict_eq}
use adg_lang.Consensus.Coverage.{array_items}
use adg_lang.Protocol.Values.{keyed, is_blank, token_unresolved, sentence_unresolved}
use adg_lang.Protocol.Resolutions.{
  decision_needs_resolution, token_decision_key, token_needs_resolution, sentence_needs_resolution,
  resolve_tokens, resolve_sentences, validate_adjudication_resolutions,
}

unneeded : (needs blank : Bool) → (needs && blank) ≡ false → blank ≡ true → needs ≡ false
unneeded needs blank h b = ground arith

same_keys :
    (a b final : Value)
    → token_needs_resolution a b final ≡ false
    → (token_decision_key a ≡ token_decision_key b)
      × (token_decision_key final ≡ token_decision_key a)
unfolding decision_needs_resolution
same_keys a b final h = (
  (eq_iff (token_decision_key a) (token_decision_key b)).0 (ground arith),
  (eq_iff (token_decision_key final) (token_decision_key a)).0 (ground arith),
)

-- A value on which both annotations and the decision agree.
abbrev pub IsUnanimous : String → Value → Value → Value → Type 0
IsUnanimous field a b final =
    (strict_eq (get a field) (get b field) ≡ true)
    × (strict_eq (get final field) (get a field) ≡ true)

agreed :
    (x y z : Value)
    → decision_needs_resolution x y z ≡ false
    → (strict_eq x y ≡ true) × (strict_eq z x ≡ true)
unfolding decision_needs_resolution
agreed x y z h = (ground arith, ground arith)

either_false : (c d : Bool) → (c || d) ≡ false → (c ≡ false) × (d ≡ false)
either_false c d h = (ground arith, ground arith)

-- A token of the decision is one of both annotations; without a reason all its fields are decided
-- as both annotations do.
abbrev pub IsSettledToken : List Value → List Value → Value → Type 0
IsSettledToken a_tokens b_tokens token =
    (a b : Value) × (keyed "tokenId" (get token "tokenId") a_tokens ≡ some a)
    × (keyed "tokenId" (get token "tokenId") b_tokens ≡ some b)
    × (is_blank (get token "resolutionNote") ≡ true
        → (token_decision_key a ≡ token_decision_key b)
          × (token_decision_key token ≡ token_decision_key a))

-- The same of a sentence, with all its tokens.
abbrev pub IsSettled : List Value → List Value → Value → Type 0
IsSettled a_sentences b_sentences sentence =
    (a b : Value) × (keyed "sentenceId" (get sentence "sentenceId") a_sentences ≡ some a)
    × (keyed "sentenceId" (get sentence "sentenceId") b_sentences ≡ some b)
    × (is_blank (get sentence "resolutionNote") ≡ true
        → IsUnanimous "structurallyAcceptable" a b sentence
          × IsUnanimous "completePredicate" a b sentence)
    × All (IsSettledToken (array_items (get a "tokens")) (array_items (get b "tokens")))
        (array_items (get sentence "tokens"))

All-IsSettledToken :
    (sentence : Value) (a_tokens b_tokens tokens : List Value)
    → resolve_tokens sentence a_tokens b_tokens tokens ≡ ok tt
    → All (IsSettledToken a_tokens b_tokens) tokens
unfolding resolve_tokens
All-IsSettledToken sentence left right [] e = tt
All-IsSettledToken sentence left right (t ∷ ts) e =
    elim (Option-cases (keyed "tokenId" (get t "tokenId") left)) [
      | inl missing ↦ let e' = rw (missing, resolve_tokens) at e in cc
      | inr (a, in_a) ↦ elim (Option-cases (keyed "tokenId" (get t "tokenId") right)) [
        | inl missing ↦ let e' = rw (in_a, missing, resolve_tokens) at e in cc
        | inr (b, in_b) ↦
            let e' = rw (in_a, in_b, resolve_tokens) at e in
            let (reasoned, later) =
              throw_if_passed (token_needs_resolution a b t && is_blank (get t "resolutionNote"))
                (token_unresolved (get t "tokenId") (get sentence "sentenceId"))
                (resolve_tokens sentence left right ts) e' in
            (
              (
                a,
                b,
                in_a,
                in_b,
                λ blank. same_keys a b t (
                    unneeded (token_needs_resolution a b t) (is_blank (get t "resolutionNote"))
                      reasoned blank),
              ),
              All-IsSettledToken sentence left right ts later,
            )
      ]
    ]

unanimous :
    (a b s : Value)
    → sentence_needs_resolution a b s ≡ false
    → IsUnanimous "structurallyAcceptable" a b s × IsUnanimous "completePredicate" a b s
unanimous a b s h =
    let (h₁, h₂) =
      either_false
        (decision_needs_resolution (get a "structurallyAcceptable") (get b "structurallyAcceptable")
          (get s "structurallyAcceptable"))
        (decision_needs_resolution (get a "completePredicate") (get b "completePredicate")
          (get s "completePredicate"))
        h in
    (
      agreed (get a "structurallyAcceptable") (get b "structurallyAcceptable")
          (get s "structurallyAcceptable") h₁,
      agreed (get a "completePredicate") (get b "completePredicate") (get s "completePredicate") h₂,
    )

All-IsSettled :
    (left right sentences : List Value)
    → resolve_sentences left right sentences ≡ ok tt
    → All (IsSettled left right) sentences
unfolding resolve_sentences
All-IsSettled left right [] e = tt
All-IsSettled left right (s ∷ ss) e =
    elim (Option-cases (keyed "sentenceId" (get s "sentenceId") left)) [
      | inl missing ↦ let e' = rw (missing, resolve_sentences) at e in cc
      | inr (a, in_a) ↦ elim (Option-cases (keyed "sentenceId" (get s "sentenceId") right)) [
        | inl missing ↦ let e' = rw (in_a, missing, resolve_sentences) at e in cc
        | inr (b, in_b) ↦
            let e' = rw (in_a, in_b, resolve_sentences) at e in
            let tokens =
              resolve_tokens s (array_items (get a "tokens")) (array_items (get b "tokens"))
                (array_items (get s "tokens")) in
            let (reasoned, e₁) =
              throw_if_passed (sentence_needs_resolution a b s && is_blank (get s "resolutionNote"))
                (sentence_unresolved (get s "sentenceId"))
                (tokens >> resolve_sentences left right ss) e' in
            let (settled, later) = >>-eq-ok tokens (resolve_sentences left right ss) e₁ in
            (
              (
                a,
                b,
                in_a,
                in_b,
                λ blank. unanimous a b s (
                    unneeded (sentence_needs_resolution a b s) (is_blank (get s "resolutionNote"))
                      reasoned blank),
                All-IsSettledToken s _ _ _ settled,
              ),
              All-IsSettled left right ss later,
            )
      ]
    ]

-- Every sentence and token of an adjudication that passes the check of its resolutions is one of
-- both annotations, and where it gives no reason it decides as both of them do: a disagreement
-- between the annotations, and a decision that departs from both, always has a reason.
pub validate_adjudication_resolutions-IsSettled :
    (annotation_a annotation_b decision : Value)
    → validate_adjudication_resolutions annotation_a annotation_b decision ≡ ok tt
    → All
        (IsSettled
          (array_items (get annotation_a "sentences"))
          (array_items (get annotation_b "sentences")))
        (array_items (get decision "sentences"))
unfolding validate_adjudication_resolutions
validate_adjudication_resolutions-IsSettled a b decision e = All-IsSettled _ _ _ e
