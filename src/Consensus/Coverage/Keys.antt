-- ===== src/Consensus/Coverage/Keys.antt =====
-- The keys that cover an annotation.
use adg_lang.Common.{
  ℕ, ◌≡◌, refl, sym, ◌∙◌, length, eq_refl, ==_iff, str_eq, true, Bool, false, not, arith, ok,
  >>=-eq-ok, throw_if-eq-ok, throw_if_passed, ok-injective, List, [], ◌∷◌, String, has, any,
  AllDistinct, ◌==◌, ◌||◌, subst,
}
use adg_lang.Common.Sets.{IsSubset, length_le_of_IsSubset, has_eq_of_IsSubset-length}
use adg_lang.Js.{Value}
use adg_lang.Consensus.Coverage.{
  sentence_key, token_key, cover_tokens, cover_sentences, annotation_coverage,
  assert_comparable_coverage,
}

-- the second half of a test that failed
fresh : (c d : Bool) → (c || d) ≡ false → d ≡ false
fresh c d h = ground arith

cover_tokens-AllDistinct :
    (sentence : Value) (tokens : List Value) (keys : List String) {out : List String}
    → AllDistinct keys
    → cover_tokens sentence tokens keys ≡ ok out
    → AllDistinct out
unfolding cover_tokens
cover_tokens-AllDistinct sentence [] keys d e = subst AllDistinct (ok-injective e) d
cover_tokens-AllDistinct sentence (token ∷ tokens) keys d e =
    let (passed, rest) = throw_if_passed _ _ _ e in
    cover_tokens-AllDistinct sentence tokens (token_key sentence token ∷ keys) (fresh _ _ passed, d)
      rest

cover_sentences-AllDistinct :
    (sentences : List Value) (keys : List String) {out : List String}
    → AllDistinct keys
    → cover_sentences sentences keys ≡ ok out
    → AllDistinct out
unfolding cover_sentences
cover_sentences-AllDistinct [] keys d e = subst AllDistinct (ok-injective e) d
cover_sentences-AllDistinct (sentence ∷ sentences) keys d e =
    let (passed, e₁) = throw_if_passed _ _ _ e in
    let (_, e₂) = throw_if_passed _ _ _ e₁ in
    let (keys', covered, e₃) = >>=-eq-ok _ _ e₂ in
    cover_sentences-AllDistinct sentences keys'
      (cover_tokens-AllDistinct sentence _ (sentence_key sentence ∷ keys) (fresh _ _ passed, d)
        covered)
      e₃

-- The keys of an annotation that is accepted are distinct.
pub annotation_coverage-AllDistinct :
    (annotation : Value) {keys : List String}
    → annotation_coverage annotation ≡ ok keys
    → AllDistinct keys
unfolding annotation_coverage
annotation_coverage-AllDistinct annotation e =
    let (_, rest) = throw_if_passed _ _ _ e in cover_sentences-AllDistinct _ [] tt rest

IsSubset-of_any :
    (left right : List String) → any (λ key. not (has key right)) left ≡ false → IsSubset left right
IsSubset-of_any [] right h = tt
IsSubset-of_any (k ∷ left) right h = (ground arith, IsSubset-of_any left right (ground arith))

same_size : (m n : ℕ) (c : Bool) → (not (m == n) || c) ≡ false → m ≡ n
same_size m n c h = ground arith

-- Two annotations pass the comparison only if each covers its units without repetition and both
-- cover exactly the same units, although the code looks up only one of the inclusions.
pub assert_comparable_coverage_sound :
    (annotation_a annotation_b : Value)
    → assert_comparable_coverage annotation_a annotation_b ≡ ok tt
    → (left right : List String) × (annotation_coverage annotation_a ≡ ok left)
      × (annotation_coverage annotation_b ≡ ok right)
      × AllDistinct left
      × AllDistinct right
      × ((key : String) → has key left ≡ has key right)
unfolding assert_comparable_coverage
assert_comparable_coverage_sound a b e =
    let (left, covered_a, e₁) = >>=-eq-ok _ _ e in
    let (right, covered_b, e₂) = >>=-eq-ok _ _ e₁ in
    let passed = throw_if-eq-ok _ _ e₂ in
    let distinct = annotation_coverage-AllDistinct a covered_a in
    (
      left,
      right,
      covered_a,
      covered_b,
      distinct,
      annotation_coverage-AllDistinct b covered_b,
      λ key.
          has_eq_of_IsSubset-length key left right distinct
            (IsSubset-of_any left right (fresh _ _ passed)) (same_size _ _ _ passed),
    )

weaken_or : (b c : Bool) → c ≡ true → (b || c) ≡ true
weaken_or true c h = refl
weaken_or false c h = h

IsSubset-of_has :
    (xs ys : List String)
    → ((key : String) → has key xs ≡ true → has key ys ≡ true)
    → IsSubset xs ys
IsSubset-of_has [] ys h = tt
IsSubset-of_has (x ∷ xs) ys h = (
  h x (rw (eq_refl x) refl),
  IsSubset-of_has xs ys (λ key m. h key (weaken_or (str_eq key x) (has key xs) m)),
)

none_missing :
    (left right : List String) → IsSubset left right → any (λ key. not (has key right)) left ≡ false
none_missing [] right h = refl
none_missing (k ∷ left) right h = ground (arith, none_missing left right h.1)

-- Two annotations that each cover their units without repetition, and cover the same units, in
-- whatever order, pass the comparison.
pub assert_comparable_coverage_complete :
    (annotation_a annotation_b : Value) (left right : List String)
    → annotation_coverage annotation_a ≡ ok left
    → annotation_coverage annotation_b ≡ ok right
    → ((key : String) → has key left ≡ has key right)
    → assert_comparable_coverage annotation_a annotation_b ≡ ok tt
unfolding assert_comparable_coverage
assert_comparable_coverage_complete a b left right covered_a covered_b same =
    let distinct_a = annotation_coverage-AllDistinct a covered_a in
    let distinct_b = annotation_coverage-AllDistinct b covered_b in
    let into = IsSubset-of_has left right (λ key m. sym (same key) ∙ m) in
    let back = IsSubset-of_has right left (λ key m. same key ∙ m) in
    let at_most = length_le_of_IsSubset left right distinct_a into in
    let at_least = length_le_of_IsSubset right left distinct_b back in
    let equal : (length left == length right) ≡ true =
      (==_iff (length left) (length right)).1 (omega (arith, at_most, at_least)) in
    rw (covered_a, covered_b, equal, none_missing left right into) refl
