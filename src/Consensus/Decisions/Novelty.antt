-- ===== src/Consensus/Decisions/Novelty.antt =====
-- What the number of novel decisions says of a final decision.
use adg_lang.Common.{
  ℕ, ◌+◌, ◌≡◌, refl, sym, ◌∙◌, Bool, true, false, not, ◌||◌, arith, ok, ◌>>=◌, ◌>>◌, >>=-eq-ok,
  throw_if, Returns, bind-Returns, then-Returns, ok-Returns, err-Returns, throw_if-Returns,
  weaken-Returns, none, is_some, List, [], ◌∷◌, ◌++◌, String, str_eq, eq_iff, has, AllDistinct,
  length, ◌==◌, select, inl, inr, Option-cases,
}
use adg_lang.Common.Sets.{IsSubset, has_eq_of_IsSubset-length}
use adg_lang.Js.{Value, is_nullish}
use adg_lang.Consensus.Failure.{type_error, unit_not_bound, decision_coverage}
use adg_lang.Consensus.Decisions.{
  Entries, lookup, set_unique_decision_value, record_fields, record_tokens, record_sentences,
  decision_map, is_novel, count_novel_from, count_novel_primary_decisions, decision_fields,
}

abbrev pub keys : Entries → List String
keys [] = []
keys ((k, v) ∷ es) = k ∷ keys es

has-keys : (k : String) (es : Entries) → has k (keys es) ≡ is_some (lookup k es)
has-keys k [] = refl
has-keys k ((j, v) ∷ es) = ground (arith, has-keys k es)

length-keys : (es : Entries) → length (keys es) ≡ length es
length-keys [] = refl
length-keys ((k, v) ∷ es) = ground (arith, length-keys es)

has-keys-append :
    (j k v : String) (es : Entries)
    → has j (keys es) ≡ false
    → str_eq j k ≡ false
    → has j (keys (es ++ (k, v) ∷ [])) ≡ false
has-keys-append j k v [] h n = ground arith
has-keys-append j k v (e ∷ es) h n = ground (arith, has-keys-append j k v es)

append-AllDistinct :
    (k v : String) (es : Entries)
    → AllDistinct (keys es)
    → lookup k es ≡ none
    → AllDistinct (keys (es ++ (k, v) ∷ []))
append-AllDistinct k v [] d n = (refl, tt)
append-AllDistinct k v ((j, w) ∷ es) d n = (
  has-keys-append j k v es d.0 (ground (arith, eq_iff j k, eq_iff k j)),
  append-AllDistinct k v es d.1 (ground arith),
)

-- A map with no key twice.
abbrev pub HasDistinctKeys : Entries → Type 0
HasDistinctKeys es = AllDistinct (keys es)

set_unique-HasDistinctKeys :
    (es : Entries) (k v : String)
    → HasDistinctKeys es
    → Returns HasDistinctKeys (set_unique_decision_value es k v)
unfolding set_unique_decision_value
set_unique-HasDistinctKeys es k v d = elim (Option-cases (lookup k es)) [
  | inl new ↦ rw new (ok-Returns (append-AllDistinct k v es d new))
  | inr (w, old) ↦ rw old err-Returns
]

record_fields-HasDistinctKeys :
    (prefix : String) (token : Value) (fields : List String) (es : Entries)
    → HasDistinctKeys es
    → Returns HasDistinctKeys (record_fields prefix token fields es)
unfolding record_fields
record_fields-HasDistinctKeys prefix token [] es d = ok-Returns d
record_fields-HasDistinctKeys prefix token (f ∷ fs) es d =
    bind-Returns (set_unique-HasDistinctKeys es _ _ d)
      (λ es' d'. record_fields-HasDistinctKeys prefix token fs es' d')

record_tokens-HasDistinctKeys :
    (sentence : Value) (tokens : List Value) (es : Entries)
    → HasDistinctKeys es
    → Returns HasDistinctKeys (record_tokens sentence tokens es)
unfolding record_tokens
record_tokens-HasDistinctKeys sentence [] es d = ok-Returns d
record_tokens-HasDistinctKeys sentence (t ∷ ts) es d =
    throw_if-Returns (is_nullish t) type_error λ _.
      bind-Returns (record_fields-HasDistinctKeys _ t decision_fields es d)
        λ es' d'. record_tokens-HasDistinctKeys sentence ts es' d'

record_sentences-HasDistinctKeys :
    (sentences : List Value) (es : Entries)
    → HasDistinctKeys es
    → Returns HasDistinctKeys (record_sentences sentences es)
unfolding record_sentences
record_sentences-HasDistinctKeys [] es d = ok-Returns d
record_sentences-HasDistinctKeys (s ∷ ss) es d = throw_if-Returns (is_nullish s) type_error λ _.
    bind-Returns (set_unique-HasDistinctKeys es _ _ d) λ v₁ d₁.
      bind-Returns (set_unique-HasDistinctKeys v₁ _ _ d₁) λ v₂ d₂. then-Returns λ ts _.
        bind-Returns (record_tokens-HasDistinctKeys s ts v₂ d₂)
          λ v₃ d₃. record_sentences-HasDistinctKeys ss v₃ d₃

pub decision_map-HasDistinctKeys :
    (annotation : Value) → Returns HasDistinctKeys (decision_map annotation)
unfolding decision_map
decision_map-HasDistinctKeys annotation =
    then-Returns λ ss _. record_sentences-HasDistinctKeys ss [] tt

-- The decisions of `final` that neither map has.
abbrev pub novel : Entries → Entries → Entries → Entries
novel a b final = select (is_novel a b) final

-- What the loop has established when it ends with `n`.
abbrev IsCounted : Entries → Entries → Entries → ℕ → ℕ → Type 0
IsCounted a b final start n =
    IsSubset (keys final) (keys a)
    × IsSubset (keys final) (keys b)
    × (n ≡ start + length (novel a b final))

has-keys_of_bound :
    (k : String) (a : Entries) (c : Bool)
    → (not (is_some (lookup k a)) || c) ≡ false
    → (has k (keys a) ≡ true) × (c ≡ false)
has-keys_of_bound k a c h = (rw (has-keys k a) (ground arith), ground arith)

count_novel_from_sound :
    (a b final : Entries) (start : ℕ)
    → Returns (IsCounted a b final start) (count_novel_from a b final start)
unfolding count_novel_from
count_novel_from_sound a b [] start = ok-Returns (tt, tt, omega arith)
count_novel_from_sound a b ((k, v) ∷ final) start =
    throw_if-Returns (not (is_some (lookup k a)) || not (is_some (lookup k b))) (unit_not_bound k)
      λ bound.
        let (in_a, missing) = has-keys_of_bound k a (not (is_some (lookup k b))) bound in
        let in_b : has k (keys b) ≡ true = rw (has-keys k b) (ground arith) in
        weaken-Returns (λ n h. ((in_a, h.0), (in_b, h.1), ground (arith, h.2)))
          (count_novel_from_sound a b final _)

-- An accepted final decision decides exactly the units of each annotation, and `n` of them newly.
abbrev pub IsNovelCount : Entries → Entries → Entries → ℕ → Type 0
IsNovelCount a b final n =
    ((key : String) → is_some (lookup key final) ≡ is_some (lookup key a))
    × ((key : String) → is_some (lookup key final) ≡ is_some (lookup key b))
    × (n ≡ length (novel a b final))

same_units :
    (final a : Entries)
    → HasDistinctKeys final
    → IsSubset (keys final) (keys a)
    → length final ≡ length a
    → (key : String) → is_some (lookup key final) ≡ is_some (lookup key a)
same_units final a d h e key =
    sym (has-keys key final)
    ∙ has_eq_of_IsSubset-length key (keys final) (keys a) d h
        (length-keys final ∙ e ∙ sym (length-keys a))
    ∙ has-keys key a

count_and_check :
    (a b final : Entries)
    → HasDistinctKeys final
    → Returns (IsNovelCount a b final) (
        count_novel_from a b final 0 >>= λ count.
        throw_if
          (not (length final == length a) || not (length final == length b))
          decision_coverage
        >> ok count)
count_and_check a b final d =
    bind-Returns (count_novel_from_sound a b final 0) λ n (in_a, in_b, counted).
      throw_if-Returns (not (length final == length a) || not (length final == length b))
        decision_coverage
        λ passed. ok-Returns (
          same_units final a d in_a (ground arith),
          same_units final b d in_b (ground arith),
          omega arith,
        )

-- If the count succeeds, all three arguments give decision maps, the final decision decides
-- exactly the units that A decides and exactly those that B decides, and the result is the number
-- of its units whose value is neither A's nor B's.
pub count_novel_primary_decisions_sound :
    (annotation_a annotation_b final_decision : Value) {n : ℕ}
    → count_novel_primary_decisions annotation_a annotation_b final_decision ≡ ok n
    → (a b final : Entries) × (decision_map annotation_a ≡ ok a)
      × (decision_map annotation_b ≡ ok b)
      × (decision_map final_decision ≡ ok final)
      × IsNovelCount a b final n
unfolding count_novel_primary_decisions
count_novel_primary_decisions_sound va vb vf {n} e =
    let (a, ea, e₁) = >>=-eq-ok (decision_map va) _ e in
    let (b, eb, e₂) = >>=-eq-ok (decision_map vb) _ e₁ in
    let (final, ef, e₃) = >>=-eq-ok (decision_map vf) _ e₂ in
    let d = (decision_map-HasDistinctKeys vf).value final ef in
    (a, b, final, ea, eb, ef, (count_and_check a b final d).value n e₃)
