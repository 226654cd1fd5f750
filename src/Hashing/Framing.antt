-- ===== src/Hashing/Framing.antt =====
-- The length prefixes make the parts uniquely readable.
use adg_lang.Common.{
  ℕ, ◌≡◌, refl, ap, ◌∙◌, sym, Option, none, some, List, [], ◌∷◌, ◌++◌, append_assoc, map, ◌==◌,
  if◌then◌else◌, take, drop, length, take-append_length, drop-append_length,
}
use adg_lang.Common.Decimal.{read_from, read-decimal}
use adg_lang.Hashing.{Bytes, Field, field_text, framed, part, joined_parts}

-- A reader of one part, from the number in front and what follows it.
unframe : ℕ → Bytes → Option (Option Bytes × Bytes)
unframe n [] = none
unframe n (c ∷ s) = if c == b':' then some (some (take n s), drop n s) else some (none, drop 2 s)

read_part : Bytes → Option (Option Bytes × Bytes)
read_part s = let (n, rest) = read_from 0 s in unframe n rest

read_part-framed : (v : Option Bytes) (rest : Bytes) → read_part (framed v ++ rest) ≡ some (v, rest)
unfolding read_part unframe framed read_from
read_part-framed none rest = refl
read_part-framed (some t) rest =
    rw (append_assoc, read-decimal (length t) (b':' ∷ (t ++ rest)) refl)
      (rw (take-append_length t rest, drop-append_length t rest))

read_part-nil : read_part [] ≡ none
unfolding read_part unframe read_from
read_part-nil = refl

same_pair :
    (v w : Option Bytes) (r s : Bytes)
    → ◌≡◌ {A = Option (Option Bytes × Bytes)} (some (v, r)) (some (w, s))
    → (v ≡ w) × (r ≡ s)
same_pair v w r s e = (cc, cc)

framed_inj : (v w : Option Bytes) (r s : Bytes) → framed v ++ r ≡ framed w ++ s → (v ≡ w) × (r ≡ s)
framed_inj v w r s e =
    same_pair v w r s (sym (read_part-framed v r) ∙ ap read_part e ∙ read_part-framed w s)

-- Two sequences of fields with the same bytes contribute the same texts, field by field: no
-- boundary between fields can be shifted, and an absent value is told apart from every text.
pub joined_parts_injective :
    (vs ws : List Field) → joined_parts vs ≡ joined_parts ws → map field_text vs ≡ map field_text ws
unfolding joined_parts part
joined_parts_injective [] [] e = refl
joined_parts_injective [] (w ∷ ws) e =
    cc (read_part-nil, read_part-framed (field_text w) (joined_parts ws))
joined_parts_injective (v ∷ vs) [] e =
    cc (read_part-nil, read_part-framed (field_text v) (joined_parts vs))
joined_parts_injective (v ∷ vs) (w ∷ ws) e =
    let (same, rest) =
      framed_inj (field_text v) (field_text w) (joined_parts vs) (joined_parts ws) e in
    cc (same, joined_parts_injective vs ws rest)
