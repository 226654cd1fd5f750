-- ===== src/Sql/Placeholders/Verbatim.antt =====
-- The loop of `replaceSqlitePlaceholders`, one character and one region at a time.
use adg_lang.Common.{ℕ, ◌+◌, ◌≡◌, ◌≢◌, ◌⊎◌, refl, ap, arith, Option, none, some, [], ◌∷◌, inl, inr}
use adg_lang.Sql.Placeholders.{
  Text, Mode, normal, single_quote, double_quote, Move, copy, copy_two, hole, round, replace_from,
}

Move-cases : (m : Move) → ((n : Mode) × (m ≡ copy n)) ⊎ ((n : Mode) × (m ≡ copy_two n)) ⊎ (m ≡ hole)
Move-cases (copy n) = inl (n, refl)
Move-cases (copy_two n) = inr (inl (n, refl))
Move-cases hole = inr (inr refl)

round_hole :
    (m : Mode) (c : ℕ) (next : Option ℕ) → round m c next ≡ hole → (m ≡ normal) × (c ≡ b'?')
unfolding round
round_hole m c none h = ground arith
round_hole m c (some d) h = ground arith

-- With each placeholder written as `?` again the loop gives back the text that it read: it
-- changes nothing else, in any mode.
pub replace_from_restores : (k : ℕ) (m : Mode) (s : Text) → replace_from (λ _. b'?' ∷ []) k m s ≡ s
unfolding replace_from
replace_from_restores k m [] = refl
replace_from_restores k m (c ∷ []) = ground (arith, round_hole m c none)
replace_from_restores k m (c ∷ d ∷ s) = elim (Move-cases (round m c (some d))) [
  | inl (n, e) ↦ rw (e, replace_from) (ap (λ r. c ∷ r) (replace_from_restores k n (d ∷ s)))
  | inr (inl (n, e)) ↦ rw (e, replace_from) (ap (λ r. c ∷ d ∷ r) (replace_from_restores k n s))
  | inr (inr e) ↦
      rw (e, replace_from, (round_hole m c (some d) e).1)
        (ap (λ r. b'?' ∷ r) (replace_from_restores (k + 1) normal (d ∷ s)))
]

-- The text does not go on with the character `q`.
abbrev pub StartsOther : ℕ → Text → Type 0
StartsOther q [] = Unit
StartsOther q (c ∷ s) = c ≢ q

-- Inside a quoted region with quote `q`, whose mode is `m`.
abbrev pub Quotes : ℕ → Mode → Type 0
Quotes q m = ((m ≡ single_quote) × (q ≡ 39)) ⊎ ((m ≡ double_quote) × (q ≡ 34))

module _ (place : ℕ → Text) (k : ℕ) where
  -- One character copied, whatever comes next.
  pub copied :
      (m n : Mode) (c : ℕ) (s : Text)
      → ((next : Option ℕ) → round m c next ≡ copy n)
      → replace_from place k m (c ∷ s) ≡ c ∷ replace_from place k n s
  unfolding replace_from
  copied m n c [] h = rw (h none, replace_from)
  copied m n c (d ∷ s) h = rw (h (some d), replace_from)

  pub quoted_other :
      (q c : ℕ) (m : Mode) (s : Text)
      → Quotes q m
      → c ≢ q
      → replace_from place k m (c ∷ s) ≡ c ∷ replace_from place k m s
  unfolding round
  quoted_other q c m s h n = copied m m c s λ next. ground arith

  pub quoted_twice :
      (q : ℕ) (m : Mode) (s : Text)
      → Quotes q m
      → replace_from place k m (q ∷ q ∷ s) ≡ q ∷ q ∷ replace_from place k m s
  unfolding round replace_from
  quoted_twice q m s h = ground arith

  pub quoted_end :
      (q : ℕ) (m : Mode) (s : Text)
      → Quotes q m
      → StartsOther q s
      → replace_from place k m (q ∷ s) ≡ q ∷ replace_from place k normal s
  unfolding round replace_from
  quoted_end q m [] h n = ground arith
  quoted_end q m (d ∷ s) h n = ground arith
