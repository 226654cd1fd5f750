-- ===== src/Consensus/Agreement/Counts.antt =====
-- The counts behind Cohen's kappa.
use adg_lang.Common.{
  ℕ, ◌+◌, ◌≡◌, refl, arith, [], ◌∷◌, String, str_eq, eq_iff, length, if◌then◌else◌, select, not,
}
use adg_lang.Consensus.Agreement.{Pairs, Counts, count_of, bump, tally_pairs, disagreement_count_of}

abbrev pub total : Counts → ℕ
total [] = 0
total ((l, n) ∷ cs) = n + total cs

total-bump : (l : String) (cs : Counts) → total (bump l cs) ≡ total cs + 1
unfolding bump
total-bump l [] = refl
total-bump l ((j, n) ∷ cs) = ground (arith, total-bump l cs)

-- The number of pairs with an equal label on both sides.
abbrev pub agreements : Pairs → ℕ
agreements [] = 0
agreements ((l, r) ∷ ps) = let rest = agreements ps in if str_eq l r then rest + 1 else rest

-- The occurrences of a label among the first components, and among the second ones.
abbrev pub count_left : String → Pairs → ℕ
count_left x [] = 0
count_left x ((l, r) ∷ ps) = let rest = count_left x ps in if str_eq x l then rest + 1 else rest

abbrev pub count_right : String → Pairs → ℕ
count_right x [] = 0
count_right x ((l, r) ∷ ps) = let rest = count_right x ps in if str_eq x r then rest + 1 else rest

count_of-bump :
    (x l : String) (cs : Counts)
    → count_of x (bump l cs) ≡ (if str_eq x l then count_of x cs + 1 else count_of x cs)
unfolding bump
count_of-bump x l [] = refl
count_of-bump x l ((j, n) ∷ cs) =
    ground (arith, count_of-bump x l cs, eq_iff x l, eq_iff l j, eq_iff x j)

-- What the loop adds to the counts with which it starts.
pub tally_pairs_lem :
    (ps : Pairs) (start : ℕ) (left right : Counts)
    → let (agreement, left', right') = tally_pairs ps start left right in
      (agreement ≡ start + agreements ps)
      × ((x : String) → count_of x left' ≡ count_of x left + count_left x ps)
      × ((x : String) → count_of x right' ≡ count_of x right + count_right x ps)
      × (total left' ≡ total left + length ps)
      × (total right' ≡ total right + length ps)
unfolding tally_pairs
tally_pairs_lem [] start left right =
    (omega arith, λ x. omega arith, λ x. omega arith, omega arith, omega arith)
tally_pairs_lem ((l, r) ∷ ps) start left right =
    let start' = if str_eq l r then start + 1 else start in
    let (h₁, h₂, h₃, h₄, h₅) = tally_pairs_lem ps start' (bump l left) (bump r right) in
    (
      ground (arith, h₁),
      λ x. ground (arith, h₂ x, count_of-bump x l left),
      λ x. ground (arith, h₃ x, count_of-bump x r right),
      omega (arith, h₄, total-bump l left),
      omega (arith, h₅, total-bump r right),
    )

-- For any pairs, the loop of `cohenKappa` counts the pairs that agree and, on each side, exactly
-- the occurrences of every label; the counts of each side add up to the number of pairs, and the
-- agreements to that number less the disagreements.
pub tally_pairs_counts :
    (ps : Pairs)
    → let (agreement, left, right) = tally_pairs ps 0 [] [] in
      (agreement + disagreement_count_of ps ≡ length ps)
      × ((x : String) → count_of x left ≡ count_left x ps)
      × ((x : String) → count_of x right ≡ count_right x ps)
      × (total left ≡ length ps)
      × (total right ≡ length ps)
unfolding disagreement_count_of
tally_pairs_counts ps =
    let (h₁, h₂, h₃, h₄, h₅) = tally_pairs_lem ps 0 [] [] in
    (
      rw h₁ (split ps),
      λ x. omega (arith, h₂ x),
      λ x. omega (arith, h₃ x),
      omega (arith, h₄),
      omega (arith, h₅),
    )
  where
    split :
        (qs : Pairs)
        → 0 + agreements qs + length (select (λ p. not (str_eq p.0 p.1)) qs) ≡ length qs
    split [] = omega arith
    split ((l, r) ∷ qs) = ground (arith, split qs)
