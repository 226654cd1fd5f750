-- ===== src/Sql/Placeholders/Segments.antt =====
-- A statement as a sequence of plain text, placeholders, quoted regions and comments, and what
-- `replaceSqlitePlaceholders` makes of each.
use adg_lang.Common.{
  ℕ, ◌+◌, ◌-◌, ◌≡◌, ◌≢◌, ◌⊎◌, refl, ap, arith, List, [], ◌∷◌, ◌++◌, ◌==◌, if◌then◌else◌, inl, inr,
  All, Bool-cases, append-nil, ◌∙◌, sym,
}
use adg_lang.Sql.Placeholders.{
  Text, Param, Mode, normal, line_comment, block_comment, single_quote, double_quote, round,
  replace_from, replace_sqlite_placeholders, placeholder_for_value, param_at,
}
use adg_lang.Sql.Placeholders.Verbatim.{
  StartsOther, Quotes, copied, quoted_other, quoted_twice, quoted_end,
}

pub data Quote : Type 0 where
  single double : Quote

abbrev pub quote_char : Quote → ℕ
quote_char single = 39
quote_char double = 34

abbrev quote_mode : Quote → Mode
quote_mode single = single_quote
quote_mode double = double_quote

-- `plain` holds none of `'`, `"`, `-`, `/` and `?`; `dash` and `slash` are single characters that
-- open no comment; the body of `quoted` is its meaning, with no quote doubled.
pub data Segment : Type 0 where
  plain : Text → Segment
  dash slash placeholder : Segment
  quoted : Quote → Text → Segment
  to_line_end block : Text → Segment

-- The body of a quoted region: a quote in it is doubled.
abbrev pub escape : ℕ → Text → Text
escape q [] = []
escape q (c ∷ s) = let more = escape q s in if c == q then q ∷ q ∷ more else c ∷ more

abbrev pub print : List Segment → Text
print [] = []
print (plain t ∷ segs) = t ++ print segs
print (dash ∷ segs) = b'-' ∷ print segs
print (slash ∷ segs) = b'/' ∷ print segs
print (placeholder ∷ segs) = b'?' ∷ print segs
print (quoted q t ∷ segs) = quote_char q ∷ (escape (quote_char q) t ++ quote_char q ∷ print segs)
print (to_line_end t ∷ segs) = b'-' ∷ b'-' ∷ (t ++ 10 ∷ print segs)
print (block t ∷ segs) = b'/' ∷ b'*' ∷ (t ++ b'*' ∷ b'/' ∷ print segs)

-- The same with the placeholders numbered on from `k`, and everything else as it is.
abbrev pub numbered : (ℕ → Text) → ℕ → List Segment → Text
numbered place k [] = []
numbered place k (plain t ∷ segs) = t ++ numbered place k segs
numbered place k (dash ∷ segs) = b'-' ∷ numbered place k segs
numbered place k (slash ∷ segs) = b'/' ∷ numbered place k segs
numbered place k (placeholder ∷ segs) = place (k + 1) ++ numbered place (k + 1) segs
numbered place k (quoted q t ∷ segs) =
    quote_char q ∷ (escape (quote_char q) t ++ quote_char q ∷ numbered place k segs)
numbered place k (to_line_end t ∷ segs) = b'-' ∷ b'-' ∷ (t ++ 10 ∷ numbered place k segs)
numbered place k (block t ∷ segs) = b'/' ∷ b'*' ∷ (t ++ b'*' ∷ b'/' ∷ numbered place k segs)

abbrev pub IsPlain : ℕ → Type 0
IsPlain c = (c ≢ 39) × (c ≢ 34) × (c ≢ b'-') × (c ≢ b'/') × (c ≢ b'?')

-- What a reader of the statement relies on: no comment is opened by accident, no two regions with
-- the same quote touch, and the comments end where they say. A block comment's body has no `*`.
abbrev pub IsWellFormed : List Segment → Type 0
IsWellFormed [] = Unit
IsWellFormed (plain t ∷ segs) = All IsPlain t × IsWellFormed segs
IsWellFormed (dash ∷ segs) = StartsOther b'-' (print segs) × IsWellFormed segs
IsWellFormed (slash ∷ segs) = StartsOther b'*' (print segs) × IsWellFormed segs
IsWellFormed (placeholder ∷ segs) = IsWellFormed segs
IsWellFormed (quoted q t ∷ segs) = StartsOther (quote_char q) (print segs) × IsWellFormed segs
IsWellFormed (to_line_end t ∷ segs) = All (λ c. c ≢ 10) t × IsWellFormed segs
IsWellFormed (block t ∷ segs) = All (λ c. c ≢ b'*') t × IsWellFormed segs

quotes : (q : Quote) → Quotes (quote_char q) (quote_mode q)
quotes single = inl (refl, refl)
quotes double = inr (refl, refl)

module _ (place : ℕ → Text) where
  plain_copied :
      (k : ℕ) (t s : Text)
      → All IsPlain t
      → replace_from place k normal (t ++ s) ≡ t ++ replace_from place k normal s
  unfolding round
  plain_copied k [] s h = refl
  plain_copied k (c ∷ t) s (p, h) =
      copied place k normal normal c (t ++ s) (λ next. ground arith)
      ∙ ap (λ r. c ∷ r) (plain_copied k t s h)

  quoted_copied :
      (k : ℕ) (q : Quote) (t s : Text)
      → StartsOther (quote_char q) s
      → replace_from place k (quote_mode q) (escape (quote_char q) t ++ quote_char q ∷ s)
        ≡ escape (quote_char q) t ++ quote_char q ∷ replace_from place k normal s
  quoted_copied k q [] s h = quoted_end place k (quote_char q) (quote_mode q) s (quotes q) h
  quoted_copied k q (c ∷ t) s h = elim (Bool-cases (c == quote_char q)) [
    | inl e ↦
        rw (e, escape)
          (quoted_twice place k (quote_char q) (quote_mode q) _ (quotes q)
            ∙ ap (λ r. quote_char q ∷ quote_char q ∷ r) (quoted_copied k q t s h))
    | inr n ↦
        rw (n, escape)
          (quoted_other place k (quote_char q) c (quote_mode q) _ (quotes q) (ground arith)
            ∙ ap (λ r. c ∷ r) (quoted_copied k q t s h))
  ]

  line_copied :
      (k : ℕ) (t s : Text)
      → All (λ c. c ≢ 10) t
      → replace_from place k line_comment (t ++ 10 ∷ s) ≡ t ++ 10 ∷ replace_from place k normal s
  unfolding round
  line_copied k [] s h = copied place k line_comment normal 10 s (λ next. refl)
  line_copied k (c ∷ t) s (p, h) =
      copied place k line_comment line_comment c (t ++ 10 ∷ s) (λ next. ground arith)
      ∙ ap (λ r. c ∷ r) (line_copied k t s h)

  block_copied :
      (k : ℕ) (t s : Text)
      → All (λ c. c ≢ b'*') t
      → replace_from place k block_comment (t ++ b'*' ∷ b'/' ∷ s)
        ≡ t ++ b'*' ∷ b'/' ∷ replace_from place k normal s
  unfolding round replace_from
  block_copied k [] s h = refl
  block_copied k (c ∷ t) s (p, h) =
      copied place k block_comment block_comment c (t ++ b'*' ∷ b'/' ∷ s) (λ next. ground arith)
      ∙ ap (λ r. c ∷ r) (block_copied k t s h)

  sign_copied :
      (k c d : ℕ) (s : Text)
      → ((c ≡ b'-') × (d ≡ b'-')) ⊎ ((c ≡ b'/') × (d ≡ b'*'))
      → StartsOther d s
      → replace_from place k normal (c ∷ s) ≡ c ∷ replace_from place k normal s
  unfolding replace_from round
  sign_copied k c d [] h n = ground arith
  sign_copied k c d (e ∷ s) h n = ground arith

  placeholder_replaced :
      (k : ℕ) (s : Text)
      → replace_from place k normal (b'?' ∷ s)
        ≡ place (k + 1) ++ replace_from place (k + 1) normal s
  unfolding replace_from round
  placeholder_replaced k [] = sym (append-nil _)
  placeholder_replaced k (c ∷ s) = refl

  opened_quote :
      (k : ℕ) (q : Quote) (s : Text)
      → replace_from place k normal (quote_char q ∷ s)
        ≡ quote_char q ∷ replace_from place k (quote_mode q) s
  unfolding round
  opened_quote k single s = copied place k normal single_quote 39 s (λ next. refl)
  opened_quote k double s = copied place k normal double_quote 34 s (λ next. refl)

  replace_from-print :
      (k : ℕ) (segs : List Segment)
      → IsWellFormed segs
      → replace_from place k normal (print segs) ≡ numbered place k segs
  unfolding replace_from round
  replace_from-print k [] h = refl
  replace_from-print k (plain t ∷ segs) h =
      plain_copied k t (print segs) h.0 ∙ ap (λ r. t ++ r) (replace_from-print k segs h.1)
  replace_from-print k (dash ∷ segs) h =
      sign_copied k b'-' b'-' (print segs) (inl (refl, refl)) h.0
      ∙ ap (λ r. b'-' ∷ r) (replace_from-print k segs h.1)
  replace_from-print k (slash ∷ segs) h =
      sign_copied k b'/' b'*' (print segs) (inr (refl, refl)) h.0
      ∙ ap (λ r. b'/' ∷ r) (replace_from-print k segs h.1)
  replace_from-print k (placeholder ∷ segs) h =
      placeholder_replaced k (print segs)
      ∙ ap (λ r. place (k + 1) ++ r) (replace_from-print (k + 1) segs h)
  replace_from-print k (quoted q t ∷ segs) h =
      opened_quote k q _
      ∙ ap (λ r. quote_char q ∷ r) (quoted_copied k q t (print segs) h.0)
      ∙ ap (λ r. quote_char q ∷ (escape (quote_char q) t ++ quote_char q ∷ r))
          (replace_from-print k segs h.1)
  replace_from-print k (to_line_end t ∷ segs) h =
      ap (λ r. b'-' ∷ b'-' ∷ r) (line_copied k t (print segs) h.0)
      ∙ ap (λ r. b'-' ∷ b'-' ∷ (t ++ 10 ∷ r)) (replace_from-print k segs h.1)
  replace_from-print k (block t ∷ segs) h =
      ap (λ r. b'/' ∷ b'*' ∷ r) (block_copied k t (print segs) h.0)
      ∙ ap (λ r. b'/' ∷ b'*' ∷ (t ++ b'*' ∷ b'/' ∷ r)) (replace_from-print k segs h.1)

-- A well-formed statement keeps its text, its quoted regions and its comments, question marks in
-- them included, and its placeholders are numbered 1, 2, 3, … in order, each with the cast for the
-- parameter of its number.
pub replace_sqlite_placeholders-print :
    (segs : List Segment) (params : List Param)
    → IsWellFormed segs
    → replace_sqlite_placeholders (print segs) params
      ≡ numbered (λ k. placeholder_for_value k (param_at params (k - 1))) 0 segs
unfolding replace_sqlite_placeholders
replace_sqlite_placeholders-print segs params h =
    replace_from-print (λ k. placeholder_for_value k (param_at params (k - 1))) 0 segs h
