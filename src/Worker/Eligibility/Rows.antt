-- ===== src/Worker/Eligibility/Rows.antt =====
-- The rows that the queries of `validateConsensusEligibility` give, and the roots of the stored
-- annotations.
use adg_lang.Common.{
  ◌≡◌, ◌≢◌, refl, sym, ap, subst, arith, Bool, true, false, ◌&&◌, Option, none, some, Result, ok,
  err, Returns, bind-Returns, then-Returns, ok-Returns, List, [], ◌∷◌, ◌⊎◌, inl, inr, ◌↔◌, String,
  eq_iff, eq_refl, Bool-cases, find, select, length, All, All-map, All-both, All-append,
  All-of_append, Any,
}
use adg_lang.Js.{Value, str, get, is_text}
use adg_lang.Hashing.{Bytes}
use adg_lang.Store.Tables.{Task, Round, Submission}
use adg_lang.Protocol.Values.{Refusal, has_value}
use adg_lang.Protocol.Coverage.{value_set}
use adg_lang.Protocol.Bindings.{compute_annotation_merkle_root}
use adg_lang.Protocol.Bindings.Independence.{is_text-eq}
use adg_lang.Worker.Eligibility.{
  Role, a, b, role_name, text_is, lift, is_independent, independent_submissions, stored_roots,
}

module _ {A : Type 0} (p : A → Bool) where
  pub found_row : (xs : List A) {x : A} → find p xs ≡ some x → (p x ≡ true) × Any (λ y. y ≡ x) xs
  found_row [] h = absurd cc
  found_row (y ∷ xs) {x} h = elim (Bool-cases (p y)) [
    | inl t ↦ let h' = rw t at h in let e : y ≡ x = cc in (rw e at t, inl e)
    | inr f ↦ let (q, k) = found_row xs (rw f at h) in (q, inr k)
  ]

  -- The selected rows are rows that pass the test, and every row that passes it is selected.
  pub selected_rows : (xs : List A) → All (λ x. (p x ≡ true) × Any (λ y. y ≡ x) xs) (select p xs)
  selected_rows [] = tt
  selected_rows (x ∷ xs) =
      let rest =
        All-map {Q = λ z. (p z ≡ true) × Any (λ y. y ≡ z) (x ∷ xs)} (select p xs)
          (λ z k. (k.0, inr k.1)) (selected_rows xs) in
      elim (Bool-cases (p x)) [ inl t ↦ rw t ((t, inl refl), rest) | inr f ↦ rw f rest ]

  pub select_covers :
      (xs : List A) (P : A → Type 0) → All P (select p xs) → All (λ x. (p x ≡ false) ⊎ P x) xs
  select_covers [] P h = tt
  select_covers (x ∷ xs) P h = elim (Bool-cases (p x)) [
    | inl t ↦ let h' = rw t at h in (inr h'.0, select_covers xs P h'.1)
    | inr f ↦ (inl f, select_covers xs P (rw f at h))
  ]

text_is_iff : (o : Option String) (s : String) → (text_is o s ≡ true) ↔ (o ≡ some s)
text_is_iff none s = (λ h. absurd cc, λ h. absurd cc)
text_is_iff (some t) s = (λ h. ap some ((eq_iff t s).0 h), λ h. (eq_iff t s).1 (cc))

four_true :
    (x y z w : Bool) → (x && y && z && w) ≡ true → (x ≡ true) × (y ≡ true) × (z ≡ true) × (w ≡ true)
four_true true true true true h = (refl, refl, refl, refl)
four_true x y z w h = absurd cc

module _ (task : Task) (round : Round) where
  -- An active submission of this task and this round, in this role.
  pub record IsStored (role : Role) (s : Submission) : Type 0 where
    pub of_task : s.task_version_id ≡ some task.id
    pub of_round : s.round_id ≡ some round.id
    pub in_role : s.consensus_role ≡ some (role_name role)
    pub is_active : s.active ≡ true

  is_independent_iff :
      (role : Role) (s : Submission) → (is_independent task round role s ≡ true) ↔ IsStored role s
  is_independent_iff role s = (there, back)
    where
      there : is_independent task round role s ≡ true → IsStored role s
      there h =
          let (t, r, n, act) =
            four_true (text_is s.task_version_id task.id) (text_is s.round_id round.id)
              (text_is s.consensus_role (role_name role)) s.active h in
          record {
            of_task = (text_is_iff _ _).0 t;
            of_round = (text_is_iff _ _).0 r;
            in_role = (text_is_iff _ _).0 n;
            is_active = act;
          }

      back : IsStored role s → is_independent task round role s ≡ true
      back k =
          rw
            (
              (text_is_iff _ _).1 k.of_task,
              (text_is_iff _ _).1 k.of_round,
              (text_is_iff _ _).1 k.in_role,
              k.is_active,
            )
            refl

  abbrev pub IsPrimary : Submission → Type 0
  IsPrimary s = IsStored a s ⊎ IsStored b s

  -- The two rows are among the submissions, they are stored annotations of A or B, and there are no
  -- others.
  pub record ArePrimaries (x y : Submission) (submissions : List Submission) : Type 0 where
    pub first_stored : IsPrimary x × Any (λ s. s ≡ x) submissions
    pub second_stored : IsPrimary y × Any (λ s. s ≡ y) submissions
    pub no_others : All (λ s. (¬ IsPrimary s) ⊎ ((s ≡ x) ⊎ (s ≡ y))) submissions

  stored_rows :
      (submissions : List Submission)
      → All
          (λ s. IsPrimary s × Any (λ z. z ≡ s) submissions)
          (independent_submissions task round submissions)
  stored_rows ss =
      All-append (λ s. IsPrimary s × Any (λ z. z ≡ s) ss) (select (is_independent task round a) ss)
        (select (is_independent task round b) ss)
        (All-map _ (λ s k. (inl ((is_independent_iff a s).0 k.0), k.1))
          (selected_rows (is_independent task round a) ss))
        (All-map _ (λ s k. (inr ((is_independent_iff b s).0 k.0), k.1))
          (selected_rows (is_independent task round b) ss))

  no_other :
      (s : Submission) (P : Type 0)
      → (is_independent task round a s ≡ false) ⊎ P
      → (is_independent task round b s ≡ false) ⊎ P
      → (¬ IsPrimary s) ⊎ P
  no_other s P (inr p) k = inr p
  no_other s P (inl f) (inr p) = inr p
  no_other s P (inl f) (inl g) = inl refuted
    where
      refuted : ¬ IsPrimary s
      refuted (inl h) = let t = (is_independent_iff a s).1 h in cc
      refuted (inr h) = let t = (is_independent_iff b s).1 h in cc

  pub ArePrimaries-of_rows :
      (submissions : List Submission) {x y : Submission}
      → independent_submissions task round submissions ≡ x ∷ y ∷ []
      → ArePrimaries x y submissions
  ArePrimaries-of_rows ss {x} {y} e =
      let rows : All (λ s. IsPrimary s × Any (λ z. z ≡ s) ss) (x ∷ y ∷ []) =
        subst (All (λ s. IsPrimary s × Any (λ z. z ≡ s) ss)) e (stored_rows ss) in
      let P : Submission → Type 0 = λ s. (s ≡ x) ⊎ (s ≡ y) in
      let (in_a, in_b) =
        All-of_append P (select (is_independent task round a) ss)
          (select (is_independent task round b) ss)
          (subst (All P) (sym e) (inl refl, (inr refl, tt))) in
      record {
        first_stored = rows.0;
        second_stored = rows.1.0;
        no_others =
            All-map ss (λ s k. no_other s (P s) k.0 k.1)
              (All-both _ _ ss (select_covers (is_independent task round a) ss P in_a)
                (select_covers (is_independent task round b) ss P in_b));
      }

pub two_rows : {A : Type 0} (xs : List A) → length xs ≡ 2 → (x y : A) × (xs ≡ x ∷ y ∷ [])
two_rows [] h = absurd (omega (arith, h))
two_rows (x ∷ []) h = absurd (omega (arith, h))
two_rows (x ∷ y ∷ []) h = (x, y, refl)
two_rows (x ∷ y ∷ z ∷ xs) h = absurd (omega (arith, h))

lifted : {A : Type 0} (m : Result Refusal A) {x : A} → lift m ≡ ok x → m ≡ ok x
lifted (ok y) h = cc
lifted (err e) h = absurd cc

pub has_value_two :
    (v : Value) (r s : String) → has_value v (str r ∷ str s ∷ []) ≡ true → (v ≡ str r) ⊎ (v ≡ str s)
has_value_two v r s h = elim (Bool-cases (is_text v r)) [
  | inl t ↦ inl (is_text-eq v r t)
  | inr f ↦ inr (is_text-eq v s (ground arith))
]

pub value_set_two : (r s : String) → length (value_set (str r ∷ str s ∷ [])) ≡ 2 → r ≢ s
unfolding value_set
value_set_two r s h e = let h' = rw (e, eq_refl s) at h in absurd (omega (arith, h'))

module _ (encode : String → Bytes) (digest : Bytes → String) where
  -- The root of the annotation that the submission stores.
  abbrev pub HasRoot : Submission → String → Type 0
  HasRoot s root =
      compute_annotation_merkle_root encode digest (get s.artifact "packet")
        (get s.artifact "annotation")
      ≡ ok root

  pub stored_roots_two :
      (x y : Submission)
      → Returns
          (λ roots. (r s : String) × (roots ≡ str r ∷ str s ∷ []) × HasRoot x r × HasRoot y s)
          (stored_roots encode digest (x ∷ y ∷ []))
  unfolding stored_roots
  stored_roots_two x y =
      then-Returns
        {m = lift (
          compute_annotation_merkle_root encode digest (get x.artifact "packet")
            (get x.artifact "annotation"))}
        λ r first.
          bind-Returns {P = λ roots. (s : String) × (roots ≡ str s ∷ []) × HasRoot y s}
            (then-Returns
              {m = lift (
                compute_annotation_merkle_root encode digest (get y.artifact "packet")
                  (get y.artifact "annotation"))}
              λ s second. ok-Returns (s, refl, lifted _ second))
            λ roots k.
              let (s, same, second) = k in ok-Returns (r, s, rw same refl, lifted _ first, second)
