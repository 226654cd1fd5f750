-- ===== src/Worker/Eligibility/Qualified.antt =====
-- What the two adjudicators need beyond a free place: the grants of J1 and J2.
use adg_lang.Common.{
  ℕ, ◌≡◌, ◌≢◌, refl, ◌∙◌, arith, eq_iff, ==_iff, Bool, true, false, not, ◌&&◌, ◌||◌, Option, none,
  some, ok, Returns, bind-Returns, ok-Returns, throw_if, throw_if-Returns, ◌>>=◌, ◌>>◌, String,
  List, [], ◌∷◌, ◌⊎◌, any, find, length, ◌==◌, str_eq, Any, Any-of_any,
}
use adg_lang.Js.{Value, str, get, is_text}
use adg_lang.Hashing.{Bytes}
use adg_lang.Store.Tables.{Task, Round, Submission}
use adg_lang.Protocol.Values.{has_value}
use adg_lang.Protocol.Coverage.{value_set}
use adg_lang.Protocol.Bindings.Independence.{is_text-eq}
use adg_lang.Worker.Eligibility.{
  Role, a, b, j1, j2, Records, Final, primaries_missing, primaries_differ, final_differs,
  independent_submissions, is_primary_final, other_final, Grant, plain, independent, primary_final,
  stored_roots, first_adjudication, second_review, role_grant,
}
use adg_lang.Worker.Eligibility.Rows.{
  found_row, ArePrimaries, ArePrimaries-of_rows, two_rows, has_value_two, value_set_two, HasRoot,
  stored_roots_two,
}

pub eq_true_of : (c : Bool) → not c ≡ false → c ≡ true
eq_true_of c h = ground arith

three_false :
    (x y z : Bool) → (not x || not y || not z) ≡ false → (x ≡ true) × (y ≡ true) × (z ≡ true)
three_false true true true h = (refl, refl, refl)
three_false x y z h = cc

five_true :
    (v w x y z : Bool)
    → (v && w && x && y && z) ≡ true
    → (v ≡ true) × (w ≡ true) × (x ≡ true) × (y ≡ true) × (z ≡ true)
five_true true true true true true h = (refl, refl, refl, refl, refl)
five_true v w x y z h = absurd cc

module _ (encode : String → Bytes) (digest : Bytes → String) where
  -- J1 judges the stored annotations of A and B, which are two with different roots, and both roots
  -- that the adjudication carries are roots of theirs.
  pub record IsFirst (submissions : List Submission) (task : Task) (round : Round)
      (artifact : Value) (grant : Grant) : Type 0 where
    pub first : Submission
    pub second : Submission
    pub granted : grant ≡ independent (first ∷ second ∷ [])
    pub primaries : ArePrimaries task round first second submissions
    pub first_root : String
    pub second_root : String
    pub first_has : HasRoot encode digest first first_root
    pub second_has : HasRoot encode digest second second_root
    pub roots_differ : first_root ≢ second_root
    pub carries_a :
        (get (get artifact "adjudication") "annotationAMerkleRoot" ≡ str first_root)
        ⊎ (get (get artifact "adjudication") "annotationAMerkleRoot" ≡ str second_root)
    pub carries_b :
        (get (get artifact "adjudication") "annotationBMerkleRoot" ≡ str first_root)
        ⊎ (get (get artifact "adjudication") "annotationBMerkleRoot" ≡ str second_root)

  -- J2 reviews a proposed result of this task and round that a stored submission made: the one that
  -- the ratification names, with its receipt and its root.
  pub record IsSecond (submissions : List Submission) (finals : List Final) (task : Task)
      (round : Round) (artifact : Value) (grant : Grant) : Type 0 where
    pub final : Final
    pub granted : grant ≡ primary_final (some final)
    pub is_stored : Any (λ f. f ≡ final) finals
    pub of_task : final.task_version_id ≡ task.id
    pub of_round : final.round_id ≡ round.id
    pub is_proposed : final.is_proposed ≡ true
    pub has_receipt : Any (λ s. s.receipt_id ≡ final.primary_receipt_id) submissions
    pub names_receipt :
        get (get artifact "ratification") "primaryReceiptId" ≡ str final.primary_receipt_id
    pub names_root :
        get (get artifact "ratification") "primaryAdjudicationMerkleRoot"
        ≡ str final.final_merkle_root

  abbrev pub IsQualified : (ℕ → Records) → Role → Task → Round → Value → Grant → Type 0
  IsQualified at a task round artifact grant = grant ≡ plain
  IsQualified at b task round artifact grant = grant ≡ plain
  IsQualified at j1 task round artifact grant = IsFirst (at 2).submissions task round artifact grant
  IsQualified at j2 task round artifact grant =
      IsSecond (at 2).submissions (at 2).finals task round artifact grant

  module _ (at : ℕ → Records) (task : Task) (round : Round) (artifact : Value) where
    IsFirst-of_roots :
        (x y : Submission) (roots : List Value)
        → ArePrimaries task round x y (at 2).submissions
        → (r : String) × (s : String) × (roots ≡ str r ∷ str s ∷ [])
          × HasRoot encode digest x r
          × HasRoot encode digest y s
        → length (value_set roots) ≡ 2
        → has_value (get (get artifact "adjudication") "annotationAMerkleRoot") roots ≡ true
        → has_value (get (get artifact "adjudication") "annotationBMerkleRoot") roots ≡ true
        → IsFirst (at 2).submissions task round artifact (independent (x ∷ y ∷ []))
    IsFirst-of_roots x y roots p (r, s, e, hx, hy) two in_a in_b = record {
      first = x;
      second = y;
      granted = refl;
      primaries = p;
      first_root = r;
      second_root = s;
      first_has = hx;
      second_has = hy;
      roots_differ = value_set_two r s (rw e at two);
      carries_a = has_value_two _ r s (rw e at in_a);
      carries_b = has_value_two _ r s (rw e at in_b);
    }

    IsFirst-of_rows :
        (rows : List Submission)
        → independent_submissions task round (at 2).submissions ≡ rows
        → length rows ≡ 2
        → Returns (IsFirst (at 2).submissions task round artifact) (
            stored_roots encode digest rows >>= λ roots.
            throw_if
              (not (length (value_set roots) == 2)
                || not (has_value (get (get artifact "adjudication") "annotationAMerkleRoot") roots)
                || not
                    (has_value (get (get artifact "adjudication") "annotationBMerkleRoot") roots))
              primaries_differ
            >> ok (independent rows))
    IsFirst-of_rows rows e n =
        let (x, y, same) = two_rows rows n in
        rw same (
          bind-Returns (stored_roots_two encode digest x y) λ roots two.
            throw_if-Returns
              (not (length (value_set roots) == 2)
                || not (has_value (get (get artifact "adjudication") "annotationAMerkleRoot") roots)
                || not
                    (has_value (get (get artifact "adjudication") "annotationBMerkleRoot") roots))
              primaries_differ
              λ fits.
                let (distinct, has_a, has_b) =
                  three_false (length (value_set roots) == 2)
                    (has_value (get (get artifact "adjudication") "annotationAMerkleRoot") roots)
                    (has_value (get (get artifact "adjudication") "annotationBMerkleRoot") roots)
                    fits in
                ok-Returns {a = independent (x ∷ y ∷ [])} (
                  IsFirst-of_roots x y roots
                    (ArePrimaries-of_rows task round (at 2).submissions (e ∙ same)) two
                    ((==_iff (length (value_set roots)) 2).0 distinct) has_a has_b))

    IsFirst-of :
        Returns
          (IsFirst (at 2).submissions task round artifact)
          (first_adjudication encode digest at task round artifact)
    unfolding first_adjudication
    IsFirst-of =
        let rows = independent_submissions task round (at 2).submissions in
        throw_if-Returns (not (length rows == 2)) primaries_missing
          λ two. IsFirst-of_rows rows refl ((==_iff (length rows) 2).0 (eq_true_of _ two))

    IsSecond-of_final :
        (row : Option Final)
        → find
            (is_primary_final task round
              (get (get artifact "ratification") "primaryReceiptId")
              (at 2).submissions)
            (at 2).finals
          ≡ row
        → other_final row (get (get artifact "ratification") "primaryAdjudicationMerkleRoot")
          ≡ false
        → IsSecond (at 2).submissions (at 2).finals task round artifact (primary_final row)
    IsSecond-of_final none e h = absurd cc
    IsSecond-of_final (some f) e h =
        let (test, stored) =
          found_row
            (is_primary_final task round (get (get artifact "ratification") "primaryReceiptId")
              (at 2).submissions)
            (at 2).finals e in
        let (receipt, of_task, of_round, proposed, has) =
          five_true
            (is_text (get (get artifact "ratification") "primaryReceiptId") f.primary_receipt_id)
            (str_eq f.task_version_id task.id) (str_eq f.round_id round.id) f.is_proposed
            (any (λ s. str_eq s.receipt_id f.primary_receipt_id) (at 2).submissions) test in
        record {
          final = f;
          granted = refl;
          is_stored = stored;
          of_task = (eq_iff _ _).0 of_task;
          of_round = (eq_iff _ _).0 of_round;
          is_proposed = proposed;
          has_receipt =
              Any-of_any (λ s. s.receipt_id ≡ f.primary_receipt_id) _ (at 2).submissions
                (λ s. (eq_iff s.receipt_id f.primary_receipt_id).0) has;
          names_receipt = is_text-eq _ _ receipt;
          names_root = is_text-eq _ _ (eq_true_of _ h);
        }

    IsSecond-of :
        Returns
          (IsSecond (at 2).submissions (at 2).finals task round artifact)
          (second_review encode digest at task round artifact)
    unfolding second_review
    IsSecond-of =
        let ratification = get artifact "ratification" in
        let row =
          find
            (is_primary_final task round (get ratification "primaryReceiptId") (at 2).submissions)
            (at 2).finals in
        throw_if-Returns (other_final row (get ratification "primaryAdjudicationMerkleRoot"))
          final_differs λ same. ok-Returns {a = primary_final row} (IsSecond-of_final row refl same)

    pub IsQualified-of :
        (role : Role)
        → Returns
            (IsQualified at role task round artifact)
            (role_grant encode digest at role task round artifact)
    IsQualified-of a = ok-Returns {a = plain} refl
    IsQualified-of b = ok-Returns {a = plain} refl
    IsQualified-of j1 = IsFirst-of
    IsQualified-of j2 = IsSecond-of
