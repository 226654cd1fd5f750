-- ===== src/Protocol/Bindings/Independence.antt =====
-- What a validated adjudication is bound to.
use adg_lang.Common.{
  ◌≡◌, ◌≢◌, ◌⊎◌, inl, inr, Bool-cases, arith, Bool, true, false, not, ◌||◌, ok, Returns,
  bind-Returns, then-Returns, throw_if-Returns, String, eq_iff, [], ◌∷◌,
}
use adg_lang.Js.{
  Value, undefined, null, bool, num, whole, fraction, str, arr, obj, get, truthy, strict_eq,
  is_text,
}
use adg_lang.Hashing.{Bytes}
use adg_lang.Protocol.Values.{
  annotation_schema, annotation_unbound, packet_changed, adjudication_unbound, roles_dependent,
}
use adg_lang.Protocol.Packets.{validate_packet}
use adg_lang.Protocol.Coverage.{validate_annotation_coverage}
use adg_lang.Protocol.Resolutions.{validate_adjudication_resolutions}
use adg_lang.Protocol.Roots.{packet_identity}
use adg_lang.Protocol.Bindings.{
  is_one_of, unbound, submission_unbound, decision_unbound, other_root, slots_dependent,
  validate_submission_binding, validate_adjudication_binding, compute_packet_merkle_root,
  compute_annotation_merkle_root,
}

pub is_text-eq : (v : Value) (s : String) → is_text v s ≡ true → v ≡ str s
is_text-eq (str t) s h = let e = (eq_iff t s).0 h in cc
is_text-eq undefined s h = cc
is_text-eq null s h = cc
is_text-eq (bool true) s h = cc
is_text-eq (bool false) s h = cc
is_text-eq (num (whole z)) s h = cc
is_text-eq (num (fraction f t)) s h = cc
is_text-eq (arr vs) s h = cc
is_text-eq (obj ps) s h = cc

eq_true_of : (b : Bool) → not b ≡ false → b ≡ true
eq_true_of b h = ground arith

slot_cases :
    (v : Value) → not (is_one_of ("A" ∷ "B" ∷ []) v) ≡ false → (v ≡ str "A") ⊎ (v ≡ str "B")
slot_cases v h = elim (Bool-cases (is_text v "A")) [
  | inl a ↦ inl (is_text-eq v "A" a)
  | inr n ↦ inr (is_text-eq v "B" (ground arith))
]

true_not_false : true ≢ false
true_not_false h = cc

last_false : (a b c d : Bool) → (a || b || c || d) ≡ false → d ≡ false
last_false a b c d h = ground arith

one_slot :
    (packet submission : Value)
    → submission_unbound packet submission ≡ false
    → (get submission "annotatorSlot" ≡ str "A") ⊎ (get submission "annotatorSlot" ≡ str "B")
one_slot packet submission h = slot_cases (get submission "annotatorSlot") (
    last_false (not (truthy submission)) (not (is_text (get submission "schema") annotation_schema))
      (unbound packet_identity packet submission)
      (not (is_one_of ("A" ∷ "B" ∷ []) (get submission "annotatorSlot"))) h)

other_slot :
    (a b decision : Value)
    → slots_dependent a b decision ≡ false
    → strict_eq (get a "annotatorSlot") (get b "annotatorSlot") ≡ false
other_slot a b decision h = ground arith

same_root :
    (document : Value) (name root : String)
    → other_root document name root ≡ false
    → get document name ≡ str root
same_root document name root h = is_text-eq (get document name) root (eq_true_of _ h)

module _ (encode : String → Bytes) (digest : Bytes → String) where
  -- What a submission is bound to: the root of this packet, and its sentences and tokens.
  pub record IsSubmission (packet submission : Value) : Type 0 where
    pub slot :
        (get submission "annotatorSlot" ≡ str "A") ⊎ (get submission "annotatorSlot" ≡ str "B")
    pub packet_root : String
    pub computed : compute_packet_merkle_root encode digest packet ≡ ok packet_root
    pub carried : get submission "packetMerkleRoot" ≡ str packet_root
    pub covered : validate_annotation_coverage packet submission ≡ ok tt

  IsSubmission-of :
      (packet submission : Value)
      → Returns
          (λ _. IsSubmission packet submission)
          (validate_submission_binding encode digest packet submission)
  unfolding validate_submission_binding
  IsSubmission-of packet submission = then-Returns {m = validate_packet packet} λ _ _.
      throw_if-Returns (submission_unbound packet submission) annotation_unbound λ fits.
        then-Returns {m = compute_packet_merkle_root encode digest packet} λ root computed.
          throw_if-Returns (other_root submission "packetMerkleRoot" root) packet_changed λ carried.
            record {
              value = λ _ covered. record {
                slot = one_slot packet submission fits;
                packet_root = root;
                computed = computed;
                carried = same_root submission _ root carried;
                covered = covered;
              };
            }

  -- The two annotations of an adjudication are the two different slots, and the decision carries
  -- the roots that are computed from the packet and from these two annotations.
  pub record IsAdjudication (packet a b decision : Value) : Type 0 where
    pub first : IsSubmission packet a
    pub second : IsSubmission packet b
    pub independent :
        ((get a "annotatorSlot" ≡ str "A") × (get b "annotatorSlot" ≡ str "B"))
        ⊎ ((get a "annotatorSlot" ≡ str "B") × (get b "annotatorSlot" ≡ str "A"))
    pub root_a : String
    pub root_b : String
    pub computed_a : compute_annotation_merkle_root encode digest packet a ≡ ok root_a
    pub computed_b : compute_annotation_merkle_root encode digest packet b ≡ ok root_b
    pub carried_a : get decision "annotationAMerkleRoot" ≡ str root_a
    pub carried_b : get decision "annotationBMerkleRoot" ≡ str root_b
    pub covered : validate_annotation_coverage packet decision ≡ ok tt
    pub resolved : validate_adjudication_resolutions a b decision ≡ ok tt

  two_slots :
      (v w : Value)
      → (v ≡ str "A") ⊎ (v ≡ str "B")
      → (w ≡ str "A") ⊎ (w ≡ str "B")
      → strict_eq v w ≡ false
      → ((v ≡ str "A") × (w ≡ str "B")) ⊎ ((v ≡ str "B") × (w ≡ str "A"))
  two_slots v w (inl a) (inr b) n = inl (a, b)
  two_slots v w (inr a) (inl b) n = inr (a, b)
  two_slots v w (inl a) (inl b) n = absurd (true_not_false (rw (a, b) at n))
  two_slots v w (inr a) (inr b) n = absurd (true_not_false (rw (a, b) at n))

  -- A validated adjudication judges one annotation of slot A and one of slot B, both made for
  -- this packet and covering it, carries the roots that are computed from these two annotations,
  -- covers the packet itself, and has passed the check of its resolutions against both.
  pub validate_adjudication_binding-IsAdjudication :
      (packet a b decision : Value)
      → validate_adjudication_binding encode digest packet a b decision ≡ ok tt
      → IsAdjudication packet a b decision
  unfolding validate_adjudication_binding
  validate_adjudication_binding-IsAdjudication packet a b decision e = bound.value tt e
    where
      bound :
          Returns
            (λ _. IsAdjudication packet a b decision)
            (validate_adjudication_binding encode digest packet a b decision)
      bound = bind-Returns (IsSubmission-of packet a) λ _ s.
          bind-Returns (IsSubmission-of packet b) λ _ t.
            throw_if-Returns (decision_unbound packet decision) adjudication_unbound λ _.
              then-Returns {m = compute_packet_merkle_root encode digest packet} λ root _.
                throw_if-Returns (other_root decision "packetMerkleRoot" root) adjudication_unbound
                  λ _.
                    then-Returns {m = compute_annotation_merkle_root encode digest packet a}
                      λ root_a computed_a.
                        throw_if-Returns (other_root decision "annotationAMerkleRoot" root_a)
                          adjudication_unbound
                          λ carried_a.
                            then-Returns {m = compute_annotation_merkle_root encode digest packet b}
                              λ root_b computed_b.
                                throw_if-Returns
                                  (other_root decision "annotationBMerkleRoot" root_b)
                                  adjudication_unbound
                                  λ carried_b.
                                    throw_if-Returns (slots_dependent a b decision) roles_dependent
                                      λ roles.
                                        then-Returns
                                          {m = validate_annotation_coverage packet decision}
                                          λ _ covered. record {
                                            value = λ _ resolved. record {
                                              first = s;
                                              second = t;
                                              independent =
                                                  two_slots _ _ s.slot t.slot
                                                    (other_slot a b decision roles);
                                              root_a = root_a;
                                              root_b = root_b;
                                              computed_a = computed_a;
                                              computed_b = computed_b;
                                              carried_a = same_root decision _ root_a carried_a;
                                              carried_b = same_root decision _ root_b carried_b;
                                              covered = covered;
                                              resolved = resolved;
                                            };
                                          }
