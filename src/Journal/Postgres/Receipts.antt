-- ===== src/Journal/Postgres/Receipts.antt =====
-- What `applyMutatingOperationsWithReceipt` may do to PostgreSQL, case by case.
use adg_lang.Common.{
  ℕ, suc, ◌≤◌, ◌≡◌, refl, true, false, List, ◌∷◌, any, find, ◌==◌, Bool-cases, inl, inr, Option,
  none, some, Result, ok, err, arith,
}
use adg_lang.Journal.Errors.{Failure, plain_error}
use adg_lang.Journal.Payload.{Operation}
use adg_lang.Journal.Postgres.{
  Receipt, Postgres, RunResult, Applied, Write, begin, taken, is_of, is_same_write, forced_or,
  conflict_error, mismatch_error, recall, new_receipt, write_claimed, run_operations, claim,
  apply_body, zero_results_for_operations, apply_mutating_operations_with_receipt,
}

module _ {S : Type 0} (execute : Operation → S → Result Failure (RunResult × S)) where
  -- Why the transaction threw.
  pub data Cause (w : Write) (p : Postgres S) : Failure → Type 0 where
    no_generation :
        p.current_generation ≡ none
        → Cause w p (plain_error "PostgreSQL CPOLY runtime state is missing.")
    other_generation :
        (g : ℕ)
        → p.current_generation ≡ some g
        → (g == forced_or w.forced_generation g) ≡ false
        → Cause w p (mismatch_error (forced_or w.forced_generation g) g)
    other_write :
        (r : Receipt)
        → find (is_of w.request_id) p.receipts ≡ some r
        → is_same_write w r ≡ false
        → Cause w p (conflict_error w)
    other_number :
        any (taken w.request_id (suc p.last_seq)) p.receipts ≡ true
        → find (is_of w.request_id) p.receipts ≡ none
        → Cause w p (conflict_error w)
    statement_failed :
        {e : Failure}
        → any (taken w.request_id (suc p.last_seq)) p.receipts ≡ false
        → run_operations execute w.operations p.store ≡ err e
        → Cause w p e

  -- The transaction threw, found the receipt of the same write, or made the write.
  pub data Step (w : Write) (now : ℕ) (p : Postgres S)
      : Result Failure Applied × Postgres S → Type 0 where
    refused :
        (e : Failure) (n : ℕ)
        → Cause w p e
        → p.last_seq ≤ n
        → Step w now p (err e, record p { last_seq = n })
    recalled :
        (g : ℕ) (r : Receipt)
        → p.current_generation ≡ some g
        → forced_or w.forced_generation g ≡ g
        → find (is_of w.request_id) p.receipts ≡ some r
        → is_same_write w r ≡ true
        → Step w now p (
          ok (record {
            results = zero_results_for_operations w.operations;
            receipt = record { generation = r.generation; receipt_seq = r.receipt_seq };
          }),
          record p { last_seq = suc p.last_seq },
        )
    written :
        (g : ℕ) (rs : List RunResult) (s : S)
        → p.current_generation ≡ some g
        → forced_or w.forced_generation g ≡ g
        → any (taken w.request_id (suc p.last_seq)) p.receipts ≡ false
        → run_operations execute w.operations p.store ≡ ok (rs, s)
        → Step w now p (
          ok (record {
            results = rs;
            receipt = record { generation = g; receipt_seq = suc p.last_seq };
          }),
          record p {
            last_seq = suc p.last_seq;
            receipts = new_receipt w (suc p.last_seq) g now ∷ p.receipts;
            store = s;
          },
        )

  module _ (w : Write) (now : ℕ) (p : Postgres S) (g : ℕ) (eg : p.current_generation ≡ some g)
      (ef : forced_or w.forced_generation g ≡ g) where
    recall-Step :
        (found : Option Receipt)
        → any (taken w.request_id (suc p.last_seq)) p.receipts ≡ true
        → find (is_of w.request_id) p.receipts ≡ found
        → Step w now p (begin p (recall w found, record p { last_seq = suc p.last_seq }))
    recall-Step none t e = refused _ _ (other_number t e) (omega arith)
    recall-Step (some r) n e = elim (Bool-cases (is_same_write w r)) [
      | inl t ↦ rw t (recalled g r eg ef e t)
      | inr f ↦ rw f (refused _ _ (other_write r e f) (omega arith))
    ]

    write_claimed-Step :
        (out : Result Failure (List RunResult × S))
        → any (taken w.request_id (suc p.last_seq)) p.receipts ≡ false
        → run_operations execute w.operations p.store ≡ out
        → Step w now p (
            begin p (
              write_claimed
                (new_receipt w (suc p.last_seq) g now)
                (record p { last_seq = suc p.last_seq })
                out))
    write_claimed-Step (err e) n q = refused _ _ (statement_failed n q) (omega arith)
    write_claimed-Step (ok (rs, s)) n q = written g rs s eg ef n q

    claim-Step : Step w now p (begin p (claim execute w g now p))
    claim-Step = elim (Bool-cases (any (taken w.request_id (suc p.last_seq)) p.receipts)) [
      | inl t ↦ rw t (recall-Step _ t refl)
      | inr f ↦ rw f (write_claimed-Step _ f refl)
    ]

  apply_body-Step :
      (w : Write) (now : ℕ) (p : Postgres S) (g : Option ℕ)
      → p.current_generation ≡ g
      → Step w now p (begin p (apply_body execute w now p g))
  apply_body-Step w now p none e = refused _ _ (no_generation e) (omega arith)
  apply_body-Step w now p (some g) e = elim (Bool-cases (g == forced_or w.forced_generation g)) [
    | inl t ↦ rw t (claim-Step w now p g e (ground arith))
    | inr f ↦ rw f (refused _ _ (other_generation g e f) (omega arith))
  ]

  pub apply-Step :
      (w : Write) (now : ℕ) (p : Postgres S)
      → Step w now p (apply_mutating_operations_with_receipt execute w now p)
  unfolding apply_mutating_operations_with_receipt
  apply-Step w now p = apply_body-Step w now p p.current_generation refl
